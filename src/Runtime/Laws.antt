-- ===== src/Runtime/Laws.antt =====
-- What internal/kernel/kernel.go says of a kernel, and that a controller of the firewall keeps its promise
-- where it reports no error, as laws of the interfaces; and what an operation leaves.
use Prim.Native.String.{String}
use yzboard_node.Prelude.{ℕ, ◌≡◌, Bool, true, false, Option, none, some, List, if◌then◌else◌}
use yzboard_node.Users.{UserSpec}
use yzboard_node.Users.Maps.{has_id, or_else}
use yzboard_node.Users.Credentials.{credential}
use yzboard_node.Model.{NodeSpec}
use yzboard_node.Runtime.{Kernel, Controller, TlsCert}

-- The comments of the interface: `Start` and `Reload` begin to serve what they are given, `Stop` stops,
-- and the operations on users leave the configuration alone. Where they end without an error, the kernel
-- runs, `AddUsers` skips the ids that are there, `RemoveUsers` the ids that are not, and `UpdateUsers`
-- replaces all. `config` and `credentials` are the configuration and the users that the kernel records.
pub record IsKernel (k : Kernel) : Type 0 where
  pub config : k.State → Option NodeSpec
  pub credentials : k.State → ℕ → Option String
  pub stopped : (s : k.State) → k.is_running (k.stop s) ≡ false
  pub started :
      (s : k.State) (n : NodeSpec) (us : List UserSpec) (t : TlsCert)
      → (k.start s n us t).1 ≡ true
      → (k.is_running (k.start s n us t).0 ≡ true)
        × (config (k.start s n us t).0 ≡ some n)
        × ((id : ℕ) → credentials (k.start s n us t).0 id ≡ credential us id)
  pub reloaded :
      (s : k.State) (n : NodeSpec) (us : List UserSpec) (t : TlsCert)
      → (k.reload s n us t).1 ≡ true
      → (k.is_running (k.reload s n us t).0 ≡ true)
        × (config (k.reload s n us t).0 ≡ some n)
        × ((id : ℕ) → credentials (k.reload s n us t).0 id ≡ credential us id)
  pub added_config : (s : k.State) (us : List UserSpec) → config (k.add_users s us).0 ≡ config s
  pub added :
      (s : k.State) (us : List UserSpec)
      → (k.add_users s us).1 ≡ true
      → (k.is_running (k.add_users s us).0 ≡ true)
        × ((id : ℕ)
            → credentials (k.add_users s us).0 id ≡ or_else (credentials s id) (credential us id))
  pub removed_config :
      (s : k.State) (us : List UserSpec) → config (k.remove_users s us).0 ≡ config s
  pub removed :
      (s : k.State) (us : List UserSpec)
      → (k.remove_users s us).1 ≡ true
      → (k.is_running (k.remove_users s us).0 ≡ true)
        × ((id : ℕ)
            → credentials (k.remove_users s us).0 id
              ≡ (if has_id id us then none else credentials s id))
  pub updated_config :
      (s : k.State) (us : List UserSpec) → config (k.update_users s us).0 ≡ config s
  pub updated :
      (s : k.State) (us : List UserSpec)
      → (k.update_users s us).1 ≡ true
      → (k.is_running (k.update_users s us).0 ≡ true)
        × ((id : ℕ) → credentials (k.update_users s us).0 id ≡ credential us id)
  pub devices_kept :
      (s : k.State) (us : List (ℕ × List String))
      → (k.is_running (k.update_global_devices s us) ≡ k.is_running s)
        × (config (k.update_global_devices s us) ≡ config s)
        × ((id : ℕ) → credentials (k.update_global_devices s us) id ≡ credentials s id)
  pub devices_cleared :
      (s : k.State)
      → (k.is_running (k.clear_global_devices s) ≡ k.is_running s)
        × (config (k.clear_global_devices s) ≡ config s)
        × ((id : ℕ) → credentials (k.clear_global_devices s) id ≡ credentials s id)

-- What `Apply` promises where it ends without an error, for the node and the type of its kernel.
-- Firewall/Manager/Controlled says what that is for the manager of the program.
pub record IsController (c : Controller) : Type 1 where
  pub IsApplied : c.State → NodeSpec → String → Type 0
  pub applied :
      (f : c.State) (n : NodeSpec) (kernel_type : String)
      → (c.apply f n kernel_type).1 ≡ true
      → IsApplied (c.apply f n kernel_type).0 n kernel_type

-- What an operation leaves: `Good` where its result is `true`, else `Bad`.
abbrev pub Ends {ℓ κ} : {S : Type ℓ} → (S → Type κ) → (S → Type κ) → S × Bool → Type κ
Ends Good Bad (s, true) = Good s
Ends Good Bad (s, false) = Bad s
