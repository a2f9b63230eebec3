-- ===== src/Mailbox/View.antt =====
-- What a service holds that handles each event of the panel at once, and when a mailbox keeps
-- track of it.
use Prim.Native.String.{String}
use yzboard_node.Prelude.{
  ℕ, ◌≡◌, Bool, true, false, Option, none, some, List, [], ◌∷◌, if◌then◌else◌, Dict, string_Eq,
}
use yzboard_node.Users.{UserSpec, Slice}
use yzboard_node.Mailbox.{
  apply_user_delta, sync_config, sync_users, sync_devices, sync_user_delta, other, Event,
  MailboxState, NodeMailbox, is_some,
}

module _ (Config : Type 0) where
  -- What a service knows: `users` is `none` where it has no full list, and `lost` is whether an event
  -- could not be applied, so that the service has to fetch the state anew.
  pub record View : Type 0 where
    pub config : Option Config
    pub users : Slice UserSpec
    pub device_users : Option (Dict ℕ (List String))
    pub lost : Bool

abbrev pub replaced {ℓ} : {A : Type ℓ} → Option A → Option A → Option A
replaced none old = old
replaced (some a) old = some a

-- A field that is not marked as changed is what the service holds, and a marked one is not `nil`.
abbrev pub IsMarked : {A : Type 0} → Bool → Option A → Option A → Type 0
IsMarked false a held = a ≡ held
IsMarked true a held = is_some a ≡ true

module _ {Config : Type 0} where
  -- A delta on a known list; an unknown list, or an unknown action, is a loss.
  abbrev pub direct_delta : Slice UserSpec → String → List UserSpec → View Config → View Config
  direct_delta users action [] v = v
  direct_delta none action (d ∷ ds) v = record v { lost = true }
  direct_delta (some us) action (d ∷ ds) v =
      let (users', known) = apply_user_delta (some us) action (d ∷ ds) in
      if known then record v { users = users' } else record v { lost = true }

  -- The specification: the event is handled at once.
  abbrev pub direct : View Config → Event Config → View Config
  direct v e = elim (e.type) [
    | sync_config ↦ record v { config = replaced e.config v.config }
    | sync_users ↦ record v { users = replaced e.users v.users }
    | sync_devices ↦ record v { device_users = replaced e.device_users v.device_users }
    | sync_user_delta ↦ direct_delta v.users e.delta_action e.delta_users v
    | other ↦ v
  ]

  abbrev pub view_of : NodeMailbox Config → View Config
  view_of m = record {
    config = m.config;
    users = m.users;
    device_users = m.device_users;
    lost = m.needs_reconcile;
  }

  -- What a service that held `v` holds after it has taken over a drained state.
  abbrev pub follow : View Config → MailboxState Config → View Config
  follow v s = record {
    config = if s.has_config then s.config else v.config;
    users = if s.has_users then s.users else v.users;
    device_users = if s.has_devices then s.device_users else v.device_users;
    lost = s.needs_reconcile;
  }

  pub record IsTracked (held : View Config) (m : NodeMailbox Config) : Type 0 where
    pub full : m.has_full_user_state ≡ is_some m.users
    pub config : IsMarked m.dirty_config m.config held.config
    pub users : IsMarked m.dirty_users m.users held.users
    pub devices : IsMarked m.dirty_devices m.device_users held.device_users
