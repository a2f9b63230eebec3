-- ===== src/Runtime/Steady.antt =====
-- The invariant of the service, and what its operations leave on the way to it.
use Prim.Native.String.{String}
use yzboard_node.Prelude.{
  ℕ, ◌≡◌, refl, Bool, true, false, not, Option, none, some, List, [], arith, ◌⊎◌,
}
use yzboard_node.Users.{UserSpec}
use yzboard_node.Users.Maps.{IsUnique}
use yzboard_node.Model.{NodeSpec}
use yzboard_node.Model.Relay.{uses_ss2022}
use yzboard_node.Runtime.{Parts, Controller, Service, AttemptHash, config_hash, user_hash}
use yzboard_node.Runtime.Apply.{is_set, is_idle, and_then, or_fail, fail_runtime}
use yzboard_node.Runtime.Laws.{IsKernel, IsController, Ends}
use yzboard_node.Users.Credentials.{credential}

pub bind {ℓ κ} :
    {S : Type ℓ} (Good Bad Good' : S → Type κ) (next : S → S × Bool) (r : S × Bool)
    → Ends Good Bad r
    → ((s : S) → Good s → Ends Good' Bad (next s))
    → Ends Good' Bad (and_then r next)
bind Good Bad Good' next (s, true) e h = h s e
bind Good Bad Good' next (s, false) e h = e

module _ {f : Controller} (c : IsController f) where
  -- The firewall, where there is one, holds what it promises for the node and the type of its kernel.
  abbrev pub IsOpened : NodeSpec → String → Option f.State → Type 0
  IsOpened n kernel_type none = Unit
  IsOpened n kernel_type (some s) = c.IsApplied s n kernel_type

module _ (w : Parts) where
  -- The latest users and hashes agree, with no hash before the first users; and an error is noted exactly with the failed attempt.
  pub record AreTidy (users : List UserSpec) (of_users : String) (nc : Option NodeSpec)
      (of_config : String) (failed : Option AttemptHash) (error : Bool) : Type 0 where
    pub unique : IsUnique users
    pub users_hashed : (of_users ≡ user_hash w users) ⊎ ((of_users ≡ "") × (users ≡ []))
    pub config_hashed : of_config ≡ config_hash w nc
    pub noted : error ≡ is_set failed

  abbrev pub IsTidy : Service w → Type 0
  IsTidy s =
      AreTidy s.last_users s.last_user_hash s.last_config s.last_config_hash s.failed_runtime_hash
        s.runtime_error

-- An operation that changes a state, and then succeeds or not.
pub either {ℓ κ} :
    {S : Type ℓ} (Good Bad : S → Type κ) (r : S × Bool)
    → (r.1 ≡ true → Good r.0)
    → (r.1 ≡ false → Bad r.0)
    → Ends Good Bad r
either Good Bad (s, true) g h = g refl
either Good Bad (s, false) g h = h refl

module _ (w : Parts) (c : IsController w.firewall) where
  -- The kernel holds the configuration of `lastConfig`, with the promise of the firewall kept for it, and no
  -- error is noted.
  pub record AreServed (n : NodeSpec) (latest kernel_config done : Option NodeSpec)
      (error used : Bool) (kernel_type : String) (f : Option w.firewall.State) : Type 0 where
    pub wanted : latest ≡ some n
    pub served : kernel_config ≡ some n
    pub applied : done ≡ some n
    pub no_error : error ≡ false
    pub clock_used : used ≡ uses_ss2022 w.to_lower n
    pub opened : IsOpened c n kernel_type f

module _ {w : Parts} (k : IsKernel w.kernel) (c : IsController w.firewall) where
  open k use {config, credentials}

  abbrev pub ServesNode : Service w → NodeSpec → Type 0
  ServesNode s n =
      AreServed w c n s.last_config (config s.kernel) s.applied_config s.runtime_error s.time_usage
        s.cfg.kernel.type s.firewall

  -- And it holds exactly the users of `lastUsers`.
  abbrev pub Serves : Service w → NodeSpec → Type 0
  Serves s n = ServesNode s n × ((id : ℕ) → credentials s.kernel id ≡ credential s.last_users id)

  abbrev pub IsRunning : Service w → Type 0
  IsRunning s = w.kernel.is_running s.kernel ≡ true

  abbrev pub IsStopped : Service w → Type 0
  IsStopped s = w.kernel.is_running s.kernel ≡ false

  abbrev pub IsSteady : Service w → Type 0
  IsSteady s = IsTidy w s × (IsRunning s → (n : NodeSpec) × Serves s n)

  -- What holds while a change of the configuration or of the users waits for the kernel.
  abbrev pub IsPending : Service w → Type 0
  IsPending s =
      IsTidy w s
      × (IsRunning s → (n : NodeSpec) × (s.last_config ≡ some n) × (s.runtime_error ≡ false))

  -- A failure leaves the kernel stopped.
  abbrev pub IsDown : Service w → Type 0
  IsDown s = IsTidy w s × IsStopped s × (s.runtime_error ≡ true)

  pub IsDown-IsSteady : (s : Service w) → IsDown s → IsSteady s
  IsDown-IsSteady s (t, down, e) = (t, λ up. ground (arith, down, up))

  pub fail_runtime-IsDown :
      (o : Option NodeSpec) (us : List UserSpec) (s : Service w)
      → IsTidy w s
      → IsDown (fail_runtime o us s)
  unfolding fail_runtime
  fail_runtime-IsDown o us s t = (
    record {
      unique = t.unique;
      users_hashed = t.users_hashed;
      config_hashed = t.config_hashed;
      noted = refl;
    },
    k.stopped s.kernel,
    refl,
  )

  pub or_fail-lem :
      (Good : Service w → Type 0) (n : NodeSpec) (us : List UserSpec) (r : Service w × Bool)
      → Ends Good (IsTidy w) r
      → Ends Good IsDown (or_fail n us r)
  or_fail-lem Good n us (s, true) h = h
  or_fail-lem Good n us (s, false) h = fail_runtime-IsDown (some n) us s h

  -- The configuration and the users that an operation is about are the latest.
  abbrev pub IsWanted : NodeSpec → List UserSpec → Service w → Type 0
  IsWanted n us s = IsTidy w s × (s.last_config ≡ some n) × (s.last_users ≡ us)

  abbrev pub IsReady : NodeSpec → List UserSpec → Service w → Type 0
  IsReady n us s = IsWanted n us s × (s.time_usage ≡ uses_ss2022 w.to_lower n)

  abbrev pub IsServing : NodeSpec → List UserSpec → Service w → Type 0
  IsServing n us s =
      IsReady n us s
      × IsRunning s
      × (config s.kernel ≡ some n)
      × ((id : ℕ) → credentials s.kernel id ≡ credential us id)

  -- The kernel holds what it shall, and the promise of the firewall is kept.
  abbrev pub IsOpen : NodeSpec → List UserSpec → Service w → Type 0
  IsOpen n us s = IsServing n us s × IsOpened c n s.cfg.kernel.type s.firewall

  -- What a change that succeeds leaves: no error, and a running kernel or a node with nobody to serve.
  abbrev pub IsUp : NodeSpec → List UserSpec → Service w → Type 0
  IsUp n us s =
      IsSteady s
      × (s.runtime_error ≡ false)
      × (s.last_config ≡ some n)
      × (s.last_users ≡ us)
      × (w.kernel.is_running s.kernel ≡ not (is_idle n us))

  abbrev pub IsSettled : Option NodeSpec → List UserSpec → Service w → Type 0
  IsSettled none us s = IsSteady s × IsStopped s
  IsSettled (some n) us s = IsUp n us s

  -- The users wait for a kernel that serves the latest configuration.
  abbrev pub IsSwapping : List UserSpec → Service w → Type 0
  IsSwapping us s = IsTidy w s × ((n : NodeSpec) × ServesNode s n) × (s.last_users ≡ us)

  -- The users are served.
  abbrev pub IsServed : List UserSpec → Service w → Type 0
  IsServed us s = IsSteady s × IsRunning s × (s.last_users ≡ us)
