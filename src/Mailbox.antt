-- ===== src/Mailbox.antt =====
-- internal/controlplane/mailbox.go: the mailbox that holds the panel's events for a node of the
-- machine mode until its service is ready. Copies of values (`cloneUsers`, `cloneNodeSpec`,
-- `cloneDeviceUsers`) are the values; a pointer is `none` where it is `nil`. A node's configuration is
-- any type: the mailbox copies it and never looks inside.
pub mod Delta
pub mod View
pub mod Events
pub mod Agree
mod Tests
use Prim.Native.String.{String}
use mathlib.Core.List.{foldl}
use yzboard_node.Prelude.{
  ℕ, suc, Bool, true, false, not, ◌&&◌, Option, none, some, List, [], ◌∷◌, ◌++◌, if◌then◌else◌, ltb,
  Dict, lookup, contains, insert, length, set, ◌==◌, nat_Eq, string_Eq,
}
use yzboard_node.Users.{UserSpec, Slice, elements, put_id, keep_users}

-- The variables of the `add` loop in `applyUserDelta`.
pub record Merging : Type 0 where
  pub current : List UserSpec
  pub index : Dict ℕ ℕ

-- `index[user.ID] = i` for the users from place `i` on.
unfoldable pub index_users : ℕ → List UserSpec → Dict ℕ ℕ → Dict ℕ ℕ
index_users i [] index = index
index_users i (u ∷ us) index = index_users (suc i) us (insert u.id i index)

unfoldable pub add_user : Merging → UserSpec → Merging
add_user m user = elim (lookup user.id m.index) [
  | some idx ↦ record m { current = set m.current idx user }
  | none ↦ record {
    current = m.current ++ user ∷ [];
    index = insert user.id (length m.current) m.index;
  }
]

-- The list of the `add` loop is `nil` where it began as `nil` and nothing was appended.
abbrev pub slice_of : Slice UserSpec → List UserSpec → Slice UserSpec
slice_of none [] = none
slice_of none (u ∷ us) = some (u ∷ us)
slice_of (some old) us = some us

-- The case "add".
unfoldable pub add_users : List UserSpec → List UserSpec → Merging
add_users current delta =
    foldl add_user (record { current = current; index = index_users 0 current [] }) delta

-- The new list, and whether the action is known. The index serves the `add` action only.
unfoldable pub apply_user_delta : Slice UserSpec → String → List UserSpec → Slice UserSpec × Bool
apply_user_delta users action delta =
    if action == "add"
    then (slice_of users (add_users (elements users) delta).current, true)
    else if action == "remove"
    then (some (keep_users (foldl put_id [] delta) (elements users)), true)
    else (users, false)

-- `EventType`; `other` is any type that `Apply` does not know.
pub data EventType : Type 0 where
  sync_config sync_users sync_user_delta sync_devices other : EventType

module _ (Config : Type 0) where
  pub record Event : Type 0 where
    pub type : EventType
    pub config : Option Config
    pub users : Slice UserSpec
    pub delta_action : String
    pub delta_users : List UserSpec
    pub device_users : Option (Dict ℕ (List String))

  pub record MailboxState : Type 0 where
    pub config : Option Config
    pub users : Slice UserSpec
    pub device_users : Option (Dict ℕ (List String))
    pub has_config : Bool
    pub has_users : Bool
    pub has_devices : Bool
    pub needs_reconcile : Bool

  -- `notified` is whether a token waits in `notifyCh`, which holds one.
  pub record NodeMailbox : Type 0 where
    pub ready : Bool
    pub config : Option Config
    pub users : Slice UserSpec
    pub device_users : Option (Dict ℕ (List String))
    pub dirty_config : Bool
    pub dirty_users : Bool
    pub dirty_devices : Bool
    pub needs_reconcile : Bool
    pub has_full_user_state : Bool
    pub notified : Bool

abbrev pub is_some {ℓ} : {A : Type ℓ} → Option A → Bool
is_some none = false
is_some (some a) = true

-- `NewNodeMailbox`
unfoldable pub new_node_mailbox : (Config : Type 0) → NodeMailbox Config
new_node_mailbox Config = record {
  ready = false;
  config = none;
  users = none;
  device_users = none;
  dirty_config = false;
  dirty_users = false;
  dirty_devices = false;
  needs_reconcile = false;
  has_full_user_state = false;
  notified = false;
}

module _ {Config : Type 0} where
  unfoldable pub mark_ready : NodeMailbox Config → NodeMailbox Config
  mark_ready m = record m { ready = true; notified = true }

  -- The users of `SeedBaseline`, and its configuration.
  abbrev pub seed_users : Slice UserSpec → NodeMailbox Config → NodeMailbox Config
  seed_users none m = m
  seed_users (some us) m =
      if m.has_full_user_state then m else record m { users = some us; has_full_user_state = true }

  abbrev pub seed_config : Option Config → NodeMailbox Config → NodeMailbox Config
  seed_config none m = m
  seed_config (some c) m = elim (m.config) [ none ↦ record m { config = some c } | some old ↦ m ]

  unfoldable pub seed_baseline :
      Slice UserSpec → Option Config → NodeMailbox Config → NodeMailbox Config
  seed_baseline users config m = seed_config config (seed_users users m)

  -- The cases of the switch in `Apply`.
  abbrev pub on_config : Option Config → NodeMailbox Config → NodeMailbox Config
  on_config none m = m
  on_config (some c) m = record m { config = some c; dirty_config = true; notified = true }

  abbrev pub on_users : Slice UserSpec → NodeMailbox Config → NodeMailbox Config
  on_users none m = m
  on_users (some us) m = record m {
    users = some us;
    dirty_users = true;
    has_full_user_state = true;
    notified = true;
  }

  abbrev pub on_devices : Option (Dict ℕ (List String)) → NodeMailbox Config → NodeMailbox Config
  on_devices none m = m
  on_devices (some d) m = record m { device_users = some d; dirty_devices = true; notified = true }

  unfoldable pub on_delta : String → List UserSpec → NodeMailbox Config → NodeMailbox Config
  on_delta action [] m = m
  on_delta action (u ∷ us) m =
      if not m.has_full_user_state
      then record m { needs_reconcile = true; notified = true }
      else if not (apply_user_delta m.users action (u ∷ us)).1
      then record m { needs_reconcile = true; notified = true }
      else record m {
        users = (apply_user_delta m.users action (u ∷ us)).0;
        dirty_users = true;
        notified = true;
      }

  unfoldable pub apply : NodeMailbox Config → Event Config → NodeMailbox Config
  unfolding on_delta
  apply m event = elim (event.type) [
    | sync_config ↦ on_config event.config m
    | sync_users ↦ on_users event.users m
    | sync_devices ↦ on_devices event.device_users m
    | sync_user_delta ↦ on_delta event.delta_action event.delta_users m
    | other ↦ m
  ]

  abbrev no_state : MailboxState Config
  no_state = record {
    config = none;
    users = none;
    device_users = none;
    has_config = false;
    has_users = false;
    has_devices = false;
    needs_reconcile = false;
  }

  -- The new mailbox and the drained state.
  unfoldable pub drain_if_ready : NodeMailbox Config → NodeMailbox Config × MailboxState Config
  drain_if_ready m =
      let config = m.dirty_config && is_some m.config in
      let devices = m.dirty_devices && is_some m.device_users in
      if not m.ready then (m, no_state) else (
        record m {
          dirty_config = if config then false else m.dirty_config;
          dirty_users = false;
          dirty_devices = if devices then false else m.dirty_devices;
          needs_reconcile = false;
        },
        record {
          config = if config then m.config else none;
          users = if m.dirty_users then m.users else none;
          device_users = if devices then m.device_users else none;
          has_config = config;
          has_users = m.dirty_users;
          has_devices = devices;
          needs_reconcile = m.needs_reconcile;
        },
      )
