-- ===== src/Mailbox/Tests.antt =====
-- Concrete events for internal/controlplane/mailbox.go. A configuration is a number.
use Prim.Native.String.{String}
use yzboard_node.Prelude.{ℕ, ◌≡◌, refl, ◌⊎◌, true, false, none, some, List, [], ◌∷◌, string_Eq}
use yzboard_node.Users.{UserSpec, elements, merge_users}
use yzboard_node.Users.Maps.{find_user, find_last, IsUnique, or_else}
use yzboard_node.Mailbox.{
  apply_user_delta, sync_config, sync_users, sync_user_delta, Event, NodeMailbox, apply,
  drain_if_ready,
}
use yzboard_node.Mailbox.Delta.{place, apply_user_delta-add}
use yzboard_node.Mailbox.View.{View, follow, IsTracked}
use yzboard_node.Mailbox.Events.{drain-IsTracked, apply-notified}
use yzboard_node.Mailbox.Agree.{merge_users-apply}

abbrev user : ℕ → String → UserSpec
user id uuid = record { id = id; uuid = uuid; speed_limit = 0; device_limit = 0 }

abbrev base : List UserSpec
base = user 1 "a" ∷ user 2 "b" ∷ []

abbrev delta : List UserSpec
delta = user 2 "c" ∷ user 3 "d" ∷ []

base-IsUnique : IsUnique base
base-IsUnique = (refl, (refl, tt))

abbrev blank : Event ℕ
blank = record {
  type = sync_config;
  config = none;
  users = none;
  delta_action = "";
  delta_users = [];
  device_users = none;
}

-- A list of users, a delta on it, and a configuration.
abbrev events : List (Event ℕ)
events =
    record blank { type = sync_users; users = some base }
    ∷ record blank { type = sync_user_delta; delta_action = "add"; delta_users = delta }
    ∷ record blank { config = some 7 }
    ∷ []

-- A mailbox of a service that holds the list `base` and the configuration 5.
abbrev settled : NodeMailbox ℕ
settled = record {
  ready = true;
  config = some 5;
  users = some base;
  device_users = none;
  dirty_config = false;
  dirty_users = false;
  dirty_devices = false;
  needs_reconcile = false;
  has_full_user_state = true;
  notified = false;
}

abbrev held : View ℕ
held = record { config = some 5; users = some base; device_users = none; lost = false }

settled-IsTracked : IsTracked held settled
settled-IsTracked = record { full = refl; config = refl; users = refl; devices = refl }

drain-IsTracked_example :
    IsTracked (follow held (drain_if_ready settled).1) (drain_if_ready settled).0
    × ((drain_if_ready settled).0.needs_reconcile ≡ false)
drain-IsTracked_example = drain-IsTracked held settled settled-IsTracked refl

apply-notified_example :
    (apply settled (record blank { config = some 7 }) ≡ settled)
    ⊎ ((apply settled (record blank { config = some 7 })).notified ≡ true)
apply-notified_example = apply-notified settled (record blank { config = some 7 })

apply_user_delta-add_example :
    let (users', known) = apply_user_delta (some base) "add" delta in
    (known ≡ true)
    × IsUnique (elements users')
    × ((k : ℕ) → find_user k (elements users') ≡ or_else (find_last k delta) (find_user k base))
    × ((k i : ℕ) → place k base ≡ some i → place k (elements users') ≡ some i)
apply_user_delta-add_example = apply_user_delta-add (some base) delta base-IsUnique

merge_users-apply_example :
    find_user 2 (elements (merge_users (some base) (some delta)))
    ≡ find_user 2 (elements (apply_user_delta (some base) "add" delta).0)
merge_users-apply_example = merge_users-apply (some base) delta 2 base-IsUnique
