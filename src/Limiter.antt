-- ===== src/Limiter.antt =====
-- internal/limiter/limiter.go: the limits of the users, and their device limits by UUID.
pub mod Devices
pub mod Speed
mod Tests
use Prim.Native.String.{String}
use mathlib.Core.List.{foldl}
use yzboard_node.Prelude.{
  ℕ, Bool, Option, none, some, List, [], ◌∷◌, map, if◌then◌else◌, ltb, Dict, lookup, contains,
  insert, nat_Eq, string_Eq,
}
use yzboard_node.Users.{UserSpec, put_user, values}

-- The counter of device limit events is left out: nothing but its reader stands in the code.
pub record Limiter : Type 0 where
  pub users : Dict ℕ UserSpec
  pub uuid_device_limit : Dict String ℕ

-- `New`
unfoldable pub new : Limiter
new = record { users = []; uuid_device_limit = [] }

-- `range l.users`: the ids that `new_users` lacks.
unfoldable pub removed_ids : Dict ℕ UserSpec → Dict ℕ UserSpec → List ℕ
removed_ids new_users [] = []
removed_ids new_users ((id, u) ∷ old) =
    let rest = removed_ids new_users old in if contains id new_users then rest else id ∷ rest

-- One round of the loop that builds the index.
abbrev pub put_limit : Dict String ℕ → UserSpec → Dict String ℕ
put_limit idx u = if ltb 0 u.device_limit then insert u.uuid u.device_limit idx else idx

-- `UpdateUsers`: the new state, and the ids of the users that are gone.
unfoldable pub update_users : Limiter → List UserSpec → Limiter × List ℕ
update_users l users =
    let new_users = foldl put_user [] users in
    (
      record { users = new_users; uuid_device_limit = foldl put_limit [] (values new_users) },
      removed_ids new_users l.users,
    )

unfoldable pub get_device_limit_by_uuid : Limiter → String → Option ℕ
get_device_limit_by_uuid l uuid = lookup uuid l.uuid_device_limit
