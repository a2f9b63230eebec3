-- ===== src/Kernels.antt =====
-- internal/kernel/kernel.go: what the kernels share. `UserDiff` is what a replacement of the users adds and
-- takes away.
pub mod Diff
pub mod Singbox
pub mod Laws
pub mod Ids
pub mod Tests
use mathlib.Core.List.{foldl}
use Prim.Native.String.{String}
use yzboard_node.Prelude.{
  ℕ, Bool, true, false, not, Option, none, some, List, [], ◌∷◌, if◌then◌else◌, Dict, lookup, ◌==◌,
  nat_Eq, string_Eq,
}
use yzboard_node.Users.{UserSpec, put_user}

-- The map gives the user's id to no user, or to one with another UUID.
abbrev pub differs : Option UserSpec → UserSpec → Bool
differs none u = true
differs (some other) u = not (other.uuid == u.uuid)

-- The users that the map lacks.
unfoldable pub missing_users : Dict ℕ UserSpec → List UserSpec → List UserSpec
missing_users m [] = []
missing_users m (u ∷ us) =
    let rest = missing_users m us in if differs (lookup u.id m) u then u ∷ rest else rest

-- `UserDiff`: the users to add, and those to remove.
unfoldable pub user_diff : List UserSpec → List UserSpec → List UserSpec × List UserSpec
user_diff old_users new_users = (
  missing_users (foldl put_user [] old_users) new_users,
  missing_users (foldl put_user [] new_users) old_users,
)
