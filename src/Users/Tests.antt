-- ===== src/Users/Tests.antt =====
-- Concrete users for internal/service/service.go.
use yzboard_node.Prelude.{
  ℕ, ◌≡◌, refl, true, false, none, some, List, [], ◌∷◌, if◌then◌else◌, All, ◌↔◌,
}
use yzboard_node.Users.{
  UserSpec, elements, any_uuid_change, has_uuid_change, merge_users, subtract_users,
}
use yzboard_node.Users.Maps.{find_user, find_last, has_id, IsUnique, or_else}
use yzboard_node.Users.Merge.{KeepsUuid, has_uuid_change_iff, merge_users-find, subtract_users-find}
use Prim.Native.String.{String}

abbrev user : ℕ → String → UserSpec
user id uuid = record { id = id; uuid = uuid; speed_limit = 0; device_limit = 0 }

abbrev base : List UserSpec
base = user 1 "a" ∷ user 2 "b" ∷ []

abbrev delta : List UserSpec
delta = user 2 "c" ∷ user 3 "d" ∷ []

changed : has_uuid_change base delta ≡ true
unfolding has_uuid_change any_uuid_change
changed = refl

has_uuid_change_iff_example : (has_uuid_change base delta ≡ false) ↔ All (KeepsUuid base) delta
has_uuid_change_iff_example = has_uuid_change_iff base delta

merge_users-find_example :
    let merged = elements (merge_users (some base) (some delta)) in
    IsUnique merged
    × ((k : ℕ) → find_user k merged ≡ or_else (find_last k delta) (find_last k base))
merge_users-find_example = merge_users-find (some base) delta

subtract_users-find_example :
    (left : List UserSpec) × (subtract_users (some base) (some delta) ≡ some left)
    × ((k : ℕ) → find_user k left ≡ (if has_id k delta then none else find_user k base))
    × (IsUnique base → IsUnique left)
subtract_users-find_example = subtract_users-find base delta
