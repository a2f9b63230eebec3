-- ===== src/Users.antt =====
-- The users of a node (internal/model/types.go), and the lists that internal/service/service.go
-- makes of a full list and an incremental one. A Go slice is `none` where it is `nil`.
pub mod Maps
pub mod Merge
pub mod Credentials
mod Tests
use Prim.Native.String.{String}
use mathlib.Core.List.{foldl}
use yzboard_node.Prelude.{
  ℕ, Bool, true, false, not, ◌||◌, Option, none, some, List, [], ◌∷◌, map, if◌then◌else◌, ltb, Dict,
  lookup, contains, insert, length, ◌==◌, nat_Eq, string_Eq,
}

pub record UserSpec : Type 0 where
  pub id : ℕ
  pub uuid : String
  pub speed_limit : ℕ
  pub device_limit : ℕ

-- A slice; `nil` has no elements.
abbrev pub Slice {ℓ} : Type ℓ → Type ℓ
Slice A = Option (List A)

abbrev pub elements {ℓ} : {A : Type ℓ} → Slice A → List A
elements none = []
elements (some xs) = xs

-- `m[u.ID] = u`
abbrev pub put_user : Dict ℕ UserSpec → UserSpec → Dict ℕ UserSpec
put_user m u = insert u.id u m

abbrev pub put_id : Dict ℕ (Unit {0}) → UserSpec → Dict ℕ (Unit {0})
put_id m u = insert u.id tt m

abbrev pub put_uuid : Dict ℕ String → UserSpec → Dict ℕ String
put_uuid m u = insert u.id u.uuid m

abbrev pub values {ℓ κ} : {K : Type ℓ} {V : Type κ} → Dict K V → List V
values [] = []
values ((k, v) ∷ m) = v ∷ values m

-- The loop over the delta in `hasUUIDChange`.
unfoldable pub any_uuid_change : Dict ℕ String → List UserSpec → Bool
any_uuid_change current [] = false
any_uuid_change current (user ∷ users) =
    let rest = any_uuid_change current users in
    elim (lookup user.id current) [
      | none ↦ rest
      | some uuid ↦ if not (uuid == user.uuid) then true else rest
    ]

unfoldable pub has_uuid_change : List UserSpec → List UserSpec → Bool
has_uuid_change base delta = any_uuid_change (foldl put_uuid [] base) delta

unfoldable pub merge_users : Slice UserSpec → Slice UserSpec → Slice UserSpec
merge_users base none = some (elements base)
merge_users base (some delta) =
    some (values (foldl put_user (foldl put_user [] (elements base)) delta))

-- `range base`, skipping the users of `remove_set`.
abbrev pub keep_users : Dict ℕ (Unit {0}) → List UserSpec → List UserSpec
keep_users remove_set [] = []
keep_users remove_set (u ∷ us) =
    let rest = keep_users remove_set us in if contains u.id remove_set then rest else u ∷ rest

unfoldable pub subtract_users : Slice UserSpec → Slice UserSpec → Slice UserSpec
subtract_users none delta = none
subtract_users (some base) none = some base
subtract_users (some base) (some []) = some base
subtract_users (some base) (some (d ∷ ds)) = some (keep_users (foldl put_id [] (d ∷ ds)) base)
