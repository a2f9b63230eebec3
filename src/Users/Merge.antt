-- ===== src/Users/Merge.antt =====
-- `hasUUIDChange`, `mergeUsers` and `subtractUsers`, by the users' ids.
use Prim.Native.String.{String}
use mathlib.Core.List.{foldl}
use mathlib.Core.Option
use text.Mathlib.TextEquality.{eq_iff}
use yzboard_node.Prelude.{
  ℕ, ◌≡◌, refl, false, Option, none, some, List, [], ◌∷◌, if◌then◌else◌, arith, Dict, lookup,
  lookup-insert, nat_Eq, string_Eq, All, ◌↔◌, Option-cases, inl, inr,
}
use yzboard_node.Users.{
  UserSpec, Slice, elements, put_user, put_uuid, any_uuid_change, has_uuid_change, merge_users,
  subtract_users,
}
use yzboard_node.Users.Maps.{
  find_user, find_last, has_id, IsUnique, or_else, lookup-put_users, put_users-IsMap,
  put_users-IsKeyed, find_user-values, values-IsUnique, contains-put_ids, find_user-keep_users,
  keep_users-IsUnique,
}

lookup-put_uuids :
    (us : List UserSpec) (m : Dict ℕ String) (k : ℕ)
    → lookup k (foldl put_uuid m us)
      ≡ or_else (Option.map (λ (u : UserSpec). u.uuid) (find_last k us)) (lookup k m)
lookup-put_uuids [] m k = refl
lookup-put_uuids (u ∷ us) m k =
    ground (arith, lookup-insert u.id u.uuid k m, lookup-put_uuids us (put_uuid m u) k)

abbrev pub SameUuid : Option UserSpec → UserSpec → Type 0
SameUuid none d = Unit
SameUuid (some b) d = b.uuid ≡ d.uuid

-- The user has the UUID that the list gives for its id, if the list names the id.
abbrev pub KeepsUuid : List UserSpec → UserSpec → Type 0
KeepsUuid base d = SameUuid (find_last d.id base) d

any_uuid_change_none :
    (base delta : List UserSpec)
    → any_uuid_change (foldl put_uuid [] base) delta ≡ false
    → All (KeepsUuid base) delta
unfolding any_uuid_change
any_uuid_change_none base [] h = tt
any_uuid_change_none base (d ∷ ds) h =
    let e = lookup-put_uuids base [] d.id in
    elim (Option-cases (find_last d.id base)) [
      | inl missing ↦ (rw missing tt, any_uuid_change_none base ds (ground (arith, e)))
      | inr (b, found) ↦ (
        rw found (ground (arith, e, eq_iff b.uuid d.uuid)),
        any_uuid_change_none base ds (ground (arith, e)),
      )
    ]

any_uuid_change_kept :
    (base delta : List UserSpec)
    → All (KeepsUuid base) delta
    → any_uuid_change (foldl put_uuid [] base) delta ≡ false
unfolding any_uuid_change
any_uuid_change_kept base [] h = refl
any_uuid_change_kept base (d ∷ ds) (k, ks) =
    let e = lookup-put_uuids base [] d.id in
    elim (Option-cases (find_last d.id base)) [
      | inl missing ↦ ground (arith, e, any_uuid_change_kept base ds ks)
      | inr (b, found) ↦
          ground (arith, e, rw found at k, eq_iff b.uuid d.uuid, any_uuid_change_kept base ds ks)
    ]

-- `hasUUIDChange` is false exactly when every user of the delta whose id the list names keeps the
-- UUID that the list gives last for it.
pub has_uuid_change_iff :
    (base delta : List UserSpec) → (has_uuid_change base delta ≡ false) ↔ All (KeepsUuid base) delta
unfolding has_uuid_change
has_uuid_change_iff base delta = (any_uuid_change_none base delta, any_uuid_change_kept base delta)

-- If the delta is not `nil`, an id has in the merged list the last user of the delta that bears it, or
-- else the last one of the base; no id stands in it twice.
pub merge_users-find :
    (base : Slice UserSpec) (delta : List UserSpec)
    → let merged = elements (merge_users base (some delta)) in
      IsUnique merged
      × ((k : ℕ) → find_user k merged ≡ or_else (find_last k delta) (find_last k (elements base)))
unfolding merge_users
merge_users-find base delta =
    let m1 = foldl put_user [] (elements base) in
    let m2 = foldl put_user m1 delta in
    let keyed = put_users-IsKeyed delta m1 (put_users-IsKeyed (elements base) [] tt) in
    (
      values-IsUnique m2 (put_users-IsMap delta m1 (put_users-IsMap (elements base) [] tt)) keyed,
      λ k. ground (
        arith,
        find_user-values k m2 keyed,
        lookup-put_users delta m1 k,
        lookup-put_users (elements base) [] k,
      ),
    )

-- A list less a delta holds the users of the list whose ids the delta does not name, and no others,
-- and names no id twice if the list did not. A list that is not `nil` does not become `nil`.
pub subtract_users-find :
    (base delta : List UserSpec)
    → (left : List UserSpec) × (subtract_users (some base) (some delta) ≡ some left)
      × ((k : ℕ) → find_user k left ≡ (if has_id k delta then none else find_user k base))
      × (IsUnique base → IsUnique left)
unfolding subtract_users
subtract_users-find base [] = (base, refl, λ k. refl, λ h. h)
subtract_users-find base (d ∷ ds) = (
  _,
  refl,
  λ k. rw (find_user-keep_users k _ base, contains-put_ids (d ∷ ds) [] k) (ground arith),
  λ h. keep_users-IsUnique _ base h,
)
