-- ===== src/Users/Credentials.antt =====
-- The UUIDs by which a list of users knows their ids, after a delta is added or taken away.
use Prim.Native.String.{String}
use yzboard_node.Prelude.{
  ℕ, ◌≡◌, sym, ◌∙◌, false, Option, none, some, List, [], ◌∷◌, if◌then◌else◌, arith, All,
  Option-cases, Bool-cases, nat_eq_iff, inl, inr, nat_eq,
}
use yzboard_node.Users.{UserSpec, elements, merge_users, subtract_users, has_uuid_change}
use yzboard_node.Users.Maps.{
  find_user, find_last, has_id, or_else, IsUnique, find_last-eq-find_user,
}
use yzboard_node.Users.Merge.{
  SameUuid, KeepsUuid, has_uuid_change_iff, merge_users-find, subtract_users-find,
}

abbrev pub uuid_of : Option UserSpec → Option String
uuid_of none = none
uuid_of (some u) = some u.uuid

-- The UUID by which the first user of the list with the id is known.
abbrev pub credential : List UserSpec → ℕ → Option String
credential users id = uuid_of (find_user id users)

kept-find :
    (base delta : List UserSpec) (id : ℕ) (d : UserSpec)
    → All (KeepsUuid base) delta
    → find_user id delta ≡ some d
    → SameUuid (find_last id base) d
kept-find base [] id d h e = cc
kept-find base (x ∷ xs) id d (h, hs) e = elim (Bool-cases (nat_eq x.id id)) [
  | inl same ↦
      let i = (nat_eq_iff x.id id).0 same in
      elim (Option-cases (find_last x.id base)) [
        | inl missing ↦ rw (sym i, missing) tt
        | inr (b, found) ↦ rw (sym i, found) (ground (arith, e, same, rw found at h))
      ]
  | inr other ↦ kept-find base xs id d hs (ground (arith, e, other))
]

-- Where the delta changes no UUID and neither list names an id twice, the ids that the base lacks get the
-- delta's UUIDs in the merged list, and the others keep theirs.
pub merge_users-credential :
    (base delta : List UserSpec) (id : ℕ)
    → IsUnique base
    → IsUnique delta
    → has_uuid_change base delta ≡ false
    → or_else (credential base id) (credential delta id)
      ≡ credential (elements (merge_users (some base) (some delta))) id
merge_users-credential base delta id ub ud e =
    let kept = (has_uuid_change_iff base delta).0 e in
    let found = (merge_users-find (some base) delta).1 id in
    let last = find_last-eq-find_user id delta ud in
    let old = find_last-eq-find_user id base ub in
    elim (Option-cases (find_user id delta)) [
      | inl missing ↦ elim (Option-cases (find_user id base)) [
        | inl absent ↦ ground (arith, found, last, old, missing, absent)
        | inr (b, there) ↦ ground (arith, found, last, old, missing, there)
      ]
      | inr (d, named) ↦ elim (Option-cases (find_user id base)) [
        | inl absent ↦ ground (arith, found, last, old, named, absent)
        | inr (b, there) ↦
            let same = rw (old ∙ there) at (kept-find base delta id d kept named) in
            ground (arith, found, last, old, named, there, same)
      ]
    ]

pub subtract_users-credential :
    (base delta : List UserSpec) (id : ℕ)
    → (if has_id id delta then none else credential base id)
      ≡ credential (elements (subtract_users (some base) (some delta))) id
subtract_users-credential base delta id =
    let (left, e, found, u) = subtract_users-find base delta in rw e (ground (arith, found id))
