-- ===== src/Mailbox/Delta.antt =====
-- `applyUserDelta`: what the list of users holds afterwards, and in which order.
use mathlib.Core.List.{foldl}
use yzboard_node.Prelude.{
  ℕ, zero, suc, ◌+◌, ◌≡◌, refl, ◌∙◌, ap, ◌≢◌, true, Option, none, some, List, [], ◌∷◌, ◌++◌,
  if◌then◌else◌, arith, Dict, lookup, lookup-insert, insert, length, set, nat_Eq, nat_eq, string_Eq,
  Option-cases, inl, inr,
}
use yzboard_node.Users.{UserSpec, Slice, elements}
use yzboard_node.Users.Maps.{find_user, find_last, IsUnique, or_else}
use yzboard_node.Mailbox.{Merging, index_users, add_user, add_users, apply_user_delta, slice_of}

-- The specification of one round: the user takes the place of the one with its id, or goes to the end.
abbrev pub upsert : List UserSpec → UserSpec → List UserSpec
upsert [] v = v ∷ []
upsert (u ∷ us) v = let rest = upsert us v in if nat_eq u.id v.id then v ∷ us else u ∷ rest

-- A place, counted from `i` places before.
abbrev pub move : ℕ → Option ℕ → Option ℕ
move i none = none
move i (some j) = some (i + j)

-- The place of the first user with the id.
abbrev pub place : ℕ → List UserSpec → Option ℕ
place k [] = none
place k (u ∷ us) = if nat_eq u.id k then some 0 else move 1 (place k us)

-- The index names the place of every id, and no other id.
abbrev IsIndex : Merging → Type 0
IsIndex m = (k : ℕ) → lookup k m.index ≡ place k m.current

move_suc : (o : Option ℕ) → move 1 o ≢ some 0
move_suc none e = cc
move_suc (some j) e = ground arith

place-none : (k : ℕ) (us : List UserSpec) → find_user k us ≡ none → place k us ≡ none
place-none k [] e = refl
place-none k (u ∷ us) e = ground (arith, place-none k us)

set-place :
    (us : List UserSpec) (v : UserSpec) (i : ℕ) → place v.id us ≡ some i → set us i v ≡ upsert us v
set-place [] v i e = cc
set-place (u ∷ us) v zero e = ground (arith, move_suc (place v.id us))
set-place (u ∷ us) v (suc i) e = ground (arith, set-place us v i)

place-none-upsert :
    (us : List UserSpec) (v : UserSpec) → place v.id us ≡ none → us ++ v ∷ [] ≡ upsert us v
place-none-upsert [] v e = refl
place-none-upsert (u ∷ us) v e = ground (arith, place-none-upsert us v)

place-upsert :
    (us : List UserSpec) (v : UserSpec) (k : ℕ)
    → place k (upsert us v)
      ≡ or_else (place k us) (if nat_eq v.id k then some (length us) else none)
place-upsert [] v k = ground arith
place-upsert (u ∷ us) v k = ground (arith, place-upsert us v k)

index_users-lookup :
    (i : ℕ) (us : List UserSpec) (index : Dict ℕ ℕ) (k : ℕ)
    → IsUnique us
    → lookup k (index_users i us index) ≡ or_else (move i (place k us)) (lookup k index)
unfolding index_users
index_users-lookup i [] index k h = refl
index_users-lookup i (u ∷ us) index k (fresh, h) = ground (
  arith,
  lookup-insert u.id i k index,
  index_users-lookup (suc i) us (insert u.id i index) k h,
  place-none u.id us fresh,
)

move_zero : (o : Option ℕ) → move 0 o ≡ o
move_zero none = refl
move_zero (some j) = ground arith

find_user-upsert :
    (k : ℕ) (us : List UserSpec) (v : UserSpec)
    → find_user k (upsert us v) ≡ (if nat_eq v.id k then some v else find_user k us)
find_user-upsert k [] v = refl
find_user-upsert k (u ∷ us) v = ground (arith, find_user-upsert k us v)

upsert-IsUnique : (us : List UserSpec) (v : UserSpec) → IsUnique us → IsUnique (upsert us v)
upsert-IsUnique [] v h = (refl, tt)
upsert-IsUnique (u ∷ us) v (fresh, h) =
    ground (arith, find_user-upsert u.id us v, upsert-IsUnique us v h)

-- One round of the loop is one `upsert`, and keeps the index.
add_user-current :
    (m : Merging) (v : UserSpec) → IsIndex m → (add_user m v).current ≡ upsert m.current v
unfolding add_user
add_user-current m v x = elim (Option-cases (place v.id m.current)) [
  | inl e ↦ ground (arith, x v.id, place-none-upsert m.current v)
  | inr (i, e) ↦ ground (arith, x v.id, set-place m.current v i)
]

add_user-index :
    (m : Merging) (v : UserSpec)
    → IsIndex m
    → (k : ℕ)
    → lookup k (add_user m v).index
      ≡ or_else (place k m.current) (if nat_eq v.id k then some (length m.current) else none)
unfolding add_user
add_user-index m v x k =
    ground (arith, x k, x v.id, lookup-insert v.id (length m.current) k m.index)

add_user-IsIndex : (m : Merging) (v : UserSpec) → IsIndex m → IsIndex (add_user m v)
add_user-IsIndex m v x k =
    ground (arith, add_user-current m v x, place-upsert m.current v k, add_user-index m v x k)

add_users-upsert :
    (delta : List UserSpec) (m : Merging)
    → IsIndex m
    → (foldl add_user m delta).current ≡ foldl upsert m.current delta
add_users-upsert [] m x = refl
add_users-upsert (v ∷ delta) m x =
    add_users-upsert delta (add_user m v) (add_user-IsIndex m v x)
    ∙ ap (λ us. foldl upsert us delta) (add_user-current m v x)

upserts-find :
    (delta us : List UserSpec) (k : ℕ)
    → find_user k (foldl upsert us delta) ≡ or_else (find_last k delta) (find_user k us)
upserts-find [] us k = refl
upserts-find (v ∷ delta) us k =
    ground (arith, upserts-find delta (upsert us v) k, find_user-upsert k us v)

upserts-IsUnique : (delta us : List UserSpec) → IsUnique us → IsUnique (foldl upsert us delta)
upserts-IsUnique [] us h = h
upserts-IsUnique (v ∷ delta) us h = upserts-IsUnique delta (upsert us v) (upsert-IsUnique us v h)

upserts-place :
    (delta us : List UserSpec) (k i : ℕ)
    → place k us ≡ some i
    → place k (foldl upsert us delta) ≡ some i
upserts-place [] us k i e = e
upserts-place (v ∷ delta) us k i e =
    upserts-place delta (upsert us v) k i (ground (arith, place-upsert us v k))

elements-slice_of :
    (users : Slice UserSpec) (us : List UserSpec) → elements (slice_of users us) ≡ us
elements-slice_of none [] = refl
elements-slice_of none (u ∷ us) = refl
elements-slice_of (some old) us = refl

-- The `add` loop, with its index, puts each user of the delta where the user with its id stands, or at
-- the end, if no id stands twice in the list before.
pub add_users_lem :
    (us delta : List UserSpec) → IsUnique us → (add_users us delta).current ≡ foldl upsert us delta
unfolding add_users
add_users_lem us delta h =
    add_users-upsert delta _
      (λ k. ground (arith, index_users-lookup 0 us [] k h, move_zero (place k us)))

-- The action "add" on a list with no id twice: an id has the last user of the delta that bears it, or
-- else the user that it had; no id stands twice; and each id that stood in the list keeps its place.
pub apply_user_delta-add :
    (users : Slice UserSpec) (delta : List UserSpec)
    → IsUnique (elements users)
    → let (users', known) = apply_user_delta users "add" delta in
      (known ≡ true)
      × IsUnique (elements users')
      × ((k : ℕ)
          → find_user k (elements users')
            ≡ or_else (find_last k delta) (find_user k (elements users)))
      × ((k i : ℕ) → place k (elements users) ≡ some i → place k (elements users') ≡ some i)
unfolding apply_user_delta
apply_user_delta-add users delta h =
    let e =
      elements-slice_of users (add_users (elements users) delta).current
      ∙ add_users_lem (elements users) delta h in
    (
      refl,
      rw e (upserts-IsUnique delta (elements users) h),
      λ k. rw e (upserts-find delta (elements users) k),
      λ k i p. rw e (upserts-place delta (elements users) k i p),
    )
