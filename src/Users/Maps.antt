-- ===== src/Users/Maps.antt =====
-- Users by their ids: what the maps that the code builds hold.
use mathlib.Core.List.{foldl}
use yzboard_node.Prelude.{
  ℕ, ◌≡◌, refl, Bool, true, false, Option, none, some, List, [], ◌∷◌, if◌then◌else◌, arith, Dict,
  lookup, contains, insert, lookup-insert, insert-IsMap, IsMap, nat_Eq, nat_eq,
}
use yzboard_node.Users.{UserSpec, put_user, put_id, keep_users, values}

-- The first user of the list with the id.
abbrev pub find_user : ℕ → List UserSpec → Option UserSpec
find_user k [] = none
find_user k (u ∷ us) = if nat_eq u.id k then some u else find_user k us

-- The last user of the list with the id.
abbrev pub find_last : ℕ → List UserSpec → Option UserSpec
find_last k [] = none
find_last k (u ∷ us) = elim (find_last k us) [
  | none ↦ if nat_eq u.id k then some u else none
  | some v ↦ some v
]

-- The id stands in the list.
abbrev pub has_id : ℕ → List UserSpec → Bool
has_id k us = elim (find_user k us) [ none ↦ false | some u ↦ true ]

-- No two users have one id.
abbrev pub IsUnique : List UserSpec → Type 0
IsUnique [] = Unit
IsUnique (u ∷ us) = (find_user u.id us ≡ none) × IsUnique us

abbrev pub or_else {ℓ} : {A : Type ℓ} → Option A → Option A → Option A
or_else none d = d
or_else (some a) d = some a

pub lookup-put_users :
    (us : List UserSpec) (m : Dict ℕ UserSpec) (k : ℕ)
    → lookup k (foldl put_user m us) ≡ or_else (find_last k us) (lookup k m)
lookup-put_users [] m k = refl
lookup-put_users (u ∷ us) m k =
    ground (arith, lookup-insert u.id u k m, lookup-put_users us (put_user m u) k)

pub put_users-IsMap :
    (us : List UserSpec) (m : Dict ℕ UserSpec) → IsMap m → IsMap (foldl put_user m us)
put_users-IsMap [] m h = h
put_users-IsMap (u ∷ us) m h = put_users-IsMap us (put_user m u) (insert-IsMap u.id u m h)

-- Each value stands under its id.
abbrev pub IsKeyed : Dict ℕ UserSpec → Type 0
IsKeyed [] = Unit
IsKeyed ((k, v) ∷ m) = (v.id ≡ k) × IsKeyed m

insert-IsKeyed : (u : UserSpec) (m : Dict ℕ UserSpec) → IsKeyed m → IsKeyed (insert u.id u m)
insert-IsKeyed u [] h = (refl, tt)
insert-IsKeyed u ((k, v) ∷ m) h = ground (arith, insert-IsKeyed u m h.1)

pub put_users-IsKeyed :
    (us : List UserSpec) (m : Dict ℕ UserSpec) → IsKeyed m → IsKeyed (foldl put_user m us)
put_users-IsKeyed [] m h = h
put_users-IsKeyed (u ∷ us) m h = put_users-IsKeyed us (put_user m u) (insert-IsKeyed u m h)

pub find_user-values :
    (k : ℕ) (m : Dict ℕ UserSpec) → IsKeyed m → find_user k (values m) ≡ lookup k m
find_user-values k [] h = refl
find_user-values k ((j, v) ∷ m) h = ground (arith, find_user-values k m h.1)

pub values-IsUnique : (m : Dict ℕ UserSpec) → IsMap m → IsKeyed m → IsUnique (values m)
values-IsUnique [] i h = tt
values-IsUnique ((k, v) ∷ m) (fresh, i) h =
    ground (arith, find_user-values k m h.1, values-IsUnique m i h.1)

pub find_last-eq-find_user :
    (k : ℕ) (us : List UserSpec) → IsUnique us → find_last k us ≡ find_user k us
find_last-eq-find_user k [] h = refl
find_last-eq-find_user k (u ∷ us) (fresh, h) = ground (arith, find_last-eq-find_user k us h)

pub contains-put_ids :
    (us : List UserSpec) (m : Dict ℕ (Unit {0})) (k : ℕ)
    → contains k (foldl put_id m us) ≡ (if has_id k us then true else contains k m)
contains-put_ids [] m k = refl
contains-put_ids (u ∷ us) m k =
    ground (arith, lookup-insert u.id tt k m, contains-put_ids us (put_id m u) k)

pub find_user-keep_users :
    (k : ℕ) (s : Dict ℕ (Unit {0})) (us : List UserSpec)
    → find_user k (keep_users s us) ≡ (if contains k s then none else find_user k us)
find_user-keep_users k s [] = ground arith
find_user-keep_users k s (u ∷ us) = ground (arith, find_user-keep_users k s us)

pub keep_users-IsUnique :
    (s : Dict ℕ (Unit {0})) (us : List UserSpec) → IsUnique us → IsUnique (keep_users s us)
keep_users-IsUnique s [] h = tt
keep_users-IsUnique s (u ∷ us) (fresh, h) =
    ground (arith, find_user-keep_users u.id s us, keep_users-IsUnique s us h)
