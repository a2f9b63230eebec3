-- ===== src/Prelude/Dicts.antt =====
-- A Go map as an association list. The order of the list is the order in which a `range` loop visits
-- the entries, which Go leaves open: the theorems hold for every order.
use mathlib.Core.Path.{◌≡◌, refl}
use mathlib.Core.Bool.{Bool, true, false}
use mathlib.Core.Option.{Option, none, some}
use mathlib.Core.List.{List, [], ◌∷◌}
use native.Mathlib.Omega.{arith}
use yzboard_node.Prelude.Tests.{HasEq, ◌==◌, if◌then◌else◌}

abbrev pub Dict {ℓ κ} : Type ℓ → Type κ → Type (ℓ ⊔ κ)
Dict K V = List (K × V)

module _ {ℓ κ} {K : Type ℓ} {V : Type κ} ⦃eq : HasEq K⦄ where
  -- `v, ok := m[k]`
  abbrev pub lookup : K → Dict K V → Option V
  lookup k [] = none
  lookup k ((j, v) ∷ m) = if j == k then some v else lookup k m

  -- `_, ok := m[k]`
  abbrev pub contains : K → Dict K V → Bool
  contains k m = elim (lookup k m) [ none ↦ false | some v ↦ true ]

  -- `m[k]`, with the zero value of a missing key.
  abbrev pub lookup_or : V → K → Dict K V → V
  lookup_or zero_value k m = elim (lookup k m) [ none ↦ zero_value | some v ↦ v ]

  -- `m[k] = v`
  abbrev pub insert : K → V → Dict K V → Dict K V
  insert k v [] = (k, v) ∷ []
  insert k v ((j, w) ∷ m) = if j == k then (j, v) ∷ m else (j, w) ∷ insert k v m

  -- `delete(m, k)`
  abbrev pub erase : K → Dict K V → Dict K V
  erase k [] = []
  erase k ((j, w) ∷ m) = let rest = erase k m in if j == k then rest else (j, w) ∷ rest

  -- No key stands twice, as in every Go map.
  abbrev pub IsMap : Dict K V → Type κ
  IsMap [] = Unit
  IsMap ((j, w) ∷ m) = (lookup j m ≡ none) × IsMap m

  pub lookup-insert :
      (k : K) (v : V) (j : K) (m : Dict K V)
      → lookup j (insert k v m) ≡ (if k == j then some v else lookup j m)
  lookup-insert k v j [] = refl
  lookup-insert k v j ((i, w) ∷ m) =
      ground (arith, eq.equal_iff k j, eq.equal_iff i k, eq.equal_iff i j, lookup-insert k v j m)

  pub lookup-erase :
      (k j : K) (m : Dict K V) → lookup j (erase k m) ≡ (if k == j then none else lookup j m)
  lookup-erase k j [] = ground arith
  lookup-erase k j ((i, w) ∷ m) =
      ground (arith, eq.equal_iff k j, eq.equal_iff i k, eq.equal_iff i j, lookup-erase k j m)

  pub insert-IsMap : (k : K) (v : V) (m : Dict K V) → IsMap m → IsMap (insert k v m)
  insert-IsMap k v [] h = (refl, tt)
  insert-IsMap k v ((i, w) ∷ m) h =
      ground
        (arith, eq.equal_iff i k, eq.equal_iff k i, lookup-insert k v i m, insert-IsMap k v m h.1)

  pub erase-IsMap : (k : K) (m : Dict K V) → IsMap m → IsMap (erase k m)
  erase-IsMap k [] h = tt
  erase-IsMap k ((i, w) ∷ m) h =
      ground (arith, eq.equal_iff k i, lookup-erase k i m, erase-IsMap k m h.1)

  pub lookup_or-insert :
      (z : V) (k : K) (v : V) (j : K) (m : Dict K V)
      → lookup_or z j (insert k v m) ≡ (if k == j then v else lookup_or z j m)
  lookup_or-insert z k v j m = ground (arith, eq.equal_iff k j, lookup-insert k v j m)

  pub lookup_or-none : (z : V) (k : K) (m : Dict K V) → lookup k m ≡ none → lookup_or z k m ≡ z
  lookup_or-none z k m h = ground arith
