-- ===== src/Portset/Canonical.antt =====
-- A separated list is the only one that covers its ports, so `Merge` gives a normal form.
use mathlib.Core.Path.{subst, ap₂}
use yzboard_node.Prelude.{
  ℕ, ◌+◌, ◌≤◌, ◌<◌, ◌≡◌, refl, sym, ◌∙◌, true, false, List, [], ◌∷◌, arith, All,
}
use yzboard_node.Portset.{Range, contains, merge}
use yzboard_node.Portset.Cover.{covers, IsProper, covers-merge}
use yzboard_node.Portset.Separate.{IsSeparatedFrom, IsSeparated, merge-IsSeparated}

covers_below : (p n : ℕ) (rs : List Range) → p < n → IsSeparatedFrom n rs → covers p rs ≡ false
unfolding contains
covers_below p n [] h s = refl
covers_below p n (r ∷ rs) h (a, b, c) = ground (arith, covers_below p (r.to + 2) rs)

covers_first : (r : Range) (rs : List Range) → IsProper r → covers r.from (r ∷ rs) ≡ true
unfolding contains
covers_first r rs h = ground arith

covers_last : (r : Range) (rs : List Range) → IsProper r → covers r.to (r ∷ rs) ≡ true
unfolding contains
covers_last r rs h = ground arith

covers_gap :
    (r : Range) (rs : List Range)
    → IsSeparatedFrom (r.to + 2) rs
    → covers (r.to + 1) (r ∷ rs) ≡ false
unfolding contains
covers_gap r rs s = ground (arith, covers_below (r.to + 1) (r.to + 2) rs)

-- One range begins no later than another list that covers its first port.
from-le :
    (n : ℕ) (r s : Range) (rs ss : List Range)
    → IsProper r
    → IsSeparatedFrom n (s ∷ ss)
    → ((p : ℕ) → covers p (r ∷ rs) ≡ covers p (s ∷ ss))
    → s.from ≤ r.from
from-le n r s rs ss h (a, b, c) e =
    ground (arith, covers_first r rs h, e r.from, covers_below r.from s.from (s ∷ ss))

-- Of two lists that begin alike, the first range ends no later.
to-le :
    (r s : Range) (rs ss : List Range)
    → IsProper r
    → IsSeparatedFrom (r.to + 2) rs
    → IsProper s
    → r.from ≡ s.from
    → ((p : ℕ) → covers p (r ∷ rs) ≡ covers p (s ∷ ss))
    → s.to ≤ r.to
unfolding contains
to-le r s rs ss b c b' f e = ground (arith, covers_gap r rs c, e (r.to + 1))

Range-eq : (r s : Range) → r.from ≡ s.from → r.to ≡ s.to → r ≡ s
Range-eq r s f t = cc

covers_tail :
    (p : ℕ) (r : Range) (rs ss : List Range)
    → IsSeparatedFrom (r.to + 2) rs
    → IsSeparatedFrom (r.to + 2) ss
    → covers p (r ∷ rs) ≡ covers p (r ∷ ss)
    → covers p rs ≡ covers p ss
unfolding contains
covers_tail p r rs ss s s' e =
    ground (arith, covers_below p (r.to + 2) rs, covers_below p (r.to + 2) ss)

separated-IsProper : (n : ℕ) (rs : List Range) → IsSeparatedFrom n rs → All IsProper rs
separated-IsProper n [] s = tt
separated-IsProper n (r ∷ rs) (a, b, c) = (b, separated-IsProper (r.to + 2) rs c)

-- Two separated lists that cover the same ports are the same.
pub separated_unique :
    (n : ℕ) (rs ss : List Range)
    → IsSeparatedFrom n rs
    → IsSeparatedFrom n ss
    → ((p : ℕ) → covers p rs ≡ covers p ss)
    → rs ≡ ss
separated_unique n [] [] h h' e = refl
separated_unique n [] (s ∷ ss) h (a, b, c) e = cc (e s.from, covers_first s ss b)
separated_unique n (r ∷ rs) [] (a, b, c) h' e = cc (e r.from, covers_first r rs b)
separated_unique n (r ∷ rs) (s ∷ ss) (a, b, c) (a', b', c') e =
    let e' = λ (p : ℕ). sym (e p) in
    let f : r.from ≡ s.from =
      omega (arith, from-le n r s rs ss b (a', b', c') e, from-le n s r ss rs b' (a, b, c) e') in
    let t : r.to ≡ s.to =
      omega (arith, to-le r s rs ss b c b' f e, to-le s r ss rs b' c' b (sym f) e') in
    let q = Range-eq r s f t in
    let c'' = subst (λ x. IsSeparatedFrom (x.to + 2) ss) (sym q) c' in
    let tails = λ (p : ℕ).
      covers_tail p r rs ss c c''
        (subst (λ x. covers p (r ∷ rs) ≡ covers p (x ∷ ss)) (sym q) (e p)) in
    ap₂ ◌∷◌ q (separated_unique (r.to + 2) rs ss c c'' tails)

-- If two lists cover the same ports and all their ranges hold a port, `Merge` makes the same list of
-- both: it depends neither on their order nor on how they overlap.
pub merge_canonical :
    (rs ss : List Range)
    → All IsProper rs
    → All IsProper ss
    → ((p : ℕ) → covers p rs ≡ covers p ss)
    → merge rs ≡ merge ss
merge_canonical rs ss h k e =
    separated_unique 0 (merge rs) (merge ss) (merge-IsSeparated rs h) (merge-IsSeparated ss k)
      λ p. covers-merge p rs h ∙ e p ∙ sym (covers-merge p ss k)

-- `Merge` leaves a list alone that has proper ranges in order, no two of which overlap or touch.
merge_separated : (rs : List Range) → IsSeparated rs → merge rs ≡ rs
merge_separated rs s =
    let h = separated-IsProper 0 rs s in
    separated_unique 0 (merge rs) rs (merge-IsSeparated rs h) s (λ p. covers-merge p rs h)
