-- ===== src/Portset/Cover.antt =====
-- Which ports a list of ranges covers, before and after `Merge` and `Without`.
use yzboard_node.Prelude.{
  ℕ, ◌≤◌, ◌≡◌, refl, Bool, false, not, ◌&&◌, ◌||◌, List, [], ◌∷◌, ◌++◌, leb, nat_eq, max, arith,
  All, Bool-cases, inl, inr, ◌∙◌,
}
use yzboard_node.Portset.{
  Range, contains, insert_range, sort_ranges, merge_from, merge_sorted, merge, cut, without,
}

abbrev pub covers : ℕ → List Range → Bool
covers p [] = false
covers p (r ∷ rs) = contains r p || covers p rs

-- The range holds a port.
abbrev pub IsProper : Range → Type 0
IsProper r = r.from ≤ r.to

-- Each range is proper, and begins no earlier than `n` and the range before.
abbrev pub IsSortedFrom : ℕ → List Range → Type 0
IsSortedFrom n [] = Unit
IsSortedFrom n (r ∷ rs) = (n ≤ r.from) × IsProper r × IsSortedFrom r.from rs

covers-insert_range :
    (p : ℕ) (r : Range) (xs : List Range)
    → covers p (insert_range r xs) ≡ (contains r p || covers p xs)
unfolding insert_range
covers-insert_range p r [] = refl
covers-insert_range p r (x ∷ xs) = ground (arith, covers-insert_range p r xs)

covers-sort_ranges : (p : ℕ) (rs : List Range) → covers p (sort_ranges rs) ≡ covers p rs
unfolding sort_ranges
covers-sort_ranges p [] = refl
covers-sort_ranges p (r ∷ rs) =
    ground (arith, covers-insert_range p r (sort_ranges rs), covers-sort_ranges p rs)

IsSortedFrom-mono : (m n : ℕ) (rs : List Range) → m ≤ n → IsSortedFrom n rs → IsSortedFrom m rs
IsSortedFrom-mono m n [] h s = tt
IsSortedFrom-mono m n (r ∷ rs) h (a, b, c) = (omega arith, b, c)

insert_range-IsSortedFrom :
    (n : ℕ) (r : Range) (xs : List Range)
    → n ≤ r.from
    → IsProper r
    → IsSortedFrom n xs
    → IsSortedFrom n (insert_range r xs)
unfolding insert_range
insert_range-IsSortedFrom n r [] h k s = (h, k, tt)
insert_range-IsSortedFrom n r (x ∷ xs) h k (a, b, c) = elim (Bool-cases (leb r.from x.from)) [
  | inl e ↦ rw e (h, k, (ground arith, b, c))
  | inr e ↦ rw e (a, b, insert_range-IsSortedFrom x.from r xs (ground arith) k c)
]

pub sort_ranges-IsSortedFrom : (rs : List Range) → All IsProper rs → IsSortedFrom 0 (sort_ranges rs)
unfolding sort_ranges
sort_ranges-IsSortedFrom [] h = tt
sort_ranges-IsSortedFrom (r ∷ rs) (h, hs) =
    insert_range-IsSortedFrom 0 r (sort_ranges rs) (omega arith) h (sort_ranges-IsSortedFrom rs hs)

covers-merge_from :
    (p : ℕ) (previous : Range) (rest : List Range)
    → IsProper previous
    → IsSortedFrom previous.from rest
    → covers p (merge_from previous rest) ≡ (contains previous p || covers p rest)
unfolding merge_from contains
covers-merge_from p previous [] h s = refl
covers-merge_from p previous (current ∷ rest) h (a, b, c) = ground (
  arith,
  covers-merge_from p (record previous { to = max previous.to current.to }) rest,
  covers-merge_from p current rest b c,
  IsSortedFrom-mono previous.from current.from rest a c,
)

covers-merge_sorted :
    (p : ℕ) (xs : List Range) → IsSortedFrom 0 xs → covers p (merge_sorted xs) ≡ covers p xs
covers-merge_sorted p [] s = refl
covers-merge_sorted p (x ∷ xs) (a, b, c) = covers-merge_from p x xs b c

-- `Merge` covers the ports that it was given, if every range holds a port.
pub covers-merge : (p : ℕ) (rs : List Range) → All IsProper rs → covers p (merge rs) ≡ covers p rs
unfolding merge
covers-merge p rs h =
    covers-merge_sorted p (sort_ranges rs) (sort_ranges-IsSortedFrom rs h) ∙ covers-sort_ranges p rs

pub covers-append :
    (p : ℕ) (xs ys : List Range) → covers p (xs ++ ys) ≡ (covers p xs || covers p ys)
covers-append p [] ys = refl
covers-append p (x ∷ xs) ys = ground (arith, covers-append p xs ys)

covers-cut :
    (p : ℕ) (r : Range) (port : ℕ) → covers p (cut r port) ≡ (contains r p && not (nat_eq p port))
unfolding cut contains
covers-cut p r port = ground arith

-- `Without` takes out the one port, and nothing else: a port is covered afterwards exactly if it was
-- covered before and is not the one port.
pub covers-without :
    (p : ℕ) (rs : List Range) (port : ℕ)
    → covers p (without rs port) ≡ (covers p rs && not (nat_eq p port))
unfolding without
covers-without p [] port = refl
covers-without p (r ∷ rs) port = ground (
  arith,
  covers-append p (cut r port) (without rs port),
  covers-cut p r port,
  covers-without p rs port,
)
