-- ===== src/Portset/Separate.antt =====
-- The shape of a merged list: proper ranges, in order, with at least one port free between two.
use yzboard_node.Prelude.{
  ℕ, ◌+◌, ◌-◌, ◌≤◌, List, [], ◌∷◌, ◌++◌, leb, max, arith, All, Bool-cases, inl, inr,
}
use yzboard_node.Portset.{
  Range, contains, sort_ranges, merge_from, merge_sorted, merge, cut, without,
}
use yzboard_node.Portset.Cover.{IsProper, IsSortedFrom, sort_ranges-IsSortedFrom}

-- Each range is proper, and begins at `n` or later and two ports or more behind the range before.
abbrev pub IsSeparatedFrom : ℕ → List Range → Type 0
IsSeparatedFrom n [] = Unit
IsSeparatedFrom n (r ∷ rs) = (n ≤ r.from) × IsProper r × IsSeparatedFrom (r.to + 2) rs

abbrev pub IsSeparated : List Range → Type 0
IsSeparated = IsSeparatedFrom 0

pub IsSeparatedFrom-mono :
    (m n : ℕ) (rs : List Range) → m ≤ n → IsSeparatedFrom n rs → IsSeparatedFrom m rs
IsSeparatedFrom-mono m n [] h s = tt
IsSeparatedFrom-mono m n (r ∷ rs) h (a, b, c) = (omega arith, b, c)

IsSortedFrom-mono : (m n : ℕ) (rs : List Range) → m ≤ n → IsSortedFrom n rs → IsSortedFrom m rs
IsSortedFrom-mono m n [] h s = tt
IsSortedFrom-mono m n (r ∷ rs) h (a, b, c) = (omega arith, b, c)

merge_from-IsSeparatedFrom :
    (n : ℕ) (previous : Range) (rest : List Range)
    → n ≤ previous.from
    → IsProper previous
    → IsSortedFrom previous.from rest
    → IsSeparatedFrom n (merge_from previous rest)
unfolding merge_from
merge_from-IsSeparatedFrom n previous [] h p s = (h, p, tt)
merge_from-IsSeparatedFrom n previous (current ∷ rest) h p (a, b, c) =
    elim (Bool-cases (leb current.from (previous.to + 1))) [
      | inl e ↦ rw e (
          merge_from-IsSeparatedFrom n (record previous { to = max previous.to current.to }) rest h
            (omega arith) (IsSortedFrom-mono previous.from current.from rest a c))
      | inr e ↦
          rw e (h, p, merge_from-IsSeparatedFrom (previous.to + 2) current rest (ground arith) b c)
    ]

-- Whatever the order of the given ranges, `Merge` gives proper ranges in order, and no two of them
-- overlap or touch, if every given range holds a port.
pub merge-IsSeparated : (rs : List Range) → All IsProper rs → IsSeparated (merge rs)
unfolding merge
merge-IsSeparated rs h = go (sort_ranges rs) (sort_ranges-IsSortedFrom rs h)
  where
    go : (xs : List Range) → IsSortedFrom 0 xs → IsSeparated (merge_sorted xs)
    go [] s = tt
    go (x ∷ xs) (a, b, c) = merge_from-IsSeparatedFrom 0 x xs a b c

cut-IsSeparatedFrom :
    (n : ℕ) (r : Range) (port : ℕ) (rest : List Range)
    → n ≤ r.from
    → IsProper r
    → IsSeparatedFrom (r.to + 2) rest
    → IsSeparatedFrom n (cut r port ++ rest)
unfolding cut contains
cut-IsSeparatedFrom n r port rest h p s = ground (
  arith,
  IsSeparatedFrom-mono n (r.to + 2) rest,
  IsSeparatedFrom-mono (port - 1 + 2) (r.to + 2) rest,
)

without-IsSeparatedFrom :
    (n : ℕ) (rs : List Range) (port : ℕ)
    → IsSeparatedFrom n rs
    → IsSeparatedFrom n (without rs port)
unfolding without
without-IsSeparatedFrom n [] port s = tt
without-IsSeparatedFrom n (r ∷ rs) port (h, p, s) =
    cut-IsSeparatedFrom n r port (without rs port) h p
      (without-IsSeparatedFrom (r.to + 2) rs port s)

-- If a list has proper ranges in order, no two of which overlap or touch, so has what `Without` makes
-- of it.
pub without-IsSeparated :
    (rs : List Range) (port : ℕ) → IsSeparated rs → IsSeparated (without rs port)
without-IsSeparated = without-IsSeparatedFrom 0
