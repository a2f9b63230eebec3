-- ===== src/Portset/Parsed.antt =====
-- What `Parse` accepts and gives.
use Prim.Native.String.{String}
use mathlib.Core.Path.{subst}
use yzboard_node.Prelude.{
  ok, ok_steps, ℕ, ◌+◌, ◌≤◌, ◌<◌, ◌≡◌, true, List, [], ◌∷◌, leb, max, arith, All, Bool-cases, inl,
  inr, split, trim_space,
}
use yzboard_node.Portset.{
  Range, valid, parse_digits, parse_port, atoi, parse_parts, parse_items, insert_range, sort_ranges,
  merge_from, merge_sorted, merge, parse,
}
use yzboard_node.Portset.Cover.{IsProper}
use yzboard_node.Portset.Separate.{IsSeparated, merge-IsSeparated}

-- The range lies within 1 to 65535.
pub record IsPorts (r : Range) : Type 0 where
  pub low : 0 < r.from
  pub order : r.from ≤ r.to
  pub high : r.to ≤ 65535

valid-IsPorts : (r : Range) → IsPorts r → valid r ≡ true
unfolding valid
valid-IsPorts r h = ground arith

parse_digits_bounds : (s : String) (p : ℕ) → parse_digits s ≡ ok p → (0 < p) × (p ≤ 65535)
unfolding parse_digits atoi
parse_digits_bounds String.[] p e = cc
parse_digits_bounds (String.◌∷◌ c s) p e = ground arith

parse_port_bounds : (s : String) (p : ℕ) → parse_port s ≡ ok p → (0 < p) × (p ≤ 65535)
unfolding parse_port
parse_port_bounds s p e = parse_digits_bounds (trim_space s) p e

parse_parts-IsPorts : (ps : List String) (r : Range) → parse_parts ps ≡ ok r → IsPorts r
unfolding parse_parts
parse_parts-IsPorts [] r e = cc
parse_parts-IsPorts (a ∷ []) r e = grind (arith, parse_port_bounds)
parse_parts-IsPorts (a ∷ b ∷ []) r e = grind (arith, parse_port_bounds)
parse_parts-IsPorts (a ∷ b ∷ c ∷ rest) r e = cc

parse_items-IsPorts :
    (items : List String) (rs : List Range) → parse_items items ≡ ok rs → All IsPorts rs
unfolding parse_items
parse_items-IsPorts [] [] e = tt
parse_items-IsPorts [] (r ∷ rs) e = cc
parse_items-IsPorts (item ∷ items) [] e = ground arith
parse_items-IsPorts (item ∷ items) (r ∷ rs) e =
    let (r', er, e') = ok_steps (parse_parts (split b'-' (trim_space item))) e in
    let (rs', ers, e'') = ok_steps (parse_items items) e' in
    (parse_parts-IsPorts (split b'-' (trim_space item)) r (cc), parse_items-IsPorts items rs (cc))

insert_range-IsPorts :
    (r : Range) (xs : List Range) → IsPorts r → All IsPorts xs → All IsPorts (insert_range r xs)
unfolding insert_range
insert_range-IsPorts r [] h hs = (h, tt)
insert_range-IsPorts r (x ∷ xs) h (k, hs) = elim (Bool-cases (leb r.from x.from)) [
  | inl e ↦ rw e (h, (k, hs))
  | inr e ↦ rw e (k, insert_range-IsPorts r xs h hs)
]

sort_ranges-IsPorts : (rs : List Range) → All IsPorts rs → All IsPorts (sort_ranges rs)
unfolding sort_ranges
sort_ranges-IsPorts [] h = tt
sort_ranges-IsPorts (r ∷ rs) (h, hs) =
    insert_range-IsPorts r (sort_ranges rs) h (sort_ranges-IsPorts rs hs)

merge_from-IsPorts :
    (r : Range) (xs : List Range) → IsPorts r → All IsPorts xs → All IsPorts (merge_from r xs)
unfolding merge_from
merge_from-IsPorts r [] h hs = (h, tt)
merge_from-IsPorts r (x ∷ xs) h (k, hs) = elim (Bool-cases (leb x.from (r.to + 1))) [
  | inl e ↦ rw e (merge_from-IsPorts (record r { to = max r.to x.to }) xs (omega arith) hs)
  | inr e ↦ rw e (h, merge_from-IsPorts x xs k hs)
]

merge_sorted-IsPorts : (xs : List Range) → All IsPorts xs → All IsPorts (merge_sorted xs)
merge_sorted-IsPorts [] h = tt
merge_sorted-IsPorts (x ∷ xs) (h, hs) = merge_from-IsPorts x xs h hs

IsPorts-IsProper : (rs : List Range) → All IsPorts rs → All IsProper rs
IsPorts-IsProper [] h = tt
IsPorts-IsProper (r ∷ rs) (h, hs) = (h.order, IsPorts-IsProper rs hs)

merge-IsPorts : (rs : List Range) → All IsPorts rs → All IsPorts (merge rs)
unfolding merge
merge-IsPorts rs h = merge_sorted-IsPorts (sort_ranges rs) (sort_ranges-IsPorts rs h)

IsPorts-valid : (rs : List Range) → All IsPorts rs → All (λ r. valid r ≡ true) rs
IsPorts-valid [] h = tt
IsPorts-valid (r ∷ rs) (h, hs) = (valid-IsPorts r h, IsPorts-valid rs hs)

-- What `Parse` gives is a list of valid ranges, in order, no two of which overlap or touch.
pub parse_sound :
    (raw : String) (rs : List Range)
    → parse raw ≡ ok rs
    → IsSeparated rs × All (λ r. valid r ≡ true) rs
unfolding parse
parse_sound raw rs e =
    let (ranges, given, merged) = ok_steps (parse_items (split b',' raw)) e in
    let h = parse_items-IsPorts _ ranges given in
    let same : merge ranges ≡ rs = cc in
    (
      subst IsSeparated same (merge-IsSeparated ranges (IsPorts-IsProper ranges h)),
      IsPorts-valid rs (subst (All IsPorts) same (merge-IsPorts ranges h)),
    )
