-- ===== src/Portset/Tests.antt =====
-- Concrete ports for internal/portset/ports.go.
use yzboard_node.Prelude.{
  ok, err, ℕ, ◌≡◌, refl, true, not, ◌&&◌, List, [], ◌∷◌, arith, nat_eq, All, trim_space, split,
}
use yzboard_node.Portset.{
  Range, contains, valid, reversed_range, empty_item, bad_port, bad_range_format, all_digits, value,
  parse_port, sort_ranges, merge, parse, without,
}
use yzboard_node.Portset.Cover.{covers, covers-merge, covers-without}
use yzboard_node.Portset.Separate.{IsSeparated}
use yzboard_node.Portset.Canonical.{merge_canonical}
use yzboard_node.Portset.Parsed.{parse_sound}

abbrev range : ℕ → ℕ → Range
range from to = record { from = from; to = to }

three_items : parse "20000-20100, 443,20101 - 20200" ≡ ok (range 443 443 ∷ range 20000 20200 ∷ [])
unfolding parse all_digits value parse_port trim_space split merge sort_ranges
three_items = refl

reversed : parse "5-4" ≡ err reversed_range
unfolding parse all_digits value parse_port trim_space split
reversed = refl

nothing_given : parse "" ≡ err empty_item
unfolding parse all_digits value parse_port trim_space split
nothing_given = refl

too_large : parse "443,65536" ≡ err bad_port
unfolding parse all_digits value parse_port trim_space split
too_large = refl

two_dashes : parse "1-2-3" ≡ err bad_range_format
unfolding parse all_digits value parse_port trim_space split
two_dashes = refl

-- Two lists that cover the ports from 1 to 9.
abbrev overlapping : List Range
overlapping = range 4 9 ∷ range 1 6 ∷ []

abbrev touching : List Range
touching = range 1 3 ∷ range 4 9 ∷ []

same_ports : (p : ℕ) → covers p overlapping ≡ covers p touching
unfolding contains
same_ports p = ground arith

merge_canonical_example : merge overlapping ≡ merge touching
merge_canonical_example =
    merge_canonical overlapping touching (omega arith) (omega arith) same_ports

covers-merge_example : covers 5 (merge overlapping) ≡ covers 5 overlapping
covers-merge_example = covers-merge 5 overlapping (omega arith)

abbrev apart : List Range
apart = range 1 9 ∷ range 20 30 ∷ []

covers-without_example : covers 5 (without apart 5) ≡ (covers 5 apart && not (nat_eq 5 5))
covers-without_example = covers-without 5 apart 5

parse_sound_example :
    IsSeparated (range 443 443 ∷ range 20000 20200 ∷ [])
    × All (λ r. valid r ≡ true) (range 443 443 ∷ range 20000 20200 ∷ [])
parse_sound_example =
    parse_sound "20000-20100, 443,20101 - 20200" (range 443 443 ∷ range 20000 20200 ∷ [])
      three_items
