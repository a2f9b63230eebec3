-- ===== src/Portset.antt =====
-- internal/portset/ports.go: lists of ports and port ranges. Ports are natural numbers: what `Parse`
-- gives is from 1 to 65535.
pub mod Cover
pub mod Separate
pub mod Canonical
pub mod Parsed
mod Tests
use Prim.Native.Char.{code}
use Prim.Native.String.{String}
use yzboard_node.Prelude.{
  Outcome, err, ok, ◌>>=◌, ℕ, ◌+◌, ◌-◌, ◌*◌, ◌≡◌, refl, Bool, true, false, ◌&&◌, ◌||◌, List, [],
  ◌∷◌, ◌++◌, if◌then◌else◌, ltb, leb, max, trim_space, split, two63,
}

pub record Range : Type 0 where
  pub from : ℕ
  pub to : ℕ

unfoldable pub contains : Range → ℕ → Bool
contains r port = leb r.from port && leb port r.to

unfoldable pub overlaps : Range → Range → Bool
overlaps r other = leb r.from other.to && leb other.from r.to

unfoldable pub valid : Range → Bool
valid r = ltb 0 r.from && leb r.from r.to && leb r.to 65535

pub data Error : Type 0 where
  bad_range_format empty_item bad_port reversed_range : Error

abbrev pub Result {ℓ} : Type ℓ → Type ℓ
Result A = Outcome Error A

-- The loop over the characters in `parsePort`.
unfoldable pub all_digits : String → Bool
all_digits String.[] = true
all_digits (String.◌∷◌ c s) = leb b'0' (code c) && leb (code c) b'9' && all_digits s

-- The number that the digits `s` spell behind those of `n`.
unfoldable pub value : ℕ → String → ℕ
value n String.[] = n
value n (String.◌∷◌ c s) = value (n * 10 + (code c - b'0')) s

-- `strconv.Atoi` on digits: an error where the value is no int64.
unfoldable pub atoi : String → Result ℕ
atoi s = if ltb (value 0 s) two63 then ok (value 0 s) else err bad_port

-- `parsePort` on the trimmed text.
unfoldable pub parse_digits : String → Result ℕ
parse_digits String.[] = err empty_item
parse_digits (String.◌∷◌ c s) =
    if all_digits (String.◌∷◌ c s)
    then (do
      port ← atoi (String.◌∷◌ c s)
      if ltb port 1 || ltb 65535 port then err bad_port else ok port)
    else err bad_port

unfoldable pub parse_port : String → Result ℕ
unfolding parse_digits atoi
parse_port raw = parse_digits (trim_space raw)

abbrev pub ordered : ℕ → ℕ → Result Range
ordered first last =
    if ltb last first then err reversed_range else ok (record { from = first; to = last })

-- One round of the loop in `Parse`, on the parts of the item.
unfoldable pub parse_parts : List String → Result Range
parse_parts [] = err bad_range_format
parse_parts (a ∷ []) = do first ← parse_port a; ordered first first
parse_parts (a ∷ b ∷ []) = do first ← parse_port a; last ← parse_port b; ordered first last
parse_parts (a ∷ b ∷ c ∷ rest) = err bad_range_format

-- The loop in `Parse`.
unfoldable pub parse_items : List String → Result (List Range)
unfolding parse_parts
parse_items [] = ok []
parse_items (item ∷ items) =
    let rest = parse_items items in
    (do r ← parse_parts (split b'-' (trim_space item)); rs ← rest; ok (r ∷ rs))

-- `sort.Slice` by the first port: ranges with equal first ports may come in any order.
unfoldable pub insert_range : Range → List Range → List Range
insert_range r [] = r ∷ []
insert_range r (x ∷ xs) =
    let rest = insert_range r xs in if leb r.from x.from then r ∷ x ∷ xs else x ∷ rest

unfoldable pub sort_ranges : List Range → List Range
unfolding insert_range
sort_ranges [] = []
sort_ranges (r ∷ rs) = insert_range r (sort_ranges rs)

-- The loop in `Merge`, with the last merged range in `previous`.
unfoldable pub merge_from : Range → List Range → List Range
merge_from previous [] = previous ∷ []
merge_from previous (current ∷ rest) =
    let joined = merge_from (record previous { to = max previous.to current.to }) rest in
    let apart = previous ∷ merge_from current rest in
    if leb current.from (previous.to + 1) then joined else apart

abbrev pub merge_sorted : List Range → List Range
merge_sorted [] = []
merge_sorted (r ∷ rs) = merge_from r rs

-- `Merge`, which makes `nil` of `nil` and of an empty slice.
unfoldable pub merge : List Range → List Range
unfolding merge_from
merge ranges = merge_sorted (sort_ranges ranges)

unfoldable pub parse : String → Result (List Range)
unfolding parse_items
parse raw = do ranges ← parse_items (split b',' raw); ok (merge ranges)

-- One round of the loop in `Without`.
unfoldable pub cut : Range → ℕ → List Range
cut r port =
    if contains r port
    then (if ltb r.from port then record { from = r.from; to = port - 1 } ∷ [] else [])
      ++ (if ltb port r.to then record { from = port + 1; to = r.to } ∷ [] else [])
    else r ∷ []

unfoldable pub without : List Range → ℕ → List Range
unfolding cut
without [] port = []
without (r ∷ rs) port = cut r port ++ without rs port
