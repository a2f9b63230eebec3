-- ===== src/Prelude/Texts.antt =====
-- Functions of Go's package strings on texts, as lists of characters.
use Prim.Native.Nat.{ℕ, ◌+◌}
use Prim.Native.Char.{Char, code}
use Prim.Native.String.{String}
use mathlib.Core.Bool.{Bool, true, false, ◌&&◌, ◌||◌}
use mathlib.Core.Option.{Option, none, some}
use text.Mathlib.Text.{◌==◌ as str_eq}
use mathlib.Core.List.{List, [], ◌∷◌, map}
use mathlib.Core.Path.{◌≡◌, refl}
use yzboard_node.Prelude.Tests.{nat_eq, leb, if◌then◌else◌}

-- `unicode.IsSpace`
unfoldable pub is_space : Char → Bool
is_space c =
    let n = code c in
    (leb 9 n && leb n 13)
    || nat_eq n 32
    || nat_eq n 0x85
    || nat_eq n 0xa0
    || nat_eq n 0x1680
    || (leb 0x2000 n && leb n 0x200a)
    || nat_eq n 0x2028
    || nat_eq n 0x2029
    || nat_eq n 0x202f
    || nat_eq n 0x205f
    || nat_eq n 0x3000

module _ (drop : Char → Bool) where
  unfoldable pub trim_left : String → String
  trim_left String.[] = ""
  trim_left (String.◌∷◌ c s) = let rest = trim_left s in if drop c then rest else String.◌∷◌ c s

  -- A dropped character stays where something else follows it.
  unfoldable pub trim_right : String → String
  trim_right String.[] = ""
  trim_right (String.◌∷◌ c s) = elim (trim_right s) [
    | String.[] ↦ if drop c then "" else String.◌∷◌ c ""
    | String.◌∷◌ d r ↦ String.◌∷◌ c (String.◌∷◌ d r)
  ]

-- `strings.TrimSpace`
unfoldable pub trim_space : String → String
unfolding trim_left trim_right is_space
trim_space s = trim_right is_space (trim_left is_space s)

abbrev pub is_bracket : Char → Bool
is_bracket c = nat_eq (code c) b'[' || nat_eq (code c) b']'

-- `strings.Trim(s, "[]")`
unfoldable pub trim_brackets : String → String
unfolding trim_left trim_right
trim_brackets s = trim_right is_bracket (trim_left is_bracket s)

abbrev pub codes : String → List ℕ
codes String.[] = []
codes (String.◌∷◌ c s) = code c ∷ codes s

-- The text without a character.
unfoldable pub without_char : ℕ → String → String
without_char drop String.[] = ""
without_char drop (String.◌∷◌ c s) =
    let rest = without_char drop s in if nat_eq (code c) drop then rest else String.◌∷◌ c rest

unfoldable pub all_chars : (ℕ → Bool) → String → Bool
all_chars test String.[] = true
all_chars test (String.◌∷◌ c s) = test (code c) && all_chars test s

abbrev pub is_digit : ℕ → Bool
is_digit n = leb b'0' n && leb n b'9'

abbrev pub is_hex_digit : ℕ → Bool
is_hex_digit n = is_digit n || (leb b'a' n && leb n b'f') || (leb b'A' n && leb n b'F')

-- `strings.TrimSuffix(s, t)` where `t` is one character, if `s` ends in it.
unfoldable pub cut_last : ℕ → String → Option String
cut_last last String.[] = none
cut_last last (String.◌∷◌ c s) = elim s [
  | String.[] ↦ if nat_eq (code c) last then some "" else none
  | String.◌∷◌ d r ↦ elim (cut_last last s) [ none ↦ none | some front ↦ some (String.◌∷◌ c front) ]
]

-- The text stands in the list.
abbrev pub one_of : String → List String → Bool
one_of s [] = false
one_of s (t ∷ ts) = str_eq s t || one_of s ts

-- `unicode.ToLower` as far as its results are ASCII: the capital letters, the Kelvin sign and the
-- dotted capital I. Any other code point stays as it is, or becomes one that is not ASCII either.
unfoldable pub lower_code : ℕ → ℕ
lower_code n =
    if leb b'A' n && leb n b'Z'
    then n + 32
    else if nat_eq n 0x212a
    then b'k'
    else if nat_eq n 0x130
    then b'i'
    else n

unfoldable pub codes_eq : List ℕ → List ℕ → Bool
codes_eq [] [] = true
codes_eq [] (y ∷ ys) = false
codes_eq (x ∷ xs) [] = false
codes_eq (x ∷ xs) (y ∷ ys) = nat_eq x y && codes_eq xs ys

-- `strings.ToLower(s) == t` at an ASCII text `t`.
unfoldable pub lower_is : String → String → Bool
unfolding lower_code codes_eq
lower_is s t = codes_eq (map lower_code (codes s)) (codes t)

-- The code point that `unicode.SimpleFold` relates to others, among those that ASCII letters fold to.
unfoldable pub fold_code : ℕ → ℕ
fold_code n =
    if leb b'A' n && leb n b'Z'
    then n + 32
    else if nat_eq n 0x17f
    then b's'
    else if nat_eq n 0x212a
    then b'k'
    else n

-- `strings.EqualFold(s, t)` at an ASCII text `t` without capitals.
unfoldable pub equal_fold : String → String → Bool
unfolding fold_code codes_eq
equal_fold s t = codes_eq (map fold_code (codes s)) (codes t)

-- A character before the first of the parts.
abbrev pub extend : Char → List String → List String
extend c [] = String.◌∷◌ c "" ∷ []
extend c (p ∷ ps) = String.◌∷◌ c p ∷ ps

-- `strings.Split` at a separator of one character.
unfoldable pub split : ℕ → String → List String
split sep String.[] = "" ∷ []
split sep (String.◌∷◌ c s) =
    let rest = split sep s in if nat_eq (code c) sep then "" ∷ rest else extend c rest

split_ports : split b',' "443,20000-20100," ≡ "443" ∷ "20000-20100" ∷ "" ∷ []
unfolding split
split_ports = refl

trim_both : trim_space " 4 43\t " ≡ "4 43"
unfolding trim_space
trim_both = refl

lower_network : lower_is "mKCP" "mkcp" ≡ true
unfolding lower_is
lower_network = refl
