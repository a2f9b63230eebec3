-- ===== src/Kernels/Ids.antt =====
-- internal/kernel/singbox/conntracker.go: the names of connections, which are their numbers in base 36. A
-- text is its list of bytes.
use Prim.Native.Nat.{◌/◌, ◌%◌}
use yzboard_node.Prelude.{
  ℕ, zero, suc, ◌+◌, ◌-◌, ◌*◌, ◌<◌, ◌≡◌, refl, ap, ◌∙◌, Option, none, some, List, [], ◌∷◌,
  if◌then◌else◌, ltb, nat_eq, arith, two63, Bool-cases, inl, inr,
}

-- A byte of `digits`.
unfoldable pub digit : ℕ → ℕ
digit d = if ltb d 10 then b'0' + d else b'a' + (d - 10)

-- The loop in `formatInt36` with so many places left in `buf`, and what it has written: nothing where it
-- needs another place.
unfoldable pub write_digits : ℕ → ℕ → List ℕ → Option (List ℕ)
unfolding digit
write_digits zero n written = if nat_eq n 0 then some written else none
write_digits (suc places) n written =
    let rest = write_digits places (n / 36) (digit (n % 36) ∷ written) in
    if nat_eq n 0 then some written else rest

-- `formatInt36` on a number that is not negative. `buf` has 13 places.
unfoldable pub format_int36 : ℕ → Option (List ℕ)
unfolding write_digits
format_int36 n = if nat_eq n 0 then some (b'0' ∷ []) else write_digits 13 n []

-- The number that the digits spell behind those of `n`.
abbrev pub digit_value : ℕ → ℕ
digit_value c = if ltb c b'a' then c - b'0' else c - b'a' + 10

unfoldable pub read_digits : ℕ → List ℕ → ℕ
read_digits n [] = n
read_digits n (c ∷ cs) = read_digits (n * 36 + digit_value c) cs

-- How many numbers have so many places.
unfoldable pub capacity : ℕ → ℕ
capacity zero = 1
capacity (suc places) = 36 * capacity places

digit_value-digit : (d : ℕ) → d < 36 → digit_value (digit d) ≡ d
unfolding digit
digit_value-digit d h = ground arith

write_digits-read_digits :
    (places n : ℕ) (written : List ℕ)
    → n < capacity places
    → (s : List ℕ) × (write_digits places n written ≡ some s)
      × (read_digits 0 s ≡ read_digits n written)
unfolding write_digits capacity read_digits
write_digits-read_digits zero n written h = elim (Bool-cases (nat_eq n 0)) [
  | inl e ↦ (written, rw e refl, ap (λ x. read_digits x written) (ground (arith, e)))
  | inr e ↦ ground (arith, e, h)
]
write_digits-read_digits (suc places) n written h = elim (Bool-cases (nat_eq n 0)) [
  | inl e ↦ (written, rw e refl, ap (λ x. read_digits x written) (ground (arith, e)))
  | inr e ↦
      let (s, made, value) =
        write_digits-read_digits places (n / 36) (digit (n % 36) ∷ written) (omega arith) in
      let last = digit_value-digit (n % 36) (omega arith) in
      (s, rw e made, value ∙ ap (λ x. read_digits x written) (rw last (omega arith)))
]

capacity_13 : two63 < capacity 13
unfolding capacity
capacity_13 = omega arith

format-read_digits :
    (places n : ℕ)
    → n < capacity places
    → (s : List ℕ) × ((if nat_eq n 0 then some (b'0' ∷ []) else write_digits places n []) ≡ some s)
      × (read_digits 0 s ≡ n)
unfolding read_digits
format-read_digits places n h = elim (Bool-cases (nat_eq n 0)) [
  | inl e ↦ (b'0' ∷ [], rw e refl, ground (arith, e))
  | inr e ↦ let (s, made, value) = write_digits-read_digits places n [] h in (s, rw e made, value)
]

-- A number below 2^63 is written within the 13 places, and its digits spell it again.
pub format_int36-read_digits :
    (n : ℕ) → n < two63 → (s : List ℕ) × (format_int36 n ≡ some s) × (read_digits 0 s ≡ n)
unfolding format_int36
format_int36-read_digits n h = format-read_digits 13 n (omega (arith, h, capacity_13))
