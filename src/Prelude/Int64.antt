-- ===== src/Prelude/Int64.antt =====
-- Go's int64 as its bit pattern, a number below 2^64: the patterns from 2^63 up stand for the
-- negative numbers. Addition and subtraction wrap around.
use Prim.Native.Nat.{ℕ, ◌+◌, ◌-◌, ◌/◌, ◌%◌, ◌^◌, ◌≤◌, ◌<◌}
use mathlib.Core.Path.{◌≡◌, refl}
use mathlib.Core.Bool.{Bool, ◌&&◌}
use native.Mathlib.Omega.{arith}
use yzboard_node.Prelude.Tests.{ltb, leb, if◌then◌else◌}

abbrev pub two64 : ℕ
two64 = 2 ^ 64

abbrev pub two63 : ℕ
two63 = 2 ^ 63

unfoldable pub add64 : ℕ → ℕ → ℕ
add64 a b = (a + b) % two64

unfoldable pub sub64 : ℕ → ℕ → ℕ
sub64 a b = (a + two64 - b) % two64

-- `x < 0`
abbrev pub is_neg : ℕ → Bool
is_neg x = leb two63 x

-- `0 < x`
abbrev pub is_pos : ℕ → Bool
is_pos x = ltb 0 x && ltb x two63

-- `x / 10`, which Go truncates towards zero.
unfoldable pub div10 : ℕ → ℕ
div10 x = if is_neg x then (two64 - (two64 - x) / 10) % two64 else x / 10

pub add64_lt : (a b : ℕ) → add64 a b < two64
unfolding add64
add64_lt a b = omega arith

pub add64_zero : (a : ℕ) → a < two64 → add64 a 0 ≡ a
unfolding add64
add64_zero a h = omega arith

pub add64_comm : (a b : ℕ) → add64 a b ≡ add64 b a
unfolding add64
add64_comm a b = omega arith

pub add64_assoc : (a b c : ℕ) → add64 (add64 a b) c ≡ add64 a (add64 b c)
unfolding add64
add64_assoc a b c = omega arith

pub add64_exact : (a b : ℕ) → a + b < two64 → add64 a b ≡ a + b
unfolding add64
add64_exact a b h = omega arith

pub sub64_exact : (a b : ℕ) → b ≤ a → a < two64 → sub64 a b ≡ a - b
unfolding sub64
sub64_exact a b h k = omega arith

-- Two counters that are not negative differ by a word that is negative exactly when the first is less.
pub sub64_neg : (a b : ℕ) → a < two63 → b < two63 → is_neg (sub64 a b) ≡ ltb a b
unfolding sub64
sub64_neg a b h k = ground arith

pub div10_exact : (x : ℕ) → x < two63 → div10 x ≡ x / 10
unfolding div10
div10_exact x h = ground arith

div10_minus : div10 (two64 - 25) ≡ two64 - 2
unfolding div10
div10_minus = refl
