-- ===== src/Common/Int.antt =====
-- Signed integers over the native numbers, and the 64-bit arithmetic of Go on them.
use Prim.Native.Nat.{ℕ, suc, ◌+◌, ◌-◌, ◌*◌, ◌/◌, ◌%◌, ◌^◌, ◌≤◌, ◌<◌}
use mathlib.Core.Path.{◌≡◌, ap}
use mathlib.Core.Bool.{Bool}
use native.Mathlib.Nat.{zero-div, div-zero, div-le_self, div-mul-le_self, div-add-mod'}
use native.Mathlib.Omega.{arith}
use go_ds_s3_walrus.Common.Tests.{ltb, leb, ◌==◌, if◌then◌else◌}

-- `negsuc n` is -(n + 1).
pub data ℤ : Type 0 where
  pos : ℕ → ℤ
  negsuc : ℕ → ℤ

abbrev pub pos_part : ℤ → ℕ
pos_part (pos n) = n
pos_part (negsuc n) = 0

abbrev pub neg_part : ℤ → ℕ
neg_part (pos n) = 0
neg_part (negsuc n) = suc n

-- a - b, as an integer.
abbrev pub sub_ℕ : ℕ → ℕ → ℤ
sub_ℕ a b = if leb b a then pos (a - b) else negsuc (b - a - 1)

-- The order tests of Go on signed integers.
abbrev pub ltb_ℤ : ℤ → ℤ → Bool
ltb_ℤ a b = ltb (pos_part a + neg_part b) (pos_part b + neg_part a)

abbrev pub leb_ℤ : ℤ → ℤ → Bool
leb_ℤ a b = leb (pos_part a + neg_part b) (pos_part b + neg_part a)

abbrev pub word : ℕ
word = 2 ^ 64

abbrev pub half_word : ℕ
half_word = 2 ^ 63

-- The bits of an integer modulo 2^64, and the integer that 64 bits stand for: Go's `uint64(x)` of
-- an `int64` and `int64(x)` of a `uint64`.
abbrev pub to_uint64 : ℤ → ℕ
to_uint64 (pos n) = n % word
to_uint64 (negsuc n) = word - 1 - n % word

abbrev pub to_int64 : ℕ → ℤ
to_int64 n = if ltb (n % word) half_word then pos (n % word) else negsuc (word - 1 - n % word)

-- `a - b` wrapped to 64 bits.
abbrev pub wrap64 : ℕ → ℕ → ℤ
wrap64 a b = to_int64 (to_uint64 (sub_ℕ a b))

abbrev pub eq_ℤ : ℤ → ℤ → Bool
eq_ℤ a b = (pos_part a + neg_part b) == (pos_part b + neg_part a)

-- The operations of Go's `int64`, with wrap-around.
unfoldable pub add64 : ℤ → ℤ → ℤ
add64 a b = wrap64 (pos_part a + pos_part b) (neg_part a + neg_part b)

unfoldable pub sub64 : ℤ → ℤ → ℤ
sub64 a b = wrap64 (pos_part a + neg_part b) (neg_part a + pos_part b)

unfoldable pub mul64 : ℤ → ℤ → ℤ
mul64 a b =
    wrap64 (pos_part a * pos_part b + neg_part a * neg_part b)
      (pos_part a * neg_part b + neg_part a * pos_part b)

-- Division truncates towards zero, and the remainder has the sign of the dividend. (One of the two
-- parts of each operand is zero.)
unfoldable pub div64 : ℤ → ℤ → ℤ
div64 a b =
    wrap64 (pos_part a / pos_part b + neg_part a / neg_part b)
      (pos_part a / neg_part b + neg_part a / pos_part b)

unfoldable pub rem64 : ℤ → ℤ → ℤ
unfolding sub64 mul64 div64
rem64 a b = sub64 a (mul64 (div64 a b) b)

-- Within range the operations are exact.
pub add64-pos : (a b : ℕ) → a + b < half_word → add64 (pos a) (pos b) ≡ pos (a + b)
unfolding add64
add64-pos a b h = ground arith

pub sub64-pos : (a b : ℕ) → b ≤ a → a < half_word → sub64 (pos a) (pos b) ≡ pos (a - b)
unfolding sub64
sub64-pos a b h k = ground arith

pub mul64-pos : (a b : ℕ) → a * b < half_word → mul64 (pos a) (pos b) ≡ pos (a * b)
unfolding mul64
mul64-pos a b h = ground arith

pub div64-pos : (a b : ℕ) → a < half_word → div64 (pos a) (pos b) ≡ pos (a / b)
unfolding div64
div64-pos a b h = ground (arith, zero-div b, div-zero a, div-le_self a b)

pub rem64-pos : (a b : ℕ) → a < half_word → rem64 (pos a) (pos b) ≡ pos (a % b)
unfolding rem64
rem64-pos a b h = rw (div64-pos a b h) (
    rw (mul64-pos (a / b) b (omega (arith, div-mul-le_self a b))) (
      rw (sub64-pos a (a / b * b) (div-mul-le_self a b) h)
        (ap pos (omega (arith, div-add-mod' a b)))))

-- `int64` of a `uint64` loses nothing: the way back gives the number again.
pub to_uint64-to_int64 : (n : ℕ) → n < word → to_uint64 (to_int64 n) ≡ n
to_uint64-to_int64 n h = ground arith
