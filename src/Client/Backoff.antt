-- ===== src/Client/Backoff.antt =====
-- `backoff` of client.go: the pause before a further attempt.
use go_ds_s3_walrus.Common.{
  ℕ, ◌+◌, ◌*◌, ◌/◌, ◌%◌, ◌^◌, ◌≤◌, ◌<◌, ◌≡◌, arith, if◌then◌else◌, Option, none, some,
}
use Prim.Native.Nat.{min}
use native.Mathlib.Nat.{pow-le-pow_right, one-le-pow, mod-lt}
use go_ds_s3_walrus.Common.Int.{
  half_word, div64-pos, add64-pos, mul64-pos, ℤ, pos, pos_part, to_int64, add64, mul64, div64,
  ltb_ℤ, leb_ℤ,
}

-- At most 5 s.
capped : ℤ → ℤ
capped d = if ltb_ℤ (pos (5 * 10 ^ 9)) d then pos (5 * 10 ^ 9) else d

-- A jitter of up to a quarter, by a random number. `none` is the panic of `Int63n` on a bound that is
-- not positive.
with_jitter : ℤ → ℕ → Option ℤ
with_jitter d random =
    let bound = add64 (div64 d (pos 4)) (pos 1) in
    if leb_ℤ bound (pos 0) then none else some (add64 d (pos (random % pos_part bound)))

-- `backoff`: from 200 ms on, doubled at each attempt.
unfoldable pub backoff : ℕ → ℕ → Option ℤ
unfolding capped with_jitter
backoff attempt random =
    with_jitter (capped (mul64 (pos (200 * 10 ^ 6)) (to_int64 (2 ^ attempt)))) random

to_int64-pos : (x : ℕ) → x < half_word → to_int64 x ≡ pos x
to_int64-pos x h = ground arith

capped-pos : (x : ℕ) → capped (pos x) ≡ pos (min (5 * 10 ^ 9) x)
unfolding capped
capped-pos x = ground arith

with_jitter-pos :
    (c random : ℕ)
    → c ≤ 5 * 10 ^ 9
    → with_jitter (pos c) random ≡ some (pos (c + random % (c / 4 + 1)))
unfolding with_jitter
with_jitter-pos c random h =
    rw
      (
        div64-pos c 4 (omega arith),
        add64-pos (c / 4) 1 (omega arith),
        add64-pos c (random % (c / 4 + 1))
            (omega (arith, mod-lt random {m = c / 4 + 1} (omega arith))),
      )
      (ground arith)

-- For up to 35 retries no pause panics, and it lasts from 200 ms to 6.25 s.
pub backoff-bounds :
    (attempt random : ℕ)
    → attempt ≤ 35
    → (d : ℕ) × (backoff attempt random ≡ some (pos d)) × (200 * 10 ^ 6 ≤ d) × (d ≤ 6250 * 10 ^ 6)
unfolding backoff
backoff-bounds attempt random h = (
  c + random % (c / 4 + 1),
  rw
      (
        to_int64-pos (2 ^ attempt) (omega (arith, most)),
        mul64-pos (200 * 10 ^ 6) (2 ^ attempt) (omega (arith, most)),
        capped-pos (200 * 10 ^ 6 * 2 ^ attempt),
      )
      (with_jitter-pos c random (omega arith)),
  omega (arith, least),
  omega (arith, mod-lt random {m = c / 4 + 1} (omega arith)),
)
  where
    c : ℕ
    c = min (5 * 10 ^ 9) (200 * 10 ^ 6 * 2 ^ attempt)

    most : 2 ^ attempt ≤ 2 ^ 35
    most = pow-le-pow_right (omega arith) h

    least : 1 ≤ 2 ^ attempt
    least = one-le-pow attempt 2 (omega arith)
