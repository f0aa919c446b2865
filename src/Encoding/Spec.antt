-- ===== src/Encoding/Spec.antt =====
-- `EncodedBlobLength` against RedStuff's formula in exact arithmetic.
use native.Mathlib.Nat.{div-le_self, mul-le-mul, lt-div-mul-add, div-lt_iff_lt-mul}
use go_ds_s3_walrus.Common.{ℕ, ◌+◌, ◌-◌, ◌*◌, ◌/◌, ◌%◌, ◌^◌, ◌≤◌, ◌<◌, ◌≡◌, arith}
use go_ds_s3_walrus.Common.Int.{
  pos, add64-pos, sub64-pos, mul64-pos, div64-pos, rem64-pos, half_word,
}
use go_ds_s3_walrus.Encoding.{encoded_length, round_up_even}

-- The counts of source symbols, from the bound on faulty shards.
abbrev pub max_faulty : ℕ → ℕ
max_faulty n = (n - 1) / 3

abbrev pub primary : ℕ → ℕ
primary n = n - max_faulty n - max_faulty n

abbrev pub secondary : ℕ → ℕ
secondary n = n - max_faulty n

-- The symbol size, rounded up to an even number.
abbrev pub even_up : ℕ → ℕ
even_up s = s + s % 2

abbrev pub symbol_size : ℕ → ℕ → ℕ
symbol_size u n = even_up ((u - 1) / (primary n * secondary n) + 1)

-- The billed size.
unfoldable pub encoded : ℕ → ℕ → ℕ
encoded u n = n * (n * 32 * 2 + 32) + (primary n + secondary n) * symbol_size u n * n

round_up_even-even_up : (s : ℕ) → s + 1 < half_word → round_up_even (pos s) ≡ pos (even_up s)
unfolding round_up_even
round_up_even-even_up s h = rw (rem64-pos s 2 (omega arith)) (ground (arith, add64-pos s 1 h))

-- Bounds within which nothing wraps: well above the 1000 shards and the 13.6 GiB of Walrus.
abbrev pub max_shards : ℕ
max_shards = 8192

abbrev pub max_blob : ℕ
max_blob = 2 ^ 34

symbol_size-le : (u n : ℕ) → 1 ≤ u → symbol_size u n ≤ u + 1
symbol_size-le u n h = omega (arith, div-le_self (u - 1) (primary n * secondary n))

module _ (u n : ℕ) (hn : 1 ≤ n) (kn : n ≤ max_shards) (hu : 1 ≤ u) (ku : u ≤ max_blob) where
  sliver-le : (primary n + secondary n) * symbol_size u n ≤ 2 * max_shards * (max_blob + 1)
  sliver-le =
      mul-le-mul {n₂ = 2 * max_shards} {m₂ = max_blob + 1} (omega arith)
        (omega (arith, symbol_size-le u n hu))

  sliver_total-le :
      (primary n + secondary n) * symbol_size u n * n ≤ 2 * max_shards * (max_blob + 1) * max_shards
  sliver_total-le = mul-le-mul sliver-le kn

  metadata-le : n * (n * 32 * 2 + 32) ≤ max_shards * (max_shards * 64 + 32)
  metadata-le = mul-le-mul {m₂ = max_shards * 64 + 32} kn (omega arith)

  symbols-le : primary n * secondary n ≤ max_shards * max_shards
  symbols-le = mul-le-mul {n₂ = max_shards} {m₂ = max_shards} (omega arith) (omega arith)

  pub encoded_length-encoded : encoded_length (pos u) (pos n) ≡ pos (encoded u n)
  unfolding encoded_length encoded
  encoded_length-encoded =
      rw
        (
          sub64-pos n 1 hn (omega arith),
          div64-pos (n - 1) 3 (omega arith),
          sub64-pos n f (omega arith) (omega arith),
          sub64-pos (n - f) f (omega arith) (omega arith),
          mul64-pos p s (omega (arith, symbols-le)),
          sub64-pos u 1 hu (omega arith),
          div64-pos (u - 1) (p * s) (omega arith),
          add64-pos d 1 (omega (arith, div-le_self (u - 1) (p * s))),
          round_up_even-even_up (d + 1) (omega (arith, div-le_self (u - 1) (p * s))),
          add64-pos p s (omega arith),
          mul64-pos (p + s) (even_up (d + 1)) (omega (arith, sliver-le)),
          mul64-pos ((p + s) * even_up (d + 1)) n (omega (arith, sliver_total-le)),
          mul64-pos n 32 (omega arith),
          mul64-pos (n * 32) 2 (omega arith),
          add64-pos (n * 32 * 2) 32 (omega arith),
          mul64-pos n (n * 32 * 2 + 32) (omega (arith, metadata-le)),
          add64-pos (n * (n * 32 * 2 + 32)) ((p + s) * even_up (d + 1) * n)
              (omega (arith, metadata-le, sliver_total-le)),
        )
        (ground arith)
    where
      f : ℕ
      f = max_faulty n

      p : ℕ
      p = primary n

      s : ℕ
      s = secondary n

      d : ℕ
      d = (u - 1) / (p * s)

-- `k` source symbols of the size hold `u` bytes, and no smaller even size does.
covers : (u k : ℕ) → 0 < k → u ≤ even_up ((u - 1) / k + 1) * k
covers u k h =
    let fits : (u - 1) / k * k + k ≤ even_up ((u - 1) / k + 1) * k = grind arith in
    omega (arith, lt-div-mul-add {a = u - 1} {b = k} h, fits)

least : (u k t : ℕ) → 0 < k → 1 ≤ u → t % 2 ≡ 0 → u ≤ t * k → even_up ((u - 1) / k + 1) ≤ t
least u k t h hu even enough =
    let few : (u - 1) / k < t = (div-lt_iff_lt-mul h).1 (omega arith) in omega arith

symbols-pos : (n : ℕ) → 1 ≤ n → 0 < primary n * secondary n
symbols-pos n h = mul-le-mul {n₁ = 1} {m₁ = 1} (omega arith) (omega arith)

-- The symbol size is the least even one at which the source symbols hold the blob.
pub record IsSymbolSize (u n size : ℕ) : Type 0 where
  pub even : size % 2 ≡ 0
  pub covering : u ≤ size * (primary n * secondary n)
  pub minimal : (t : ℕ) → t % 2 ≡ 0 → u ≤ t * (primary n * secondary n) → size ≤ t

pub symbol_size-IsSymbolSize : (u n : ℕ) → 1 ≤ n → 1 ≤ u → IsSymbolSize u n (symbol_size u n)
symbol_size-IsSymbolSize u n hn hu = record {
  even = omega arith;
  covering = covers u (primary n * secondary n) (symbols-pos n hn);
  minimal = λ t even enough. least u (primary n * secondary n) t (symbols-pos n hn) hu even enough;
}

pub symbol_size_mono : (u v n : ℕ) → 1 ≤ n → 1 ≤ u → u ≤ v → symbol_size u n ≤ symbol_size v n
symbol_size_mono u v n hn hu h =
    (symbol_size-IsSymbolSize u n hn hu).minimal (symbol_size v n) (omega arith)
      (omega (arith, (symbol_size-IsSymbolSize v n hn (omega arith)).covering))
