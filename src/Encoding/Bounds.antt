-- ===== src/Encoding/Bounds.antt =====
-- `EncodedBlobLength` and `EncodedStorageUnits` of encoding.go against exact arithmetic.
use Prim.Native.Nat.{max}
use native.Mathlib.Nat.{mul-le-mul, le_refl}
use go_ds_s3_walrus.Common.{ℕ, ◌+◌, ◌-◌, ◌*◌, ◌/◌, ◌^◌, ◌≤◌, ◌<◌, ◌≡◌, ◌∙◌, arith}
use go_ds_s3_walrus.Common.Int.{pos, pos_part, add64-pos, sub64-pos, div64-pos, half_word}
use go_ds_s3_walrus.Encoding.{encoded_blob_length, encoded_length, encoded_storage_units}
use go_ds_s3_walrus.Encoding.Spec.{
  primary, secondary, symbol_size, encoded, encoded_length-encoded, IsSymbolSize,
  symbol_size-IsSymbolSize, symbol_size_mono, max_shards, max_blob,
}

-- The two defaults of the function: no shard count, and an empty blob.
encoded_blob_length-encoded_length :
    (u n : ℕ) → 1 ≤ n → encoded_blob_length (pos u) (pos n) ≡ encoded_length (pos (max u 1)) (pos n)
unfolding encoded_blob_length
encoded_blob_length-encoded_length u n hn = ground arith

-- For 1 to `max_shards` shards and at most `max_blob` bytes no 64-bit operation wraps: the result is
-- `n` copies of the metadata and `n` pairs of slivers, in symbols of the least even size at which
-- the source symbols hold the blob (an empty blob counts as one byte).
pub encoded_blob_length-IsSymbolSize :
    (u n : ℕ)
    → 1 ≤ n
    → n ≤ max_shards
    → u ≤ max_blob
    → (size : ℕ) × IsSymbolSize (max u 1) n size
      × (encoded_blob_length (pos u) (pos n)
          ≡ pos (n * (n * 32 * 2 + 32) + (primary n + secondary n) * size * n))
unfolding encoded
encoded_blob_length-IsSymbolSize u n hn kn ku = (
  symbol_size (max u 1) n,
  symbol_size-IsSymbolSize (max u 1) n hn (omega arith),
  encoded_blob_length-encoded_length u n hn
      ∙ encoded_length-encoded (max u 1) n hn kn (omega arith) (omega arith),
)

-- Within those bounds a larger blob is never billed less.
pub encoded_blob_length_mono :
    (u v n : ℕ)
    → 1 ≤ n
    → n ≤ max_shards
    → u ≤ v
    → v ≤ max_blob
    → pos_part (encoded_blob_length (pos u) (pos n))
      ≤ pos_part (encoded_blob_length (pos v) (pos n))
unfolding encoded
encoded_blob_length_mono u v n hn kn h kv =
    rw
      (
        encoded_blob_length-encoded_length u n hn,
        encoded_blob_length-encoded_length v n hn,
        encoded_length-encoded (max u 1) n hn kn (omega arith) (omega arith),
        encoded_length-encoded (max v 1) n hn kn (omega arith) (omega arith),
      )
      (le_slivers (symbol_size_mono (max u 1) (max v 1) n hn (omega arith) (omega arith)))
  where
    le_slivers :
        symbol_size (max u 1) n ≤ symbol_size (max v 1) n
        → encoded (max u 1) n ≤ encoded (max v 1) n
    le_slivers k =
        let slivers : (primary n + secondary n) * symbol_size (max u 1) n * n
            ≤ (primary n + secondary n) * symbol_size (max v 1) n * n =
          mul-le-mul (mul-le-mul (le_refl (primary n + secondary n)) k) (le_refl n) in
        omega (arith, slivers)

-- The units are the least number of whole megabytes that hold a positive size; a size of zero or
-- less costs nothing.
pub encoded_storage_units_least :
    (size : ℕ)
    → size + 2 ^ 20 < half_word
    → (units : ℕ) × (encoded_storage_units (pos size) ≡ pos units)
      × (size ≤ units * 2 ^ 20)
      × ((t : ℕ) → size ≤ t * 2 ^ 20 → units ≤ t)
unfolding encoded_storage_units
encoded_storage_units_least size h =
    ((size + 2 ^ 20 - 1) / 2 ^ 20, exact, omega arith, λ t k. omega arith)
  where
    exact : encoded_storage_units (pos size) ≡ pos ((size + 2 ^ 20 - 1) / 2 ^ 20)
    exact =
        rw
          (
            add64-pos size (2 ^ 20) (omega arith),
            sub64-pos (size + 2 ^ 20) 1 (omega arith) (omega arith),
            div64-pos (size + 2 ^ 20 - 1) (2 ^ 20) (omega arith),
          )
          (ground arith)
