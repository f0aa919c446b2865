-- ===== src/Tests/Encodings.antt =====
-- Sizes that Walrus bills, computed.
use Prim.Native.Nat.{max}
use go_ds_s3_walrus.Common.{ℕ, ◌+◌, ◌*◌, ◌^◌, ◌≤◌, ◌≡◌, refl, arith}
use go_ds_s3_walrus.Common.Int.{sub64, rem64, mul64, div64, add64, pos, negsuc, pos_part}
use go_ds_s3_walrus.Encoding.{
  round_up_even, encoded_length, encoded_blob_length, encoded_storage_units,
}
use go_ds_s3_walrus.Encoding.Spec.{primary, secondary, IsSymbolSize}
use go_ds_s3_walrus.Encoding.Bounds.{
  encoded_blob_length-IsSymbolSize, encoded_blob_length_mono, encoded_storage_units_least,
}

encoded_blob_length-17 : encoded_blob_length (pos 17) (pos 0) ≡ pos 66034000
unfolding encoded_blob_length encoded_length sub64 div64 add64 mul64 round_up_even rem64
encoded_blob_length-17 = refl

encoded_blob_length-empty :
    encoded_blob_length (negsuc 4) (pos 1000) ≡ encoded_blob_length (pos 1) (pos 1000)
unfolding encoded_blob_length
encoded_blob_length-empty = refl

encoded_storage_units-mib : encoded_storage_units (pos (2 ^ 20 + 1)) ≡ pos 2
unfolding encoded_storage_units div64 sub64 add64
encoded_storage_units-mib = refl

encoded_blob_length-IsSymbolSize_example :
    (size : ℕ) × IsSymbolSize (max 5000000 1) 1000 size
    × (encoded_blob_length (pos 5000000) (pos 1000)
        ≡ pos (1000 * (1000 * 32 * 2 + 32) + (primary 1000 + secondary 1000) * size * 1000))
encoded_blob_length-IsSymbolSize_example =
    encoded_blob_length-IsSymbolSize 5000000 1000 (omega arith) (omega arith) (omega arith)

encoded_blob_length_mono_example :
    pos_part (encoded_blob_length (pos 17) (pos 1000))
    ≤ pos_part (encoded_blob_length (pos 5000000) (pos 1000))
encoded_blob_length_mono_example =
    encoded_blob_length_mono 17 5000000 1000 (omega arith) (omega arith) (omega arith) (omega arith)

encoded_storage_units_least_example :
    (units : ℕ) × (encoded_storage_units (pos 66034000) ≡ pos units)
    × (66034000 ≤ units * 2 ^ 20)
    × ((t : ℕ) → 66034000 ≤ t * 2 ^ 20 → units ≤ t)
encoded_storage_units_least_example = encoded_storage_units_least 66034000 (omega arith)
