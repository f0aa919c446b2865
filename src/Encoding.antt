-- ===== src/Encoding.antt =====
-- encoding.go: the size that Walrus bills for a blob.
pub mod Spec
pub mod Bounds
use go_ds_s3_walrus.Common.{◌^◌, if◌then◌else◌, ◌||◌}
use go_ds_s3_walrus.Common.Int.{ℤ, pos, leb_ℤ, ltb_ℤ, eq_ℤ, add64, sub64, mul64, div64, rem64}

abbrev pub default_n_shards : ℤ
default_n_shards = pos 1000

abbrev pub storage_unit_bytes : ℤ
storage_unit_bytes = pos (2 ^ 20)

abbrev pub digest_len : ℤ
digest_len = pos 32

abbrev pub blob_id_len : ℤ
blob_id_len = pos 32

-- `symbolSize++` on an odd size.
unfoldable pub round_up_even : ℤ → ℤ
round_up_even symbol_size =
    if eq_ℤ (rem64 symbol_size (pos 2)) (pos 1) then add64 symbol_size (pos 1) else symbol_size

-- The body of `EncodedBlobLength` once `n` and `u` are settled.
unfoldable pub encoded_length : ℤ → ℤ → ℤ
encoded_length u n =
    let max_faulty = div64 (sub64 n (pos 1)) (pos 3) in
    let min_correct = sub64 n max_faulty in
    let primary_symbols = sub64 min_correct max_faulty in
    let secondary_symbols = min_correct in
    let symbol_size =
      round_up_even
        (add64 (div64 (sub64 u (pos 1)) (mul64 primary_symbols secondary_symbols)) (pos 1)) in
    let sliver_size = mul64 (mul64 (add64 primary_symbols secondary_symbols) symbol_size) n in
    let metadata = add64 (mul64 (mul64 n digest_len) (pos 2)) blob_id_len in
    if leb_ℤ primary_symbols (pos 0) || leb_ℤ secondary_symbols (pos 0)
    then pos 0
    else add64 (mul64 n metadata) sliver_size

unfoldable pub encoded_blob_length : ℤ → ℤ → ℤ
encoded_blob_length unencoded_length n_shards =
    let n = if leb_ℤ n_shards (pos 0) then default_n_shards else n_shards in
    let u = if ltb_ℤ unencoded_length (pos 1) then pos 1 else unencoded_length in encoded_length u n

unfoldable pub encoded_storage_units : ℤ → ℤ
encoded_storage_units encoded_size =
    if leb_ℤ encoded_size (pos 0)
    then pos 0
    else div64 (sub64 (add64 encoded_size storage_unit_bytes) (pos 1)) storage_unit_bytes
