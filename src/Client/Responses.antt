-- ===== src/Client/Responses.antt =====
-- What client.go makes of the responses of publishers and aggregators. The decoding of JSON is a
-- parameter, and so is what the cache does with a blob.
use go_ds_s3_walrus.Common.{
  ℕ, ◌-◌, String, Bool, Option, none, some, List, [], ◌∷◌, take, drop, length, leb, ltb, ◌==◌, ◌&&◌,
  ◌||◌, str_eq, if◌then◌else◌,
}
use go_ds_s3_walrus.Common.Int.{ℤ, pos, pos_part, ltb_ℤ, eq_ℤ, add64}
use go_ds_s3_walrus.Common.Result.{blob_not_found, failure, Result, ok, err, Exec}
use go_ds_s3_walrus.Index.{Bytes}
use go_ds_s3_walrus.Client.{StoreResult, QuiltPatch, QuiltStoreResult}
use go_ds_s3_walrus.Client.Retry.{Response}

-- `storeResponse`: the fields of its two objects, each of which may be missing.
pub record NewlyCreated : Type 0 where
  pub id : String
  pub blob_id : String
  pub size : ℤ
  pub start_epoch : ℕ
  pub end_epoch : ℕ
  pub storage_size : ℤ
  pub register_from_scratch : Option ℤ
  pub cost : ℕ

pub record AlreadyCertified : Type 0 where
  pub blob_id : String
  pub end_epoch : ℕ

pub record StoreResponse : Type 0 where
  pub newly_created : Option NewlyCreated
  pub already_certified : Option AlreadyCertified

pub record StoredQuiltBlob : Type 0 where
  pub identifier : String
  pub quilt_patch_id : String

pub record QuiltStoreResponse : Type 0 where
  pub blob_store_result : StoreResponse
  pub stored_quilt_blobs : List StoredQuiltBlob

-- The reported size, or the encoded length that was charged for.
encoded_of : ℤ → Option ℤ → ℤ
encoded_of size none = size
encoded_of size (some charged) = if eq_ℤ size (pos 0) then charged else size

certified : Option AlreadyCertified → Result StoreResult
certified none = err (failure "store response missing blob ID")
certified (some a) =
    if str_eq a.blob_id ""
    then err (failure "store response missing blob ID")
    else ok (record {
      blob_id = a.blob_id;
      object_id = "";
      end_epoch = a.end_epoch;
      encoded_size = pos 0;
      cost = 0;
    })

created_or : Option NewlyCreated → Result StoreResult → Result StoreResult
unfolding encoded_of
created_or none other = other
created_or (some c) other =
    if str_eq c.blob_id ""
    then other
    else ok (record {
      blob_id = c.blob_id;
      object_id = c.id;
      end_epoch = c.end_epoch;
      encoded_size = encoded_of c.storage_size c.register_from_scratch;
      cost = c.cost;
    })

unfoldable pub result_of : StoreResponse → Result StoreResult
unfolding created_or certified
result_of sr = created_or sr.newly_created (certified sr.already_certified)

unfoldable pub is_success : ℕ → Bool
is_success code = leb 200 code && ltb code 300

unfoldable pub decoded {ℓ} : {A : Type ℓ} → (Bytes → Option A) → Result Bytes → Option A
decoded decode (ok body) = decode body
decoded decode (err e) = none

result_or : Option StoreResponse → Result StoreResult
unfolding result_of
result_or none = err (failure "decoding store response")
result_or (some sr) = result_of sr

unfoldable pub parse_store_response : (Bytes → Option StoreResponse) → Response → Result StoreResult
unfolding is_success decoded result_or
parse_store_response decode res =
    if is_success res.status
    then result_or (decoded decode res.body)
    else err (failure "publisher returned an error status")

add_patch : StoredQuiltBlob → Result (List QuiltPatch) → Result (List QuiltPatch)
add_patch sb (err e) = err e
add_patch sb (ok patches) =
    ok (record { identifier = sb.identifier; quilt_patch_id = sb.quilt_patch_id } ∷ patches)

unfoldable pub patches_of : List StoredQuiltBlob → Result (List QuiltPatch)
unfolding add_patch
patches_of [] = ok []
patches_of (sb ∷ stored) =
    let rest = add_patch sb (patches_of stored) in
    if str_eq sb.quilt_patch_id ""
    then err (failure "quilt store response missing patch ID")
    else rest

abbrev pub quilt_of : StoreResult → List QuiltPatch → QuiltStoreResult
quilt_of blob patches = record {
  quilt_id = blob.blob_id;
  object_id = blob.object_id;
  end_epoch = blob.end_epoch;
  encoded_size = blob.encoded_size;
  cost = blob.cost;
  patches = patches;
}

with_patches : StoreResult → Result (List QuiltPatch) → Result QuiltStoreResult
with_patches blob (err e) = err e
with_patches blob (ok patches) = ok (quilt_of blob patches)

unfoldable pub with_blob : List StoredQuiltBlob → Result StoreResult → Result QuiltStoreResult
unfolding with_patches patches_of
with_blob stored (err e) = err e
with_blob [] (ok blob) = err (failure "quilt store response missing stored blobs")
with_blob (sb ∷ stored) (ok blob) = with_patches blob (patches_of (sb ∷ stored))

unfoldable pub quilt_result : Option QuiltStoreResponse → Result QuiltStoreResult
unfolding with_blob result_of
quilt_result none = err (failure "decoding quilt store response")
quilt_result (some qr) = with_blob qr.stored_quilt_blobs (result_of qr.blob_store_result)

unfoldable pub parse_quilt_store_response :
    (Bytes → Option QuiltStoreResponse) → Response → Result QuiltStoreResult
unfolding is_success decoded quilt_result
parse_quilt_store_response decode res =
    if is_success res.status
    then quilt_result (decoded decode res.body)
    else err (failure "publisher returned an error status")

-- `readBlobResponse`.
unfoldable pub read_blob_response : Response → Result Bytes
unfolding is_success
read_blob_response res =
    if res.status == 404
    then err blob_not_found
    else if is_success res.status
    then res.body
    else err (failure "aggregator returned an error status")

-- `sliceBlob`: `make` panics on a negative length.
unfoldable pub slice_blob : Bytes → ℤ → ℤ → Result Bytes
slice_blob full offset len =
    let size = pos (length full) in
    let stop = if ltb_ℤ size (add64 offset len) then size else add64 offset len in
    if ltb_ℤ offset (pos 0) || ltb_ℤ size offset
    then err (failure "offset out of range")
    else if ltb_ℤ stop offset
    then err (failure "panic")
    else ok (take (pos_part stop - pos_part offset) (drop (pos_part offset) full))

module _ {C : Type 0} (add : String → Bytes → C → C) where
  partial_body : ℤ → Result Bytes → Result Bytes
  partial_body len (err e) = err e
  partial_body len (ok body) =
      if eq_ℤ (pos (length body)) len
      then ok body
      else err (failure "unexpected number of partial bytes")

  whole_body : String → ℤ → ℤ → Result Bytes → Exec C Bytes
  unfolding slice_blob
  whole_body blob_id offset len (err e) c = (err e, c)
  whole_body blob_id offset len (ok body) c = (slice_blob body offset len, add blob_id body c)

  -- `readRangeResponse`, over the state of the cache.
  unfoldable pub read_range_response : Response → String → ℤ → ℤ → Exec C Bytes
  unfolding partial_body whole_body is_success
  read_range_response res blob_id offset len c =
      if res.status == 404
      then (err blob_not_found, c)
      else if res.status == 206
      then (partial_body len res.body, c)
      else if is_success res.status
      then whole_body blob_id offset len res.body c
      else (err (failure "aggregator returned an error status"), c)
