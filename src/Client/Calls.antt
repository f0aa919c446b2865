-- ===== src/Client/Calls.antt =====
-- `Store`, `StoreQuilt`, `Read`, `ReadRange` and `ReadQuiltPatch` of client.go: a request to one
-- endpoint after the other, until one answers.
use go_ds_s3_walrus.Common.{ℕ, String, Bool, Option, none, some, List, [], ◌∷◌, if◌then◌else◌}
use go_ds_s3_walrus.Common.Int.{ℤ, pos, eq_ℤ, add64, sub64}
use go_ds_s3_walrus.Common.Result.{
  Error, blob_not_found, cancelled, failure, wrapped, Result, ok, err, Exec, handle, raise, pure,
}
use go_ds_s3_walrus.Index.{Bytes}
use go_ds_s3_walrus.Client.{StoreResult, QuiltPart, QuiltStoreResult}
use go_ds_s3_walrus.Client.Retry.{Response, do_with_retry}
use go_ds_s3_walrus.Client.Responses.{
  StoreResponse, QuiltStoreResponse, parse_store_response, parse_quilt_store_response,
  read_blob_response, read_range_response, slice_blob,
}

-- What a request is for, under the base URL of an endpoint. (The URL and the headers are made of it.)
pub data Request : Type 0 where
  put_blob : ℤ → Bool → Bytes → Request
  put_quilt : ℤ → Bool → String → List QuiltPart → Request
  get_blob : String → Request
  get_range : String → ℤ → ℤ → Request
  get_patch : String → Request

-- The HTTP library, the clock, the random sources, JSON and the cache, over a state that holds the
-- network and the cache.
pub record Net (N : Type 0) : Type 0 where
  pub http : String → Request → Exec N Response
  pub is_cancelled : N → Bool
  pub sleep : ℤ → Exec N (Unit {0})
  pub random : N → ℕ
  pub boundary : Exec N String
  pub decode_store : Bytes → Option StoreResponse
  pub decode_quilt : Bytes → Option QuiltStoreResponse
  pub cache_get : String → N → Option Bytes × N
  pub cache_add : String → Bytes → N → N

pub record Client : Type 0 where
  pub publishers : List String
  pub aggregators : List String
  pub max_retries : ℕ

module _ {N : Type 0} (net : Net N) (client : Client) where
  unfoldable pub request : Request → String → Exec N Response
  request req base =
      do_with_retry net.is_cancelled net.sleep net.random (net.http base req) client.max_retries

  -- The loop over the publishers: an error is remembered, and the next one tried. (The error that the
  -- loop starts from, `nil` in the source, never shows: there is an endpoint to try.)
  unfoldable pub store_any :
      {A : Type 0} → String → Request → (Response → Result A) → Error → List String → Exec N A
  store_any what req parse last [] = raise (wrapped what last)
  store_any what req parse last (base ∷ bases) =
      handle (request req base)
        (λ res. handle (λ n. (parse res, n)) pure (λ e. store_any what req parse e bases))
        (λ e. store_any what req parse e bases)

  unfoldable pub no_urls : {A : Type 0} → List String → Exec N A → Exec N A
  no_urls [] call = raise (failure "no URLs configured")
  no_urls (base ∷ bases) call = call

  unfoldable pub store : Bytes → ℤ → Bool → Exec N StoreResult
  unfolding no_urls
  store value epochs deletable = no_urls client.publishers (
      store_any "store failed on all publishers" (put_blob epochs deletable value)
        (parse_store_response net.decode_store) cancelled client.publishers)

  some_parts : List QuiltPart → Exec N QuiltStoreResult → Exec N QuiltStoreResult
  some_parts [] call = raise (failure "store-quilt called with no parts")
  some_parts (p ∷ parts) call = call

  unfoldable pub store_quilt : List QuiltPart → ℤ → Bool → Exec N QuiltStoreResult
  unfolding no_urls some_parts
  store_quilt parts epochs deletable = no_urls client.publishers (
      some_parts parts (
        handle net.boundary
          (λ boundary.
            store_any "store-quilt failed on all publishers"
              (put_quilt epochs deletable boundary parts)
              (parse_quilt_store_response net.decode_quilt) cancelled client.publishers)
          (λ e. raise (wrapped "building quilt body" e))))

  -- The loop over the aggregators: a missing blob ends it.
  unfoldable pub after_error : (Error → Exec N Bytes) → Error → Exec N Bytes
  after_error next blob_not_found = raise blob_not_found
  after_error next e = next e

  unfoldable pub read_any :
      String → Request → (Response → Exec N Bytes) → Error → List String → Exec N Bytes
  unfolding after_error
  read_any what req parse last [] = raise (wrapped what last)
  read_any what req parse last (base ∷ bases) =
      handle (request req base)
        (λ res. handle (parse res) pure (after_error (λ e. read_any what req parse e bases)))
        (λ e. read_any what req parse e bases)

  unfoldable pub read : String → Exec N Bytes
  unfolding no_urls
  read blob_id = no_urls client.aggregators (
      read_any "read failed on all aggregators" (get_blob blob_id)
        (λ res n. (read_blob_response res, n)) cancelled client.aggregators)

  unfoldable pub or_cached :
      Option Bytes × N → (Bytes → Result Bytes) → Exec N Bytes → Result Bytes × N
  or_cached (some full, n) use_it call = (use_it full, n)
  or_cached (none, n) use_it call = call n

  -- The range runs from `offset` to `offset + length - 1`.
  unfoldable pub read_range : String → ℤ → ℤ → Exec N Bytes
  unfolding no_urls or_cached
  read_range blob_id offset len =
      let asked =
        read_any "range read failed on all aggregators"
          (get_range blob_id offset (sub64 (add64 offset len) (pos 1)))
          (λ res. read_range_response net.cache_add res blob_id offset len) cancelled
          client.aggregators in
      let cached =
        λ (n : N). or_cached (net.cache_get blob_id n) (λ full. slice_blob full offset len) asked in
      if eq_ℤ len (pos 0) then pure [] else no_urls client.aggregators cached

  keep_patch : String → Result Bytes → Exec N Bytes
  keep_patch patch_id (err e) n = (err e, n)
  keep_patch patch_id (ok content) n = (ok content, net.cache_add patch_id content n)

  unfoldable pub read_quilt_patch : String → Exec N Bytes
  unfolding no_urls or_cached keep_patch
  read_quilt_patch patch_id = no_urls client.aggregators (λ n.
      or_cached (net.cache_get patch_id n) (λ content. ok content)
        (read_any "quilt patch read failed on all aggregators" (get_patch patch_id)
          (λ res. keep_patch patch_id (read_blob_response res)) cancelled client.aggregators))
