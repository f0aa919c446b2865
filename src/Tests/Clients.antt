-- ===== src/Tests/Clients.antt =====
-- Requests and responses of the client.
use go_ds_s3_walrus.Common.{
  sym, ◌∙◌, String, drop, take, ℕ, ◌+◌, ◌*◌, ◌^◌, ◌≤◌, false, true, ◌≡◌, ◌≢◌, refl, none, some, [],
  ◌∷◌, arith, All, ltb, if◌then◌else◌, inr,
}
use go_ds_s3_walrus.Common.Int.{mul64, div64, add64, ℤ, pos}
use go_ds_s3_walrus.Common.Result.{ok, Exec}
use go_ds_s3_walrus.Client.{QuiltStoreResult}
use go_ds_s3_walrus.Client.Backoff.{backoff, backoff-bounds}
use go_ds_s3_walrus.Client.Retry.{
  retry_from, Response, do_with_retry, do_with_retry-final, is_retryable_status,
}
use go_ds_s3_walrus.Client.Responses.{
  QuiltStoreResponse, parse_quilt_store_response, is_success, read_range_response,
}
use go_ds_s3_walrus.Index.{Bytes}
use go_ds_s3_walrus.Client.Calls.{read_any, Net, Client, request, read_range}
use go_ds_s3_walrus.Client.Ranges.{IsHonest, serves, the_range, read_range-slice}
use go_ds_s3_walrus.Client.Parsing.{
  IsServed, read_range_response-IsServed, parse_quilt_store_response-named,
}

-- A server that is busy twice; its state counts the requests.
abbrev busy_twice : Exec ℕ Response
busy_twice n = (ok (record { status = if ltb n 2 then 503 else 200; body = ok (1 ∷ []) }), n + 1)

abbrev pause : ℤ → Exec ℕ (Unit {0})
pause d n = (ok tt, n)

third_answer :
    (do_with_retry (λ _. false) pause (λ n. n) busy_twice 3 0)
    ≡ (ok (record { status = 200; body = ok (1 ∷ []) }), 3)
unfolding do_with_retry retry_from is_retryable_status backoff add64 div64 mul64
third_answer = refl

do_with_retry-final_example :
    ((do_with_retry (λ _. false) pause (λ n. n) busy_twice 3 0).1 ≤ 0 + 3 + 1)
    × ((res : Response)
        → (do_with_retry (λ _. false) pause (λ n. n) busy_twice 3 0).0 ≡ ok res
        → is_retryable_status res.status ≡ false)
do_with_retry-final_example =
    do_with_retry-final (λ _. false) pause (λ n. n) busy_twice (λ n. n) (λ n. omega arith)
      (λ d n. refl) 3 0

backoff-bounds_example :
    (d : ℕ) × (backoff 3 12345 ≡ some (pos d)) × (200 * 10 ^ 6 ≤ d) × (d ≤ 6250 * 10 ^ 6)
backoff-bounds_example = backoff-bounds 3 12345 (omega arith)

-- An aggregator that ignores the Range header.
abbrev whole_blob : Response
whole_blob = record { status = 200; body = ok (1 ∷ 2 ∷ 3 ∷ []) }

whole_blob-IsServed : IsServed (1 ∷ 2 ∷ 3 ∷ []) 1 2 whole_blob
unfolding is_success
whole_blob-IsServed = record { served = inr (refl, (λ e. absurd (omega (arith, e))), refl) }

read_range_response-IsServed_example :
    (read_range_response (λ _ _ c. c) whole_blob "blob" (pos 1) (pos 2) tt).0 ≡ ok (2 ∷ 3 ∷ [])
read_range_response-IsServed_example =
    read_range_response-IsServed {C = Unit {0}} (λ _ _ c. c) (1 ∷ 2 ∷ 3 ∷ []) 1 2 whole_blob "blob"
      tt whole_blob-IsServed (omega arith) (omega arith)

abbrev one_patch : QuiltStoreResponse
one_patch = record {
  blob_store_result = record {
    newly_created = some (record {
      id = "object";
      blob_id = "quilt";
      size = pos 9;
      start_epoch = 1;
      end_epoch = 7;
      storage_size = pos 0;
      register_from_scratch = some (pos 66034000);
      cost = 5;
    });
    already_certified = none;
  };
  stored_quilt_blobs = record { identifier = "0"; quilt_patch_id = "patch" } ∷ [];
}

abbrev one_patch_result : QuiltStoreResult
one_patch_result = record {
  quilt_id = "quilt";
  object_id = "object";
  end_epoch = 7;
  encoded_size = pos 66034000;
  cost = 5;
  patches = record { identifier = "0"; quilt_patch_id = "patch" } ∷ [];
}

one_patch_parsed : parse_quilt_store_response (λ _. some one_patch) whole_blob ≡ ok one_patch_result
unfolding parse_quilt_store_response
one_patch_parsed = refl

parse_quilt_store_response-named_example :
    (is_success 200 ≡ true)
    × (one_patch_result.quilt_id ≢ "")
    × (one_patch_result.patches ≢ [])
    × All (λ p. p.quilt_patch_id ≢ "") one_patch_result.patches
parse_quilt_store_response-named_example =
    parse_quilt_store_response-named (λ _. some one_patch) whole_blob one_patch_result
      one_patch_parsed

-- Aggregators that all ignore the Range header, behind an empty cache.
abbrev plain_net : Net (Unit {0})
plain_net = record {
  http = λ base req n. (ok whole_blob, n);
  is_cancelled = λ n. false;
  sleep = λ d n. (ok tt, n);
  random = λ n. 0;
  boundary = λ n. (ok "boundary", n);
  decode_store = λ body. none;
  decode_quilt = λ body. none;
  cache_get = λ key n. (none, n);
  cache_add = λ key content n. n;
}

abbrev two_aggregators : Client
two_aggregators = record {
  publishers = [];
  aggregators = "https://a" ∷ "https://b" ∷ [];
  max_retries = 3;
}

abbrev three_bytes : Bytes
three_bytes = 1 ∷ 2 ∷ 3 ∷ []

abbrev two_bytes : Bytes
two_bytes = 2 ∷ 3 ∷ []

asked :
    (base : String) (m : Unit {0})
    → (request plain_net two_aggregators
        (the_range plain_net two_aggregators "blob" three_bytes 1 2 (omega arith) (omega arith))
        base
        m).0
      ≡ ok whole_blob
unfolding request do_with_retry retry_from is_retryable_status
asked base m = refl

plain_net-IsHonest :
    (base : String) (m : Unit {0}) (res : Response)
    → (request plain_net two_aggregators
        (the_range plain_net two_aggregators "blob" three_bytes 1 2 (omega arith) (omega arith))
        base
        m).0
      ≡ ok res
    → IsHonest three_bytes 1 2 res
plain_net-IsHonest base m res h =
    let same : ok res ≡ ok whole_blob = sym h ∙ asked base m in
    let found : res ≡ whole_blob = cc same in rw found (serves whole_blob-IsServed)

range_read : (read_range plain_net two_aggregators "blob" (pos 1) (pos 2) tt).0 ≡ ok two_bytes
unfolding read_range read_any request do_with_retry retry_from is_retryable_status
    read_range_response add64
range_read = refl

read_range-slice_example : two_bytes ≡ take 2 (drop 1 three_bytes)
read_range-slice_example =
    read_range-slice plain_net two_aggregators "blob" three_bytes 1 2 (omega arith) (omega arith) tt
      two_bytes plain_net-IsHonest (λ full h. absurd (cc h)) range_read
