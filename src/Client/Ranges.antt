-- ===== src/Client/Ranges.antt =====
-- What a range read returns, whichever aggregators answer and in which way.
use go_ds_s3_walrus.Common.{
  ℕ, ◌+◌, ◌≤◌, ◌<◌, String, false, ◌≡◌, some, List, [], ◌∷◌, take, drop, length, arith, inl, inr,
  Bool-cases, Option-cases, ap, ◌∙◌, sym,
}
use go_ds_s3_walrus.Common.Int.{pos, eq_ℤ, add64, sub64, half_word}
use go_ds_s3_walrus.Common.Result.{
  Error, not_found, blob_not_found, cancelled, failure, wrapped, Exec, ok, err, Result-cases,
}
use go_ds_s3_walrus.Index.{Bytes}
use go_ds_s3_walrus.Client.Retry.{Response}
use go_ds_s3_walrus.Client.Responses.{is_success, read_range_response, slice_blob}
use go_ds_s3_walrus.Client.Parsing.{IsServed, read_range_response-IsServed, slice_blob-slice}
use go_ds_s3_walrus.Client.Calls.{
  Net, Client, Request, get_range, request, read_any, read_range, after_error, no_urls, or_cached,
}

-- An aggregator that tells the truth about a blob: it serves the range, refuses, or breaks off.
pub data IsHonest (content : Bytes) (offset len : ℕ) (res : Response) : Type 0 where
  serves : IsServed content offset len res → IsHonest content offset len res
  refuses : is_success res.status ≡ false → IsHonest content offset len res
  breaks : (e : Error) → res.body ≡ err e → IsHonest content offset len res

module _ {N : Type 0} (net : Net N) (client : Client) (blob_id : String) (content : Bytes)
    (offset len : ℕ) (fits : offset + len ≤ length content)
    (small : length content < half_word) where
  abbrev pub the_range : Request
  the_range = get_range blob_id (pos offset) (sub64 (add64 (pos offset) (pos len)) (pos 1))

  parse : Response → Exec N Bytes
  parse res = read_range_response net.cache_add res blob_id (pos offset) (pos len)

  after_error-eq-ok :
      (next : Error → Exec N Bytes) (e : Error) (n : N) (v : Bytes)
      → (after_error net client next e n).0 ≡ ok v
      → (next e n).0 ≡ ok v
  unfolding after_error
  after_error-eq-ok next blob_not_found n v h = absurd (cc h)
  after_error-eq-ok next not_found n v h = h
  after_error-eq-ok next cancelled n v h = h
  after_error-eq-ok next (failure s) n v h = h
  after_error-eq-ok next (wrapped s e) n v h = h

  no_urls-eq-ok :
      (urls : List String) (call : Exec N Bytes) (n : N) (v : Bytes)
      → (no_urls net client urls call n).0 ≡ ok v
      → (call n).0 ≡ ok v
  unfolding no_urls
  no_urls-eq-ok [] call n v h = absurd (cc h)
  no_urls-eq-ok (base ∷ bases) call n v h = h

  -- All that is accepted of an honest response is the range.
  response-slice :
      (res : Response) (n : N) (v : Bytes)
      → IsHonest content offset len res
      → (read_range_response net.cache_add res blob_id (pos offset) (pos len) n).0 ≡ ok v
      → v ≡ take len (drop offset content)
  unfolding read_range_response is_success
  response-slice res n v (serves s) h =
      let same : ok v ≡ ok (take len (drop offset content)) =
        sym h
        ∙ read_range_response-IsServed net.cache_add content offset len res blob_id n s fits
            small in
      cc same
  response-slice res n v (refuses bad) h = absurd (ground (arith, bad, h))
  response-slice res n v (breaks e bad) h = absurd (ground (arith, rw bad at h))

  read_any-slice :
      (what : String) (last : Error) (bases : List String) (n : N) (v : Bytes)
      → ((base : String) (m : N) (res : Response)
          → (request net client the_range base m).0 ≡ ok res
          → IsHonest content offset len res)
      → (read_any net client what the_range
          (λ res. read_range_response net.cache_add res blob_id (pos offset) (pos len))
          last
          bases
          n).0
        ≡ ok v
      → v ≡ take len (drop offset content)
  unfolding read_any parse
  read_any-slice what last [] n v honest h = absurd (cc h)
  read_any-slice what last (base ∷ bases) n v honest h =
      elim (Result-cases (request net client the_range base n).0) [
        | inr (e, bad) ↦
            read_any-slice what e bases (request net client the_range base n).1 v honest
              (rw bad at h)
        | inl (res, good) ↦ elim (Result-cases (parse res (n₁ base)).0) [
          | inl (u, accepted) ↦
              let same : v ≡ u = cc (rw (good, accepted) at h) in
              same ∙ response-slice res (n₁ base) u (honest base n res good) accepted
          | inr (e, bad) ↦ read_any-slice what e bases (parse res (n₁ base)).1 v honest (
              after_error-eq-ok (λ x. read_any net client what the_range parse x bases) e
                (parse res (n₁ base)).1 v (rw (good, bad) at h))
        ]
      ]
    where
      n₁ : String → N
      n₁ b = (request net client the_range b n).1

  -- Where every aggregator tells the truth about a blob and the cache holds nothing else under its ID,
  -- a range read within the blob returns the bytes of the range or an error, and no other bytes.
  pub read_range-slice :
      (n : N) (v : Bytes)
      → ((base : String) (m : N) (res : Response)
          → (request net client the_range base m).0 ≡ ok res
          → IsHonest content offset len res)
      → ((full : Bytes) → (net.cache_get blob_id n).0 ≡ some full → full ≡ content)
      → (read_range net client blob_id (pos offset) (pos len) n).0 ≡ ok v
      → v ≡ take len (drop offset content)
  unfolding read_range or_cached
  read_range-slice n v honest cached h = elim (Bool-cases (eq_ℤ (pos len) (pos 0))) [
    | inl empty ↦
        let none_asked : len ≡ 0 = ground arith in
        let none_read : v ≡ [] = cc (rw empty at h) in
        none_read ∙ ap (λ (m : ℕ). take m (drop offset content)) (sym none_asked)
    | inr some_asked ↦
        let called = no_urls-eq-ok client.aggregators _ n v (rw some_asked at h) in
        elim (Option-cases (net.cache_get blob_id n).0) [
          | inl missed ↦
              read_any-slice _ _ client.aggregators (net.cache_get blob_id n).1 v honest
                (rw missed at called)
          | inr (full, hit) ↦
              let sliced = rw hit at called in
              let same : ok v ≡ ok (take len (drop offset content)) =
                sym sliced
                ∙ ap (λ f. slice_blob f (pos offset) (pos len)) (cached full hit)
                ∙ slice_blob-slice content offset len fits small in
              cc same
        ]
  ]
