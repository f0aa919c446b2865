-- ===== src/Client/Parsing.antt =====
-- What the client promises of the responses that it accepts.
use go_ds_s3_walrus.Common.{
  ℕ, suc, ◌+◌, ◌≤◌, ◌<◌, String, true, false, ◌≡◌, ◌≢◌, refl, Option, none, some, List, [], ◌∷◌,
  take, drop, length, All, arith, str_eq, eq_iff, ◌⊎◌, inl, inr, Bool-cases, ap, ◌∙◌, sym,
  length-take, length-drop,
}
use go_ds_s3_walrus.Common.Int.{pos, half_word, add64-pos}
use go_ds_s3_walrus.Common.Result.{Result, ok, err, Result-cases}
use go_ds_s3_walrus.Index.{Bytes}
use go_ds_s3_walrus.Client.{StoreResult, QuiltPatch, QuiltStoreResult}
use go_ds_s3_walrus.Client.Retry.{Response}
use go_ds_s3_walrus.Client.Responses.{
  NewlyCreated, AlreadyCertified, result_of, with_blob, quilt_of, quilt_result, decoded,
  StoredQuiltBlob, QuiltStoreResponse, patches_of, parse_quilt_store_response, is_success,
  slice_blob, read_range_response,
}

-- The test for an empty text.
unnamed : (id : String) → str_eq id "" ≡ false → id ≢ ""
unnamed id h = λ e. absurd (cc (sym h ∙ (eq_iff id "").1 e))

pub slice_blob-slice :
    (full : Bytes) (offset len : ℕ)
    → offset + len ≤ length full
    → length full < half_word
    → slice_blob full (pos offset) (pos len) ≡ ok (take len (drop offset full))
unfolding slice_blob
slice_blob-slice full offset len h small = rw (add64-pos offset len (omega arith)) (ground arith)

-- How an aggregator may serve a byte range: with just the bytes, or, where it ignores the Range
-- header, with the whole blob.
pub record IsServed (content : Bytes) (offset len : ℕ) (res : Response) : Type 0 where
  pub served :
      ((res.status ≡ 206) × (res.body ≡ ok (take len (drop offset content))))
      ⊎ ((is_success res.status ≡ true) × (res.status ≢ 206) × (res.body ≡ ok content))

-- A range that lies within a blob shorter than 2^63 bytes reads the same in both ways.
pub read_range_response-IsServed :
    {C : Type 0} (add : String → Bytes → C → C) (content : Bytes) (offset len : ℕ) (res : Response)
    (blob_id : String) (c : C)
    → IsServed content offset len res
    → offset + len ≤ length content
    → length content < half_word
    → (read_range_response add res blob_id (pos offset) (pos len) c).0
      ≡ ok (take len (drop offset content))
unfolding read_range_response is_success
read_range_response-IsServed add content offset len res blob_id c s h small = elim s.served [
  | inl (status, body) ↦
      rw (status, body)
        (ground (arith, length-take len (drop offset content), length-drop offset content))
  | inr (fine, other, body) ↦
      rw body (ground (arith, fine, other, slice_blob-slice content offset len h small))
]

patches_of-named :
    (stored : List StoredQuiltBlob) (patches : List QuiltPatch)
    → patches_of stored ≡ ok patches
    → All (λ p. p.quilt_patch_id ≢ "") patches × (length patches ≡ length stored)
unfolding patches_of
patches_of-named [] patches h = let e : patches ≡ [] = cc h in rw e (tt, refl)
patches_of-named (sb ∷ stored) patches h = elim (Bool-cases (str_eq sb.quilt_patch_id "")) [
  | inl missing ↦ absurd (cc (rw missing at h))
  | inr named ↦ elim (Result-cases (patches_of stored)) [
    | inr (e, bad) ↦ absurd (cc (rw (named, bad) at h))
    | inl (rest, good) ↦
        let shape : patches
            ≡ (record { identifier = sb.identifier; quilt_patch_id = sb.quilt_patch_id } ∷ rest) =
          cc (rw (named, good) at h) in
        let (all, same) = patches_of-named stored rest good in
        rw shape ((unnamed sb.quilt_patch_id named, all), ap suc same)
  ]
]

blob_id_of : Result StoreResult → String
blob_id_of (ok r) = r.blob_id
blob_id_of (err e) = ""

blob_id_named :
    (r : Result StoreResult) (v : StoreResult) → r ≡ ok v → blob_id_of r ≢ "" → v.blob_id ≢ ""
unfolding blob_id_of
blob_id_named r v h n = λ e. n (ap blob_id_of h ∙ e)

held_only-named :
    (held : Option AlreadyCertified) (r : StoreResult)
    → result_of (record { newly_created = none; already_certified = held }) ≡ ok r
    → r.blob_id ≢ ""
unfolding result_of blob_id_of
held_only-named none r h = absurd (cc h)
held_only-named (some a) r h = elim (Bool-cases (str_eq a.blob_id "")) [
  | inl missing ↦ absurd (cc (rw missing at h))
  | inr named ↦ blob_id_named _ r h (rw named (unnamed a.blob_id named))
]

-- Whichever object a store response has, the blob ID that is taken from it is not empty.
result_of-named :
    (created : Option NewlyCreated) (held : Option AlreadyCertified) (r : StoreResult)
    → result_of (record { newly_created = created; already_certified = held }) ≡ ok r
    → r.blob_id ≢ ""
unfolding result_of blob_id_of
result_of-named none held r h = held_only-named held r h
result_of-named (some c) held r h = elim (Bool-cases (str_eq c.blob_id "")) [
  | inl missing ↦ held_only-named held r (rw missing at h)
  | inr named ↦ blob_id_named _ r h (rw named (unnamed c.blob_id named))
]

with_blob-named :
    (stored : List StoredQuiltBlob) (r : Result StoreResult) (q : QuiltStoreResult)
    → ((v : StoreResult) → r ≡ ok v → v.blob_id ≢ "")
    → with_blob stored r ≡ ok q
    → (q.quilt_id ≢ "") × (q.patches ≢ []) × All (λ p. p.quilt_patch_id ≢ "") q.patches
unfolding with_blob
with_blob-named stored (err e) q named h = absurd (cc h)
with_blob-named [] (ok blob) q named h = absurd (cc h)
with_blob-named (sb ∷ stored) (ok blob) q named h = elim (Result-cases (patches_of (sb ∷ stored))) [
  | inr (e, bad) ↦ absurd (cc (rw bad at h))
  | inl (patches, good) ↦
      let (all, same) = patches_of-named (sb ∷ stored) patches good in
      let shape : q ≡ quilt_of blob patches = cc (rw good at h) in
      rw shape (named blob refl, (λ e. absurd (omega (arith, same, ap length e))), all)
]

quilt_result-named :
    (o : Option QuiltStoreResponse) (q : QuiltStoreResult)
    → quilt_result o ≡ ok q
    → (q.quilt_id ≢ "") × (q.patches ≢ []) × All (λ p. p.quilt_patch_id ≢ "") q.patches
unfolding quilt_result
quilt_result-named none q h = absurd (cc h)
quilt_result-named (some qr) q h =
    with_blob-named qr.stored_quilt_blobs (result_of qr.blob_store_result) q
      (result_of-named qr.blob_store_result.newly_created qr.blob_store_result.already_certified) h

-- A quilt response is accepted only with a success status; its result has a quilt ID, at least one
-- patch, and an ID for each of them, none of which is empty.
pub parse_quilt_store_response-named :
    (decode : Bytes → Option QuiltStoreResponse) (res : Response) (q : QuiltStoreResult)
    → parse_quilt_store_response decode res ≡ ok q
    → (is_success res.status ≡ true)
      × (q.quilt_id ≢ "")
      × (q.patches ≢ [])
      × All (λ p. p.quilt_patch_id ≢ "") q.patches
unfolding parse_quilt_store_response
parse_quilt_store_response-named decode res q h = elim (Bool-cases (is_success res.status)) [
  | inr bad ↦ absurd (cc (rw bad at h))
  | inl fine ↦
      let (id, some_stored, all) = quilt_result-named (decoded decode res.body) q (rw fine at h) in
      (fine, id, some_stored, all)
]
