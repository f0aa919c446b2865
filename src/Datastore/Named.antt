-- ===== src/Datastore/Named.antt =====
-- `uploadPack` of walrus.go: the keys of the records that it returns.
use go_ds_s3_walrus.Common.{
  ℕ, String, true, ◌≡◌, refl, none, List, [], ◌∷◌, map, length, contains, arith, inl, inr,
  Bool-cases, All, if_both, str_eq, eq_iff, ◌==◌,
}
use go_ds_s3_walrus.Common.Int.{ℤ, pos}
use go_ds_s3_walrus.Common.Result.{ok, Exec, Result-cases}
use go_ds_s3_walrus.Index.{KeyRecord}
use go_ds_s3_walrus.Index.Write.{keys_of}
use go_ds_s3_walrus.Client.{QuiltPatch, QuiltStoreResult, WalrusClient}
use go_ds_s3_walrus.Datastore.{Config, World, BlockEntry}
use go_ds_s3_walrus.Datastore.Upload.{
  upload_pack, upload_single_block, upload_quilt_pack, upload_concat_pack, single_record,
  quilt_record, quilt_records, concat_record, concat_records, concat_blocks, parts_from,
  encoded_size, total_size,
}
use go_ds_s3_walrus.Datastore.Located.{quilt_records-cons}
use go_ds_s3_walrus.Datastore.Identified.{block_by_id-All}

abbrev pub block_keys : List BlockEntry → List String
block_keys = map (λ e. e.key)

-- A record of the list has a key of the pack.
abbrev pub Meets : List BlockEntry → List KeyRecord → Type 0
Meets pack recs =
    (k : String) × (contains (keys_of recs) k ≡ true) × (contains (block_keys pack) k ≡ true)

own_keys :
    (whole pack : List BlockEntry)
    → ((k : String) → contains (block_keys pack) k ≡ true → contains (block_keys whole) k ≡ true)
    → All (λ (e : BlockEntry). contains (block_keys whole) e.key ≡ true) pack
own_keys whole [] sub = tt
own_keys whole (e ∷ pack) sub = (
  sub e.key (ground (arith, eq_iff e.key e.key)),
  own_keys whole pack (λ k h. sub k (ground (arith, h))),
)

head-Meets :
    (e : BlockEntry) (pack : List BlockEntry) (kr : KeyRecord) (recs : List KeyRecord)
    → kr.key ≡ e.key
    → Meets (e ∷ pack) (kr ∷ recs)
head-Meets e pack kr recs same =
    let here : str_eq e.key e.key ≡ true = (eq_iff e.key e.key).1 refl in
    (e.key, rw (same, here) refl, rw here refl)

module _ {N : Type 0} (client : WalrusClient N) (conf : Config) where
  quilt-Meets :
      (now : ℕ) (encoded : ℤ) (res : QuiltStoreResult) (pack : List BlockEntry) (p : QuiltPatch)
      (patches : List QuiltPatch) (w : World N) (recs : List KeyRecord)
      → (quilt_records conf now encoded res pack (p ∷ patches) w).0 ≡ ok recs
      → Meets pack recs
  quilt-Meets now encoded res pack p patches w recs h =
      let (e, rest, found, _, shape) =
        quilt_records-cons client (λ _. none) conf now encoded res pack p patches w recs h in
      let mine =
        block_by_id-All (λ f. contains (block_keys pack) f.key ≡ true) 0 pack p.identifier e
          (own_keys pack pack (λ k c. c)) found in
      let same : str_eq e.key e.key ≡ true = (eq_iff e.key e.key).1 refl in
      (e.key, rw shape (unfold quilt_record in rw same refl), mine)

  single-Meets :
      (e : BlockEntry) (w : World N) (recs : List KeyRecord)
      → (upload_single_block client conf e w).0 ≡ ok recs
      → Meets (e ∷ []) recs
  unfolding upload_single_block single_record
  single-Meets e w recs h =
      elim (Result-cases (client.store e.val conf.epochs conf.deletable w.net).0) [
        | inr (x, bad) ↦ absurd (cc (rw bad at h))
        | inl (res, good) ↦
            let shape : recs ≡ single_record conf w.clock e res ∷ [] = cc (rw good at h) in
            rw shape (head-Meets e [] (single_record conf w.clock e res) [] refl)
      ]

  concat-Meets :
      (e : BlockEntry) (pack : List BlockEntry) (w : World N) (recs : List KeyRecord)
      → (upload_concat_pack client conf (e ∷ pack) w).0 ≡ ok recs
      → Meets (e ∷ pack) recs
  unfolding upload_concat_pack concat_records concat_record
  concat-Meets e pack w recs h =
      elim (Result-cases
        (client.store (concat_blocks (e ∷ pack)) conf.epochs conf.deletable w.net).0) [
          | inr (x, bad) ↦ absurd (cc (rw bad at h))
          | inl (res, good) ↦
              let encoded = encoded_size conf res.encoded_size (total_size (e ∷ pack)) in
              let shape : recs ≡ concat_records conf w.clock encoded res (pos 0) (e ∷ pack) =
                cc (rw good at h) in
              rw shape (head-Meets e pack (concat_record conf w.clock encoded res (pos 0) e) _ refl)
        ]

  quilted-Meets :
      (e : BlockEntry) (pack : List BlockEntry) (w : World N) (recs : List KeyRecord)
      → (upload_quilt_pack client conf (e ∷ pack) w).0 ≡ ok recs
      → Meets (e ∷ pack) recs
  unfolding upload_quilt_pack
  quilted-Meets e pack w recs h =
      elim (Result-cases
        (client.store_quilt (parts_from 0 (e ∷ pack)) conf.epochs conf.deletable w.net).0) [
          | inr (x, bad) ↦ absurd (cc (rw bad at h))
          | inl (res, good) ↦ elim (Bool-cases (length res.patches == length (e ∷ pack))) [
            | inr other ↦ absurd (cc (rw (good, other) at h))
            | inl same ↦ members res res.patches same (rw (good, same) at h)
          ]
        ]
    where
      members :
          (res : QuiltStoreResult) (patches : List QuiltPatch)
          → (length patches == length (e ∷ pack)) ≡ true
          → (quilt_records conf w.clock
              (encoded_size conf res.encoded_size (total_size (e ∷ pack)))
              res
              (e ∷ pack)
              patches
              (record w {
                net =
                    (client.store_quilt
                      (parts_from 0 (e ∷ pack))
                      conf.epochs
                      conf.deletable
                      w.net).1;
              })).0
            ≡ ok recs
          → Meets (e ∷ pack) recs
      members res [] same k = absurd (ground (arith, same))
      members res (p ∷ patches) same k =
          quilt-Meets w.clock (encoded_size conf res.encoded_size (total_size (e ∷ pack))) res
            (e ∷ pack) p patches _ recs k

  pub upload_pack-Meets :
      (e : BlockEntry) (pack : List BlockEntry) (w : World N) (recs : List KeyRecord)
      → (upload_pack client conf (e ∷ pack) w).0 ≡ ok recs
      → Meets (e ∷ pack) recs
  unfolding upload_pack
  upload_pack-Meets e [] w recs = single-Meets e w recs
  upload_pack-Meets e (f ∷ pack) w recs =
      if_both
        (λ (m : Exec (World N) (List KeyRecord)). (m w).0 ≡ ok recs → Meets (e ∷ f ∷ pack) recs)
        conf.disable_quilt (concat-Meets e (f ∷ pack) w recs) (quilted-Meets e (f ∷ pack) w recs)
