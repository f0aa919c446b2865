-- ===== src/Datastore/Drain/Uploaded.antt =====
-- `uploadPack` of walrus.go where Walrus accepts what it is given: the upload succeeds, and its records have the keys of
-- the pack.
use mathlib.Core.List.Permᴰ
use mathlib.Core.List.{Permᴰ}
use go_ds_s3_walrus.Common.{
  ℕ, String, true, ◌≡◌, refl, ap, sym, ◌∙◌, List, [], ◌∷◌, map, length, contains, arith, eq_iff,
  if_both, ◌==◌,
}
use go_ds_s3_walrus.Common.Int.{ℤ, pos, add64}
use go_ds_s3_walrus.Common.Result.{ok, Exec}
use go_ds_s3_walrus.Index.{KeyRecord}
use go_ds_s3_walrus.Index.Rearranged.{contains-Perm, map-Perm, length-Perm}
use go_ds_s3_walrus.Index.Write.{keys_of}
use go_ds_s3_walrus.Client.{StoreResult, QuiltPatch, QuiltStoreResult, WalrusClient}
use go_ds_s3_walrus.Datastore.{Config, World, BlockEntry}
use go_ds_s3_walrus.Datastore.Upload.{
  upload_pack, upload_single_block, upload_quilt_pack, upload_concat_pack, quilt_records,
  concat_records, concat_record, concat_blocks, size_of, parts_from, encoded_size, total_size,
  single_record, quilt_record,
}
use go_ds_s3_walrus.Datastore.Named.{block_keys}
use go_ds_s3_walrus.Datastore.Drain.Parts.{
  part_ids, patch_ids, Accepts, parts_from-distinct, length-ids, length-parts, key_of, found,
  map-key_of,
}

concat_records-keys :
    (conf : Config) (now : ℕ) (encoded : ℤ) (res : StoreResult) (offset : ℤ)
    (pack : List BlockEntry)
    → keys_of (concat_records conf now encoded res offset pack) ≡ block_keys pack
unfolding concat_records concat_record
concat_records-keys conf now encoded res offset [] = refl
concat_records-keys conf now encoded res offset (e ∷ pack) =
    ap (λ ks. e.key ∷ ks)
      (concat_records-keys conf now encoded res (add64 offset (size_of e.val)) pack)

module _ {N : Type 0} (conf : Config) where
  quilt_records-keys :
      (now : ℕ) (encoded : ℤ) (res : QuiltStoreResult) (pack : List BlockEntry)
      (patches : List QuiltPatch) (w : World N)
      → ((id : String)
          → contains (patch_ids patches) id ≡ true
          → contains (part_ids (parts_from 0 pack)) id ≡ true)
      → (recs : List KeyRecord) × (quilt_records conf now encoded res pack patches w ≡ (ok recs, w))
        × (keys_of recs ≡ map (key_of 0 pack) (patch_ids patches))
  unfolding quilt_records quilt_record
  quilt_records-keys now encoded res pack [] w known = ([], refl, refl)
  quilt_records-keys now encoded res pack (p ∷ patches) w known =
      let (e, this) =
        found 0 pack p.identifier
          (known p.identifier (ground (arith, eq_iff p.identifier p.identifier))) in
      let (recs, run, keys) =
        quilt_records-keys now encoded res pack patches w (λ id h. known id (ground (arith, h))) in
      (quilt_record conf now encoded res p e ∷ recs, rw (this, run) refl, rw (this, keys) refl)

  module _ (client : WalrusClient N) (accepts : Accepts client) where
    -- The upload succeeded, with a record for every key of the pack, and left the database and
    -- the clock.
    abbrev pub IsUploaded : List BlockEntry → World N → Exec (World N) (List KeyRecord) → Type 0
    IsUploaded pack w m =
        (recs : List KeyRecord) × ((m w).0 ≡ ok recs)
        × ((m w).1.pg ≡ w.pg)
        × ((m w).1.clock ≡ w.clock)
        × Permᴰ (keys_of recs) (block_keys pack)

    single-IsUploaded :
        (e : BlockEntry) (w : World N) → IsUploaded (e ∷ []) w (upload_single_block client conf e)
    unfolding upload_single_block single_record
    single-IsUploaded e w =
        let (res, good) = accepts.stored e.val conf.epochs conf.deletable w.net in
        (
          single_record conf w.clock e res ∷ [],
          rw good refl,
          rw good refl,
          rw good refl,
          Permᴰ.refl _,
        )

    concat-IsUploaded :
        (pack : List BlockEntry) (w : World N)
        → IsUploaded pack w (upload_concat_pack client conf pack)
    unfolding upload_concat_pack
    concat-IsUploaded pack w =
        let (res, good) = accepts.stored (concat_blocks pack) conf.epochs conf.deletable w.net in
        let encoded = encoded_size conf res.encoded_size (total_size pack) in
        (
          concat_records conf w.clock encoded res (pos 0) pack,
          rw good refl,
          rw good refl,
          rw good refl,
          rw (concat_records-keys conf w.clock encoded res (pos 0) pack) (Permᴰ.refl _),
        )

    quilt-IsUploaded :
        (pack : List BlockEntry) (w : World N)
        → IsUploaded pack w (upload_quilt_pack client conf pack)
    unfolding upload_quilt_pack
    quilt-IsUploaded pack w =
        let (res, good, perm) =
          accepts.quilted (parts_from 0 pack) conf.epochs conf.deletable w.net
            (parts_from-distinct 0 pack) in
        let counted : (length res.patches == length pack) ≡ true =
          ground (arith, length-ids res.patches, length-parts 0 pack, length-Perm perm) in
        let (recs, run, keys) =
          quilt_records-keys w.clock (encoded_size conf res.encoded_size (total_size pack)) res pack
            res.patches
            (record w {
              net = (client.store_quilt (parts_from 0 pack) conf.epochs conf.deletable w.net).1;
            })
            (λ id h. sym (contains-Perm id perm) ∙ h) in
        (
          recs,
          rw (good, counted, run) refl,
          rw (good, counted, run) refl,
          rw (good, counted, run) refl,
          rw (keys, ← map-key_of 0 pack) (map-Perm (key_of 0 pack) perm),
        )

    pub upload_pack-IsUploaded :
        (e : BlockEntry) (pack : List BlockEntry) (w : World N)
        → IsUploaded (e ∷ pack) w (upload_pack client conf (e ∷ pack))
    unfolding upload_pack
    upload_pack-IsUploaded e [] w = single-IsUploaded e w
    upload_pack-IsUploaded e (f ∷ pack) w =
        if_both (IsUploaded (e ∷ f ∷ pack) w) conf.disable_quilt
          (concat-IsUploaded (e ∷ f ∷ pack) w) (quilt-IsUploaded (e ∷ f ∷ pack) w)
