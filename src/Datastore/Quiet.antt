-- ===== src/Datastore/Quiet.antt =====
-- `uploadPack` of walrus.go calls Walrus, and not the database.
use go_ds_s3_walrus.Common.{List, [], ◌∷◌, length, ◌≡◌, refl, inl, inr, if_both, ◌==◌}
use go_ds_s3_walrus.Common.Result.{Result-cases, Exec}
use go_ds_s3_walrus.Index.{KeyRecord}
use go_ds_s3_walrus.Client.{WalrusClient, QuiltStoreResult}
use go_ds_s3_walrus.Datastore.{Config, World, BlockEntry}
use go_ds_s3_walrus.Datastore.Upload.{
  upload_pack, upload_single_block, upload_quilt_pack, upload_concat_pack, concat_blocks,
  parts_from,
}
use go_ds_s3_walrus.Datastore.Uploads.{quilt_records-state}

module _ {N : Type 0} (client : WalrusClient N) (conf : Config) where
  abbrev Spared : World N → Exec (World N) (List KeyRecord) → Type 0
  Spared w m = (m w).1.pg ≡ w.pg

  single-pg : (e : BlockEntry) (w : World N) → Spared w (upload_single_block client conf e)
  unfolding upload_single_block
  single-pg e w = elim (Result-cases (client.store e.val conf.epochs conf.deletable w.net).0) [
    | inl (res, good) ↦ rw good refl
    | inr (x, bad) ↦ rw bad refl
  ]

  concat-pg :
      (pack : List BlockEntry) (w : World N) → Spared w (upload_concat_pack client conf pack)
  unfolding upload_concat_pack
  concat-pg pack w =
      elim (Result-cases (client.store (concat_blocks pack) conf.epochs conf.deletable w.net).0) [
        | inl (res, good) ↦ rw good refl
        | inr (x, bad) ↦ rw bad refl
      ]

  quilt-pg : (pack : List BlockEntry) (w : World N) → Spared w (upload_quilt_pack client conf pack)
  unfolding upload_quilt_pack
  quilt-pg pack w =
      elim (Result-cases
        (client.store_quilt (parts_from 0 pack) conf.epochs conf.deletable w.net).0) [
          | inr (x, bad) ↦ rw bad refl
          | inl (res, good) ↦ rw good (
              if_both (λ (m : Exec (World N) (List KeyRecord)). (m (after res)).1.pg ≡ w.pg)
                (length res.patches == length pack) (rw quilt_records-state refl) refl)
        ]
    where
      after : QuiltStoreResult → World N
      after res = record w {
        net = (client.store_quilt (parts_from 0 pack) conf.epochs conf.deletable w.net).1;
      }

  -- Whatever Walrus answers, an upload leaves the database.
  pub upload_pack-pg :
      (pack : List BlockEntry) (w : World N) → Spared w (upload_pack client conf pack)
  unfolding upload_pack
  upload_pack-pg [] w = refl
  upload_pack-pg (e ∷ []) w = single-pg e w
  upload_pack-pg (e ∷ f ∷ pack) w =
      if_both (Spared w) conf.disable_quilt (concat-pg (e ∷ f ∷ pack) w) (quilt-pg (e ∷ f ∷ pack) w)
