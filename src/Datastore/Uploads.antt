-- ===== src/Datastore/Uploads.antt =====
-- `uploadPack` of walrus.go as a whole: what it leaves alone, and what its records read.
use go_ds_s3_walrus.Common.{
  ℕ, ◌<◌, String, ◌≡◌, refl, ap, ◌∙◌, Option, List, [], ◌∷◌, length, All, arith, inl, inr,
  Bool-cases, Option-cases, if_both, ◌==◌,
}
use go_ds_s3_walrus.Common.Int.{ℤ, pos, half_word}
use go_ds_s3_walrus.Common.Result.{ok, Exec, Result-cases}
use go_ds_s3_walrus.Index.{Bytes, Record, KeyRecord}
use go_ds_s3_walrus.Client.{StoreResult, QuiltPart, QuiltPatch, QuiltStoreResult, WalrusClient}
use go_ds_s3_walrus.Datastore.{Config, World, BlockEntry}
use go_ds_s3_walrus.Datastore.Store.{read_record}
use go_ds_s3_walrus.Datastore.Upload.{
  upload_pack, upload_single_block, upload_quilt_pack, upload_concat_pack, single_record,
  quilt_records, concat_records, concat_blocks, parts_from, block_by_id, encoded_size, total_size,
}
use go_ds_s3_walrus.Datastore.Walrus.{IsWalrus}
use go_ds_s3_walrus.Datastore.Located.{
  range_record-Reads, concat_records-Reads, quilt_records-Reads,
}
use go_ds_s3_walrus.Datastore.Identified.{Reads, Holds, take-length}

pub quilt_records-state :
    {N : Type 0} (conf : Config) (now : ℕ) (encoded : ℤ) (res : QuiltStoreResult)
    (pack : List BlockEntry) (patches : List QuiltPatch) (w : World N)
    → (quilt_records conf now encoded res pack patches w).1 ≡ w
unfolding quilt_records
quilt_records-state conf now encoded res pack [] w = refl
quilt_records-state conf now encoded res pack (p ∷ patches) w =
    elim (Option-cases (block_by_id 0 pack p.identifier)) [
      | inl unknown ↦ rw unknown
      | inr (e, found) ↦
          rw found (elim (Result-cases (quilt_records conf now encoded res pack patches w).0) [
            | inl (rs, good) ↦ rw good (quilt_records-state conf now encoded res pack patches w)
            | inr (x, bad) ↦ rw bad (quilt_records-state conf now encoded res pack patches w)
          ])
    ]

module _ {N : Type 0} (client : WalrusClient N) (walrus : IsWalrus client) (conf : Config) where
  -- What an upload leaves alone.
  pub record IsQuiet (w w' : World N) : Type 0 where
    pub pg : w'.pg ≡ w.pg
    pub reads :
        (rec : Record) (b : Bytes)
        → (read_record client rec w.net).0 ≡ ok b
        → (read_record client rec w'.net).0 ≡ ok b

  stored-IsQuiet :
      (v : Bytes) (w : World N)
      → IsQuiet w (record w { net = (client.store v conf.epochs conf.deletable w.net).1 })
  stored-IsQuiet v w = record {
    pg = refl;
    reads = λ rec b. walrus.store_keeps v conf.epochs conf.deletable w.net rec b;
  }

  quilted-IsQuiet :
      (parts : List QuiltPart) (w : World N)
      → IsQuiet w (record w { net = (client.store_quilt parts conf.epochs conf.deletable w.net).1 })
  quilted-IsQuiet parts w = record {
    pg = refl;
    reads = λ rec b. walrus.store_quilt_keeps parts conf.epochs conf.deletable w.net rec b;
  }

  single-IsQuiet :
      (e : BlockEntry) (w : World N) → IsQuiet w (upload_single_block client conf e w).1
  unfolding upload_single_block
  single-IsQuiet e w = elim (Result-cases (client.store e.val conf.epochs conf.deletable w.net).0) [
    | inl (res, good) ↦ rw good (stored-IsQuiet e.val w)
    | inr (x, bad) ↦ rw bad (stored-IsQuiet e.val w)
  ]

  concat-IsQuiet :
      (pack : List BlockEntry) (w : World N) → IsQuiet w (upload_concat_pack client conf pack w).1
  unfolding upload_concat_pack
  concat-IsQuiet pack w =
      elim (Result-cases (client.store (concat_blocks pack) conf.epochs conf.deletable w.net).0) [
        | inl (res, good) ↦ rw good (stored-IsQuiet (concat_blocks pack) w)
        | inr (x, bad) ↦ rw bad (stored-IsQuiet (concat_blocks pack) w)
      ]

  quilt-IsQuiet :
      (pack : List BlockEntry) (w : World N) → IsQuiet w (upload_quilt_pack client conf pack w).1
  unfolding upload_quilt_pack
  quilt-IsQuiet pack w =
      elim (Result-cases
        (client.store_quilt (parts_from 0 pack) conf.epochs conf.deletable w.net).0) [
          | inr (x, bad) ↦ rw bad (quilted-IsQuiet (parts_from 0 pack) w)
          | inl (res, good) ↦ rw good (
              if_both (λ (m : Exec (World N) (List KeyRecord)). IsQuiet w (m (after res)).1)
                (length res.patches == length pack)
                (rw quilt_records-state (quilted-IsQuiet (parts_from 0 pack) w))
                (quilted-IsQuiet (parts_from 0 pack) w))
        ]
    where
      after : QuiltStoreResult → World N
      after res = record w {
        net = (client.store_quilt (parts_from 0 pack) conf.epochs conf.deletable w.net).1;
      }

  -- Whether it succeeds or not, an upload leaves the database and what records read.
  pub upload_pack-IsQuiet :
      (pack : List BlockEntry) (w : World N) → IsQuiet w (upload_pack client conf pack w).1
  unfolding upload_pack
  upload_pack-IsQuiet [] w = record { pg = refl; reads = λ rec b h. h }
  upload_pack-IsQuiet (e ∷ []) w = single-IsQuiet e w
  upload_pack-IsQuiet (e ∷ f ∷ pack) w =
      if_both (λ (m : Exec (World N) (List KeyRecord)). IsQuiet w (m w).1) conf.disable_quilt
        (concat-IsQuiet (e ∷ f ∷ pack) w) (quilt-IsQuiet (e ∷ f ∷ pack) w)

  module _ (value_of : String → Option Bytes) where
    -- A successful upload: every record reads, at the network that the upload left, its block.
    abbrev pub Uploads : List BlockEntry → World N → Exec (World N) (List KeyRecord) → Type 0
    Uploads pack w m =
        (recs : List KeyRecord)
        → (m w).0 ≡ ok recs
        → Holds client value_of pack
        → length (concat_blocks pack) < half_word
        → All (Reads client value_of (m w).1.net) recs

    single-Uploads :
        (e : BlockEntry) (w : World N) → Uploads (e ∷ []) w (upload_single_block client conf e)
    unfolding upload_single_block single_record
    single-Uploads e w recs h holds small =
        elim (Result-cases (client.store e.val conf.epochs conf.deletable w.net).0) [
          | inr (x, bad) ↦ absurd (cc (rw bad at h))
          | inl (res, good) ↦ single_block res good
        ]
      where
        single_block :
            (res : StoreResult)
            → (client.store e.val conf.epochs conf.deletable w.net).0 ≡ ok res
            → All (Reads client value_of (upload_single_block client conf e w).1.net) recs
        single_block res good =
            let shape : recs ≡ single_record conf w.clock e res ∷ [] = cc (rw good at h) in
            let words = walrus.store_words e.val conf.epochs conf.deletable w.net res good in
            rw (good, shape)
              (
                range_record-Reads client value_of (single_record conf w.clock e res) e _ refl refl
                    (walrus.range_of_stored e.val conf.epochs conf.deletable w.net res 0
                        (length e.val) good (omega arith)
                      ∙ ap ok (take-length e.val))
                    (record { cost = words.0; end_epoch = words.1 }) holds.0,
                tt,
              )

    concat-Uploads :
        (pack : List BlockEntry) (w : World N)
        → Uploads pack w (upload_concat_pack client conf pack)
    unfolding upload_concat_pack
    concat-Uploads pack w recs h holds small =
        elim (Result-cases (client.store (concat_blocks pack) conf.epochs conf.deletable w.net).0) [
          | inr (x, bad) ↦ absurd (cc (rw bad at h))
          | inl (res, good) ↦ one_blob res good
        ]
      where
        one_blob :
            (res : StoreResult)
            → (client.store (concat_blocks pack) conf.epochs conf.deletable w.net).0 ≡ ok res
            → All (Reads client value_of (upload_concat_pack client conf pack w).1.net) recs
        one_blob res good =
            let encoded = encoded_size conf res.encoded_size (total_size pack) in
            let shape : recs ≡ concat_records conf w.clock encoded res (pos 0) pack =
              cc (rw good at h) in
            rw (good, shape)
              (concat_records-Reads client value_of conf w.clock encoded res (concat_blocks pack) []
                (pos 0) pack _ refl refl small
                (λ at len fits.
                  walrus.range_of_stored (concat_blocks pack) conf.epochs conf.deletable w.net res
                    at len good fits)
                (walrus.store_words (concat_blocks pack) conf.epochs conf.deletable w.net res good)
                holds)

    quilt-Uploads :
        (pack : List BlockEntry) (w : World N) → Uploads pack w (upload_quilt_pack client conf pack)
    unfolding upload_quilt_pack
    quilt-Uploads pack w recs h holds small =
        elim (Result-cases
          (client.store_quilt (parts_from 0 pack) conf.epochs conf.deletable w.net).0) [
            | inr (x, bad) ↦ absurd (cc (rw bad at h))
            | inl (res, good) ↦ members res good
          ]
      where
        members :
            (res : QuiltStoreResult)
            → (client.store_quilt (parts_from 0 pack) conf.epochs conf.deletable w.net).0 ≡ ok res
            → All (Reads client value_of (upload_quilt_pack client conf pack w).1.net) recs
        members res good = elim (Bool-cases (length res.patches == length pack)) [
          | inr other ↦ absurd (cc (rw (good, other) at h))
          | inl same ↦
              rw (good, same, quilt_records-state)
                (quilt_records-Reads client value_of conf w.clock
                  (encoded_size conf res.encoded_size (total_size pack)) res pack res.patches _ _
                  recs holds
                  (walrus.quilt_words (parts_from 0 pack) conf.epochs conf.deletable w.net res good)
                  (walrus.patch_of_quilt (parts_from 0 pack) conf.epochs conf.deletable w.net res
                    good)
                  (rw (good, same) at h))
        ]

    pub upload_pack-Uploads :
        (pack : List BlockEntry) (w : World N) → Uploads pack w (upload_pack client conf pack)
    unfolding upload_pack
    upload_pack-Uploads [] w recs = λ h holds small. let e : recs ≡ [] = cc h in rw e tt
    upload_pack-Uploads (e ∷ []) w recs = single-Uploads e w recs
    upload_pack-Uploads (e ∷ f ∷ pack) w recs =
        if_both (Uploads (e ∷ f ∷ pack) w) conf.disable_quilt (concat-Uploads (e ∷ f ∷ pack) w)
          (quilt-Uploads (e ∷ f ∷ pack) w) recs
