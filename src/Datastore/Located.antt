-- ===== src/Datastore/Located.antt =====
-- The records that `uploadPack` of walrus.go returns, and what reading them gives.
use mathlib.Core.List.{append_assoc}
use go_ds_s3_walrus.Common.{
  ℕ, ◌+◌, ◌≤◌, ◌<◌, String, ◌≡◌, ◌≢◌, refl, ap, sym, ◌∙◌, Option, some, List, [], ◌∷◌, ◌++◌, take,
  drop, length, All, eq_iff, arith, inl, inr, Option-cases, length-append,
}
use go_ds_s3_walrus.Common.Int.{ℤ, pos, word, half_word, add64, add64-pos}
use go_ds_s3_walrus.Common.Result.{ok, pure, >>=-eq-ok}
use go_ds_s3_walrus.Index.{Bytes, Record, KeyRecord}
use go_ds_s3_walrus.Index.View.{IsWord}
use go_ds_s3_walrus.Client.{StoreResult, QuiltPart, QuiltPatch, QuiltStoreResult, WalrusClient}
use go_ds_s3_walrus.Datastore.{Config, World, BlockEntry}
use go_ds_s3_walrus.Datastore.Store.{read_record}
use go_ds_s3_walrus.Datastore.Upload.{
  quilt_record, quilt_records, concat_record, concat_records, concat_blocks, parts_from,
  block_by_id, size_of,
}
use go_ds_s3_walrus.Datastore.Identified.{
  Agrees, Reads, Holds, slice_middle, block_by_id-All, part_by_id,
}

module _ {N : Type 0} (client : WalrusClient N) (value_of : String → Option Bytes) where
  read_record-patch :
      (rec : Record) (n : N)
      → rec.patch_id ≢ ""
      → read_record client rec n ≡ client.read_quilt_patch rec.patch_id n
  unfolding read_record
  read_record-patch rec n h = ground (arith, eq_iff rec.patch_id "")

  read_record-range :
      (rec : Record) (n : N)
      → rec.patch_id ≡ ""
      → read_record client rec n ≡ client.read_range rec.blob_id rec.offset rec.size n
  unfolding read_record
  read_record-range rec n h = ground (arith, eq_iff rec.patch_id "")

  quilt_record-Reads :
      (conf : Config) (now : ℕ) (encoded : ℤ) (res : QuiltStoreResult) (p : QuiltPatch)
      (e : BlockEntry) (n : N)
      → (res.cost < word) × (res.end_epoch < word)
      → p.quilt_patch_id ≢ ""
      → (client.read_quilt_patch p.quilt_patch_id n).0 ≡ ok e.val
      → Agrees client value_of e.key e.val
      → Reads client value_of n (quilt_record conf now encoded res p e)
  unfolding quilt_record
  quilt_record-Reads conf now encoded res p e n words named reads value = (
    e.val,
    value,
    rw (read_record-patch (quilt_record conf now encoded res p e).rec n named) reads,
    record { cost = words.0; end_epoch = words.1 },
  )

  -- A step of the loop over the patches.
  pub quilt_records-cons :
      (conf : Config) (now : ℕ) (encoded : ℤ) (res : QuiltStoreResult) (pack : List BlockEntry)
      (p : QuiltPatch) (patches : List QuiltPatch) (w : World N) (recs : List KeyRecord)
      → (quilt_records conf now encoded res pack (p ∷ patches) w).0 ≡ ok recs
      → (e : BlockEntry) × (rest : List KeyRecord) × (block_by_id 0 pack p.identifier ≡ some e)
        × ((quilt_records conf now encoded res pack patches w).0 ≡ ok rest)
        × (recs ≡ quilt_record conf now encoded res p e ∷ rest)
  unfolding quilt_records
  quilt_records-cons conf now encoded res pack p patches w recs h =
      elim (Option-cases (block_by_id 0 pack p.identifier)) [
        | inl unknown ↦ absurd (cc (rw unknown at h))
        | inr (e, found) ↦
            let (rest, first, whole) =
              >>=-eq-ok (quilt_records conf now encoded res pack patches)
                (λ rs. pure (quilt_record conf now encoded res p e ∷ rs)) w (rw found at h) in
            (e, rest, found, first, cc (rw (found, whole) at h))
      ]

  -- The records of the patches of a quilt.
  pub quilt_records-Reads :
      (conf : Config) (now : ℕ) (encoded : ℤ) (res : QuiltStoreResult) (pack : List BlockEntry)
      (patches : List QuiltPatch) (n : N) (w : World N) (recs : List KeyRecord)
      → Holds client value_of pack
      → (res.cost < word) × (res.end_epoch < word)
      → All
          (λ (p : QuiltPatch).
            (p.quilt_patch_id ≢ "")
            × All
                (λ (q : QuiltPart).
                  q.identifier ≡ p.identifier
                  → (client.read_quilt_patch p.quilt_patch_id n).0 ≡ ok q.content)
                (parts_from 0 pack))
          patches
      → (quilt_records conf now encoded res pack patches w).0 ≡ ok recs
      → All (Reads client value_of n) recs
  quilt_records-Reads conf now encoded res pack [] n w recs holds words laws h =
      let e : recs ≡ [] = unfold quilt_records in cc h in rw e tt
  quilt_records-Reads conf now encoded res pack (p ∷ patches) n w recs holds words laws h =
      let (e, rest, found, more, shape) =
        quilt_records-cons conf now encoded res pack p patches w recs h in
      rw shape (
        quilt_record-Reads conf now encoded res p e n words laws.0.0
            (part_by_id (λ v. (client.read_quilt_patch p.quilt_patch_id n).0 ≡ ok v) 0 pack
              p.identifier e laws.0.1 found)
            (block_by_id-All (λ f. Agrees client value_of f.key f.val) 0 pack p.identifier e holds
              found),
        quilt_records-Reads conf now encoded res pack patches n w rest holds words laws.1 more,
      )

  pub range_record-Reads :
      (kr : KeyRecord) (e : BlockEntry) (n : N)
      → kr.key ≡ e.key
      → kr.rec.patch_id ≡ ""
      → (client.read_range kr.rec.blob_id kr.rec.offset kr.rec.size n).0 ≡ ok e.val
      → IsWord kr.rec
      → Agrees client value_of e.key e.val
      → Reads client value_of n kr
  range_record-Reads kr e n key range reads words value =
      (e.val, rw key value, rw (read_record-range kr.rec n range) reads, words)

  -- The byte ranges of a concatenated pack, from the block that stands behind `before`.
  pub concat_records-Reads :
      (conf : Config) (now : ℕ) (encoded : ℤ) (res : StoreResult) (whole before : Bytes)
      (offset : ℤ) (pack : List BlockEntry) (n : N)
      → whole ≡ before ++ concat_blocks pack
      → offset ≡ pos (length before)
      → length whole < half_word
      → ((at len : ℕ)
          → at + len ≤ length whole
          → (client.read_range res.blob_id (pos at) (pos len) n).0 ≡ ok (take len (drop at whole)))
      → (res.cost < word) × (res.end_epoch < word)
      → Holds client value_of pack
      → All (Reads client value_of n) (concat_records conf now encoded res offset pack)
  unfolding concat_records concat_record concat_blocks
  concat_records-Reads conf now encoded res whole before offset [] n split at small ranges words
        holds =
      tt
  concat_records-Reads conf now encoded res whole before offset (e ∷ pack) n split at small ranges
        words holds =
      (
        range_record-Reads _ e n refl refl
            (rw at (ranges (length before) (length e.val) fits ∙ ap ok middle))
            (record { cost = words.0; end_epoch = words.1 }) holds.0,
        concat_records-Reads conf now encoded res whole (before ++ e.val)
            (add64 offset (size_of e.val)) pack n
            (split ∙ sym (append_assoc before e.val (concat_blocks pack)))
            (rw at (
              add64-pos (length before) (length e.val) (omega (arith, fits))
              ∙ ap pos (sym (length-append before e.val))))
            small ranges words holds.1,
      )
    where
      total : length whole ≡ length before + (length e.val + length (concat_blocks pack))
      total =
          ap length split
          ∙ length-append before (e.val ++ concat_blocks pack)
          ∙ ap (λ (x : ℕ). length before + x) (length-append e.val (concat_blocks pack))

      fits : length before + length e.val ≤ length whole
      fits = omega (arith, total)

      middle : take (length e.val) (drop (length before) whole) ≡ e.val
      middle = rw split (slice_middle before e.val (concat_blocks pack))
