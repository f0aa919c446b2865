-- ===== src/Renewal/Kept.antt =====
-- `renewBlob` of renewal.go, and a `Get` before and after it.
use mathlib.Core.Option
use go_ds_s3_walrus.Common.{
  ℕ, ◌+◌, ◌≤◌, String, Bool, true, ◌≡◌, refl, ap, sym, ◌∙◌, Option, none, some, length, arith, ◌⊎◌,
  inl, inr, Bool-cases, str_eq, eq_iff,
}
use go_ds_s3_walrus.Common.Int.{ℤ, pos}
use go_ds_s3_walrus.Common.Assoc.{Assoc, lookup, map_values, lookup-map_values}
use go_ds_s3_walrus.Common.Result.{ok, err, Result-cases}
use go_ds_s3_walrus.Index.{Bytes, Record, Row, StageRow, Tables}
use go_ds_s3_walrus.Index.Postgres.{Pg}
use go_ds_s3_walrus.Index.Write.{Renewal, from_row, renewed_row, update_blob_after_renewal}
use go_ds_s3_walrus.Index.View.{view}
use go_ds_s3_walrus.Index.Atomic.{statement-Commits}
use go_ds_s3_walrus.Client.{StoreResult, WalrusClient}
use go_ds_s3_walrus.Datastore.{World}
use go_ds_s3_walrus.Datastore.Store.{get, read_record}
use go_ds_s3_walrus.Datastore.Walrus.{IsWalrus}
use go_ds_s3_walrus.Index.Staging.{staged_bytes}
use go_ds_s3_walrus.Datastore.Answers.{calm, answer, get-answer, or_wrapped}
use go_ds_s3_walrus.Renewal.{renew_blob, renewal_of}

-- The byte ranges that a table has in a blob lie within its content.
pub record IsWithin (blob_id : String) (content : Bytes) (t : Tables) : Type 0 where
  pub within :
      (key : String) (row : Row)
      → lookup key t.index ≡ some row
      → row.blob_id ≡ blob_id
      → row.patch_id ≡ ""
      → (offset len : ℕ) × (row.blob_offset ≡ pos offset)
        × (row.size ≡ pos len)
        × (offset + len ≤ length content)

-- The update renews every row of the blob or none, and no other row.
update-lookup :
    (old : String) (r : Renewal) (p : Pg) (key : String)
    → ((update_blob_after_renewal old r p).1.tables ≡ p.tables)
      ⊎ ((lookup key (update_blob_after_renewal old r p).1.tables.index
            ≡ Option.map (renewed_row old r p.now) (lookup key p.tables.index))
          × ((update_blob_after_renewal old r p).1.tables.staging ≡ p.tables.staging))
unfolding update_blob_after_renewal
update-lookup old r p key =
    elim ((statement-Commits {D = Unit {0}} "updating renewed blob" renewed _ (λ now t. inl refl)
        (λ d now t. refl)).atomic
      p) [
        | inl same ↦ inl same
        | inr changed ↦ inr (
          ap (λ (t : Tables). lookup key t.index) changed
              ∙ lookup-map_values (λ _ row. renewed_row old r p.now row) key p.tables.index,
          ap (λ (t : Tables). t.staging) changed,
        )
      ]
  where
    renewed : ℕ → Tables → Unit {0} × Tables
    renewed now t =
        (tt, record t { index = map_values (λ _ row. renewed_row old r now row) t.index })

module _ {N : Type 0} (client : WalrusClient N) where
  -- What reads before reads after, when each record does.
  answer-moved :
      (staged staged' : Option Bytes) (row row' : Option Row) (n n' : N) (v : Bytes)
      → staged' ≡ staged
      → ((r : Row)
          → row ≡ some r
          → (r' : Row) × (row' ≡ some r')
            × ((b : Bytes)
                → (read_record client (from_row r) n).0 ≡ ok b
                → (read_record client (from_row r') n').0 ≡ ok b))
      → answer client staged (Option.map from_row row) n ≡ ok v
      → answer client staged' (Option.map from_row row') n' ≡ ok v
  unfolding answer
  answer-moved (some b) staged' row row' n n' v s moves h = rw s h
  answer-moved none staged' none row' n n' v s moves h = absurd (cc h)
  answer-moved none staged' (some r) row' n n' v s moves h =
      let (r', moved, reads) = moves r refl in
      elim (Result-cases (read_record client (from_row r) n).0) [
        | inl (b, good) ↦ rw (s, moved, reads b good) (rw good at h)
        | inr (x, bad) ↦
            let h' : or_wrapped client (err x) ≡ ok v = rw bad at h in absurd (ground arith)
      ]

  module _ (walrus : IsWalrus client) where
    renewed_row-reads :
        (blob_id : String) (epochs : ℤ) (deletable : Bool) (r : Renewal) (now : ℕ) (n : N)
        (content : Bytes) (res : StoreResult) (key : String) (row : Row) (t : Tables) (b : Bytes)
        → (client.read blob_id n).0 ≡ ok content
        → (client.store content epochs deletable (client.read blob_id n).1).0 ≡ ok res
        → r.new_blob_id ≡ res.blob_id
        → IsWithin blob_id content t
        → lookup key t.index ≡ some row
        → (read_record client (from_row row) n).0 ≡ ok b
        → (read_record client
            (from_row (renewed_row blob_id r now row))
            (client.store content epochs deletable (client.read blob_id n).1).1).0
          ≡ ok b
    unfolding renewed_row from_row read_record
    renewed_row-reads blob_id epochs deletable r now n content res key row t b read stored new
          inside found h =
        let keeps =
          walrus.store_keeps content epochs deletable (client.read blob_id n).1 (from_row row) b
            (walrus.read_keeps blob_id n (from_row row) b h) in
        elim (Bool-cases (str_eq row.blob_id blob_id)) [
          | inr other ↦ rw other keeps
          | inl mine ↦ rw mine (elim (Bool-cases (str_eq row.patch_id "")) [
            | inr member ↦ rw member (rw member at keeps)
            | inl range ↦
                let id : row.blob_id ≡ blob_id = (eq_iff row.blob_id blob_id).0 mine in
                let (offset, len, at, size, fits) =
                  inside.within key row found id ((eq_iff row.patch_id "").0 range) in
                rw (range, new, at, size)
                  (walrus.range_of_stored content epochs deletable (client.read blob_id n).1 res
                      offset len stored fits
                    ∙ sym (walrus.range_of_blob blob_id n content offset len read fits)
                    ∙ before row blob_id offset len n b range id at size h)
          ])
        ]
      where
        before :
            (row : Row) (blob_id : String) (offset len : ℕ) (n : N) (b : Bytes)
            → str_eq row.patch_id "" ≡ true
            → row.blob_id ≡ blob_id
            → row.blob_offset ≡ pos offset
            → row.size ≡ pos len
            → (read_record client (from_row row) n).0 ≡ ok b
            → (client.read_range blob_id (pos offset) (pos len) n).0 ≡ ok b
        before row blob_id offset len n b range id at size h =
            rw (← id, ← at, ← size) (rw range at h)

    -- Whether a renewal succeeds or fails, and wherever it fails, a `Get` that returned a value before
    -- it returns the same value after it, if the byte ranges that the index has in the blob lie within
    -- what the blob reads as. (Also where the blob gets another ID.)
    pub get-renew_blob :
        (blob_id : String) (epochs : ℤ) (deletable : Bool) (epoch_duration n_shards : ℤ)
        (w : World N) (key : String) (v : Bytes)
        → ((content : Bytes)
            → (client.read blob_id w.net).0 ≡ ok content
            → IsWithin blob_id content w.pg.tables)
        → (get client key (calm w)).0 ≡ ok v
        → (get client key
            (calm (renew_blob client blob_id epochs deletable epoch_duration n_shards w).1)).0
          ≡ ok v
    unfolding view renew_blob renewal_of
    get-renew_blob blob_id epochs deletable epoch_duration n_shards w key v inside h =
        get-answer client key
          (renew_blob client blob_id epochs deletable epoch_duration n_shards w).1
        ∙ renewed
      where
        w₁ : World N
        w₁ = record w { net = (client.read blob_id w.net).1 }

        w₂ : Bytes → World N
        w₂ content = record w { net = (client.store content epochs deletable w₁.net).1 }

        Answers : World N → Type 0
        Answers u =
            answer client (staged_bytes u.pg.tables key) (view u.pg.tables.index key) u.net ≡ ok v

        -- The tables are as before, and the network keeps what it had.
        same :
            (p : Pg) (n : N)
            → p.tables ≡ w.pg.tables
            → ((r : Record) (b : Bytes)
                → (read_record client r w.net).0 ≡ ok b
                → (read_record client r n).0 ≡ ok b)
            → Answers (record w { pg = p; net = n })
        same p n kept keeps =
            answer-moved _ _ (lookup key w.pg.tables.index) _ w.net n v
              (ap (λ t. staged_bytes t key) kept)
              (λ r found.
                (r, ap (λ (t : Tables). lookup key t.index) kept ∙ found, keeps (from_row r)))
              (sym (get-answer client key w) ∙ h)

        kept_by_both :
            (content : Bytes) (r : Record) (b : Bytes)
            → (read_record client r w.net).0 ≡ ok b
            → (read_record client r (w₂ content).net).0 ≡ ok b
        kept_by_both content r b e =
            walrus.store_keeps content epochs deletable w₁.net r b
              (walrus.read_keeps blob_id w.net r b e)

        updated :
            (content : Bytes) (res : StoreResult)
            → (client.read blob_id w.net).0 ≡ ok content
            → (client.store content epochs deletable w₁.net).0 ≡ ok res
            → (r : Renewal) → r.new_blob_id ≡ res.blob_id
            → Answers (record w {
              pg = (update_blob_after_renewal blob_id r w.pg).1;
              net = (w₂ content).net;
            })
        updated content res read stored r new = elim (update-lookup blob_id r w.pg key) [
          | inl kept ↦
              same (update_blob_after_renewal blob_id r w.pg).1 (w₂ content).net kept
                (kept_by_both content)
          | inr (moved, staging) ↦
              answer-moved _ _ (lookup key w.pg.tables.index) _ w.net (w₂ content).net v
                (ap
                  (λ (t : Assoc StageRow).
                    Option.map (λ (row : StageRow). row.value) (lookup key t))
                  staging)
                (λ row found. (
                  renewed_row blob_id r w.pg.now row,
                  moved ∙ rw found,
                  λ b.
                      renewed_row-reads blob_id epochs deletable r w.pg.now w.net content res key
                        row w.pg.tables b read stored new (inside content read) found,
                ))
                (sym (get-answer client key w) ∙ h)
        ]

        renewed : Answers (renew_blob client blob_id epochs deletable epoch_duration n_shards w).1
        renewed = elim (Result-cases (client.read blob_id w.net).0) [
          | inr (x, bad) ↦ rw bad (same w.pg w₁.net refl (walrus.read_keeps blob_id w.net))
          | inl (content, read) ↦
              elim (Result-cases (client.store content epochs deletable w₁.net).0) [
                | inr (x, bad) ↦
                    rw (read, bad) (same w.pg (w₂ content).net refl (kept_by_both content))
                | inl (res, stored) ↦
                    rw (read, stored)
                      (updated content res read stored
                        (renewal_of epochs epoch_duration n_shards content w.clock res) refl)
              ]
        ]
