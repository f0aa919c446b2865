-- ===== src/Index/Promote.antt =====
-- `PutMany`, `PromoteStaged` and `DeleteMany` of index.go: lemmas on what they write, chunk by chunk.
use go_ds_s3_walrus.Common.{
  ℕ, zero, suc, ◌≤◌, String, true, false, ◌≡◌, refl, ap, List, [], ◌∷◌, length, take, drop,
  contains, arith, inl,
}
use go_ds_s3_walrus.Common.Assoc.{Assoc, remove_all}
use go_ds_s3_walrus.Common.Result.{pure}
use go_ds_s3_walrus.Index.{KeyRecord, Row, Tables}
use go_ds_s3_walrus.Index.Postgres.{statement}
use go_ds_s3_walrus.Index.Write.{
  upsert, upsert_all, insert_rows, keys_of, put_chunk, put_many_loop, put_many_tx, put_many,
  present, live_records, promote_staged, promote_tx, put_live, delete_returning, delete_many,
  delete_index, delete_staging,
}
use go_ds_s3_walrus.Index.Distinct.{distinct}
use go_ds_s3_walrus.Index.Chunks.{in_chunks-Runs}
use go_ds_s3_walrus.Index.Atomic.{
  Runs, Runs-weaken, Commits, statement-Commits, Runs-bind, transaction-Commits,
}

upsert_all-take-drop :
    (n now : ℕ) (recs : List KeyRecord) (t : Assoc Row)
    → upsert_all now (drop n recs) (upsert_all now (take n recs) t) ≡ upsert_all now recs t
unfolding upsert_all
upsert_all-take-drop zero now recs t = refl
upsert_all-take-drop (suc n) now [] t = refl
upsert_all-take-drop (suc n) now (kr ∷ recs) t = upsert_all-take-drop n now recs (upsert now kr t)

abbrev pub written : List KeyRecord → ℕ → Tables → Unit {0} × Tables
written recs now t = (tt, record t { index = upsert_all now recs t.index })

abbrev IsDistinct : List KeyRecord → Type 0
IsDistinct recs = distinct (keys_of recs) ≡ true

insert_rows-Runs :
    (recs : List KeyRecord)
    → Runs (IsDistinct recs) (written recs) (statement "index put-many" (insert_rows recs))
unfolding insert_rows
insert_rows-Runs recs =
    (statement-Commits "index put-many" (written recs) (insert_rows recs) (λ now t. ground arith)
      (λ d now t. rw d)).runs

put_many_loop-Runs :
    (fuel : ℕ) (recs : List KeyRecord)
    → length recs ≤ fuel
    → Runs (IsDistinct recs) (written recs) (put_many_loop fuel recs)
unfolding put_many_loop upsert_all
put_many_loop-Runs =
    in_chunks-Runs (λ kr. kr.key) written (λ now t. refl)
      (λ n recs now t.
        ap (λ (x : Assoc Row). (tt, record t { index = x }))
          (upsert_all-take-drop n now recs t.index))
      put_chunk insert_rows-Runs 499

none_written : {D : Type 0} → Runs D (written []) (pure tt)
unfolding upsert_all
none_written = record {
  done = λ p now a en h. refl;
  clock = λ p. refl;
  total = λ d p now t en et h. (refl, h);
}

put_many_tx-Runs :
    (recs : List KeyRecord) → Runs (IsDistinct recs) (written recs) (put_many_tx recs)
unfolding put_many_tx
put_many_tx-Runs recs = put_many_loop-Runs (length recs) recs (omega arith)

-- `PutMany` writes each record, in however many chunks, or none; with distinct keys and a server
-- without faults it succeeds.
pub put_many-Commits :
    (kr : KeyRecord) (recs : List KeyRecord)
    → Commits (IsDistinct (kr ∷ recs)) (written (kr ∷ recs)) (put_many (kr ∷ recs))
unfolding put_many
put_many-Commits kr recs =
    transaction-Commits "index put-many" (written (kr ∷ recs)) (put_many_tx (kr ∷ recs))
      (put_many_tx-Runs (kr ∷ recs))

-- The tables after a promotion.
abbrev pub promoted : List KeyRecord → ℕ → Tables → Unit {0} × Tables
promoted recs now t = (
  tt,
  record t {
    index = upsert_all now (live_records (present (keys_of recs) t.staging) recs) t.index;
    staging = remove_all (keys_of recs) t.staging;
  },
)

contains-live :
    (s : List String) (recs : List KeyRecord) (k : String)
    → contains (keys_of recs) k ≡ false
    → contains (keys_of (live_records s recs)) k ≡ false
unfolding live_records
contains-live s [] k h = refl
contains-live s (kr ∷ recs) k h = ground (arith, contains-live s recs k)

IsDistinct-live :
    (s : List String) (recs : List KeyRecord) → IsDistinct recs → IsDistinct (live_records s recs)
unfolding live_records
IsDistinct-live s [] h = refl
IsDistinct-live s (kr ∷ recs) h =
    ground (arith, IsDistinct-live s recs, contains-live s recs kr.key)

put_live-Runs : (recs : List KeyRecord) → Runs (IsDistinct recs) (written recs) (put_live recs)
unfolding put_live
put_live-Runs [] = none_written
put_live-Runs (kr ∷ recs) = put_many_tx-Runs (kr ∷ recs)

promote_tx-Runs : (recs : List KeyRecord) → Runs (IsDistinct recs) (promoted recs) (promote_tx recs)
unfolding promote_tx
promote_tx-Runs recs =
    Runs-bind removed (λ survivors. written (live_records survivors recs))
      (statement "promote delete" (delete_returning (keys_of recs)))
      (λ survivors. put_live (live_records survivors recs))
      (statement-Commits "promote delete" removed (delete_returning (keys_of recs))
        (λ now t. inl refl) (λ d now t. refl)).runs
      (λ survivors.
        Runs-weaken _ _ (IsDistinct-live survivors recs)
          (put_live-Runs (live_records survivors recs)))
  where
    removed : ℕ → Tables → List String × Tables
    removed now t = (
      present (keys_of recs) t.staging,
      record t { staging = remove_all (keys_of recs) t.staging },
    )

-- `PromoteStaged` moves exactly those records that are still staged, or none.
pub promote_staged-Commits :
    (kr : KeyRecord) (recs : List KeyRecord)
    → Commits (IsDistinct (kr ∷ recs)) (promoted (kr ∷ recs)) (promote_staged (kr ∷ recs))
unfolding promote_staged
promote_staged-Commits kr recs =
    transaction-Commits "promote" (promoted (kr ∷ recs)) (promote_tx (kr ∷ recs))
      (promote_tx-Runs (kr ∷ recs))

abbrev pub deleted : List String → ℕ → Tables → Unit {0} × Tables
deleted keys now t =
    (tt, record { index = remove_all keys t.index; staging = remove_all keys t.staging })

-- `DeleteMany` removes the keys from both tables, or from none.
pub delete_many-Commits :
    (key : String) (keys : List String)
    → Commits Unit (deleted (key ∷ keys)) (delete_many (key ∷ keys))
unfolding delete_many
delete_many-Commits key keys = transaction-Commits "index delete-many" (deleted (key ∷ keys)) _ (
    Runs-bind unindexed (λ _. unstaged) (statement "index delete-many" (delete_index (key ∷ keys)))
      (λ _. statement "staging delete-many" (delete_staging (key ∷ keys)))
      (statement-Commits "index delete-many" unindexed (delete_index (key ∷ keys))
        (λ now t. inl refl) (λ d now t. refl)).runs
      (λ _.
        (statement-Commits "staging delete-many" unstaged (delete_staging (key ∷ keys))
          (λ now t. inl refl) (λ d now t. refl)).runs))
  where
    unindexed : ℕ → Tables → Unit {0} × Tables
    unindexed now t = (tt, record t { index = remove_all (key ∷ keys) t.index })

    unstaged : ℕ → Tables → Unit {0} × Tables
    unstaged now t = (tt, record t { staging = remove_all (key ∷ keys) t.staging })
