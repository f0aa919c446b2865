-- ===== src/Datastore/Answers.antt =====
-- What `Get` of walrus.go returns on a server without faults.
use go_ds_s3_walrus.Common.{String, ◌≡◌, Option, none, some, [], arith, inl, inr, Option-cases}
use go_ds_s3_walrus.Common.Assoc.{lookup}
use go_ds_s3_walrus.Common.Result.{not_found, blob_not_found, wrapped, Result, ok, err}
use go_ds_s3_walrus.Index.{Bytes, Record}
use go_ds_s3_walrus.Index.Postgres.{query}
use go_ds_s3_walrus.Index.Write
use go_ds_s3_walrus.Index.Write.{keys_of, promote_staged}
use go_ds_s3_walrus.Index.Stage.{stage_get}
use go_ds_s3_walrus.Index.View.{view}
use go_ds_s3_walrus.Index.Staging.{staged_bytes}
use go_ds_s3_walrus.Client.{WalrusClient}
use go_ds_s3_walrus.Datastore.{World}
use go_ds_s3_walrus.Datastore.Store.{get, read_record}

module _ {N : Type 0} where
  -- The world with no database fault ahead.
  abbrev pub calm : World N → World N
  calm w = record w { pg = record w.pg { outcomes = [] } }

module _ {N : Type 0} (client : WalrusClient N) where
  abbrev pub or_wrapped : Result Bytes → Result Bytes
  or_wrapped (ok b) = ok b
  or_wrapped (err blob_not_found) = err not_found
  or_wrapped (err e) = err (wrapped "reading blob" e)

  -- What a reader gets: the staged bytes, or the bytes that the record of the index reads.
  unfoldable pub answer : Option Bytes → Option Record → N → Result Bytes
  answer (some b) rec n = ok b
  answer none (some rec) n = or_wrapped (read_record client rec n).0
  answer none none n = err not_found

  pub get-answer :
      (key : String) (w : World N)
      → (get client key (calm w)).0
        ≡ answer (staged_bytes w.pg.tables key) (view w.pg.tables.index key) w.net
  unfolding get stage_get Write.get answer view query
  get-answer key w = elim (Option-cases (lookup key w.pg.tables.staging)) [
    | inr (row, staged) ↦ rw staged
    | inl unstaged ↦ elim (Option-cases (lookup key w.pg.tables.index)) [
      | inl unknown ↦ rw (unstaged, unknown)
      | inr (row, found) ↦ rw (unstaged, found) (ground arith)
    ]
  ]
