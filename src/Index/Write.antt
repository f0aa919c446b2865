-- ===== src/Index/Write.antt =====
-- The statements that write the index table: upserts, deletions, promotion and renewal.
use go_ds_s3_walrus.Common.{
  ℕ, String, Option, none, some, List, [], ◌∷◌, map, length, contains, str_eq, if◌then◌else◌,
}
use go_ds_s3_walrus.Common.Int.{ℤ, to_int64, to_uint64}
use go_ds_s3_walrus.Common.Assoc.{Assoc, lookup, insert, remove_all, map_values}
use go_ds_s3_walrus.Common.Result.{Exec, pure, raise, not_found, ◌>>=◌, ◌>>◌}
use go_ds_s3_walrus.Index.{Record, KeyRecord, Row, StageRow, Tables}
use go_ds_s3_walrus.Index.Distinct.{distinct}
use go_ds_s3_walrus.Index.Chunks.{in_chunks}
use go_ds_s3_walrus.Index.Postgres.{Pg, statement, query, transaction}

-- The bound parameters of the INSERT.
unfoldable pub to_row : ℕ → ℕ → Record → Row
to_row created now rec = record {
  blob_id = rec.blob_id;
  object_id = rec.object_id;
  patch_id = rec.patch_id;
  blob_offset = rec.offset;
  size = rec.size;
  encoded_size = rec.encoded_size;
  cost = to_int64 rec.cost;
  deletable = rec.deletable;
  end_epoch = to_int64 rec.end_epoch;
  expires_at = rec.expires_at;
  created_at = created;
  updated_at = now;
}

-- The scanned columns of the SELECT.
unfoldable pub from_row : Row → Record
from_row row = record {
  blob_id = row.blob_id;
  object_id = row.object_id;
  patch_id = row.patch_id;
  offset = row.blob_offset;
  size = row.size;
  encoded_size = row.encoded_size;
  cost = to_uint64 row.cost;
  deletable = row.deletable;
  end_epoch = to_uint64 row.end_epoch;
  expires_at = row.expires_at;
}

-- When the row of a key was created: `created_at` is not among the columns that a conflict updates.
created : ℕ → Option Row → ℕ
created now none = now
created now (some row) = row.created_at

-- INSERT ... ON CONFLICT (key) DO UPDATE, for one row.
unfoldable pub upsert : ℕ → KeyRecord → Assoc Row → Assoc Row
unfolding created
upsert now kr t = insert kr.key (to_row (created now (lookup kr.key t)) now kr.rec) t

unfoldable pub upsert_all : ℕ → List KeyRecord → Assoc Row → Assoc Row
upsert_all now [] t = t
upsert_all now (kr ∷ recs) t = upsert_all now recs (upsert now kr t)

abbrev pub keys_of : List KeyRecord → List String
keys_of = map (λ kr. kr.key)

-- One INSERT of many rows. Postgres refuses a command that would update a row twice.
unfoldable pub insert_rows : List KeyRecord → ℕ → Tables → Option (Unit {0} × Tables)
unfolding upsert_all
insert_rows recs now t =
    if distinct (keys_of recs)
    then some (tt, record t { index = upsert_all now recs t.index })
    else none

-- `Put`: one upsert, in a transaction of its own.
unfoldable pub put : String → Record → Exec Pg (Unit {0})
put key rec = statement "index put" (insert_rows (record { key = key; rec = rec } ∷ []))

abbrev pub put_many_chunk : ℕ
put_many_chunk = 500

-- The INSERT for a chunk, and the loop of `putManyTx`, with fuel for its rounds: each takes at
-- least one record.
abbrev pub put_chunk : List KeyRecord → Exec Pg (Unit {0})
put_chunk recs = statement "index put-many" (insert_rows recs)

unfoldable pub put_many_loop : ℕ → List KeyRecord → Exec Pg (Unit {0})
unfolding in_chunks
put_many_loop = in_chunks put_many_chunk put_chunk

unfoldable pub put_many_tx : List KeyRecord → Exec Pg (Unit {0})
put_many_tx recs = put_many_loop (length recs) recs

unfoldable pub put_many : List KeyRecord → Exec Pg (Unit {0})
put_many [] = pure tt
put_many (kr ∷ recs) = transaction "index put-many" (put_many_tx (kr ∷ recs))

scanned : Option Row → Exec Pg Record
scanned none = raise not_found
scanned (some row) = pure (from_row row)

-- `Get`: no row is `ds.ErrNotFound`.
unfoldable pub get : String → Exec Pg Record
unfolding scanned
get key = do row ← query "index get" (λ now t. lookup key t.index); scanned row

abbrev pub delete_index : List String → ℕ → Tables → Option (Unit {0} × Tables)
delete_index keys now t = some (tt, record t { index = remove_all keys t.index })

abbrev pub delete_staging : List String → ℕ → Tables → Option (Unit {0} × Tables)
delete_staging keys now t = some (tt, record t { staging = remove_all keys t.staging })

unfoldable pub delete_many : List String → Exec Pg (Unit {0})
delete_many [] = pure tt
delete_many (key ∷ keys) = transaction "index delete-many" (do
  statement "index delete-many" (delete_index (key ∷ keys))
  statement "staging delete-many" (delete_staging (key ∷ keys)))

-- `DeleteMany` at READ COMMITTED: each DELETE sees the rows that are committed when it runs, and
-- keeps those that it removes locked up to the commit, at which both removals take effect.
unfoldable pub delete_seen : List String → List String → Exec Pg (Unit {0})
delete_seen indexed staged = transaction "index delete-many" (do
  statement "index delete-many" (delete_index indexed)
  statement "staging delete-many" (delete_staging staged))

unfoldable pub delete : String → Exec Pg (Unit {0})
unfolding delete_many
delete key = delete_many (key ∷ [])

-- The keys of a table that are among the given ones: what DELETE ... RETURNING returns.
unfoldable pub present : List String → Assoc StageRow → List String
present keys [] = []
present keys ((k, row) ∷ t) =
    let rest = present keys t in if contains keys k then k ∷ rest else rest

unfoldable pub delete_returning : List String → ℕ → Tables → Option (List String × Tables)
delete_returning keys now t =
    some (present keys t.staging, record t { staging = remove_all keys t.staging })

-- The records whose key is among the survivors.
unfoldable pub live_records : List String → List KeyRecord → List KeyRecord
live_records survivors [] = []
live_records survivors (kr ∷ recs) =
    let rest = live_records survivors recs in if contains survivors kr.key then kr ∷ rest else rest

-- `if len(live) > 0 { putManyTx }`.
unfoldable pub put_live : List KeyRecord → Exec Pg (Unit {0})
put_live [] = pure tt
put_live (kr ∷ recs) = put_many_tx (kr ∷ recs)

unfoldable pub promote_tx : List KeyRecord → Exec Pg (Unit {0})
unfolding delete_returning put_live
promote_tx recs = do
  survivors ← statement "promote delete" (delete_returning (keys_of recs))
  put_live (live_records survivors recs)

unfoldable pub promote_staged : List KeyRecord → Exec Pg (Unit {0})
unfolding promote_tx
promote_staged [] = pure tt
promote_staged (kr ∷ recs) = transaction "promote" (promote_tx (kr ∷ recs))

-- The columns that a renewal sets.
pub record Renewal : Type 0 where
  pub new_blob_id : String
  pub new_object_id : String
  pub encoded_size : ℤ
  pub cost : ℕ
  pub end_epoch : ℕ
  pub expires_at : Option ℕ

unfoldable pub renewed_row : String → Renewal → ℕ → Row → Row
renewed_row old_blob_id r now row =
    if str_eq row.blob_id old_blob_id
    then record row {
      blob_id = r.new_blob_id;
      object_id = r.new_object_id;
      encoded_size = r.encoded_size;
      cost = to_int64 r.cost;
      end_epoch = to_int64 r.end_epoch;
      expires_at = r.expires_at;
      updated_at = now;
    }
    else row

unfoldable pub update_blob_after_renewal : String → Renewal → Exec Pg (Unit {0})
update_blob_after_renewal old_blob_id r = statement "updating renewed blob" (λ now t.
    some (tt, record t { index = map_values (λ _ row. renewed_row old_blob_id r now row) t.index }))
