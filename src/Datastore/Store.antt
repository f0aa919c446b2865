-- ===== src/Datastore/Store.antt =====
-- The methods of `WalrusDatastore` on keys and batches: staging first, then the index and Walrus.
use go_ds_s3_walrus.Common.{
  String, Bool, true, false, List, [], ◌∷◌, ◌++◌, map, str_eq, if◌then◌else◌,
}
use go_ds_s3_walrus.Common.Int.{ℤ, leb_ℤ}
use go_ds_s3_walrus.Common.Assoc.{Assoc, insert}
use go_ds_s3_walrus.Common.Result.{
  Error, not_found, blob_not_found, failure, wrapped, Result, ok, err, Exec, pure, raise, handle,
  ◌>>=◌, ◌>>◌,
}
use go_ds_s3_walrus.Index.{Bytes, Record, StageEntry}
use go_ds_s3_walrus.Index.Write
use go_ds_s3_walrus.Index.Write.{put_many, delete_many, promote_staged}
use go_ds_s3_walrus.Index.Stage.{stage_put_many, stage_get, stage_get_size}
use go_ds_s3_walrus.Client.{WalrusClient}
use go_ds_s3_walrus.Datastore.{Config, World, BlockEntry, on_index, on_client}
use go_ds_s3_walrus.Datastore.Upload.{upload_pack, size_of}

-- `err != ds.ErrNotFound` is an error; `ds.ErrNotFound` goes on.
abbrev pub unless_not_found {ℓ} : {S A : Type ℓ} → Exec S A → Error → Exec S A
unless_not_found m not_found = m
unless_not_found m e = raise e

-- `int64(len(value)) >= PackTargetSize`.
unfoldable pub is_oversize : Config → Bytes → Bool
is_oversize conf value = leb_ℤ conf.pack_target_size (size_of value)

module _ {N : Type 0} where
  -- A full channel means that a check is pending already.
  unfoldable pub kick_flusher : Exec (World N) (Unit {0})
  kick_flusher w = (ok tt, record w { kicked = true })

  -- `Has`: staging, then the index.
  unfoldable pub has : String → Exec (World N) Bool
  has key =
      handle (on_index (stage_get_size key)) (λ _. pure true)
        (unless_not_found
          (handle (on_index (Write.get key)) (λ _. pure true) (unless_not_found (pure false))))

  unfoldable pub get_size : String → Exec (World N) ℤ
  get_size key =
      handle (on_index (stage_get_size key)) pure
        (unless_not_found (do rec ← on_index (Write.get key); pure rec.size))

  unfoldable pub delete : String → Exec (World N) (Unit {0})
  delete key = on_index (Write.delete key)

  -- The error of a read of the blob: a missing blob is a missing key.
  abbrev pub read_error : Error → Exec (World N) Bytes
  read_error blob_not_found = raise not_found
  read_error e = raise (wrapped "reading blob" e)

module _ {N : Type 0} (client : WalrusClient N) where
  -- A quilt member is read by its patch, any other block by its byte range.
  unfoldable pub read_record : Record → Exec N Bytes
  read_record rec =
      if str_eq rec.patch_id ""
      then client.read_range rec.blob_id rec.offset rec.size
      else client.read_quilt_patch rec.patch_id

  unfoldable pub get : String → Exec (World N) Bytes
  get key = handle (on_index (stage_get key)) pure (
      unless_not_found
        (do rec ← on_index (Write.get key); handle (on_client (read_record rec)) pure read_error))

module _ {N : Type 0} (client : WalrusClient N) (conf : Config) where
  -- A block of its own goes to Walrus and then to the index.
  unfoldable pub store_oversize : String → Bytes → Exec (World N) (Unit {0})
  store_oversize key value = do
    recs ← upload_pack client conf (record { key = key; val = value } ∷ [])
    on_index (put_many recs)

  unfoldable pub put : String → Bytes → Exec (World N) (Unit {0})
  put key value =
      if is_oversize conf value
      then store_oversize key value
      else do on_index (stage_put_many (record { key = key; value = value } ∷ [])); kick_flusher

-- `batchOp`, and the map of a batch. Go's iteration order over it is not fixed: it is the order of
-- the list, and the statements below hold for every one.
pub data BatchOp : Type 0 where
  put_op : Bytes → BatchOp
  delete_op : BatchOp

abbrev pub Batch : Type 0
Batch = Assoc BatchOp

unfoldable pub batch_put : String → Bytes → Batch → Batch
batch_put key val ops = insert key (put_op val) ops

unfoldable pub batch_delete : String → Batch → Batch
batch_delete key ops = insert key delete_op ops

-- The three lists of `Commit`.
pub record Sorted : Type 0 where
  pub stage : List StageEntry
  pub oversize : List BlockEntry
  pub deletes : List String

add_op : Config → String → BatchOp → Sorted → Sorted
add_op conf key delete_op s = record s { deletes = key ∷ s.deletes }
add_op conf key (put_op val) s =
    if is_oversize conf val
    then record s { oversize = record { key = key; val = val } ∷ s.oversize }
    else record s { stage = record { key = key; value = val } ∷ s.stage }

unfoldable pub sort_ops : Config → Batch → Sorted
unfolding add_op
sort_ops conf [] = record { stage = []; oversize = []; deletes = [] }
sort_ops conf ((key, op) ∷ ops) = add_op conf key op (sort_ops conf ops)

abbrev pub errors_of : Result (Unit {0}) → List Error
errors_of (ok _) = []
errors_of (err e) = e ∷ []

module _ {N : Type 0} where
  -- One step of `Commit`, whose error is kept and does not stop the next step.
  unfoldable pub attempt : Exec (World N) (Unit {0}) → World N → List Error × World N
  attempt m w = let (r, w') = m w in (errors_of r, w')

  -- `errs = append(errs, ...)` along a row of steps.
  unfoldable pub attempt_all : List (Exec (World N) (Unit {0})) → World N → List Error × World N
  unfolding attempt
  attempt_all [] w = ([], w)
  attempt_all (m ∷ ms) w =
      let (es, w') = attempt m w in let (fs, w'') = attempt_all ms w' in (es ++ fs, w'')

  abbrev pub kick_if_staged : List StageEntry → Exec (World N) (Unit {0})
  kick_if_staged [] = pure tt
  kick_if_staged (e ∷ es) = kick_flusher

  abbrev pub commit_result : List StageEntry → List Error → Exec (World N) (Unit {0})
  commit_result stage [] = kick_if_staged stage
  commit_result stage (e ∷ es) = raise (failure "failed batch operation")

  module _ (client : WalrusClient N) (conf : Config) where
    unfoldable pub commit_steps : Sorted → List (Exec (World N) (Unit {0}))
    commit_steps s =
        on_index (stage_put_many s.stage)
        ∷ (map (λ (e : BlockEntry). store_oversize client conf e.key e.val) s.oversize
            ++ on_index (delete_many s.deletes) ∷ [])

    unfoldable pub commit : Batch → Exec (World N) (Unit {0})
    commit ops w =
        let s = sort_ops conf ops in
        let (errs, w') = attempt_all (commit_steps s) w in commit_result s.stage errs w'
