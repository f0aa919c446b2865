-- ===== src/Datastore/Commit.antt =====
-- `Commit` of walrus.go: what can be read after a batch.
use go_ds_s3_walrus.Common.{
  String, true, ◌≡◌, refl, ap, sym, ◌∙◌, Option, some, none, [], ◌∷◌, arith, if◌then◌else◌,
}
use go_ds_s3_walrus.Common.Assoc.{lookup}
use go_ds_s3_walrus.Common.Result.{ok}
use go_ds_s3_walrus.Index.{Bytes, Record}
use go_ds_s3_walrus.Index.Postgres.{Pg}
use go_ds_s3_walrus.Index.Distinct.{distinct}
use go_ds_s3_walrus.Index.Write.{delete_many}
use go_ds_s3_walrus.Index.Stage.{stage_put_many}
use go_ds_s3_walrus.Index.Staging.{
  staged_bytes, staged_all, stage_put_many-done, staged_bytes-staged_all,
}
use go_ds_s3_walrus.Index.View.{view}
use go_ds_s3_walrus.Index.Moves.{delete_many-IsDeleted, IsDeleted}
use go_ds_s3_walrus.Client.{WalrusClient}
use go_ds_s3_walrus.Datastore.{Config, World, on_index}
use go_ds_s3_walrus.Datastore.Store.{
  get, BatchOp, put_op, delete_op, Batch, Sorted, sort_ops, commit_steps, commit,
}
use go_ds_s3_walrus.Datastore.Answers.{calm, answer, get-answer}
use go_ds_s3_walrus.Datastore.Batched.{
  batch_keys, IsSmall, put_or, is_delete, read_after, sort_ops-oversize, sort_ops-stage,
  sort_ops-deletes, both-ok,
}

module _ {N : Type 0} (client : WalrusClient N) (conf : Config) where
  -- The database after the staging of the batch.
  abbrev staged_pg : Batch → World N → Pg
  staged_pg ops w = (stage_put_many (sort_ops conf ops).stage w.pg).1

  -- Without oversize blocks a successful commit has staged and deleted.
  commit-parts :
      (ops : Batch) (w : World N)
      → (sort_ops conf ops).oversize ≡ []
      → (commit client conf ops w).0 ≡ ok tt
      → ((stage_put_many (sort_ops conf ops).stage w.pg).0 ≡ ok tt)
        × ((delete_many (sort_ops conf ops).deletes (staged_pg ops w)).0 ≡ ok tt)
        × ((commit client conf ops w).1.pg
            ≡ (delete_many (sort_ops conf ops).deletes (staged_pg ops w)).1)
        × ((commit client conf ops w).1.net ≡ w.net)
  unfolding commit
  commit-parts ops w none_large h =
      let s = sort_ops conf ops in
      let steps : commit_steps client conf s
          ≡ on_index (stage_put_many s.stage) ∷ on_index (delete_many s.deletes) ∷ [] =
        unfold commit_steps in rw none_large refl in
      rw steps (
        both-ok (on_index (stage_put_many s.stage)) (on_index (delete_many s.deletes)) s.stage w
          (rw steps at h))

  -- What a read finds after the batch has changed both tables for the key.
  answer-read_after :
      (op : Option BatchOp) (staged : Option Bytes) (rec : Option Record) (n : N)
      → answer client
          (if is_delete op then none else put_or op staged)
          (if is_delete op then none else rec)
          n
        ≡ read_after op (answer client staged rec n)
  unfolding answer
  answer-read_after (some (put_op v)) staged rec n = refl
  answer-read_after (some delete_op) staged rec n = refl
  answer-read_after none staged rec n = refl

  -- Where a batch without oversize blocks is committed and `Commit` reports success, whatever the database
  -- answered on the way: a `Get` of a key that the batch puts returns its value, a `Get` of a key that it
  -- deletes reports that it is not found, and a `Get` of any other key what it returned before. (The keys of a batch are
  -- distinct, as those of a Go map; the reads are without database faults.)
  pub get-commit :
      (ops : Batch) (w : World N) (key : String)
      → IsSmall conf ops
      → distinct (batch_keys ops) ≡ true
      → (commit client conf ops w).0 ≡ ok tt
      → (get client key (calm (commit client conf ops w).1)).0
        ≡ read_after (lookup key ops) (get client key (calm w)).0
  get-commit ops w key small d h =
      get-answer client key (commit client conf ops w).1
      ∙ rw (bytes, records, net)
          (answer-read_after (lookup key ops) (staged_bytes w.pg.tables key)
            (view w.pg.tables.index key) w.net)
      ∙ ap (read_after (lookup key ops)) (sym (get-answer client key w))
    where
      s : Sorted
      s = sort_ops conf ops

      parts :
          ((stage_put_many s.stage w.pg).0 ≡ ok tt)
          × ((delete_many s.deletes (staged_pg ops w)).0 ≡ ok tt)
          × ((commit client conf ops w).1.pg ≡ (delete_many s.deletes (staged_pg ops w)).1)
          × ((commit client conf ops w).1.net ≡ w.net)
      parts = commit-parts ops w (sort_ops-oversize conf ops small) h

      net : (commit client conf ops w).1.net ≡ w.net
      net = parts.3

      staged : (staged_pg ops w).tables ≡ (staged_all s.stage w.pg.now w.pg.tables).1
      staged = stage_put_many-done s.stage w.pg parts.0

      gone :
          IsDeleted s.deletes
            (staged_all s.stage w.pg.now w.pg.tables).1
            (commit client conf ops w).1.pg.tables
      gone = rw (← staged, parts.2) ((delete_many-IsDeleted s.deletes (staged_pg ops w)).1 parts.1)

      bytes : staged_bytes (commit client conf ops w).1.pg.tables key ≡ (
          if is_delete (lookup key ops)
          then none
          else put_or (lookup key ops) (staged_bytes w.pg.tables key))
      bytes = ground (
        arith,
        gone.staged key,
        sort_ops-deletes conf ops key small d,
        staged_bytes-staged_all s.stage w.pg.now w.pg.tables key,
        sort_ops-stage conf ops key (staged_bytes w.pg.tables key) small d,
      )

      records :
          view (commit client conf ops w).1.pg.tables.index key
          ≡ (if is_delete (lookup key ops) then none else view w.pg.tables.index key)
      records =
          unfold view in ground (arith, gone.indexed key, sort_ops-deletes conf ops key small d)
