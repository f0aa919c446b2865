-- ===== src/Tests/Commits.antt =====
-- A batch of a put and a deletion.
use go_ds_s3_walrus.Index.Write.{delete_many}
use go_ds_s3_walrus.Index.Stage.{stage_put_many, stage_put_loop, insert_staged}
use go_ds_s3_walrus.Index.Postgres.{transaction, statement}
use go_ds_s3_walrus.Common.{true, ◌≡◌, refl, [], ◌∷◌}
use go_ds_s3_walrus.Common.Assoc.{lookup}
use go_ds_s3_walrus.Common.Result.{ok, err, not_found}
use go_ds_s3_walrus.Index.Distinct.{distinct}
use go_ds_s3_walrus.Datastore.Store.{
  sort_ops, kick_flusher, is_oversize, commit_steps, attempt_all, get, commit, Batch, put_op,
  delete_op,
}
use go_ds_s3_walrus.Datastore.Answers.{calm}
use go_ds_s3_walrus.Datastore.Commit.{get-commit}
use go_ds_s3_walrus.Datastore.Batched.{batch_keys, IsSmall}
use go_ds_s3_walrus.Tests.Toy.{toy}
use go_ds_s3_walrus.Tests.Datastores.{conf, two_staged}

abbrev small_batch : Batch
small_batch = ("c", put_op (7 ∷ 8 ∷ [])) ∷ ("b", delete_op) ∷ []

small_batch-IsSmall : IsSmall conf small_batch
unfolding is_oversize
small_batch-IsSmall = (refl, tt)

small_batch_keys : distinct (batch_keys small_batch) ≡ true
small_batch_keys = refl

committed : (commit toy conf small_batch two_staged).0 ≡ ok tt
unfolding commit attempt_all commit_steps stage_put_many sort_ops is_oversize transaction
    stage_put_loop statement insert_staged delete_many kick_flusher
committed = refl

get-commit_example :
    (get toy "b" (calm (commit toy conf small_batch two_staged).1)).0 ≡ err not_found
unfolding lookup
get-commit_example =
    get-commit toy conf small_batch two_staged "b" small_batch-IsSmall small_batch_keys committed
