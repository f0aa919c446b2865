-- ===== src/Renewal.antt =====
-- renewal.go: blobs whose paid storage runs out are read and stored again.
pub mod Kept
use go_ds_s3_walrus.Common.{
  ℕ, String, Bool, Option, none, some, List, [], ◌∷◌, map, take, ltb, leb, str_eq, if◌then◌else◌,
  length,
}
use go_ds_s3_walrus.Common.Int.{ℤ, pos, leb_ℤ, ltb_ℤ, mul64}
use go_ds_s3_walrus.Common.Assoc.{Assoc}
use go_ds_s3_walrus.Common.Result.{cancelled, Exec, pure, raise, handle, ◌>>=◌}
use go_ds_s3_walrus.Encoding.{encoded_blob_length}
use go_ds_s3_walrus.Index.{Bytes, RenewItem, Row}
use go_ds_s3_walrus.Index.Postgres.{Pg, query}
use go_ds_s3_walrus.Index.Write.{Renewal, update_blob_after_renewal}
use go_ds_s3_walrus.Client.{StoreResult, WalrusClient}
use go_ds_s3_walrus.Datastore.{Config, World, on_index, on_client}
use go_ds_s3_walrus.Datastore.Upload.{add_duration, size_of}

unfoldable pub renewal_expiry : ℤ → ℤ → ℕ → Option ℕ
renewal_expiry epochs epoch_duration now =
    if ltb_ℤ (pos 0) epoch_duration
    then some (add_duration now (mul64 epochs epoch_duration))
    else none

-- What the index records of the renewed blob.
unfoldable pub renewal_of : ℤ → ℤ → ℤ → Bytes → ℕ → StoreResult → Renewal
unfolding renewal_expiry
renewal_of epochs epoch_duration n_shards content now res = record {
  new_blob_id = res.blob_id;
  new_object_id = res.object_id;
  encoded_size =
      if leb_ℤ res.encoded_size (pos 0)
      then encoded_blob_length (size_of content) n_shards
      else res.encoded_size;
  cost = res.cost;
  end_epoch = res.end_epoch;
  expires_at = renewal_expiry epochs epoch_duration now;
}

-- The rows that are due, by blob with the first expiry of its rows: GROUP BY blob_id, MIN(expires_at).
add_due : String → ℕ → Assoc ℕ → Assoc ℕ
add_due blob_id at [] = (blob_id, at) ∷ []
add_due blob_id at ((id, first) ∷ due) =
    let rest = (id, first) ∷ add_due blob_id at due in
    if str_eq id blob_id then (id, if ltb at first then at else first) ∷ due else rest

add_row : ℕ → Option ℕ → String → Assoc ℕ → Assoc ℕ
unfolding add_due
add_row before none blob_id due = due
add_row before (some at) blob_id due = if leb at before then add_due blob_id at due else due

due_blobs : ℕ → Assoc Row → Assoc ℕ
unfolding add_row
due_blobs before [] = []
due_blobs before ((key, row) ∷ t) = add_row before row.expires_at row.blob_id (due_blobs before t)

-- ORDER BY MIN(expires_at). (The order of blobs that expire at the same time is not fixed by it.)
insert_due : String → ℕ → Assoc ℕ → Assoc ℕ
insert_due id at [] = (id, at) ∷ []
insert_due id at ((id', at') ∷ due) =
    let rest = (id', at') ∷ insert_due id at due in
    if leb at at' then (id, at) ∷ (id', at') ∷ due else rest

soonest_first : Assoc ℕ → Assoc ℕ
unfolding insert_due
soonest_first [] = []
soonest_first ((id, at) ∷ due) = insert_due id at (soonest_first due)

unfoldable pub due_for_renewal : ℕ → ℕ → Exec Pg (List RenewItem)
unfolding due_blobs soonest_first
due_for_renewal before limit = query "querying renewals" (λ now t.
    map (λ e. record { blob_id = e.0 }) (take limit (soonest_first (due_blobs before t.index))))

abbrev pub renew_batch_size : ℕ
renew_batch_size = 256

module _ {N : Type 0} (client : WalrusClient N) where
  unfoldable pub renew_blob : String → ℤ → Bool → ℤ → ℤ → Exec (World N) (Unit {0})
  renew_blob blob_id epochs deletable epoch_duration n_shards w =
      handle (on_client (client.read blob_id))
        (λ content.
          handle (on_client (client.store content epochs deletable))
            (λ res. on_index (
              update_blob_after_renewal blob_id
                (renewal_of epochs epoch_duration n_shards content w.clock res)))
            (λ e. raise e))
        (λ e. raise e) w

  module _ (conf : Config) where
    unfoldable pub renew_one_blob : RenewItem → Exec (World N) (Unit {0})
    renew_one_blob it =
        renew_blob it.blob_id conf.epochs conf.deletable conf.epoch_duration conf.n_shards

    -- The loop over the items. The list says at each round whether the context is cancelled, and an
    -- error of one blob is only logged.
    unfoldable pub renew_items : List Bool → List RenewItem → Exec (World N) (Unit {0})
    renew_items ctx [] = pure tt
    renew_items [] (it ∷ items) =
        handle (renew_one_blob it) (λ _. renew_items [] items) (λ _. renew_items [] items)
    renew_items (stop ∷ ctx) (it ∷ items) =
        let rest =
          handle (renew_one_blob it) (λ _. renew_items ctx items) (λ _. renew_items ctx items) in
        if stop then raise cancelled else rest

    unfoldable pub renew_expiring : List Bool → ℤ → Exec (World N) (Unit {0})
    renew_expiring ctx lead w =
        (do
          items ← on_index (due_for_renewal (add_duration w.clock lead) renew_batch_size)
          renew_items ctx items)
          w
