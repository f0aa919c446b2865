-- ===== src/Tests/Renewals.antt =====
-- The renewal of a blob of two blocks, and a configuration that is completed.
use go_ds_s3_walrus.Index.Write.{
  from_row, put_many_tx, put_many_loop, put_many, promote_staged, present, live_records,
  insert_rows,
}
use go_ds_s3_walrus.Index.Stage.{stage_get}
use go_ds_s3_walrus.Common.{false, ◌≡◌, refl, some, [], ◌∷◌, arith, str_eq, Bool-cases, inl, inr}
use go_ds_s3_walrus.Common.Int.{pos}
use go_ds_s3_walrus.Common.Assoc.{lookup}
use go_ds_s3_walrus.Common.Result.{ok}
use go_ds_s3_walrus.Index.{Bytes, StageEntry, StageRow}
use go_ds_s3_walrus.Index.Postgres.{query}
use go_ds_s3_walrus.Datastore.{Config, World}
use go_ds_s3_walrus.Datastore.Store.{read_record, get}
use go_ds_s3_walrus.Datastore.Answers.{calm}
use go_ds_s3_walrus.Common.Int.{negsuc}
use go_ds_s3_walrus.Index.{Row}
use go_ds_s3_walrus.Index.Write.{to_row}
use go_ds_s3_walrus.Datastore.Construct.{checked, with_defaults, IsReady, checked-IsReady}
use go_ds_s3_walrus.Renewal.{renew_blob}
use go_ds_s3_walrus.Renewal.Kept.{IsWithin, get-renew_blob}
use go_ds_s3_walrus.Tests.Toy.{toy, toy-IsWalrus}
use go_ds_s3_walrus.Tests.Datastores.{conf}

-- A blob of two blocks, and the rows of the index in it.
abbrev packed : Row
packed = to_row 3 3 (record {
  blob_id = "110";
  object_id = "object";
  patch_id = "";
  offset = pos 0;
  size = pos 1;
  encoded_size = pos 66034000;
  cost = 5;
  deletable = false;
  end_epoch = 7;
  expires_at = some 9;
})

abbrev one_indexed : World (Unit {0})
one_indexed = record {
  pg = record {
    tables = record { index = ("c", packed) ∷ []; staging = [] };
    now = 5;
    outcomes = [];
  };
  net = tt;
  kicked = false;
  clock = 5;
}

blob_content : (toy.read "110" tt).0 ≡ ok (2 ∷ [])
unfolding toy
blob_content = refl

packed-IsWithin :
    (content : Bytes)
    → (toy.read "110" one_indexed.net).0 ≡ ok content
    → IsWithin "110" content one_indexed.pg.tables
unfolding toy lookup to_row
packed-IsWithin content h =
    let shape : content ≡ (2 ∷ []) = cc (h, blob_content) in
    rw shape (record {
      within = λ key row found id patch. elim (Bool-cases (str_eq "c" key)) [
        | inl mine ↦
            let here : row ≡ packed = cc (rw mine at found) in
            rw here (0, 1, refl, refl, omega arith)
        | inr other ↦ absurd (cc (rw other at found))
      ];
    })

read_indexed : (get toy "c" (calm one_indexed)).0 ≡ ok (2 ∷ [])
unfolding get stage_get query lookup go_ds_s3_walrus.Index.Write.get read_record from_row to_row toy
read_indexed = refl

get-renew_blob_example :
    (get toy "c" (calm (renew_blob toy "110" (pos 53) false (pos 0) (pos 1000) one_indexed).1)).0
    ≡ ok (2 ∷ [])
get-renew_blob_example =
    get-renew_blob toy toy-IsWalrus "110" (pos 53) false (pos 0) (pos 1000) one_indexed "c" (2 ∷ [])
      packed-IsWithin read_indexed

abbrev unset : Config
unset = record conf {
  n_shards = pos 0;
  workers = pos 0;
  max_retries = pos 0;
  pack_target_size = negsuc 0;
}

unset_ready : checked unset ≡ ok (with_defaults unset)
unfolding checked
unset_ready = refl

-- A number of retries that is not set stays zero.
unset_retries : (with_defaults unset).max_retries ≡ pos 0
unfolding with_defaults
unset_retries = refl

checked-IsReady_example :
    IsReady (with_defaults unset) × (checked (with_defaults unset) ≡ ok (with_defaults unset))
checked-IsReady_example = checked-IsReady unset (with_defaults unset) unset_ready
