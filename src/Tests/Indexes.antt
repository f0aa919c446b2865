-- ===== src/Tests/Indexes.antt =====
-- Promotion and deletion on a small database.
use go_ds_s3_walrus.Common.Assoc.{remove_all, lookup, insert}
use go_ds_s3_walrus.Common.{
  ℕ, String, false, ◌≡◌, ◌⊎◌, true, refl, none, some, List, [], ◌∷◌, arith, All,
}
use go_ds_s3_walrus.Common.Int.{pos}
use go_ds_s3_walrus.Common.Result.{ok}
use go_ds_s3_walrus.Index.{Record, KeyRecord, StageRow}
use go_ds_s3_walrus.Index.Postgres.{transaction, statement, Pg, answered, lost}
use go_ds_s3_walrus.Index.Write.{
  upsert, put_many_tx, put_many_loop, present, live_records, insert_rows, promote_staged,
  delete_many, keys_of, to_row,
}
use go_ds_s3_walrus.Index.Distinct.{distinct}
use go_ds_s3_walrus.Index.View.{IsWord}
use go_ds_s3_walrus.Index.Moves.{
  IsPromoted, IsDeleted, promote_staged-IsPromoted, delete_many-IsDeleted,
}

abbrev stored_at : String → Record
stored_at id = record {
  blob_id = id;
  object_id = "object";
  patch_id = "";
  offset = pos 0;
  size = pos 2;
  encoded_size = pos 66034000;
  cost = 5;
  deletable = false;
  end_epoch = 7;
  expires_at = none;
}

abbrev two_records : List KeyRecord
two_records =
    record { key = "a"; rec = stored_at "blob" } ∷ record { key = "b"; rec = stored_at "blob" } ∷ []

two_records-IsWord : All (λ kr. IsWord kr.rec) two_records
two_records-IsWord = (
  record { cost = omega arith; end_epoch = omega arith },
  (record { cost = omega arith; end_epoch = omega arith }, tt),
)

abbrev staged : List ℕ → StageRow
staged v = record { value = v; size = pos 2; created_at = 3; leased_until = some 9 }

-- "a" is staged and "c" is, "b" was deleted meanwhile; the commit's answer is lost.
abbrev lossy : Pg
lossy = record {
  tables = record {
    index = [];
    staging = ("a", staged (1 ∷ 2 ∷ [])) ∷ ("c", staged (3 ∷ 4 ∷ [])) ∷ [];
  };
  now = 5;
  outcomes = answered ∷ answered ∷ answered ∷ lost ∷ [];
}

promote_staged-lossy : (promote_staged two_records lossy).1.tables ≡ record {
  index = ("a", to_row 5 5 (stored_at "blob")) ∷ [];
  staging = ("c", staged (3 ∷ 4 ∷ [])) ∷ [];
}
unfolding promote_staged transaction statement live_records present put_many_tx put_many_loop
    insert_rows upsert remove_all insert lookup
promote_staged-lossy = refl

promote_staged-IsPromoted_example :
    (((promote_staged two_records lossy).1.tables ≡ lossy.tables)
      ⊎ IsPromoted two_records lossy.tables (promote_staged two_records lossy).1.tables)
    × ((promote_staged two_records lossy).0 ≡ ok tt
        → IsPromoted two_records lossy.tables (promote_staged two_records lossy).1.tables)
    × (lossy.outcomes ≡ []
        → distinct (keys_of two_records) ≡ true
        → (promote_staged two_records lossy).0 ≡ ok tt)
promote_staged-IsPromoted_example = promote_staged-IsPromoted two_records lossy two_records-IsWord

delete_many-IsDeleted_example :
    (((delete_many ("a" ∷ "b" ∷ []) lossy).1.tables ≡ lossy.tables)
      ⊎ IsDeleted ("a" ∷ "b" ∷ []) lossy.tables (delete_many ("a" ∷ "b" ∷ []) lossy).1.tables)
    × ((delete_many ("a" ∷ "b" ∷ []) lossy).0 ≡ ok tt
        → IsDeleted ("a" ∷ "b" ∷ []) lossy.tables (delete_many ("a" ∷ "b" ∷ []) lossy).1.tables)
    × (lossy.outcomes ≡ [] → (delete_many ("a" ∷ "b" ∷ []) lossy).0 ≡ ok tt)
delete_many-IsDeleted_example = delete_many-IsDeleted ("a" ∷ "b" ∷ []) lossy
