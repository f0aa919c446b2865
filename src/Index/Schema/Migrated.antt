-- ===== src/Index/Schema/Migrated.antt =====
-- `migrate` of index.go brings any earlier schema up to date.
use go_ds_s3_walrus.Common.{String, true, ◌≡◌, refl, [], contains, arith, eq_iff, str_eq}
use go_ds_s3_walrus.Common.Result.{ok}
use go_ds_s3_walrus.Index.Schema.{
  Catalogue, column_names, Server, exec_all, index_columns, staging_columns, staging_table,
  migration, migrate,
}
use go_ds_s3_walrus.Index.Schema.Columns.{has_column, Usable}
use go_ds_s3_walrus.Index.Schema.Traces.{
  Trace, Fits-Trace, Trace-exec_all, Trace-added, Trace-Usable, Trace-created, adds, some_of,
}
use go_ds_s3_walrus.Index.Schema.Versions.{
  IsEarlier, IsCurrent, staging-apart, staging-apart-flip, migration-Fits,
}

-- What a run of the statements makes of an earlier schema.
module _ (table : String) (c c' : Catalogue) (trace : Trace (migration table) c c') where
  kept_column :
      (n : String)
      → contains (column_names index_columns) n ≡ true
      → Usable table n c
      → has_column table n c' ≡ true
  unfolding migration
  kept_column n h =
      Trace-created table n trace (ground (arith, h, staging-apart table))
        (ground (arith, eq_iff table table))

  staged_column :
      (n : String)
      → contains (column_names staging_columns) n ≡ true
      → Usable (staging_table table) n c
      → has_column (staging_table table) n c' ≡ true
  unfolding migration
  staged_column n h =
      Trace-created (staging_table table) n trace (ground (arith, h, staging-apart-flip table))
        (ground (arith, eq_iff (staging_table table) (staging_table table)))

  added_column :
      (n : String) → some_of (adds table n) (migration table) ≡ true → has_column table n c' ≡ true
  added_column n h = Trace-added table n trace h

  Trace-IsCurrent : IsEarlier table c → IsCurrent table c'
  unfolding migration
  Trace-IsCurrent old =
      let same : str_eq table table ≡ true = (eq_iff table table).1 refl in
      let i = old.index in
      let s = old.staging in
      record {
        index = (
          kept_column "key" refl i.0,
          (
            kept_column "blob_id" refl i.1.0,
            (
              added_column "object_id" (rw same refl),
              (
                added_column "patch_id" (rw same refl),
                (
                  added_column "blob_offset" (rw same refl),
                  (
                    kept_column "size" refl i.1.1.0,
                    (
                      added_column "encoded_size" (rw same refl),
                      (
                        added_column "cost" (rw same refl),
                        (
                          kept_column "deletable" refl i.1.1.1.0,
                          (
                            kept_column "end_epoch" refl i.1.1.1.1.0,
                            (
                              kept_column "expires_at" refl i.1.1.1.1.1.0,
                              (
                                kept_column "created_at" refl i.1.1.1.1.1.1.0,
                                (kept_column "updated_at" refl i.1.1.1.1.1.1.1.0, tt),
                              ),
                            ),
                          ),
                        ),
                      ),
                    ),
                  ),
                ),
              ),
            ),
          ),
        );
        staging = (
          staged_column "key" refl s.0,
          (
            staged_column "value" refl s.1.0,
            (
              staged_column "size" refl s.1.1.0,
              (
                staged_column "created_at" refl s.1.1.1.0,
                (staged_column "leased_until" refl s.1.1.1.1.0, tt),
              ),
            ),
          ),
        );
      }

-- After a failure the schema is still one that `migrate` can bring up to date.
Trace-IsEarlier :
    (table : String) (s : Server) (c' : Catalogue)
    → Trace (migration table) s.catalogue c'
    → IsEarlier table s.catalogue
    → IsEarlier table (exec_all (migration table) s).1.catalogue
Trace-IsEarlier table s c' trace old =
    let i = old.index in
    let j = old.staging in
    record {
      index = (
        u "key" refl i.0,
        (
          u "blob_id" refl i.1.0,
          (
            u "size" refl i.1.1.0,
            (
              u "deletable" refl i.1.1.1.0,
              (
                u "end_epoch" refl i.1.1.1.1.0,
                (
                  u "expires_at" refl i.1.1.1.1.1.0,
                  (
                    u "created_at" refl i.1.1.1.1.1.1.0,
                    (u "updated_at" refl i.1.1.1.1.1.1.1.0, tt),
                  ),
                ),
              ),
            ),
          ),
        ),
      );
      staging = (
        v "key" refl j.0,
        (
          v "value" refl j.1.0,
          (
            v "size" refl j.1.1.0,
            (v "created_at" refl j.1.1.1.0, (v "leased_until" refl j.1.1.1.1.0, tt)),
          ),
        ),
      );
    }
  where
    u :
        (n : String)
        → contains (column_names index_columns) n ≡ true
        → Usable table n s.catalogue
        → Usable table n (exec_all (migration table) s).1.catalogue
    u n h =
        unfold migration in
        Trace-Usable s table n trace refl (ground (arith, h, staging-apart table))

    v :
        (n : String)
        → contains (column_names staging_columns) n ≡ true
        → Usable (staging_table table) n s.catalogue
        → Usable (staging_table table) n (exec_all (migration table) s).1.catalogue
    v n h =
        unfold migration in
        Trace-Usable s (staging_table table) n trace refl
          (ground (arith, h, staging-apart-flip table))

-- `migrate` on a schema of any earlier version, or none: without database faults it succeeds; whenever it
-- succeeds, the tables have every column that the statements of index.go use; and when it fails, the schema is still
-- one of these, so that a later attempt can succeed.
pub migrate-IsCurrent :
    (table : String) (s : Server)
    → IsEarlier table s.catalogue
    → ((migrate table s).0 ≡ ok tt → IsCurrent table (migrate table s).1.catalogue)
      × (s.outcomes ≡ [] → (migrate table s).0 ≡ ok tt)
      × IsEarlier table (migrate table s).1.catalogue
unfolding migrate
migrate-IsCurrent table s old =
    let (c', trace) =
      Fits-Trace (migration table) s.catalogue (migration-Fits table s.catalogue old) in
    let (good, calm) = Trace-exec_all s trace refl in
    (
      λ h. rw (good h) (Trace-IsCurrent table s.catalogue c' trace old),
      calm,
      Trace-IsEarlier table s c' trace old,
    )
