-- ===== src/Tests/Opens.antt =====
-- A database of the first version, and a datastore that is opened on it.
use go_ds_s3_walrus.Common.{String, true, ◌≡◌, refl, none, [], ◌∷◌, inl, inr}
use go_ds_s3_walrus.Common.Assoc.{lookup}
use go_ds_s3_walrus.Common.Texts.{append}
use go_ds_s3_walrus.Common.Result.{ok, Exec, pure}
use go_ds_s3_walrus.Index.Schema.{Column, Server, text, staging_table, migrate}
use go_ds_s3_walrus.Index.Schema.Migrated.{migrate-IsCurrent}
use go_ds_s3_walrus.Index.Schema.Versions.{IsEarlier, IsCurrent}
use go_ds_s3_walrus.Common.Int.{pos}
use go_ds_s3_walrus.Common.Assoc.{insert}
use go_ds_s3_walrus.Index.Postgres.{head_outcome, tail_outcomes}
use go_ds_s3_walrus.Index.Schema.{new_postgres_index, migration, exec_all, exec_ddl, run_ddl}
use go_ds_s3_walrus.Client.Open.{new_client}
use go_ds_s3_walrus.Datastore.Construct.{checked, with_defaults}
use go_ds_s3_walrus.Datastore.Open.{Datastore, started, client_config, new_walrus_datastore}
use go_ds_s3_walrus.Datastore.Opened.{IsOpened, new_walrus_datastore-IsOpened}
use go_ds_s3_walrus.Tests.Datastores.{conf}

abbrev column : String → Column
column name = record { name = name; type = text; is_required = true; fallback = none }

abbrev first_version : Server
first_version = record {
  catalogue = record {
    tables =
        (
          "walrus_index",
          column "key"
              ∷ column "blob_id"
              ∷ column "size"
              ∷ column "deletable"
              ∷ column "end_epoch"
              ∷ column "expires_at"
              ∷ column "created_at"
              ∷ column "updated_at"
              ∷ [],
        )
        ∷ [];
    indexes = [];
  };
  outcomes = [];
}

first_version-IsEarlier : IsEarlier "walrus_index" first_version.catalogue
unfolding lookup staging_table append
first_version-IsEarlier = record {
  index = (
    inr refl,
    (inr refl, (inr refl, (inr refl, (inr refl, (inr refl, (inr refl, (inr refl, tt))))))),
  );
  staging = (inl refl, (inl refl, (inl refl, (inl refl, (inl refl, tt)))));
}

migrate-IsCurrent_example :
    ((migrate "walrus_index" first_version).0 ≡ ok tt
      → IsCurrent "walrus_index" (migrate "walrus_index" first_version).1.catalogue)
    × (first_version.outcomes ≡ [] → (migrate "walrus_index" first_version).0 ≡ ok tt)
    × IsEarlier "walrus_index" (migrate "walrus_index" first_version).1.catalogue
migrate-IsCurrent_example = migrate-IsCurrent "walrus_index" first_version first_version-IsEarlier

abbrev reachable : Exec Server (Unit {0})
reachable = pure tt

abbrev the_datastore : Datastore
the_datastore =
    started (with_defaults conf)
      (record { table = "walrus_index"; max_open_conns = pos 10; max_idle_conns = pos 10 })
      (new_client (client_config (with_defaults conf)))

opens : (new_walrus_datastore reachable reachable conf first_version).0 ≡ ok the_datastore
unfolding new_walrus_datastore checked with_defaults new_postgres_index migrate migration exec_all
    exec_ddl run_ddl head_outcome tail_outcomes lookup insert append staging_table
opens = refl

new_walrus_datastore-IsOpened_example :
    IsOpened the_datastore (new_walrus_datastore reachable reachable conf first_version).1
new_walrus_datastore-IsOpened_example =
    new_walrus_datastore-IsOpened reachable reachable (λ s. refl) (λ s. refl) conf the_datastore
      first_version first_version-IsEarlier opens
