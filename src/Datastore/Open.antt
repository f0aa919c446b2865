-- ===== src/Datastore/Open.antt =====
-- `NewWalrusDatastore` of walrus.go, from the checked configuration on: the index, the client, and the workers.
use go_ds_s3_walrus.Common.{◌&&◌, if◌then◌else◌}
use go_ds_s3_walrus.Common.Int.{ℤ, pos, pos_part, leb_ℤ, ltb_ℤ}
use go_ds_s3_walrus.Common.Result.{Result, ok, err, Exec, raise, pure, ◌>>=◌}
use go_ds_s3_walrus.Cache.{BlobCache}
use go_ds_s3_walrus.Client.Calls.{Client}
use go_ds_s3_walrus.Client.Open.{ClientConfig, new_client}
use go_ds_s3_walrus.Common.{Option, none, some}
use go_ds_s3_walrus.Index.Schema.{Server, PostgresIndex, new_postgres_index}
use go_ds_s3_walrus.Datastore.{Config}
use go_ds_s3_walrus.Datastore.Construct.{checked, cache_bytes}

-- How far ahead of the expiry the renewal worker looks.
unfoldable pub renewal_lead : Config → ℤ
renewal_lead conf = if leb_ℤ conf.renew_lead (pos 0) then conf.epoch_duration else conf.renew_lead

-- `WalrusDatastore`, and which workers are started: the flusher always, the renewal with its lead.
pub record Datastore : Type 0 where
  pub conf : Config
  pub client : Client
  pub cache : Option BlobCache
  pub index : PostgresIndex
  pub renewal : Option ℤ

abbrev pub client_config : Config → ClientConfig
client_config conf = record {
  publisher_urls = conf.publisher_urls;
  aggregator_urls = conf.aggregator_urls;
  max_retries = pos_part conf.max_retries;
  blob_cache_bytes = cache_bytes conf;
}

abbrev pub started : Config → PostgresIndex → Client × Option BlobCache → Datastore
started conf index (client, cache) = record {
  conf = conf;
  client = client;
  cache = cache;
  index = index;
  renewal =
      if ltb_ℤ (pos 0) conf.renew_interval && ltb_ℤ (pos 0) conf.epoch_duration
      then some (renewal_lead conf)
      else none;
}

abbrev pub opened : (connect ping : Exec Server (Unit {0})) → Result Config → Exec Server Datastore
opened connect ping (err e) = raise e
opened connect ping (ok conf) = do
  index ← new_postgres_index connect ping conf.table conf.max_open_conns
  pure (started conf index (new_client (client_config conf)))

unfoldable pub new_walrus_datastore :
    (connect ping : Exec Server (Unit {0})) → Config → Exec Server Datastore
unfolding renewal_lead
new_walrus_datastore connect ping conf = opened connect ping (checked conf)
