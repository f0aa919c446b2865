-- ===== src/Datastore.antt =====
-- walrus.go: the configuration and the state of `WalrusDatastore`.
pub mod Upload
pub mod Store
pub mod Flush
pub mod Walrus
pub mod Identified
pub mod Located
pub mod Uploads
pub mod Answers
pub mod Transparent
pub mod Methods
pub mod Shadow
pub mod Construct
pub mod Open
pub mod Opened
pub mod System
pub mod Quiet
pub mod Shrinks
pub mod Stops
pub mod Drain
pub mod Batched
pub mod Commit
pub mod Listing
pub mod Values
pub mod Named
use go_ds_s3_walrus.Common.{ℕ, String, Bool, List}
use go_ds_s3_walrus.Common.Int.{ℤ}
use go_ds_s3_walrus.Common.Result.{Result, Exec}
use go_ds_s3_walrus.Index.{Bytes}
use go_ds_s3_walrus.Index.Postgres.{Pg}

-- `Config`. Durations are nanoseconds.
pub record Config : Type 0 where
  pub publisher_urls : List String
  pub aggregator_urls : List String
  pub postgres_url : String
  pub table : String
  pub epochs : ℤ
  pub n_shards : ℤ
  pub deletable : Bool
  pub workers : ℤ
  pub max_open_conns : ℤ
  pub pack_target_size : ℤ
  pub disable_quilt : Bool
  pub pack_max_age : ℤ
  pub pack_idle_flush : ℤ
  pub pack_flush_interval : ℤ
  pub blob_cache_bytes : ℤ
  pub request_timeout : ℤ
  pub max_retries : ℤ
  pub epoch_duration : ℤ
  pub renew_interval : ℤ
  pub renew_lead : ℤ

-- The database, the client with the network behind it, and whether `flushKick`, a channel with room
-- for one item, is full; and the clock of the node, which is not that of the database server.
pub record World (N : Type 0) : Type 0 where
  pub pg : Pg
  pub net : N
  pub kicked : Bool
  pub clock : ℕ

pub record BlockEntry : Type 0 where
  pub key : String
  pub val : Bytes

-- A call of the index, and a call of the client.
module _ {N A : Type 0} where
  abbrev pub on_index : Exec Pg A → Exec (World N) A
  on_index m w = let (r, p) = m w.pg in (r, record w { pg = p })

  abbrev pub on_client : Exec N A → Exec (World N) A
  on_client m w = let (r, n) = m w.net in (r, record w { net = n })
