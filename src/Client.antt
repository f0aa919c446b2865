-- ===== src/Client.antt =====
-- client.go: the results of the Walrus client, and the client as the datastore uses it.
pub mod Backoff
pub mod Retry
pub mod Responses
pub mod Parsing
pub mod Calls
pub mod Ranges
pub mod Multipart
pub mod Open
use go_ds_s3_walrus.Common.{ℕ, String, Bool, List}
use go_ds_s3_walrus.Common.Int.{ℤ}
use go_ds_s3_walrus.Common.Result.{Exec}
use go_ds_s3_walrus.Index.{Bytes}

pub record StoreResult : Type 0 where
  pub blob_id : String
  pub object_id : String
  pub end_epoch : ℕ
  pub encoded_size : ℤ
  pub cost : ℕ

pub record QuiltPart : Type 0 where
  pub identifier : String
  pub content : Bytes

pub record QuiltPatch : Type 0 where
  pub identifier : String
  pub quilt_patch_id : String

pub record QuiltStoreResult : Type 0 where
  pub quilt_id : String
  pub object_id : String
  pub end_epoch : ℕ
  pub encoded_size : ℤ
  pub cost : ℕ
  pub patches : List QuiltPatch

-- The methods of `Client` that the datastore calls, over a state `N`: the client's blob cache with
-- the publishers and aggregators behind it.
pub record WalrusClient (N : Type 0) : Type 0 where
  pub store : Bytes → ℤ → Bool → Exec N StoreResult
  pub store_quilt : List QuiltPart → ℤ → Bool → Exec N QuiltStoreResult
  pub read : String → Exec N Bytes
  pub read_range : String → ℤ → ℤ → Exec N Bytes
  pub read_quilt_patch : String → Exec N Bytes
