-- ===== src/Index.antt =====
-- index.go: the records of the index and the two tables of Postgres.
pub mod Postgres
pub mod Distinct
pub mod Chunks
pub mod Write
pub mod Stage
pub mod Schema
pub mod Faultless
pub mod Rearranged
pub mod Present
pub mod View
pub mod Atomic
pub mod Promote
pub mod Moves
pub mod Staging
pub mod Sound
pub mod Known
pub mod Overlap
pub mod Primary
pub mod Listing
pub mod Listed
pub mod Sizes
pub mod Claims
pub mod Packs
use go_ds_s3_walrus.Common.{ℕ, Bool, String, List, Option}
use go_ds_s3_walrus.Common.Int.{ℤ}
use go_ds_s3_walrus.Common.Assoc.{Assoc}

abbrev pub Bytes : Type 0
Bytes = List ℕ

-- `Record`. A time is a number, and `sql.NullTime` an `Option` of one.
pub record Record : Type 0 where
  pub blob_id : String
  pub object_id : String
  pub patch_id : String
  pub offset : ℤ
  pub size : ℤ
  pub encoded_size : ℤ
  pub cost : ℕ
  pub deletable : Bool
  pub end_epoch : ℕ
  pub expires_at : Option ℕ

pub record KeyRecord : Type 0 where
  pub key : String
  pub rec : Record

pub record ListItem : Type 0 where
  pub key : String
  pub size : ℤ

pub record RenewItem : Type 0 where
  pub blob_id : String

pub record StageEntry : Type 0 where
  pub key : String
  pub value : Bytes

pub record StageStats : Type 0 where
  pub count : ℤ
  pub bytes : ℤ
  pub oldest : Option ℕ
  pub newest : Option ℕ

-- A row of the index table behind its primary key. The two `uint64` columns are signed BIGINTs.
pub record Row : Type 0 where
  pub blob_id : String
  pub object_id : String
  pub patch_id : String
  pub blob_offset : ℤ
  pub size : ℤ
  pub encoded_size : ℤ
  pub cost : ℤ
  pub deletable : Bool
  pub end_epoch : ℤ
  pub expires_at : Option ℕ
  pub created_at : ℕ
  pub updated_at : ℕ

-- A row of the staging table behind its primary key.
pub record StageRow : Type 0 where
  pub value : Bytes
  pub size : ℤ
  pub created_at : ℕ
  pub leased_until : Option ℕ

pub record Tables : Type 0 where
  pub index : Assoc Row
  pub staging : Assoc StageRow
