-- ===== src/Index/Schema.antt =====
-- The tables of index.go and their creation: `migrate` and `newPostgresIndex`. Postgres is not part of the source: a
-- statement's effect on the catalogue is what its SQL says.
pub mod Columns
pub mod Traces
pub mod Versions
pub mod Migrated
use go_ds_s3_walrus.Common.{
  ℕ, String, Bool, true, false, ◌&&◌, Option, none, some, List, [], ◌∷◌, ◌++◌, map, contains,
  str_eq, if◌then◌else◌,
}
use go_ds_s3_walrus.Common.Int.{ℤ, pos, leb_ℤ, ltb_ℤ}
use go_ds_s3_walrus.Common.Assoc.{Assoc, lookup, insert}
use go_ds_s3_walrus.Common.Result.{
  Error, failure, wrapped, Result, ok, err, Exec, pure, raise, handle, ◌>>=◌, ◌>>◌,
}
use go_ds_s3_walrus.Index.Postgres.{Outcome, answered, refused, lost, head_outcome, tail_outcomes}
use go_ds_s3_walrus.Common.Texts.{append}

pub data SqlType : Type 0 where
  text bytea bigint boolean timestamptz : SqlType

-- A column: its name, its type, whether it is NOT NULL, and its DEFAULT.
pub record Column : Type 0 where
  pub name : String
  pub type : SqlType
  pub is_required : Bool
  pub fallback : Option String

-- A table has the key as its primary key, and its columns.
pub record Catalogue : Type 0 where
  pub tables : Assoc (List Column)
  pub indexes : List String

-- The three forms of statement, each with IF NOT EXISTS.
pub data Ddl : Type 0 where
  create_table : String → List Column → Ddl
  add_column : String → Column → Ddl
  create_index : String → String → String → Ddl

abbrev pub column_names : List Column → List String
column_names = map (λ c. c.name)

abbrev pub put_index : String → List String → List String
put_index name names = if contains names name then names else name ∷ names

-- A column is added to a table that lacks it. (Each that is added has a default for the rows that are there, or allows
-- NULL.)
abbrev pub with_column : String → Column → Catalogue → List Column → Catalogue
with_column table col c cols =
    if contains (column_names cols) col.name
    then c
    else record c { tables = insert table (cols ++ col ∷ []) c.tables }

-- An index is made of a column that is there.
abbrev pub with_index : String → String → Catalogue → List Column → Option Catalogue
with_index name col c cols =
    if contains (column_names cols) col
    then some (record c { indexes = put_index name c.indexes })
    else none

abbrev pub on_table :
    {A : Type 0} → Option (List Column) → (List Column → Option A) → Option A → Option A
on_table none f a = a
on_table (some cols) f a = f cols

-- What a statement does; `none` is an error of the statement, such as a table that is missing.
unfoldable pub run_ddl : Ddl → Catalogue → Option Catalogue
run_ddl (create_table table cols) c =
    on_table (lookup table c.tables) (λ _. some c)
      (some (record c { tables = insert table cols c.tables }))
run_ddl (add_column table col) c =
    on_table (lookup table c.tables) (λ cols. some (with_column table col c cols)) none
run_ddl (create_index name table col) c =
    on_table (lookup table c.tables) (λ cols. with_index name col c cols) none

-- The server, with the script of its answers.
pub record Server : Type 0 where
  pub catalogue : Catalogue
  pub outcomes : List Outcome

abbrev pub settled : Server → Outcome → Option Catalogue → Result (Unit {0}) × Server
settled s answered (some c) = (ok tt, record { catalogue = c; outcomes = tail_outcomes s.outcomes })
settled s lost (some c) =
    (err (failure "exec"), record { catalogue = c; outcomes = tail_outcomes s.outcomes })
settled s _ _ = (err (failure "exec"), record s { outcomes = tail_outcomes s.outcomes })

unfoldable pub exec_ddl : Ddl → Exec Server (Unit {0})
unfolding head_outcome tail_outcomes run_ddl
exec_ddl d s = settled s (head_outcome s.outcomes) (run_ddl d s.catalogue)

abbrev required : String → SqlType → Column
required n t = record { name = n; type = t; is_required = true; fallback = none }

abbrev defaulted : String → SqlType → String → Column
defaulted n t d = record { name = n; type = t; is_required = true; fallback = some d }

abbrev optional : String → SqlType → Column
optional n t = record { name = n; type = t; is_required = false; fallback = none }

abbrev pub index_columns : List Column
index_columns =
    required "key" text
    ∷ required "blob_id" text
    ∷ defaulted "object_id" text "''"
    ∷ defaulted "patch_id" text "''"
    ∷ defaulted "blob_offset" bigint "0"
    ∷ required "size" bigint
    ∷ defaulted "encoded_size" bigint "0"
    ∷ defaulted "cost" bigint "0"
    ∷ defaulted "deletable" boolean "FALSE"
    ∷ defaulted "end_epoch" bigint "0"
    ∷ optional "expires_at" timestamptz
    ∷ defaulted "created_at" timestamptz "now()"
    ∷ defaulted "updated_at" timestamptz "now()"
    ∷ []

abbrev pub staging_columns : List Column
staging_columns =
    required "key" text
    ∷ required "value" bytea
    ∷ required "size" bigint
    ∷ defaulted "created_at" timestamptz "now()"
    ∷ optional "leased_until" timestamptz
    ∷ []

unfoldable pub staging_table : String → String
staging_table table = append table "_staging"

-- The statements of `migrate`, in order.
unfoldable pub migration : String → List Ddl
unfolding staging_table
migration table =
    create_table table index_columns
    ∷ add_column table (defaulted "blob_offset" bigint "0")
    ∷ add_column table (defaulted "patch_id" text "''")
    ∷ add_column table (defaulted "object_id" text "''")
    ∷ add_column table (defaulted "encoded_size" bigint "0")
    ∷ add_column table (defaulted "cost" bigint "0")
    ∷ create_index (append table "_key_prefix_idx") table "key"
    ∷ create_index (append table "_expires_at_idx") table "expires_at"
    ∷ create_index (append table "_blob_id_idx") table "blob_id"
    ∷ create_table (staging_table table) staging_columns
    ∷ create_index (append (staging_table table) "_created_idx") (staging_table table) "created_at"
    ∷ []

unfoldable pub exec_all : List Ddl → Exec Server (Unit {0})
exec_all [] = pure tt
exec_all (d ∷ ds) =
    handle (exec_ddl d) (λ _. exec_all ds) (λ x. raise (wrapped "migrating index" x))

unfoldable pub migrate : String → Exec Server (Unit {0})
migrate table = exec_all (migration table)

-- The connection pool: its bound, and how many connections stay open when idle.
pub record PostgresIndex : Type 0 where
  pub table : String
  pub max_open_conns : ℤ
  pub max_idle_conns : ℤ

abbrev pub or_index : String → String
or_index table = if str_eq table "" then "walrus_index" else table

-- `newPostgresIndex`: `connect` is `sql.Open`, and `ping` the first round trip.
unfoldable pub new_postgres_index :
    (connect ping : Exec Server (Unit {0})) → String → ℤ → Exec Server PostgresIndex
new_postgres_index connect ping table max_open_conns =
    let name = or_index table in
    let conns = if leb_ℤ max_open_conns (pos 0) then pos 32 else max_open_conns in
    let idle = if ltb_ℤ (pos 16) conns then pos 16 else conns in
    handle connect
      (λ _.
        handle ping
          (λ _. do
            migrate name
            pure (record { table = name; max_open_conns = conns; max_idle_conns = idle }))
          (λ x. raise (wrapped "connecting to postgres" x)))
      (λ x. raise (wrapped "opening postgres" x))
