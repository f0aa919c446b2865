-- ===== src/Plugin.antt =====
-- plugin/walrusds.go: the configuration of the datastore out of the mount point's JSON map.
pub mod Urls
pub mod Parsing
pub mod Parsed
use go_ds_s3_walrus.Common.{
  String, Bool, true, false, not, Option, none, some, List, [], ◌∷◌, str_eq, if◌then◌else◌,
}
use go_ds_s3_walrus.Common.Int.{ℤ, pos, leb_ℤ, mul64}
use go_ds_s3_walrus.Common.Assoc.{Assoc, lookup}
use go_ds_s3_walrus.Common.Result.{Error, failure, Result, ok, err}
use go_ds_s3_walrus.Datastore.{Config}
use go_ds_s3_walrus.Datastore.Construct.{second}
use go_ds_s3_walrus.Plugin.Urls.{split_urls, join_commas}

-- The type `float64` of JSON numbers: the conversions `int(f)` and `float64(n)`, and `==`.
pub record Floats (F : Type 0) : Type 0 where
  pub to_int : F → ℤ
  pub of_int : ℤ → F
  pub same : F → F → Bool

-- An `interface{}` of a JSON map.
pub data Value (F : Type 0) : Type 0 where
  text : String → Value F
  boolean : Bool → Value F
  number : F → Value F
  other : Value F

-- `if err != nil { return nil, err }`.
unfoldable pub ◌>>=◌ {ℓ} : {A B : Type ℓ} → Result A → (A → Result B) → Result B
ok a >>= f = f a
err e >>= f = err e

infixl 5 ◌>>=◌
-- The zero value of `walrusds.Config`.
abbrev pub no_config : Config
no_config = record {
  publisher_urls = [];
  aggregator_urls = [];
  postgres_url = "";
  table = "";
  epochs = pos 0;
  n_shards = pos 0;
  deletable = false;
  workers = pos 0;
  max_open_conns = pos 0;
  pack_target_size = pos 0;
  disable_quilt = false;
  pack_max_age = pos 0;
  pack_idle_flush = pos 0;
  pack_flush_interval = pos 0;
  blob_cache_bytes = pos 0;
  request_timeout = pos 0;
  max_retries = pos 0;
  epoch_duration = pos 0;
  renew_interval = pos 0;
  renew_lead = pos 0;
}

module _ {F : Type 0} where
  required_text : String → Option (Value F) → Result String
  required_text key (some (text v)) =
      if str_eq v "" then err (failure "no such key specified") else ok v
  required_text key _ = err (failure "no such key specified")

  unfoldable pub required_string : Assoc (Value F) → String → Result String
  unfolding required_text
  required_string m key = required_text key (lookup key m)

  -- A value that is there is of its type; one that is not leaves the zero value.
  text_or : String → Option (Value F) → Result String
  text_or none_text none = ok none_text
  text_or none_text (some (text s)) = ok s
  text_or none_text (some _) = err (failure "not a string")

  unfoldable pub optional_string : Assoc (Value F) → String → Result String
  unfolding text_or
  optional_string m key = text_or "" (lookup key m)

  boolean_or : Option (Value F) → Result Bool
  boolean_or none = ok false
  boolean_or (some (boolean b)) = ok b
  boolean_or (some _) = err (failure "not a boolean")

  unfoldable pub optional_bool : Assoc (Value F) → String → Result Bool
  unfolding boolean_or
  optional_bool m key = boolean_or (lookup key m)

  module _ (floats : Floats F) where
    -- A whole number above zero.
    abbrev pub positive_int : F → Result ℤ
    positive_int f =
        let n = floats.to_int f in
        if leb_ℤ n (pos 0)
        then err (failure "<= 0")
        else if not (floats.same (floats.of_int n) f)
        then err (failure "not an integer")
        else ok n

    int_or_zero : Option (Value F) → Result ℤ
    int_or_zero none = ok (pos 0)
    int_or_zero (some (number f)) = positive_int f
    int_or_zero (some _) = err (failure "not a number")

    unfoldable pub optional_positive_int : Assoc (Value F) → String → Result ℤ
    unfolding int_or_zero
    optional_positive_int m key = int_or_zero (lookup key m)

    -- `time.Duration(secs) * time.Second`, which wraps.
    unfoldable pub seconds : ℤ → ℤ
    seconds n = mul64 n (pos second)

    unfoldable pub optional_seconds : Assoc (Value F) → String → Result ℤ
    unfolding seconds
    optional_seconds m key = do secs ← optional_positive_int m key; ok (seconds secs)

    -- The numbers of the configuration, in the order in which they are read.
    unfoldable pub parse_numbers : Assoc (Value F) → Config → Result Config
    parse_numbers m cfg = do
      epochs ← optional_positive_int m "epochs"
      n_shards ← optional_positive_int m "nShards"
      workers ← optional_positive_int m "workers"
      max_open_conns ← optional_positive_int m "maxOpenConns"
      max_retries ← optional_positive_int m "maxRetries"
      pack_target_size ← optional_positive_int m "packTargetSizeBytes"
      ok (record cfg {
        epochs = epochs;
        n_shards = n_shards;
        workers = workers;
        max_open_conns = max_open_conns;
        max_retries = max_retries;
        pack_target_size = pack_target_size;
      })

    unfoldable pub parse_times : Assoc (Value F) → Config → Result Config
    parse_times m cfg = do
      pack_max_age ← optional_seconds m "packMaxAgeSeconds"
      pack_idle_flush ← optional_seconds m "packIdleFlushSeconds"
      pack_flush_interval ← optional_seconds m "packFlushIntervalSeconds"
      blob_cache_bytes ← optional_positive_int m "blobCacheBytes"
      request_timeout ← optional_seconds m "requestTimeoutSeconds"
      epoch_duration ← optional_seconds m "epochDurationSeconds"
      renew_interval ← optional_seconds m "renewIntervalSeconds"
      renew_lead ← optional_seconds m "renewLeadSeconds"
      ok (record cfg {
        pack_max_age = pack_max_age;
        pack_idle_flush = pack_idle_flush;
        pack_flush_interval = pack_flush_interval;
        blob_cache_bytes = blob_cache_bytes;
        request_timeout = request_timeout;
        epoch_duration = epoch_duration;
        renew_interval = renew_interval;
        renew_lead = renew_lead;
      })

    -- The function that DatastoreConfigParser returns.
    unfoldable pub parse_config : Assoc (Value F) → Result Config
    parse_config m = do
      publisher ← required_string m "publisherURL"
      aggregator ← required_string m "aggregatorURL"
      postgres_url ← required_string m "postgresURL"
      table ← optional_string m "table"
      deletable ← optional_bool m "deletable"
      disable_quilt ← optional_bool m "disableQuilt"
      numbers ← parse_numbers m (record no_config {
        publisher_urls = split_urls publisher;
        aggregator_urls = split_urls aggregator;
        postgres_url = postgres_url;
        table = table;
        deletable = deletable;
        disable_quilt = disable_quilt;
      })
      parse_times m numbers

-- `fsrepo.DiskSpec`, with the three keys that the plugin fills in.
pub record DiskSpec : Type 0 where
  pub publisher_url : String
  pub aggregator_url : String
  pub table : String

-- The table of an empty name is the default one.
abbrev pub table_of : Config → String
table_of cfg = if str_eq cfg.table "" then "walrus_index" else cfg.table

unfoldable pub disk_spec : Config → DiskSpec
disk_spec cfg = record {
  publisher_url = join_commas cfg.publisher_urls;
  aggregator_url = join_commas cfg.aggregator_urls;
  table = table_of cfg;
}
