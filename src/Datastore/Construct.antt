-- ===== src/Datastore/Construct.antt =====
-- `NewWalrusDatastore`: the checks and defaults of the configuration, before anything is opened.
use go_ds_s3_walrus.Common.{
  ℕ, ◌*◌, ◌^◌, ◌<◌, String, Bool, true, false, ◌≡◌, ◌≢◌, refl, List, [], ◌∷◌, arith, str_eq,
  if◌then◌else◌, inl, inr, Bool-cases, ap, ◌∙◌,
}
use go_ds_s3_walrus.Common.Int.{ℤ, pos, negsuc, leb_ℤ, ltb_ℤ, eq_ℤ}
use go_ds_s3_walrus.Common.Result.{Result, ok, err, failure}
use go_ds_s3_walrus.Encoding.{default_n_shards}
use go_ds_s3_walrus.Datastore.{Config}

abbrev pub second : ℕ
second = 10 ^ 9

abbrev default_workers : ℤ
default_workers = pos 16

abbrev default_max_open_conns : ℤ
default_max_open_conns = pos 32

abbrev default_epochs : ℤ
default_epochs = pos 1

abbrev default_request_timeout : ℤ
default_request_timeout = pos (60 * second)

abbrev default_max_retries : ℤ
default_max_retries = pos 3

abbrev default_pack_target_size : ℤ
default_pack_target_size = pos (256 * 2 ^ 20)

abbrev default_blob_cache_bytes : ℤ
default_blob_cache_bytes = pos (2 ^ 30)

abbrev default_pack_max_age : ℤ
default_pack_max_age = pos (5 * 60 * second)

abbrev default_pack_idle_flush : ℤ
default_pack_idle_flush = pos (30 * second)

abbrev default_pack_flush_interval : ℤ
default_pack_flush_interval = pos (5 * second)

-- `if x <= 0 { x = other }`.
unfoldable pub positive_or : ℤ → ℤ → ℤ
positive_or x other = if leb_ℤ x (pos 0) then other else x

unfoldable pub with_defaults : Config → Config
unfolding positive_or
with_defaults conf = record conf {
  epochs = positive_or conf.epochs default_epochs;
  n_shards = positive_or conf.n_shards default_n_shards;
  workers = positive_or conf.workers default_workers;
  max_open_conns = positive_or conf.max_open_conns default_max_open_conns;
  request_timeout = positive_or conf.request_timeout default_request_timeout;
  max_retries = if ltb_ℤ conf.max_retries (pos 0) then default_max_retries else conf.max_retries;
  pack_target_size = positive_or conf.pack_target_size default_pack_target_size;
  pack_max_age = positive_or conf.pack_max_age default_pack_max_age;
  pack_idle_flush = positive_or conf.pack_idle_flush default_pack_idle_flush;
  pack_flush_interval = positive_or conf.pack_flush_interval default_pack_flush_interval;
}

unfoldable pub is_empty : List String → Bool
is_empty [] = true
is_empty (x ∷ xs) = false

unfoldable pub checked : Config → Result Config
unfolding with_defaults is_empty
checked conf =
    if is_empty conf.publisher_urls
    then err (failure "at least one publisher URL is required")
    else if is_empty conf.aggregator_urls
    then err (failure "at least one aggregator URL is required")
    else if str_eq conf.postgres_url ""
    then err (failure "postgres URL is required")
    else ok (with_defaults conf)

-- The budget that the client's cache gets: zero means the default, a negative value none.
unfoldable pub cache_bytes : Config → ℤ
cache_bytes conf =
    if eq_ℤ conf.blob_cache_bytes (pos 0)
    then default_blob_cache_bytes
    else if ltb_ℤ conf.blob_cache_bytes (pos 0)
    then pos 0
    else conf.blob_cache_bytes

-- What the rest of the code relies on: the loops that these settings drive make progress.
pub record IsReady (conf : Config) : Type 0 where
  pub publisher_urls : conf.publisher_urls ≢ []
  pub aggregator_urls : conf.aggregator_urls ≢ []
  pub epochs : ltb_ℤ (pos 0) conf.epochs ≡ true
  pub n_shards : ltb_ℤ (pos 0) conf.n_shards ≡ true
  pub workers : ltb_ℤ (pos 0) conf.workers ≡ true
  pub pack_target_size : ltb_ℤ (pos 0) conf.pack_target_size ≡ true
  pub max_retries : ltb_ℤ conf.max_retries (pos 0) ≡ false
  pub pack_flush_interval : ltb_ℤ (pos 0) conf.pack_flush_interval ≡ true

positive_or-positive : (x : ℤ) (n : ℕ) → 0 < n → ltb_ℤ (pos 0) (positive_or x (pos n)) ≡ true
unfolding positive_or
positive_or-positive (pos x) n h = ground arith
positive_or-positive (negsuc x) n h = ground arith

positive_or_idem : (x other : ℤ) → positive_or (positive_or x other) other ≡ positive_or x other
unfolding positive_or
positive_or_idem x other = ground arith

retries_idem :
    (x : ℤ)
    → (if ltb_ℤ (if ltb_ℤ x (pos 0) then default_max_retries else x) (pos 0)
        then default_max_retries
        else (if ltb_ℤ x (pos 0) then default_max_retries else x))
      ≡ (if ltb_ℤ x (pos 0) then default_max_retries else x)
retries_idem (pos x) = ground arith
retries_idem (negsuc x) = ground arith

retries-natural :
    (x : ℤ) → ltb_ℤ (if ltb_ℤ x (pos 0) then default_max_retries else x) (pos 0) ≡ false
retries-natural (pos x) = ground arith
retries-natural (negsuc x) = ground arith

with_defaults_idem : (conf : Config) → with_defaults (with_defaults conf) ≡ with_defaults conf
unfolding with_defaults
with_defaults_idem conf =
    rw
      (
        positive_or_idem conf.epochs default_epochs,
        positive_or_idem conf.n_shards default_n_shards,
        positive_or_idem conf.workers default_workers,
        positive_or_idem conf.max_open_conns default_max_open_conns,
        positive_or_idem conf.request_timeout default_request_timeout,
        positive_or_idem conf.pack_target_size default_pack_target_size,
        positive_or_idem conf.pack_max_age default_pack_max_age,
        positive_or_idem conf.pack_idle_flush default_pack_idle_flush,
        positive_or_idem conf.pack_flush_interval default_pack_flush_interval,
        retries_idem conf.max_retries,
      )
      refl

is_empty-nil : (xs : List String) → is_empty xs ≡ false → xs ≢ []
unfolding is_empty
is_empty-nil [] h = absurd (cc h)
is_empty-nil (x ∷ xs) h = λ e. absurd (cc e)

with_defaults-IsReady :
    (conf : Config)
    → is_empty conf.publisher_urls ≡ false
    → is_empty conf.aggregator_urls ≡ false
    → IsReady (with_defaults conf)
unfolding with_defaults
with_defaults-IsReady conf publishers aggregators = record {
  publisher_urls = is_empty-nil conf.publisher_urls publishers;
  aggregator_urls = is_empty-nil conf.aggregator_urls aggregators;
  epochs = positive_or-positive conf.epochs 1 (omega arith);
  n_shards = positive_or-positive conf.n_shards 1000 (omega arith);
  workers = positive_or-positive conf.workers 16 (omega arith);
  pack_target_size = positive_or-positive conf.pack_target_size (256 * 2 ^ 20) (omega arith);
  max_retries = retries-natural conf.max_retries;
  pack_flush_interval = positive_or-positive conf.pack_flush_interval (5 * second) (omega arith);
}

-- A configuration is accepted when it has publishers, aggregators and a database URL.
pub checked-cases :
    (conf ready : Config)
    → checked conf ≡ ok ready
    → (is_empty conf.publisher_urls ≡ false)
      × (is_empty conf.aggregator_urls ≡ false)
      × (str_eq conf.postgres_url "" ≡ false)
      × (ready ≡ with_defaults conf)
unfolding checked
checked-cases conf ready h = elim (Bool-cases (is_empty conf.publisher_urls)) [
  | inl none_given ↦ absurd (cc (rw none_given at h))
  | inr p ↦ elim (Bool-cases (is_empty conf.aggregator_urls)) [
    | inl none_given ↦ absurd (cc (rw (p, none_given) at h))
    | inr a ↦ elim (Bool-cases (str_eq conf.postgres_url "")) [
      | inl none_given ↦ absurd (cc (rw (p, a, none_given) at h))
      | inr u ↦ (p, a, u, cc (rw (p, a, u) at h))
    ]
  ]
]

accepted :
    (conf : Config)
    → is_empty conf.publisher_urls ≡ false
    → is_empty conf.aggregator_urls ≡ false
    → str_eq conf.postgres_url "" ≡ false
    → checked conf ≡ ok (with_defaults conf)
unfolding checked
accepted conf p a u = rw (p, a, u) refl

-- A configuration that is accepted is ready to run, and accepted unchanged when it is given again.
pub checked-IsReady :
    (conf ready : Config) → checked conf ≡ ok ready → IsReady ready × (checked ready ≡ ok ready)
unfolding with_defaults
checked-IsReady conf ready h =
    let (p, a, u, e) = checked-cases conf ready h in
    rw e (
      with_defaults-IsReady conf p a,
      accepted (with_defaults conf) p a u ∙ ap ok (with_defaults_idem conf),
    )
