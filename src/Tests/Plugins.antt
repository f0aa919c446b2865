-- ===== src/Tests/Plugins.antt =====
-- Mount configurations, over whole numbers in place of floats.
use go_ds_s3_walrus.Common.{true, ◌≡◌, refl, none, [], ◌∷◌}
use go_ds_s3_walrus.Common.Int.{ℤ, mul64, pos, eq_ℤ}
use go_ds_s3_walrus.Common.Assoc.{Assoc, lookup}
use go_ds_s3_walrus.Common.Result.{ok, err, failure}
use go_ds_s3_walrus.Datastore.{Config}
use go_ds_s3_walrus.Datastore.Construct.{with_defaults}
use go_ds_s3_walrus.Common.Texts.{append}
use go_ds_s3_walrus.Plugin.{
  required_string, parse_numbers, optional_string, optional_positive_int, optional_bool, ◌>>=◌,
  required_string, optional_string, optional_bool, parse_numbers, optional_positive_int,
  parse_times, optional_seconds, seconds, Floats, Value, text, boolean, number, no_config,
  parse_config, disk_spec, table_of,
}
use go_ds_s3_walrus.Plugin.Urls.{
  split_urls, split_commas, kept_urls, trim_left, trim_right, is_space, is_comma, join_commas,
}
use go_ds_s3_walrus.Plugin.Parsing.{is_ok, is_valid, parse_config-is_valid}
use go_ds_s3_walrus.Plugin.Parsed.{
  split_urls-disk_spec, disk_spec-injective, parse_config-max_retries,
}

abbrev whole : Floats ℤ
whole = record { to_int = λ n. n; of_int = λ n. n; same = eq_ℤ }

abbrev mount : Assoc (Value ℤ)
mount =
    ("publisherURL", text "https://a, https://b ,")
    ∷ ("aggregatorURL", text "https://c")
    ∷ ("postgresURL", text "postgres://localhost/db")
    ∷ ("workers", number (pos 4))
    ∷ ("packMaxAgeSeconds", number (pos 60))
    ∷ ("disableQuilt", boolean true)
    ∷ []

-- The same mount, written otherwise.
abbrev respelled : Assoc (Value ℤ)
respelled =
    ("publisherURL", text "https://a,https://b")
    ∷ ("aggregatorURL", text " https://c")
    ∷ ("postgresURL", text "postgres://replica/db")
    ∷ ("table", text "walrus_index")
    ∷ []

abbrev mounted : Config
mounted = record no_config {
  publisher_urls = "https://a" ∷ "https://b" ∷ [];
  aggregator_urls = "https://c" ∷ [];
  postgres_url = "postgres://localhost/db";
  workers = pos 4;
  pack_max_age = pos 60000000000;
  disable_quilt = true;
}

abbrev remounted : Config
remounted = record no_config {
  publisher_urls = "https://a" ∷ "https://b" ∷ [];
  aggregator_urls = "https://c" ∷ [];
  postgres_url = "postgres://replica/db";
  table = "walrus_index";
}

mount_parsed : parse_config whole mount ≡ ok mounted
unfolding parse_config ◌>>=◌ required_string lookup optional_string optional_bool parse_numbers
    optional_positive_int parse_times optional_seconds seconds split_urls split_commas kept_urls
    trim_left trim_right is_space is_comma mul64
mount_parsed = refl

respelled_parsed : parse_config whole respelled ≡ ok remounted
unfolding parse_config ◌>>=◌ required_string lookup optional_string optional_bool parse_numbers
    optional_positive_int parse_times optional_seconds seconds split_urls split_commas kept_urls
    trim_left trim_right is_space is_comma mul64
respelled_parsed = refl

-- Zero workers are refused.
no_workers : parse_config whole (("workers", number (pos 0)) ∷ respelled) ≡ err (failure "<= 0")
unfolding parse_config ◌>>=◌ required_string lookup optional_string optional_bool parse_numbers
    optional_positive_int
no_workers = refl

same_disk_spec : disk_spec mounted ≡ disk_spec remounted
unfolding disk_spec join_commas append
same_disk_spec = refl

parse_config-is_valid_example : is_ok (parse_config whole mount) ≡ is_valid whole mount
parse_config-is_valid_example = parse_config-is_valid whole mount

split_urls-disk_spec_example :
    (split_urls (disk_spec mounted).publisher_url ≡ "https://a" ∷ "https://b" ∷ [])
    × (split_urls (disk_spec mounted).aggregator_url ≡ "https://c" ∷ [])
split_urls-disk_spec_example = split_urls-disk_spec whole mount mounted mount_parsed

disk_spec-injective_example :
    (mounted.publisher_urls ≡ remounted.publisher_urls)
    × (mounted.aggregator_urls ≡ remounted.aggregator_urls)
    × (table_of mounted ≡ table_of remounted)
disk_spec-injective_example =
    disk_spec-injective whole mount respelled mounted remounted mount_parsed respelled_parsed
      same_disk_spec

no_retries_key : lookup "maxRetries" mount ≡ none
unfolding lookup
no_retries_key = refl

parse_config-max_retries_example : (with_defaults mounted).max_retries ≡ pos 0
parse_config-max_retries_example =
    parse_config-max_retries whole mount mounted mount_parsed no_retries_key
