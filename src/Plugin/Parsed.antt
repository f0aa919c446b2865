-- ===== src/Plugin/Parsed.antt =====
-- The configuration that plugin/walrusds.go parses, and its DiskSpec.
use mathlib.Core.Path.{subst}
use go_ds_s3_walrus.Common.{String, ◌≡◌, refl, ap, sym, ◌∙◌, none}
use go_ds_s3_walrus.Common.Int.{pos}
use go_ds_s3_walrus.Common.Assoc.{Assoc, lookup}
use go_ds_s3_walrus.Common.Result.{Result, ok, err}
use go_ds_s3_walrus.Datastore.{Config}
use go_ds_s3_walrus.Datastore.Construct.{with_defaults}
use go_ds_s3_walrus.Plugin.{
  Floats, Value, ◌>>=◌, optional_positive_int, int_or_zero, parse_numbers, parse_times,
  parse_config, DiskSpec, table_of, disk_spec,
}
use go_ds_s3_walrus.Plugin.Urls.{split_urls, split_urls-IsUrl, split_urls-join_commas}

ok-injective : {A : Type 0} (x y : A) → ok x ≡ ok y → x ≡ y
ok-injective x y h = cc h

-- What the rest of a block has of its result, for whatever it takes, the block has.
after :
    {A B : Type 0} (P : B → Type 0) (r : Result A) (f : A → Result B) (b : B)
    → ((a : A) → r ≡ ok a → f a ≡ ok b → P b)
    → (r >>= f) ≡ ok b
    → P b
unfolding ◌>>=◌
after P (ok a) f b h e = h a refl e
after P (err x) f b h e = absurd (cc e)

module _ {F : Type 0} (floats : Floats F) where
  -- The texts and the number of retries stay as they were read.
  abbrev Keeps : Config → Config → Type 0
  Keeps cfg cfg' =
      (cfg'.publisher_urls ≡ cfg.publisher_urls)
      × (cfg'.aggregator_urls ≡ cfg.aggregator_urls)
      × (cfg'.table ≡ cfg.table)
      × (cfg'.max_retries ≡ cfg.max_retries)

  parse_times-Keeps :
      (m : Assoc (Value F)) (cfg cfg' : Config)
      → parse_times floats m cfg ≡ ok cfg'
      → Keeps cfg cfg'
  unfolding parse_times
  parse_times-Keeps m cfg cfg' = after (Keeps cfg) _ _ cfg' (λ a _.
      after (Keeps cfg) _ _ cfg' (λ a _. after (Keeps cfg) _ _ cfg' (λ a _.
        after (Keeps cfg) _ _ cfg' (λ a _. after (Keeps cfg) _ _ cfg' (λ a _.
          after (Keeps cfg) _ _ cfg' (λ a _. after (Keeps cfg) _ _ cfg' (λ a _.
            after (Keeps cfg) _ _ cfg'
              (λ a _ h. subst (Keeps cfg) (ok-injective _ _ h) (refl, refl, refl, refl)))))))))

  -- The numbers come after the texts.
  abbrev Numbered : Assoc (Value F) → Config → Config → Type 0
  Numbered m cfg cfg' =
      (cfg'.publisher_urls ≡ cfg.publisher_urls)
      × (cfg'.aggregator_urls ≡ cfg.aggregator_urls)
      × (cfg'.table ≡ cfg.table)
      × (optional_positive_int floats m "maxRetries" ≡ ok cfg'.max_retries)

  parse_numbers-Numbered :
      (m : Assoc (Value F)) (cfg cfg' : Config)
      → parse_numbers floats m cfg ≡ ok cfg'
      → Numbered m cfg cfg'
  unfolding parse_numbers
  parse_numbers-Numbered m cfg cfg' = after (Numbered m cfg) _ _ cfg' (λ a _.
      after (Numbered m cfg) _ _ cfg' (λ a _. after (Numbered m cfg) _ _ cfg' (λ a _.
        after (Numbered m cfg) _ _ cfg' (λ a _. after (Numbered m cfg) _ _ cfg' (λ retries read.
          after (Numbered m cfg) _ _ cfg'
            (λ a _ h. subst (Numbered m cfg) (ok-injective _ _ h) (refl, refl, refl, read)))))))

  -- What a successful parse puts into the configuration.
  abbrev Parsed : Assoc (Value F) → Config → Type 0
  Parsed m cfg =
      ((v : String) × (cfg.publisher_urls ≡ split_urls v))
      × ((v : String) × (cfg.aggregator_urls ≡ split_urls v))
      × (optional_positive_int floats m "maxRetries" ≡ ok cfg.max_retries)

  parse_config-Parsed :
      (m : Assoc (Value F)) (cfg : Config) → parse_config floats m ≡ ok cfg → Parsed m cfg
  unfolding parse_config
  parse_config-Parsed m cfg = after (Parsed m) _ _ cfg (λ publisher _.
      after (Parsed m) _ _ cfg (λ aggregator _. after (Parsed m) _ _ cfg (λ postgres_url _.
        after (Parsed m) _ _ cfg (λ table _. after (Parsed m) _ _ cfg (λ deletable _.
          after (Parsed m) _ _ cfg (λ disable_quilt _.
            after (Parsed m) _ _ cfg (λ numbers read timed.
              let (publishers, aggregators, _, retries) = parse_numbers-Numbered m _ numbers read in
              let (publishers', aggregators', _, retries') =
                parse_times-Keeps m numbers cfg timed in
              (
                (publisher, publishers' ∙ publishers),
                (aggregator, aggregators' ∙ aggregators),
                retries ∙ ap ok (sym retries'),
              ))))))))

  -- The DiskSpec of a parsed configuration gives its URLs back: split again, they are the same lists.
  pub split_urls-disk_spec :
      (m : Assoc (Value F)) (cfg : Config)
      → parse_config floats m ≡ ok cfg
      → (split_urls (disk_spec cfg).publisher_url ≡ cfg.publisher_urls)
        × (split_urls (disk_spec cfg).aggregator_url ≡ cfg.aggregator_urls)
  unfolding disk_spec
  split_urls-disk_spec m cfg h =
      let ((p, publishers), (a, aggregators), _) = parse_config-Parsed m cfg h in
      (
        rw publishers (split_urls-join_commas (split_urls p) (split_urls-IsUrl p)),
        rw aggregators (split_urls-join_commas (split_urls a) (split_urls-IsUrl a)),
      )

  -- A change of the backing store is detected: two parsed configurations with the same DiskSpec
  -- have the same publishers, the same aggregators and the same table, where an empty name is the default one.
  pub disk_spec-injective :
      (m m' : Assoc (Value F)) (cfg cfg' : Config)
      → parse_config floats m ≡ ok cfg
      → parse_config floats m' ≡ ok cfg'
      → disk_spec cfg ≡ disk_spec cfg'
      → (cfg.publisher_urls ≡ cfg'.publisher_urls)
        × (cfg.aggregator_urls ≡ cfg'.aggregator_urls)
        × (table_of cfg ≡ table_of cfg')
  disk_spec-injective m m' cfg cfg' h h' same =
      let (publishers, aggregators) = split_urls-disk_spec m cfg h in
      let (publishers', aggregators') = split_urls-disk_spec m' cfg' h' in
      (
        sym publishers ∙ ap (λ (d : DiskSpec). split_urls d.publisher_url) same ∙ publishers',
        sym aggregators ∙ ap (λ (d : DiskSpec). split_urls d.aggregator_url) same ∙ aggregators',
        unfold disk_spec in ap (λ (d : DiskSpec). d.table) same,
      )

  -- A mount without the key maxRetries gets no retries: the defaults leave the zero that the parser puts there.
  pub parse_config-max_retries :
      (m : Assoc (Value F)) (cfg : Config)
      → parse_config floats m ≡ ok cfg
      → lookup "maxRetries" m ≡ none
      → (with_defaults cfg).max_retries ≡ pos 0
  unfolding optional_positive_int int_or_zero with_defaults
  parse_config-max_retries m cfg h absent =
      let (_, _, read) = parse_config-Parsed m cfg h in
      let zero : cfg.max_retries ≡ pos 0 = cc (rw absent at read) in rw zero refl
