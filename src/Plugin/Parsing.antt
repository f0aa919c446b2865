-- ===== src/Plugin/Parsing.antt =====
-- The parser of plugin/walrusds.go: what it accepts, and what DiskSpec says of the result.
use go_ds_s3_walrus.Common.{
  String, Bool, true, false, not, ◌&&◌, ◌≡◌, refl, ap, ◌∙◌, Option, none, some, List, [], ◌∷◌,
  str_eq, arith,
}
use go_ds_s3_walrus.Common.Int.{pos, leb_ℤ}
use go_ds_s3_walrus.Common.Assoc.{Assoc, lookup}
use go_ds_s3_walrus.Common.Result.{Result, ok, err}
use go_ds_s3_walrus.Datastore.{Config}
use go_ds_s3_walrus.Plugin.{
  Floats, Value, text, boolean, number, other, ◌>>=◌, required_text, required_string, text_or,
  optional_string, boolean_or, optional_bool, int_or_zero, optional_positive_int, optional_seconds,
  parse_numbers, parse_times, parse_config,
}

-- Whether a call succeeds.
abbrev pub is_ok {ℓ} : {A : Type ℓ} → Result A → Bool
is_ok (ok a) = true
is_ok (err e) = false

is_ok-bind :
    {A B : Type 0} (r : Result A) (f : A → Result B) (b : Bool)
    → ((a : A) → is_ok (f a) ≡ b)
    → is_ok (r >>= f) ≡ (is_ok r && b)
unfolding ◌>>=◌
is_ok-bind (ok a) f b h = h a
is_ok-bind (err e) f b h = refl

-- A read before the rest of the parser.
step :
    {A B : Type 0} (r : Result A) (f : A → Result B) (a b : Bool)
    → is_ok r ≡ a
    → ((x : A) → is_ok (f x) ≡ b)
    → is_ok (r >>= f) ≡ (a && b)
step r f a b h rest = is_ok-bind r f b rest ∙ ap (λ x. x && b) h

module _ {F : Type 0} where
  -- A value that a required key may have, and those that optional keys may have or lack.
  abbrev pub is_filled : Option (Value F) → Bool
  is_filled (some (text v)) = not (str_eq v "")
  is_filled _ = false

  abbrev pub is_text : Option (Value F) → Bool
  is_text none = true
  is_text (some (text v)) = true
  is_text (some _) = false

  abbrev pub is_boolean : Option (Value F) → Bool
  is_boolean none = true
  is_boolean (some (boolean b)) = true
  is_boolean (some _) = false

  required_string-is_filled :
      (m : Assoc (Value F)) (key : String)
      → is_ok (required_string m key) ≡ is_filled (lookup key m)
  unfolding required_string required_text
  required_string-is_filled m key = filled (lookup key m)
    where
      filled : (v : Option (Value F)) → is_ok (required_text key v) ≡ is_filled v
      filled (some (text v)) = ground arith
      filled (some (boolean b)) = refl
      filled (some (number f)) = refl
      filled (some other) = refl
      filled none = refl

  optional_string-is_text :
      (m : Assoc (Value F)) (key : String) → is_ok (optional_string m key) ≡ is_text (lookup key m)
  unfolding optional_string text_or
  optional_string-is_text m key = typed (lookup key m)
    where
      typed : (v : Option (Value F)) → is_ok (text_or "" v) ≡ is_text v
      typed (some (text v)) = refl
      typed (some (boolean b)) = refl
      typed (some (number f)) = refl
      typed (some other) = refl
      typed none = refl

  optional_bool-is_boolean :
      (m : Assoc (Value F)) (key : String) → is_ok (optional_bool m key) ≡ is_boolean (lookup key m)
  unfolding optional_bool boolean_or
  optional_bool-is_boolean m key = typed (lookup key m)
    where
      typed : (v : Option (Value F)) → is_ok (boolean_or v) ≡ is_boolean v
      typed (some (text v)) = refl
      typed (some (boolean b)) = refl
      typed (some (number f)) = refl
      typed (some other) = refl
      typed none = refl

  module _ (floats : Floats F) where
    -- A number is above zero and whole.
    abbrev pub is_positive : Option (Value F) → Bool
    is_positive none = true
    is_positive (some (number f)) =
        not (leb_ℤ (floats.to_int f) (pos 0)) && floats.same (floats.of_int (floats.to_int f)) f
    is_positive (some _) = false

    optional_positive_int-is_positive :
        (m : Assoc (Value F)) (key : String)
        → is_ok (optional_positive_int floats m key) ≡ is_positive (lookup key m)
    unfolding optional_positive_int int_or_zero
    optional_positive_int-is_positive m key = typed (lookup key m)
      where
        typed : (v : Option (Value F)) → is_ok (int_or_zero floats v) ≡ is_positive v
        typed (some (text v)) = refl
        typed (some (boolean b)) = refl
        typed (some (number f)) = ground arith
        typed (some other) = refl
        typed none = refl

    optional_seconds-is_positive :
        (m : Assoc (Value F)) (key : String)
        → is_ok (optional_seconds floats m key) ≡ is_positive (lookup key m)
    unfolding optional_seconds
    optional_seconds-is_positive m key =
        is_ok-bind (optional_positive_int floats m key) _ true (λ n. refl)
        ∙ ap (λ b. b && true) (optional_positive_int-is_positive m key)
        ∙ ground arith

    abbrev pub all_positive : Assoc (Value F) → List String → Bool
    all_positive m [] = true
    all_positive m (key ∷ keys) = is_positive (lookup key m) && all_positive m keys

    abbrev pub int_keys : List String
    int_keys =
        "epochs" ∷ "nShards" ∷ "workers" ∷ "maxOpenConns" ∷ "maxRetries" ∷ "packTargetSizeBytes"
        ∷ []

    abbrev pub time_keys : List String
    time_keys =
        "packMaxAgeSeconds" ∷ "packIdleFlushSeconds" ∷ "packFlushIntervalSeconds" ∷ "blobCacheBytes"
        ∷ "requestTimeoutSeconds" ∷ "epochDurationSeconds" ∷ "renewIntervalSeconds"
        ∷ "renewLeadSeconds" ∷ []

    parse_numbers-all_positive :
        (m : Assoc (Value F)) (cfg : Config)
        → is_ok (parse_numbers floats m cfg) ≡ all_positive m int_keys
    unfolding parse_numbers
    parse_numbers-all_positive m cfg =
        step _ _ _ _ (optional_positive_int-is_positive m "epochs") (λ _.
          step _ _ _ _ (optional_positive_int-is_positive m "nShards") (λ _.
            step _ _ _ _ (optional_positive_int-is_positive m "workers") (λ _.
              step _ _ _ _ (optional_positive_int-is_positive m "maxOpenConns") (λ _.
                step _ _ _ _ (optional_positive_int-is_positive m "maxRetries") (λ _.
                  step _ _ _ _ (optional_positive_int-is_positive m "packTargetSizeBytes")
                    (λ _. refl))))))

    parse_times-all_positive :
        (m : Assoc (Value F)) (cfg : Config)
        → is_ok (parse_times floats m cfg) ≡ all_positive m time_keys
    unfolding parse_times
    parse_times-all_positive m cfg =
        step _ _ _ _ (optional_seconds-is_positive m "packMaxAgeSeconds") (λ _.
          step _ _ _ _ (optional_seconds-is_positive m "packIdleFlushSeconds") (λ _.
            step _ _ _ _ (optional_seconds-is_positive m "packFlushIntervalSeconds") (λ _.
              step _ _ _ _ (optional_positive_int-is_positive m "blobCacheBytes") (λ _.
                step _ _ _ _ (optional_seconds-is_positive m "requestTimeoutSeconds") (λ _.
                  step _ _ _ _ (optional_seconds-is_positive m "epochDurationSeconds") (λ _.
                    step _ _ _ _ (optional_seconds-is_positive m "renewIntervalSeconds") (λ _.
                      step _ _ _ _ (optional_seconds-is_positive m "renewLeadSeconds")
                        (λ _. refl))))))))

    -- The keys, in the order in which they are read.
    abbrev pub is_valid : Assoc (Value F) → Bool
    is_valid m =
        is_filled (lookup "publisherURL" m)
        && (is_filled (lookup "aggregatorURL" m)
            && (is_filled (lookup "postgresURL" m)
                && (is_text (lookup "table" m)
                    && (is_boolean (lookup "deletable" m)
                        && (is_boolean (lookup "disableQuilt" m)
                            && (all_positive m int_keys && all_positive m time_keys))))))

    -- The parser accepts a map exactly where each required key has a text that is not empty, and each optional
    -- key that is there has a value of its type, the numbers whole and above zero.
    pub parse_config-is_valid : (m : Assoc (Value F)) → is_ok (parse_config floats m) ≡ is_valid m
    unfolding parse_config
    parse_config-is_valid m =
        step _ _ _ _ (required_string-is_filled m "publisherURL") (λ publisher.
          step _ _ _ _ (required_string-is_filled m "aggregatorURL") (λ aggregator.
            step _ _ _ _ (required_string-is_filled m "postgresURL") (λ postgres_url.
              step _ _ _ _ (optional_string-is_text m "table") (λ table.
                step _ _ _ _ (optional_bool-is_boolean m "deletable") (λ deletable.
                  step _ _ _ _ (optional_bool-is_boolean m "disableQuilt") (λ disable_quilt.
                    step _ _ _ _ (parse_numbers-all_positive m _)
                      (λ numbers. parse_times-all_positive m numbers)))))))
