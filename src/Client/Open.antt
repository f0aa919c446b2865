-- ===== src/Client/Open.antt =====
-- `NewClient`, `normalizeURLs` and `multipartBoundary` of client.go.
use Prim.Native.Char.{Char, code}
use go_ds_s3_walrus.Common.{
  ℕ, zero, suc, ◌/◌, ◌%◌, String, Bool, false, ◌&&◌, ◌≡◌, refl, ap, Option, List, [], ◌∷◌, ◌==◌,
  if◌then◌else◌, All, inl, inr, Bool-cases,
}
use go_ds_s3_walrus.Common.Int.{ℤ}
use go_ds_s3_walrus.Common.Result.{Exec, pure, ◌>>=◌}
use go_ds_s3_walrus.Index.{Bytes}
use go_ds_s3_walrus.Cache.{BlobCache, new_blob_cache}
use go_ds_s3_walrus.Client.Calls.{Client}
use go_ds_s3_walrus.Plugin.Urls.{is_blank, trim_space, trim_space-IsTight, IsTight}

-- A slash.
abbrev is_slash : Char → Bool
is_slash c = code c == 47

-- `strings.TrimRight(s, "/")`.
unfoldable pub trim_slashes : String → String
trim_slashes String.[] = ""
trim_slashes (String.◌∷◌ c s) =
    let rest = trim_slashes s in if is_slash c && is_blank rest then "" else String.◌∷◌ c rest

-- The URL that is kept, or nothing.
unfoldable pub base_url : String → String
unfolding trim_slashes
base_url u = trim_slashes (trim_space u)

unfoldable pub normalize_urls : List String → List String
unfolding base_url
normalize_urls [] = []
normalize_urls (u ∷ urls) =
    let rest = normalize_urls urls in if is_blank (base_url u) then rest else base_url u ∷ rest

-- `ClientConfig`. (The timeout is the HTTP library's.)
pub record ClientConfig : Type 0 where
  pub publisher_urls : List String
  pub aggregator_urls : List String
  pub max_retries : ℕ
  pub blob_cache_bytes : ℤ

-- A client, and its cache, which the calls reach through their network.
unfoldable pub new_client : ClientConfig → Client × Option BlobCache
unfolding normalize_urls
new_client conf = (
  record {
    publishers = normalize_urls conf.publisher_urls;
    aggregators = normalize_urls conf.aggregator_urls;
    max_retries = conf.max_retries;
  },
  new_blob_cache conf.blob_cache_bytes,
)

-- `hex.EncodeToString`.
abbrev hex_digit : ℕ → String → Char
hex_digit n String.[] = "f"
hex_digit zero (String.◌∷◌ c s) = c
hex_digit (suc n) (String.◌∷◌ c s) = hex_digit n s

unfoldable pub hex : Bytes → String
hex [] = ""
hex (b ∷ bs) =
    String.◌∷◌ (hex_digit (b / 16) "0123456789abcde")
      (String.◌∷◌ (hex_digit (b % 16) "0123456789abcde") (hex bs))

-- `read` reads as many random bytes as it is asked for.
unfoldable pub multipart_boundary : {N : Type 0} → (ℕ → Exec N Bytes) → Exec N String
unfolding hex
multipart_boundary read = do buf ← read 30; pure (hex buf)

-- A base URL, to which the calls append a path that begins with a slash.
abbrev pub IsBase : String → Type 0
IsBase s = (is_blank s ≡ false) × (trim_slashes s ≡ s) × IsTight s

trim_slashes-idempotent : (s : String) → trim_slashes (trim_slashes s) ≡ trim_slashes s
unfolding trim_slashes
trim_slashes-idempotent String.[] = refl
trim_slashes-idempotent (String.◌∷◌ c s) =
    elim (Bool-cases (is_slash c && is_blank (trim_slashes s))) [
      | inl gone ↦ rw gone refl
      | inr stays ↦ rw (stays, trim_slashes-idempotent s, stays) refl
    ]

trim_slashes-IsTight : (s : String) → IsTight s → IsTight (trim_slashes s)
unfolding trim_slashes
trim_slashes-IsTight String.[] h = tt
trim_slashes-IsTight (String.◌∷◌ c s) h =
    elim (Bool-cases (is_slash c && is_blank (trim_slashes s))) [
      | inl gone ↦ rw gone tt
      | inr stays ↦ rw stays h
    ]

-- Every endpoint of a client has a URL that is not empty, neither begins with a space nor ends with a slash; and a
-- list of such URLs without spaces around them is kept as it is.
pub normalize_urls-IsBase :
    (urls : List String)
    → All IsBase (normalize_urls urls)
      × (All (λ u. IsBase u × (trim_space u ≡ u)) urls → normalize_urls urls ≡ urls)
unfolding normalize_urls base_url
normalize_urls-IsBase [] = (tt, λ h. refl)
normalize_urls-IsBase (u ∷ urls) = elim (Bool-cases (is_blank (base_url u))) [
  | inl blank ↦
      rw blank ((normalize_urls-IsBase urls).0, λ h. absurd (cc (rw (h.0.1, h.0.0.1) at blank)))
  | inr text ↦ rw text (
    (
      (
        text,
        trim_slashes-idempotent (trim_space u),
        trim_slashes-IsTight (trim_space u) (trim_space-IsTight u),
      ),
      (normalize_urls-IsBase urls).0,
    ),
    λ h. rw (h.0.1, h.0.0.1) (ap (λ us. u ∷ us) ((normalize_urls-IsBase urls).1 h.1)),
  )
]
