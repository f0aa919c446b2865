-- ===== src/Plugin/Urls.antt =====
-- `splitURLs` of plugin/walrusds.go, and the calls of the package strings that it and DiskSpec make.
use Prim.Native.Char.{Char, code}
use go_ds_s3_walrus.Common.{
  String, Bool, true, false, ◌&&◌, ◌||◌, ◌≡◌, refl, ap, ◌∙◌, List, [], ◌∷◌, leb, ◌==◌,
  if◌then◌else◌, All, inl, inr, Bool-cases,
}
use go_ds_s3_walrus.Common.Texts.{append}

-- `unicode.IsSpace`.
unfoldable pub is_space : Char → Bool
is_space c =
    let n = code c in
    (leb 9 n && leb n 13)
    || n == 32
    || n == 133
    || n == 160
    || n == 5760
    || (leb 8192 n && leb n 8202)
    || n == 8232
    || n == 8233
    || n == 8239
    || n == 8287
    || n == 12288

-- A comma.
unfoldable pub is_comma : Char → Bool
is_comma c = code c == 44

abbrev pub is_blank : String → Bool
is_blank String.[] = true
is_blank (String.◌∷◌ c s) = false

-- A character before the first text of a list.
abbrev pub prepend : Char → List String → List String
prepend c [] = []
prepend c (p ∷ ps) = String.◌∷◌ c p ∷ ps

-- `strings.Split(s, ",")`.
unfoldable pub split_commas : String → List String
split_commas String.[] = "" ∷ []
split_commas (String.◌∷◌ c s) =
    let rest = split_commas s in if is_comma c then "" ∷ rest else prepend c rest

-- `strings.TrimSpace`.
unfoldable pub trim_left : String → String
trim_left String.[] = ""
trim_left (String.◌∷◌ c s) = let rest = trim_left s in if is_space c then rest else String.◌∷◌ c s

unfoldable pub trim_right : String → String
trim_right String.[] = ""
trim_right (String.◌∷◌ c s) =
    let rest = trim_right s in if is_space c && is_blank rest then "" else String.◌∷◌ c rest

abbrev pub trim_space : String → String
trim_space s = trim_right (trim_left s)

-- The loop over the parts.
unfoldable pub kept_urls : List String → List String
kept_urls [] = []
kept_urls (p ∷ ps) =
    let rest = kept_urls ps in if is_blank (trim_space p) then rest else trim_space p ∷ rest

unfoldable pub split_urls : String → List String
split_urls s = kept_urls (split_commas s)

-- `strings.Join(xs, ",")`.
unfoldable pub join_commas : List String → String
join_commas [] = ""
join_commas (x ∷ []) = x
join_commas (x ∷ y ∷ ys) = append x (String.◌∷◌ "," (join_commas (y ∷ ys)))

-- No comma in a text.
abbrev pub IsPlain : String → Type 0
IsPlain String.[] = Unit
IsPlain (String.◌∷◌ c s) = (is_comma c ≡ false) × IsPlain s

-- A text that `splitURLs` keeps as it is.
abbrev pub IsUrl : String → Type 0
IsUrl s = IsPlain s × (trim_space s ≡ s) × (is_blank s ≡ false)

split_commas-plain : (x : String) → IsPlain x → split_commas x ≡ x ∷ []
unfolding split_commas
split_commas-plain String.[] h = refl
split_commas-plain (String.◌∷◌ c x) h = rw (h.0, split_commas-plain x h.1)

split_commas-append :
    (x s : String) → IsPlain x → split_commas (append x (String.◌∷◌ "," s)) ≡ x ∷ split_commas s
unfolding split_commas append is_comma
split_commas-append String.[] s h = refl
split_commas-append (String.◌∷◌ c x) s h = rw (h.0, split_commas-append x s h.1)

kept_urls-All : (xs : List String) → All IsUrl xs → kept_urls xs ≡ xs
unfolding kept_urls
kept_urls-All [] h = refl
kept_urls-All (x ∷ xs) h = rw (h.0.1, h.0.2) (ap (λ ys. x ∷ ys) (kept_urls-All xs h.1))

split_commas-join_commas :
    (x : String) (xs : List String)
    → All IsUrl (x ∷ xs)
    → split_commas (join_commas (x ∷ xs)) ≡ x ∷ xs
unfolding join_commas
split_commas-join_commas x [] h = split_commas-plain x h.0.0
split_commas-join_commas x (y ∷ ys) h =
    split_commas-append x (join_commas (y ∷ ys)) h.0.0
    ∙ ap (λ zs. x ∷ zs) (split_commas-join_commas y ys h.1)

-- Joined URLs are split again.
pub split_urls-join_commas : (xs : List String) → All IsUrl xs → split_urls (join_commas xs) ≡ xs
unfolding split_urls
split_urls-join_commas [] h = unfold join_commas split_commas kept_urls trim_left trim_right in refl
split_urls-join_commas (x ∷ xs) h =
    ap kept_urls (split_commas-join_commas x xs h) ∙ kept_urls-All (x ∷ xs) h

IsPlain-trim_left : (s : String) → IsPlain s → IsPlain (trim_left s)
unfolding trim_left
IsPlain-trim_left String.[] h = tt
IsPlain-trim_left (String.◌∷◌ c s) h = elim (Bool-cases (is_space c)) [
  | inl space ↦ rw space (IsPlain-trim_left s h.1)
  | inr other ↦ rw other h
]

IsPlain-trim_right : (s : String) → IsPlain s → IsPlain (trim_right s)
unfolding trim_right
IsPlain-trim_right String.[] h = tt
IsPlain-trim_right (String.◌∷◌ c s) h = elim (Bool-cases (is_space c && is_blank (trim_right s))) [
  | inl gone ↦ rw gone tt
  | inr stays ↦ rw stays (h.0, IsPlain-trim_right s h.1)
]

trim_right-idempotent : (s : String) → trim_right (trim_right s) ≡ trim_right s
unfolding trim_right
trim_right-idempotent String.[] = refl
trim_right-idempotent (String.◌∷◌ c s) = elim (Bool-cases (is_space c && is_blank (trim_right s))) [
  | inl gone ↦ rw gone refl
  | inr stays ↦ rw (stays, trim_right-idempotent s, stays) refl
]

-- No space in front.
abbrev pub IsTight : String → Type 0
IsTight String.[] = Unit
IsTight (String.◌∷◌ c s) = is_space c ≡ false

trim_left-IsTight : (s : String) → IsTight (trim_left s)
unfolding trim_left
trim_left-IsTight String.[] = tt
trim_left-IsTight (String.◌∷◌ c s) = elim (Bool-cases (is_space c)) [
  | inl space ↦ rw space (trim_left-IsTight s)
  | inr other ↦ rw other other
]

trim_left-tight : (s : String) → IsTight s → trim_left (trim_right s) ≡ trim_right s
unfolding trim_left trim_right
trim_left-tight String.[] h = refl
trim_left-tight (String.◌∷◌ c s) h = rw (h, h) refl

trim_right-IsTight : (s : String) → IsTight s → IsTight (trim_right s)
unfolding trim_right
trim_right-IsTight String.[] h = tt
trim_right-IsTight (String.◌∷◌ c s) h = rw h h

pub trim_space-IsTight : (s : String) → IsTight (trim_space s)
trim_space-IsTight s = trim_right-IsTight (trim_left s) (trim_left-IsTight s)

trim_space-idempotent : (s : String) → trim_space (trim_space s) ≡ trim_space s
trim_space-idempotent s =
    ap trim_right (trim_left-tight (trim_left s) (trim_left-IsTight s))
    ∙ trim_right-idempotent (trim_left s)

split_commas-IsPlain : (s : String) → All IsPlain (split_commas s)
unfolding split_commas
split_commas-IsPlain String.[] = (tt, tt)
split_commas-IsPlain (String.◌∷◌ c s) = elim (Bool-cases (is_comma c)) [
  | inl comma ↦ rw comma (tt, split_commas-IsPlain s)
  | inr other ↦ rw other (prepended other (split_commas s) (split_commas-IsPlain s))
]
  where
    prepended :
        is_comma c ≡ false → (ps : List String) → All IsPlain ps → All IsPlain (prepend c ps)
    prepended other [] h = tt
    prepended other (p ∷ ps) h = ((other, h.0), h.1)

kept_urls-IsUrl : (ps : List String) → All IsPlain ps → All IsUrl (kept_urls ps)
unfolding kept_urls
kept_urls-IsUrl [] h = tt
kept_urls-IsUrl (p ∷ ps) h = elim (Bool-cases (is_blank (trim_space p))) [
  | inl blank ↦ rw blank (kept_urls-IsUrl ps h.1)
  | inr text ↦ rw text (
    (IsPlain-trim_right (trim_left p) (IsPlain-trim_left p h.0), trim_space-idempotent p, text),
    kept_urls-IsUrl ps h.1,
  )
]

pub split_urls-IsUrl : (s : String) → All IsUrl (split_urls s)
unfolding split_urls
split_urls-IsUrl s = kept_urls-IsUrl (split_commas s) (split_commas-IsPlain s)
