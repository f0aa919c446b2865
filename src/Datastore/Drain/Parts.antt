-- ===== src/Datastore/Drain/Parts.antt =====
-- The names of the parts of a quilt, which `uploadQuiltPack` of walrus.go gives them by their positions.
use mathlib.Core.List.{Permᴰ}
use go_ds_s3_walrus.Common.{
  ℕ, suc, ◌+◌, ◌<◌, String, Bool, true, false, ◌≡◌, refl, ap, Option, some, none, List, [], ◌∷◌,
  map, length, contains, arith, inl, inr, Bool-cases, Option-cases, eq_iff, str_eq,
}
use go_ds_s3_walrus.Common.Int.{ℤ}
use go_ds_s3_walrus.Common.Decimal.{itoa, itoa-injective}
use go_ds_s3_walrus.Common.Result.{ok}
use go_ds_s3_walrus.Index.{Bytes}
use go_ds_s3_walrus.Index.Distinct.{distinct}
use go_ds_s3_walrus.Client.{StoreResult, QuiltPart, QuiltPatch, QuiltStoreResult, WalrusClient}
use go_ds_s3_walrus.Datastore.{BlockEntry}
use go_ds_s3_walrus.Datastore.Upload.{parts_from, block_by_id}
use go_ds_s3_walrus.Datastore.Named.{block_keys}

abbrev pub part_ids : List QuiltPart → List String
part_ids = map (λ q. q.identifier)

abbrev pub patch_ids : List QuiltPatch → List String
patch_ids = map (λ p. p.identifier)

-- A Walrus that accepts every blob, and every quilt whose parts have names of their own, with one patch for each part,
-- in any order.
pub record Accepts {N : Type 0} (client : WalrusClient N) : Type 0 where
  pub stored :
      (v : Bytes) (epochs : ℤ) (deletable : Bool) (n : N)
      → (res : StoreResult) × ((client.store v epochs deletable n).0 ≡ ok res)
  pub quilted :
      (parts : List QuiltPart) (epochs : ℤ) (deletable : Bool) (n : N)
      → distinct (part_ids parts) ≡ true
      → (res : QuiltStoreResult) × ((client.store_quilt parts epochs deletable n).0 ≡ ok res)
        × Permᴰ (patch_ids res.patches) (part_ids parts)

-- Names of different positions.
pub absent_before :
    (i j : ℕ) (pack : List BlockEntry)
    → i < j
    → contains (part_ids (parts_from j pack)) (itoa i) ≡ false
unfolding parts_from
absent_before i j [] h = refl
absent_before i j (e ∷ pack) h = ground (
  arith,
  h,
  eq_iff (itoa j) (itoa i),
  itoa-injective j i,
  absent_before i (j + 1) pack (omega (arith, h)),
)

pub parts_from-distinct :
    (i : ℕ) (pack : List BlockEntry) → distinct (part_ids (parts_from i pack)) ≡ true
unfolding parts_from
parts_from-distinct i [] = refl
parts_from-distinct i (e ∷ pack) =
    ground (arith, absent_before i (i + 1) pack (omega arith), parts_from-distinct (i + 1) pack)

pub length-ids : (patches : List QuiltPatch) → length (patch_ids patches) ≡ length patches
length-ids [] = refl
length-ids (p ∷ patches) = ap suc (length-ids patches)

pub length-parts :
    (i : ℕ) (pack : List BlockEntry) → length (part_ids (parts_from i pack)) ≡ length pack
unfolding parts_from
length-parts i [] = refl
length-parts i (e ∷ pack) = ap suc (length-parts (i + 1) pack)

-- The key for a name of a part.
abbrev pub key_or : Option BlockEntry → String
key_or none = ""
key_or (some e) = e.key

abbrev pub key_of : ℕ → List BlockEntry → String → String
key_of i pack id = key_or (block_by_id i pack id)

pub found :
    (i : ℕ) (pack : List BlockEntry) (id : String)
    → contains (part_ids (parts_from i pack)) id ≡ true
    → (e : BlockEntry) × (block_by_id i pack id ≡ some e)
unfolding parts_from block_by_id
found i [] id h = absurd (cc h)
found i (e ∷ pack) id h = elim (Bool-cases (contains (part_ids (parts_from (i + 1) pack)) id)) [
  | inl later ↦ let (f, e') = found (i + 1) pack id later in (f, rw e' refl)
  | inr not_later ↦
      let here : str_eq (itoa i) id ≡ true = ground (arith, h, not_later) in
      elim (Option-cases (block_by_id (i + 1) pack id)) [
        | inl none_later ↦ (e, rw (none_later, here) refl)
        | inr (f, e') ↦ (f, rw e' refl)
      ]
]

pub not_found :
    (i : ℕ) (pack : List BlockEntry) (id : String)
    → contains (part_ids (parts_from i pack)) id ≡ false
    → block_by_id i pack id ≡ none
unfolding parts_from block_by_id
not_found i [] id h = refl
not_found i (e ∷ pack) id h = ground (arith, h, not_found (i + 1) pack id)

pub key_of-later :
    (i : ℕ) (e : BlockEntry) (pack : List BlockEntry) (id : String)
    → contains (part_ids (parts_from (i + 1) pack)) id ≡ true
    → key_of i (e ∷ pack) id ≡ key_of (i + 1) pack id
key_of-later i e pack id h =
    let (f, later) = found (i + 1) pack id h in unfold block_by_id in rw later refl

pub map-key_of-later :
    (i : ℕ) (e : BlockEntry) (pack : List BlockEntry) (ids : List String)
    → ((id : String)
        → contains ids id ≡ true
        → contains (part_ids (parts_from (i + 1) pack)) id ≡ true)
    → map (key_of i (e ∷ pack)) ids ≡ map (key_of (i + 1) pack) ids
map-key_of-later i e pack [] sub = refl
map-key_of-later i e pack (id ∷ ids) sub =
    rw
      (
        key_of-later i e pack id (sub id (ground (arith, eq_iff id id))),
        map-key_of-later i e pack ids (λ j h. sub j (ground (arith, h))),
      )
      refl

-- Each name of a part is the name of its block.
pub map-key_of :
    (i : ℕ) (pack : List BlockEntry)
    → map (key_of i pack) (part_ids (parts_from i pack)) ≡ block_keys pack
unfolding parts_from
map-key_of i [] = refl
map-key_of i (e ∷ pack) =
    let here : str_eq (itoa i) (itoa i) ≡ true = (eq_iff (itoa i) (itoa i)).1 refl in
    let none_later = not_found (i + 1) pack (itoa i) (absent_before i (i + 1) pack (omega arith)) in
    let head : key_of i (e ∷ pack) (itoa i) ≡ e.key =
      unfold block_by_id in rw (none_later, here) refl in
    rw
      (
        head,
        map-key_of-later i e pack (part_ids (parts_from (i + 1) pack)) (λ id h. h),
        map-key_of (i + 1) pack,
      )
      refl
