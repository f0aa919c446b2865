-- ===== src/Cache/Contents.antt =====
-- What cache.go finds for a key, before and after its operations.
use go_ds_s3_walrus.Common.{
  ℕ, zero, suc, ◌≤◌, ◌<◌, String, true, false, ◌≡◌, refl, ap, sym, ◌∙◌, Option, none, some, List,
  [], ◌∷◌, length, arith, ◌⊎◌, inl, inr, ◌==◌, Bool-cases, Option-cases,
}
use go_ds_s3_walrus.Common.Int.{half_word, ltb_ℤ}
use go_ds_s3_walrus.Common.Assoc.{lookup, lookup-remove_all}
use go_ds_s3_walrus.Index.{Bytes}
use go_ds_s3_walrus.Cache.{Element, BlobCache, element, removed, back, get, drop_element, evict}
use go_ds_s3_walrus.Cache.Elements.{element-removed, element-id, total, back-element}
use go_ds_s3_walrus.Cache.Laws.{IsKept, drop-IsKept}

-- The bytes for a key.
abbrev pub found : String → BlobCache → Option Bytes
found key c = (get key c).0

get-moved :
    (i : ℕ) (e : Element) (key : String) (c : BlobCache)
    → element i c.ll ≡ some e
    → found key (record c { ll = e ∷ removed e.id c.ll }) ≡ found key c
unfolding get element
get-moved i e key c h = elim (Option-cases (lookup key c.items)) [
  | inl absent ↦ rw (found, absent)
  | inr (j, there) ↦ elim (Bool-cases (e.id == j)) [
    | inr other ↦ rw (found, there) (ground (arith, other, element-removed e.id j c.ll))
    | inl same ↦
        let id : i ≡ j = ground (arith, same, element-id i c.ll e h) in
        let here : element j c.ll ≡ some e = ap (λ x. element x c.ll) (sym id) ∙ h in
        rw (found, there, here) (ground (arith, same))
  ]
]

pub get-keeps : (key other : String) (c : BlobCache) → found other (get key c).1 ≡ found other c
get-keeps key other c = elim (Option-cases (lookup key c.items)) [
  | inl absent ↦ unfold get in rw absent
  | inr (i, there) ↦ elim (Option-cases (element i c.ll)) [
    | inl lost ↦ unfold get in rw (there, lost)
    | inr (e, here) ↦ ap (λ x. found other x) (moved i e there here) ∙ get-moved i e other c here
  ]
]
  where
    moved :
        (i : ℕ) (e : Element)
        → lookup key c.items ≡ some i
        → element i c.ll ≡ some e
        → (get key c).1 ≡ record c { ll = e ∷ removed e.id c.ll }
    moved i e there here = unfold get in rw (there, here)

-- What is found is what was found, or nothing.
abbrev pub IsLess : String → BlobCache → BlobCache → Type 0
IsLess key c c' = (found key c' ≡ none) ⊎ (found key c' ≡ found key c)

drop-IsLess : (key : String) (c : BlobCache) (e : Element) → IsLess key c (drop_element c e)
unfolding get
drop-IsLess key c e = elim (Option-cases (lookup key (drop_element c e).items)) [
  | inl gone ↦ inl (rw (found, gone))
  | inr (i, there) ↦
      let was : lookup key c.items ≡ some i =
        ground (arith, lookup-remove_all (e.key ∷ []) key c.items, there) in
      elim (Option-cases (element i (removed e.id c.ll))) [
        | inl lost ↦ inl (rw (found, there, lost))
        | inr (f, here) ↦
            let before : element i c.ll ≡ some f =
              ground (arith, here, element-removed e.id i c.ll) in
            inr (rw (found, there, here, was, before))
      ]
]

pub evict-IsLess : (fuel : ℕ) (key : String) (c : BlobCache) → IsLess key c (evict fuel c)
unfolding evict
evict-IsLess zero key c = inr refl
evict-IsLess (suc fuel) key c = elim (Bool-cases (ltb_ℤ c.max_bytes c.cur_bytes)) [
  | inr within ↦ rw within (inr refl)
  | inl over ↦ elim (Option-cases (back c.ll)) [
    | inl empty ↦ rw (over, empty) (inr refl)
    | inr (e, last) ↦
        rw (over, last)
          (elim (evict-IsLess fuel key (drop_element c e)) [
            | inl gone ↦ inl gone
            | inr same ↦ elim (drop-IsLess key c e) [
              | inl gone ↦ inl (same ∙ gone)
              | inr same' ↦ inr (same ∙ same')
            ]
          ])
  ]
]

-- The element at the front of the list.
abbrev pub IsFirst : Element → BlobCache → Type 0
IsFirst e c = (rest : List Element) × (c.ll ≡ e ∷ rest)

-- Over budget, with a front element that fits by itself, the back is another one.
drop-IsFirst :
    (m k : ℕ) (c : BlobCache) (e b : Element)
    → IsKept m k c
    → length e.content ≤ k
    → ltb_ℤ c.max_bytes c.cur_bytes ≡ true
    → back c.ll ≡ some b
    → IsFirst e c
    → IsFirst e (drop_element c b)
unfolding back element removed
drop-IsFirst m k c e b h fits over last ([], shape) =
    let alone : total c.ll ≡ length e.content = ap total shape ∙ omega arith in
    absurd (ground (arith, over, h.max_bytes, h.bytes, alone, fits, h.share))
drop-IsFirst m k c e b h fits over last (f ∷ rest, shape) =
    let unique = rw shape at h.links.unique in
    let later = back-element (f ∷ rest) b unique.1 (rw shape at last) in
    let differs : (e.id == b.id) ≡ false =
      ground (arith, unique.0, later, eq_at e.id b.id (f ∷ rest)) in
    (removed b.id (f ∷ rest), ap (λ ll. removed b.id ll) shape ∙ rw differs)
  where
    eq_at : (i j : ℕ) (ll : List Element) → (i == j) ≡ true → element i ll ≡ element j ll
    eq_at i j ll same = let e : i ≡ j = ground (arith, same) in rw e

module _ (m k : ℕ) where
  pub evict-IsFirst :
      (fuel : ℕ) (c : BlobCache) (e : Element)
      → IsKept m k c
      → total c.ll < half_word
      → length e.content ≤ k
      → IsFirst e c
      → IsFirst e (evict fuel c)
  unfolding evict
  evict-IsFirst zero c e h small fits first = first
  evict-IsFirst (suc fuel) c e h small fits first =
      elim (Bool-cases (ltb_ℤ c.max_bytes c.cur_bytes)) [
        | inr within ↦ rw within first
        | inl over ↦ elim (Option-cases (back c.ll)) [
          | inl empty ↦ rw (over, empty) first
          | inr (b, last) ↦
              let (kept, small', _) = drop-IsKept m k c b last small h in
              rw (over, last)
                (evict-IsFirst fuel (drop_element c b) e kept small' fits
                  (drop-IsFirst m k c e b h fits over last first))
        ]
      ]

  -- What stands at the front is found.
  pub found-IsFirst :
      (c : BlobCache) (e : Element) → IsKept m k c → IsFirst e c → found e.key c ≡ some e.content
  unfolding get element
  found-IsFirst c e h (rest, shape) =
      let linked = rw shape at h.links.linked in
      let there : lookup e.key c.items ≡ some e.id = linked.0 in
      let here : element e.id c.ll ≡ some e = ap (element e.id) shape ∙ ground arith in
      rw (found, there, here) refl
