-- ===== src/Cache/Laws.antt =====
-- The operations of cache.go: what they keep of a cache, and what they find.
use go_ds_s3_walrus.Common.{
  ℕ, zero, suc, ◌+◌, ◌-◌, ◌^◌, ◌≤◌, ◌<◌, String, ◌≡◌, ◌≢◌, refl, ap, ◌∙◌, none, some, List, [], ◌∷◌,
  length, All, arith, inl, inr, Bool-cases, Option-cases,
}
use go_ds_s3_walrus.Common.Int.{ℤ, pos, half_word, add64, sub64, add64-pos, sub64-pos, ltb_ℤ}
use go_ds_s3_walrus.Common.Assoc.{lookup}
use go_ds_s3_walrus.Index.{Bytes}
use go_ds_s3_walrus.Cache.{
  Element, BlobCache, element, back, hit, get, write, drop_element, evict, add,
}
use go_ds_s3_walrus.Cache.Elements.{
  element-id, All-removed, All-element, total, total-removed, back-element, length-removed_lt,
}
use go_ds_s3_walrus.Cache.Links.{Linked, move-Linked, drop-Linked, push-Linked}

-- The bookkeeping of a cache with a budget of `m` bytes, and of `k` for an entry.
pub record IsKept (m k : ℕ) (c : BlobCache) : Type 0 where
  pub links : Linked c.items c.fresh c.ll
  pub bytes : c.cur_bytes ≡ pos (total c.ll)
  pub entries : All (λ e. length e.content ≤ k) c.ll
  pub max_bytes : c.max_bytes ≡ pos m
  pub max_entry_size : c.max_entry_size ≡ pos k
  pub share : k ≤ m

-- Besides, it is within its budget.
abbrev pub IsCache : ℕ → ℕ → BlobCache → Type 0
IsCache m k c = IsKept m k c × (total c.ll ≤ m)

-- The wrapping sum of Go that replaces an entry's size by another is exact.
swapped_bytes :
    (t n o : ℕ)
    → o ≤ t
    → t + n < half_word
    → add64 (pos t) (sub64 (pos n) (pos o)) ≡ pos (t + n - o)
unfolding add64 sub64
swapped_bytes t n o h k = ground arith

hit-IsCache :
    (m k : ℕ) (c : BlobCache) (i : ℕ) → IsCache m k c → IsCache m k (hit c (element i c.ll)).1
hit-IsCache m k c i (h, fits) = elim (Option-cases (element i c.ll)) [
  | inl absent ↦ rw absent (h, fits)
  | inr (e, found) ↦
      let id = element-id i c.ll e found in
      let here : element e.id c.ll ≡ some e = ap (λ j. element j c.ll) id ∙ found in
      let same = total-removed e.id c.ll e h.links.unique here in
      rw found (
        record {
          links = move-Linked c.items c.fresh c.ll e e here refl refl h.links;
          bytes = h.bytes ∙ ap pos (omega (arith, same));
          entries = (All-element _ i c.ll e h.entries found, All-removed _ e.id c.ll h.entries);
          max_bytes = h.max_bytes;
          max_entry_size = h.max_entry_size;
          share = h.share;
        },
        omega (arith, same, fits),
      )
]

pub get-IsCache :
    (m k : ℕ) (key : String) (c : BlobCache) → IsCache m k c → IsCache m k (get key c).1
unfolding get
get-IsCache m k key c h = elim (Option-cases (lookup key c.items)) [
  | inl absent ↦ rw absent h
  | inr (i, found) ↦ rw found (hit-IsCache m k c i h)
]

module _ (m k : ℕ) where
  pub drop-IsKept :
      (c : BlobCache) (e : Element)
      → back c.ll ≡ some e
      → total c.ll < half_word
      → IsKept m k c
      → IsKept m k (drop_element c e)
        × (total (drop_element c e).ll < half_word)
        × (length (drop_element c e).ll < length c.ll)
  drop-IsKept c e last small h =
      let here = back-element c.ll e h.links.unique last in
      let same = total-removed e.id c.ll e h.links.unique here in
      (
        record {
          links = drop-Linked c.items c.fresh c.ll e here h.links;
          bytes =
              ap (λ (x : ℤ). sub64 x (pos (length e.content))) h.bytes
              ∙ sub64-pos (total c.ll) (length e.content) (omega (arith, same)) small
              ∙ ap pos (omega (arith, same));
          entries = All-removed _ e.id c.ll h.entries;
          max_bytes = h.max_bytes;
          max_entry_size = h.max_entry_size;
          share = h.share;
        },
        omega (arith, same, small),
        length-removed_lt e.id c.ll e here,
      )

  back-none : (ll : List Element) → back ll ≡ none → total ll ≡ 0
  unfolding back
  back-none [] h = refl
  back-none (e ∷ []) h = absurd (cc h)
  back-none (e ∷ f ∷ ll) h = absurd (never (f ∷ ll) f ll refl h)
    where
      never : (xs : List Element) (g : Element) (ys : List Element) → xs ≡ g ∷ ys → back xs ≢ none
      never xs g [] s b = absurd (cc (rw s at b))
      never xs g (y ∷ ys) s b = never (y ∷ ys) y ys refl (rw s at b)

  -- With fuel for its elements the loop brings the cache within its budget.
  pub evict-IsCache :
      (fuel : ℕ) (c : BlobCache)
      → length c.ll ≤ fuel
      → total c.ll < half_word
      → IsKept m k c
      → IsCache m k (evict fuel c)
  unfolding evict
  evict-IsCache zero c enough small h = (h, no_bytes c.ll enough)
    where
      no_bytes : (ll : List Element) → length ll ≤ 0 → total ll ≤ m
      no_bytes [] l = omega arith
      no_bytes (e ∷ ll) l = absurd (omega (arith, l))
  evict-IsCache (suc fuel) c enough small h = elim (Bool-cases (ltb_ℤ c.max_bytes c.cur_bytes)) [
    | inr within ↦ rw within (h, ground (arith, within, h.bytes, h.max_bytes))
    | inl over ↦ elim (Option-cases (back c.ll)) [
      | inl empty ↦ rw (over, empty) (h, omega (arith, back-none c.ll empty))
      | inr (e, last) ↦
          let (kept, small', fewer) = drop-IsKept c e last small h in
          rw (over, last)
            (evict-IsCache fuel (drop_element c e) (omega (arith, fewer, enough)) small' kept)
    ]
  ]

  module _ (roomy : m < 2 ^ 62) where
    pub write-IsKept :
        (key : String) (content : Bytes) (c : BlobCache)
        → length content ≤ k
        → IsCache m k c
        → IsKept m k (write key content c (lookup key c.items))
          × (total (write key content c (lookup key c.items)).ll < half_word)
    write-IsKept key content c fits (h, within) = elim (Option-cases (lookup key c.items)) [
      | inl absent ↦ rw absent (
        record {
          links = push-Linked c.items c.fresh c.ll key content absent h.links;
          bytes =
              ap (λ (x : ℤ). add64 x (pos (length content))) h.bytes
              ∙ add64-pos (total c.ll) (length content)
                  (omega (arith, within, fits, h.share, roomy))
              ∙ ap pos (omega arith);
          entries = (fits, h.entries);
          max_bytes = h.max_bytes;
          max_entry_size = h.max_entry_size;
          share = h.share;
        },
        omega (arith, within, fits, h.share, roomy),
      )
      | inr (i, found) ↦
          let (old, there, same) = h.links.keyed key i found in
          let id = element-id i c.ll old there in
          let here : element old.id c.ll ≡ some old = ap (λ j. element j c.ll) id ∙ there in
          let sum = total-removed old.id c.ll old h.links.unique here in
          rw (found, there)
            (
              record {
                links =
                    move-Linked c.items c.fresh c.ll old (record old { content = content }) here
                      refl refl h.links;
                bytes =
                    ap
                      (λ (x : ℤ). add64 x (sub64 (pos (length content)) (pos (length old.content))))
                      h.bytes
                    ∙ swapped_bytes (total c.ll) (length content) (length old.content)
                        (omega (arith, sum)) (omega (arith, within, fits, h.share, roomy))
                    ∙ ap pos (omega (arith, sum));
                entries = (fits, All-removed _ old.id c.ll h.entries);
                max_bytes = h.max_bytes;
                max_entry_size = h.max_entry_size;
                share = h.share;
              },
              omega (arith, sum, within, fits, h.share, roomy),
            )
    ]

    -- After an `add` the map and the list still agree, `cur_bytes` is still the sum of the entries, no entry
    -- is larger than its share, and all together are within the budget. (The budget is below 2^62.)
    pub add-IsCache :
        (key : String) (content : Bytes) (c : BlobCache)
        → IsCache m k c
        → IsCache m k (add key content c)
    unfolding add
    add-IsCache key content c h =
        elim (Bool-cases (ltb_ℤ c.max_entry_size (pos (length content)))) [
          | inl large ↦ rw large h
          | inr small ↦
              let fits : length content ≤ k = ground (arith, small, h.0.max_entry_size) in
              let (kept, few) = write-IsKept key content c fits h in
              rw small (evict-IsCache _ _ (omega arith) few kept)
        ]
