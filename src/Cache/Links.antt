-- ===== src/Cache/Links.antt =====
-- The list and the map of a cache of cache.go: each element of the list is the one that the map has
-- for its key.
use go_ds_s3_walrus.Common.{
  ℕ, suc, ◌<◌, String, false, ◌≡◌, ap, sym, ◌∙◌, none, some, List, [], ◌∷◌, All, All-map, arith,
  eq_iff, str_eq, inl, inr, ◌==◌, Bool-cases,
}
use go_ds_s3_walrus.Common.Assoc.{
  Assoc, lookup, insert, remove_all, lookup-insert, lookup-remove_all,
}
use go_ds_s3_walrus.Index.{Bytes}
use go_ds_s3_walrus.Cache.{Element, element, removed}
use go_ds_s3_walrus.Cache.Elements.{
  element-removed, element-id, Unique, Unique-removed, All-removed, All-element, young-absent,
  ==→eq,
}

pub record Linked (items : Assoc ℕ) (fresh : ℕ) (ll : List Element) : Type 0 where
  pub unique : Unique ll
  pub linked : All (λ e. lookup e.key items ≡ some e.id) ll
  pub keyed :
      (key : String) (i : ℕ)
      → lookup key items ≡ some i
      → (e : Element) × (element i ll ≡ some e) × (e.key ≡ key)
  pub young : All (λ e. e.id < fresh) ll

module _ (items : Assoc ℕ) (fresh : ℕ) (ll : List Element) where
  -- An element goes to the front, with other data.
  pub move-Linked :
      (old new : Element)
      → element old.id ll ≡ some old
      → new.id ≡ old.id
      → new.key ≡ old.key
      → Linked items fresh ll
      → Linked items fresh (new ∷ removed old.id ll)
  unfolding element
  move-Linked old new h id key l = record {
    unique =
        (ground (arith, id, element-removed old.id new.id ll), Unique-removed old.id ll l.unique);
    linked = (
      ap (λ k. lookup k items) key ∙ All-element _ old.id ll old l.linked h ∙ ap some (sym id),
      All-removed _ old.id ll l.linked,
    );
    keyed = λ k i found.
        let (e, there, same) = l.keyed k i found in
        elim (Bool-cases (old.id == i)) [
          | inr other ↦ (e, ground (arith, id, other, there, element-removed old.id i ll), same)
          | inl here ↦
              let shape : old ≡ e = cc (h, there, ==→eq old.id i here) in
              (new, ground (arith, id, here), key ∙ ap (λ (x : Element). x.key) shape ∙ same)
        ];
    young = (
      rw id (All-element (λ e. e.id < fresh) old.id ll old l.young h),
      All-removed _ old.id ll l.young,
    );
  }

  -- An element goes, with its key.
  pub drop-Linked :
      (e : Element)
      → element e.id ll ≡ some e
      → Linked items fresh ll
      → Linked (remove_all (e.key ∷ []) items) fresh (removed e.id ll)
  unfolding removed
  drop-Linked e h l = record {
    unique = Unique-removed e.id ll l.unique;
    linked = still_linked ll l.linked;
    keyed = λ k i found.
        let was : lookup k items ≡ some i =
          ground (arith, lookup-remove_all (e.key ∷ []) k items, found) in
        let other : str_eq e.key k ≡ false =
          ground (arith, lookup-remove_all (e.key ∷ []) k items, found) in
        let (f, there, same) = l.keyed k i was in
        elim (Bool-cases (e.id == i)) [
          | inr differs ↦ (f, ground (arith, differs, there, element-removed e.id i ll), same)
          | inl here ↦
              let shape : e ≡ f = cc (h, there, ==→eq e.id i here) in
              absurd
                (ground (arith, other, eq_iff e.key k, ap (λ (x : Element). x.key) shape, same))
        ];
    young = All-removed _ e.id ll l.young;
  }
    where
      mine : lookup e.key items ≡ some e.id
      mine = All-element (λ f. lookup f.key items ≡ some f.id) e.id ll e l.linked h

      still_linked :
          (xs : List Element)
          → All (λ f. lookup f.key items ≡ some f.id) xs
          → All (λ f. lookup f.key (remove_all (e.key ∷ []) items) ≡ some f.id) (removed e.id xs)
      still_linked [] k = tt
      still_linked (f ∷ xs) k = elim (Bool-cases (f.id == e.id)) [
        | inl same ↦ rw same (still_linked xs k.1)
        | inr other ↦ rw other (
          ground (
            arith,
            lookup-remove_all (e.key ∷ []) f.key items,
            eq_iff e.key f.key,
            k.0,
            mine,
            other,
          ),
          still_linked xs k.1,
        )
      ]

  -- A new element.
  pub push-Linked :
      (key : String) (content : Bytes)
      → lookup key items ≡ none
      → Linked items fresh ll
      → Linked
          (insert key fresh items)
          (suc fresh)
          (record { id = fresh; key = key; content = content } ∷ ll)
  unfolding element
  push-Linked key content absent l = record {
    unique = (young-absent fresh ll l.young, l.unique);
    linked = (
      ground (arith, lookup-insert key fresh items key, eq_iff key key),
      All-map _ _ ll
          (λ e k. ground (arith, lookup-insert key fresh items e.key, eq_iff key e.key, k, absent))
          l.linked,
    );
    keyed = λ k i found. elim (Bool-cases (str_eq key k)) [
      | inl same ↦
          let id : fresh ≡ i = ground (arith, lookup-insert key fresh items k, same, found) in
          (
            record { id = fresh; key = key; content = content },
            ground (arith, id),
            (eq_iff key k).0 same,
          )
      | inr other ↦
          let was : lookup k items ≡ some i =
            ground (arith, lookup-insert key fresh items k, other, found) in
          let (e, there, same) = l.keyed k i was in
          let before : e.id < fresh = All-element (λ f. f.id < fresh) i ll e l.young there in
          (e, ground (arith, there, before, element-id i ll e there), same)
    ];
    young = (omega arith, All-map _ _ ll (λ e k. omega (arith, k)) l.young);
  }
