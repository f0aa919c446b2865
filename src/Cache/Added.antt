-- ===== src/Cache/Added.antt =====
-- What cache.go finds after an `add`.
use go_ds_s3_walrus.Common.{
  ℕ, ◌^◌, ◌≤◌, ◌<◌, String, false, ◌≡◌, refl, ap, sym, ◌∙◌, some, length, arith, eq_iff, str_eq,
  inl, inr, ◌==◌, Bool-cases, Option-cases,
}
use go_ds_s3_walrus.Common.Int.{pos, ltb_ℤ}
use go_ds_s3_walrus.Common.Assoc.{lookup, insert, lookup-insert}
use go_ds_s3_walrus.Index.{Bytes}
use go_ds_s3_walrus.Cache.{Element, BlobCache, element, removed, get, write, evict, add}
use go_ds_s3_walrus.Cache.Elements.{element-removed, element-id, All-element, ==→eq}
use go_ds_s3_walrus.Cache.Laws.{IsKept, IsCache, evict-IsCache, write-IsKept}
use go_ds_s3_walrus.Cache.Contents.{
  found, IsLess, IsFirst, evict-IsLess, evict-IsFirst, found-IsFirst,
}

write-IsFirst :
    (m k : ℕ) (key : String) (content : Bytes) (c : BlobCache)
    → IsKept m k c
    → (e : Element) × IsFirst e (write key content c (lookup key c.items))
      × (e.key ≡ key)
      × (e.content ≡ content)
write-IsFirst m k key content c h = elim (Option-cases (lookup key c.items)) [
  | inl absent ↦
      rw absent (record { id = c.fresh; key = key; content = content }, (c.ll, refl), refl, refl)
  | inr (i, there) ↦
      let (old, here, same) = h.links.keyed key i there in
      rw (there, here) (record old { content = content }, (removed old.id c.ll, refl), same, refl)
]

write-others :
    (m k : ℕ) (key other : String) (content : Bytes) (c : BlobCache)
    → IsKept m k c
    → str_eq key other ≡ false
    → found other (write key content c (lookup key c.items)) ≡ found other c
unfolding get element
write-others m k key other content c h differs = elim (Option-cases (lookup key c.items)) [
  | inl absent ↦ rw absent (elim (Option-cases (lookup other c.items)) [
    | inl unknown ↦
        rw (found, unknown)
          (ground (arith, lookup-insert key c.fresh c.items other, unknown, differs))
    | inr (j, known) ↦
        let (f, here, _) = h.links.keyed other j known in
        let young = All-element (λ x. x.id < c.fresh) j c.ll f h.links.young here in
        let still : lookup other (insert key c.fresh c.items) ≡ some j =
          ground (arith, lookup-insert key c.fresh c.items other, known, differs) in
        let newer : (c.fresh == j) ≡ false = ground (arith, young, element-id j c.ll f here) in
        rw (found, still, known, newer, here) refl
  ])
  | inr (i, there) ↦
      let (old, mine, same) = h.links.keyed key i there in
      let id = element-id i c.ll old mine in
      rw (there, mine)
        (elim (Option-cases (lookup other c.items)) [
          | inl unknown ↦ rw (found, unknown) refl
          | inr (j, known) ↦
              let (f, here, other_key) = h.links.keyed other j known in
              let apart : (old.id == j) ≡ false = elim (Bool-cases (old.id == j)) [
                | inr differ ↦ differ
                | inl alike ↦
                    let at : element j c.ll ≡ some old =
                      ap (λ x. element x c.ll) (sym (==→eq old.id j alike) ∙ id) ∙ mine in
                    let shape : old ≡ f = cc (at, here) in
                    absurd (
                      ground (
                        arith,
                        differs,
                        eq_iff key other,
                        ap (λ (x : Element). x.key) shape,
                        same,
                        other_key,
                      ))
              ] in
              let stays : element j (removed old.id c.ll) ≡ element j c.ll =
                element-removed old.id j c.ll ∙ rw apart in
              rw (found, known, apart, stays, here) refl
        ])
]

-- A block within its share is found after an `add`, and a larger one changes nothing; for any other key what
-- was found is found, or nothing. (The budget is below 2^62.)
pub get-add :
    (m k : ℕ) (key : String) (content : Bytes) (c : BlobCache)
    → m < 2 ^ 62
    → IsCache m k c
    → (length content ≤ k → found key (add key content c) ≡ some content)
      × (k < length content → add key content c ≡ c)
      × ((other : String) → str_eq key other ≡ false → IsLess other c (add key content c))
unfolding add
get-add m k key content c roomy h =
    elim (Bool-cases (ltb_ℤ c.max_entry_size (pos (length content)))) [
      | inl large ↦ rw large (
        λ fits. absurd (ground (arith, fits, large, h.0.max_entry_size)),
        λ _. refl,
        λ other _. inr refl,
      )
      | inr small ↦
          let fits : length content ≤ k = ground (arith, small, h.0.max_entry_size) in
          let c' = write key content c (lookup key c.items) in
          let (kept, few) = write-IsKept m k roomy key content c fits h in
          let (e, first, same, value) = write-IsFirst m k key content c h.0 in
          let short : length e.content ≤ k =
            omega (arith, ap (λ (v : Bytes). length v) value, fits) in
          let first' = evict-IsFirst m k (length c'.ll) c' e kept few short first in
          let (kept', _) = evict-IsCache m k (length c'.ll) c' (omega arith) few kept in
          rw small (
            λ _.
                ap (λ j. found j (evict (length c'.ll) c')) (sym same)
                ∙ found-IsFirst m k (evict (length c'.ll) c') e kept' first'
                ∙ ap some value,
            λ over. absurd (omega (arith, over, fits)),
            λ other differs. elim (evict-IsLess (length c'.ll) other c') [
              | inl gone ↦ inl gone
              | inr stays ↦ inr (stays ∙ write-others m k key other content c h.0 differs)
            ],
          )
    ]
