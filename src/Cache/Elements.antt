-- ===== src/Cache/Elements.antt =====
-- The elements of the list of cache.go: which one a number names, and what is left without one.
use go_ds_s3_walrus.Common.{
  ℕ, ◌+◌, ◌<◌, ◌≤◌, true, ◌≡◌, refl, ap, none, some, List, [], ◌∷◌, length, All, sum_of, arith, inl,
  inr, if◌then◌else◌, ◌==◌, Bool-cases,
}
use go_ds_s3_walrus.Cache.{Element, element, removed, back}

pub element-removed :
    (i j : ℕ) (ll : List Element)
    → element j (removed i ll) ≡ (if i == j then none else element j ll)
unfolding element removed
element-removed i j [] = ground arith
element-removed i j (e ∷ ll) = ground (arith, element-removed i j ll)

pub element-id : (i : ℕ) (ll : List Element) (e : Element) → element i ll ≡ some e → e.id ≡ i
unfolding element
element-id i [] e h = absurd (cc h)
element-id i (f ∷ ll) e h = elim (Bool-cases (f.id == i)) [
  | inl same ↦ let shape : f ≡ e = cc (rw same at h) in rw (← shape) (ground (arith, same))
  | inr other ↦ element-id i ll e (rw other at h)
]

pub removed-absent : (i : ℕ) (ll : List Element) → element i ll ≡ none → removed i ll ≡ ll
unfolding element removed
removed-absent i [] h = refl
removed-absent i (e ∷ ll) h = elim (Bool-cases (e.id == i)) [
  | inl same ↦ absurd (cc (rw same at h))
  | inr other ↦ rw other (ap (λ xs. e ∷ xs) (removed-absent i ll (rw other at h)))
]

-- No element stands twice in the list.
abbrev pub Unique : List Element → Type 0
Unique [] = Unit
Unique (e ∷ ll) = (element e.id ll ≡ none) × Unique ll

pub Unique-removed : (i : ℕ) (ll : List Element) → Unique ll → Unique (removed i ll)
unfolding removed
Unique-removed i [] u = tt
Unique-removed i (e ∷ ll) u = elim (Bool-cases (e.id == i)) [
  | inl same ↦ rw same (Unique-removed i ll u.1)
  | inr other ↦ rw other (ground (arith, element-removed i e.id ll, u.0), Unique-removed i ll u.1)
]

pub All-removed :
    (P : Element → Type 0) (i : ℕ) (ll : List Element) → All P ll → All P (removed i ll)
unfolding removed
All-removed P i [] h = tt
All-removed P i (e ∷ ll) h = elim (Bool-cases (e.id == i)) [
  | inl same ↦ rw same (All-removed P i ll h.1)
  | inr other ↦ rw other (h.0, All-removed P i ll h.1)
]

pub All-element :
    (P : Element → Type 0) (i : ℕ) (ll : List Element) (e : Element)
    → All P ll
    → element i ll ≡ some e
    → P e
unfolding element
All-element P i [] e h k = absurd (cc k)
All-element P i (f ∷ ll) e h k = elim (Bool-cases (f.id == i)) [
  | inl same ↦ let shape : f ≡ e = cc (rw same at k) in rw (← shape) h.0
  | inr other ↦ All-element P i ll e h.1 (rw other at k)
]

abbrev pub total : List Element → ℕ
total = sum_of (λ (e : Element). length e.content)

pub total-removed :
    (i : ℕ) (ll : List Element) (e : Element)
    → Unique ll
    → element i ll ≡ some e
    → total (removed i ll) + length e.content ≡ total ll
unfolding element removed
total-removed i [] e u h = absurd (cc h)
total-removed i (f ∷ ll) e u h = elim (Bool-cases (f.id == i)) [
  | inr other ↦ rw other (omega (arith, total-removed i ll e u.1 (rw other at h)))
  | inl same ↦
      let shape : f ≡ e = cc (rw same at h) in
      let id : f.id ≡ i = ground (arith, same) in
      rw (same, removed-absent i ll (rw id at u.0), ← shape) (omega arith)
]

-- The element at the back is in the list.
pub back-element :
    (ll : List Element) (e : Element) → Unique ll → back ll ≡ some e → element e.id ll ≡ some e
unfolding back element
back-element [] e u h = absurd (cc h)
back-element (f ∷ []) e u h = let shape : f ≡ e = cc h in rw (← shape) (ground arith)
back-element (f ∷ g ∷ ll) e u h =
    let later = back-element (g ∷ ll) e u.1 h in ground (arith, later, u.0)

pub length-removed : (i : ℕ) (ll : List Element) → length (removed i ll) ≤ length ll
unfolding removed
length-removed i [] = omega arith
length-removed i (e ∷ ll) = ground (arith, length-removed i ll)

pub length-removed_lt :
    (i : ℕ) (ll : List Element) (e : Element)
    → element i ll ≡ some e
    → length (removed i ll) < length ll
unfolding element removed
length-removed_lt i [] e h = absurd (cc h)
length-removed_lt i (f ∷ ll) e h = elim (Bool-cases (f.id == i)) [
  | inl same ↦ rw same (omega (arith, length-removed i ll))
  | inr other ↦ rw other (omega (arith, length-removed_lt i ll e (rw other at h)))
]

pub young-absent :
    (fresh : ℕ) (ll : List Element) → All (λ e. e.id < fresh) ll → element fresh ll ≡ none
unfolding element
young-absent fresh [] h = refl
young-absent fresh (e ∷ ll) h = ground (arith, young-absent fresh ll h.1, h.0)

pub ==→eq : (i j : ℕ) → (i == j) ≡ true → i ≡ j
==→eq i j same = ground (arith, same)
