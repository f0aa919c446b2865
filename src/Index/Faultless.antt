-- ===== src/Index/Faultless.antt =====
-- The claims of index.go on a server without faults.
use go_ds_s3_walrus.Common.{
  ℕ, suc, ◌≤◌, ◌<◌, String, Bool, true, false, ◌≡◌, refl, ap, ◌∙◌, Option, some, none, List, [],
  ◌∷◌, length, take, contains, arith, inl, inr, Bool-cases, All, All-map, eq_iff, str_eq, ◌==◌,
}
use go_ds_s3_walrus.Common.Int.{ℤ, pos, half_word, add64-pos, leb_ℤ}
use go_ds_s3_walrus.Common.Assoc.{Assoc, lookup, map_values}
use go_ds_s3_walrus.Common.Result.{ok}
use go_ds_s3_walrus.Index.{StageRow, Tables}
use go_ds_s3_walrus.Index.Postgres.{Pg, query, statement}
use go_ds_s3_walrus.Index.Stage.{
  stage_keys, is_claimable, claimable, stats_of, least, scan_keys, leased_row, leased_entries,
  lease_rows, lease_keys, insert_by_age, by_age, older, candidates, stage_claim,
}

module _ {A : Type 0} where
  pub statement-calm :
      (what : String) (run : ℕ → Tables → Option (A × Tables)) (p : Pg) (a : A) (t : Tables)
      → p.outcomes ≡ []
      → run p.now p.tables ≡ some (a, t)
      → statement what run p ≡ (ok a, record p { tables = t })
  unfolding statement
  statement-calm what run p a t calm h = rw (calm, h) (ground (arith, calm))

  pub query-calm :
      (what : String) (run : ℕ → Tables → A) (p : Pg)
      → p.outcomes ≡ []
      → query what run p ≡ (ok (run p.now p.tables), p)
  unfolding query
  query-calm what run p calm =
      statement-calm what (λ now t. some (run now t, t)) p _ p.tables calm refl

least-le : (a : ℕ) (b : Option ℕ) → (o : ℕ) × (least a b ≡ some o) × (o ≤ a)
unfolding least
least-le a none = (a, refl, omega arith)
least-le a (some b) = (_, refl, omega arith)

least-some : (a b c : ℕ) → b ≤ c → (o : ℕ) × (least a (some b) ≡ some o) × (o ≤ c)
unfolding least
least-some a b c h = (_, refl, omega (arith, h))

-- A row that is there and not leased has these.
module _ (now : ℕ) where
  pub claimable-oldest :
      (t : Assoc StageRow) (k : String) (row : StageRow)
      → lookup k t ≡ some row
      → is_claimable now row ≡ true
      → (o : ℕ) × ((stats_of (claimable now t)).oldest ≡ some o) × (o ≤ row.created_at)
  unfolding lookup claimable stats_of
  claimable-oldest [] k row h c = absurd (cc h)
  claimable-oldest ((j, r) ∷ t) k row h c = elim (Bool-cases (str_eq j k)) [
    | inl here ↦
        let same : r ≡ row = ground (arith, rw here at h) in
        rw (same, c) (least-le row.created_at (stats_of (claimable now t)).oldest)
    | inr other ↦
        let (o, e, le) = claimable-oldest t k row (rw other at h) c in
        elim (Bool-cases (is_claimable now r)) [
          | inl too ↦ rw (too, e) (least-some r.created_at o row.created_at le)
          | inr leased ↦ rw leased (o, e, le)
        ]
  ]

  pub claimable-some :
      (t : Assoc StageRow) (k : String) (row : StageRow)
      → lookup k t ≡ some row
      → is_claimable now row ≡ true
      → 0 < length (claimable now t)
  unfolding lookup claimable
  claimable-some [] k row h c = absurd (cc h)
  claimable-some ((j, r) ∷ t) k row h c = ground (arith, h, c, claimable-some t k row)

  pub length-claimable : (t : Assoc StageRow) → length (claimable now t) ≤ length t
  unfolding claimable
  length-claimable [] = omega arith
  length-claimable ((j, r) ∷ t) = ground (arith, length-claimable t)

  pub leased_entries-there :
      (keys : List String) (t : Assoc StageRow) (k : String) (row : StageRow)
      → lookup k t ≡ some row
      → is_claimable now row ≡ true
      → contains keys k ≡ true
      → contains (stage_keys (leased_entries keys now t)) k ≡ true
  unfolding lookup leased_entries
  leased_entries-there keys [] k row h c m = absurd (cc h)
  leased_entries-there keys ((j, r) ∷ t) k row h c m =
      ground (arith, h, c, m, eq_iff j k, leased_entries-there keys t k row)

pub stats_of-count :
    (t : Assoc StageRow) → length t < half_word → (stats_of t).count ≡ pos (length t)
unfolding stats_of
stats_of-count [] small = refl
stats_of-count ((k, r) ∷ t) small =
    rw (stats_of-count t (omega (arith, small)))
      (add64-pos 1 (length t) (omega (arith, small)) ∙ ap pos (omega arith))

-- Rows that a lease of their keys hands out.
abbrev IsGiven : ℕ → Assoc StageRow → String × StageRow → Type 0
IsGiven now t e =
    (keys : List String) → contains keys e.0 ≡ true → 0 < length (leased_entries keys now t)

IsGiven-cons :
    (now : ℕ) (j : String) (r : StageRow) (t : Assoc StageRow) (e : String × StageRow)
    → IsGiven now t e
    → IsGiven now ((j, r) ∷ t) e
unfolding leased_entries
IsGiven-cons now j r t e h keys m = ground (arith, h keys m)

claimable-IsGiven : (now : ℕ) (t : Assoc StageRow) → All (IsGiven now t) (claimable now t)
unfolding claimable leased_entries
claimable-IsGiven now [] = tt
claimable-IsGiven now ((j, r) ∷ t) =
    let rest =
      All-map (IsGiven now t) (IsGiven now ((j, r) ∷ t)) (claimable now t) (IsGiven-cons now j r t)
        (claimable-IsGiven now t) in
    elim (Bool-cases (is_claimable now r)) [
      | inl free ↦ rw free (λ keys m. rw (m, free) (omega arith), rest)
      | inr leased ↦ rw leased rest
    ]

-- The tables after a lease.
abbrev pub with_lease : List String → ℕ → Pg → Pg
with_lease keys lease p = record p {
  tables = record p.tables { staging = map_values (leased_row keys lease p.now) p.tables.staging };
}

module _ (key_leb : String → String → Bool) where
  insert_by_age-All :
      (P : String × StageRow → Type 0) (k : String) (r : StageRow) (t : Assoc StageRow)
      → P (k, r)
      → All P t
      → All P (insert_by_age key_leb k r t)
  unfolding insert_by_age
  insert_by_age-All P k r [] p h = (p, tt)
  insert_by_age-All P k r ((j, s) ∷ t) p h = elim (Bool-cases (older key_leb k r j s)) [
    | inl first ↦ rw first (p, h)
    | inr later ↦ rw later (h.0, insert_by_age-All P k r t p h.1)
  ]

  by_age-All :
      (P : String × StageRow → Type 0) (t : Assoc StageRow) → All P t → All P (by_age key_leb t)
  unfolding by_age
  by_age-All P [] h = tt
  by_age-All P ((k, r) ∷ t) h = insert_by_age-All P k r (by_age key_leb t) h.0 (by_age-All P t h.1)

  insert_by_age-some :
      (k : String) (r : StageRow) (t : Assoc StageRow) → 0 < length (insert_by_age key_leb k r t)
  unfolding insert_by_age
  insert_by_age-some k r [] = omega arith
  insert_by_age-some k r ((j, s) ∷ t) = ground arith

  by_age-some : (t : Assoc StageRow) → 0 < length t → 0 < length (by_age key_leb t)
  unfolding by_age
  by_age-some [] h = absurd (omega (arith, h))
  by_age-some ((k, r) ∷ t) h = insert_by_age-some k r (by_age key_leb t)

  scanned_first :
      (max_bytes : ℤ) (m now : ℕ) (t rows : Assoc StageRow)
      → 0 < length rows
      → All (IsGiven now t) rows
      → (k : String) × (keys : List String) × (scan_keys max_bytes false (pos 0) (take (suc m) rows)
          ≡ k ∷ keys)
        × (0 < length (leased_entries (k ∷ keys) now t))
  unfolding scan_keys
  scanned_first max_bytes m now t [] h given = absurd (omega (arith, h))
  scanned_first max_bytes m now t ((k, r) ∷ rows) h given =
      (k, _, refl, given.0 _ (ground (arith, eq_iff k k)))

  -- Where a row can be claimed, some are selected that the lease then hands out.
  pub candidates-some :
      (max_bytes : ℤ) (m now : ℕ) (t : Tables)
      → 0 < length (claimable now t.staging)
      → (k : String) × (keys : List String) × (candidates key_leb (suc m) max_bytes now t
          ≡ k ∷ keys)
        × (0 < length (leased_entries (k ∷ keys) now t.staging))
  unfolding candidates
  candidates-some max_bytes m now t h =
      scanned_first max_bytes m now t.staging (by_age key_leb (claimable now t.staging))
        (by_age-some _ h) (by_age-All (IsGiven now t.staging) _ (claimable-IsGiven now t.staging))

  pub stage_claim-calm :
      (m max_bytes lease : ℕ) (p : Pg)
      → p.outcomes ≡ []
      → 0 < max_bytes
      → 0 < length (claimable p.now p.tables.staging)
      → (keys : List String) × (stage_claim key_leb (suc m) (pos max_bytes) lease p
          ≡ (ok (leased_entries keys p.now p.tables.staging), with_lease keys lease p))
        × (0 < length (leased_entries keys p.now p.tables.staging))
  unfolding stage_claim lease_keys lease_rows
  stage_claim-calm m max_bytes lease p calm bytes h =
      let (k, keys, e, given) = candidates-some (pos max_bytes) m p.now p.tables h in
      let counted : (suc m == 0) ≡ false = ground arith in
      let positive : leb_ℤ (pos max_bytes) (pos 0) ≡ false = ground (arith, bytes) in
      (
        k ∷ keys,
        rw
            (
              counted,
              positive,
              query-calm "stage claim select" (candidates key_leb (suc m) (pos max_bytes)) p calm,
              e,
            )
            (statement-calm "stage claim lease" (lease_rows (k ∷ keys) lease) p _ _ calm refl),
        given,
      )
