-- ===== src/Datastore/Drain.antt =====
-- The blocks that `flushStaged` of walrus.go has to flush, and its claims, on a server without faults.
pub mod Packed
pub mod Parts
pub mod Uploaded
pub mod Rounds
pub mod Flushed
use mathlib.Core.Option
use go_ds_s3_walrus.Common.{
  ℕ, zero, suc, ◌≤◌, ◌<◌, String, Bool, true, false, not, ◌||◌, ◌≡◌, refl, ap, sym, ◌∙◌, Option,
  some, none, List, [], ◌∷◌, length, contains, arith, ◌⊎◌, inl, inr, Bool-cases, All, if_both,
}
use go_ds_s3_walrus.Common.Int.{ℤ, pos, negsuc, half_word, eq_ℤ, leb_ℤ, ltb_ℤ, sub_ℕ}
use go_ds_s3_walrus.Common.Assoc.{Assoc, lookup, lookup-map_values}
use go_ds_s3_walrus.Common.Result.{Result, ok}
use go_ds_s3_walrus.Index.{StageEntry, StageRow, StageStats}
use go_ds_s3_walrus.Index.Moves.{is_some}
use go_ds_s3_walrus.Index.Distinct.{distinct}
use go_ds_s3_walrus.Index.Claims.{primary_keys, leased_entries-absent}
use go_ds_s3_walrus.Index.Stage.{
  stage_keys, is_claimable, claimable, stats_of, stage_stats, leased_row, leased_entries,
}
use go_ds_s3_walrus.Index.Faultless.{
  query-calm, claimable-oldest, claimable-some, length-claimable, leased_entries-there,
  stats_of-count, with_lease, stage_claim-calm,
}
use go_ds_s3_walrus.Datastore.{Config, World}
use go_ds_s3_walrus.Datastore.Construct.{IsReady}
use go_ds_s3_walrus.Datastore.Flush.{
  max_count, stage_lease, waited, is_ripe, claim_if_ripe, claim_pack, claim_packs,
}

older-waited :
    (age : ℤ) (now o c : ℕ)
    → o ≤ c
    → leb_ℤ age (sub_ℕ now c) ≡ true
    → leb_ℤ age (sub_ℕ now o) ≡ true
older-waited (pos a) now o c h e = ground (arith, h, e)
older-waited (negsuc a) now o c h e = ground (arith, h, e)

module _ {N : Type 0} (conf : Config) where
  -- A staged block, under no lease, that has waited for PackMaxAge.
  abbrev pub Waiting : World N → String → Type 0
  Waiting w k =
      (row : StageRow) × (lookup k w.pg.tables.staging ≡ some row)
      × (is_claimable w.pg.now row ≡ true)
      × (leb_ℤ conf.pack_max_age (sub_ℕ w.clock row.created_at) ≡ true)

  -- Such a block makes a pack ripe.
  Waiting-is_ripe :
      (w : World N) (k : String)
      → Waiting w k
      → length w.pg.tables.staging < half_word
      → (eq_ℤ (stats_of (claimable w.pg.now w.pg.tables.staging)).count (pos 0)
          || not (is_ripe conf w.clock (stats_of (claimable w.pg.now w.pg.tables.staging))))
        ≡ false
  unfolding is_ripe waited
  Waiting-is_ripe w k (row, there, free, old) small =
      let now = w.pg.now in
      let t = w.pg.tables.staging in
      let (o, e, le) = claimable-oldest now t k row there free in
      let many = claimable-some now t k row there free in
      let count = stats_of-count (claimable now t) (omega (arith, length-claimable now t, small)) in
      rw (count, e, older-waited conf.pack_max_age w.clock o row.created_at le old)
        (ground (arith, many))

-- The keys of packs.
abbrev pub in_packs : List (List StageEntry) → String → Bool
in_packs [] k = false
in_packs (es ∷ packs) k = contains (stage_keys es) k || in_packs packs k

leased_entries-distinct :
    (keys : List String) (now : ℕ) (t : Assoc StageRow)
    → distinct (primary_keys t) ≡ true
    → distinct (stage_keys (leased_entries keys now t)) ≡ true
unfolding leased_entries
leased_entries-distinct keys now [] d = refl
leased_entries-distinct keys now ((k, r) ∷ t) d =
    ground (arith, d, leased_entries-distinct keys now t, leased_entries-absent keys now t k)

-- The world after a claim.
abbrev pub leased : {N : Type 0} → List String → World N → World N
leased keys w = record w { pg = with_lease keys stage_lease w.pg }

wanted-some :
    (t : Assoc StageRow) (b : Bool) → (eq_ℤ (stats_of t).count (pos 0) || b) ≡ false → 0 < length t
unfolding stats_of
wanted-some [] b h = absurd (cc h)
wanted-some ((k, r) ∷ t) b h = omega arith

is_some-map : {A B : Type 0} (f : A → B) (o : Option A) → is_some (Option.map f o) ≡ is_some o
is_some-map f none = refl
is_some-map f (some a) = refl

max_count-positive : (conf : Config) → (m : ℕ) × (max_count conf ≡ suc m)
unfolding max_count
max_count-positive conf =
    if_both (λ (n : ℕ). (m : ℕ) × (n ≡ suc m)) conf.disable_quilt (9999, refl) (665, refl)

pub positive-pos : (x : ℤ) → ltb_ℤ (pos 0) x ≡ true → (n : ℕ) × (x ≡ pos n) × (0 < n)
positive-pos (pos n) h = (n, refl, ground (arith, h))
positive-pos (negsuc n) h = absurd (ground (arith, h))

shape : {A : Type 0} (xs : List A) → 0 < length xs → (x : A) × (ys : List A) × (xs ≡ x ∷ ys)
shape [] h = absurd (omega (arith, h))
shape (x ∷ xs) h = (x, xs, refl)

module _ {N : Type 0} (key_leb : String → String → Bool) (conf : Config)
    (ready : IsReady conf) where
  claim-calm :
      (w : World N) (m b : ℕ)
      → max_count conf ≡ suc m
      → conf.pack_target_size ≡ pos b
      → 0 < b
      → w.pg.outcomes ≡ []
      → (eq_ℤ (stats_of (claimable w.pg.now w.pg.tables.staging)).count (pos 0)
          || not (is_ripe conf w.clock (stats_of (claimable w.pg.now w.pg.tables.staging))))
        ≡ false
      → (keys : List String) × (claim_pack key_leb conf w
          ≡ (ok (leased_entries keys w.pg.now w.pg.tables.staging), leased keys w))
        × (0 < length (leased_entries keys w.pg.now w.pg.tables.staging))
  unfolding claim_pack claim_if_ripe stage_stats
  claim-calm w m b counted bytes positive calm wanted =
      let stats =
        query-calm "stage stats" (λ now t. stats_of (claimable now t.staging)) w.pg calm in
      let (keys, e, given) =
        stage_claim-calm key_leb m b stage_lease w.pg calm positive (wanted-some _ _ wanted) in
      (keys, rw (stats, wanted, counted, bytes, e) refl, given)

  -- A claim takes nothing where no block has to be flushed, or leases a pack.
  abbrev IsClaimed : World N → Result (List StageEntry) × World N → Type 0
  IsClaimed w c =
      ((c ≡ (ok [], w)) × ((k : String) → Waiting conf w k → ⊥))
      ⊎ ((keys : List String) × (e : StageEntry) × (es : List StageEntry) × (c
            ≡ (ok (e ∷ es), leased keys w))
          × (leased_entries keys w.pg.now w.pg.tables.staging ≡ e ∷ es))

  claim_pack-IsClaimed :
      (w : World N)
      → w.pg.outcomes ≡ []
      → length w.pg.tables.staging < half_word
      → IsClaimed w (claim_pack key_leb conf w)
  claim_pack-IsClaimed w calm small =
      let (m, counted) = max_count-positive conf in
      let (b, bytes, positive) = positive-pos conf.pack_target_size ready.pack_target_size in
      let st = stats_of (claimable w.pg.now w.pg.tables.staging) in
      elim (Bool-cases (eq_ℤ st.count (pos 0) || not (is_ripe conf w.clock st))) [
        | inl unwanted ↦ inl (
          unfold claim_pack in
              unfold claim_if_ripe in
              unfold stage_stats in
              rw
                (
                  query-calm "stage stats" (λ now t. stats_of (claimable now t.staging)) w.pg calm,
                  unwanted,
                )
                refl,
          λ k waiting. cc (Waiting-is_ripe conf w k waiting small, unwanted),
        )
        | inr wanted ↦
            let (keys, e, given) = claim-calm w m b counted bytes positive calm wanted in
            let (x, xs, cons) = shape _ given in
            inr (keys, x, xs, e ∙ ap (λ es. (ok es, leased keys w)) cons, cons)
      ]

  -- What a lease does to a block: it is in the pack, or waits on.
  leased-Waiting :
      (keys : List String) (w : World N) (k : String)
      → Waiting conf w k
      → (contains (stage_keys (leased_entries keys w.pg.now w.pg.tables.staging)) k ≡ true)
        ⊎ Waiting conf (leased keys w) k
  unfolding leased_row
  leased-Waiting keys w k (row, there, free, old) = elim (Bool-cases (contains keys k)) [
    | inl mine ↦ inl (leased_entries-there w.pg.now keys w.pg.tables.staging k row there free mine)
    | inr other ↦ inr (
      row,
      lookup-map_values (leased_row keys stage_lease w.pg.now) k w.pg.tables.staging
          ∙ rw (there, other) refl,
      free,
      old,
    )
  ]

  leased-staged :
      (keys : List String) (w : World N) (k : String)
      → is_some (lookup k (leased keys w).pg.tables.staging)
        ≡ is_some (lookup k w.pg.tables.staging)
  leased-staged keys w k =
      ap is_some (lookup-map_values (leased_row keys stage_lease w.pg.now) k w.pg.tables.staging)
      ∙ is_some-map (leased_row keys stage_lease w.pg.now k) (lookup k w.pg.tables.staging)
