-- ===== src/Datastore/Stops.antt =====
-- The loop of `flushStaged` of walrus.go: its rounds, and the staged rows that they leave.
use go_ds_s3_walrus.Common.{
  ℕ, zero, suc, ◌<◌, String, Bool, true, ◌≡◌, refl, ap, sym, ◌∙◌, Option, some, List, [], ◌∷◌,
  length, contains, arith, inl, inr, Bool-cases, All, if_both, ◌||◌, not,
}
use go_ds_s3_walrus.Common.Int.{pos, pos_part, eq_ℤ}
use go_ds_s3_walrus.Common.Result.{Result, ok, Result-cases}
use go_ds_s3_walrus.Index.{StageEntry, StageStats}
use go_ds_s3_walrus.Index.Stage.{stage_keys, stage_stats}
use go_ds_s3_walrus.Index.Primary.{staged_keys, stage_claim-IsClaim, stage_stats-staged_keys}
use go_ds_s3_walrus.Client.{WalrusClient}
use go_ds_s3_walrus.Datastore.{Config, World}
use go_ds_s3_walrus.Datastore.Flush.{
  flush_packs, claim_if_ripe, claim_pack, claim_packs, flush_round, flush_staged, max_count,
  stage_lease, is_ripe,
}
use go_ds_s3_walrus.Datastore.Shrinks.{backlog, flush_packs-shrinks}

-- A pack is not empty, and its keys are among these.
abbrev pub IsOf : List String → List StageEntry → Type 0
IsOf ks [] = ⊥
IsOf ks (e ∷ es) = (k : String) → contains (stage_keys (e ∷ es)) k ≡ true → contains ks k ≡ true

module _ {N : Type 0} (key_leb : String → String → Bool) (conf : Config) where
  abbrev IsPackClaim : World N → Result (List StageEntry) × World N → Type 0
  IsPackClaim w (r, w') =
      (staged_keys w'.pg ≡ staged_keys w.pg)
      × ((e : StageEntry) (es : List StageEntry)
          → r ≡ ok (e ∷ es)
          → IsOf (staged_keys w.pg) (e ∷ es))

  claim_if_ripe-IsPackClaim :
      (st : StageStats) (w : World N) → IsPackClaim w (claim_if_ripe key_leb conf st w)
  unfolding claim_if_ripe
  claim_if_ripe-IsPackClaim st w =
      let (kept, some_of) =
        stage_claim-IsClaim key_leb (max_count conf) conf.pack_target_size stage_lease w.pg in
      if_both (IsPackClaim w) (eq_ℤ st.count (pos 0) || not (is_ripe conf w.clock st))
        (refl, λ e es h. absurd (cc h)) (kept, λ e es h k. some_of (e ∷ es) k h)

  claim_pack-IsPackClaim : (w : World N) → IsPackClaim w (claim_pack key_leb conf w)
  unfolding claim_pack
  claim_pack-IsPackClaim w = elim (Result-cases (stage_stats w.pg).0) [
    | inr (x, bad) ↦ rw bad (stage_stats-staged_keys w.pg, λ e es h. absurd (cc h))
    | inl (st, good) ↦
        let (kept, keys) = claim_if_ripe-IsPackClaim st (record w { pg = (stage_stats w.pg).1 }) in
        rw good (
          kept ∙ stage_stats-staged_keys w.pg,
          λ e es h k c.
              ap (λ ks. contains ks k) (sym (stage_stats-staged_keys w.pg)) ∙ keys e es h k c,
        )
  ]

  pub claim_packs-IsOf :
      (n : ℕ) (w : World N)
      → (staged_keys (claim_packs key_leb conf n w).1.pg ≡ staged_keys w.pg)
        × All (IsOf (staged_keys w.pg)) (claim_packs key_leb conf n w).0
  unfolding claim_packs
  claim_packs-IsOf zero w = (refl, tt)
  claim_packs-IsOf (suc n) w =
      let (kept, keys) = claim_pack-IsPackClaim w in
      let (kept', rest) = claim_packs-IsOf n (claim_pack key_leb conf w).1 in
      elim (Result-cases (claim_pack key_leb conf w).0) [
        | inr (x, bad) ↦ rw bad (kept, tt)
        | inl ([], good) ↦ rw good (kept, tt)
        | inl (e ∷ es, good) ↦ rw good (kept' ∙ kept, (keys e es good, rw kept at rest))
      ]

module _ {N : Type 0} (client : WalrusClient N) (key_leb : String → String → Bool)
    (conf : Config) where
  flush_round-stops :
      (more : World N → Option (World N)) (packs : List (List StageEntry)) (w : World N)
      → All (IsOf (staged_keys w.pg)) packs
      → ((v : World N) → backlog v < backlog w → (w' : World N) × (more v ≡ some w'))
      → (w' : World N) × (flush_round client conf more (packs, w) ≡ some w')
  flush_round-stops more [] w h again = (w, refl)
  flush_round-stops more ([] ∷ packs) w h again = absurd h.0
  flush_round-stops more ((e ∷ es) ∷ packs) w h again =
      elim (Bool-cases (flush_packs client conf ((e ∷ es) ∷ packs) w).0) [
        | inl failed ↦ rw failed ((flush_packs client conf ((e ∷ es) ∷ packs) w).1, refl)
        | inr good ↦ rw good (again _ (flush_packs-shrinks client conf e es packs w h.0 good))
      ]

  -- `flushStaged` ends: as many rounds as there are staged rows, and one more, are enough, for every
  -- configuration, whatever the database and Walrus answer. (Nothing is staged meanwhile, and the clock stands.)
  pub flush_staged-stops :
      (fuel : ℕ) (w : World N)
      → backlog w < fuel
      → (w' : World N) × (flush_staged client conf key_leb fuel w ≡ some w')
  unfolding flush_staged
  flush_staged-stops zero w h = absurd (omega (arith, h))
  flush_staged-stops (suc fuel) w h =
      let (kept, packs) = claim_packs-IsOf key_leb conf (pos_part conf.workers) w in
      flush_round-stops (flush_staged client conf key_leb fuel) _ _ (rw kept packs)
        (λ v less. flush_staged-stops fuel v (omega (arith, less, ap length kept, h)))
