-- ===== src/Datastore/Drain/Packed.antt =====
-- The packs that a round of `flushStaged` of walrus.go claims, on a server without faults.
use go_ds_s3_walrus.Common.{
  ℕ, zero, suc, ◌<◌, String, Bool, true, ◌≡◌, refl, ap, ◌∙◌, List, [], ◌∷◌, length, arith, ◌⊎◌, inl,
  inr, All,
}
use go_ds_s3_walrus.Common.Int.{half_word}
use go_ds_s3_walrus.Common.Assoc.{Assoc, lookup, map_values}
use go_ds_s3_walrus.Index.{StageEntry, StageRow}
use go_ds_s3_walrus.Index.Moves.{is_some}
use go_ds_s3_walrus.Index.Distinct.{distinct}
use go_ds_s3_walrus.Index.Stage.{stage_keys, leased_row, leased_entries}
use go_ds_s3_walrus.Index.Primary.{staged_keys, primary_keys-map_values}
use go_ds_s3_walrus.Datastore.{Config, World}
use go_ds_s3_walrus.Datastore.Construct.{IsReady}
use go_ds_s3_walrus.Datastore.Flush.{stage_lease, claim_packs}
use go_ds_s3_walrus.Datastore.Drain.{
  Waiting, in_packs, leased, leased_entries-distinct, claim_pack-IsClaimed, leased-Waiting,
  leased-staged,
}

length-map_values :
    (f : String → StageRow → StageRow) (t : Assoc StageRow) → length (map_values f t) ≡ length t
unfolding map_values
length-map_values f [] = refl
length-map_values f ((k, r) ∷ t) = ap suc (length-map_values f t)

-- A world between two steps of the flusher: no faults ahead, a primary key, and rows that a count can hold.
pub record IsSteady {N : Type 0} (w : World N) : Type 0 where
  pub calm : w.pg.outcomes ≡ []
  pub keyed : distinct (staged_keys w.pg) ≡ true
  pub small : length w.pg.tables.staging < half_word

-- What the claims of a round did.
pub record IsPacked {N : Type 0} (conf : Config) (w : World N) (packs : List (List StageEntry))
    (w' : World N) : Type 0 where
  pub steady : IsSteady w'
  pub now : w'.pg.now ≡ w.pg.now
  pub clock : w'.clock ≡ w.clock
  pub index : w'.pg.tables.index ≡ w.pg.tables.index
  pub waits : (k : String) → Waiting conf w k → (in_packs packs k ≡ true) ⊎ Waiting conf w' k
  pub staged :
      (k : String)
      → is_some (lookup k w'.pg.tables.staging) ≡ is_some (lookup k w.pg.tables.staging)
  pub keyed : All (λ es. (0 < length es) × (distinct (stage_keys es) ≡ true)) packs

module _ {N : Type 0} (key_leb : String → String → Bool) (conf : Config)
    (ready : IsReady conf) where
  leased-IsSteady : (keys : List String) (w : World N) → IsSteady w → IsSteady (leased keys w)
  leased-IsSteady keys w h = record {
    calm = h.calm;
    keyed =
        rw (primary_keys-map_values (leased_row keys stage_lease w.pg.now) w.pg.tables.staging)
          h.keyed;
    small =
        rw (length-map_values (leased_row keys stage_lease w.pg.now) w.pg.tables.staging) h.small;
  }

  IsPacked-nil : (w : World N) → IsSteady w → IsPacked conf w [] w
  IsPacked-nil w h = record {
    steady = h;
    now = refl;
    clock = refl;
    index = refl;
    waits = λ k waiting. inr waiting;
    staged = λ k. refl;
    keyed = tt;
  }

  IsPacked-cons :
      (keys : List String) (e : StageEntry) (es : List StageEntry) (w : World N)
      (packs : List (List StageEntry)) (w' : World N)
      → IsSteady w
      → leased_entries keys w.pg.now w.pg.tables.staging ≡ e ∷ es
      → IsPacked conf (leased keys w) packs w'
      → IsPacked conf w ((e ∷ es) ∷ packs) w'
  IsPacked-cons keys e es w packs w' h cons rest = record {
    steady = rest.steady;
    now = rest.now;
    clock = rest.clock;
    index = rest.index;
    waits = λ k waiting. elim (leased-Waiting key_leb conf ready keys w k waiting) [
      | inl mine ↦ inl (rw (rw cons at mine) refl)
      | inr waits_on ↦ elim (rest.waits k waits_on) [
        | inl later ↦ inl (ground (arith, later))
        | inr still ↦ inr still
      ]
    ];
    staged = λ k. rest.staged k ∙ leased-staged key_leb conf ready keys w k;
    keyed = (
      (omega arith, rw cons at (leased_entries-distinct keys w.pg.now w.pg.tables.staging h.keyed)),
      rest.keyed,
    );
  }

  -- A round of claims; one that takes nothing has left no block that waits.
  pub claim_packs-IsPacked :
      (n : ℕ) (w : World N)
      → IsSteady w
      → IsPacked conf w (claim_packs key_leb conf n w).0 (claim_packs key_leb conf n w).1
  unfolding claim_packs
  claim_packs-IsPacked zero w h = IsPacked-nil w h
  claim_packs-IsPacked (suc n) w h =
      elim (claim_pack-IsClaimed key_leb conf ready w h.calm h.small) [
        | inl (nothing, _) ↦ rw nothing (IsPacked-nil w h)
        | inr (keys, e, es, some_pack, cons) ↦ rw some_pack (
            IsPacked-cons keys e es w _ _ h cons
              (claim_packs-IsPacked n (leased keys w) (leased-IsSteady keys w h)))
      ]

  pub claim_packs-none :
      (n : ℕ) (w : World N) (k : String)
      → IsSteady w
      → (claim_packs key_leb conf (suc n) w).0 ≡ []
      → Waiting conf w k
      → ⊥
  unfolding claim_packs
  claim_packs-none n w k h none_taken waiting =
      elim (claim_pack-IsClaimed key_leb conf ready w h.calm h.small) [
        | inl (_, none_waits) ↦ none_waits k waiting
        | inr (keys, e, es, some_pack, _) ↦ absurd (cc (rw some_pack at none_taken))
      ]
