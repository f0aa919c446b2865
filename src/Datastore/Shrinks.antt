-- ===== src/Datastore/Shrinks.antt =====
-- The rows of the staging table along the flushes of walrus.go.
use go_ds_s3_walrus.Common.{
  ℕ, ◌≤◌, ◌<◌, String, true, false, ◌≡◌, ◌≢◌, refl, ap, sym, ◌∙◌, List, [], ◌∷◌, length, contains,
  arith, inl, inr,
}
use go_ds_s3_walrus.Common.Result.{Error, Result, ok, Exec, wrapped, raise, handle, Result-cases}
use go_ds_s3_walrus.Index.{KeyRecord, StageEntry}
use go_ds_s3_walrus.Index.Write.{promote_staged}
use go_ds_s3_walrus.Index.Stage.{stage_keys, stage_release}
use go_ds_s3_walrus.Index.Primary.{staged_keys, stage_release-staged_keys, promote_staged-shrinks}
use go_ds_s3_walrus.Client.{WalrusClient}
use go_ds_s3_walrus.Datastore.{Config, World, on_index}
use go_ds_s3_walrus.Datastore.Upload.{upload_pack}
use go_ds_s3_walrus.Datastore.Quiet.{upload_pack-pg}
use go_ds_s3_walrus.Datastore.Flush.{to_blocks, flush_one_pack, flush_packs}
use go_ds_s3_walrus.Datastore.Named.{block_keys, upload_pack-Meets}

pub contains-to_blocks :
    (es : List StageEntry) (k : String)
    → contains (block_keys (to_blocks es)) k ≡ contains (stage_keys es) k
contains-to_blocks [] k = refl
contains-to_blocks (e ∷ es) k = ground (arith, contains-to_blocks es k)

-- A handler that only reports fails, and does not change the state.
pub reported :
    {S A : Type 0} (m : Exec S A) (a b : Error) (s : S)
    → ((handle m (λ _. raise {A = Unit {0}} a) (λ _. raise b) s).0 ≢ ok tt)
      × ((handle m (λ _. raise {A = Unit {0}} a) (λ _. raise b) s).1 ≡ (m s).1)
reported m a b s = elim (Result-cases (m s).0) [
  | inl (x, good) ↦ rw good (λ h. absurd (cc h), refl)
  | inr (x, bad) ↦ rw bad (λ h. absurd (cc h), refl)
]

module _ {N : Type 0} where
  -- The rows of the staging table.
  abbrev pub backlog : World N → ℕ
  backlog w = length (staged_keys w.pg)

  -- A flush of a pack whose keys are staged: no row is added, and success removes one.
  abbrev pub Shrinks : (List String) → World N → Result (Unit {0}) × World N → Type 0
  Shrinks keys w (r, w') =
      (backlog w' ≤ backlog w)
      × (r ≡ ok tt
          → ((k : String) → contains keys k ≡ true → contains (staged_keys w.pg) k ≡ true)
          → backlog w' < backlog w)

module _ {N : Type 0} (client : WalrusClient N) (conf : Config) where
  pub flush_one_pack-Shrinks :
      (e : StageEntry) (es : List StageEntry) (w : World N)
      → Shrinks (stage_keys (e ∷ es)) w (flush_one_pack client conf (e ∷ es) w)
  unfolding flush_one_pack
  flush_one_pack-Shrinks e es w =
      elim (Result-cases (upload_pack client conf (to_blocks (e ∷ es)) w).0) [
        | inr (x, bad) ↦ rw bad (failed w₁ (rw quiet (omega arith)) x)
        | inl (recs, good) ↦ elim (Result-cases (promote_staged recs w₁.pg).0) [
          | inr (x, refused) ↦
              rw (good, refused)
                (failed (w₂ recs)
                  (omega (arith, (promote_staged-shrinks recs w₁.pg).0, ap length quiet_keys)) x)
          | inl (u, done) ↦
              rw (good, done)
                (
                  omega (arith, (promote_staged-shrinks recs w₁.pg).0, ap length quiet_keys),
                  λ h staged.
                      let (k, mine, own) =
                        upload_pack-Meets client conf _ (to_blocks es) w recs good in
                      let there = staged k (sym (contains-to_blocks (e ∷ es) k) ∙ own) in
                      let fewer =
                        (promote_staged-shrinks recs w₁.pg).1 k (cc done) mine
                          (ap (λ ks. contains ks k) quiet_keys ∙ there) in
                      omega (arith, fewer, ap length quiet_keys),
                )
        ]
      ]
    where
      w₁ : World N
      w₁ = (upload_pack client conf (to_blocks (e ∷ es)) w).1

      quiet : w₁.pg ≡ w.pg
      quiet = upload_pack-pg client conf (to_blocks (e ∷ es)) w

      quiet_keys : staged_keys w₁.pg ≡ staged_keys w.pg
      quiet_keys = ap staged_keys quiet

      w₂ : List KeyRecord → World N
      w₂ recs = record w₁ { pg = (promote_staged recs w₁.pg).1 }

      failed :
          (v : World N)
          → backlog v ≤ backlog w
          → (x : Error)
          → Shrinks (stage_keys (e ∷ es)) w (
              handle
                (on_index (stage_release (stage_keys (e ∷ es))))
                (λ _. raise (wrapped "flushing pack" x))
                (λ _. raise (wrapped "flushing pack" x))
                v)
      failed v h x =
          let (fails, same) =
            reported {A = Unit {0}} (on_index {N = N} (stage_release (stage_keys (e ∷ es))))
              (wrapped "flushing pack" x) (wrapped "flushing pack" x) v in
          (
            rw same (rw (stage_release-staged_keys (stage_keys (e ∷ es)) v.pg) h),
            λ good _. absurd (fails good),
          )

  pub flush_one_pack-backlog :
      (es : List StageEntry) (w : World N) → backlog (flush_one_pack client conf es w).1 ≤ backlog w
  flush_one_pack-backlog [] w =
      unfold flush_one_pack in unfold upload_pack in unfold promote_staged in omega arith
  flush_one_pack-backlog (e ∷ es) w = (flush_one_pack-Shrinks e es w).0

  pub flush_packs-backlog :
      (packs : List (List StageEntry)) (w : World N)
      → backlog (flush_packs client conf packs w).1 ≤ backlog w
  unfolding flush_packs
  flush_packs-backlog [] w = omega arith
  flush_packs-backlog (es ∷ packs) w = omega (
    arith,
    flush_one_pack-backlog es w,
    flush_packs-backlog packs (flush_one_pack client conf es w).1,
  )

  -- A round without a failure empties a row at least.
  pub flush_packs-shrinks :
      (e : StageEntry) (es : List StageEntry) (packs : List (List StageEntry)) (w : World N)
      → ((k : String)
          → contains (stage_keys (e ∷ es)) k ≡ true
          → contains (staged_keys w.pg) k ≡ true)
      → (flush_packs client conf ((e ∷ es) ∷ packs) w).0 ≡ false
      → backlog (flush_packs client conf ((e ∷ es) ∷ packs) w).1 < backlog w
  unfolding flush_packs flush_one_pack upload_pack
  flush_packs-shrinks e es packs w staged h =
      elim (Result-cases (flush_one_pack client conf (e ∷ es) w).0) [
        | inr (x, bad) ↦ absurd (cc (rw bad at h))
        | inl (u, good) ↦ omega (
          arith,
          (flush_one_pack-Shrinks e es w).1 (cc good) staged,
          flush_packs-backlog packs (flush_one_pack client conf (e ∷ es) w).1,
        )
      ]
