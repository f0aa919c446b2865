-- ===== src/Datastore/Drain/Flushed.antt =====
-- `flushStaged` of walrus.go where neither the server nor Walrus fails: what has to be flushed is flushed.
use go_ds_s3_walrus.Common.{
  ℕ, zero, suc, ◌-◌, ◌<◌, String, Bool, true, false, ◌≡◌, refl, ap, ◌∙◌, Option, some, none, List,
  [], ◌∷◌, length, arith, ◌⊎◌, inl, inr, Bool-cases, All,
}
use go_ds_s3_walrus.Common.Int.{pos_part}
use go_ds_s3_walrus.Common.Assoc.{lookup}
use go_ds_s3_walrus.Index.{StageEntry}
use go_ds_s3_walrus.Index.Moves.{is_some}
use go_ds_s3_walrus.Index.Primary.{staged_keys}
use go_ds_s3_walrus.Client.{WalrusClient}
use go_ds_s3_walrus.Datastore.{Config, World}
use go_ds_s3_walrus.Datastore.Construct.{IsReady}
use go_ds_s3_walrus.Datastore.Stops.{IsOf, claim_packs-IsOf}
use go_ds_s3_walrus.Datastore.Shrinks.{backlog, flush_packs-shrinks}
use go_ds_s3_walrus.Datastore.Flush.{flush_packs, flush_round, flush_staged}
use go_ds_s3_walrus.Datastore.Drain.{Waiting, in_packs, positive-pos}
use go_ds_s3_walrus.Datastore.Drain.Packed.{
  IsSteady, IsPacked, claim_packs-IsPacked, claim_packs-none,
}
use go_ds_s3_walrus.Datastore.Drain.Parts.{Accepts}
use go_ds_s3_walrus.Datastore.Drain.Rounds.{IsFlushed, IsFlushed-nil, flush_packs-IsFlushed}

absent : {A : Type 0} (o : Option A) → is_some o ≡ false → o ≡ none
absent none h = refl
absent (some a) h = absurd (cc h)

-- What becomes of a block between two rounds: it still waits, or it has left staging for the index.
abbrev pub Flushed : {N : Type 0} → World N → String → Type 0
Flushed w k = (lookup k w.pg.tables.staging ≡ none) × (is_some (lookup k w.pg.tables.index) ≡ true)

module _ {N : Type 0} (key_leb : String → String → Bool) (conf : Config) where
  -- After a round of claims and their flushes.
  round-Waiting :
      (packs : List (List StageEntry)) (u v w : World N) (k : String)
      → IsPacked conf u packs v
      → IsFlushed (in_packs packs) v w
      → Waiting conf u k
      → Waiting conf w k ⊎ Flushed w k
  round-Waiting packs u v w k p f waiting = elim (Bool-cases (in_packs packs k)) [
    | inl taken ↦
        inr (f.staged k ∙ rw taken refl, f.indexed k ∙ rw (taken, p.staged k, waiting.1) refl)
    | inr left ↦ elim (p.waits k waiting) [
      | inl taken ↦ absurd (cc (taken, left))
      | inr (row, there, free, old) ↦
          inl (row, f.staged k ∙ rw left there, rw f.now free, rw f.clock old)
    ]
  ]

  round-Flushed :
      (packs : List (List StageEntry)) (u v w : World N) (k : String)
      → IsPacked conf u packs v
      → IsFlushed (in_packs packs) v w
      → Flushed u k
      → Flushed w k
  round-Flushed packs u v w k p f (gone, there) = (
    f.staged k ∙ rw (absent _ (p.staged k ∙ ap is_some gone)) (ground arith),
    f.indexed k ∙ rw (p.index, there) (ground arith),
  )

module _ {N : Type 0} (client : WalrusClient N) (accepts : Accepts client)
    (key_leb : String → String → Bool) (conf : Config) (ready : IsReady conf) where
  -- The loop ended, and what had to be flushed, or was, is flushed.
  abbrev IsDrained : World N → Option (World N) → Type 0
  IsDrained w r =
      (w' : World N) × (r ≡ some w')
      × ((k : String) → Waiting conf w k ⊎ Flushed w k → Flushed w' k)

  round-IsDrained :
      (more : World N → Option (World N)) (packs : List (List StageEntry)) (u v : World N)
      → IsPacked conf u packs v
      → All (IsOf (staged_keys v.pg)) packs
      → (packs ≡ [] → (k : String) → Waiting conf u k → ⊥)
      → ((w : World N) → IsSteady w → backlog w < backlog v → IsDrained w (more w))
      → IsDrained u (flush_round client conf more (packs, v))
  round-IsDrained more [] u v p keys none_waits again = (
    v,
    refl,
    λ k h. elim h [
      | inl waiting ↦ absurd (none_waits refl k waiting)
      | inr flushed ↦ round-Flushed key_leb conf [] u v v k p (IsFlushed-nil v p.steady) flushed
    ],
  )
  round-IsDrained more ([] ∷ packs) u v p keys none_waits again = absurd keys.0
  round-IsDrained more ((e ∷ es) ∷ packs) u v p keys none_waits again =
      let (fine, f) =
        flush_packs-IsFlushed client accepts conf ((e ∷ es) ∷ packs) v p.steady p.keyed in
      let w = (flush_packs client conf ((e ∷ es) ∷ packs) v).1 in
      let (w', run, drained) =
        again w f.steady (flush_packs-shrinks client conf e es packs v keys.0 fine) in
      (
        w',
        rw fine run,
        λ k h. elim h [
          | inl waiting ↦ drained k (round-Waiting key_leb conf _ u v w k p f waiting)
          | inr flushed ↦ drained k (inr (round-Flushed key_leb conf _ u v w k p f flushed))
        ],
      )

  workers-positive : (n : ℕ) × (pos_part conf.workers ≡ suc n)
  workers-positive =
      let (m, e, h) = positive-pos conf.workers ready.workers in (m - 1, rw e (omega (arith, h)))

  drained :
      (fuel : ℕ) (w : World N)
      → IsSteady w
      → backlog w < fuel
      → IsDrained w (flush_staged client conf key_leb fuel w)
  unfolding flush_staged
  drained zero w h enough = absurd (omega (arith, enough))
  drained (suc fuel) w h enough =
      let (n, e) = workers-positive in
      let (kept, keys) = claim_packs-IsOf key_leb conf (pos_part conf.workers) w in
      round-IsDrained (flush_staged client conf key_leb fuel) _ w _
        (claim_packs-IsPacked key_leb conf ready (pos_part conf.workers) w h) (rw kept keys)
        (λ nothing k waiting. claim_packs-none key_leb conf ready n w k h (rw e at nothing) waiting)
        (λ v steady less. drained fuel v steady (omega (arith, less, ap length kept, enough)))

  -- Where neither the server nor Walrus fails, `flushStaged` ends, and a block that was staged, under no lease, and had
  -- waited for PackMaxAge, has left staging for the index. (The configuration is one that `NewWalrusDatastore` makes,
  -- Walrus accepts every blob and quilt, nothing is staged meanwhile, and the clocks stand.)
  pub flush_staged-Flushed :
      (w : World N) (k : String)
      → IsSteady w
      → Waiting conf w k
      → (w' : World N) × (flush_staged client conf key_leb (suc (backlog w)) w ≡ some w')
        × Flushed w' k
  flush_staged-Flushed w k h waiting =
      let (w', run, all) = drained (suc (backlog w)) w h (omega arith) in
      (w', run, all k (inl waiting))
