-- ===== src/Datastore/Drain/Rounds.antt =====
-- The flushes of a round of `flushStaged` of walrus.go where neither the server nor Walrus fails.
use mathlib.Core.Path.{subst}
use mathlib.Core.List.{Permᴰ}
use go_ds_s3_walrus.Common.{
  ◌<◌, String, Bool, true, false, ◌&&◌, ◌||◌, ◌≡◌, refl, ap, ◌∙◌, none, List, [], ◌∷◌, length,
  contains, arith, All, if◌then◌else◌,
}
use go_ds_s3_walrus.Common.Assoc.{lookup}
use go_ds_s3_walrus.Common.Result.{ok}
use go_ds_s3_walrus.Index.{StageEntry, KeyRecord}
use go_ds_s3_walrus.Index.Postgres.{Pg}
use go_ds_s3_walrus.Index.Moves.{is_some}
use go_ds_s3_walrus.Index.Distinct.{distinct}
use go_ds_s3_walrus.Index.Stage.{stage_keys}
use go_ds_s3_walrus.Index.Write.{keys_of, promote_staged}
use go_ds_s3_walrus.Index.Rearranged.{contains-Perm, distinct-Perm}
use go_ds_s3_walrus.Index.Present.{IsTaken, promote_staged-IsTaken}
use go_ds_s3_walrus.Client.{WalrusClient}
use go_ds_s3_walrus.Datastore.{Config, World}
use go_ds_s3_walrus.Datastore.Upload.{upload_pack}
use go_ds_s3_walrus.Datastore.Named.{block_keys}
use go_ds_s3_walrus.Datastore.Flush.{to_blocks, flush_one_pack, flush_packs}
use go_ds_s3_walrus.Datastore.Drain.{in_packs}
use go_ds_s3_walrus.Datastore.Drain.Packed.{IsSteady}
use go_ds_s3_walrus.Datastore.Drain.Uploaded.{upload_pack-IsUploaded}
use go_ds_s3_walrus.Datastore.Drain.Parts.{Accepts}

pub block_keys-to_blocks : (es : List StageEntry) → block_keys (to_blocks es) ≡ stage_keys es
block_keys-to_blocks [] = refl
block_keys-to_blocks (e ∷ es) = ap (λ ks. e.key ∷ ks) (block_keys-to_blocks es)

module _ {N : Type 0} where
  -- The blocks that `taken` names are flushed, and no other is touched.
  pub record IsFlushed (taken : String → Bool) (w w' : World N) : Type 0 where
    pub steady : IsSteady w'
    pub now : w'.pg.now ≡ w.pg.now
    pub clock : w'.clock ≡ w.clock
    pub staged :
        (k : String)
        → lookup k w'.pg.tables.staging ≡ (if taken k then none else lookup k w.pg.tables.staging)
    pub indexed :
        (k : String)
        → is_some (lookup k w'.pg.tables.index) ≡ (
            (taken k && is_some (lookup k w.pg.tables.staging))
            || is_some (lookup k w.pg.tables.index))

  pub IsFlushed-nil : (w : World N) → IsSteady w → IsFlushed (λ k. false) w w
  IsFlushed-nil w h = record {
    steady = h;
    now = refl;
    clock = refl;
    staged = λ k. refl;
    indexed = λ k. refl;
  }

  pub IsFlushed-append :
      (a b : String → Bool) (u v w : World N)
      → IsFlushed a u v
      → IsFlushed b v w
      → IsFlushed (λ k. a k || b k) u w
  IsFlushed-append a b u v w f g = record {
    steady = g.steady;
    now = g.now ∙ f.now;
    clock = g.clock ∙ f.clock;
    staged = λ k. g.staged k ∙ rw (f.staged k) (ground arith);
    indexed = λ k. g.indexed k ∙ rw (f.staged k, f.indexed k) (ground arith);
  }

  pub taken-IsFlushed :
      (keys : List String) (taken : String → Bool) (w w' : World N)
      → ((k : String) → contains keys k ≡ taken k)
      → IsSteady w
      → w'.clock ≡ w.clock
      → IsTaken keys w.pg w'.pg
      → IsFlushed taken w w'
  taken-IsFlushed keys taken w w' same h c t = record {
    steady = record {
      calm = t.calm;
      keyed = t.keyed h.keyed;
      small = omega (arith, t.fewer, h.small);
    };
    now = t.now;
    clock = c;
    staged = λ k. rw (← same k) (t.staged k);
    indexed = λ k. rw (← same k) (t.indexed k);
  }

pub promoted_keys :
    (recs : List KeyRecord) (keys : List String) (p : Pg)
    → Permᴰ (keys_of recs) keys
    → p.outcomes ≡ []
    → distinct keys ≡ true
    → ((promote_staged recs p).0 ≡ ok tt) × IsTaken (keys_of recs) p (promote_staged recs p).1
promoted_keys [] keys p perm calm d =
    unfold promote_staged in
    (
      refl,
      record {
        calm = calm;
        now = refl;
        keyed = λ h. h;
        fewer = omega arith;
        staged = λ k. refl;
        indexed = λ k. refl;
      },
    )
promoted_keys (kr ∷ recs) keys p perm calm d =
    promote_staged-IsTaken kr recs p calm (distinct-Perm perm ∙ d)

module _ {N : Type 0} (client : WalrusClient N) (accepts : Accepts client) (conf : Config) where
  pub flush_one_pack-IsFlushed :
      (e : StageEntry) (es : List StageEntry) (w : World N)
      → IsSteady w
      → distinct (stage_keys (e ∷ es)) ≡ true
      → ((flush_one_pack client conf (e ∷ es) w).0 ≡ ok tt)
        × IsFlushed (contains (stage_keys (e ∷ es))) w (flush_one_pack client conf (e ∷ es) w).1
  unfolding flush_one_pack
  flush_one_pack-IsFlushed e es w h d =
      let (recs, good, quiet, time, perm) =
        upload_pack-IsUploaded conf client accepts (record { key = e.key; val = e.value })
          (to_blocks es) w in
      let keys = ap (λ ks. e.key ∷ ks) (block_keys-to_blocks es) in
      let (done, taken) =
        promoted_keys recs (e.key ∷ stage_keys es)
          (upload_pack client conf (to_blocks (e ∷ es)) w).1.pg (rw keys at perm)
          (ap (λ (p : Pg). p.outcomes) quiet ∙ h.calm) d in
      (
        rw (good, done) refl,
        rw (good, done)
            (taken-IsFlushed (keys_of recs) (contains (stage_keys (e ∷ es))) w _
              (λ k. contains-Perm k (rw keys at perm)) h time
              (subst
                (λ p.
                  IsTaken (keys_of recs) p
                    (promote_staged recs (upload_pack client conf (to_blocks (e ∷ es)) w).1.pg).1)
                quiet taken)),
      )

  pub flush_packs-IsFlushed :
      (packs : List (List StageEntry)) (w : World N)
      → IsSteady w
      → All (λ es. (0 < length es) × (distinct (stage_keys es) ≡ true)) packs
      → ((flush_packs client conf packs w).0 ≡ false)
        × IsFlushed (in_packs packs) w (flush_packs client conf packs w).1
  unfolding flush_packs flush_one_pack upload_pack
  flush_packs-IsFlushed [] w h d = (refl, IsFlushed-nil w h)
  flush_packs-IsFlushed ([] ∷ packs) w h d = absurd (omega (arith, d.0.0))
  flush_packs-IsFlushed ((e ∷ es) ∷ packs) w h d =
      let (good, first) = flush_one_pack-IsFlushed e es w h d.0.1 in
      let (fine, rest) =
        flush_packs-IsFlushed packs (flush_one_pack client conf (e ∷ es) w).1 first.steady d.1 in
      (
        rw (good, fine) refl,
        IsFlushed-append (contains (stage_keys (e ∷ es))) (in_packs packs) w _ _ first rest,
      )
