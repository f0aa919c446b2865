-- ===== src/Datastore/Flush.antt =====
-- The pack flusher of walrus.go: claim staged blocks, upload them as packs, promote them.
use go_ds_s3_walrus.Common.{
  ℕ, zero, suc, ◌*◌, ◌^◌, String, Bool, true, false, ◌||◌, not, Option, none, some, List, [], ◌∷◌,
  map, if◌then◌else◌,
}
use go_ds_s3_walrus.Common.Int.{ℤ, pos, pos_part, sub_ℕ, leb_ℤ, ltb_ℤ, eq_ℤ}
use go_ds_s3_walrus.Common.Result.{wrapped, Result, ok, err, Exec, pure, raise, handle, ◌>>=◌}
use go_ds_s3_walrus.Index.{StageEntry, StageStats}
use go_ds_s3_walrus.Index.Write.{promote_staged}
use go_ds_s3_walrus.Index.Stage.{stage_stats, stage_claim, stage_release, stage_keys}
use go_ds_s3_walrus.Client.{WalrusClient}
use go_ds_s3_walrus.Datastore.{Config, World, BlockEntry, on_index}
use go_ds_s3_walrus.Datastore.Upload.{upload_pack}

abbrev pub quilt_max_patches : ℕ
quilt_max_patches = 666

abbrev pub concat_max_blocks : ℕ
concat_max_blocks = 10000

-- 15 minutes.
abbrev pub stage_lease : ℕ
stage_lease = 15 * 60 * 10 ^ 9

unfoldable pub max_count : Config → ℕ
max_count conf = if conf.disable_quilt then concat_max_blocks else quilt_max_patches

-- `t.Valid && time.Since(t.Time) >= age`.
unfoldable pub waited : ℕ → ℤ → Option ℕ → Bool
waited now age none = false
waited now age (some t) = leb_ℤ age (sub_ℕ now t)

-- When the staged blocks are worth a pack: enough bytes, or old enough, or no new ones.
unfoldable pub is_ripe : Config → ℕ → StageStats → Bool
unfolding waited
is_ripe conf now st =
    not (ltb_ℤ st.bytes conf.pack_target_size)
    || (waited now conf.pack_max_age st.oldest || waited now conf.pack_idle_flush st.newest)

abbrev pub to_blocks : List StageEntry → List BlockEntry
to_blocks = map (λ e. record { key = e.key; val = e.value })

module _ {N : Type 0} (client : WalrusClient N) (conf : Config) where
  -- The claim is released on failure; an error of the release itself is only logged.
  unfoldable pub flush_one_pack : List StageEntry → Exec (World N) (Unit {0})
  flush_one_pack entries =
      handle (do recs ← upload_pack client conf (to_blocks entries); on_index (promote_staged recs))
        pure
        (λ e.
          handle (on_index (stage_release (stage_keys entries)))
            (λ _. raise (wrapped "flushing pack" e)) (λ _. raise (wrapped "flushing pack" e)))

  -- The goroutines of one round, one after the other, and whether one failed.
  unfoldable pub flush_packs : List (List StageEntry) → World N → Bool × World N
  flush_packs [] w = (false, w)
  flush_packs (entries ∷ packs) w =
      let (r, w') = flush_one_pack entries w in
      let (failed, w'') = flush_packs packs w' in (elim r [ ok _ ↦ failed | err _ ↦ true ], w'')

module _ {N : Type 0} (key_leb : String → String → Bool) (conf : Config) where
  -- The claim of one more pack, if the staged blocks are ripe: no entries end the round.
  unfoldable pub claim_if_ripe : StageStats → Exec (World N) (List StageEntry)
  claim_if_ripe st w =
      if eq_ℤ st.count (pos 0) || not (is_ripe conf w.clock st)
      then (ok [], w)
      else on_index (stage_claim key_leb (max_count conf) conf.pack_target_size stage_lease) w

  unfoldable pub claim_pack : Exec (World N) (List StageEntry)
  unfolding claim_if_ripe
  claim_pack = do st ← on_index stage_stats; claim_if_ripe st

  abbrev pub add_pack :
      Result (List StageEntry)
      → (World N → List (List StageEntry) × World N)
      → World N
      → List (List StageEntry) × World N
  add_pack (ok []) more w = ([], w)
  add_pack (ok (e ∷ es)) more w = let (packs, w') = more w in ((e ∷ es) ∷ packs, w')
  add_pack (err _) more w = ([], w)

  -- Up to `Workers` packs; an error of the database ends the round of claims, and is logged.
  unfoldable pub claim_packs : ℕ → World N → List (List StageEntry) × World N
  claim_packs zero w = ([], w)
  claim_packs (suc n) w = let (r, w') = claim_pack w in add_pack r (claim_packs n) w'

module _ {N : Type 0} where
  -- The end of a round: on a failure the loop ends, or goes on with `more`.
  abbrev pub after_round : (World N → Option (World N)) → Bool × World N → Option (World N)
  after_round more (true, w) = some w
  after_round more (false, w) = more w

  module _ (client : WalrusClient N) (conf : Config) where
    -- A round without packs ends the loop.
    abbrev pub flush_round :
        (World N → Option (World N)) → List (List StageEntry) × World N → Option (World N)
    flush_round more ([], w) = some w
    flush_round more (es ∷ packs, w) = after_round more (flush_packs client conf (es ∷ packs) w)

    -- The loop of `flushStaged`, with fuel for its rounds; `none` is a lack of fuel.
    unfoldable pub flush_staged : (String → String → Bool) → ℕ → World N → Option (World N)
    flush_staged key_leb zero w = none
    flush_staged key_leb (suc fuel) w =
        flush_round (flush_staged key_leb fuel) (claim_packs key_leb conf (pos_part conf.workers) w)
