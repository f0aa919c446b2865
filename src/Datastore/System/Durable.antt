-- ===== src/Datastore/System/Durable.antt =====
-- A block that walrus.go has taken, along the steps of all goroutines.
use go_ds_s3_walrus.Common.{
  String, true, false, ◌≡◌, ◌∙◌, List, [], ◌∷◌, contains, All, All-map, All-both, arith, ◌⊎◌, inl,
  inr,
}
use go_ds_s3_walrus.Common.Result.{not_found, Result, ok, err}
use go_ds_s3_walrus.Index.{Bytes, KeyRecord, StageEntry}
use go_ds_s3_walrus.Index.Overlap.{contains-among, is_known-delete_seen}
use go_ds_s3_walrus.Index.Known.{
  is_known, is_known-stage_put_many, is_known-stage_release, is_known-lease_keys,
  is_known-promote_staged, is_known-put_many,
}
use go_ds_s3_walrus.Client.{WalrusClient}
use go_ds_s3_walrus.Datastore.{Config, World, BlockEntry}
use go_ds_s3_walrus.Datastore.Store.{get}
use go_ds_s3_walrus.Datastore.Upload.{upload_pack}
use go_ds_s3_walrus.Datastore.Walrus.{IsWalrus}
use go_ds_s3_walrus.Datastore.Flush.{to_blocks}
use go_ds_s3_walrus.Datastore.Uploads.{upload_pack-IsQuiet}
use go_ds_s3_walrus.Datastore.Answers.{calm}
use go_ds_s3_walrus.Datastore.System.{
  Job, claimed, promoting, releasing, storing, indexing, deleting, overlap, Call, stage, store,
  remove, claim, System, start, run_job, Reach, after_upload, after_promote, after_store,
  after_claim,
}
use go_ds_s3_walrus.Datastore.System.Induction.{IsInductive, Reach-Holding}
use go_ds_s3_walrus.Datastore.System.Truth.{
  IsTrue, Truthful, Truthful-overlap, IsHonest, IsTrueSystem, truth, answer-IsTrue,
}

module _ (key : String) where
  -- A call that does not remove the key.
  abbrev pub Leaves : Call → Type 0
  Leaves (stage es) = Unit
  Leaves (store e) = Unit
  Leaves (remove keys) = contains keys key ≡ false
  Leaves (claim keys lease) = Unit

  -- A job that is not about to delete the key.
  abbrev pub Retains : Job → Type 0
  Retains (claimed es) = Unit
  Retains (promoting es recs) = Unit
  Retains (releasing es) = Unit
  Retains (storing e) = Unit
  Retains (indexing recs) = Unit
  Retains (deleting indexed staged) = (contains indexed key ≡ false) × (contains staged key ≡ false)

  Retains-overlap :
      (seen seen' : List String) (j : Job) → Retains j → Retains (overlap seen seen' j)
  unfolding overlap
  Retains-overlap seen seen' (claimed es) h = tt
  Retains-overlap seen seen' (promoting es recs) h = tt
  Retains-overlap seen seen' (releasing es) h = tt
  Retains-overlap seen seen' (storing e) h = tt
  Retains-overlap seen seen' (indexing recs) h = tt
  Retains-overlap seen seen' (deleting indexed staged) h =
      (contains-among seen indexed key h.0, contains-among seen' staged key h.1)

  All-after_upload :
      (es : List StageEntry) (r : Result (List KeyRecord)) → All Retains (after_upload es r)
  unfolding after_upload
  All-after_upload es (ok recs) = (tt, tt)
  All-after_upload es (err e) = (tt, tt)

  All-after_promote :
      (es : List StageEntry) (r : Result (Unit {0})) → All Retains (after_promote es r)
  unfolding after_promote
  All-after_promote es (ok u) = tt
  All-after_promote es (err e) = (tt, tt)

  All-after_store : (r : Result (List KeyRecord)) → All Retains (after_store r)
  unfolding after_store
  All-after_store (ok recs) = (tt, tt)
  All-after_store (err e) = tt

  All-after_claim : (r : Result (List StageEntry)) → All Retains (after_claim r)
  unfolding after_claim
  All-after_claim (ok es) = (tt, tt)
  All-after_claim (err e) = tt

  start-Retains : {N : Type 0} (c : Call) → Leaves c → (w : World N) → All Retains (start c w).0
  unfolding start
  start-Retains (stage es) l w = tt
  start-Retains (store e) l w = (tt, tt)
  start-Retains (remove keys) l w = ((l, l), tt)
  start-Retains (claim keys lease) l w = All-after_claim _

  run_job-Retains :
      {N : Type 0} (client : WalrusClient N) (conf : Config) (j : Job) (w : World N)
      → All Retains (run_job client conf j w).0
  unfolding run_job
  run_job-Retains client conf (claimed es) w = All-after_upload es _
  run_job-Retains client conf (promoting es recs) w = All-after_promote es _
  run_job-Retains client conf (releasing es) w = tt
  run_job-Retains client conf (storing e) w = All-after_store _
  run_job-Retains client conf (indexing recs) w = tt
  run_job-Retains client conf (deleting indexed staged) w = tt

module _ {N : Type 0} (key : String) where
  abbrev IsThere : World N → Type 0
  IsThere w = is_known w.pg.tables key ≡ true

  start-IsThere : (c : Call) → Leaves key c → (w : World N) → IsThere w → IsThere (start c w).1
  unfolding start
  start-IsThere (stage es) l w h = ground (arith, is_known-stage_put_many es w.pg key)
  start-IsThere (store e) l w h = h
  start-IsThere (remove keys) l w h = h
  start-IsThere (claim keys lease) l w h = is_known-lease_keys keys lease w.pg key ∙ h

module _ {N : Type 0} (client : WalrusClient N) (walrus : IsWalrus client) (conf : Config)
    (content : String → Bytes) (key : String) where
  upload-IsThere :
      (pack : List BlockEntry) (w : World N)
      → IsThere key w
      → IsThere key (upload_pack client conf pack w).1
  upload-IsThere pack w h = rw (upload_pack-IsQuiet client walrus conf pack w).pg h

  run_job-IsThere :
      (j : Job) (w : World N)
      → Truthful client content w.net j
      → Retains key j
      → IsThere key w
      → IsThere key (run_job client conf j w).1
  unfolding run_job
  run_job-IsThere (claimed es) w t i h = upload-IsThere (to_blocks es) w h
  run_job-IsThere (promoting es recs) w t i h =
      is_known-promote_staged recs w.pg key (All-map _ _ recs (λ kr f. f.1) t) ∙ h
  run_job-IsThere (releasing es) w t i h = is_known-stage_release _ w.pg key ∙ h
  run_job-IsThere (storing e) w t i h = upload-IsThere (e ∷ []) w h
  run_job-IsThere (indexing recs) w t i h =
      ground (arith, is_known-put_many recs w.pg key (All-map _ _ recs (λ kr f. f.1) t))
  run_job-IsThere (deleting indexed staged) w t i h =
      (is_known-delete_seen indexed staged w.pg key).1 i.0 i.1 ∙ h

  -- What a job has in hand is true and it does not delete the key.
  abbrev pub Sparing : N → Job → Type 0
  Sparing n j = Truthful client content n j × Retains key j

  durable :
      IsInductive client conf
        (λ c. IsHonest content c × Leaves key c)
        (λ w. IsTrue client content w × IsThere key w)
        Sparing
  durable = record {
    starts = λ c p w s.
        let k = (truth client content walrus conf).starts c p.0 w s.0 in
        record {
          world = (k.world, start-IsThere key c p.1 w s.1);
          jobs = All-both _ _ _ k.jobs (start-Retains key c p.1 w);
          others = λ j t. (k.others j t.0, t.1);
        };
    works = λ j fits w s t.
        let k = (truth client content walrus conf).works j fits w s.0 t.0 in
        record {
          world = (k.world, run_job-IsThere j w t.0 t.1 s.1);
          jobs = All-both _ _ _ k.jobs (run_job-Retains key client conf j w);
          others = λ i u. (k.others i u.0, u.1);
        };
    overlaps = λ seen seen' j n t.
        (Truthful-overlap client content seen seen' j n t.0, Retains-overlap key seen seen' j t.1);
    passes = λ now outcomes kicked clock w s.
        ((truth client content walrus conf).passes now outcomes kicked clock w s.0, s.1);
  }

  -- Keys are content-addressed: where a system begins with nothing else staged, indexed or in hand than the content of the keys, and every call that
  -- writes brings the content of its keys, a `Get` without database faults returns the content of its key or
  -- reports that it is not found, after any interleaving of the steps of any number of
  -- goroutines, with faults, lost answers, crashes and outdated claims. (Packs are shorter than 2^63 bytes.)
  pub get-IsTrue :
      (s t : System N)
      → IsTrueSystem client content walrus conf s
      → Reach client conf (IsHonest content) s t
      → ((get client key (calm t.world)).0 ≡ ok (content key))
        ⊎ ((get client key (calm t.world)).0 ≡ err not_found)
  get-IsTrue s t h r =
      elim (answer-IsTrue client content key t.world
        (Reach-Holding client conf _ _ _ s t (truth client content walrus conf) r h).0) [
          | inl found ↦ inl found
          | inr (_, _, unknown) ↦ inr unknown
        ]

  -- Under the same conditions: a key that is staged or indexed is never lost. As long as no call removes it
  -- and no deletion of it is in progress, a `Get` without database faults returns its content, at every moment of every interleaving.
  pub get-durable :
      (s t : System N)
      → IsTrueSystem client content walrus conf s
      → All (Retains key) s.jobs
      → is_known s.world.pg.tables key ≡ true
      → Reach client conf (λ c. IsHonest content c × Leaves key c) s t
      → (get client key (calm t.world)).0 ≡ ok (content key)
  get-durable s t h kept known r =
      let ((sound, there), _) =
        Reach-Holding client conf _ _ _ s t durable r ((h.0, known), All-both _ _ _ h.1 kept) in
      elim (answer-IsTrue client content key t.world sound) [
        | inl found ↦ found
        | inr (unstaged, unindexed, _) ↦ absurd (cc (rw (unstaged, unindexed) at there))
      ]
