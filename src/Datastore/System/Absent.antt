-- ===== src/Datastore/System/Absent.antt =====
-- A block that `Delete` of walrus.go has removed, along the steps of all goroutines.
use go_ds_s3_walrus.Common.{
  ◌<◌, String, true, false, ◌≡◌, refl, ◌∙◌, none, List, [], ◌∷◌, contains, length, All, All-map,
  arith, inl, inr, str_eq, eq_iff,
}
use go_ds_s3_walrus.Common.Int.{half_word}
use go_ds_s3_walrus.Common.Result.{not_found, Result, ok, err, Result-cases}
use go_ds_s3_walrus.Index.{Bytes, KeyRecord, StageEntry}
use go_ds_s3_walrus.Index.Write.{keys_of, delete_many, promote_staged}
use go_ds_s3_walrus.Index.Stage.{stage_keys}
use go_ds_s3_walrus.Index.Staging.{staged_bytes}
use go_ds_s3_walrus.Index.View.{view, IsWord}
use go_ds_s3_walrus.Index.Moves.{delete_many-IsDeleted}
use go_ds_s3_walrus.Index.Known.{
  is_known, is_known-stage_put_many, is_known-stage_release, is_known-lease_keys,
  is_known-promote_staged, is_known-put_many,
}
use go_ds_s3_walrus.Index.Overlap.{All-live, is_known-delete_seen}
use go_ds_s3_walrus.Client.{WalrusClient}
use go_ds_s3_walrus.Datastore.{Config, World, BlockEntry}
use go_ds_s3_walrus.Datastore.Store
use go_ds_s3_walrus.Datastore.Store.{get}
use go_ds_s3_walrus.Datastore.Upload.{
  upload_pack, upload_single_block, single_record, concat_blocks,
}
use go_ds_s3_walrus.Datastore.Flush.{to_blocks}
use go_ds_s3_walrus.Datastore.Walrus.{IsWalrus}
use go_ds_s3_walrus.Datastore.Identified.{Holds}
use go_ds_s3_walrus.Datastore.Uploads.{upload_pack-IsQuiet, upload_pack-Uploads}
use go_ds_s3_walrus.Datastore.Answers.{calm, answer, get-answer}
use go_ds_s3_walrus.Datastore.System.{
  Job, claimed, promoting, releasing, storing, indexing, deleting, overlap, Call, stage, store,
  remove, claim, Fits, System, start, run_job, Reach, after_upload, after_promote, after_store,
  after_claim,
}
use go_ds_s3_walrus.Datastore.System.Induction.{IsCarried, IsInductive, Reach-Holding}

module _ (key : String) where
  -- A call that does not write the key.
  abbrev pub Spares : Call → Type 0
  Spares (stage es) = contains (stage_keys es) key ≡ false
  Spares (store e) = str_eq e.key key ≡ false
  Spares (remove keys) = Unit
  Spares (claim keys lease) = Unit

  -- A job that is not about to store the key outside the staging table: packs may hold it. The counters of
  -- records are 64-bit words.
  abbrev pub IsIdle : Job → Type 0
  IsIdle (claimed es) = Unit
  IsIdle (promoting es recs) = All (λ kr. IsWord kr.rec) recs
  IsIdle (releasing es) = Unit
  IsIdle (storing e) = str_eq e.key key ≡ false
  IsIdle (indexing recs) = All (λ kr. IsWord kr.rec) recs × (contains (keys_of recs) key ≡ false)
  IsIdle (deleting indexed staged) = Unit

  after_claim-IsIdle : (r : Result (List StageEntry)) → All IsIdle (after_claim r)
  unfolding after_claim
  after_claim-IsIdle (ok es) = (tt, tt)
  after_claim-IsIdle (err e) = tt

  after_promote-IsIdle :
      (es : List StageEntry) (r : Result (Unit {0})) → All IsIdle (after_promote es r)
  unfolding after_promote
  after_promote-IsIdle es (ok u) = tt
  after_promote-IsIdle es (err e) = (tt, tt)

  after_upload-IsIdle :
      (es : List StageEntry) (r : Result (List KeyRecord))
      → ((recs : List KeyRecord) → r ≡ ok recs → All (λ kr. IsWord kr.rec) recs)
      → All IsIdle (after_upload es r)
  unfolding after_upload
  after_upload-IsIdle es (ok recs) h = (h recs refl, tt)
  after_upload-IsIdle es (err e) h = (tt, tt)

  after_store-IsIdle :
      (r : Result (List KeyRecord))
      → ((recs : List KeyRecord)
          → r ≡ ok recs
          → All (λ kr. IsWord kr.rec) recs × (contains (keys_of recs) key ≡ false))
      → All IsIdle (after_store r)
  unfolding after_store
  after_store-IsIdle (ok recs) h = (h recs refl, tt)
  after_store-IsIdle (err e) h = tt

  module _ {N : Type 0} where
    abbrev pub IsAbsent : World N → Type 0
    IsAbsent w = is_known w.pg.tables key ≡ false

    abbrev Idle : N → Job → Type 0
    Idle n j = IsIdle j

    abbrev Quiet : World N → List Job × World N → Type 0
    Quiet w (js, w') = IsCarried IsAbsent Idle w js w'

    start-Quiet : (c : Call) → Spares c → (w : World N) → IsAbsent w → Quiet w (start c w)
    unfolding start
    start-Quiet (stage es) p w h = record {
      world = ground (arith, is_known-stage_put_many es w.pg key, p);
      jobs = tt;
      others = λ j i. i;
    }
    start-Quiet (store e) p w h = record { world = h; jobs = (p, tt); others = λ j i. i }
    start-Quiet (remove keys) p w h = record { world = h; jobs = (tt, tt); others = λ j i. i }
    start-Quiet (claim keys lease) p w h = record {
      world = is_known-lease_keys keys lease w.pg key ∙ h;
      jobs = after_claim-IsIdle _;
      others = λ j i. i;
    }

    module _ (client : WalrusClient N) (walrus : IsWalrus client) (conf : Config) where
      Holds-none : (pack : List BlockEntry) → Holds client (λ _. none) pack
      Holds-none [] = tt
      Holds-none (e ∷ pack) = (λ u same. absurd (cc same), Holds-none pack)

      uploaded_words :
          (pack : List BlockEntry) (w : World N) (recs : List KeyRecord)
          → length (concat_blocks pack) < half_word
          → (upload_pack client conf pack w).0 ≡ ok recs
          → All (λ kr. IsWord kr.rec) recs
      uploaded_words pack w recs small good =
          All-map _ _ recs (λ kr r. r.3)
            (upload_pack-Uploads client walrus conf (λ _. none) pack w recs good (Holds-none pack)
              small)

      -- A block of its own gets one record, of its key.
      single_keys :
          (e : BlockEntry) (w : World N) (recs : List KeyRecord)
          → (upload_pack client conf (e ∷ []) w).0 ≡ ok recs
          → keys_of recs ≡ e.key ∷ []
      unfolding upload_pack upload_single_block single_record
      single_keys e w recs h =
          elim (Result-cases (client.store e.val conf.epochs conf.deletable w.net).0) [
            | inr (x, bad) ↦ absurd (cc (rw bad at h))
            | inl (res, good) ↦
                let shape : recs ≡ single_record conf w.clock e res ∷ [] = cc (rw good at h) in
                rw shape
          ]

      upload-Quiet :
          (pack : List BlockEntry) (w : World N) (js : List Job)
          → IsAbsent w
          → All IsIdle js
          → Quiet w (js, (upload_pack client conf pack w).1)
      upload-Quiet pack w js h i = record {
        world = rw (upload_pack-IsQuiet client walrus conf pack w).pg h;
        jobs = i;
        others = λ j k. k;
      }

      run_job-Quiet :
          (j : Job)
          → Fits j
          → (w : World N) → IsAbsent w
          → IsIdle j
          → Quiet w (run_job client conf j w)
      unfolding run_job
      run_job-Quiet (claimed es) small w h i =
          upload-Quiet (to_blocks es) w _ h
            (after_upload-IsIdle es _ (λ recs. uploaded_words (to_blocks es) w recs small))
      run_job-Quiet (promoting es recs) small w h i = record {
        world = is_known-promote_staged recs w.pg key i ∙ h;
        jobs = after_promote-IsIdle es (promote_staged recs w.pg).0;
        others = λ j k. k;
      }
      run_job-Quiet (releasing es) small w h i = record {
        world = is_known-stage_release (stage_keys es) w.pg key ∙ h;
        jobs = tt;
        others = λ j k. k;
      }
      run_job-Quiet (storing e) small w h i = upload-Quiet (e ∷ []) w _ h (
          after_store-IsIdle _ (λ recs good.
            (uploaded_words (e ∷ []) w recs small good, rw (single_keys e w recs good) (rw i))))
      run_job-Quiet (indexing recs) small w h i = record {
        world = ground (arith, is_known-put_many recs w.pg key i.0, i.1);
        jobs = tt;
        others = λ j k. k;
      }
      run_job-Quiet (deleting indexed staged) small w h i = record {
        world = (is_known-delete_seen indexed staged w.pg key).0 h;
        jobs = tt;
        others = λ j k. k;
      }

      IsIdle-overlap :
          (seen seen' : List String) (j : Job) → IsIdle j → IsIdle (overlap seen seen' j)
      unfolding overlap
      IsIdle-overlap seen seen' (claimed es) h = tt
      IsIdle-overlap seen seen' (promoting es recs) h = All-live _ seen recs h
      IsIdle-overlap seen seen' (releasing es) h = tt
      IsIdle-overlap seen seen' (storing e) h = h
      IsIdle-overlap seen seen' (indexing recs) h = h
      IsIdle-overlap seen seen' (deleting indexed staged) h = tt

      absence : IsInductive client conf Spares IsAbsent Idle
      absence = record {
        starts = start-Quiet;
        works = run_job-Quiet;
        overlaps = λ seen seen' j n h. IsIdle-overlap seen seen' j h;
        passes = λ now outcomes kicked clock w h. h;
      }

      get-IsAbsent : (w : World N) → IsAbsent w → (get client key (calm w)).0 ≡ err not_found
      unfolding answer
      get-IsAbsent w h =
          let unstaged : staged_bytes w.pg.tables key ≡ none = ground (arith, h) in
          let unindexed : view w.pg.tables.index key ≡ none = ground (arith, h) in
          get-answer client key w ∙ rw (unstaged, unindexed)

      deleted-IsAbsent :
          (w : World N) → (Store.delete key w).0 ≡ ok tt → IsAbsent (Store.delete key w).1
      unfolding Store.delete go_ds_s3_walrus.Index.Write.delete view
      deleted-IsAbsent w h =
          let gone = (delete_many-IsDeleted (key ∷ []) w.pg).1 h in
          let same : str_eq key key ≡ true = (eq_iff key key).1 refl in
          ground (arith, gone.staged key, gone.indexed key, same)

      -- A block that was deleted does not come back: after a `Delete` that succeeded and overlapped no other
      -- transaction, a `Get` without database faults reports that the key is not found, after any interleaving of the steps of any
      -- number of goroutines, with faults, lost answers, crashes and outdated claims, until a
      -- call writes the key again. Packs with the block may be in the hands of flushers at every stage; no oversize
      -- `Put` of the key may. (Packs are shorter than 2^63 bytes, and Walrus keeps what it stored.)
      pub get-deleted :
          (w : World N) (jobs : List Job) (t : System N)
          → (Store.delete key w).0 ≡ ok tt
          → All IsIdle jobs
          → Reach client conf Spares (record { world = (Store.delete key w).1; jobs = jobs }) t
          → (get client key (calm t.world)).0 ≡ err not_found
      get-deleted w jobs t h idle r =
          get-IsAbsent t.world
            (Reach-Holding client conf _ _ _ _ t absence r (deleted-IsAbsent w h, idle)).0
