-- ===== src/Datastore/System.antt =====
-- Many nodes on one database: what walrus.go does between two calls of the database or of Walrus is
-- in the hands of a goroutine, and the calls of all goroutines interleave.
pub mod Induction
pub mod Truth
pub mod Durable
pub mod Absent
pub mod Refines
use go_ds_s3_walrus.Common.{ℕ, Bool, ◌<◌, String, ◌≡◌, List, [], ◌∷◌, ◌++◌, length}
use go_ds_s3_walrus.Common.Int.{half_word}
use go_ds_s3_walrus.Common.Result.{Result, ok, err}
use go_ds_s3_walrus.Index.{KeyRecord, StageEntry}
use go_ds_s3_walrus.Index.Postgres.{Outcome}
use go_ds_s3_walrus.Index.Write.{put_many, delete_seen, promote_staged, live_records}
use go_ds_s3_walrus.Index.Overlap.{among}
use go_ds_s3_walrus.Index.Stage.{stage_keys, stage_put_many, stage_release, lease_keys}
use go_ds_s3_walrus.Client.{WalrusClient}
use go_ds_s3_walrus.Datastore.{Config, World, BlockEntry, on_index}
use go_ds_s3_walrus.Datastore.Upload.{upload_pack, concat_blocks}
use go_ds_s3_walrus.Datastore.Flush.{to_blocks}

-- What a goroutine has in hand: `flushOnePack` before the upload, before the promotion, and before
-- the release; an oversize `Put` before the upload and before the index; and `DeleteMany` before its
-- commit, with the keys that its statements saw in the index and in the staging table.
pub data Job : Type 0 where
  claimed : List StageEntry → Job
  promoting : List StageEntry → List KeyRecord → Job
  releasing : List StageEntry → Job
  storing : BlockEntry → Job
  indexing : List KeyRecord → Job
  deleting : List String → List String → Job

-- How a goroutine begins: `Put` and `Commit` stage blocks, or store an oversize one; `Delete` and
-- `Commit` remove keys; a flusher leases the keys that its SELECT saw, which may be outdated.
pub data Call : Type 0 where
  stage : List StageEntry → Call
  store : BlockEntry → Call
  remove : List String → Call
  claim : List String → ℕ → Call

-- A pack that fits into memory.
abbrev pub Fits : Job → Type 0
Fits (claimed es) = length (concat_blocks (to_blocks es)) < half_word
Fits (promoting es recs) = Unit
Fits (releasing es) = Unit
Fits (storing e) = length (concat_blocks (e ∷ [])) < half_word
Fits (indexing recs) = Unit
Fits (deleting indexed staged) = Unit

pub record System (N : Type 0) : Type 0 where
  pub world : World N
  pub jobs : List Job

after_upload : List StageEntry → Result (List KeyRecord) → List Job
after_upload es (ok recs) = promoting es recs ∷ []
after_upload es (err e) = releasing es ∷ []

after_promote : List StageEntry → Result (Unit {0}) → List Job
after_promote es (ok u) = []
after_promote es (err e) = releasing es ∷ []

after_store : Result (List KeyRecord) → List Job
after_store (ok recs) = indexing recs ∷ []
after_store (err e) = []

after_claim : Result (List StageEntry) → List Job
after_claim (ok es) = claimed es ∷ []
after_claim (err e) = []

-- The transactions run at READ COMMITTED, and overlap. What a job does to the tables it does at the
-- commit, to the keys that its DELETE statements saw when they ran, which are perhaps not all.
unfoldable pub overlap : List String → List String → Job → Job
overlap seen seen' (claimed es) = claimed es
overlap seen seen' (promoting es recs) = promoting es (live_records seen recs)
overlap seen seen' (releasing es) = releasing es
overlap seen seen' (storing e) = storing e
overlap seen seen' (indexing recs) = indexing recs
overlap seen seen' (deleting indexed staged) = deleting (among seen indexed) (among seen' staged)

module _ {N : Type 0} where
  unfoldable pub start : Call → World N → List Job × World N
  unfolding after_claim
  start (stage es) w = ([], (on_index (stage_put_many es) w).1)
  start (store e) w = (storing e ∷ [], w)
  start (remove keys) w = (deleting keys keys ∷ [], w)
  start (claim keys lease) w =
      let (r, w') = on_index (lease_keys keys lease) w in (after_claim r, w')

  module _ (client : WalrusClient N) (conf : Config) where
    -- The next call of a job, and what is in hand after it.
    unfoldable pub run_job : Job → World N → List Job × World N
    unfolding after_upload after_promote after_store
    run_job (claimed es) w =
        let (r, w') = upload_pack client conf (to_blocks es) w in (after_upload es r, w')
    run_job (promoting es recs) w =
        let (r, w') = on_index (promote_staged recs) w in (after_promote es r, w')
    run_job (releasing es) w = ([], (on_index (stage_release (stage_keys es)) w).1)
    run_job (storing e) w = let (r, w') = upload_pack client conf (e ∷ []) w in (after_store r, w')
    run_job (indexing recs) w = ([], (on_index (put_many recs) w).1)
    run_job (deleting indexed staged) w = ([], (on_index (delete_seen indexed staged) w).1)

    -- One step of the system, where the calls that begin are of a kind `P`: a call begins, a job goes
    -- on, a transaction has overlapped another one, a node crashes and loses a job, or the environment moves the clocks of the server and of
    -- the node, decides how the server
    -- will answer, and fills or drains `flushKick`.
    pub data Step (P : Call → Type 0) (s t : System N) : Type 0 where
      starts :
          (c : Call)
          → P c
          → t ≡ record { world = (start c s.world).1; jobs = (start c s.world).0 ++ s.jobs }
          → Step P s t
      works :
          (before after : List Job) (j : Job)
          → s.jobs ≡ before ++ (j ∷ after)
          → Fits j
          → t ≡ record {
            world = (run_job j s.world).1;
            jobs = before ++ ((run_job j s.world).0 ++ after);
          }
          → Step P s t
      overlaps :
          (before after : List Job) (j : Job) (seen seen' : List String)
          → s.jobs ≡ before ++ (j ∷ after)
          → t ≡ record s { jobs = before ++ (overlap seen seen' j ∷ after) }
          → Step P s t
      crashes :
          (before after : List Job) (j : Job)
          → s.jobs ≡ before ++ (j ∷ after)
          → t ≡ record s { jobs = before ++ after }
          → Step P s t
      passes :
          (now : ℕ) (outcomes : List Outcome) (kicked : Bool) (clock : ℕ)
          → t ≡ record s {
            world = record s.world {
              pg = record s.world.pg { now = now; outcomes = outcomes };
              kicked = kicked;
              clock = clock;
            };
          }
          → Step P s t

    pub data Reach (P : Call → Type 0) (s : System N) : System N → Type 0 where
      here : Reach P s s
      next : {t u : System N} → Reach P s t → Step P t u → Reach P s u
