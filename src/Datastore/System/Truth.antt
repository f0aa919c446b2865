-- ===== src/Datastore/System/Truth.antt =====
-- What the goroutines of walrus.go hold and what the tables hold, where keys are content-addressed.
use go_ds_s3_walrus.Common.{
  ◌<◌, String, ◌≡◌, refl, ap, sym, ◌∙◌, none, some, List, [], ◌∷◌, length, All, All-map, ◌⊎◌, inl,
  inr, Option-cases,
}
use go_ds_s3_walrus.Common.Int.{half_word}
use go_ds_s3_walrus.Common.Assoc.{lookup}
use go_ds_s3_walrus.Common.Rows.{Rows-lookup}
use go_ds_s3_walrus.Common.Result.{not_found, Result, ok, err}
use go_ds_s3_walrus.Index.{Bytes, Record, KeyRecord, StageEntry}
use go_ds_s3_walrus.Index.Write.{promote_staged}
use go_ds_s3_walrus.Index.Stage.{stage_keys}
use go_ds_s3_walrus.Index.Postgres.{Pg}
use go_ds_s3_walrus.Index.Staging.{staged_bytes}
use go_ds_s3_walrus.Index.View.{view, IsWord}
use go_ds_s3_walrus.Index.Sound.{
  IsSound, stage_put_many-IsSound, stage_release-IsSound, lease_keys-IsSound, put_many-IsSound,
  promote_staged-IsSound,
}
use go_ds_s3_walrus.Index.Overlap.{All-live, delete_seen-IsSound}
use go_ds_s3_walrus.Client.{WalrusClient}
use go_ds_s3_walrus.Datastore.{Config, World, BlockEntry}
use go_ds_s3_walrus.Datastore.Store.{get, read_record}
use go_ds_s3_walrus.Datastore.Upload.{upload_pack, concat_blocks}
use go_ds_s3_walrus.Datastore.Flush.{to_blocks}
use go_ds_s3_walrus.Datastore.Walrus.{IsWalrus}
use go_ds_s3_walrus.Datastore.Identified.{Holds}
use go_ds_s3_walrus.Datastore.Uploads.{upload_pack-IsQuiet, upload_pack-Uploads}
use go_ds_s3_walrus.Datastore.Answers.{calm, answer, get-answer}
use go_ds_s3_walrus.Datastore.System.{
  Job, claimed, promoting, releasing, storing, indexing, deleting, overlap, Call, stage, store,
  remove, claim, Fits, System, start, run_job, after_upload, after_promote, after_store,
  after_claim,
}
use go_ds_s3_walrus.Datastore.System.Induction.{IsCarried, IsInductive}

module _ (content : String → Bytes) where
  abbrev pub IsContent : String → Bytes → Type 0
  IsContent key v = v ≡ content key

  -- A call that brings no other bytes for a key than its content.
  abbrev pub IsHonest : Call → Type 0
  IsHonest (stage es) = All (λ e. IsContent e.key e.value) es
  IsHonest (store e) = IsContent e.key e.val
  IsHonest (remove keys) = Unit
  IsHonest (claim keys lease) = Unit

module _ {N : Type 0} (client : WalrusClient N) (content : String → Bytes) where
  -- At the network `n`, a record reads the content of its key.
  abbrev pub Tells : N → String → Record → Type 0
  Tells n key rec = (read_record client rec n).0 ≡ ok (content key)

  -- Staged blocks are the content of their keys, and records read it.
  abbrev pub IsTrue : World N → Type 0
  IsTrue w = IsSound (IsContent content) (Tells w.net) w.pg.tables

  abbrev pub Truthful : N → Job → Type 0
  Truthful n (claimed es) = All (λ e. IsContent content e.key e.value) es
  Truthful n (promoting es recs) = All (λ kr. Tells n kr.key kr.rec × IsWord kr.rec) recs
  Truthful n (releasing es) = Unit
  Truthful n (storing e) = IsContent content e.key e.val
  Truthful n (indexing recs) = All (λ kr. Tells n kr.key kr.rec × IsWord kr.rec) recs
  Truthful n (deleting indexed staged) = Unit

  Keeps : N → N → Type 0
  Keeps n n' =
      (rec : Record) (b : Bytes)
      → (read_record client rec n).0 ≡ ok b
      → (read_record client rec n').0 ≡ ok b

  Truthful-Keeps : (n n' : N) → Keeps n n' → (j : Job) → Truthful n j → Truthful n' j
  unfolding Keeps
  Truthful-Keeps n n' k (claimed es) h = h
  Truthful-Keeps n n' k (promoting es recs) h =
      All-map _ _ recs (λ kr t. (k kr.rec (content kr.key) t.0, t.1)) h
  Truthful-Keeps n n' k (releasing es) h = tt
  Truthful-Keeps n n' k (storing e) h = h
  Truthful-Keeps n n' k (indexing recs) h =
      All-map _ _ recs (λ kr t. (k kr.rec (content kr.key) t.0, t.1)) h
  Truthful-Keeps n n' k (deleting indexed staged) h = tt

  pub Truthful-overlap :
      (seen seen' : List String) (j : Job) (n : N)
      → Truthful n j
      → Truthful n (overlap seen seen' j)
  unfolding overlap
  Truthful-overlap seen seen' (claimed es) n h = h
  Truthful-overlap seen seen' (promoting es recs) n h = All-live _ seen recs h
  Truthful-overlap seen seen' (releasing es) n h = tt
  Truthful-overlap seen seen' (storing e) n h = h
  Truthful-overlap seen seen' (indexing recs) n h = h
  Truthful-overlap seen seen' (deleting indexed staged) n h = tt

  abbrev pub Carried : World N → List Job × World N → Type 0
  Carried w (js, w') = IsCarried IsTrue Truthful w js w'

  -- A step of the database alone.
  on_tables :
      (w : World N) (p : Pg) (js : List Job)
      → IsSound (IsContent content) (Tells w.net) p.tables
      → All (Truthful w.net) js
      → Carried w (js, record w { pg = p })
  on_tables w p js s h = record { world = s; jobs = h; others = λ j t. t }

  after_claim-Truthful :
      (n : N) (r : Result (List StageEntry))
      → ((es : List StageEntry) → r ≡ ok es → All (λ e. IsContent content e.key e.value) es)
      → All (Truthful n) (after_claim r)
  unfolding after_claim
  after_claim-Truthful n (ok es) h = (h es refl, tt)
  after_claim-Truthful n (err e) h = tt

  start-Carried : (c : Call) → IsHonest content c → (w : World N) → IsTrue w → Carried w (start c w)
  unfolding start
  start-Carried (stage es) h w s =
      on_tables w _ [] (stage_put_many-IsSound (IsContent content) (Tells w.net) es w.pg h s) tt
  start-Carried (store e) h w s = on_tables w w.pg (storing e ∷ []) s (h, tt)
  start-Carried (remove keys) h w s = on_tables w w.pg (deleting keys keys ∷ []) s (tt, tt)
  start-Carried (claim keys lease) h w s =
      let (kept, es) = lease_keys-IsSound (IsContent content) (Tells w.net) keys lease w.pg s in
      on_tables w _ _ kept (after_claim-Truthful w.net _ es)

  Holds-content :
      (pack : List BlockEntry)
      → All (λ (e : BlockEntry). IsContent content e.key e.val) pack
      → Holds client (λ key. some (content key)) pack
  Holds-content [] h = tt
  Holds-content (e ∷ pack) h = (λ u same. cc (h.0, same), Holds-content pack h.1)

  All-to_blocks :
      (es : List StageEntry)
      → All (λ e. IsContent content e.key e.value) es
      → All (λ (e : BlockEntry). IsContent content e.key e.val) (to_blocks es)
  All-to_blocks [] h = tt
  All-to_blocks (e ∷ es) h = (h.0, All-to_blocks es h.1)

  module _ (walrus : IsWalrus client) (conf : Config) where
    uploaded_records :
        (pack : List BlockEntry) (w : World N) (recs : List KeyRecord)
        → All (λ (e : BlockEntry). IsContent content e.key e.val) pack
        → length (concat_blocks pack) < half_word
        → (upload_pack client conf pack w).0 ≡ ok recs
        → All
            (λ kr. Tells (upload_pack client conf pack w).1.net kr.key kr.rec × IsWord kr.rec)
            recs
    uploaded_records pack w recs h small good =
        All-map _ _ recs
          (λ kr (v, agrees, reads, words).
            (reads ∙ ap ok (sym (agrees (content kr.key) refl)), words))
          (upload_pack-Uploads client walrus conf (λ key. some (content key)) pack w recs good
            (Holds-content pack h) small)

    -- An upload, whatever is in hand after it.
    upload-Carried :
        (pack : List BlockEntry) (w : World N) (js : List Job)
        → IsTrue w
        → All (Truthful (upload_pack client conf pack w).1.net) js
        → Carried w (js, (upload_pack client conf pack w).1)
    upload-Carried pack w js s h =
        let quiet = upload_pack-IsQuiet client walrus conf pack w in
        record {
          world = rw quiet.pg (record {
            staged = s.staged;
            indexed = λ key rec e. quiet.reads rec (content key) (s.indexed key rec e);
          });
          jobs = h;
          others = Truthful-Keeps w.net _ (unfold Keeps in quiet.reads);
        }

    after_upload-Truthful :
        (es : List StageEntry) (n : N) (r : Result (List KeyRecord))
        → ((recs : List KeyRecord)
            → r ≡ ok recs
            → All (λ kr. Tells n kr.key kr.rec × IsWord kr.rec) recs)
        → All (Truthful n) (after_upload es r)
    unfolding after_upload
    after_upload-Truthful es n (ok recs) h = (h recs refl, tt)
    after_upload-Truthful es n (err e) h = (tt, tt)

    after_store-Truthful :
        (n : N) (r : Result (List KeyRecord))
        → ((recs : List KeyRecord)
            → r ≡ ok recs
            → All (λ kr. Tells n kr.key kr.rec × IsWord kr.rec) recs)
        → All (Truthful n) (after_store r)
    unfolding after_store
    after_store-Truthful n (ok recs) h = (h recs refl, tt)
    after_store-Truthful n (err e) h = tt

    after_promote-Truthful :
        (es : List StageEntry) (n : N) (r : Result (Unit {0}))
        → All (Truthful n) (after_promote es r)
    unfolding after_promote
    after_promote-Truthful es n (ok u) = tt
    after_promote-Truthful es n (err e) = (tt, tt)

    run_job-Carried :
        (j : Job)
        → Fits j
        → (w : World N) → IsTrue w
        → Truthful w.net j
        → Carried w (run_job client conf j w)
    unfolding run_job
    run_job-Carried (claimed es) small w s h = upload-Carried (to_blocks es) w _ s (
        after_upload-Truthful es _ _
          (λ recs. uploaded_records (to_blocks es) w recs (All-to_blocks es h) small))
    run_job-Carried (promoting es recs) small w s h =
        on_tables w _ _ (promote_staged-IsSound (IsContent content) (Tells w.net) recs w.pg h s)
          (after_promote-Truthful es w.net (promote_staged recs w.pg).0)
    run_job-Carried (releasing es) small w s h =
        on_tables w _ []
          (stage_release-IsSound (IsContent content) (Tells w.net) (stage_keys es) w.pg s) tt
    run_job-Carried (storing e) small w s h =
        upload-Carried (e ∷ []) w _ s
          (after_store-Truthful _ _ (λ recs. uploaded_records (e ∷ []) w recs (h, tt) small))
    run_job-Carried (indexing recs) small w s h =
        on_tables w _ [] (put_many-IsSound (IsContent content) (Tells w.net) recs w.pg h s) tt
    run_job-Carried (deleting indexed staged) small w s h =
        on_tables w _ []
          (delete_seen-IsSound (IsContent content) (Tells w.net) indexed staged w.pg s) tt

    abbrev pub IsTrueSystem : System N → Type 0
    IsTrueSystem s = IsTrue s.world × All (Truthful s.world.net) s.jobs

    pub truth : IsInductive client conf (IsHonest content) IsTrue Truthful
    truth = record {
      starts = start-Carried;
      works = run_job-Carried;
      overlaps = Truthful-overlap;
      passes = λ now outcomes kicked clock w s. record { staged = s.staged; indexed = s.indexed };
    }

  -- What a reader gets where the tables hold the content of the keys.
  pub answer-IsTrue :
      (key : String) (w : World N)
      → IsTrue w
      → ((get client key (calm w)).0 ≡ ok (content key))
        ⊎ ((staged_bytes w.pg.tables key ≡ none)
            × (view w.pg.tables.index key ≡ none)
            × ((get client key (calm w)).0 ≡ err not_found))
  unfolding answer
  answer-IsTrue key w s = elim (Option-cases (lookup key w.pg.tables.staging)) [
    | inr (row, staged) ↦
        let value = Rows-lookup _ key w.pg.tables.staging row s.staged staged in
        inl (get-answer client key w ∙ rw staged (ap ok value))
    | inl unstaged ↦ elim (Option-cases (view w.pg.tables.index key)) [
      | inr (rec, found) ↦
          inl (get-answer client key w ∙ rw (unstaged, found) (rw (s.indexed key rec found)))
      | inl unknown ↦ inr (rw unstaged, unknown, get-answer client key w ∙ rw (unstaged, unknown))
    ]
  ]
