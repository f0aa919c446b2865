-- ===== src/Datastore/System/Refines.antt =====
-- The flusher of walrus.go as it stands in the source, and the jobs of the system.
use go_ds_s3_walrus.Common.{
  Bool, true, false, ◌||◌, ◌≡◌, refl, List, [], ◌∷◌, ◌++◌, map, All, inl, inr,
}
use go_ds_s3_walrus.Common.Result.{
  Error, Exec, raise, handle, wrapped, Result, Result-cases, ok, err,
}
use go_ds_s3_walrus.Index.{KeyRecord, StageEntry}
use go_ds_s3_walrus.Index.Write.{promote_staged}
use go_ds_s3_walrus.Index.Stage.{stage_keys, stage_release}
use go_ds_s3_walrus.Client.{WalrusClient}
use go_ds_s3_walrus.Datastore.{Config, World, on_index}
use go_ds_s3_walrus.Datastore.Upload.{upload_pack}
use go_ds_s3_walrus.Datastore.Flush.{to_blocks, flush_one_pack, flush_packs}
use go_ds_s3_walrus.Datastore.System.{
  Job, claimed, promoting, releasing, storing, indexing, deleting, Call, Fits, System, run_job,
  works, Reach, here, next, after_upload, after_promote,
}

-- A handler that only reports does not change the state, and reports.
handle-state :
    {S A : Type 0} (m : Exec S A) (a : Error) (s : S)
    → (handle m (λ _. raise {A = Unit {0}} a) (λ _. raise a) s).1 ≡ (m s).1
handle-state m a s = elim (Result-cases (m s).0) [
  | inl (x, good) ↦ rw good refl
  | inr (x, bad) ↦ rw bad refl
]

handle-error :
    {S A : Type 0} (m : Exec S A) (a : Error) (s : S)
    → (handle m (λ _. raise {A = Unit {0}} a) (λ _. raise a) s).0 ≡ err a
handle-error m a s = elim (Result-cases (m s).0) [
  | inl (x, good) ↦ rw good refl
  | inr (x, bad) ↦ rw bad refl
]

-- Whether a job gives a failed pack back.
abbrev pub gives_back : Job → Bool
gives_back (claimed es) = false
gives_back (promoting es recs) = false
gives_back (releasing es) = true
gives_back (storing e) = false
gives_back (indexing recs) = false
gives_back (deleting indexed staged) = false

module _ {N : Type 0} (client : WalrusClient N) (conf : Config) where
  -- The jobs in hand are carried out to their end, the first one first, with no crash and no other
  -- goroutine between: whether one of them gave a pack back, and the world in the end.
  pub data Worked : List Job → World N → Bool × World N → Type 0 where
    done : (w : World N) → Worked [] w (false, w)
    goes :
        (j : Job) (js : List Job) (w : World N) (r : Bool × World N)
        → Fits j
        → Worked ((run_job client conf j w).0 ++ js) (run_job client conf j w).1 r
        → Worked (j ∷ js) w (gives_back j || r.0, r.1)

  abbrev pub failing : Result (Unit {0}) → Bool → Bool
  failing (ok u) b = b
  failing (err e) b = true

  -- `flushOnePack` is the upload, the promotion, and on an error the release, which tells of the error.
  flush_one_pack-Worked :
      (es : List StageEntry) (js : List Job) (w : World N) (r : Bool × World N)
      → Fits (claimed es)
      → Worked js (flush_one_pack client conf es w).1 r
      → Worked (claimed es ∷ js) w (failing (flush_one_pack client conf es w).0 r.0, r.1)
  unfolding flush_one_pack run_job after_upload after_promote
  flush_one_pack-Worked es js w r fits rest =
      elim (Result-cases (upload_pack client conf (to_blocks es) w).0) [
        | inr (x, bad) ↦
            rw (bad, handle-error release (wrapped "flushing pack" x) w₁)
              (goes (claimed es) js w (true, r.1) fits
                (rw bad (
                  goes (releasing es) js w₁ r tt
                    (rw (bad, handle-state release (wrapped "flushing pack" x) w₁) at rest))))
        | inl (recs, good) ↦ elim (Result-cases (promote_staged recs w₁.pg).0) [
          | inl (u, good') ↦
              rw (good, good')
                (goes (claimed es) js w r fits (
                  rw good
                    (goes (promoting es recs) js w₁ r tt (rw good' (rw (good, good') at rest)))))
          | inr (x, refused) ↦
              rw (good, refused, handle-error release (wrapped "flushing pack" x) (w₂ recs))
                (goes (claimed es) js w (true, r.1) fits
                  (rw good (
                    goes (promoting es recs) js w₁ (true, r.1) tt
                      (rw refused (
                        goes (releasing es) js (w₂ recs) r tt (
                          rw
                            (
                              good,
                              refused,
                              handle-state release (wrapped "flushing pack" x) (w₂ recs),
                            )
                            at rest))))))
        ]
      ]
    where
      w₁ : World N
      w₁ = (upload_pack client conf (to_blocks es) w).1

      w₂ : List KeyRecord → World N
      w₂ recs = record w₁ { pg = (promote_staged recs w₁.pg).1 }

      release : Exec (World N) (Unit {0})
      release = on_index (stage_release (stage_keys es))

  -- The uploads of a round, one after the other, do what the jobs of the system do, carried out to their end
  -- with nothing between: they leave the same world, and report a failure exactly when a
  -- pack was given back. (Each pack is shorter than 2^63 bytes.)
  pub flush_packs-Worked :
      (packs : List (List StageEntry)) (w : World N)
      → All (λ es. Fits (claimed es)) packs
      → Worked (map claimed packs) w (flush_packs client conf packs w)
  unfolding flush_packs
  flush_packs-Worked [] w h = done w
  flush_packs-Worked (es ∷ packs) w h =
      let step =
        flush_one_pack-Worked es (map claimed packs) w _ h.0
          (flush_packs-Worked packs (flush_one_pack client conf es w).1 h.1) in
      elim (Result-cases (flush_one_pack client conf es w).0) [
        | inl (u, good) ↦ rw good (rw good at step)
        | inr (x, bad) ↦ rw bad (rw bad at step)
      ]

module _ {N : Type 0} (client : WalrusClient N) (conf : Config) (P : Call → Type 0) where
  abbrev pub sys : List Job → World N → System N
  sys jobs w = record { world = w; jobs = jobs }

  pub Reach-trans :
      (s t u : System N)
      → Reach client conf P s t
      → Reach client conf P t u
      → Reach client conf P s u
  Reach-trans s t u r here = r
  Reach-trans s t u r (next {t = v} q x) = next (Reach-trans s t v r q) x

  work :
      (j : Job) (js : List Job) (w : World N)
      → Fits j
      → Reach client conf P
          (sys (j ∷ js) w)
          (sys ((run_job client conf j w).0 ++ js) (run_job client conf j w).1)
  work j js w fits = next here (works [] js j refl fits refl)

  -- `flushOnePack`, in one go, is a row of steps of the system: the upload, the promotion, and on an error
  -- the release. (The pack is shorter than 2^63 bytes.)
  pub flush_one_pack-Reach :
      (es : List StageEntry) (js : List Job) (w : World N)
      → Fits (claimed es)
      → Reach client conf P (sys (claimed es ∷ js) w) (sys js (flush_one_pack client conf es w).1)
  unfolding flush_one_pack run_job after_upload after_promote
  flush_one_pack-Reach es js w fits =
      elim (Result-cases (upload_pack client conf (to_blocks es) w).0) [
        | inr (x, bad) ↦
            rw
              (
                bad,
                handle-state (on_index (stage_release (stage_keys es))) (wrapped "flushing pack" x)
                    w₁,
              )
              (Reach-trans _ _ _ (rw bad at (work (claimed es) js w fits))
                (work (releasing es) js w₁ tt))
        | inl (recs, good) ↦ elim (Result-cases (promote_staged recs w₁.pg).0) [
          | inl (u, good') ↦
              rw (good, good')
                (Reach-trans _ _ _ (rw good at (work (claimed es) js w fits))
                  (rw good' at (work (promoting es recs) js w₁ tt)))
          | inr (x, refused) ↦
              rw
                (
                  good,
                  refused,
                  handle-state (on_index (stage_release (stage_keys es)))
                      (wrapped "flushing pack" x) (w₂ recs),
                )
                (Reach-trans _ _ _ (rw good at (work (claimed es) js w fits)) (
                  Reach-trans _ _ _ (rw refused at (work (promoting es recs) js w₁ tt))
                    (work (releasing es) js (w₂ recs) tt)))
        ]
      ]
    where
      w₁ : World N
      w₁ = (upload_pack client conf (to_blocks es) w).1

      w₂ : List KeyRecord → World N
      w₂ recs = record w₁ { pg = (promote_staged recs w₁.pg).1 }
