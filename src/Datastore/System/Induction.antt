-- ===== src/Datastore/System/Induction.antt =====
-- The steps of the system of walrus.go's goroutines: what each one needs to keep an invariant.
use go_ds_s3_walrus.Common.{ℕ, Bool, String, List, [], ◌∷◌, ◌++◌, All, All-map, All-append}
use go_ds_s3_walrus.Index.Postgres.{Outcome}
use go_ds_s3_walrus.Client.{WalrusClient}
use go_ds_s3_walrus.Datastore.{Config, World}
use go_ds_s3_walrus.Datastore.System.{
  Job, Call, Fits, System, start, run_job, overlap, Step, starts, works, overlaps, crashes, passes,
  Reach, here, next,
}

-- The parts of a list that splits.
All-split :
    (P : Job → Type 0) (before after : List Job) (j : Job)
    → All P (before ++ (j ∷ after))
    → All P before × P j × All P after
All-split P [] after j h = (tt, h.0, h.1)
All-split P (i ∷ before) after j h =
    let (b, mine, a) = All-split P before after j h.1 in ((h.0, b), mine, a)

module _ {N : Type 0} (I : World N → Type 0) (J : N → Job → Type 0) where
  -- The invariant of the world after a step that leaves `js` in hand, and those of the jobs.
  pub record IsCarried (w : World N) (js : List Job) (w' : World N) : Type 0 where
    pub world : I w'
    pub jobs : All (J w'.net) js
    pub others : (j : Job) → J w.net j → J w'.net j

module _ {N : Type 0} (client : WalrusClient N) (conf : Config) where
  module _ (P : Call → Type 0) (I : World N → Type 0) (J : N → Job → Type 0) where
    pub record IsInductive : Type 0 where
      pub starts :
          (c : Call) → P c → (w : World N) → I w → IsCarried I J w (start c w).0 (start c w).1
      pub works :
          (j : Job)
          → Fits j
          → (w : World N) → I w
          → J w.net j
          → IsCarried I J w (run_job client conf j w).0 (run_job client conf j w).1
      pub overlaps :
          (seen seen' : List String) (j : Job) (n : N) → J n j → J n (overlap seen seen' j)
      pub passes :
          (now : ℕ) (outcomes : List Outcome) (kicked : Bool) (clock : ℕ) (w : World N)
          → I w
          → I (record w {
            pg = record w.pg { now = now; outcomes = outcomes };
            kicked = kicked;
            clock = clock;
          })

    abbrev pub Holding : System N → Type 0
    Holding s = I s.world × All (J s.world.net) s.jobs

    Step-Holding : (s t : System N) → IsInductive → Step client conf P s t → Holding s → Holding t
    Step-Holding s t ind (starts c p e) h =
        let k = ind.starts c p s.world h.0 in
        rw e (k.world, All-append _ _ _ k.jobs (All-map _ _ s.jobs k.others h.1))
    Step-Holding s t ind (works before after j e fits e') h =
        let (b, mine, a) = All-split (J s.world.net) before after j (rw e at h.1) in
        let k = ind.works j fits s.world h.0 mine in
        rw e' (
          k.world,
          All-append _ _ _ (All-map _ _ before k.others b)
              (All-append _ _ _ k.jobs (All-map _ _ after k.others a)),
        )
    Step-Holding s t ind (overlaps before after j seen seen' e e') h =
        let (b, mine, a) = All-split (J s.world.net) before after j (rw e at h.1) in
        rw e' (h.0, All-append _ _ _ b (ind.overlaps seen seen' j s.world.net mine, a))
    Step-Holding s t ind (crashes before after j e e') h =
        let (b, _, a) = All-split (J s.world.net) before after j (rw e at h.1) in
        rw e' (h.0, All-append _ _ _ b a)
    Step-Holding s t ind (passes now outcomes kicked clock e) h =
        rw e (ind.passes now outcomes kicked clock s.world h.0, h.1)

    pub Reach-Holding :
        (s t : System N) → IsInductive → Reach client conf P s t → Holding s → Holding t
    Reach-Holding s t ind here h = h
    Reach-Holding s t ind (next {t = u} r x) h = Step-Holding u t ind x (Reach-Holding s u ind r h)
