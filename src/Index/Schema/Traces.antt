-- ===== src/Index/Schema/Traces.antt =====
-- Rows of statements that change the schema of index.go, and what is there after them.
use go_ds_s3_walrus.Common.{
  String, Bool, true, false, ◌&&◌, ◌||◌, ◌≡◌, refl, some, List, [], ◌∷◌, arith, eq_iff, str_eq, inl,
  inr, Bool-cases,
}
use go_ds_s3_walrus.Common.Result.{ok, Result-cases}
use go_ds_s3_walrus.Index.Postgres.{Outcome, answered, refused, lost, head_outcome, tail_outcomes}
use go_ds_s3_walrus.Index.Schema.{
  Catalogue, Ddl, create_table, add_column, create_index, run_ddl, Server, settled, exec_ddl,
  exec_all,
}
use go_ds_s3_walrus.Index.Schema.Columns.{
  has_column, is_table, Needs, Gives, Usable, creates_with, IsRun, Needs-IsRun,
}

-- Every statement of a list has what it needs when its turn comes.
abbrev pub Fits : List Ddl → Catalogue → Type 0
Fits [] c = Unit
Fits (d ∷ ds) c = Needs d c × ((c' : Catalogue) → IsRun d c c' → Fits ds c')

-- The statements, one after the other.
pub data Trace : List Ddl → Catalogue → Catalogue → Type 0 where
  done : {c : Catalogue} → Trace [] c c
  next :
      {d : Ddl} {ds : List Ddl} {c c' c'' : Catalogue}
      → IsRun d c c'
      → Trace ds c' c''
      → Trace (d ∷ ds) c c''

pub Fits-Trace : (ds : List Ddl) (c : Catalogue) → Fits ds c → (c' : Catalogue) × Trace ds c c'
Fits-Trace [] c h = (c, done)
Fits-Trace (d ∷ ds) c h =
    let (c', run) = Needs-IsRun d c h.0 in
    let (c'', trace) = Fits-Trace ds c' (h.1 c' run) in (c'', next run trace)

exec_ddl-answer :
    (d : Ddl) (s : Server) (c : Catalogue)
    → run_ddl d s.catalogue ≡ some c
    → ((exec_ddl d s).0 ≡ ok tt → (exec_ddl d s).1.catalogue ≡ c)
      × (s.outcomes ≡ [] → ((exec_ddl d s).0 ≡ ok tt) × ((exec_ddl d s).1.outcomes ≡ []))
unfolding exec_ddl head_outcome tail_outcomes
exec_ddl-answer d s c ran = rw ran (by_outcome (head_outcome s.outcomes) refl)
  where
    by_outcome :
        (o : Outcome)
        → head_outcome s.outcomes ≡ o
        → ((settled s o (some c)).0 ≡ ok tt → (settled s o (some c)).1.catalogue ≡ c)
          × (s.outcomes ≡ []
              → ((settled s o (some c)).0 ≡ ok tt) × ((settled s o (some c)).1.outcomes ≡ []))
    by_outcome answered h = (λ good. refl, λ calm. (refl, rw calm refl))
    by_outcome refused h = (λ good. absurd (cc good), λ calm. absurd (cc (rw calm at h)))
    by_outcome lost h = (λ good. absurd (cc good), λ calm. absurd (cc (rw calm at h)))

-- Without faults the list runs to its end; and whatever the faults are, a success has run it.
pub Trace-exec_all :
    {ds : List Ddl} {c c' : Catalogue} (s : Server)
    → Trace ds c c'
    → s.catalogue ≡ c
    → ((exec_all ds s).0 ≡ ok tt → (exec_all ds s).1.catalogue ≡ c')
      × (s.outcomes ≡ [] → (exec_all ds s).0 ≡ ok tt)
unfolding exec_all
Trace-exec_all s done same = (λ h. same, λ h. refl)
Trace-exec_all s (next {d = d} {c' = c₁} run trace) same =
    let (good, calm) = exec_ddl-answer d s c₁ (rw same run.run) in
    elim (Result-cases (exec_ddl d s).0) [
      | inr (x, bad) ↦
          (λ h. absurd (cc (rw bad at h)), λ none_ahead. absurd (cc ((calm none_ahead).0, bad)))
      | inl (u, fine) ↦
          let rest = Trace-exec_all (exec_ddl d s).1 trace (good fine) in
          rw fine (rest.0, λ none_ahead. rest.1 (calm none_ahead).1)
    ]

-- A column that is there, or that a statement adds, is there in the end.
abbrev pub adds : String → String → Ddl → Bool
adds t n (add_column t' col) = str_eq t' t && str_eq col.name n
adds t n (create_table t' cols) = false
adds t n (create_index name t' col) = false

abbrev pub creates : String → Ddl → Bool
creates t (create_table t' cols) = str_eq t' t
creates t (add_column t' col) = false
creates t (create_index name t' col) = false

abbrev pub some_of : (Ddl → Bool) → List Ddl → Bool
some_of f [] = false
some_of f (d ∷ ds) = f d || some_of f ds

adds-has :
    (t n : String) (d : Ddl) (c : Catalogue)
    → adds t n d ≡ true
    → Gives d c
    → has_column t n c ≡ true
adds-has t n (add_column t' col) c h g =
    let same_table : t' ≡ t = (eq_iff t' t).0 (ground (arith, h)) in
    let same_column : col.name ≡ n = (eq_iff col.name n).0 (ground (arith, h)) in
    rw (← same_table, ← same_column) g
adds-has t n (create_table t' cols) c h g = absurd (cc h)
adds-has t n (create_index name t' col) c h g = absurd (cc h)

creates-is_table :
    (t : String) (d : Ddl) (c : Catalogue) → creates t d ≡ true → Gives d c → is_table t c ≡ true
creates-is_table t (create_table t' cols) c h g = rw (← (eq_iff t' t).0 h) g
creates-is_table t (add_column t' col) c h g = absurd (cc h)
creates-is_table t (create_index name t' col) c h g = absurd (cc h)

pub there :
    (t n : String) (c : Catalogue) → Usable t n c → is_table t c ≡ true → has_column t n c ≡ true
there t n c (inl missing) h = absurd (cc (missing, h))
there t n c (inr has) h = has

Trace-keeps :
    {ds : List Ddl} {c c' : Catalogue} (t n : String)
    → Trace ds c c'
    → has_column t n c ≡ true
    → has_column t n c' ≡ true
Trace-keeps t n done h = h
Trace-keeps t n (next run trace) h = Trace-keeps t n trace (run.keeps.columns t n h)

pub Trace-added :
    {ds : List Ddl} {c c' : Catalogue} (t n : String)
    → Trace ds c c'
    → some_of (adds t n) ds ≡ true
    → has_column t n c' ≡ true
Trace-added t n done h = absurd (cc h)
Trace-added t n (next {d = d} {c' = c₁} run trace) h = elim (Bool-cases (adds t n d)) [
  | inl this ↦ Trace-keeps t n trace (adds-has t n d c₁ this run.gives)
  | inr later ↦ Trace-added t n trace (rw later at h)
]

-- A column that its table is created with is there in the end, unless an earlier table lacked it.
abbrev pub all_of : (Ddl → Bool) → List Ddl → Bool
all_of f [] = true
all_of f (d ∷ ds) = f d && all_of f ds

pub Trace-created :
    {ds : List Ddl} {c c' : Catalogue} (t n : String)
    → Trace ds c c'
    → all_of (creates_with t n) ds ≡ true
    → some_of (creates t) ds ≡ true
    → Usable t n c
    → has_column t n c' ≡ true
Trace-created t n done h k u = absurd (cc k)
Trace-created t n (next {d = d} {c' = c₁} run trace) h k u =
    let u₁ = run.usable t n (ground (arith, h)) u in
    elim (Bool-cases (creates t d)) [
      | inl this ↦ Trace-keeps t n trace (there t n c₁ u₁ (creates-is_table t d c₁ this run.gives))
      | inr later ↦ Trace-created t n trace (ground (arith, h)) (rw later at k) u₁
    ]

-- A failure half-way leaves a schema as usable as it was.
exec_ddl-Usable :
    (d : Ddl) (s : Server) (c : Catalogue) (t n : String)
    → IsRun d s.catalogue c
    → creates_with t n d ≡ true
    → Usable t n s.catalogue
    → Usable t n (exec_ddl d s).1.catalogue
unfolding exec_ddl head_outcome tail_outcomes
exec_ddl-Usable d s c t n run h u = rw run.run (by_outcome (head_outcome s.outcomes))
  where
    by_outcome : (o : Outcome) → Usable t n (settled s o (some c)).1.catalogue
    by_outcome answered = run.usable t n h u
    by_outcome refused = u
    by_outcome lost = run.usable t n h u

pub Trace-Usable :
    {ds : List Ddl} {c c' : Catalogue} (s : Server) (t n : String)
    → Trace ds c c'
    → s.catalogue ≡ c
    → all_of (creates_with t n) ds ≡ true
    → Usable t n c
    → Usable t n (exec_all ds s).1.catalogue
unfolding exec_all
Trace-Usable s t n done same h u = rw same u
Trace-Usable s t n (next {d = d} {c = c} {c' = c₁} run trace) same h u =
    let run' : IsRun d s.catalogue c₁ = rw same run in
    let u₁ = exec_ddl-Usable d s c₁ t n run' (ground (arith, h)) (rw same u) in
    elim (Result-cases (exec_ddl d s).0) [
      | inr (x, bad) ↦ rw bad u₁
      | inl (v, fine) ↦
          let next_c : (exec_ddl d s).1.catalogue ≡ c₁ = (exec_ddl-answer d s c₁ run'.run).0 fine in
          rw fine
            (Trace-Usable (exec_ddl d s).1 t n trace next_c (ground (arith, h)) (rw next_c at u₁))
    ]
