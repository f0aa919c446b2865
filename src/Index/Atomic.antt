-- ===== src/Index/Atomic.antt =====
-- What a step on the database does when it succeeds, and that a transaction is all or nothing.
use mathlib.Core.Path.{subst, fun_ext}
use go_ds_s3_walrus.Common.{
  ℕ, String, ◌≡◌, refl, ap, sym, ◌∙◌, Option, none, some, [], arith, ◌⊎◌, inl, inr,
}
use go_ds_s3_walrus.Common.Result.{Result-cases, >>=-eq-ok, ok, Exec, ◌>>=◌}
use go_ds_s3_walrus.Index.{Tables}
use go_ds_s3_walrus.Index.Postgres.{Pg, advance, statement, transaction}

-- `m` maps the tables as `f` does whenever it succeeds, and leaves the clock; where `D` holds it
-- succeeds if the server makes no fault.
pub record Runs {A : Type 0} (D : Type 0) (f : ℕ → Tables → A × Tables) (m : Exec Pg A)
    : Type 0 where
  pub done :
      (p : Pg) (now : ℕ) (a : A)
      → p.now ≡ now
      → (m p).0 ≡ ok a
      → f now p.tables ≡ (a, (m p).1.tables)
  pub clock : (p : Pg) → (m p).1.now ≡ p.now
  pub total :
      D
      → (p : Pg) (now : ℕ) (t : Tables) → p.now ≡ now
      → p.tables ≡ t
      → p.outcomes ≡ []
      → ((m p).0 ≡ ok (f now t).0) × ((m p).1.outcomes ≡ [])

-- Besides, an error leaves the tables as they were or, if only the answer was lost, as `f` maps them.
pub record Commits {A : Type 0} (D : Type 0) (f : ℕ → Tables → A × Tables) (m : Exec Pg A)
    : Type 0 where
  pub runs : Runs D f m
  pub atomic : (p : Pg) → ((m p).1.tables ≡ p.tables) ⊎ ((m p).1.tables ≡ (f p.now p.tables).1)

module _ {A D : Type 0} (what : String) where
  -- A statement that the database carries out or refuses, and does not refuse where `D` holds.
  pub statement-Commits :
      (f : ℕ → Tables → A × Tables) (run : ℕ → Tables → Option (A × Tables))
      → ((now : ℕ) (t : Tables) → (run now t ≡ some (f now t)) ⊎ (run now t ≡ none))
      → (D → (now : ℕ) (t : Tables) → run now t ≡ some (f now t))
      → Commits D f (statement what run)
  unfolding statement
  statement-Commits f run e always = record {
    runs = record {
      done = λ p now a en h. ground (arith, e p.now p.tables);
      clock = λ p. ground (arith, e p.now p.tables);
      total = λ d p now t en et h. ground (arith, always d p.now p.tables);
    };
    atomic = λ p. ground (arith, e p.now p.tables);
  }

pub Runs-ext :
    {A D : Type 0} (f g : ℕ → Tables → A × Tables) (m : Exec Pg A)
    → ((now : ℕ) (t : Tables) → f now t ≡ g now t)
    → Runs D f m
    → Runs D g m
Runs-ext {D = D} f g m e r = subst (λ h. Runs D h m) (fun_ext λ now. fun_ext λ t. e now t) r

module _ {A B D : Type 0} where
  pub Runs-bind :
      (f : ℕ → Tables → A × Tables) (g : A → ℕ → Tables → B × Tables) (m : Exec Pg A)
      (k : A → Exec Pg B)
      → Runs D f m
      → ((a : A) → Runs D (g a) (k a))
      → Runs D (λ now t. g (f now t).0 now (f now t).1) (m >>= k)
  Runs-bind f g m k fm gk = record {
    done = λ p now b en h.
        let (a, ma, e) = >>=-eq-ok m k p h in
        let q = (m p).1 in
        let first : f now p.tables ≡ (a, q.tables) = fm.done p now a en ma in
        let second : g a now q.tables ≡ (b, (k a q).1.tables) =
          (gk a).done q now b (fm.clock p ∙ en) (rw e at h) in
        rw (first, e) second;
    clock = λ p. elim (Result-cases (m p).0) [
      | inl (a, e) ↦ rw e ((gk a).clock (m p).1 ∙ fm.clock p)
      | inr (x, e) ↦ rw e (fm.clock p)
    ];
    total = λ d p now t en et h.
        let first = fm.total d p now t en et h in
        let a = (f now t).0 in
        let q = (m p).1 in
        let left : f now p.tables ≡ (a, q.tables) = fm.done p now a en first.0 in
        let tables : q.tables ≡ (f now t).1 =
          sym (ap (λ (x : A × Tables). x.1) left) ∙ ap (λ x. (f now x).1) et in
        let second : ((k a q).0 ≡ ok (g a now (f now t).1).0) × ((k a q).1.outcomes ≡ []) =
          (gk a).total d q now (f now t).1 (fm.clock p ∙ en) tables first.1 in
        rw first.0 second;
  }

-- A transaction is all or nothing, whatever the server answers.
pub transaction-Commits :
    {A D : Type 0} (what : String) (f : ℕ → Tables → A × Tables) (m : Exec Pg A)
    → Runs D f m
    → Commits D f (transaction what m)
unfolding transaction
transaction-Commits what f m r = record {
  runs = record {
    done = λ p now a en h. ground (arith, r.done (advance p.tables p) now a);
    clock = λ p. ground (arith, r.clock (advance p.tables p));
    total = λ d p now t en et h. ground (arith, r.total d (advance p.tables p) now t en et);
  };
  atomic = λ p. elim (Result-cases (m (advance p.tables p)).0) [
    | inl (a, e) ↦ ground (arith, r.done (advance p.tables p) p.now a refl e)
    | inr (x, e) ↦ inl (ground arith)
  ];
}

-- A weaker condition serves where a stronger one does.
pub Runs-weaken :
    {A D E : Type 0} (f : ℕ → Tables → A × Tables) (m : Exec Pg A)
    → (E → D)
    → Runs D f m
    → Runs E f m
Runs-weaken f m w r = record { done = r.done; clock = r.clock; total = λ e. r.total (w e) }
