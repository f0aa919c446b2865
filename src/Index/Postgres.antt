-- ===== src/Index/Postgres.antt =====
-- A connection to Postgres: statements, transactions, and what can go wrong with them. Postgres is
-- not part of the source: a statement's effect is what its SQL says, and `outcomes` scripts how the
-- server answers each round trip, in order, with no fault once the script is used up.
use go_ds_s3_walrus.Common.{ℕ, Option, none, some, List, [], ◌∷◌, String}
use go_ds_s3_walrus.Common.Result.{failure, Result, ok, err, Exec}
use go_ds_s3_walrus.Index.{Tables}

-- `answered` is normal; at `refused` nothing happened, and at `lost` the statement was carried out
-- and its answer did not arrive. The client sees an error at both.
pub data Outcome : Type 0 where
  answered refused lost : Outcome

pub record Pg : Type 0 where
  pub tables : Tables
  pub now : ℕ
  pub outcomes : List Outcome

-- The next answer of the script.
unfoldable pub head_outcome : List Outcome → Outcome
head_outcome [] = answered
head_outcome (o ∷ os) = o

unfoldable pub tail_outcomes : List Outcome → List Outcome
tail_outcomes [] = []
tail_outcomes (o ∷ os) = os

-- The state after a round trip that left these tables.
abbrev pub advance : Tables → Pg → Pg
advance t p = record p { tables = t; outcomes = tail_outcomes p.outcomes }

module _ {A : Type 0} where
  abbrev pub settle : String → Pg → Outcome → Option (A × Tables) → Result A × Pg
  settle what p refused r = (err (failure what), advance p.tables p)
  settle what p answered none = (err (failure what), advance p.tables p)
  settle what p answered (some (a, t)) = (ok a, advance t p)
  settle what p lost none = (err (failure what), advance p.tables p)
  settle what p lost (some (a, t)) = (err (failure what), advance t p)

  -- One statement; `none` is an error of the statement itself, such as a broken constraint.
  unfoldable pub statement : String → (ℕ → Tables → Option (A × Tables)) → Exec Pg A
  unfolding head_outcome tail_outcomes
  statement what run p = settle what p (head_outcome p.outcomes) (run p.now p.tables)

  -- A statement that only reads.
  unfoldable pub query : String → (ℕ → Tables → A) → Exec Pg A
  unfolding statement
  query what run = statement what (λ now t. some (run now t, t))

  abbrev pub commit : String → A → Tables → Pg → Outcome → Result A × Pg
  commit what a before p answered = (ok a, advance p.tables p)
  commit what a before p refused = (err (failure what), advance before p)
  commit what a before p lost = (err (failure what), advance p.tables p)

  abbrev pub rollback_or_commit : String → Tables → Result A → Pg → Result A × Pg
  rollback_or_commit what before (ok a) p = commit what a before p (head_outcome p.outcomes)
  rollback_or_commit what before (err e) p = (err e, record p { tables = before })

  abbrev pub begin : Exec Pg A → String → Pg → Outcome → Result A × Pg
  begin body what p answered =
      let (r, q) = body (advance p.tables p) in rollback_or_commit what p.tables r q
  begin body what p _ = (err (failure what), advance p.tables p)

  -- `BeginTx`, the body, and `Commit`; on an error of the body the deferred `Rollback`.
  unfoldable pub transaction : String → Exec Pg A → Exec Pg A
  unfolding head_outcome tail_outcomes
  transaction what body p = begin body what p (head_outcome p.outcomes)
