-- ===== src/Datastore/Batched.antt =====
-- What `Commit` of walrus.go makes of its batch.
use go_ds_s3_walrus.Common.{
  String, Bool, true, false, ◌≡◌, refl, ◌∙◌, Option, some, none, List, [], ◌∷◌, contains, str_eq,
  eq_iff, arith, if◌then◌else◌, inl, inr, Bool-cases,
}
use go_ds_s3_walrus.Common.Assoc.{lookup}
use go_ds_s3_walrus.Common.Result.{Exec, Result, ok, err, not_found, Result-cases}
use go_ds_s3_walrus.Index.{Bytes, StageEntry}
use go_ds_s3_walrus.Index.Distinct.{distinct}
use go_ds_s3_walrus.Index.Staging.{find_entry}
use go_ds_s3_walrus.Datastore.{Config, World}
use go_ds_s3_walrus.Datastore.Store.{
  BatchOp, put_op, delete_op, Batch, sort_ops, is_oversize, attempt, attempt_all, commit_result,
  kick_flusher,
}

abbrev pub batch_keys : Batch → List String
batch_keys [] = []
batch_keys ((k, op) ∷ ops) = k ∷ batch_keys ops

-- No block of the batch is oversize.
abbrev pub IsSmall : Config → Batch → Type 0
IsSmall conf [] = Unit
IsSmall conf ((k, put_op v) ∷ ops) = (is_oversize conf v ≡ false) × IsSmall conf ops
IsSmall conf ((k, delete_op) ∷ ops) = IsSmall conf ops

abbrev pub put_or : Option BatchOp → Option Bytes → Option Bytes
put_or (some (put_op v)) before = some v
put_or (some delete_op) before = before
put_or none before = before

abbrev pub is_delete : Option BatchOp → Bool
is_delete (some delete_op) = true
is_delete (some (put_op v)) = false
is_delete none = false

-- What a batch makes of a read.
abbrev pub read_after : Option BatchOp → Result Bytes → Result Bytes
read_after (some (put_op v)) before = ok v
read_after (some delete_op) before = err not_found
read_after none before = before

module _ (conf : Config) where
  pub sort_ops-oversize : (ops : Batch) → IsSmall conf ops → (sort_ops conf ops).oversize ≡ []
  unfolding sort_ops
  sort_ops-oversize [] h = refl
  sort_ops-oversize ((k, put_op v) ∷ ops) h = rw h.0 (sort_ops-oversize ops h.1)
  sort_ops-oversize ((k, delete_op) ∷ ops) h = sort_ops-oversize ops h

  pub lookup-absent :
      (ops : Batch) (key : String) → contains (batch_keys ops) key ≡ false → lookup key ops ≡ none
  unfolding lookup
  lookup-absent [] key h = refl
  lookup-absent ((k, op) ∷ ops) key h = ground (arith, h, lookup-absent ops key)

  pub sort_ops-stage :
      (ops : Batch) (key : String) (o : Option Bytes)
      → IsSmall conf ops
      → distinct (batch_keys ops) ≡ true
      → find_entry key (sort_ops conf ops).stage o ≡ put_or (lookup key ops) o
  unfolding sort_ops lookup find_entry
  sort_ops-stage [] key o h d = refl
  sort_ops-stage ((k, put_op v) ∷ ops) key o h d = rw h.0 (
      sort_ops-stage ops key (if str_eq k key then some v else o) h.1 (ground (arith, d))
      ∙ first (lookup-absent ops key))
    where
      first :
          (contains (batch_keys ops) key ≡ false → lookup key ops ≡ none)
          → put_or (lookup key ops) (if str_eq k key then some v else o)
            ≡ put_or (if str_eq k key then some (put_op v) else lookup key ops) o
      first absent = elim (Bool-cases (str_eq k key)) [
        | inl same ↦
            let gone : lookup key ops ≡ none = absent (ground (arith, d, same, eq_iff k key)) in
            rw (same, gone) refl
        | inr differs ↦ rw differs refl
      ]
  sort_ops-stage ((k, delete_op) ∷ ops) key o h d = elim (Bool-cases (str_eq k key)) [
    | inl same ↦
        let absent : lookup key ops ≡ none =
          lookup-absent ops key (ground (arith, d, same, eq_iff k key)) in
        rw same (sort_ops-stage ops key o h (ground (arith, d)) ∙ rw absent refl)
    | inr differs ↦ rw differs (sort_ops-stage ops key o h (ground (arith, d)))
  ]

  pub sort_ops-deletes :
      (ops : Batch) (key : String)
      → IsSmall conf ops
      → distinct (batch_keys ops) ≡ true
      → contains (sort_ops conf ops).deletes key ≡ is_delete (lookup key ops)
  unfolding sort_ops lookup
  sort_ops-deletes [] key h d = refl
  sort_ops-deletes ((k, put_op v) ∷ ops) key h d =
      let rest = sort_ops-deletes ops key h.1 (ground (arith, d)) in
      elim (Bool-cases (str_eq k key)) [
        | inl same ↦
            let absent : lookup key ops ≡ none =
              lookup-absent ops key (ground (arith, d, same, eq_iff k key)) in
            rw (h.0, same) (rest ∙ rw absent refl)
        | inr differs ↦ rw (h.0, differs) rest
      ]
  sort_ops-deletes ((k, delete_op) ∷ ops) key h d =
      let rest = sort_ops-deletes ops key h (ground (arith, d)) in
      elim (Bool-cases (str_eq k key)) [ inl same ↦ rw same refl | inr differs ↦ rw differs rest ]

module _ {N : Type 0} where
  -- Two steps whose errors are collected: no error is two successes.
  pub both-ok :
      (m n : Exec (World N) (Unit {0})) (es : List StageEntry) (w : World N)
      → (commit_result es (attempt_all (m ∷ n ∷ []) w).0 (attempt_all (m ∷ n ∷ []) w).1).0 ≡ ok tt
      → ((m w).0 ≡ ok tt)
        × ((n (m w).1).0 ≡ ok tt)
        × ((commit_result es (attempt_all (m ∷ n ∷ []) w).0 (attempt_all (m ∷ n ∷ []) w).1).1.pg
            ≡ (n (m w).1).1.pg)
        × ((commit_result es (attempt_all (m ∷ n ∷ []) w).0 (attempt_all (m ∷ n ∷ []) w).1).1.net
            ≡ (n (m w).1).1.net)
  unfolding attempt_all attempt kick_flusher
  both-ok m n es w h = elim (Result-cases (m w).0) [
    | inr (x, bad) ↦ absurd (cc (rw bad at h))
    | inl (u, good) ↦ elim (Result-cases (n (m w).1).0) [
      | inr (x, bad) ↦ absurd (cc (rw (good, bad) at h))
      | inl (v, done) ↦
          rw (good, done) (refl, refl, (kept es (n (m w).1).1).0, (kept es (n (m w).1).1).1)
    ]
  ]
    where
      kept :
          (xs : List StageEntry) (v : World N)
          → ((commit_result xs [] v).1.pg ≡ v.pg) × ((commit_result xs [] v).1.net ≡ v.net)
      kept [] v = (refl, refl)
      kept (x ∷ xs) v = (refl, refl)
