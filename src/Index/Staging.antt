-- ===== src/Index/Staging.antt =====
-- `StagePutMany` of index.go: what it writes, chunk by chunk, and what is staged for a key after it.
use mathlib.Core.Option
use go_ds_s3_walrus.Common.{
  ℕ, zero, suc, String, true, ◌≡◌, refl, ap, sym, ◌∙◌, Option, some, List, [], ◌∷◌, length, take,
  drop, str_eq, arith, ◌⊎◌, inl, if◌then◌else◌,
}
use go_ds_s3_walrus.Common.Assoc.{Assoc, lookup, insert, lookup-insert}
use go_ds_s3_walrus.Common.Result.{ok}
use go_ds_s3_walrus.Index.{Bytes, StageEntry, StageRow, Tables}
use go_ds_s3_walrus.Index.Postgres.{Pg}
use go_ds_s3_walrus.Index.Distinct.{distinct}
use go_ds_s3_walrus.Index.Chunks.{in_chunks-Runs}
use go_ds_s3_walrus.Index.Stage.{
  staged_row, stage_all, stage_keys, insert_staged, stage_put_part, stage_put_loop, stage_put_many,
}
use go_ds_s3_walrus.Index.Atomic.{Runs, Commits, statement-Commits, transaction-Commits}

-- The bytes that are staged for a key.
abbrev pub staged_bytes : Tables → String → Option Bytes
staged_bytes t key = Option.map (λ (row : StageRow). row.value) (lookup key t.staging)

abbrev pub staged_all : List StageEntry → ℕ → Tables → Unit {0} × Tables
staged_all es now t = (tt, record t { staging = stage_all now es t.staging })

stage_all-take-drop :
    (n now : ℕ) (es : List StageEntry) (t : Assoc StageRow)
    → stage_all now (drop n es) (stage_all now (take n es) t) ≡ stage_all now es t
unfolding stage_all
stage_all-take-drop zero now es t = refl
stage_all-take-drop (suc n) now [] t = refl
stage_all-take-drop (suc n) now (e ∷ es) t =
    stage_all-take-drop n now es (insert e.key (staged_row now e) t)

insert_staged-Runs :
    (es : List StageEntry)
    → Runs (distinct (stage_keys es) ≡ true) (staged_all es) (stage_put_part es)
unfolding insert_staged
insert_staged-Runs es =
    (statement-Commits "stage put-many" (staged_all es) (insert_staged es) (λ now t. ground arith)
      (λ d now t. rw d)).runs

-- `StagePutMany` stages all blocks, in however many chunks, or none; with distinct keys and a server
-- without faults it succeeds.
pub stage_put_many-Commits :
    (e : StageEntry) (es : List StageEntry)
    → Commits
        (distinct (stage_keys (e ∷ es)) ≡ true)
        (staged_all (e ∷ es))
        (stage_put_many (e ∷ es))
unfolding stage_put_many stage_put_loop stage_all
stage_put_many-Commits e es = transaction-Commits "stage put-many" (staged_all (e ∷ es)) _ (
    in_chunks-Runs (λ (x : StageEntry). x.key) staged_all (λ now t. refl)
      (λ n xs now t.
        ap (λ (x : Assoc StageRow). (tt, record t { staging = x }))
          (stage_all-take-drop n now xs t.staging))
      stage_put_part insert_staged-Runs 199 (length (e ∷ es)) (e ∷ es) (omega arith))

pub stage_put_many-atomic :
    (es : List StageEntry) (p : Pg)
    → ((stage_put_many es p).1.tables ≡ p.tables)
      ⊎ ((stage_put_many es p).1.tables ≡ (staged_all es p.now p.tables).1)
unfolding stage_put_many
stage_put_many-atomic [] p = inl refl
stage_put_many-atomic (e ∷ es) p = unfold stage_put_loop in (stage_put_many-Commits e es).atomic p

-- The last bytes of a list for a key.
unfoldable pub find_entry : String → List StageEntry → Option Bytes → Option Bytes
find_entry j [] other = other
find_entry j (e ∷ es) other = find_entry j es (if str_eq e.key j then some e.value else other)

pub staged_bytes-staged_all :
    (es : List StageEntry) (now : ℕ) (t : Tables) (j : String)
    → staged_bytes (staged_all es now t).1 j ≡ find_entry j es (staged_bytes t j)
unfolding stage_all find_entry staged_row
staged_bytes-staged_all [] now t j = refl
staged_bytes-staged_all (e ∷ es) now t j =
    staged_bytes-staged_all es now
      (record t { staging = insert e.key (staged_row now e) t.staging }) j
    ∙ ap (find_entry j es) here
  where
    here :
        staged_bytes (record t { staging = insert e.key (staged_row now e) t.staging }) j
        ≡ (if str_eq e.key j then some e.value else staged_bytes t j)
    here = rw lookup-insert (ground arith)

pub stage_put_many-done :
    (es : List StageEntry) (p : Pg)
    → (stage_put_many es p).0 ≡ ok tt
    → (stage_put_many es p).1.tables ≡ (staged_all es p.now p.tables).1
unfolding stage_put_many stage_all
stage_put_many-done [] p h = refl
stage_put_many-done (e ∷ es) p h = sym (
    ap (λ (x : Unit {0} × Tables). x.1)
      (unfold stage_put_loop in (stage_put_many-Commits e es).runs.done p p.now tt refl h))
