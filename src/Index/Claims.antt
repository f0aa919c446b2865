-- ===== src/Index/Claims.antt =====
-- The UPDATE of `StageClaim` in index.go, which leases blocks: two flushers that run it.
use go_ds_s3_walrus.Common.{
  ℕ, ◌+◌, ◌≤◌, String, true, false, ◌≡◌, refl, inl, List, [], ◌∷◌, arith, contains, eq_iff, ap, sym,
  ◌&&◌,
}
use go_ds_s3_walrus.Common.Assoc.{Assoc, map_values}
use go_ds_s3_walrus.Common.Result.{ok}
use go_ds_s3_walrus.Index.{StageEntry, StageRow, Tables}
use go_ds_s3_walrus.Index.Postgres.{Pg}
use go_ds_s3_walrus.Index.Distinct.{distinct}
use go_ds_s3_walrus.Index.Atomic.{statement-Commits}
use go_ds_s3_walrus.Index.Stage.{
  stage_keys, leased_row, leased_entries, lease_rows, lease_keys, is_claimable, interval,
}

-- The primary keys of a table.
abbrev pub primary_keys : Assoc StageRow → List String
primary_keys [] = []
primary_keys ((k, row) ∷ t) = k ∷ primary_keys t

module _ (keys : List String) (now : ℕ) where
  pub leased_entries-absent :
      (t : Assoc StageRow) (k : String)
      → contains (primary_keys t) k ≡ false
      → contains (stage_keys (leased_entries keys now t)) k ≡ false
  unfolding leased_entries
  leased_entries-absent [] k h = refl
  leased_entries-absent ((j, row) ∷ t) k h = ground (arith, leased_entries-absent t k)

module _ (keys keys' : List String) (now later lease : ℕ)
    (soon : later ≤ now + interval lease) where
  after_lease : Assoc StageRow → Assoc StageRow
  after_lease t = map_values (leased_row keys lease now) t

  primary_keys-after_lease : (t : Assoc StageRow) → primary_keys (after_lease t) ≡ primary_keys t
  unfolding after_lease map_values
  primary_keys-after_lease [] = refl
  primary_keys-after_lease ((k, row) ∷ t) = ap (λ ks. k ∷ ks) (primary_keys-after_lease t)

  leased_row-leased :
      (j : String) (row : StageRow)
      → (contains keys j && is_claimable now row) ≡ true
      → is_claimable later (leased_row keys lease now j row) ≡ false
  unfolding leased_row is_claimable
  leased_row-leased j row h = rw h (ground arith)

  absent_after :
      (t : Assoc StageRow) (k : String)
      → contains (primary_keys t) k ≡ false
      → contains (stage_keys (leased_entries keys' later (after_lease t))) k ≡ false
  absent_after t k h =
      leased_entries-absent keys' later (after_lease t) k (rw primary_keys-after_lease h)

  leased_once :
      (t : Assoc StageRow) (k : String)
      → distinct (primary_keys t) ≡ true
      → contains (stage_keys (leased_entries keys now t)) k ≡ true
      → contains (stage_keys (leased_entries keys' later (after_lease t))) k ≡ false
  unfolding leased_entries after_lease map_values
  leased_once [] k d h = refl
  leased_once ((j, row) ∷ t) k d h = ground (
    arith,
    d,
    h,
    eq_iff j k,
    leased_entries-absent keys now t k,
    absent_after t k,
    leased_row-leased j row,
    leased_once t k,
  )

-- The clock of the server moves on.
abbrev pub at_time : ℕ → Pg → Pg
at_time now p = record p { now = now }

-- A successful statement hands out what it leased.
pub lease_keys-leased :
    (i : String) (keys : List String) (lease : ℕ) (p : Pg) (es : List StageEntry)
    → (lease_keys (i ∷ keys) lease p).0 ≡ ok es
    → (es ≡ leased_entries (i ∷ keys) p.now p.tables.staging)
      × ((lease_keys (i ∷ keys) lease p).1.tables.staging
          ≡ map_values (leased_row (i ∷ keys) lease p.now) p.tables.staging)
unfolding lease_keys lease_rows
lease_keys-leased i keys lease p es h =
    let e =
      (statement-Commits {D = Unit {0}} "stage claim lease" leased (lease_rows (i ∷ keys) lease)
          (λ now t. inl refl) (λ d now t. refl)).runs.done
        p p.now es refl h in
    (
      sym (ap (λ (x : List StageEntry × Tables). x.0) e),
      sym (ap (λ (x : List StageEntry × Tables). x.1.staging) e),
    )
  where
    leased : ℕ → Tables → List StageEntry × Tables
    leased now t = (
      leased_entries (i ∷ keys) now t.staging,
      record t { staging = map_values (leased_row (i ∷ keys) lease now) t.staging },
    )

-- Two consecutive leasing statements, of the same or of two flushers, the second at any time up to
-- the end of the lease that the first one recorded: no block is handed to both, whichever rows they selected before.
-- (The keys of the staging table are distinct.)
pub lease_keys_disjoint :
    (keys keys' : List String) (lease lease' later : ℕ) (p : Pg) (es es' : List StageEntry)
    (k : String)
    → distinct (primary_keys p.tables.staging) ≡ true
    → later ≤ p.now + interval lease
    → (lease_keys keys lease p).0 ≡ ok es
    → (lease_keys keys' lease' (at_time later (lease_keys keys lease p).1)).0 ≡ ok es'
    → contains (stage_keys es) k ≡ true
    → contains (stage_keys es') k ≡ false
unfolding lease_keys map_values after_lease
lease_keys_disjoint [] keys' lease lease' later p es es' k d soon h h' c =
    let none_leased : es ≡ [] = cc h in absurd (cc (rw none_leased at c))
lease_keys_disjoint (i ∷ keys) [] lease lease' later p es es' k d soon h h' c =
    let none_leased : es' ≡ [] = cc h' in rw none_leased
lease_keys_disjoint (i ∷ keys) (i' ∷ keys') lease lease' later p es es' k d soon h h' c =
    let (handed, leased) = lease_keys-leased i keys lease p es h in
    let (handed', _) =
      lease_keys-leased i' keys' lease' (at_time later (lease_keys (i ∷ keys) lease p).1) es' h' in
    rw (handed', leased)
      (leased_once (i ∷ keys) (i' ∷ keys') p.now later lease soon p.tables.staging k d
        (rw handed at c))
