-- ===== src/Index/Primary.antt =====
-- The primary keys of the staging table of index.go, along claims, promotions and releases.
use go_ds_s3_walrus.Common.{
  ℕ, ◌≤◌, ◌<◌, String, Bool, true, ◌≡◌, refl, ap, ◌∙◌, List, [], ◌∷◌, length, contains, eq_iff,
  arith, inl, inr, ◌==◌, Bool-cases, if_both, ◌||◌,
}
use go_ds_s3_walrus.Common.Int.{ℤ, pos, leb_ℤ}
use go_ds_s3_walrus.Common.Assoc.{Assoc, map_values, remove_all}
use go_ds_s3_walrus.Common.Result.{ok, Result-cases, Exec}
use go_ds_s3_walrus.Index.{KeyRecord, StageEntry, StageRow, Tables}
use go_ds_s3_walrus.Index.Postgres.{Pg, query}
use go_ds_s3_walrus.Index.Write.{keys_of, promote_staged}
use go_ds_s3_walrus.Index.Stage.{
  stage_keys, stage_release, released_row, lease_keys, lease_rows, leased_row, leased_entries,
  stage_claim, stage_stats, candidates,
}
use go_ds_s3_walrus.Index.Claims.{primary_keys, leased_entries-absent, lease_keys-leased}
use go_ds_s3_walrus.Index.Atomic.{statement-Commits}
use go_ds_s3_walrus.Index.Promote.{promote_staged-Commits}

pub primary_keys-map_values :
    (f : String → StageRow → StageRow) (t : Assoc StageRow)
    → primary_keys (map_values f t) ≡ primary_keys t
unfolding map_values
primary_keys-map_values f [] = refl
primary_keys-map_values f ((k, row) ∷ t) = ap (λ ks. k ∷ ks) (primary_keys-map_values f t)

pub length-remove_all :
    (keys : List String) (t : Assoc StageRow)
    → length (primary_keys (remove_all keys t)) ≤ length (primary_keys t)
unfolding remove_all
length-remove_all keys [] = omega arith
length-remove_all keys ((k, row) ∷ t) = elim (Bool-cases (contains keys k)) [
  | inl gone ↦ rw gone (omega (arith, length-remove_all keys t))
  | inr stays ↦ rw stays (omega (arith, length-remove_all keys t))
]

-- A key that is there and goes.
pub length-remove_all_lt :
    (keys : List String) (t : Assoc StageRow) (k : String)
    → contains keys k ≡ true
    → contains (primary_keys t) k ≡ true
    → length (primary_keys (remove_all keys t)) < length (primary_keys t)
unfolding remove_all
length-remove_all_lt keys [] k h there = absurd (cc there)
length-remove_all_lt keys ((j, row) ∷ t) k h there = elim (Bool-cases (contains keys j)) [
  | inl gone ↦ rw gone (omega (arith, length-remove_all keys t))
  | inr stays ↦
      let rest : contains (primary_keys t) k ≡ true = ground (arith, eq_iff j k, stays, h, there) in
      rw stays (omega (arith, length-remove_all_lt keys t k h rest))
]

-- The primary keys at a connection.
abbrev pub staged_keys : Pg → List String
staged_keys p = primary_keys p.tables.staging

query-tables :
    {A : Type 0} (what : String) (run : ℕ → Tables → A) (p : Pg)
    → (query what run p).1.tables ≡ p.tables
unfolding query
query-tables what run p =
    elim ((statement-Commits {D = Unit {0}} what (λ now t. (run now t, t)) _ (λ now t. inl refl)
        (λ d now t. refl)).atomic
      p) [ inl same ↦ same | inr same ↦ same ]

leased_staged :
    (keys : List String) (now : ℕ) (t : Assoc StageRow) (k : String)
    → contains (stage_keys (leased_entries keys now t)) k ≡ true
    → contains (primary_keys t) k ≡ true
leased_staged keys now t k h = ground (arith, h, leased_entries-absent keys now t k)

-- A claim leaves the keys, and hands out some of them.
abbrev pub IsClaim : Exec Pg (List StageEntry) → Pg → Type 0
IsClaim m p =
    (staged_keys (m p).1 ≡ staged_keys p)
    × ((es : List StageEntry) (k : String)
        → (m p).0 ≡ ok es
        → contains (stage_keys es) k ≡ true
        → contains (staged_keys p) k ≡ true)

no_entries :
    (p : Pg) (es : List StageEntry) (k : String)
    → es ≡ []
    → contains (stage_keys es) k ≡ true
    → contains (staged_keys p) k ≡ true
no_entries p es k shape c = absurd (cc (rw shape at c))

lease_keys-IsClaim : (keys : List String) (lease : ℕ) (p : Pg) → IsClaim (lease_keys keys lease) p
lease_keys-IsClaim [] lease p = unfold lease_keys in (refl, λ es k h. no_entries p es k (cc h))
lease_keys-IsClaim (k ∷ keys) lease p = (
  elim ((statement-Commits {D = Unit {0}} "stage claim lease" leased (lease_rows (k ∷ keys) lease)
        (λ now t. inl (unfold lease_rows in refl)) (λ d now t. unfold lease_rows in refl)).atomic
      p) [
        | inl same ↦ unfold lease_keys in ap (λ (t : Tables). primary_keys t.staging) same
        | inr changed ↦
            unfold lease_keys in
            ap (λ (t : Tables). primary_keys t.staging) changed
            ∙ primary_keys-map_values (leased_row (k ∷ keys) lease p.now) p.tables.staging
      ],
  λ es j h c.
      leased_staged (k ∷ keys) p.now p.tables.staging j
        (rw (lease_keys-leased k keys lease p es h).0 at c),
)
  where
    leased : ℕ → Tables → List StageEntry × Tables
    leased now t = (
      leased_entries (k ∷ keys) now t.staging,
      record t { staging = map_values (leased_row (k ∷ keys) lease now) t.staging },
    )

pub stage_claim-IsClaim :
    (key_leb : String → String → Bool) (max_count : ℕ) (max_bytes : ℤ) (lease : ℕ) (p : Pg)
    → IsClaim (stage_claim key_leb max_count max_bytes lease) p
unfolding stage_claim
stage_claim-IsClaim key_leb max_count max_bytes lease p =
    if_both (λ (m : Exec Pg (List StageEntry)). IsClaim m p)
      (max_count == 0 || leb_ℤ max_bytes (pos 0)) (refl, λ es k h. no_entries p es k (cc h))
      (elim (Result-cases
        (query "stage claim select" (candidates key_leb max_count max_bytes) p).0) [
          | inr (x, bad) ↦
              rw bad
                (ap (λ (t : Tables). primary_keys t.staging) selected, λ es k h c. absurd (cc h))
          | inl (keys, good) ↦
              let (kept, some_of) =
                lease_keys-IsClaim keys lease
                  (query "stage claim select" (candidates key_leb max_count max_bytes) p).1 in
              rw good (
                kept ∙ ap (λ (t : Tables). primary_keys t.staging) selected,
                λ es k h c.
                    rw (← ap (λ (t : Tables). primary_keys t.staging) selected) (some_of es k h c),
              )
        ])
  where
    selected :
        (query "stage claim select" (candidates key_leb max_count max_bytes) p).1.tables ≡ p.tables
    selected = query-tables "stage claim select" (candidates key_leb max_count max_bytes) p

pub stage_stats-staged_keys : (p : Pg) → staged_keys (stage_stats p).1 ≡ staged_keys p
unfolding stage_stats
stage_stats-staged_keys p =
    ap (λ (t : Tables). primary_keys t.staging) (query-tables "stage stats" _ p)

pub stage_release-staged_keys :
    (keys : List String) (p : Pg) → staged_keys (stage_release keys p).1 ≡ staged_keys p
unfolding stage_release
stage_release-staged_keys [] p = refl
stage_release-staged_keys (k ∷ keys) p =
    elim ((statement-Commits {D = Unit {0}} "stage release" released _ (λ now t. inl refl)
        (λ d now t. refl)).atomic
      p) [
        | inl same ↦ ap (λ (t : Tables). primary_keys t.staging) same
        | inr changed ↦
            ap (λ (t : Tables). primary_keys t.staging) changed
            ∙ primary_keys-map_values (released_row (k ∷ keys)) p.tables.staging
      ]
  where
    released : ℕ → Tables → Unit {0} × Tables
    released now t = (tt, record t { staging = map_values (released_row (k ∷ keys)) t.staging })

-- A promotion does not add a staged key; a successful one of a staged key removes it.
pub promote_staged-shrinks :
    (recs : List KeyRecord) (p : Pg)
    → (length (staged_keys (promote_staged recs p).1) ≤ length (staged_keys p))
      × ((k : String)
          → (promote_staged recs p).0 ≡ ok tt
          → contains (keys_of recs) k ≡ true
          → contains (staged_keys p) k ≡ true
          → length (staged_keys (promote_staged recs p).1) < length (staged_keys p))
promote_staged-shrinks [] p = unfold promote_staged in (omega arith, λ k h c. absurd (cc c))
promote_staged-shrinks (kr ∷ recs) p = (
  elim ((promote_staged-Commits kr recs).atomic p) [
    | inl same ↦ rw same (omega arith)
    | inr moved ↦ rw moved (length-remove_all (keys_of (kr ∷ recs)) p.tables.staging)
  ],
  λ k h c there.
      let e =
        ap (λ (x : Unit {0} × Tables). x.1)
          ((promote_staged-Commits kr recs).runs.done p p.now tt refl h) in
      rw (← e) (length-remove_all_lt (keys_of (kr ∷ recs)) p.tables.staging k c there),
)
