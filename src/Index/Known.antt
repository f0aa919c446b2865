-- ===== src/Index/Known.antt =====
-- Which keys the two tables of index.go know, after the statements that write.
use go_ds_s3_walrus.Common.{
  ℕ, String, Bool, ◌&&◌, ◌||◌, not, ◌≡◌, refl, ap, ◌∙◌, Option, some, List, [], ◌∷◌, contains,
  arith, ◌⊎◌, inl, inr, All,
}
use go_ds_s3_walrus.Common.Assoc.{map_values, lookup-map_values}
use go_ds_s3_walrus.Index.{Bytes, Record, KeyRecord, StageEntry, Tables}
use go_ds_s3_walrus.Index.Postgres.{Pg, statement}
use go_ds_s3_walrus.Index.Write.{keys_of, put_many, delete_many, promote_staged}
use go_ds_s3_walrus.Index.Stage.{
  stage_keys, stage_put_many, stage_release, lease_keys, leased_row, lease_rows, leased_entries,
  released_row,
}
use go_ds_s3_walrus.Index.Staging.{
  staged_bytes, stage_put_many-atomic, find_entry, staged_bytes-staged_all,
}
use go_ds_s3_walrus.Index.View.{view, IsWord, find_record, view-upsert_all}
use go_ds_s3_walrus.Index.Atomic.{Commits, statement-Commits}
use go_ds_s3_walrus.Index.Promote.{put_many-Commits}
use go_ds_s3_walrus.Index.Moves.{is_some, promote_staged-IsPromoted, delete_many-IsDeleted}

-- A release changes leases only.
pub stage_release-kept :
    (keys : List String) (p : Pg) (key : String)
    → (staged_bytes (stage_release keys p).1.tables key ≡ staged_bytes p.tables key)
      × ((stage_release keys p).1.tables.index ≡ p.tables.index)
unfolding stage_release released_row
stage_release-kept [] p key = (refl, refl)
stage_release-kept (k ∷ keys) p key =
    elim ((statement-Commits {D = Unit {0}} "stage release" released _ (λ now t. inl refl)
        (λ d now t. refl)).atomic
      p) [
        | inl same ↦ (ap (λ t. staged_bytes t key) same, ap (λ (t : Tables). t.index) same)
        | inr changed ↦
            (ap (λ t. staged_bytes t key) changed ∙ kept, ap (λ (t : Tables). t.index) changed)
      ]
  where
    released : ℕ → Tables → Unit {0} × Tables
    released now t = (tt, record t { staging = map_values (released_row (k ∷ keys)) t.staging })

    kept : staged_bytes (released p.now p.tables).1 key ≡ staged_bytes p.tables key
    kept = rw lookup-map_values (ground arith)

-- A lease changes leases only.
pub lease_keys-kept :
    (keys : List String) (lease : ℕ) (p : Pg) (key : String)
    → (staged_bytes (lease_keys keys lease p).1.tables key ≡ staged_bytes p.tables key)
      × ((lease_keys keys lease p).1.tables.index ≡ p.tables.index)
unfolding lease_keys leased_row
lease_keys-kept [] lease p key = (refl, refl)
lease_keys-kept (k ∷ keys) lease p key = elim (commits.atomic p) [
  | inl same ↦ (ap (λ t. staged_bytes t key) same, ap (λ (t : Tables). t.index) same)
  | inr changed ↦
      (ap (λ t. staged_bytes t key) changed ∙ kept, ap (λ (t : Tables). t.index) changed)
]
  where
    leased : ℕ → Tables → List StageEntry × Tables
    leased now t = (
      leased_entries (k ∷ keys) now t.staging,
      record t { staging = map_values (leased_row (k ∷ keys) lease now) t.staging },
    )

    commits :
        Commits (Unit {0}) leased (statement "stage claim lease" (lease_rows (k ∷ keys) lease))
    commits =
        statement-Commits "stage claim lease" leased (lease_rows (k ∷ keys) lease)
          (λ now t. inl (unfold lease_rows in refl)) (λ d now t. unfold lease_rows in refl)

    kept : staged_bytes (leased p.now p.tables).1 key ≡ staged_bytes p.tables key
    kept = rw lookup-map_values (ground arith)

-- Whether a key is staged or indexed.
abbrev pub is_known : Tables → String → Bool
is_known t key = is_some (staged_bytes t key) || is_some (view t.index key)

find_entry-known :
    (key : String) (es : List StageEntry) (o : Option Bytes)
    → is_some (find_entry key es o) ≡ (contains (stage_keys es) key || is_some o)
unfolding find_entry
find_entry-known key [] o = refl
find_entry-known key (e ∷ es) o =
    ground (arith, find_entry-known key es o, find_entry-known key es (some e.value))

find_record-known :
    (key : String) (recs : List KeyRecord) (o : Option Record)
    → is_some (find_record key recs o) ≡ (contains (keys_of recs) key || is_some o)
unfolding find_record
find_record-known key [] o = refl
find_record-known key (kr ∷ recs) o =
    ground (arith, find_record-known key recs o, find_record-known key recs (some kr.rec))

pub is_known-stage_put_many :
    (es : List StageEntry) (p : Pg) (key : String)
    → (is_known (stage_put_many es p).1.tables key ≡ is_known p.tables key)
      ⊎ (is_known (stage_put_many es p).1.tables key
          ≡ (contains (stage_keys es) key || is_known p.tables key))
is_known-stage_put_many es p key = elim (stage_put_many-atomic es p) [
  | inl same ↦ inl (ap (λ t. is_known t key) same)
  | inr staged ↦ inr (
      rw staged (
        ground (
          arith,
          staged_bytes-staged_all es p.now p.tables key,
          find_entry-known key es (staged_bytes p.tables key),
        )))
]

pub is_known-delete_many :
    (keys : List String) (p : Pg) (key : String)
    → (is_known (delete_many keys p).1.tables key ≡ is_known p.tables key)
      ⊎ (is_known (delete_many keys p).1.tables key
          ≡ (not (contains keys key) && is_known p.tables key))
is_known-delete_many keys p key = elim (delete_many-IsDeleted keys p).0 [
  | inl same ↦ inl (ap (λ t. is_known t key) same)
  | inr gone ↦ inr (unfold view in ground (arith, gone.staged key, gone.indexed key))
]

pub is_known-stage_release :
    (keys : List String) (p : Pg) (key : String)
    → is_known (stage_release keys p).1.tables key ≡ is_known p.tables key
is_known-stage_release keys p key =
    let (staged, index) = stage_release-kept keys p key in rw (staged, index)

pub is_known-lease_keys :
    (keys : List String) (lease : ℕ) (p : Pg) (key : String)
    → is_known (lease_keys keys lease p).1.tables key ≡ is_known p.tables key
is_known-lease_keys keys lease p key =
    let (staged, index) = lease_keys-kept keys lease p key in rw (staged, index)

-- A promotion moves keys from one table to the other: it neither loses nor adds one.
pub is_known-promote_staged :
    (recs : List KeyRecord) (p : Pg) (key : String)
    → All (λ kr. IsWord kr.rec) recs
    → is_known (promote_staged recs p).1.tables key ≡ is_known p.tables key
is_known-promote_staged recs p key words = elim (promote_staged-IsPromoted recs p words).0 [
  | inl same ↦ ap (λ t. is_known t key) same
  | inr moved ↦ ground (
    arith,
    moved.staged key,
    moved.indexed key,
    find_record-known key recs (view p.tables.index key),
  )
]

pub is_known-put_many :
    (recs : List KeyRecord) (p : Pg) (key : String)
    → All (λ kr. IsWord kr.rec) recs
    → (is_known (put_many recs p).1.tables key ≡ is_known p.tables key)
      ⊎ (is_known (put_many recs p).1.tables key
          ≡ (contains (keys_of recs) key || is_known p.tables key))
unfolding put_many
is_known-put_many [] p key words = inl refl
is_known-put_many (kr ∷ recs) p key words = elim ((put_many-Commits kr recs).atomic p) [
  | inl same ↦ inl (ap (λ t. is_known t key) same)
  | inr wrote ↦ inr (
      rw wrote (
        ground (
          arith,
          view-upsert_all p.now (kr ∷ recs) p.tables.index key words,
          find_record-known key (kr ∷ recs) (view p.tables.index key),
        )))
]
