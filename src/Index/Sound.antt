-- ===== src/Index/Sound.antt =====
-- What holds of the staged bytes and of the records of index.go, kept by every statement that
-- writes, whatever the server answers.
use go_ds_s3_walrus.Common.{
  ℕ, String, ◌≡◌, refl, ap, sym, ◌∙◌, Option, none, some, List, [], ◌∷◌, contains, str_eq, eq_iff,
  arith, ◌&&◌, inl, inr, Bool-cases, if_both, All, All-map,
}
use mathlib.Core.Path.{subst}
use go_ds_s3_walrus.Common.Assoc.{Assoc, lookup, map_values, lookup-remove_all}
use go_ds_s3_walrus.Common.Result.{ok}
use go_ds_s3_walrus.Common.Rows.{Rows, Rows-insert, Rows-remove_all, Rows-map_values}
use go_ds_s3_walrus.Index.{Bytes, Record, KeyRecord, StageEntry, StageRow, Tables}
use go_ds_s3_walrus.Index.Postgres.{Pg, statement}
use go_ds_s3_walrus.Index.Write.{keys_of, put_many, delete_many, promote_staged}
use go_ds_s3_walrus.Index.Stage.{
  stage_all, staged_row, stage_put_many, stage_release, lease_keys, leased_row, lease_rows,
  leased_entries, released_row, is_claimable,
}
use go_ds_s3_walrus.Index.Staging.{staged_all, stage_put_many-atomic}
use go_ds_s3_walrus.Index.View.{view, IsWord, find_record, view-upsert_all}
use go_ds_s3_walrus.Index.Atomic.{Commits, statement-Commits}
use go_ds_s3_walrus.Index.Promote.{
  written, put_many-Commits, promoted, promote_staged-Commits, deleted, delete_many-Commits,
}
use go_ds_s3_walrus.Index.Moves.{if_staged, promoted-IsPromoted}

find_record-from :
    (P : String → Record → Type 0) (key : String) (recs : List KeyRecord) (o : Option Record)
    (rec : Record)
    → All (λ kr. P kr.key kr.rec) recs
    → ((r : Record) → o ≡ some r → P key r)
    → find_record key recs o ≡ some rec
    → P key rec
unfolding find_record
find_record-from P key [] o rec h other e = other rec e
find_record-from P key (kr ∷ recs) o rec h other e = elim (Bool-cases (str_eq kr.key key)) [
  | inr differs ↦ find_record-from P key recs o rec h.1 other (rw differs at e)
  | inl same ↦
      find_record-from P key recs (some kr.rec) rec h.1
        (λ r e'.
          let shape : kr.rec ≡ r = cc e' in
          rw (← shape) (subst (λ k. P k kr.rec) ((eq_iff kr.key key).0 same) h.0))
        (rw same at e)
]

module _ (S : String → Bytes → Type 0) (R : String → Record → Type 0) where
  -- Staged bytes have `S`, and indexed records have `R`.
  pub record IsSound (t : Tables) : Type 0 where
    pub staged : Rows (λ key (row : StageRow). S key row.value) t.staging
    pub indexed : (key : String) (rec : Record) → view t.index key ≡ some rec → R key rec

  staged-IsSound :
      (es : List StageEntry) (now : ℕ) (t : Tables)
      → All (λ e. S e.key e.value) es
      → IsSound t
      → IsSound (staged_all es now t).1
  unfolding stage_all staged_row
  staged-IsSound [] now t h s = s
  staged-IsSound (e ∷ es) now t h s =
      staged-IsSound es now _ h.1
        (record { staged = Rows-insert _ e.key _ t.staging h.0 s.staged; indexed = s.indexed })

  pub stage_put_many-IsSound :
      (es : List StageEntry) (p : Pg)
      → All (λ e. S e.key e.value) es
      → IsSound p.tables
      → IsSound (stage_put_many es p).1.tables
  stage_put_many-IsSound es p h s = elim (stage_put_many-atomic es p) [
    | inl same ↦ rw same s
    | inr staged ↦ rw staged (staged-IsSound es p.now p.tables h s)
  ]

  released-IsSound :
      (keys : List String) (t : Tables)
      → IsSound t
      → IsSound (record t { staging = map_values (released_row keys) t.staging })
  unfolding released_row
  released-IsSound keys t s = record {
    staged =
        Rows-map_values _ (released_row keys) t.staging
          (λ k row h. if_both (λ (r : StageRow). S k r.value) (contains keys k) h h) s.staged;
    indexed = s.indexed;
  }

  pub stage_release-IsSound :
      (keys : List String) (p : Pg) → IsSound p.tables → IsSound (stage_release keys p).1.tables
  unfolding stage_release
  stage_release-IsSound [] p s = s
  stage_release-IsSound (k ∷ keys) p s =
      elim ((statement-Commits {D = Unit {0}} "stage release" released _ (λ now t. inl refl)
          (λ d now t. refl)).atomic
        p) [
          | inl same ↦ rw same s
          | inr changed ↦ rw changed (released-IsSound (k ∷ keys) p.tables s)
        ]
    where
      released : ℕ → Tables → Unit {0} × Tables
      released now t = (tt, record t { staging = map_values (released_row (k ∷ keys)) t.staging })

  leased-IsSound :
      (keys : List String) (lease now : ℕ) (t : Tables)
      → IsSound t
      → IsSound (record t { staging = map_values (leased_row keys lease now) t.staging })
  unfolding leased_row
  leased-IsSound keys lease now t s = record {
    staged =
        Rows-map_values _ (leased_row keys lease now) t.staging
          (λ k row h.
            if_both (λ (r : StageRow). S k r.value) (contains keys k && is_claimable now row) h h)
          s.staged;
    indexed = s.indexed;
  }

  leased_entries-All :
      (keys : List String) (now : ℕ) (t : Assoc StageRow)
      → Rows (λ key (row : StageRow). S key row.value) t
      → All (λ e. S e.key e.value) (leased_entries keys now t)
  unfolding leased_entries
  leased_entries-All keys now [] h = tt
  leased_entries-All keys now ((k, row) ∷ t) h =
      if_both (All (λ e. S e.key e.value)) (contains keys k && is_claimable now row)
        (h.0, leased_entries-All keys now t h.1) (leased_entries-All keys now t h.1)

  -- What a lease hands out has `S` as well.
  pub lease_keys-IsSound :
      (keys : List String) (lease : ℕ) (p : Pg)
      → IsSound p.tables
      → IsSound (lease_keys keys lease p).1.tables
        × ((es : List StageEntry)
            → (lease_keys keys lease p).0 ≡ ok es
            → All (λ e. S e.key e.value) es)
  unfolding lease_keys
  lease_keys-IsSound [] lease p s = (s, λ es h. let e : es ≡ [] = cc h in rw e tt)
  lease_keys-IsSound (k ∷ keys) lease p s = (
    elim (commits.atomic p) [
      | inl same ↦ rw same s
      | inr changed ↦ rw changed (leased-IsSound (k ∷ keys) lease p.now p.tables s)
    ],
    λ es h.
        let e = ap (λ (x : List StageEntry × Tables). x.0) (commits.runs.done p p.now es refl h) in
        rw (← e) (leased_entries-All (k ∷ keys) p.now p.tables.staging s.staged),
  )
    where
      leased : ℕ → Tables → List StageEntry × Tables
      leased now t = (
        leased_entries (k ∷ keys) now t.staging,
        record t { staging = map_values (leased_row (k ∷ keys) lease now) t.staging },
      )

      commits :
          Commits (Unit {0}) leased (statement "stage claim lease" (lease_rows (k ∷ keys) lease))
      commits =
          statement-Commits "stage claim lease" leased (lease_rows (k ∷ keys) lease)
            (λ now t. inl (unfold lease_rows in refl)) (λ d now t. unfold lease_rows in refl)

  deleted-IsSound :
      (keys : List String) (now : ℕ) (t : Tables) → IsSound t → IsSound (deleted keys now t).1
  unfolding view
  deleted-IsSound keys now t s = record {
    staged = Rows-remove_all _ keys t.staging s.staged;
    indexed =
        λ key rec e. s.indexed key rec (ground (arith, lookup-remove_all keys key t.index, e));
  }

  pub delete_many-IsSound :
      (keys : List String) (p : Pg) → IsSound p.tables → IsSound (delete_many keys p).1.tables
  unfolding delete_many
  delete_many-IsSound [] p s = s
  delete_many-IsSound (k ∷ keys) p s = elim ((delete_many-Commits k keys).atomic p) [
    | inl same ↦ rw same s
    | inr gone ↦ rw gone (deleted-IsSound (k ∷ keys) p.now p.tables s)
  ]

  abbrev IsFit : KeyRecord → Type 0
  IsFit kr = R kr.key kr.rec × IsWord kr.rec

  written-IsSound :
      (recs : List KeyRecord) (now : ℕ) (t : Tables)
      → All IsFit recs
      → IsSound t
      → IsSound (written recs now t).1
  written-IsSound recs now t h s = record {
    staged = s.staged;
    indexed = λ key rec e.
        find_record-from R key recs (view t.index key) rec (All-map _ _ recs (λ kr f. f.0) h)
          (s.indexed key)
          (sym (view-upsert_all now recs t.index key (All-map _ _ recs (λ kr f. f.1) h)) ∙ e);
  }

  pub put_many-IsSound :
      (recs : List KeyRecord) (p : Pg)
      → All IsFit recs
      → IsSound p.tables
      → IsSound (put_many recs p).1.tables
  unfolding put_many
  put_many-IsSound [] p h s = s
  put_many-IsSound (kr ∷ recs) p h s = elim ((put_many-Commits kr recs).atomic p) [
    | inl same ↦ rw same s
    | inr wrote ↦ rw wrote (written-IsSound (kr ∷ recs) p.now p.tables h s)
  ]

  if_staged-R :
      (key : String) (row : Option StageRow) (x y : Option Record)
      → ((r : Record) → x ≡ some r → R key r)
      → ((r : Record) → y ≡ some r → R key r)
      → (r : Record) → if_staged row x y ≡ some r
      → R key r
  if_staged-R key none x y hx hy = hy
  if_staged-R key (some row) x y hx hy = hx

  promoted-IsSound :
      (recs : List KeyRecord) (now : ℕ) (t : Tables)
      → All IsFit recs
      → IsSound t
      → IsSound (promoted recs now t).1
  promoted-IsSound recs now t h s = record {
    staged = Rows-remove_all _ (keys_of recs) t.staging s.staged;
    indexed = λ key rec e.
        if_staged-R key (lookup key t.staging) _ _
          (λ r.
            find_record-from R key recs (view t.index key) r (All-map _ _ recs (λ kr f. f.0) h)
              (s.indexed key))
          (s.indexed key) rec
          (sym ((promoted-IsPromoted recs now t (All-map _ _ recs (λ kr f. f.1) h)).indexed key)
            ∙ e);
  }

  pub promote_staged-IsSound :
      (recs : List KeyRecord) (p : Pg)
      → All IsFit recs
      → IsSound p.tables
      → IsSound (promote_staged recs p).1.tables
  unfolding promote_staged
  promote_staged-IsSound [] p h s = s
  promote_staged-IsSound (kr ∷ recs) p h s = elim ((promote_staged-Commits kr recs).atomic p) [
    | inl same ↦ rw same s
    | inr moved ↦ rw moved (promoted-IsSound (kr ∷ recs) p.now p.tables h s)
  ]
