-- ===== src/Index/Moves.antt =====
-- What a reader sees after a promotion or a deletion.
use go_ds_s3_walrus.Common.{
  ℕ, String, Bool, true, false, ◌&&◌, ◌≡◌, refl, ap, ◌∙◌, Option, none, some, List, [], ◌∷◌,
  contains, eq_iff, arith, ◌⊎◌, inl, inr, if◌then◌else◌, Bool-cases, All,
}
use go_ds_s3_walrus.Common.Assoc.{Assoc, lookup, lookup-remove_all}
use go_ds_s3_walrus.Common.Result.{ok}
use go_ds_s3_walrus.Index.{Record, KeyRecord, StageRow, Tables}
use go_ds_s3_walrus.Index.Postgres.{Pg}
use go_ds_s3_walrus.Index.Write.{keys_of, present, live_records, promote_staged, delete_many}
use go_ds_s3_walrus.Index.Distinct.{distinct}
use go_ds_s3_walrus.Index.View.{view, IsWord, find_record, view-upsert_all}
use go_ds_s3_walrus.Index.Promote.{promoted, promote_staged-Commits, deleted, delete_many-Commits}

abbrev pub is_some {ℓ} : {A : Type ℓ} → Option A → Bool
is_some none = false
is_some (some a) = true

-- A choice by what is staged for a key.
abbrev pub if_staged : Option StageRow → Option Record → Option Record → Option Record
if_staged none x y = y
if_staged (some row) x y = x

pub contains-present :
    (keys : List String) (t : Assoc StageRow) (j : String)
    → contains (present keys t) j ≡ (contains keys j && is_some (lookup j t))
unfolding present lookup
contains-present keys [] j = ground arith
contains-present keys ((i, row) ∷ t) j = ground (arith, eq_iff i j, contains-present keys t j)

pub find_record-absent :
    (j : String) (recs : List KeyRecord) (o : Option Record)
    → contains (keys_of recs) j ≡ false
    → find_record j recs o ≡ o
unfolding find_record
find_record-absent j [] o h = refl
find_record-absent j (kr ∷ recs) o h = ground (arith, find_record-absent j recs o)

find_record-live :
    (survivors : List String) (j : String) (recs : List KeyRecord) (o : Option Record)
    → find_record j (live_records survivors recs) o
      ≡ (if contains survivors j then find_record j recs o else o)
unfolding find_record live_records
find_record-live survivors j [] o = ground arith
find_record-live survivors j (kr ∷ recs) o = ground (
  arith,
  eq_iff kr.key j,
  find_record-live survivors j recs o,
  find_record-live survivors j recs (some kr.rec),
)

All-live :
    (survivors : List String) (recs : List KeyRecord)
    → All (λ kr. IsWord kr.rec) recs
    → All (λ kr. IsWord kr.rec) (live_records survivors recs)
unfolding live_records
All-live survivors [] w = tt
All-live survivors (kr ∷ recs) w = elim (Bool-cases (contains survivors kr.key)) [
  | inl in_ ↦ rw in_ (w.0, All-live survivors recs w.1)
  | inr out ↦ rw out (All-live survivors recs w.1)
]

-- For every key: the staged bytes of a promoted key are gone, and its record is in the index if, and
-- only if, the key was still staged. All other keys are as they were.
pub record IsPromoted (recs : List KeyRecord) (before after : Tables) : Type 0 where
  pub staged :
      (j : String)
      → lookup j after.staging
        ≡ (if contains (keys_of recs) j then none else lookup j before.staging)
  pub indexed :
      (j : String)
      → view after.index j
        ≡ if_staged
            (lookup j before.staging)
            (find_record j recs (view before.index j))
            (view before.index j)

pub promoted-IsPromoted :
    (recs : List KeyRecord) (now : ℕ) (t : Tables)
    → All (λ kr. IsWord kr.rec) recs
    → IsPromoted recs t (promoted recs now t).1
promoted-IsPromoted recs now t w = record {
  staged = λ j. lookup-remove_all (keys_of recs) j t.staging;
  indexed = λ j.
      let before = view t.index j in
      let survivors = present (keys_of recs) t.staging in
      view-upsert_all now (live_records survivors recs) t.index j (All-live survivors recs w)
      ∙ find_record-live survivors j recs before
      ∙ ground
          (arith, contains-present (keys_of recs) t.staging j, find_record-absent j recs before);
}

IsPromoted-nil : (t : Tables) → IsPromoted [] t t
unfolding find_record
IsPromoted-nil t = record { staged = λ j. refl; indexed = λ j. ground arith }

-- Whatever the server answers, `PromoteStaged` leaves both tables alone or promotes every record,
-- and it reports success only if it has promoted. With distinct keys and no fault it succeeds. (The
-- counters of the records are 64-bit words.)
pub promote_staged-IsPromoted :
    (recs : List KeyRecord) (p : Pg)
    → All (λ kr. IsWord kr.rec) recs
    → (((promote_staged recs p).1.tables ≡ p.tables)
        ⊎ IsPromoted recs p.tables (promote_staged recs p).1.tables)
      × ((promote_staged recs p).0 ≡ ok tt
          → IsPromoted recs p.tables (promote_staged recs p).1.tables)
      × (p.outcomes ≡ [] → distinct (keys_of recs) ≡ true → (promote_staged recs p).0 ≡ ok tt)
unfolding promote_staged
promote_staged-IsPromoted [] p w = (inl refl, λ h. promoted_none, λ h d. refl)
  where
    promoted_none : IsPromoted [] p.tables p.tables
    promoted_none = IsPromoted-nil p.tables
promote_staged-IsPromoted (kr ∷ recs) p w = (
  elim ((promote_staged-Commits kr recs).atomic p) [
    | inl same ↦ inl same
    | inr moved ↦ inr (rw moved (promoted-IsPromoted (kr ∷ recs) p.now p.tables w))
  ],
  λ h.
      rw
        (← ap (λ (x : Unit × Tables). x.1)
          ((promote_staged-Commits kr recs).runs.done p p.now tt refl h))
        (promoted-IsPromoted (kr ∷ recs) p.now p.tables w),
  λ h d. ((promote_staged-Commits kr recs).runs.total d p p.now p.tables refl refl h).0,
)

-- The keys are gone from both tables, and no other key is touched.
pub record IsDeleted (keys : List String) (before after : Tables) : Type 0 where
  pub staged :
      (j : String)
      → lookup j after.staging ≡ (if contains keys j then none else lookup j before.staging)
  pub indexed :
      (j : String)
      → lookup j after.index ≡ (if contains keys j then none else lookup j before.index)

deleted-IsDeleted :
    (keys : List String) (now : ℕ) (t : Tables) → IsDeleted keys t (deleted keys now t).1
deleted-IsDeleted keys now t = record {
  staged = λ j. lookup-remove_all keys j t.staging;
  indexed = λ j. lookup-remove_all keys j t.index;
}

-- Whatever the server answers, `DeleteMany` leaves both tables alone or removes the keys from both,
-- and it reports success only if it has removed them. With no fault it succeeds.
pub delete_many-IsDeleted :
    (keys : List String) (p : Pg)
    → (((delete_many keys p).1.tables ≡ p.tables)
        ⊎ IsDeleted keys p.tables (delete_many keys p).1.tables)
      × ((delete_many keys p).0 ≡ ok tt → IsDeleted keys p.tables (delete_many keys p).1.tables)
      × (p.outcomes ≡ [] → (delete_many keys p).0 ≡ ok tt)
unfolding delete_many
delete_many-IsDeleted [] p =
    (inl refl, λ h. record { staged = λ j. refl; indexed = λ j. refl }, λ h. refl)
delete_many-IsDeleted (key ∷ keys) p = (
  elim ((delete_many-Commits key keys).atomic p) [
    | inl same ↦ inl same
    | inr gone ↦ inr (rw gone (deleted-IsDeleted (key ∷ keys) p.now p.tables))
  ],
  λ h.
      rw
        (← ap (λ (x : Unit × Tables). x.1)
          ((delete_many-Commits key keys).runs.done p p.now tt refl h))
        (deleted-IsDeleted (key ∷ keys) p.now p.tables),
  λ h. ((delete_many-Commits key keys).runs.total tt p p.now p.tables refl refl h).0,
)
