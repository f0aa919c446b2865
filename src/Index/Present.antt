-- ===== src/Index/Present.antt =====
-- Which keys the tables of index.go hold after a promotion.
use go_ds_s3_walrus.Common.{
  ℕ, ◌≤◌, String, true, false, ◌&&◌, ◌||◌, ◌≡◌, refl, ap, sym, ◌∙◌, List, [], ◌∷◌, length, contains,
  arith, eq_iff, suc, str_eq, none, if◌then◌else◌,
}
use go_ds_s3_walrus.Common.Assoc.{Assoc, lookup, lookup-insert, remove_all, lookup-remove_all}
use go_ds_s3_walrus.Common.Result.{ok}
use go_ds_s3_walrus.Index.{KeyRecord, Row, StageRow, Tables}
use go_ds_s3_walrus.Index.Postgres.{Pg}
use go_ds_s3_walrus.Index.Write.{keys_of, upsert, upsert_all, live_records, present, promote_staged}
use go_ds_s3_walrus.Index.Distinct.{distinct}
use go_ds_s3_walrus.Index.Moves.{is_some, contains-present}
use go_ds_s3_walrus.Index.Claims.{primary_keys}
use go_ds_s3_walrus.Index.Primary.{length-remove_all}
use go_ds_s3_walrus.Index.Promote.{promoted, promote_staged-Commits}

is_some-upsert :
    (now : ℕ) (kr : KeyRecord) (t : Assoc Row) (j : String)
    → is_some (lookup j (upsert now kr t)) ≡ (str_eq kr.key j || is_some (lookup j t))
unfolding upsert
is_some-upsert now kr t j = rw lookup-insert (ground arith)

is_some-upsert_all :
    (now : ℕ) (recs : List KeyRecord) (t : Assoc Row) (j : String)
    → is_some (lookup j (upsert_all now recs t))
      ≡ (contains (keys_of recs) j || is_some (lookup j t))
unfolding upsert_all
is_some-upsert_all now [] t j = refl
is_some-upsert_all now (kr ∷ recs) t j =
    is_some-upsert_all now recs (upsert now kr t) j ∙ ground (arith, is_some-upsert now kr t j)

contains-live_records :
    (s : List String) (recs : List KeyRecord) (j : String)
    → contains (keys_of (live_records s recs)) j ≡ (contains s j && contains (keys_of recs) j)
unfolding live_records
contains-live_records s [] j = ground arith
contains-live_records s (kr ∷ recs) j =
    ground (arith, eq_iff kr.key j, contains-live_records s recs j)

primary_keys-remove_all :
    (keys : List String) (t : Assoc StageRow) (k : String)
    → contains (primary_keys t) k ≡ false
    → contains (primary_keys (remove_all keys t)) k ≡ false
unfolding remove_all
primary_keys-remove_all keys [] k h = refl
primary_keys-remove_all keys ((j, r) ∷ t) k h = ground (arith, h, primary_keys-remove_all keys t k)

distinct-remove_all :
    (keys : List String) (t : Assoc StageRow)
    → distinct (primary_keys t) ≡ true
    → distinct (primary_keys (remove_all keys t)) ≡ true
unfolding remove_all
distinct-remove_all keys [] h = refl
distinct-remove_all keys ((j, r) ∷ t) h =
    ground (arith, h, distinct-remove_all keys t, primary_keys-remove_all keys t j)

length-primary_keys : (t : Assoc StageRow) → length (primary_keys t) ≡ length t
length-primary_keys [] = refl
length-primary_keys ((k, r) ∷ t) = ap suc (length-primary_keys t)

-- What a promotion does, where its records are those of distinct keys and the server makes no fault.
pub record IsTaken (keys : List String) (p p' : Pg) : Type 0 where
  pub calm : p'.outcomes ≡ []
  pub now : p'.now ≡ p.now
  pub keyed :
      distinct (primary_keys p.tables.staging) ≡ true
      → distinct (primary_keys p'.tables.staging) ≡ true
  pub fewer : length p'.tables.staging ≤ length p.tables.staging
  pub staged :
      (k : String)
      → lookup k p'.tables.staging ≡ (if contains keys k then none else lookup k p.tables.staging)
  pub indexed :
      (k : String)
      → is_some (lookup k p'.tables.index) ≡ (
          (contains keys k && is_some (lookup k p.tables.staging))
          || is_some (lookup k p.tables.index))

promoted-IsTaken :
    (recs : List KeyRecord) (p p' : Pg)
    → p'.outcomes ≡ []
    → p'.now ≡ p.now
    → p'.tables ≡ (promoted recs p.now p.tables).1
    → IsTaken (keys_of recs) p p'
promoted-IsTaken recs p p' calm now moved = record {
  calm = calm;
  now = now;
  keyed = λ d. rw moved (distinct-remove_all (keys_of recs) p.tables.staging d);
  fewer = rw moved (
      omega (
        arith,
        length-remove_all (keys_of recs) p.tables.staging,
        length-primary_keys p.tables.staging,
        length-primary_keys (remove_all (keys_of recs) p.tables.staging),
      ));
  staged = λ k. rw moved (lookup-remove_all (keys_of recs) k p.tables.staging);
  indexed = λ k. rw moved (
      is_some-upsert_all p.now (live_records (present (keys_of recs) p.tables.staging) recs)
        p.tables.index k
      ∙ rw
          (
            contains-live_records (present (keys_of recs) p.tables.staging) recs k,
            contains-present (keys_of recs) p.tables.staging k,
          )
          (ground arith));
}

pub promote_staged-IsTaken :
    (kr : KeyRecord) (recs : List KeyRecord) (p : Pg)
    → p.outcomes ≡ []
    → distinct (keys_of (kr ∷ recs)) ≡ true
    → ((promote_staged (kr ∷ recs) p).0 ≡ ok tt)
      × IsTaken (keys_of (kr ∷ recs)) p (promote_staged (kr ∷ recs) p).1
promote_staged-IsTaken kr recs p calm d =
    let runs = (promote_staged-Commits kr recs).runs in
    let (good, still) = runs.total d p p.now p.tables refl refl calm in
    (
      good,
      promoted-IsTaken (kr ∷ recs) p (promote_staged (kr ∷ recs) p).1 still (runs.clock p)
          (sym (ap (λ (x : Unit {0} × Tables). x.1) (runs.done p p.now tt refl good))),
    )
