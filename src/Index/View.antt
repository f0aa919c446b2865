-- ===== src/Index/View.antt =====
-- What a reader of the index sees, and how upserts change it.
use mathlib.Core.Option
use go_ds_s3_walrus.Common.{
  ℕ, ◌<◌, String, ◌≡◌, refl, Option, some, List, [], ◌∷◌, ap, ◌∙◌, str_eq, if◌then◌else◌, arith,
  All, Bool-cases, inl, inr,
}
use go_ds_s3_walrus.Common.Int.{word, to_uint64-to_int64}
use go_ds_s3_walrus.Common.Assoc.{Assoc, lookup, lookup-insert}
use go_ds_s3_walrus.Index.{Record, KeyRecord, Row}
use go_ds_s3_walrus.Index.Write.{to_row, from_row, upsert, upsert_all}

-- The record that a reader gets for a key.
unfoldable pub view : Assoc Row → String → Option Record
view t key = Option.map from_row (lookup key t)

-- The two counters of a record are `uint64`.
pub record IsWord (rec : Record) : Type 0 where
  pub cost : rec.cost < word
  pub end_epoch : rec.end_epoch < word

-- The conversion to signed columns and back loses nothing.
pub from_row-to_row :
    (created now : ℕ) (rec : Record) → IsWord rec → from_row (to_row created now rec) ≡ rec
unfolding from_row to_row
from_row-to_row created now rec w =
    ground (arith, to_uint64-to_int64 rec.cost w.cost, to_uint64-to_int64 rec.end_epoch w.end_epoch)

pub view-upsert :
    (now : ℕ) (kr : KeyRecord) (t : Assoc Row) (j : String)
    → IsWord kr.rec
    → view (upsert now kr t) j ≡ (if str_eq kr.key j then some kr.rec else view t j)
unfolding view upsert
view-upsert now kr t j w = rw lookup-insert (elim (Bool-cases (str_eq kr.key j)) [
  | inl same ↦ rw same (ap some (from_row-to_row _ now kr.rec w))
  | inr other ↦ rw other
])

-- The last record of a list for a key.
unfoldable pub find_record : String → List KeyRecord → Option Record → Option Record
find_record j [] other = other
find_record j (kr ∷ recs) other =
    find_record j recs (if str_eq kr.key j then some kr.rec else other)

pub view-upsert_all :
    (now : ℕ) (recs : List KeyRecord) (t : Assoc Row) (j : String)
    → All (λ kr. IsWord kr.rec) recs
    → view (upsert_all now recs t) j ≡ find_record j recs (view t j)
unfolding upsert_all find_record
view-upsert_all now [] t j w = refl
view-upsert_all now (kr ∷ recs) t j w =
    view-upsert_all now recs (upsert now kr t) j w.1
    ∙ ap (find_record j recs) (view-upsert now kr t j w.0)
