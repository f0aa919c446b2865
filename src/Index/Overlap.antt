-- ===== src/Index/Overlap.antt =====
-- Transactions of index.go that overlap others: what a statement did not see it leaves alone.
use go_ds_s3_walrus.Common.{
  ℕ, String, false, ◌≡◌, refl, List, [], ◌∷◌, contains, arith, inl, inr, Bool-cases, All,
  if◌then◌else◌,
}
use go_ds_s3_walrus.Common.Assoc.{lookup-remove_all, remove_all}
use go_ds_s3_walrus.Common.Rows.{Rows-remove_all}
use go_ds_s3_walrus.Index.{Bytes, Record, KeyRecord, Tables}
use go_ds_s3_walrus.Index.Postgres.{Pg, statement}
use go_ds_s3_walrus.Index.Write.{
  live_records, delete_many, delete_seen, delete_index, delete_staging,
}
use go_ds_s3_walrus.Index.View.{view}
use go_ds_s3_walrus.Index.Known.{is_known}
use go_ds_s3_walrus.Index.Sound.{IsSound}
use go_ds_s3_walrus.Index.Atomic.{Commits, statement-Commits, Runs-bind, transaction-Commits}

-- The keys that a statement saw.
unfoldable pub among : List String → List String → List String
among seen [] = []
among seen (k ∷ keys) = let rest = among seen keys in if contains seen k then k ∷ rest else rest

pub contains-among :
    (seen keys : List String) (k : String)
    → contains keys k ≡ false
    → contains (among seen keys) k ≡ false
unfolding among
contains-among seen [] k h = refl
contains-among seen (j ∷ keys) k h = ground (arith, h, contains-among seen keys k)

pub All-live :
    (P : KeyRecord → Type 0) (seen : List String) (recs : List KeyRecord)
    → All P recs
    → All P (live_records seen recs)
unfolding live_records
All-live P seen [] w = tt
All-live P seen (kr ∷ recs) w = elim (Bool-cases (contains seen kr.key)) [
  | inl in_ ↦ rw in_ (w.0, All-live P seen recs w.1)
  | inr out ↦ rw out (All-live P seen recs w.1)
]

-- A deletion that saw all of its keys is that of the source in one go.
delete_seen-delete_many :
    (k : String) (keys : List String) → delete_seen (k ∷ keys) (k ∷ keys) ≡ delete_many (k ∷ keys)
unfolding delete_seen delete_many
delete_seen-delete_many k keys = refl

abbrev pub removed : List String → List String → ℕ → Tables → Unit {0} × Tables
removed indexed staged now t =
    (tt, record { index = remove_all indexed t.index; staging = remove_all staged t.staging })

delete_seen-Commits :
    (indexed staged : List String)
    → Commits (Unit {0}) (removed indexed staged) (delete_seen indexed staged)
unfolding delete_seen
delete_seen-Commits indexed staged =
    transaction-Commits "index delete-many" (removed indexed staged) _ (
      Runs-bind unindexed (λ _. unstaged) (statement "index delete-many" (delete_index indexed))
        (λ _. statement "staging delete-many" (delete_staging staged))
        (statement-Commits "index delete-many" unindexed (delete_index indexed) (λ now t. inl refl)
          (λ d now t. refl)).runs
        (λ _.
          (statement-Commits "staging delete-many" unstaged (delete_staging staged)
            (λ now t. inl refl) (λ d now t. refl)).runs))
  where
    unindexed : ℕ → Tables → Unit {0} × Tables
    unindexed now t = (tt, record t { index = remove_all indexed t.index })

    unstaged : ℕ → Tables → Unit {0} × Tables
    unstaged now t = (tt, record t { staging = remove_all staged t.staging })

pub delete_seen-IsSound :
    (S : String → Bytes → Type 0) (R : String → Record → Type 0) (indexed staged : List String)
    (p : Pg)
    → IsSound S R p.tables
    → IsSound S R (delete_seen indexed staged p).1.tables
unfolding view
delete_seen-IsSound S R indexed staged p s = elim ((delete_seen-Commits indexed staged).atomic p) [
  | inl same ↦ rw same s
  | inr gone ↦ rw gone (record {
    staged = Rows-remove_all _ staged p.tables.staging s.staged;
    indexed = λ key rec e.
        s.indexed key rec (ground (arith, lookup-remove_all indexed key p.tables.index, e));
  })
]

-- A deletion adds no key, and keeps those that are not its own.
pub is_known-delete_seen :
    (indexed staged : List String) (p : Pg) (key : String)
    → (is_known p.tables key ≡ false → is_known (delete_seen indexed staged p).1.tables key ≡ false)
      × (contains indexed key ≡ false
          → contains staged key ≡ false
          → is_known (delete_seen indexed staged p).1.tables key ≡ is_known p.tables key)
unfolding view
is_known-delete_seen indexed staged p key = elim ((delete_seen-Commits indexed staged).atomic p) [
  | inl same ↦ rw same (λ h. h, λ h k. refl)
  | inr gone ↦ rw gone (
    (λ h. ground (
      arith,
      h,
      lookup-remove_all indexed key p.tables.index,
      lookup-remove_all staged key p.tables.staging,
    )),
    (λ h k. ground (
      arith,
      h,
      k,
      lookup-remove_all indexed key p.tables.index,
      lookup-remove_all staged key p.tables.staging,
    )),
  )
]
