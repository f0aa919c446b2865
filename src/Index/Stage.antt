-- ===== src/Index/Stage.antt =====
-- The staging table of index.go: durable blocks that wait to be packed, and the leases on them.
use go_ds_s3_walrus.Common.{
  ℕ, ◌+◌, ◌*◌, String, Bool, true, false, ◌&&◌, ◌||◌, Option, none, some, List, [], ◌∷◌, map,
  length, take, contains, ltb, ◌==◌, if◌then◌else◌,
}
use Prim.Native.Nat.{min, max}
use go_ds_s3_walrus.Common.Int.{ℤ, pos, add64, leb_ℤ, ltb_ℤ}
use go_ds_s3_walrus.Common.Assoc.{Assoc, lookup, insert, map_values}
use go_ds_s3_walrus.Common.Result.{Exec, pure, raise, not_found, ◌>>=◌}
use go_ds_s3_walrus.Index.{Bytes, StageEntry, StageStats, StageRow, Tables}
use go_ds_s3_walrus.Index.Postgres.{Pg, statement, query, transaction}
use go_ds_s3_walrus.Index.Distinct.{distinct}
use go_ds_s3_walrus.Index.Chunks.{in_chunks}

-- A fresh row: the same for an insertion and for a conflict, which refreshes every column.
unfoldable pub staged_row : ℕ → StageEntry → StageRow
staged_row now e = record {
  value = e.value;
  size = pos (length e.value);
  created_at = now;
  leased_until = none;
}

unfoldable pub stage_all : ℕ → List StageEntry → Assoc StageRow → Assoc StageRow
stage_all now [] t = t
stage_all now (e ∷ es) t = stage_all now es (insert e.key (staged_row now e) t)

abbrev pub stage_keys : List StageEntry → List String
stage_keys = map (λ e. e.key)

unfoldable pub insert_staged : List StageEntry → ℕ → Tables → Option (Unit {0} × Tables)
unfolding stage_all
insert_staged es now t =
    if distinct (stage_keys es)
    then some (tt, record t { staging = stage_all now es t.staging })
    else none

abbrev pub stage_put_chunk : ℕ
stage_put_chunk = 200

-- The INSERT for a chunk, and the loop of `StagePutMany`, with fuel for its rounds: each takes at
-- least one entry.
abbrev pub stage_put_part : List StageEntry → Exec Pg (Unit {0})
stage_put_part es = statement "stage put-many" (insert_staged es)

unfoldable pub stage_put_loop : ℕ → List StageEntry → Exec Pg (Unit {0})
unfolding in_chunks
stage_put_loop = in_chunks stage_put_chunk stage_put_part

unfoldable pub stage_put_many : List StageEntry → Exec Pg (Unit {0})
stage_put_many [] = pure tt
stage_put_many (e ∷ es) = transaction "stage put-many" (stage_put_loop (length (e ∷ es)) (e ∷ es))

staged_value : Option StageRow → Exec Pg Bytes
staged_value none = raise not_found
staged_value (some row) = pure row.value

unfoldable pub stage_get : String → Exec Pg Bytes
unfolding staged_value
stage_get key = do row ← query "stage get" (λ now t. lookup key t.staging); staged_value row

staged_size : Option StageRow → Exec Pg ℤ
staged_size none = raise not_found
staged_size (some row) = pure row.size

unfoldable pub stage_get_size : String → Exec Pg ℤ
unfolding staged_size
stage_get_size key = do
  row ← query "stage get-size" (λ now t. lookup key t.staging)
  staged_size row

-- `leased_until IS NULL OR leased_until < now()`.
lapsed : ℕ → Option ℕ → Bool
lapsed now none = true
lapsed now (some t) = ltb t now

unfoldable pub is_claimable : ℕ → StageRow → Bool
unfolding lapsed
is_claimable now row = lapsed now row.leased_until

unfoldable pub claimable : ℕ → Assoc StageRow → Assoc StageRow
claimable now [] = []
claimable now ((k, row) ∷ t) =
    let rest = claimable now t in if is_claimable now row then (k, row) ∷ rest else rest

-- The aggregates `min` and `max` of no rows are NULL.
unfoldable pub least : ℕ → Option ℕ → Option ℕ
least a none = some a
least a (some b) = some (min a b)

greatest : ℕ → Option ℕ → Option ℕ
greatest a none = some a
greatest a (some b) = some (max a b)

unfoldable pub stats_of : Assoc StageRow → StageStats
unfolding least greatest
stats_of [] = record { count = pos 0; bytes = pos 0; oldest = none; newest = none }
stats_of ((k, row) ∷ t) =
    let rest = stats_of t in
    record {
      count = add64 (pos 1) rest.count;
      bytes = add64 row.size rest.bytes;
      oldest = least row.created_at rest.oldest;
      newest = greatest row.created_at rest.newest;
    }

unfoldable pub stage_stats : Exec Pg StageStats
unfolding stats_of
stage_stats = query "stage stats" (λ now t. stats_of (claimable now t.staging))

-- UPDATE ... SET leased_until = NULL WHERE key = ANY(keys).
unfoldable pub released_row : List String → String → StageRow → StageRow
released_row keys k row = if contains keys k then record row { leased_until = none } else row

unfoldable pub stage_release : List String → Exec Pg (Unit {0})
unfolding released_row
stage_release [] = pure tt
stage_release (key ∷ keys) =
    statement "stage release"
      (λ now t. some (tt, record t { staging = map_values (released_row (key ∷ keys)) t.staging }))

-- The loop over the candidates: always the first, then while the total stays within `max_bytes`.
unfoldable pub scan_keys : ℤ → Bool → ℤ → Assoc StageRow → List String
scan_keys max_bytes taken total [] = []
scan_keys max_bytes taken total ((k, row) ∷ rows) =
    let rest = k ∷ scan_keys max_bytes true (add64 total row.size) rows in
    if taken && ltb_ℤ max_bytes (add64 total row.size) then [] else rest

-- The driver sends a `time.Duration` as the number of its nanoseconds, and PostgreSQL reads a number
-- without a unit, where it wants an interval, as seconds.
abbrev pub interval : ℕ → ℕ
interval duration = duration * 1000000000

-- UPDATE ... SET leased_until = now() + $2 WHERE key = ANY(keys) AND claimable.
unfoldable pub leased_row : List String → ℕ → ℕ → String → StageRow → StageRow
leased_row keys lease now k row =
    if contains keys k && is_claimable now row
    then record row { leased_until = some (now + interval lease) }
    else row

-- Its RETURNING key, value.
unfoldable pub leased_entries : List String → ℕ → Assoc StageRow → List StageEntry
leased_entries keys now [] = []
leased_entries keys now ((k, row) ∷ t) =
    let rest = leased_entries keys now t in
    if contains keys k && is_claimable now row
    then record { key = k; value = row.value } ∷ rest
    else rest

unfoldable pub lease_rows : List String → ℕ → ℕ → Tables → Option (List StageEntry × Tables)
lease_rows keys lease now t = some (
  leased_entries keys now t.staging,
  record t { staging = map_values (leased_row keys lease now) t.staging },
)

unfoldable pub lease_keys : List String → ℕ → Exec Pg (List StageEntry)
lease_keys [] lease = pure []
lease_keys (k ∷ keys) lease = statement "stage claim lease" (lease_rows (k ∷ keys) lease)

-- ORDER BY created_at, key: the order of keys is the collation of the database.
module _ (key_leb : String → String → Bool) where
  unfoldable pub older : String → StageRow → String → StageRow → Bool
  older k r k' r' =
      ltb r.created_at r'.created_at || (r.created_at == r'.created_at && key_leb k k')

  unfoldable pub insert_by_age : String → StageRow → Assoc StageRow → Assoc StageRow
  insert_by_age k r [] = (k, r) ∷ []
  insert_by_age k r ((k', r') ∷ t) =
      if older k r k' r' then (k, r) ∷ (k', r') ∷ t else (k', r') ∷ insert_by_age k r t

  unfoldable pub by_age : Assoc StageRow → Assoc StageRow
  by_age [] = []
  by_age ((k, r) ∷ t) = insert_by_age k r (by_age t)

  -- The SELECT of `StageClaim`, with its LIMIT, and the scan of its rows.
  unfoldable pub candidates : ℕ → ℤ → ℕ → Tables → List String
  candidates max_count max_bytes now t =
      scan_keys max_bytes false (pos 0) (take max_count (by_age (claimable now t.staging)))

  unfoldable pub stage_claim : ℕ → ℤ → ℕ → Exec Pg (List StageEntry)
  stage_claim max_count max_bytes lease =
      if max_count == 0 || leb_ℤ max_bytes (pos 0) then pure [] else do
        keys ← query "stage claim select" (candidates max_count max_bytes)
        lease_keys keys lease
