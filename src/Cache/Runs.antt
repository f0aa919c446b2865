-- ===== src/Cache/Runs.antt =====
-- Calls of a cache of cache.go, one after another.
use go_ds_s3_walrus.Common.{
  ℕ, ◌/◌, ◌^◌, ◌≤◌, ◌<◌, String, ◌≡◌, refl, some, List, [], ◌∷◌, arith, if◌then◌else◌, leb,
}
use native.Mathlib.Nat.{div-le_self}
use go_ds_s3_walrus.Common.Int.{pos, div64-pos}
use go_ds_s3_walrus.Common.Assoc.{lookup}
use go_ds_s3_walrus.Index.{Bytes}
use go_ds_s3_walrus.Cache.{BlobCache, new_blob_cache, get, empty_cache, add}
use go_ds_s3_walrus.Cache.Laws.{IsCache, get-IsCache, add-IsCache}

-- Calls of a cache, in any order.
pub data CacheCall : Type 0 where
  get_call : String → CacheCall
  add_call : String → Bytes → CacheCall

unfoldable pub run_calls : List CacheCall → BlobCache → BlobCache
run_calls [] c = c
run_calls (get_call key ∷ calls) c = run_calls calls (get key c).1
run_calls (add_call key content ∷ calls) c = run_calls calls (add key content c)

run_calls-IsCache :
    (m k : ℕ) (calls : List CacheCall) (c : BlobCache)
    → m < 2 ^ 62
    → IsCache m k c
    → IsCache m k (run_calls calls c)
unfolding run_calls
run_calls-IsCache m k [] c roomy h = h
run_calls-IsCache m k (get_call key ∷ calls) c roomy h =
    run_calls-IsCache m k calls _ roomy (get-IsCache m k key c h)
run_calls-IsCache m k (add_call key content ∷ calls) c roomy h =
    run_calls-IsCache m k calls _ roomy (add-IsCache m k roomy key content c h)

-- The share of one entry.
abbrev pub share_of : ℕ → ℕ
share_of m = if leb (m / 4) 0 then m else m / 4

empty-IsCache : (m k : ℕ) → k ≤ m → IsCache m k (empty_cache (pos m) (pos k))
empty-IsCache m k share = (
  record {
    links = record {
      unique = tt;
      linked = tt;
      keyed = λ key i h. absurd (unfold lookup in cc h);
      young = tt;
    };
    bytes = refl;
    entries = tt;
    max_bytes = refl;
    max_entry_size = refl;
    share = share;
  },
  omega arith,
)

-- For a positive budget below 2^62 the cache begins empty, and after any calls of `get` and `add` its map and its list agree,
-- `curBytes` is the sum of its entries and within the budget, and no entry is larger than a quarter of it (or than
-- the budget, if that is below 4 bytes).
pub new_blob_cache-run_calls :
    (m : ℕ) (calls : List CacheCall)
    → 0 < m
    → m < 2 ^ 62
    → (new_blob_cache (pos m) ≡ some (empty_cache (pos m) (pos (share_of m))))
      × IsCache m (share_of m) (run_calls calls (empty_cache (pos m) (pos (share_of m))))
unfolding new_blob_cache
new_blob_cache-run_calls m calls some_room roomy = (
  ground (arith, div64-pos m 4 (omega (arith, roomy)), some_room),
  run_calls-IsCache m (share_of m) calls _ roomy
      (empty-IsCache m (share_of m) (ground (arith, div-le_self m 4))),
)
