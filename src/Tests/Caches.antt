-- ===== src/Tests/Caches.antt =====
-- A cache of 20 bytes, of which one entry gets 5.
use go_ds_s3_walrus.Common.Assoc.{remove_all, lookup, insert}
use go_ds_s3_walrus.Common.{
  ◌≤◌, ◌<◌, String, false, ◌≡◌, refl, some, none, List, [], ◌∷◌, arith, str_eq,
}
use go_ds_s3_walrus.Common.Int.{sub64, add64, pos}
use go_ds_s3_walrus.Cache.{
  removed, evict, element, back, BlobCache, new_blob_cache, empty_cache, add,
}
use go_ds_s3_walrus.Cache.Laws.{IsCache}
use go_ds_s3_walrus.Cache.Runs.{CacheCall, get_call, add_call, run_calls, new_blob_cache-run_calls}
use go_ds_s3_walrus.Cache.Contents.{found, IsLess}
use go_ds_s3_walrus.Cache.Added.{get-add}

-- Four entries of 5 bytes, the first of which is read again, fill it up.
abbrev calls : List CacheCall
calls =
    add_call "a" (1 ∷ 1 ∷ 1 ∷ 1 ∷ 1 ∷ [])
    ∷ add_call "b" (2 ∷ 2 ∷ 2 ∷ 2 ∷ 2 ∷ [])
    ∷ add_call "c" (3 ∷ 3 ∷ 3 ∷ 3 ∷ 3 ∷ [])
    ∷ add_call "d" (4 ∷ 4 ∷ 4 ∷ 4 ∷ 4 ∷ [])
    ∷ get_call "a"
    ∷ []

abbrev full : BlobCache
full = run_calls calls (empty_cache (pos 20) (pos 5))

new_blob_cache-run_calls_example :
    (new_blob_cache (pos 20) ≡ some (empty_cache (pos 20) (pos 5))) × IsCache 20 5 full
new_blob_cache-run_calls_example = new_blob_cache-run_calls 20 calls (omega arith) (omega arith)

full-IsCache : IsCache 20 5 full
full-IsCache = (new_blob_cache-run_calls 20 calls (omega arith) (omega arith)).1

get-add_example :
    (5 ≤ 5 → found "e" (add "e" (5 ∷ 5 ∷ 5 ∷ 5 ∷ 5 ∷ []) full) ≡ some (5 ∷ 5 ∷ 5 ∷ 5 ∷ 5 ∷ []))
    × (5 < 5 → add "e" (5 ∷ 5 ∷ 5 ∷ 5 ∷ 5 ∷ []) full ≡ full)
    × ((other : String)
        → str_eq "e" other ≡ false
        → IsLess other full (add "e" (5 ∷ 5 ∷ 5 ∷ 5 ∷ 5 ∷ []) full))
get-add_example = get-add 20 5 "e" (5 ∷ 5 ∷ 5 ∷ 5 ∷ 5 ∷ []) full (omega arith) full-IsCache

-- The least recently used entry goes.
gone : found "b" (add "e" (5 ∷ 5 ∷ 5 ∷ 5 ∷ 5 ∷ []) full) ≡ none
unfolding go_ds_s3_walrus.Cache.get lookup add run_calls evict add64 insert element back removed
    sub64 remove_all
gone = refl

stays : found "a" (add "e" (5 ∷ 5 ∷ 5 ∷ 5 ∷ 5 ∷ []) full) ≡ some (1 ∷ 1 ∷ 1 ∷ 1 ∷ 1 ∷ [])
unfolding go_ds_s3_walrus.Cache.get lookup add run_calls evict add64 insert element back removed
    sub64 remove_all
stays = refl
