-- ===== src/Tests/Datastores.antt =====
-- The datastore over a small Walrus: puts, reads and a flush.
use go_ds_s3_walrus.Index.Write.{
  put_many_tx, put_many_loop, put_many, promote_staged, present, live_records, insert_rows,
}
use go_ds_s3_walrus.Index.Stage.{stage_get}
use go_ds_s3_walrus.Common.{
  false, true, ◌≡◌, ◌||◌, refl, some, List, [], ◌∷◌, arith, if◌then◌else◌, str_eq, ◌<◌, length,
}
use go_ds_s3_walrus.Common.Int.{pos, half_word}
use go_ds_s3_walrus.Common.Assoc.{lookup}
use go_ds_s3_walrus.Common.Result.{ok, err, not_found}
use go_ds_s3_walrus.Index.{Bytes, StageEntry, StageRow}
use go_ds_s3_walrus.Index.Postgres.{transaction, statement, query}
use go_ds_s3_walrus.Index.Moves.{is_some}
use go_ds_s3_walrus.Datastore.{Config, World}
use go_ds_s3_walrus.Datastore.Store.{store_oversize, get, put, has, get_size, delete, is_oversize}
use go_ds_s3_walrus.Datastore.Upload.{
  upload_single_block, upload_pack, upload_concat_pack, concat_records, concat_record,
  concat_blocks,
}
use go_ds_s3_walrus.Datastore.Identified.{Holds}
use go_ds_s3_walrus.Datastore.Flush.{flush_one_pack, to_blocks}
use go_ds_s3_walrus.Index.Staging.{staged_bytes}
use go_ds_s3_walrus.Datastore.Transparent.{get-flush_one_pack}
use go_ds_s3_walrus.Datastore.Answers.{calm}
use go_ds_s3_walrus.Index.Sizes.{known_size}
use go_ds_s3_walrus.Datastore.Methods.{sized, has-get_size, get-delete, get-put}
use go_ds_s3_walrus.Datastore.Shadow.{get-put_oversize}
use go_ds_s3_walrus.Tests.Toy.{toy, toy-IsWalrus}

abbrev pub conf : Config
conf = record {
  publisher_urls = "https://publisher" ∷ [];
  aggregator_urls = "https://aggregator" ∷ [];
  postgres_url = "postgres://localhost/walrus";
  table = "walrus_index";
  epochs = pos 53;
  n_shards = pos 1000;
  deletable = false;
  workers = pos 2;
  max_open_conns = pos 10;
  pack_target_size = pos 4;
  disable_quilt = true;
  pack_max_age = pos 3600;
  pack_idle_flush = pos 60;
  pack_flush_interval = pos 10;
  blob_cache_bytes = pos 0;
  request_timeout = pos 60;
  max_retries = pos 3;
  epoch_duration = pos 0;
  renew_interval = pos 0;
  renew_lead = pos 0;
}

abbrev leased : Bytes → StageRow
leased v = record { value = v; size = pos 2; created_at = 3; leased_until = some 900 }

-- Two blocks are staged and leased.
abbrev pub two_staged : World (Unit {0})
two_staged = record {
  pg = record {
    tables = record {
      index = [];
      staging = ("a", leased (1 ∷ 2 ∷ [])) ∷ ("b", leased (3 ∷ [])) ∷ [];
    };
    now = 5;
    outcomes = [];
  };
  net = tt;
  kicked = false;
  clock = 5;
}

abbrev pub two_entries : List StageEntry
two_entries = record { key = "a"; value = 1 ∷ 2 ∷ [] } ∷ record { key = "b"; value = 3 ∷ [] } ∷ []

has-get_size_example :
    ((has {N = Unit {0}} "a" (calm two_staged)).0
      ≡ ok (
          is_some (lookup "a" two_staged.pg.tables.staging)
          || is_some (lookup "a" two_staged.pg.tables.index)))
    × ((has "a" (calm two_staged)).0 ≡ ok (is_some (known_size two_staged.pg.tables "a")))
    × ((get_size "a" (calm two_staged)).0 ≡ sized (known_size two_staged.pg.tables "a"))
    × ((has "a" (calm two_staged)).1.net ≡ two_staged.net)
    × ((get_size "a" (calm two_staged)).1.net ≡ two_staged.net)
has-get_size_example = has-get_size "a" two_staged

get-delete_example :
    ((delete "a" (calm two_staged)).0 ≡ ok tt)
    × ((get toy "b" (calm (delete "a" (calm two_staged)).1)).0
        ≡ (if str_eq "a" "b" then err not_found else (get toy "b" (calm two_staged)).0))
get-delete_example = get-delete toy "a" "b" two_staged

small : is_oversize conf (7 ∷ 8 ∷ []) ≡ false
unfolding is_oversize
small = refl

get-put_example :
    ((put toy conf "c" (7 ∷ 8 ∷ []) (calm two_staged)).0 ≡ ok tt)
    × ((put toy conf "c" (7 ∷ 8 ∷ []) (calm two_staged)).1.net ≡ two_staged.net)
    × ((put toy conf "c" (7 ∷ 8 ∷ []) (calm two_staged)).1.kicked ≡ true)
    × ((get toy "c" (calm (put toy conf "c" (7 ∷ 8 ∷ []) (calm two_staged)).1)).0
        ≡ (if str_eq "c" "c" then ok (7 ∷ 8 ∷ []) else (get toy "c" (calm two_staged)).0))
get-put_example = get-put toy conf "c" "c" (7 ∷ 8 ∷ []) two_staged small

oversize : is_oversize conf (7 ∷ 8 ∷ 9 ∷ 10 ∷ []) ≡ true
unfolding is_oversize
oversize = refl

put-oversize : (put toy conf "a" (7 ∷ 8 ∷ 9 ∷ 10 ∷ []) two_staged).0 ≡ ok tt
unfolding put toy is_oversize store_oversize upload_pack upload_single_block put_many transaction
    put_many_tx put_many_loop statement insert_rows
put-oversize = refl

get-put_oversize_example :
    (get toy "a" (calm (put toy conf "a" (7 ∷ 8 ∷ 9 ∷ 10 ∷ []) two_staged).1)).0 ≡ ok (1 ∷ 2 ∷ [])
unfolding lookup
get-put_oversize_example =
    get-put_oversize toy conf "a" (7 ∷ 8 ∷ 9 ∷ 10 ∷ []) (1 ∷ 2 ∷ []) two_staged oversize refl

read_staged : (get toy "b" (calm two_staged)).0 ≡ ok (3 ∷ [])
unfolding get stage_get query lookup
read_staged = refl

staged_alike : Holds toy (staged_bytes two_staged.pg.tables) (to_blocks two_entries)
unfolding lookup
staged_alike = (λ u e. cc e, (λ u e. cc e, tt))

pub few : length (concat_blocks (to_blocks two_entries)) < half_word
unfolding concat_blocks
few = omega arith

get-flush_one_pack_example :
    (get toy "b" (calm (flush_one_pack toy conf two_entries two_staged).1)).0 ≡ ok (3 ∷ [])
get-flush_one_pack_example =
    get-flush_one_pack toy toy-IsWalrus conf two_entries two_staged "b" (3 ∷ []) staged_alike few
      read_staged

-- The block is read from the second byte range of the pack.
flushed : (flush_one_pack toy conf two_entries two_staged).0 ≡ ok tt
unfolding flush_one_pack toy upload_pack upload_concat_pack promote_staged concat_records
    transaction statement live_records present concat_record put_many_tx put_many_loop insert_rows
flushed = refl
