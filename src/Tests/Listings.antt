-- ===== src/Tests/Listings.antt =====
-- Listings of two staged blocks, and prefixes.
use go_ds_s3_walrus.Common.{
  String, true, ◌&&◌, ◌||◌, ◌≡◌, refl, List, contains, str_eq, if◌then◌else◌,
}
use go_ds_s3_walrus.Common.Result.{ok}
use go_ds_s3_walrus.Index.{ListItem}
use go_ds_s3_walrus.Index.Listing.{is_listed, like, below}
use go_ds_s3_walrus.Index.Listed.{item_keys, is_below, is_listed-is_below}
use go_ds_s3_walrus.Index.Known.{is_known}
use go_ds_s3_walrus.Index.Listing.{is_item}
use go_ds_s3_walrus.Index.Sizes.{in_index, in_staging}
use go_ds_s3_walrus.Datastore.Listing.{
  normalize_prefix, query_entries, plain_query, listed_entries, query_entries-keys_only,
}
use go_ds_s3_walrus.Datastore.Answers.{calm}
use go_ds_s3_walrus.Common.{arith, false}
use go_ds_s3_walrus.Datastore.Store.{read_record}
use go_ds_s3_walrus.Datastore.Values.{IsRepeatable, read_items, query_entries-values}
use go_ds_s3_walrus.Tests.Toy.{toy}
use go_ds_s3_walrus.Tests.Datastores.{two_staged}

is_listed-is_below_example : is_listed "/blocks" "/blocks/k" ≡ (
    if str_eq "/blocks" "" || str_eq "/blocks" "/"
    then true
    else str_eq "/blocks/k" "/blocks" || is_below "/blocks" "/blocks/k")
is_listed-is_below_example =
    is_listed-is_below "/blocks" "/blocks/k"
      (refl, (refl, (refl, (refl, (refl, (refl, (refl, tt)))))))

-- A prefix with an underscore lists keys that it does not begin.
underscore : is_listed "/a_b" "/axb/k" ≡ true
unfolding is_listed like below
underscore = refl

query_entries-keys_only_example :
    (items : List ListItem) × ((query_entries
        (λ s. s)
        toy
        (λ k j. true)
        (plain_query "")
        (calm two_staged)).0
      ≡ ok (listed_entries (λ s. s) toy (λ k j. true) items))
    × ((query_entries (λ s. s) toy (λ k j. true) (plain_query "") (calm two_staged)).1.net
        ≡ two_staged.net)
    × ((key : String)
        → contains (item_keys items) key
          ≡ (is_listed (normalize_prefix (λ s. s) "") key && is_known two_staged.pg.tables key))
    × ((it : ListItem)
        → is_item items it ≡ (
            is_listed (normalize_prefix (λ s. s) "") it.key
            && (in_index two_staged.pg.tables.index it
                || in_staging two_staged.pg.tables.staging it)))
query_entries-keys_only_example = query_entries-keys_only (λ s. s) toy (λ k j. true) "" two_staged

toy-IsRepeatable : IsRepeatable toy
unfolding read_record toy
toy-IsRepeatable rec n rec' = ground arith

query_entries-values_example :
    (items : List ListItem) × ((query_entries
        (λ s. s)
        toy
        (λ k j. true)
        (record (plain_query "") { keys_only = false })
        (calm two_staged)).0
      ≡ ok (read_items toy (λ s. s) (λ k j. true) items two_staged))
    × ((key : String)
        → contains (item_keys items) key
          ≡ (is_listed (normalize_prefix (λ s. s) "") key && is_known two_staged.pg.tables key))
query_entries-values_example =
    query_entries-values toy (λ s. s) (λ k j. true) toy-IsRepeatable "" two_staged
