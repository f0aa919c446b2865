-- ===== src/Datastore/Listing.antt =====
-- `Query` of walrus.go.
use go_ds_s3_walrus.Common.{
  String, Bool, true, false, ◌&&◌, ◌||◌, ◌≡◌, refl, Option, some, none, List, [], ◌∷◌, map,
  contains, length, str_eq, if◌then◌else◌,
}
use go_ds_s3_walrus.Common.Int.{ℤ, pos}
use go_ds_s3_walrus.Common.Result.{failure, Result, ok, err, Exec, pure, ◌>>=◌}
use go_ds_s3_walrus.Index.{Bytes, ListItem}
use go_ds_s3_walrus.Index.Postgres.{query}
use go_ds_s3_walrus.Index.Listing.{is_listed, is_item, list_items, list}
use go_ds_s3_walrus.Index.Listed.{item_keys, contains-list_items}
use go_ds_s3_walrus.Index.Sizes.{in_index, in_staging, is_item-list_items}
use go_ds_s3_walrus.Index.Known.{is_known}
use go_ds_s3_walrus.Client.{WalrusClient}
use go_ds_s3_walrus.Datastore.{World, on_index}
use go_ds_s3_walrus.Datastore.Store.{get}
use go_ds_s3_walrus.Datastore.Answers.{calm}

-- `dsq.Query`; whether it asks for orders or filters is all that is read of these.
pub record Query : Type 0 where
  pub prefix : String
  pub limit : ℤ
  pub offset : ℤ
  pub keys_only : Bool
  pub is_ordered : Bool
  pub is_filtered : Bool

-- A query for the keys below a prefix.
abbrev pub plain_query : String → Query
plain_query prefix = record {
  prefix = prefix;
  limit = pos 0;
  offset = pos 0;
  keys_only = true;
  is_ordered = false;
  is_filtered = false;
}

pub record Entry : Type 0 where
  pub key : String
  pub size : ℤ
  pub value : Option Bytes

-- `ds.NewKey(...).String()` is `clean`, the canonical form of a key.
module _ (clean : String → String) where
  unfoldable pub normalize_prefix : String → String
  normalize_prefix prefix = if str_eq prefix "" then "/" else clean prefix

  module _ {N : Type 0} (client : WalrusClient N) (key_leb : String → String → Bool) where
    -- An item of the listing: its size comes from the table, or from the value where that is read.
    abbrev pub to_entry : ListItem → Exec (World N) Entry
    to_entry it = do
      v ← get client (clean it.key)
      pure (record { key = it.key; size = pos (length v); value = some v })

    abbrev pub next_value : Bool → ListItem → Exec (World N) Entry
    next_value true it = pure (record { key = it.key; size = it.size; value = none })
    next_value false it = to_entry it

    -- The iterator, read to its end: an error is an item of it, and does not end it.
    unfoldable pub next_values : Bool → List ListItem → World N → List (Result Entry) × World N
    next_values keys_only [] w = ([], w)
    next_values keys_only (it ∷ items) w =
        let (r, w') = next_value keys_only it w in
        let (rs, w'') = next_values keys_only items w' in (r ∷ rs, w'')

    abbrev pub found_items :
        Bool → Result (List ListItem) × World N → Result (List (Result Entry)) × World N
    found_items keys_only (err e, w) = (err e, w)
    found_items keys_only (ok items, w) =
        let (rs, w') = next_values keys_only items w in (ok rs, w')

    unfoldable pub query_entries : Query → Exec (World N) (List (Result Entry))
    unfolding normalize_prefix
    query_entries q w =
        let listed = on_index (list key_leb (normalize_prefix q.prefix) q.limit q.offset) w in
        let results = found_items q.keys_only listed in
        if q.is_ordered || q.is_filtered
        then (err (failure "filters or orders are not supported"), w)
        else results

    -- The entries of the items, as the tables have them.
    abbrev pub listed_entries : List ListItem → List (Result Entry)
    listed_entries = map (λ it. ok (record { key = it.key; size = it.size; value = none }))

    next_values-keys_only :
        (items : List ListItem) (w : World N) → next_values true items w ≡ (listed_entries items, w)
    unfolding next_values
    next_values-keys_only [] w = refl
    next_values-keys_only (it ∷ items) w = rw (next_values-keys_only items w) refl

    -- Without database faults, a query for keys, without orders, filters and paging, yields the items of a
    -- listing: their keys are exactly those that are staged or indexed and match the normalized prefix, and an item
    -- with a key and a size is among them exactly when a row of one of the two tables has this key and
    -- this size and the key matches. An entry has no value, and the query does not call Walrus.
    pub query_entries-keys_only :
        (prefix : String) (w : World N)
        → (items : List ListItem) × ((query_entries (plain_query prefix) (calm w)).0
            ≡ ok (listed_entries items))
          × ((query_entries (plain_query prefix) (calm w)).1.net ≡ w.net)
          × ((key : String)
              → contains (item_keys items) key
                ≡ (is_listed (normalize_prefix prefix) key && is_known w.pg.tables key))
          × ((it : ListItem)
              → is_item items it ≡ (
                  is_listed (normalize_prefix prefix) it.key
                  && (in_index w.pg.tables.index it || in_staging w.pg.tables.staging it)))
    unfolding query_entries list query
    query_entries-keys_only prefix w =
        let items =
          list_items key_leb (normalize_prefix prefix) (pos 0) (pos 0) w.pg.now w.pg.tables in
        (
          items,
          rw next_values-keys_only refl,
          rw next_values-keys_only refl,
          contains-list_items key_leb (normalize_prefix prefix) w.pg.now w.pg.tables,
          is_item-list_items key_leb (normalize_prefix prefix) w.pg.now w.pg.tables,
        )
