-- ===== src/Index/Sizes.antt =====
-- The sizes that `GetSize`, `StageGetSize` and `List` of index.go give.
use go_ds_s3_walrus.Common.{
  ℕ, String, Bool, false, true, ◌&&◌, ◌||◌, ◌≡◌, refl, ap, ◌∙◌, Option, none, some, List, [], ◌∷◌,
  ◌++◌, str_eq, eq_iff, arith,
}
use mathlib.Core.Option
use go_ds_s3_walrus.Common.Int.{ℤ, pos, eq_ℤ}
use go_ds_s3_walrus.Common.Assoc.{Assoc, lookup}
use go_ds_s3_walrus.Index.{ListItem, Row, StageRow, Tables}
use go_ds_s3_walrus.Index.Listing.{
  is_listed, listed_rows, listed_staged, is_item, union_items, page, insert_item, by_key,
  list_items,
}

abbrev or_size : Option ℤ → Option ℤ → Option ℤ
or_size none b = b
or_size (some n) b = some n

-- The size of a key: that of its staged row, and otherwise that of its row of the index.
abbrev pub known_size : Tables → String → Option ℤ
known_size t key =
    or_size (Option.map (λ (row : StageRow). row.size) (lookup key t.staging))
      (Option.map (λ (row : Row). row.size) (lookup key t.index))

abbrev pub same_item : ListItem → ListItem → Bool
same_item y x = str_eq y.key x.key && eq_ℤ y.size x.size

-- Whether a row of the tables has the key and the size of an item.
abbrev pub in_index : Assoc Row → ListItem → Bool
in_index [] it = false
in_index ((k, row) ∷ t) it = same_item (record { key = k; size = row.size }) it || in_index t it

abbrev pub in_staging : Assoc StageRow → ListItem → Bool
in_staging [] it = false
in_staging ((k, row) ∷ t) it = same_item (record { key = k; size = row.size }) it || in_staging t it

is_item-append :
    (xs ys : List ListItem) (it : ListItem)
    → is_item (xs ++ ys) it ≡ (is_item xs it || is_item ys it)
is_item-append [] ys it = refl
is_item-append (x ∷ xs) ys it = ground (arith, is_item-append xs ys it)

is_item-same :
    (xs : List ListItem) (x it : ListItem)
    → is_item xs x ≡ true
    → same_item x it ≡ true
    → is_item xs it ≡ true
is_item-same [] x it h e = h
is_item-same (y ∷ ys) x it h e = ground (
  arith,
  h,
  e,
  is_item-same ys x it,
  eq_iff y.key x.key,
  eq_iff x.key it.key,
  eq_iff y.key it.key,
)

is_item-union_items :
    (xs : List ListItem) (it : ListItem) → is_item (union_items xs) it ≡ is_item xs it
unfolding union_items
is_item-union_items [] it = refl
is_item-union_items (x ∷ xs) it = ground (arith, is_item-union_items xs it, is_item-same xs x it)

is_item-listed_rows :
    (prefix : String) (t : Assoc Row) (it : ListItem)
    → is_item (listed_rows prefix t) it ≡ (is_listed prefix it.key && in_index t it)
unfolding listed_rows
is_item-listed_rows prefix [] it = ground arith
is_item-listed_rows prefix ((j, row) ∷ t) it =
    ground (arith, is_item-listed_rows prefix t it, eq_iff j it.key)

is_item-listed_staged :
    (prefix : String) (t : Assoc StageRow) (it : ListItem)
    → is_item (listed_staged prefix t) it ≡ (is_listed prefix it.key && in_staging t it)
unfolding listed_staged
is_item-listed_staged prefix [] it = ground arith
is_item-listed_staged prefix ((j, row) ∷ t) it =
    ground (arith, is_item-listed_staged prefix t it, eq_iff j it.key)

module _ (key_leb : String → String → Bool) where
  is_item-insert_item :
      (x : ListItem) (xs : List ListItem) (it : ListItem)
      → is_item (insert_item key_leb x xs) it ≡ (same_item x it || is_item xs it)
  unfolding insert_item
  is_item-insert_item x [] it = refl
  is_item-insert_item x (y ∷ ys) it = ground (arith, is_item-insert_item x ys it)

  is_item-by_key :
      (xs : List ListItem) (it : ListItem) → is_item (by_key key_leb xs) it ≡ is_item xs it
  unfolding by_key
  is_item-by_key [] it = refl
  is_item-by_key (x ∷ xs) it =
      is_item-insert_item x (by_key key_leb xs) it
      ∙ ap (λ b. same_item x it || b) (is_item-by_key xs it)

  -- Without a limit and an offset a listing has exactly the rows of both tables whose keys match the
  -- prefix, with their sizes.
  pub is_item-list_items :
      (prefix : String) (now : ℕ) (t : Tables) (it : ListItem)
      → is_item (list_items key_leb prefix (pos 0) (pos 0) now t) it
        ≡ (is_listed prefix it.key && (in_index t.index it || in_staging t.staging it))
  unfolding list_items page
  is_item-list_items prefix now t it =
      let rows = listed_rows prefix t.index ++ listed_staged prefix t.staging in
      is_item-by_key (union_items rows) it
      ∙ is_item-union_items rows it
      ∙ is_item-append (listed_rows prefix t.index) (listed_staged prefix t.staging) it
      ∙ ground
          (arith, is_item-listed_rows prefix t.index it, is_item-listed_staged prefix t.staging it)
