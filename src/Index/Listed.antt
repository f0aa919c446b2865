-- ===== src/Index/Listed.antt =====
-- `List` of index.go: which keys it lists, and its patterns.
use Prim.Native.Char.{Char, code}
use go_ds_s3_walrus.Common.{
  ℕ, String, Bool, true, false, ◌&&◌, ◌||◌, ◌≡◌, refl, ap, ◌∙◌, List, [], ◌∷◌, ◌++◌, map, contains,
  str_eq, eq_iff, arith, if◌then◌else◌, ◌==◌,
}
use go_ds_s3_walrus.Common.Int.{pos}
use go_ds_s3_walrus.Common.Assoc.{Assoc, lookup}
use go_ds_s3_walrus.Index.{ListItem, Row, StageRow, Tables}
use go_ds_s3_walrus.Index.Listing.{
  any_text, nothing_left, like, below, is_listed, listed_rows, listed_staged, is_item, union_items,
  page, insert_item, by_key, list_items,
}
use go_ds_s3_walrus.Index.View.{view}
use go_ds_s3_walrus.Index.Moves.{is_some}
use go_ds_s3_walrus.Index.Known.{is_known}

abbrev pub item_keys : List ListItem → List String
item_keys = map (λ i. i.key)

contains-append :
    (xs ys : List ListItem) (k : String)
    → contains (item_keys (xs ++ ys)) k ≡ (contains (item_keys xs) k || contains (item_keys ys) k)
contains-append [] ys k = refl
contains-append (x ∷ xs) ys k = ground (arith, contains-append xs ys k)

is_item-contains :
    (xs : List ListItem) (x : ListItem) → is_item xs x ≡ true → contains (item_keys xs) x.key ≡ true
is_item-contains [] x h = h
is_item-contains (y ∷ ys) x h = ground (arith, h, is_item-contains ys x)

contains-union_items :
    (xs : List ListItem) (k : String)
    → contains (item_keys (union_items xs)) k ≡ contains (item_keys xs) k
unfolding union_items
contains-union_items [] k = refl
contains-union_items (x ∷ xs) k =
    ground (arith, contains-union_items xs k, is_item-contains xs x, eq_iff x.key k)

contains-listed_rows :
    (prefix : String) (t : Assoc Row) (k : String)
    → contains (item_keys (listed_rows prefix t)) k ≡ (is_listed prefix k && is_some (lookup k t))
unfolding listed_rows lookup
contains-listed_rows prefix [] k = ground arith
contains-listed_rows prefix ((j, row) ∷ t) k =
    ground (arith, contains-listed_rows prefix t k, eq_iff j k)

contains-listed_staged :
    (prefix : String) (t : Assoc StageRow) (k : String)
    → contains (item_keys (listed_staged prefix t)) k ≡ (is_listed prefix k && is_some (lookup k t))
unfolding listed_staged lookup
contains-listed_staged prefix [] k = ground arith
contains-listed_staged prefix ((j, row) ∷ t) k =
    ground (arith, contains-listed_staged prefix t k, eq_iff j k)

module _ (key_leb : String → String → Bool) where
  contains-insert_item :
      (x : ListItem) (xs : List ListItem) (k : String)
      → contains (item_keys (insert_item key_leb x xs)) k
        ≡ (str_eq x.key k || contains (item_keys xs) k)
  unfolding insert_item
  contains-insert_item x [] k = refl
  contains-insert_item x (y ∷ ys) k = ground (arith, contains-insert_item x ys k)

  contains-by_key :
      (xs : List ListItem) (k : String)
      → contains (item_keys (by_key key_leb xs)) k ≡ contains (item_keys xs) k
  unfolding by_key
  contains-by_key [] k = refl
  contains-by_key (x ∷ xs) k =
      contains-insert_item x (by_key key_leb xs) k
      ∙ ap (λ b. str_eq x.key k || b) (contains-by_key xs k)

  -- Without a limit and an offset a listing has exactly the keys that are staged or indexed and match the
  -- prefix, in any collation.
  pub contains-list_items :
      (prefix : String) (now : ℕ) (t : Tables) (k : String)
      → contains (item_keys (list_items key_leb prefix (pos 0) (pos 0) now t)) k
        ≡ (is_listed prefix k && is_known t k)
  unfolding list_items page view
  contains-list_items prefix now t k =
      let rows = listed_rows prefix t.index ++ listed_staged prefix t.staging in
      contains-by_key (union_items rows) k
      ∙ contains-union_items rows k
      ∙ contains-append (listed_rows prefix t.index) (listed_staged prefix t.staging) k
      ∙ ground
          (arith, contains-listed_rows prefix t.index k, contains-listed_staged prefix t.staging k)

-- No character of a text is special in a pattern.
abbrev pub is_special : Char → Bool
is_special c = code c == 37 || (code c == 95 || code c == 92)

abbrev pub IsPlainPrefix : String → Type 0
IsPlainPrefix String.[] = Unit
IsPlainPrefix (String.◌∷◌ c s) = (is_special c ≡ false) × IsPlainPrefix s

-- Whether a key begins with the prefix and a slash.
abbrev pub is_below : String → String → Bool
is_below String.[] String.[] = false
is_below String.[] (String.◌∷◌ c key) = code c == 47
is_below (String.◌∷◌ d prefix) String.[] = false
is_below (String.◌∷◌ d prefix) (String.◌∷◌ c key) = code c == code d && is_below prefix key

any_text-nothing_left : (s : String) → any_text nothing_left s ≡ true
any_text-nothing_left String.[] = refl
any_text-nothing_left (String.◌∷◌ c s) = ground (arith, any_text-nothing_left s)

like-below :
    (prefix key : String)
    → IsPlainPrefix prefix
    → like false (below prefix) key ≡ is_below prefix key
unfolding like below
like-below String.[] String.[] h = refl
like-below String.[] (String.◌∷◌ c key) h = ground (arith, any_text-nothing_left key)
like-below (String.◌∷◌ d prefix) String.[] h = ground (arith, h.0)
like-below (String.◌∷◌ d prefix) (String.◌∷◌ c key) h =
    ground (arith, h.0, like-below prefix key h.1)

-- For a prefix without `%`, `_` and `\` the patterns of the query select exactly the key itself and the keys
-- that begin with the prefix and a slash, and for the root every key.
pub is_listed-is_below :
    (prefix key : String)
    → IsPlainPrefix prefix
    → is_listed prefix key ≡ (
        if str_eq prefix "" || str_eq prefix "/"
        then true
        else str_eq key prefix || is_below prefix key)
unfolding is_listed
is_listed-is_below prefix key h =
    ap (λ b. if str_eq prefix "" || str_eq prefix "/" then true else str_eq key prefix || b)
      (like-below prefix key h)
