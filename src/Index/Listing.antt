-- ===== src/Index/Listing.antt =====
-- `List` of index.go: the keys of both tables at or below a prefix.
use Prim.Native.Char.{Char, code}
use go_ds_s3_walrus.Common.{
  ℕ, String, Bool, true, false, ◌&&◌, ◌||◌, List, [], ◌∷◌, ◌++◌, take, drop, str_eq, if◌then◌else◌,
  ◌==◌,
}
use go_ds_s3_walrus.Common.Int.{ℤ, pos, pos_part, ltb_ℤ, eq_ℤ}
use go_ds_s3_walrus.Common.Assoc.{Assoc}
use go_ds_s3_walrus.Common.Result.{Exec}
use go_ds_s3_walrus.Index.{ListItem, Row, StageRow, Tables}
use go_ds_s3_walrus.Index.Postgres.{Pg, query}

-- LIKE of Postgres: `%` stands for any text, `_` for any character, and `\` takes the next character
-- for itself. The flag says that a `\` stands before. (A pattern of `List` ends with `%`.)
abbrev pub any_text : (String → Bool) → String → Bool
any_text more String.[] = more ""
any_text more (String.◌∷◌ c s) = let rest = any_text more s in more (String.◌∷◌ c s) || rest

abbrev pub any_char : (String → Bool) → String → Bool
any_char more String.[] = false
any_char more (String.◌∷◌ c s) = more s

abbrev pub this_char : Char → (String → Bool) → String → Bool
this_char d more String.[] = false
this_char d more (String.◌∷◌ c s) = let rest = more s in code c == code d && rest

abbrev pub nothing_left : String → Bool
nothing_left String.[] = true
nothing_left (String.◌∷◌ c s) = false

unfoldable pub like : Bool → String → String → Bool
like quoted String.[] s = nothing_left s
like quoted (String.◌∷◌ d p) s =
    let rest = like false p in
    let rest_quoted = like true p in
    if quoted
    then this_char d rest s
    else if code d == 37
    then any_text rest s
    else if code d == 95
    then any_char rest s
    else if code d == 92
    then rest_quoted s
    else this_char d rest s

-- `prefix + "/%"`.
unfoldable pub below : String → String
below String.[] = "/%"
below (String.◌∷◌ c s) = String.◌∷◌ c (below s)

-- The WHERE clause: none for the root.
unfoldable pub is_listed : String → String → Bool
is_listed prefix key =
    if str_eq prefix "" || str_eq prefix "/"
    then true
    else str_eq key prefix || like false (below prefix) key

-- SELECT key, size from a table.
unfoldable pub listed_rows : String → Assoc Row → List ListItem
listed_rows prefix [] = []
listed_rows prefix ((k, row) ∷ t) =
    let rest = listed_rows prefix t in
    if is_listed prefix k then record { key = k; size = row.size } ∷ rest else rest

unfoldable pub listed_staged : String → Assoc StageRow → List ListItem
listed_staged prefix [] = []
listed_staged prefix ((k, row) ∷ t) =
    let rest = listed_staged prefix t in
    if is_listed prefix k then record { key = k; size = row.size } ∷ rest else rest

-- UNION drops a row that stands again further on.
abbrev pub is_item : List ListItem → ListItem → Bool
is_item [] x = false
is_item (y ∷ ys) x = (str_eq y.key x.key && eq_ℤ y.size x.size) || is_item ys x

unfoldable pub union_items : List ListItem → List ListItem
union_items [] = []
union_items (x ∷ xs) = let rest = union_items xs in if is_item xs x then rest else x ∷ rest

-- LIMIT and OFFSET, which are left out where they are not above zero.
unfoldable pub page : ℤ → ℤ → List ListItem → List ListItem
page limit offset items =
    let rest = if ltb_ℤ (pos 0) offset then drop (pos_part offset) items else items in
    if ltb_ℤ (pos 0) limit then take (pos_part limit) rest else rest

-- ORDER BY key, in the collation of the database.
module _ (key_leb : String → String → Bool) where
  unfoldable pub insert_item : ListItem → List ListItem → List ListItem
  insert_item x [] = x ∷ []
  insert_item x (y ∷ ys) =
      let rest = insert_item x ys in if key_leb x.key y.key then x ∷ y ∷ ys else y ∷ rest

  unfoldable pub by_key : List ListItem → List ListItem
  by_key [] = []
  by_key (x ∷ xs) = insert_item x (by_key xs)

  unfoldable pub list_items : String → ℤ → ℤ → ℕ → Tables → List ListItem
  list_items prefix limit offset now t =
      page limit offset
        (by_key (union_items (listed_rows prefix t.index ++ listed_staged prefix t.staging)))

  unfoldable pub list : String → ℤ → ℤ → Exec Pg (List ListItem)
  list prefix limit offset = query "index list" (list_items prefix limit offset)
