-- ===== src/Cache.antt =====
-- cache.go: a byte-bounded cache of whole blobs, the least recently used of which go first.
pub mod Elements
pub mod Links
pub mod Laws
pub mod Contents
pub mod Added
pub mod Runs
use go_ds_s3_walrus.Common.{
  ℕ, zero, suc, String, Bool, true, false, Option, none, some, List, [], ◌∷◌, length, if◌then◌else◌,
  ◌==◌,
}
use go_ds_s3_walrus.Common.Int.{ℤ, pos, negsuc, leb_ℤ, ltb_ℤ, add64, sub64, div64}
use go_ds_s3_walrus.Common.Assoc.{Assoc, lookup, insert, remove_all}
use go_ds_s3_walrus.Index.{Bytes}

-- A `*list.Element` is a number; its `*cacheEntry` stands beside it in the list.
pub record Element : Type 0 where
  pub id : ℕ
  pub key : String
  pub content : Bytes

-- `fresh` is the next element that PushFront makes.
pub record BlobCache : Type 0 where
  pub ll : List Element
  pub items : Assoc ℕ
  pub fresh : ℕ
  pub cur_bytes : ℤ
  pub max_bytes : ℤ
  pub max_entry_size : ℤ

abbrev pub empty_cache : ℤ → ℤ → BlobCache
empty_cache max_bytes max_entry = record {
  ll = [];
  items = [];
  fresh = 0;
  cur_bytes = pos 0;
  max_bytes = max_bytes;
  max_entry_size = max_entry;
}

-- The nil pointer of a cache without a budget is `none`.
unfoldable pub new_blob_cache : ℤ → Option BlobCache
new_blob_cache max_bytes =
    let max_entry = div64 max_bytes (pos 4) in
    if leb_ℤ max_bytes (pos 0)
    then none
    else some (empty_cache max_bytes (if leb_ℤ max_entry (pos 0) then max_bytes else max_entry))

unfoldable pub element : ℕ → List Element → Option Element
element i [] = none
element i (e ∷ ll) = let rest = element i ll in if e.id == i then some e else rest

-- `c.ll.Remove(el)`.
unfoldable pub removed : ℕ → List Element → List Element
removed i [] = []
removed i (e ∷ ll) = let rest = removed i ll in if e.id == i then rest else e ∷ rest

-- `c.ll.Back()`.
unfoldable pub back : List Element → Option Element
back [] = none
back (e ∷ []) = some e
back (e ∷ f ∷ ll) = back (f ∷ ll)

-- MoveToFront of an element with its data; the list has every element that `items` names.
abbrev pub hit : BlobCache → Option Element → Option Bytes × BlobCache
hit c none = (none, c)
hit c (some e) = (some e.content, record c { ll = e ∷ removed e.id c.ll })

abbrev pub get_entry : BlobCache → Option ℕ → Option Bytes × BlobCache
get_entry c none = (none, c)
get_entry c (some i) = hit c (element i c.ll)

unfoldable pub get : String → BlobCache → Option Bytes × BlobCache
get key c = get_entry c (lookup key c.items)

-- The data of an element is replaced, and the element goes to the front.
abbrev pub replace : Bytes → BlobCache → Option Element → BlobCache
replace content c none = c
replace content c (some old) = record c {
  cur_bytes = add64 c.cur_bytes (sub64 (pos (length content)) (pos (length old.content)));
  ll = record old { content = content } ∷ removed old.id c.ll;
}

abbrev pub write : String → Bytes → BlobCache → Option ℕ → BlobCache
write key content c (some i) = replace content c (element i c.ll)
write key content c none = record c {
  ll = record { id = c.fresh; key = key; content = content } ∷ c.ll;
  items = insert key c.fresh c.items;
  fresh = suc c.fresh;
  cur_bytes = add64 c.cur_bytes (pos (length content));
}

-- The body of the loop, for the element at the back: none ends the loop.
abbrev pub drop_element : BlobCache → Element → BlobCache
drop_element c e = record c {
  ll = removed e.id c.ll;
  items = remove_all (e.key ∷ []) c.items;
  cur_bytes = sub64 c.cur_bytes (pos (length e.content));
}

abbrev pub drop_back : (BlobCache → BlobCache) → BlobCache → Option Element → BlobCache
drop_back more c none = c
drop_back more c (some e) = more (drop_element c e)

-- The loop that evicts, with fuel for its rounds: each drops an element.
unfoldable pub evict : ℕ → BlobCache → BlobCache
evict zero c = c
evict (suc fuel) c =
    let rest = drop_back (evict fuel) c (back c.ll) in
    if ltb_ℤ c.max_bytes c.cur_bytes then rest else c

unfoldable pub add : String → Bytes → BlobCache → BlobCache
add key content c =
    let written = write key content c (lookup key c.items) in
    if ltb_ℤ c.max_entry_size (pos (length content)) then c else evict (length written.ll) written

-- The methods of a nil cache.
unfoldable pub get_or_nil : String → Option BlobCache → Option Bytes × Option BlobCache
get_or_nil key none = (none, none)
get_or_nil key (some c) = let (r, c') = get key c in (r, some c')

unfoldable pub add_or_nil : String → Bytes → Option BlobCache → Option BlobCache
add_or_nil key content none = none
add_or_nil key content (some c) = some (add key content c)
