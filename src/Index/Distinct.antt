-- ===== src/Index/Distinct.antt =====
-- Lists of keys without duplicates.
use go_ds_s3_walrus.Common.{String, Bool, true, ◌&&◌, not, List, [], ◌∷◌, contains}

-- Whether no text stands twice in a list.
abbrev pub distinct : List String → Bool
distinct [] = true
distinct (k ∷ ks) = not (contains ks k) && distinct ks
