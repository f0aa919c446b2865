-- ===== src/Common/Texts.antt =====
-- Texts one after the other.
use go_ds_s3_walrus.Common.{String, ◌≢◌, ap}

unfoldable pub append : String → String → String
append String.[] t = t
append (String.◌∷◌ c s) t = String.◌∷◌ c (append s t)

abbrev tail : String → String
tail String.[] = ""
tail (String.◌∷◌ c s) = s

-- A text with something after it is another text.
pub append-longer : (s t : String) → t ≢ "" → append s t ≢ s
unfolding append
append-longer String.[] t h e = h e
append-longer (String.◌∷◌ c s) t h e = append-longer s t h (ap tail e)
