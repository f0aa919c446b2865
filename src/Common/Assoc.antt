-- ===== src/Common/Assoc.antt =====
-- Tables and maps with text keys, as association lists.
use mathlib.Core.Option
use mathlib.Core.Path.{◌≡◌, refl}
use mathlib.Core.Bool.{Bool, true}
use mathlib.Core.Option.{Option, none, some}
use mathlib.Core.List.{List, [], ◌∷◌}
use Prim.Native.String.{String}
use native.Mathlib.Omega.{arith}
use text.Mathlib.Text.{◌==◌ as str_eq}
use text.Mathlib.TextEquality.{eq_iff}
use go_ds_s3_walrus.Common.Tests.{if◌then◌else◌}
use go_ds_s3_walrus.Common.Lists.{contains}

abbrev pub Assoc {ℓ} : Type ℓ → Type ℓ
Assoc V = List (String × V)

contains_of_eq :
    (ks : List String) (i j : String) → str_eq i j ≡ true → contains ks i ≡ contains ks j
contains_of_eq ks i j h = ground (arith, eq_iff i j)

module _ {ℓ} {V : Type ℓ} where
  -- The entries of a table that `keys` does not name.
  unfoldable pub remove_all : List String → Assoc V → Assoc V
  remove_all keys [] = []
  remove_all keys ((key, v) ∷ table) =
      let rest = remove_all keys table in if contains keys key then rest else (key, v) ∷ rest

  unfoldable pub map_values : (String → V → V) → Assoc V → Assoc V
  map_values f [] = []
  map_values f ((key, v) ∷ table) = (key, f key v) ∷ map_values f table

  here_or : Bool → V → Option V → Option V
  here_or same v other = if same then some v else other

  unfoldable pub lookup : String → Assoc V → Option V
  unfolding here_or
  lookup key [] = none
  lookup key ((key', v) ∷ table) = here_or (str_eq key' key) v (lookup key table)

  -- Writes a key, in place if it is there.
  unfoldable pub insert : String → V → Assoc V → Assoc V
  insert key new [] = (key, new) ∷ []
  insert key new ((key', v) ∷ table) =
      let kept = (key', v) ∷ insert key new table in
      if str_eq key' key then (key, new) ∷ table else kept

  pub lookup-remove_all :
      (keys : List String) (key : String) (table : Assoc V)
      → lookup key (remove_all keys table) ≡ (if contains keys key then none else lookup key table)
  unfolding lookup remove_all
  lookup-remove_all keys key [] = ground arith
  lookup-remove_all keys key ((key', v) ∷ table) =
      ground
        (arith, eq_iff key' key, contains_of_eq keys key' key, lookup-remove_all keys key table)

  pub lookup-map_values :
      (f : String → V → V) (key : String) (table : Assoc V)
      → lookup key (map_values f table) ≡ Option.map (f key) (lookup key table)
  unfolding lookup map_values
  lookup-map_values f key [] = refl
  lookup-map_values f key ((key', v) ∷ table) =
      ground (arith, eq_iff key' key, lookup-map_values f key table)

  pub lookup-insert :
      (key : String) (new : V) (table : Assoc V) (other : String)
      → lookup other (insert key new table)
        ≡ (if str_eq key other then some new else lookup other table)
  unfolding lookup insert
  lookup-insert key new [] other = refl
  lookup-insert key new ((key', v) ∷ table) other =
      let rest = lookup-insert key new table other in
      ground (arith, rest, eq_iff key' key, eq_iff key other, eq_iff key' other)
