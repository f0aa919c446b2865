-- ===== src/Common/Rows.antt =====
-- What holds of all rows of a table.
use mathlib.Core.Path.{◌≡◌, subst}
use mathlib.Core.Logic.{inl, inr}
use mathlib.Core.Option.{some}
use mathlib.Core.List.{List, [], ◌∷◌}
use Prim.Native.String.{String}
use text.Mathlib.Text.{◌==◌ as str_eq}
use text.Mathlib.TextEquality.{eq_iff}
use go_ds_s3_walrus.Common.Tests.{Bool-cases}
use go_ds_s3_walrus.Common.Lists.{contains, All}
use go_ds_s3_walrus.Common.Assoc.{Assoc, lookup, insert, remove_all, map_values}

module _ {V : Type 0} (P : String → V → Type 0) where
  abbrev pub Rows : Assoc V → Type 0
  Rows = All (λ e. P e.0 e.1)

  pub Rows-insert :
      (key : String) (new : V) (t : Assoc V) → P key new → Rows t → Rows (insert key new t)
  unfolding insert
  Rows-insert key new [] p h = (p, tt)
  Rows-insert key new ((k, v) ∷ t) p h = elim (Bool-cases (str_eq k key)) [
    | inl same ↦ rw same (p, h.1)
    | inr other ↦ rw other (h.0, Rows-insert key new t p h.1)
  ]

  pub Rows-remove_all : (keys : List String) (t : Assoc V) → Rows t → Rows (remove_all keys t)
  unfolding remove_all
  Rows-remove_all keys [] h = tt
  Rows-remove_all keys ((k, v) ∷ t) h = elim (Bool-cases (contains keys k)) [
    | inl gone ↦ rw gone (Rows-remove_all keys t h.1)
    | inr stays ↦ rw stays (h.0, Rows-remove_all keys t h.1)
  ]

  pub Rows-map_values :
      (f : String → V → V) (t : Assoc V)
      → ((k : String) (v : V) → P k v → P k (f k v))
      → Rows t
      → Rows (map_values f t)
  unfolding map_values
  Rows-map_values f [] keeps h = tt
  Rows-map_values f ((k, v) ∷ t) keeps h = (keeps k v h.0, Rows-map_values f t keeps h.1)

  pub Rows-lookup : (key : String) (t : Assoc V) (v : V) → Rows t → lookup key t ≡ some v → P key v
  unfolding lookup
  Rows-lookup key [] v h e = absurd (cc e)
  Rows-lookup key ((k, x) ∷ t) v h e = elim (Bool-cases (str_eq k key)) [
    | inr other ↦ Rows-lookup key t v h.1 (rw other at e)
    | inl same ↦
        let value : x ≡ v = cc (rw same at e) in
        rw (← value) (subst (λ i. P i x) ((eq_iff k key).0 same) h.0)
  ]
