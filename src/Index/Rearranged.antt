-- ===== src/Index/Rearranged.antt =====
-- Lists of texts in another order.
use mathlib.Core.List.{Permᴰ}
use go_ds_s3_walrus.Common.{
  String, ◌≡◌, refl, ap, ◌∙◌, List, map, length, contains, arith, eq_iff, suc,
}
use go_ds_s3_walrus.Index.Distinct.{distinct}

pub contains-Perm : {xs ys : List String} (k : String) → Permᴰ xs ys → contains xs k ≡ contains ys k
contains-Perm k Permᴰ.nil = refl
contains-Perm k (Permᴰ.cons e p) = rw (e, contains-Perm k p) refl
contains-Perm k (Permᴰ.swap e f) = rw (e, f) (ground arith)
contains-Perm k (Permᴰ.trans p q) = contains-Perm k p ∙ contains-Perm k q

pub distinct-Perm : {xs ys : List String} → Permᴰ xs ys → distinct xs ≡ distinct ys
distinct-Perm Permᴰ.nil = refl
distinct-Perm (Permᴰ.cons {a} {b} e p) = rw (e, contains-Perm b p, distinct-Perm p) refl
distinct-Perm (Permᴰ.swap {a} {b} {a'} {b'} e f) =
    rw (e, f) (ground (arith, eq_iff a' b', eq_iff b' a'))
distinct-Perm (Permᴰ.trans p q) = distinct-Perm p ∙ distinct-Perm q

pub map-Perm {ℓ κ} :
    {A : Type ℓ} {B : Type κ} (f : A → B) {xs ys : List A}
    → Permᴰ xs ys
    → Permᴰ (map f xs) (map f ys)
map-Perm f Permᴰ.nil = Permᴰ.nil
map-Perm f (Permᴰ.cons e p) = Permᴰ.cons (ap f e) (map-Perm f p)
map-Perm f (Permᴰ.swap e e') = Permᴰ.swap (ap f e) (ap f e')
map-Perm f (Permᴰ.trans p q) = Permᴰ.trans (map-Perm f p) (map-Perm f q)

pub length-Perm {ℓ} : {A : Type ℓ} {xs ys : List A} → Permᴰ xs ys → length xs ≡ length ys
length-Perm Permᴰ.nil = refl
length-Perm (Permᴰ.cons e p) = ap suc (length-Perm p)
length-Perm (Permᴰ.swap e f) = refl
length-Perm (Permᴰ.trans p q) = length-Perm p ∙ length-Perm q
