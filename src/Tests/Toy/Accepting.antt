-- ===== src/Tests/Toy/Accepting.antt =====
-- The Walrus of the tests accepts every quilt whose parts have names of their own.
use mathlib.Core.List.Permᴰ
use go_ds_s3_walrus.Common.{
  Bool, true, false, ◌&&◌, ◌≡◌, refl, ap, List, [], ◌∷◌, map, contains, arith, eq_iff,
}
use go_ds_s3_walrus.Index.Distinct.{distinct}
use go_ds_s3_walrus.Client.{QuiltPart}
use go_ds_s3_walrus.Datastore.Drain.Parts.{part_ids, patch_ids, Accepts}
use go_ds_s3_walrus.Tests.Toy.{
  spell, agree, all_parts, to_patch, quilt_of, blob_of, store_parts, toy,
}

all_parts-and :
    (f g : QuiltPart → Bool) (qs : List QuiltPart)
    → all_parts f qs ≡ true
    → all_parts g qs ≡ true
    → all_parts (λ q. f q && g q) qs ≡ true
unfolding all_parts
all_parts-and f g [] h k = refl
all_parts-and f g (q ∷ qs) h k = ground (arith, h, k, all_parts-and f g qs)

agree_others :
    (p : QuiltPart) (qs : List QuiltPart)
    → contains (part_ids qs) p.identifier ≡ false
    → (all_parts (agree p) qs ≡ true) × (all_parts (λ q. agree q p) qs ≡ true)
unfolding agree all_parts
agree_others p [] h = (refl, refl)
agree_others p (q ∷ qs) h = (
  ground (arith, h, (agree_others p qs (ground (arith, h))).0),
  ground (
    arith,
    h,
    eq_iff q.identifier p.identifier,
    eq_iff p.identifier q.identifier,
    (agree_others p qs (ground (arith, h))).1,
  ),
)

agree_self : (p : QuiltPart) → agree p p ≡ true
unfolding agree
agree_self p = ground (arith, eq_iff (spell p.content) (spell p.content))

all_agree :
    (parts : List QuiltPart)
    → distinct (part_ids parts) ≡ true
    → all_parts (λ p. all_parts (agree p) parts) parts ≡ true
unfolding all_parts
all_agree [] d = refl
all_agree (p ∷ parts) d =
    let (out, back) = agree_others p parts (ground (arith, d)) in
    let rest = all_agree parts (ground (arith, d)) in
    rw (agree_self p, out)
      (all_parts-and (λ q. agree q p) (λ q. all_parts (agree q) parts) parts back rest)

patch_ids-to_patch : (parts : List QuiltPart) → patch_ids (map to_patch parts) ≡ part_ids parts
unfolding to_patch
patch_ids-to_patch [] = refl
patch_ids-to_patch (p ∷ parts) = ap (λ ks. p.identifier ∷ ks) (patch_ids-to_patch parts)

pub toy-Accepts : Accepts toy
unfolding toy store_parts quilt_of
toy-Accepts = record {
  stored = λ v epochs deletable n. (blob_of v, refl);
  quilted = λ parts epochs deletable n d.
      (quilt_of parts, rw (all_agree parts d) refl, rw (patch_ids-to_patch parts) (Permᴰ.refl _));
}
