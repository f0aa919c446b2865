-- ===== src/Datastore/Identified.antt =====
-- The blocks of a pack of walrus.go by the identifiers of a quilt, and by their place in a blob.
use mathlib.Core.Path.{subst}
use go_ds_s3_walrus.Common.{
  ℕ, ◌+◌, String, ◌≡◌, refl, ap, Option, some, List, [], ◌∷◌, ◌++◌, take, drop, length, All, eq_iff,
  arith, ◌⊎◌, inl, inr, take-length_append, drop-length_append,
}
use go_ds_s3_walrus.Common.Decimal.{itoa}
use go_ds_s3_walrus.Common.Result.{ok}
use go_ds_s3_walrus.Index.{Bytes, KeyRecord}
use go_ds_s3_walrus.Index.View.{IsWord}
use go_ds_s3_walrus.Client.{QuiltPart, WalrusClient}
use go_ds_s3_walrus.Datastore.{BlockEntry}
use go_ds_s3_walrus.Datastore.Store.{read_record}
use go_ds_s3_walrus.Datastore.Upload.{parts_from, block_by_id}

module _ {N : Type 0} (client : WalrusClient N) (value_of : String → Option Bytes) where
  -- What `value_of` gives for a key, if anything, is `v`.
  abbrev pub Agrees : String → Bytes → Type 0
  Agrees key v = (u : Bytes) → value_of key ≡ some u → u ≡ v

  -- At the network `n`, a record reads a value that agrees with its key.
  abbrev pub Reads : N → KeyRecord → Type 0
  Reads n kr =
      (v : Bytes) × Agrees kr.key v × ((read_record client kr.rec n).0 ≡ ok v) × IsWord kr.rec

  -- The blocks of a pack agree with their keys.
  abbrev pub Holds : List BlockEntry → Type 0
  Holds = All (λ e. Agrees e.key e.val)

-- The bytes of a block stand in the blob at the offset that its record has.
pub slice_middle :
    {A : Type 0} (before val after : List A)
    → take (length val) (drop (length before) (before ++ (val ++ after))) ≡ val
slice_middle before val after =
    rw (drop-length_append before (val ++ after)) (take-length_append val after)

pub take-length : {A : Type 0} (xs : List A) → take (length xs) xs ≡ xs
take-length [] = refl
take-length (x ∷ xs) = ap (◌∷◌ x) (take-length xs)

pub block_by_id-cases :
    (i : ℕ) (f : BlockEntry) (pack : List BlockEntry) (id : String) (e : BlockEntry)
    → block_by_id i (f ∷ pack) id ≡ some e
    → (block_by_id (i + 1) pack id ≡ some e) ⊎ ((itoa i ≡ id) × (f ≡ e))
unfolding block_by_id
block_by_id-cases i f pack id e b = ground (arith, eq_iff (itoa i) id)

-- The block for an identifier is a block of the pack, and the content of the part so named.
pub block_by_id-All :
    (P : BlockEntry → Type 0) (i : ℕ) (pack : List BlockEntry) (id : String) (e : BlockEntry)
    → All P pack
    → block_by_id i pack id ≡ some e
    → P e
block_by_id-All P i [] id e h b = absurd (unfold block_by_id in cc b)
block_by_id-All P i (f ∷ pack) id e h b = elim (block_by_id-cases i f pack id e b) [
  | inl later ↦ block_by_id-All P (i + 1) pack id e h.1 later
  | inr (_, here) ↦ subst P here h.0
]

pub part_by_id :
    (P : Bytes → Type 0) (i : ℕ) (pack : List BlockEntry) (id : String) (e : BlockEntry)
    → All (λ (q : QuiltPart). q.identifier ≡ id → P q.content) (parts_from i pack)
    → block_by_id i pack id ≡ some e
    → P e.val
unfolding parts_from
part_by_id P i [] id e h b = absurd (unfold block_by_id in cc b)
part_by_id P i (f ∷ pack) id e h b = elim (block_by_id-cases i f pack id e b) [
  | inl later ↦ part_by_id P (i + 1) pack id e h.1 later
  | inr (same, here) ↦ subst (λ (x : BlockEntry). P x.val) here (h.0 same)
]
