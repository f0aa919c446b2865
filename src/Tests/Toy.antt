-- ===== src/Tests/Toy.antt =====
-- A Walrus of which every blob ID spells out the content, as a content address stands for it: it
-- needs no state, and has the laws that the datastore relies on.
pub mod Accepting
use Prim.Native.Char.{code}
use go_ds_s3_walrus.Common.{
  ℕ, zero, suc, ◌+◌, String, Bool, true, ◌&&◌, ◌≡◌, ◌≢◌, refl, ap, ◌∙◌, List, [], ◌∷◌, map, take,
  drop, All, All-map, arith, if◌then◌else◌, ◌==◌, eq_iff, str_eq, inl, inr, Bool-cases,
}
use go_ds_s3_walrus.Common.Int.{pos, pos_part}
use go_ds_s3_walrus.Common.Result.{Result, ok, err, failure}
use go_ds_s3_walrus.Index.{Bytes}
use go_ds_s3_walrus.Client.{StoreResult, QuiltPart, QuiltPatch, QuiltStoreResult, WalrusClient}
use go_ds_s3_walrus.Datastore.Walrus.{IsWalrus}
use go_ds_s3_walrus.Datastore.Store.{read_record}

-- A byte as so many ones and a zero.
spell_byte : ℕ → String → String
spell_byte zero rest = String.◌∷◌ "0" rest
spell_byte (suc n) rest = String.◌∷◌ "1" (spell_byte n rest)

spell : Bytes → String
unfolding spell_byte
spell [] = ""
spell (b ∷ v) = spell_byte b (spell v)

unspell : ℕ → String → Bytes
unspell n String.[] = []
unspell n (String.◌∷◌ c s) =
    let more = unspell (n + 1) s in
    let done = n ∷ unspell 0 s in if code c == 49 then more else done

unspell-spell_byte : (n b : ℕ) (s : String) → unspell n (spell_byte b s) ≡ ((n + b) ∷ unspell 0 s)
unfolding unspell spell_byte
unspell-spell_byte n zero s = ground arith
unspell-spell_byte n (suc b) s =
    unspell-spell_byte (n + 1) b s ∙ ap (λ m. m ∷ unspell 0 s) (omega arith)

unspell-spell : (v : Bytes) → unspell 0 (spell v) ≡ v
unfolding spell
unspell-spell [] = unfold unspell in refl
unspell-spell (b ∷ v) =
    unspell-spell_byte 0 b (spell v)
    ∙ ap (λ n. n ∷ unspell 0 (spell v)) (omega arith)
    ∙ ap (λ u. b ∷ u) (unspell-spell v)

patch_content : String → Bytes
unfolding unspell
patch_content String.[] = []
patch_content (String.◌∷◌ c s) = unspell 0 s

to_patch : QuiltPart → QuiltPatch
unfolding spell
to_patch q = record { identifier = q.identifier; quilt_patch_id = String.◌∷◌ "q" (spell q.content) }

-- A quilt is refused when two of its parts share an identifier and differ.
agree : QuiltPart → QuiltPart → Bool
unfolding spell
agree p q =
    if str_eq q.identifier p.identifier then str_eq (spell q.content) (spell p.content) else true

all_parts : (QuiltPart → Bool) → List QuiltPart → Bool
all_parts f [] = true
all_parts f (p ∷ parts) = f p && all_parts f parts

all_parts-All :
    (f : QuiltPart → Bool) (parts : List QuiltPart)
    → all_parts f parts ≡ true
    → All (λ p. f p ≡ true) parts
unfolding all_parts
all_parts-All f [] h = tt
all_parts-All f (p ∷ parts) h = (ground (arith, h), all_parts-All f parts (ground (arith, h)))

quilt_of : List QuiltPart → QuiltStoreResult
unfolding to_patch
quilt_of parts = record {
  quilt_id = "quilt";
  object_id = "object";
  end_epoch = 7;
  encoded_size = pos 0;
  cost = 5;
  patches = map to_patch parts;
}

blob_of : Bytes → StoreResult
unfolding spell
blob_of v = record {
  blob_id = spell v;
  object_id = "object";
  end_epoch = 7;
  encoded_size = pos 0;
  cost = 5;
}

store_parts : List QuiltPart → Result QuiltStoreResult
unfolding agree all_parts quilt_of
store_parts parts =
    if all_parts (λ p. all_parts (agree p) parts) parts
    then ok (quilt_of parts)
    else err (failure "identifiers are not distinct")

unfoldable pub toy : WalrusClient (Unit {0})
unfolding blob_of store_parts unspell patch_content
toy = record {
  store = λ v epochs deletable n. (ok (blob_of v), n);
  store_quilt = λ parts epochs deletable n. (store_parts parts, n);
  read = λ id n. (ok (unspell 0 id), n);
  read_range =
      λ id offset len n. (ok (take (pos_part len) (drop (pos_part offset) (unspell 0 id))), n);
  read_quilt_patch = λ id n. (ok (patch_content id), n);
}

patch_reads :
    (p : QuiltPart) (qs : List QuiltPart)
    → All (λ q. agree p q ≡ true) qs
    → All
        (λ (q : QuiltPart).
          q.identifier ≡ p.identifier → patch_content (to_patch p).quilt_patch_id ≡ q.content)
        qs
unfolding agree to_patch patch_content
patch_reads p [] h = tt
patch_reads p (q ∷ qs) h = (
  λ same.
      let spelled : spell p.content ≡ spell q.content = ground (
        arith,
        h.0,
        same,
        eq_iff q.identifier p.identifier,
        eq_iff (spell q.content) (spell p.content),
      ) in
      ap (unspell 0) spelled ∙ unspell-spell q.content,
  patch_reads p qs h.1,
)

All-reads :
    (parts ps : List QuiltPart)
    → All (λ p. all_parts (agree p) parts ≡ true) ps
    → All
        (λ (p : QuiltPatch).
          (p.quilt_patch_id ≢ "")
          × All
              (λ (q : QuiltPart).
                q.identifier ≡ p.identifier
                → (toy.read_quilt_patch p.quilt_patch_id tt).0 ≡ ok q.content)
              parts)
        (map to_patch ps)
unfolding toy to_patch
All-reads parts [] h = tt
All-reads parts (p ∷ ps) h = (
  (
    λ e. absurd (cc e),
    All-map _ _ parts (λ q reads same. ap ok (reads same))
        (patch_reads p parts (all_parts-All (agree p) parts h.0)),
  ),
  All-reads parts ps h.1,
)

stored :
    (parts : List QuiltPart) (res : QuiltStoreResult)
    → store_parts parts ≡ ok res
    → (res ≡ quilt_of parts) × (all_parts (λ p. all_parts (agree p) parts) parts ≡ true)
unfolding store_parts
stored parts res h = elim (Bool-cases (all_parts (λ p. all_parts (agree p) parts) parts)) [
  | inl good ↦ (cc (rw good at h), good)
  | inr bad ↦ absurd (cc (rw bad at h))
]

pub toy-IsWalrus : IsWalrus toy
unfolding toy read_record blob_of quilt_of
toy-IsWalrus = record {
  store_keeps = λ v epochs deletable n rec b h. h;
  store_quilt_keeps = λ parts epochs deletable n rec b h. h;
  range_of_stored = λ v epochs deletable n res offset len h fits.
      let shape : res ≡ blob_of v = cc h in rw (shape, unspell-spell);
  read_keeps = λ id n rec b h. h;
  range_of_blob =
      λ id n content offset len h fits. let same : unspell 0 id ≡ content = cc h in rw same;
  patch_of_quilt = λ parts epochs deletable n res h.
      let (shape, good) = stored parts res h in
      rw shape (All-reads parts parts (all_parts-All (λ p. all_parts (agree p) parts) parts good));
  store_words = λ v epochs deletable n res h.
      let shape : res ≡ blob_of v = cc h in rw shape (omega arith, omega arith);
  quilt_words =
      λ parts epochs deletable n res h. rw (stored parts res h).0 (omega arith, omega arith);
}
