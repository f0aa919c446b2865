-- ===== src/Datastore/Transparent.antt =====
-- `flushOnePack` of walrus.go, and a `Get` before and after it.
use go_ds_s3_walrus.Common.{
  ◌<◌, String, true, ◌≡◌, ap, sym, ◌∙◌, Option, none, some, List, [], ◌∷◌, length, All, contains,
  arith, inl, inr, Bool-cases, Option-cases, All-map, if◌then◌else◌, str_eq, eq_iff,
}
use mathlib.Core.Path.{subst}
use go_ds_s3_walrus.Common.Int.{half_word}
use go_ds_s3_walrus.Common.Assoc.{lookup}
use go_ds_s3_walrus.Common.Result.{Error, wrapped, ok, err, Result-cases, raise, handle}
use go_ds_s3_walrus.Index.{Bytes, Record, KeyRecord, StageEntry, Tables}
use go_ds_s3_walrus.Index.Postgres.{Pg}
use go_ds_s3_walrus.Index.Write.{keys_of, promote_staged}
use go_ds_s3_walrus.Index.Stage.{stage_release, stage_keys}
use go_ds_s3_walrus.Index.View.{view, IsWord, find_record}
use go_ds_s3_walrus.Index.Staging.{staged_bytes}
use go_ds_s3_walrus.Index.Known.{stage_release-kept}
use go_ds_s3_walrus.Index.Moves.{IsPromoted, promote_staged-IsPromoted, find_record-absent}
use go_ds_s3_walrus.Client.{WalrusClient}
use go_ds_s3_walrus.Datastore.{Config, World, on_index}
use go_ds_s3_walrus.Datastore.Store.{get, read_record}
use go_ds_s3_walrus.Datastore.Upload.{upload_pack, concat_blocks}
use go_ds_s3_walrus.Datastore.Flush.{flush_one_pack, to_blocks}
use go_ds_s3_walrus.Datastore.Walrus.{IsWalrus}
use go_ds_s3_walrus.Datastore.Identified.{Reads, Holds, Agrees}
use go_ds_s3_walrus.Datastore.Uploads.{IsQuiet, upload_pack-IsQuiet, upload_pack-Uploads}
use go_ds_s3_walrus.Datastore.Answers.{calm, or_wrapped, answer, get-answer}

find_record-All :
    (P : String → Record → Type 0) (key : String) (recs : List KeyRecord) (o : Option Record)
    → All (λ kr. P kr.key kr.rec) recs
    → contains (keys_of recs) key ≡ true
    → (rec : Record) × (find_record key recs o ≡ some rec) × P key rec
unfolding find_record
find_record-All P key [] o h c = absurd (cc c)
find_record-All P key (kr ∷ recs) o h c = elim (Bool-cases (contains (keys_of recs) key)) [
  | inl later ↦ find_record-All P key recs (if str_eq kr.key key then some kr.rec else o) h.1 later
  | inr none_later ↦
      let here : str_eq kr.key key ≡ true = ground arith in
      let same : kr.key ≡ key = (eq_iff kr.key key).0 here in
      (
        kr.rec,
        rw here (find_record-absent key recs (some kr.rec) none_later),
        subst (λ k. P k kr.rec) same h.0,
      )
]

module _ {N : Type 0} (client : WalrusClient N) where
  -- What reads at `w` reads the same at `w'`.
  pub record IsKept (w w' : World N) : Type 0 where
    pub kept :
        (key : String) (v : Bytes)
        → answer client (staged_bytes w.pg.tables key) (view w.pg.tables.index key) w.net ≡ ok v
        → answer client (staged_bytes w'.pg.tables key) (view w'.pg.tables.index key) w'.net ≡ ok v

  IsKept-trans : (u v w : World N) → IsKept u v → IsKept v w → IsKept u w
  IsKept-trans u v w h k = record { kept = λ key b e. k.kept key b (h.kept key b e) }

  -- The bytes that are staged stay, or a record that reads them takes their place; the records stay.
  answer-kept :
      (staged staged' : Option Bytes) (rec rec' : Option Record) (n n' : N) (v : Bytes)
      → ((r : Record) (b : Bytes)
          → (read_record client r n).0 ≡ ok b
          → (read_record client r n').0 ≡ ok b)
      → staged' ≡ staged
      → rec' ≡ rec
      → answer client staged rec n ≡ ok v
      → answer client staged' rec' n' ≡ ok v
  unfolding answer
  answer-kept (some b) staged' rec rec' n n' v keeps s r h = rw s h
  answer-kept none staged' (some r₀) rec' n n' v keeps s r h =
      rw (s, r)
        (elim (Result-cases (read_record client r₀ n).0) [
          | inl (b, good) ↦ rw (keeps r₀ b good) (rw good at h)
          | inr (x, bad) ↦ let h' : or_wrapped client (err x) ≡ ok v = rw bad at h in ground arith
        ])
  answer-kept none staged' none rec' n n' v keeps s r h = absurd (cc h)

  same-IsKept : (w : World N) (p : Pg) → p.tables ≡ w.pg.tables → IsKept w (record w { pg = p })
  same-IsKept w p same = record {
    kept = λ key v h.
        answer-kept _ _ _ _ w.net w.net v (λ r b e. e) (ap (λ t. staged_bytes t key) same)
          (ap (λ (t : Tables). view t.index key) same) h;
  }

  promoted-IsKept :
      (recs : List KeyRecord) (w : World N) (p : Pg)
      → IsPromoted recs w.pg.tables p.tables
      → All (Reads client (staged_bytes w.pg.tables) w.net) recs
      → IsKept w (record w { pg = p })
  unfolding answer
  promoted-IsKept recs w p moved reads = record {
    kept = λ key v h. elim (Option-cases (lookup key w.pg.tables.staging)) [
      | inl unstaged ↦
          answer-kept _ _ _ _ w.net w.net v (λ r b e. e) (rw (gone key unstaged, unstaged))
            (moved.indexed key ∙ rw unstaged) h
      | inr (row, staged) ↦ elim (Bool-cases (contains (keys_of recs) key)) [
        | inr other ↦
            let still : lookup key p.tables.staging ≡ some row =
              moved.staged key ∙ rw (other, staged) in
            rw still (rw staged at h)
        | inl mine ↦
            let (rec, found, (b, agrees, good, _)) =
              find_record-All
                (λ k r.
                  (b : Bytes) × Agrees client (staged_bytes w.pg.tables) k b
                  × ((read_record client r w.net).0 ≡ ok b)
                  × IsWord r)
                key recs (view w.pg.tables.index key) reads mine in
            let s : lookup key p.tables.staging ≡ none = moved.staged key ∙ rw mine in
            let r : view p.tables.index key ≡ some rec = moved.indexed key ∙ rw (staged, found) in
            let same : row.value ≡ b = agrees row.value (rw staged) in
            rw (s, r, good) (ap ok (sym same) ∙ (rw staged at h))
      ]
    ];
  }
    where
      gone :
          (key : String)
          → lookup key w.pg.tables.staging ≡ none
          → lookup key p.tables.staging ≡ none
      gone key unstaged = ground (arith, moved.staged key)

  promote-IsKept :
      (recs : List KeyRecord) (w : World N)
      → All (Reads client (staged_bytes w.pg.tables) w.net) recs
      → IsKept w (record w { pg = (promote_staged recs w.pg).1 })
  promote-IsKept recs w reads =
      elim (promote_staged-IsPromoted recs w.pg (All-map _ _ recs (λ kr r. r.3) reads)).0 [
        | inl same ↦ same-IsKept w _ same
        | inr moved ↦ promoted-IsKept recs w _ moved reads
      ]

  release-IsKept :
      (keys : List String) (w : World N) → IsKept w (record w { pg = (stage_release keys w.pg).1 })
  release-IsKept keys w = record {
    kept = λ key v h.
        let (staged, index) = stage_release-kept keys w.pg key in
        answer-kept _ _ _ _ w.net w.net v (λ r b e. e) staged (ap (λ t. view t key) index) h;
  }

  quiet-IsKept :
      (walrus : IsWalrus client) (conf : Config) (w w' : World N)
      → IsQuiet client walrus conf w w'
      → IsKept w w'
  quiet-IsKept walrus conf w w' q = record {
    kept = λ key v h.
        answer-kept _ _ _ _ w.net w'.net v q.reads (ap (λ (p : Pg). staged_bytes p.tables key) q.pg)
          (ap (λ (p : Pg). view p.tables.index key) q.pg) h;
  }

  module _ (walrus : IsWalrus client) (conf : Config) where
    -- Whether the flush succeeds or fails, and wherever it fails, what could be read before can be
    -- read after it, and is the same.
    pub flush_one_pack-IsKept :
        (entries : List StageEntry) (w : World N)
        → Holds client (staged_bytes w.pg.tables) (to_blocks entries)
        → length (concat_blocks (to_blocks entries)) < half_word
        → IsKept w (flush_one_pack client conf entries w).1
    unfolding flush_one_pack
    flush_one_pack-IsKept entries w holds small =
        elim (Result-cases (upload_pack client conf (to_blocks entries) w).0) [
          | inr (x, bad) ↦ rw bad (released w₁ uploaded x)
          | inl (recs, good) ↦ elim (Result-cases (promote_staged recs w₁.pg).0) [
            | inl (u, done) ↦ rw (good, done) (promoted recs good)
            | inr (x, refused) ↦ rw (good, refused) (released (w₂ recs) (promoted recs good) x)
          ]
        ]
      where
        w₁ : World N
        w₁ = (upload_pack client conf (to_blocks entries) w).1

        quiet : IsQuiet client walrus conf w w₁
        quiet = upload_pack-IsQuiet client walrus conf (to_blocks entries) w

        uploaded : IsKept w w₁
        uploaded = quiet-IsKept walrus conf w w₁ quiet

        w₂ : List KeyRecord → World N
        w₂ recs = record w₁ { pg = (promote_staged recs w₁.pg).1 }

        promoted :
            (recs : List KeyRecord)
            → (upload_pack client conf (to_blocks entries) w).0 ≡ ok recs
            → IsKept w (w₂ recs)
        promoted recs good = IsKept-trans w w₁ (w₂ recs) uploaded (
            promote-IsKept recs w₁ (
              upload_pack-Uploads client walrus conf (staged_bytes w₁.pg.tables) (to_blocks entries)
                w recs good
                (subst (λ (p : Pg). Holds client (staged_bytes p.tables) (to_blocks entries))
                  (sym quiet.pg) holds)
                small))

        released :
            (v : World N)
            → IsKept w v
            → (x : Error)
            → IsKept w
                (handle
                  (on_index (stage_release (stage_keys entries)))
                  (λ _. raise {A = Unit {0}} (wrapped "flushing pack" x))
                  (λ _. raise (wrapped "flushing pack" x))
                  v).1
        released v kept x = elim (Result-cases (stage_release (stage_keys entries) v.pg).0) [
          | inl (u, good) ↦
              rw good (IsKept-trans w v _ kept (release-IsKept (stage_keys entries) v))
          | inr (y, bad) ↦ rw bad (IsKept-trans w v _ kept (release-IsKept (stage_keys entries) v))
        ]

    -- Where the blocks of a pack agree with what is staged for their keys, and are shorter than 2^63
    -- bytes in all: a `Get` that would have returned a value before the flush of the pack returns the
    -- same value after it, whatever the flush comes to (its database calls may fault at any point).
    pub get-flush_one_pack :
        (entries : List StageEntry) (w : World N) (key : String) (v : Bytes)
        → Holds client (staged_bytes w.pg.tables) (to_blocks entries)
        → length (concat_blocks (to_blocks entries)) < half_word
        → (get client key (calm w)).0 ≡ ok v
        → (get client key (calm (flush_one_pack client conf entries w).1)).0 ≡ ok v
    get-flush_one_pack entries w key v holds small h =
        get-answer client key (flush_one_pack client conf entries w).1
        ∙ (flush_one_pack-IsKept entries w holds small).kept key v
            (sym (get-answer client key w) ∙ h)
