-- ===== src/Datastore/Values.antt =====
-- `Query` of walrus.go with values.
use mathlib.Core.Path.{subst}
use go_ds_s3_walrus.Common.{
  String, Bool, false, ◌&&◌, ◌≡◌, refl, ap, sym, ◌∙◌, Option, some, none, List, [], ◌∷◌, map,
  contains, length, inl, inr, Option-cases,
}
use go_ds_s3_walrus.Common.Int.{pos}
use go_ds_s3_walrus.Common.Assoc.{lookup}
use go_ds_s3_walrus.Common.Result.{
  failure, Result, ok, err, pure, handle, Error, not_found, blob_not_found, cancelled, wrapped,
  Result-cases,
}
use go_ds_s3_walrus.Index.{Bytes, Record, ListItem}
use go_ds_s3_walrus.Index.View.{view}
use go_ds_s3_walrus.Index.Listing.{is_listed, list_items, list}
use go_ds_s3_walrus.Index.Listed.{item_keys, contains-list_items}
use go_ds_s3_walrus.Index.Known.{is_known}
use go_ds_s3_walrus.Index.Stage.{stage_get}
use go_ds_s3_walrus.Index.Write
use go_ds_s3_walrus.Index.Postgres.{query}
use go_ds_s3_walrus.Client.{WalrusClient}
use go_ds_s3_walrus.Datastore.{World, on_client}
use go_ds_s3_walrus.Datastore.Store.{get, read_record, read_error}
use go_ds_s3_walrus.Datastore.Answers.{calm, answer, get-answer}
use go_ds_s3_walrus.Datastore.Listing.{
  Entry, plain_query, normalize_prefix, to_entry, next_values, query_entries,
}

module _ {N : Type 0} (client : WalrusClient N) where
  -- What a record reads is the same at both networks.
  abbrev pub SameReads : N → N → Type 0
  SameReads n n' = (rec : Record) → (read_record client rec n').0 ≡ (read_record client rec n).0

  -- A download does not disturb a later one.
  abbrev pub IsRepeatable : Type 0
  IsRepeatable = (rec : Record) (n : N) → SameReads n (read_record client rec n).1

  -- The database is as it was, and records read what they read.
  record IsRead (w v : World N) : Type 0 where
    pg : v.pg ≡ w.pg
    reads : SameReads w.net v.net

  calm-eq : (v : World N) → v.pg.outcomes ≡ [] → calm v ≡ v
  calm-eq v h = ap (λ o. record v { pg = record v.pg { outcomes = o } }) (sym h)

  answer-same :
      (b : Option Bytes) (rec : Option Record) (n n' : N)
      → SameReads n n'
      → answer client b rec n' ≡ answer client b rec n
  unfolding answer
  answer-same (some b) rec n n' h = refl
  answer-same none (some rec) n n' h = rw (h rec) refl
  answer-same none none n n' h = refl

  get-same :
      (key : String) (w v : World N)
      → IsRead (calm w) v
      → (get client key v).0 ≡ (get client key (calm w)).0
  get-same key w v h =
      let same : calm v ≡ v = calm-eq v (ap (λ p. p.outcomes) h.pg) in
      rw (← same) (
        get-answer client key v
        ∙ rw (ap (λ p. p.tables) h.pg) (answer-same _ _ w.net v.net h.reads)
        ∙ sym (get-answer client key w))

  read_error-state : (e : Error) (w : World N) → (read_error {N = N} e w).1 ≡ w
  read_error-state not_found w = refl
  read_error-state blob_not_found w = refl
  read_error-state cancelled w = refl
  read_error-state (failure what) w = refl
  read_error-state (wrapped what e) w = refl

  read_record-IsRead :
      (repeats : IsRepeatable) (rec : Record) (w : World N)
      → IsRead w (handle (on_client (read_record client rec)) pure read_error w).1
  read_record-IsRead repeats rec w = elim (Result-cases (read_record client rec w.net).0) [
    | inl (b, good) ↦ rw good (record { pg = refl; reads = repeats rec w.net })
    | inr (e, bad) ↦
        rw bad (rw (read_error-state e) (record { pg = refl; reads = repeats rec w.net }))
  ]

  get-IsRead :
      (repeats : IsRepeatable) (key : String) (w : World N)
      → IsRead (calm w) (get client key (calm w)).1
  unfolding get stage_get Write.get view query
  get-IsRead repeats key w = elim (Option-cases (lookup key w.pg.tables.staging)) [
    | inr (row, staged) ↦ rw staged (record { pg = refl; reads = λ rec. refl })
    | inl unstaged ↦ elim (Option-cases (lookup key w.pg.tables.index)) [
      | inl unknown ↦ rw (unstaged, unknown) (record { pg = refl; reads = λ rec. refl })
      | inr (row, found) ↦
          rw (unstaged, found) (read_record-IsRead repeats (Write.from_row row) (calm w))
    ]
  ]

  IsRead-trans : (u v w : World N) → IsRead u v → IsRead v w → IsRead u w
  IsRead-trans u v w f g = record { pg = g.pg ∙ f.pg; reads = λ rec. g.reads rec ∙ f.reads rec }

  module _ (clean : String → String) (key_leb : String → String → Bool) where
    -- The item of the results for an item of the listing: its value with the length of it, or the error of its Get.
    abbrev pub with_value : ListItem → Result Bytes → Result Entry
    with_value it (ok v) = ok (record { key = it.key; size = pos (length v); value = some v })
    with_value it (err e) = err e

    abbrev pub read_items : List ListItem → World N → List (Result Entry)
    read_items items w = map (λ it. with_value it (get client (clean it.key) (calm w)).0) items

    to_entry-value :
        (it : ListItem) (v : World N)
        → (to_entry clean client key_leb it v).0 ≡ with_value it (get client (clean it.key) v).0
    to_entry-value it v = elim (Result-cases (get client (clean it.key) v).0) [
      | inl (b, good) ↦ rw good refl
      | inr (e, bad) ↦ rw bad refl
    ]

    to_entry-state :
        (it : ListItem) (v : World N)
        → (to_entry clean client key_leb it v).1 ≡ (get client (clean it.key) v).1
    to_entry-state it v = elim (Result-cases (get client (clean it.key) v).0) [
      | inl (b, good) ↦ rw good refl
      | inr (e, bad) ↦ rw bad refl
    ]

    next_values-read :
        (repeats : IsRepeatable) (items : List ListItem) (w v : World N)
        → IsRead (calm w) v
        → (next_values clean client key_leb false items v).0 ≡ read_items items w
    unfolding next_values
    next_values-read repeats [] w v h = refl
    next_values-read repeats (it ∷ items) w v h =
        let same = get-same (clean it.key) w v h in
        let back : calm v ≡ v = calm-eq v (ap (λ p. p.outcomes) h.pg) in
        let after =
          subst (λ u. IsRead u (get client (clean it.key) u).1) back
            (get-IsRead repeats (clean it.key) v) in
        rw (to_entry-value it v, to_entry-state it v, same)
          (ap (λ rs. with_value it (get client (clean it.key) (calm w)).0 ∷ rs)
            (next_values-read repeats items w (get client (clean it.key) v).1
              (IsRead-trans (calm w) v (get client (clean it.key) v).1 h after)))

    -- Without database faults, where downloads of Walrus do not disturb each other, a query with values, without orders,
    -- filters and paging, yields for each item of the listing what a Get of it returns, the value with its length as the
    -- size, or the error, which does not end the results. The keys of the listing are exactly those that are staged or
    -- indexed and match the normalized prefix.
    pub query_entries-values :
        (repeats : IsRepeatable) (prefix : String) (w : World N)
        → (items : List ListItem) × ((query_entries clean client key_leb
              (record (plain_query prefix) { keys_only = false })
              (calm w)).0
            ≡ ok (read_items items w))
          × ((key : String)
              → contains (item_keys items) key
                ≡ (is_listed (normalize_prefix clean prefix) key && is_known w.pg.tables key))
    unfolding query_entries list query
    query_entries-values repeats prefix w =
        let items =
          list_items key_leb (normalize_prefix clean prefix) (pos 0) (pos 0) w.pg.now w.pg.tables in
        (
          items,
          ap ok (
              next_values-read repeats items w (calm w)
                (record { pg = refl; reads = λ rec. refl })),
          contains-list_items key_leb (normalize_prefix clean prefix) w.pg.now w.pg.tables,
        )
