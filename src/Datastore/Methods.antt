-- ===== src/Datastore/Methods.antt =====
-- `Has`, `GetSize`, `Get`, `Put` and `Delete` of walrus.go, one after another on a key.
use go_ds_s3_walrus.Common.{
  String, true, false, ◌||◌, ◌≡◌, refl, ap, sym, ◌∙◌, [], ◌∷◌, inl, inr, Bool-cases, Option-cases,
  Option, none, some, if◌then◌else◌, str_eq,
}
use go_ds_s3_walrus.Common.Int.{ℤ}
use go_ds_s3_walrus.Common.Assoc.{lookup, insert, lookup-insert, remove_all, lookup-remove_all}
use go_ds_s3_walrus.Common.Result.{not_found, Result, ok, err}
use go_ds_s3_walrus.Index.Sizes.{known_size}
use go_ds_s3_walrus.Index.{Bytes}
use go_ds_s3_walrus.Index.Postgres.{query, statement, transaction}
use go_ds_s3_walrus.Index.Write
use go_ds_s3_walrus.Index.Write.{put_many}
use go_ds_s3_walrus.Index.Stage.{
  stage_get_size, stage_put_many, stage_put_loop, insert_staged, staged_row,
}
use go_ds_s3_walrus.Index.View.{view}
use go_ds_s3_walrus.Index.Moves.{is_some}
use go_ds_s3_walrus.Client.{WalrusClient}
use go_ds_s3_walrus.Datastore.{Config, World}
use go_ds_s3_walrus.Datastore.Store.{get, put, has, get_size, delete, is_oversize, kick_flusher}
use go_ds_s3_walrus.Index.Staging.{staged_bytes}
use go_ds_s3_walrus.Datastore.Answers.{calm, answer, get-answer}

-- What `GetSize` reports of a size that is known or not.
abbrev pub sized : Option ℤ → Result ℤ
sized none = err not_found
sized (some n) = ok n

module _ {N : Type 0} where
  -- Without database faults `Has` tells whether a key is staged or indexed; `GetSize` returns the size of
  -- the staged row if there is one, otherwise the size of the row of the index, and `ds.ErrNotFound`
  -- exactly where `Has` says no. Neither calls Walrus.
  pub has-get_size :
      (key : String) (w : World N)
      → ((has key (calm w)).0
          ≡ ok (is_some (lookup key w.pg.tables.staging) || is_some (lookup key w.pg.tables.index)))
        × ((has key (calm w)).0 ≡ ok (is_some (known_size w.pg.tables key)))
        × ((get_size key (calm w)).0 ≡ sized (known_size w.pg.tables key))
        × ((has key (calm w)).1.net ≡ w.net)
        × ((get_size key (calm w)).1.net ≡ w.net)
  unfolding has get_size stage_get_size Write.get query Write.from_row
  has-get_size key w = elim (Option-cases (lookup key w.pg.tables.staging)) [
    | inr (row, staged) ↦ rw staged (refl, refl, refl, refl, refl)
    | inl unstaged ↦ elim (Option-cases (lookup key w.pg.tables.index)) [
      | inr (row, found) ↦ rw (unstaged, found) (refl, refl, refl, refl, refl)
      | inl unknown ↦ rw (unstaged, unknown) (refl, refl, refl, refl, refl)
    ]
  ]

  abbrev without : String → World N → World N
  without key w = record w {
    pg = record w.pg {
      tables = record {
        index = remove_all (key ∷ []) w.pg.tables.index;
        staging = remove_all (key ∷ []) w.pg.tables.staging;
      };
      outcomes = [];
    };
  }

  delete-without : (key : String) (w : World N) → delete key (calm w) ≡ (ok tt, without key w)
  unfolding delete Write.delete transaction statement
  delete-without key w = refl

  -- Without database faults `Delete` succeeds, known key or not; afterwards a `Get` of the key finds
  -- nothing, and a `Get` of any other key returns what it returned before.
  pub get-delete :
      (client : WalrusClient N) (key j : String) (w : World N)
      → ((delete key (calm w)).0 ≡ ok tt)
        × ((get client j (calm (delete key (calm w)).1)).0
            ≡ (if str_eq key j then err not_found else (get client j (calm w)).0))
  unfolding view answer
  get-delete client key j w = rw (delete-without key w) (
    refl,
    get-answer client j (without key w)
        ∙ removed
        ∙ ap (λ r. if str_eq key j then err not_found else r) (sym (get-answer client j w)),
  )
    where
      removed :
          answer client
            (staged_bytes (without key w).pg.tables j)
            (view (without key w).pg.tables.index j)
            w.net
          ≡ (if str_eq key j
              then err not_found
              else answer client (staged_bytes w.pg.tables j) (view w.pg.tables.index j) w.net)
      removed =
          rw
            (
              lookup-remove_all (key ∷ []) j w.pg.tables.staging,
              lookup-remove_all (key ∷ []) j w.pg.tables.index,
            )
            (elim (Bool-cases (str_eq key j)) [ inl same ↦ rw same | inr other ↦ rw other ])

module _ {N : Type 0} (client : WalrusClient N) (conf : Config) where
  abbrev staged_world : String → Bytes → World N → World N
  staged_world key value w = record w {
    pg = record w.pg {
      tables = record w.pg.tables {
        staging =
            insert key (staged_row w.pg.now (record { key = key; value = value }))
              w.pg.tables.staging;
      };
      outcomes = [];
    };
    kicked = true;
  }

  put-staged_world :
      (key : String) (value : Bytes) (w : World N)
      → is_oversize conf value ≡ false
      → put client conf key value (calm w) ≡ (ok tt, staged_world key value w)
  unfolding put stage_put_many stage_put_loop insert_staged transaction statement kick_flusher
  put-staged_world key value w small = rw small

  -- Without database faults a `Put` of a block that is not oversize succeeds with no call of Walrus,
  -- and wakes the flusher; afterwards a `Get` of the key returns the value, and a `Get` of any other
  -- key what it returned before.
  pub get-put :
      (key j : String) (value : Bytes) (w : World N)
      → is_oversize conf value ≡ false
      → ((put client conf key value (calm w)).0 ≡ ok tt)
        × ((put client conf key value (calm w)).1.net ≡ w.net)
        × ((put client conf key value (calm w)).1.kicked ≡ true)
        × ((get client j (calm (put client conf key value (calm w)).1)).0
            ≡ (if str_eq key j then ok value else (get client j (calm w)).0))
  unfolding view answer staged_row
  get-put key j value w small = rw (put-staged_world key value w small) (
    refl,
    refl,
    refl,
    get-answer client j (staged_world key value w)
        ∙ written
        ∙ ap (λ r. if str_eq key j then ok value else r) (sym (get-answer client j w)),
  )
    where
      written :
          answer client
            (staged_bytes (staged_world key value w).pg.tables j)
            (view (staged_world key value w).pg.tables.index j)
            w.net
          ≡ (if str_eq key j
              then ok value
              else answer client (staged_bytes w.pg.tables j) (view w.pg.tables.index j) w.net)
      written =
          rw
            (lookup-insert key (staged_row w.pg.now (record { key = key; value = value }))
              w.pg.tables.staging j)
            (elim (Bool-cases (str_eq key j)) [ inl same ↦ rw same | inr other ↦ rw other ])
