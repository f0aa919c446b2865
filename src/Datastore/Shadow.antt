-- ===== src/Datastore/Shadow.antt =====
-- `Put` of an oversize block in walrus.go, and a `Get` after it.
use go_ds_s3_walrus.Common.{String, true, ◌≡◌, refl, ap, ◌∙◌, some, List, [], ◌∷◌, inl, inr}
use go_ds_s3_walrus.Common.Result.{Result-cases, ok}
use go_ds_s3_walrus.Index.{Bytes, KeyRecord, Tables}
use go_ds_s3_walrus.Index.Postgres.{Pg}
use go_ds_s3_walrus.Index.Write.{put_many}
use go_ds_s3_walrus.Index.Promote.{put_many-Commits}
use go_ds_s3_walrus.Client.{WalrusClient}
use go_ds_s3_walrus.Datastore.{Config, World, BlockEntry}
use go_ds_s3_walrus.Datastore.Store.{get, put, is_oversize, store_oversize}
use go_ds_s3_walrus.Datastore.Upload.{upload_pack, upload_single_block}
use go_ds_s3_walrus.Index.Staging.{staged_bytes}
use go_ds_s3_walrus.Datastore.Answers.{calm, answer, get-answer}

put_many-staging :
    (recs : List KeyRecord) (p : Pg) → (put_many recs p).1.tables.staging ≡ p.tables.staging
put_many-staging [] p = unfold put_many in refl
put_many-staging (kr ∷ recs) p = elim ((put_many-Commits kr recs).atomic p) [
  | inl same ↦ ap (λ (t : Tables). t.staging) same
  | inr moved ↦ ap (λ (t : Tables). t.staging) moved
]

module _ {N : Type 0} (client : WalrusClient N) (conf : Config) where
  single-pg : (e : BlockEntry) (w : World N) → (upload_single_block client conf e w).1.pg ≡ w.pg
  unfolding upload_single_block
  single-pg e w = elim (Result-cases (client.store e.val conf.epochs conf.deletable w.net).0) [
    | inl (res, good) ↦ rw good
    | inr (x, bad) ↦ rw bad
  ]

  store_oversize-staging :
      (key : String) (value : Bytes) (w : World N)
      → (store_oversize client conf key value w).1.pg.tables.staging ≡ w.pg.tables.staging
  unfolding store_oversize upload_pack
  store_oversize-staging key value w =
      let e : BlockEntry = record { key = key; val = value } in
      let pg = ap (λ (p : Pg). p.tables.staging) (single-pg e w) in
      elim (Result-cases (upload_single_block client conf e w).0) [
        | inl (recs, good) ↦
            rw good (put_many-staging recs (upload_single_block client conf e w).1.pg ∙ pg)
        | inr (x, bad) ↦ rw bad pg
      ]

  -- A `Put` of an oversize value leaves the staging table, which `Get` asks first: while older bytes
  -- of the key are staged, a `Get` returns those, also after the `Put` has succeeded.
  pub get-put_oversize :
      (key : String) (value old : Bytes) (w : World N)
      → is_oversize conf value ≡ true
      → staged_bytes w.pg.tables key ≡ some old
      → (get client key (calm (put client conf key value w).1)).0 ≡ ok old
  unfolding put answer
  get-put_oversize key value old w large staged =
      get-answer client key (put client conf key value w).1
      ∙ rw large (rw (store_oversize-staging key value w) (rw staged))
