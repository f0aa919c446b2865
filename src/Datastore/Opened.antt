-- ===== src/Datastore/Opened.antt =====
-- What `NewWalrusDatastore` of walrus.go returns.
use go_ds_s3_walrus.Common.{
  String, true, false, ◌&&◌, ◌≡◌, refl, ◌∙◌, none, some, arith, inl, inr, Bool-cases, All,
  if◌then◌else◌,
}
use go_ds_s3_walrus.Common.Int.{ℤ, pos, negsuc, leb_ℤ, ltb_ℤ}
use go_ds_s3_walrus.Common.Result.{ok, Exec, Result-cases}
use go_ds_s3_walrus.Client.Open.{new_client, IsBase, normalize_urls-IsBase}
use go_ds_s3_walrus.Index.Schema.{Server, PostgresIndex, new_postgres_index, or_index, migrate}
use go_ds_s3_walrus.Index.Schema.Migrated.{migrate-IsCurrent}
use go_ds_s3_walrus.Index.Schema.Versions.{IsEarlier, IsCurrent}
use go_ds_s3_walrus.Datastore.{Config}
use go_ds_s3_walrus.Datastore.Construct.{
  checked, with_defaults, IsReady, checked-IsReady, checked-cases,
}
use go_ds_s3_walrus.Datastore.Open.{
  Datastore, renewal_lead, client_config, started, new_walrus_datastore,
}

-- A call that leaves the schema.
abbrev pub LeavesSchema : Exec Server (Unit {0}) → Type 0
LeavesSchema m = (s : Server) → (m s).1.catalogue ≡ s.catalogue

-- A pool keeps at most as many connections idle as it has, and at most 16.
pub record IsPool (index : PostgresIndex) : Type 0 where
  pub bounded : ltb_ℤ (pos 0) index.max_open_conns ≡ true
  pub idle : leb_ℤ index.max_idle_conns index.max_open_conns ≡ true
  pub few : leb_ℤ index.max_idle_conns (pos 16) ≡ true

abbrev pooled : String → ℤ → PostgresIndex
pooled name conns = record {
  table = name;
  max_open_conns = conns;
  max_idle_conns = if ltb_ℤ (pos 16) conns then pos 16 else conns;
}

pooled-IsPool :
    (name : String) (n : ℤ) → IsPool (pooled name (if leb_ℤ n (pos 0) then pos 32 else n))
pooled-IsPool name (pos n) = elim (Bool-cases (leb_ℤ (pos n) (pos 0))) [
  | inl none_given ↦ rw none_given (record { bounded = refl; idle = refl; few = refl })
  | inr given ↦ rw given (record {
    bounded = ground (arith, given);
    idle = ground (arith, given);
    few = ground (arith, given);
  })
]
pooled-IsPool name (negsuc n) = record {
  bounded = ground arith;
  idle = ground arith;
  few = ground arith;
}

positive : (x : ℤ) → leb_ℤ x (pos 0) ≡ false → ltb_ℤ (pos 0) x ≡ true
positive (pos n) h = ground (arith, h)
positive (negsuc n) h = absurd (ground (arith, h))

-- A datastore that is ready to run.
pub record IsOpened (d : Datastore) (s : Server) : Type 0 where
  pub conf : IsReady d.conf
  pub publishers : All IsBase d.client.publishers
  pub aggregators : All IsBase d.client.aggregators
  pub pool : IsPool d.index
  pub schema : IsCurrent d.index.table s.catalogue
  pub renewal : (lead : ℤ) → d.renewal ≡ some lead → ltb_ℤ (pos 0) lead ≡ true

renewal_lead-positive :
    (conf : Config) (lead : ℤ)
    → (if ltb_ℤ (pos 0) conf.renew_interval && ltb_ℤ (pos 0) conf.epoch_duration
        then some (renewal_lead conf)
        else none)
      ≡ some lead
    → ltb_ℤ (pos 0) lead ≡ true
unfolding renewal_lead
renewal_lead-positive conf lead h =
    elim (Bool-cases (ltb_ℤ (pos 0) conf.renew_interval && ltb_ℤ (pos 0) conf.epoch_duration)) [
      | inr off ↦ absurd (cc (rw off at h))
      | inl on ↦
          let long : ltb_ℤ (pos 0) conf.epoch_duration ≡ true = ground (arith, on) in
          let shape : (if leb_ℤ conf.renew_lead (pos 0)
                then conf.epoch_duration
                else conf.renew_lead)
              ≡ lead =
            cc (rw on at h) in
          rw (← shape) (elim (Bool-cases (leb_ℤ conf.renew_lead (pos 0))) [
            | inl unset ↦ rw unset long
            | inr set ↦ rw set (positive conf.renew_lead set)
          ])
    ]

module _ (connect ping : Exec Server (Unit {0})) (connects : LeavesSchema connect)
    (pings : LeavesSchema ping) where
  -- The index that is opened, and the schema behind it.
  new_postgres_index-IsCurrent :
      (table : String) (n : ℤ) (s : Server) (index : PostgresIndex)
      → IsEarlier (or_index table) s.catalogue
      → (new_postgres_index connect ping table n s).0 ≡ ok index
      → IsPool index × IsCurrent index.table (new_postgres_index connect ping table n s).1.catalogue
  unfolding new_postgres_index
  new_postgres_index-IsCurrent table n s index old h = elim (Result-cases (connect s).0) [
    | inr (x, bad) ↦ absurd (cc (rw bad at h))
    | inl (u, connected) ↦ elim (Result-cases (ping (connect s).1).0) [
      | inr (x, bad) ↦ absurd (cc (rw (connected, bad) at h))
      | inl (u', pinged) ↦
          let s' = (ping (connect s).1).1 in
          let same : s'.catalogue ≡ s.catalogue = pings (connect s).1 ∙ connects s in
          let up_to_date = (migrate-IsCurrent (or_index table) s' (rw same old)).0 in
          elim (Result-cases (migrate (or_index table) s').0) [
            | inr (x, bad) ↦ absurd (cc (rw (connected, pinged, bad) at h))
            | inl (v, migrated) ↦
                let shape : index
                    ≡ pooled (or_index table) (if leb_ℤ n (pos 0) then pos 32 else n) =
                  cc (rw (connected, pinged, migrated) at h) in
                rw (connected, pinged, migrated, shape)
                  (pooled-IsPool (or_index table) n, up_to_date migrated)
          ]
    ]
  ]

  -- Where `NewWalrusDatastore` returns a datastore, its configuration is complete and in bounds, every endpoint is a base
  -- URL, the connection pool is bounded, the tables have every column, whatever earlier version they were of, and a
  -- renewal worker, if it is started, looks ahead by more than nothing.
  pub new_walrus_datastore-IsOpened :
      (conf : Config) (d : Datastore) (s : Server)
      → IsEarlier (or_index conf.table) s.catalogue
      → (new_walrus_datastore connect ping conf s).0 ≡ ok d
      → IsOpened d (new_walrus_datastore connect ping conf s).1
  unfolding new_walrus_datastore new_client
  new_walrus_datastore-IsOpened conf d s old h = elim (Result-cases (checked conf)) [
    | inr (x, bad) ↦ absurd (cc (rw bad at h))
    | inl (good, accepted) ↦
        let (_, _, _, shape) = checked-cases conf good accepted in
        let table : good.table ≡ conf.table = unfold with_defaults in rw shape refl in
        elim (Result-cases (new_postgres_index connect ping good.table good.max_open_conns s).0) [
          | inr (x, bad) ↦ absurd (cc (rw (accepted, bad) at h))
          | inl (index, there) ↦
              let (pool, schema) =
                new_postgres_index-IsCurrent good.table good.max_open_conns s index (rw table old)
                  there in
              let same : d ≡ started good index (new_client (client_config good)) =
                cc (rw (accepted, there) at h) in
              rw (accepted, there, same)
                (record {
                  conf = (checked-IsReady conf good accepted).0;
                  publishers = (normalize_urls-IsBase good.publisher_urls).0;
                  aggregators = (normalize_urls-IsBase good.aggregator_urls).0;
                  pool = pool;
                  schema = schema;
                  renewal = renewal_lead-positive good;
                })
        ]
  ]
