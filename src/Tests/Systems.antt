-- ===== src/Tests/Systems.antt =====
-- Two blocks, a flusher that has them in hand, and what readers get meanwhile.
use go_ds_s3_walrus.Index.Postgres.{transaction, statement}
use go_ds_s3_walrus.Common.Assoc.{lookup}
use go_ds_s3_walrus.Common.{
  String, true, ◌≡◌, ◌≢◌, refl, some, none, [], ◌∷◌, ◌⊎◌, arith, if◌then◌else◌, str_eq,
}
use go_ds_s3_walrus.Common.Result.{ok, err, not_found}
use go_ds_s3_walrus.Common.Assoc.{lookup}
use go_ds_s3_walrus.Index.{Bytes, Record, StageRow}
use go_ds_s3_walrus.Index.View.{view}
use go_ds_s3_walrus.Index.Known.{is_known}
use go_ds_s3_walrus.Datastore.{World}
use go_ds_s3_walrus.Datastore.Store
use go_ds_s3_walrus.Datastore.Store.{get}
use go_ds_s3_walrus.Datastore.Flush.{flush_one_pack, flush_packs, flush_staged}
use go_ds_s3_walrus.Datastore.Answers.{calm}
use go_ds_s3_walrus.Datastore.System.{System, claimed}
use go_ds_s3_walrus.Datastore.System.Truth.{IsTrueSystem, IsHonest}
use go_ds_s3_walrus.Datastore.System.Durable.{Leaves, get-IsTrue, get-durable}
use go_ds_s3_walrus.Datastore.System.Absent.{Spares, get-deleted}
use go_ds_s3_walrus.Datastore.System.Refines.{flush_one_pack-Reach, flush_packs-Worked, Worked}
use go_ds_s3_walrus.Datastore.Stops.{flush_staged-stops}
use go_ds_s3_walrus.Tests.Toy.{toy, toy-IsWalrus}
use go_ds_s3_walrus.Tests.Datastores.{conf, two_staged, two_entries, few}

abbrev content_of : String → Bytes
content_of key = if str_eq key "a" then 1 ∷ 2 ∷ [] else 3 ∷ []

abbrev in_hand : System (Unit {0})
in_hand = record { world = two_staged; jobs = claimed two_entries ∷ [] }

in_hand-IsTrue : IsTrueSystem toy content_of toy-IsWalrus conf in_hand
unfolding view lookup
in_hand-IsTrue = (
  record { staged = (refl, (refl, tt)); indexed = λ key rec h. absurd (none_indexed rec h) },
  ((refl, (refl, tt)), tt),
)
  where
    none_indexed : (rec : Record) → none ≢ some rec
    none_indexed rec h = absurd (cc h)

abbrev flushed_system : System (Unit {0})
flushed_system = record { world = (flush_one_pack toy conf two_entries two_staged).1; jobs = [] }

get-IsTrue_example :
    ((get toy "b" (calm flushed_system.world)).0 ≡ ok (3 ∷ []))
    ⊎ ((get toy "b" (calm flushed_system.world)).0 ≡ err not_found)
get-IsTrue_example =
    get-IsTrue toy toy-IsWalrus conf content_of "b" in_hand flushed_system in_hand-IsTrue
      (flush_one_pack-Reach toy conf (IsHonest content_of) two_entries [] two_staged few)

b_known : is_known two_staged.pg.tables "b" ≡ true
unfolding lookup
b_known = refl

get-durable_example : (get toy "b" (calm flushed_system.world)).0 ≡ ok (3 ∷ [])
get-durable_example =
    get-durable toy toy-IsWalrus conf content_of "b" in_hand flushed_system in_hand-IsTrue (tt, tt)
      b_known
      (flush_one_pack-Reach toy conf (λ c. IsHonest content_of c × Leaves "b" c) two_entries []
        two_staged few)

b_deleted : (Store.delete {N = Unit {0}} "b" two_staged).0 ≡ ok tt
unfolding Store.delete go_ds_s3_walrus.Index.Write.delete transaction statement
b_deleted = refl

-- The flusher uploads the deleted block too, and promotes the other one only.
get-deleted_example :
    (get toy "b" (calm (flush_one_pack toy conf two_entries (Store.delete "b" two_staged).1).1)).0
    ≡ err not_found
get-deleted_example =
    get-deleted "b" toy toy-IsWalrus conf two_staged (claimed two_entries ∷ [])
      (record {
        world = (flush_one_pack toy conf two_entries (Store.delete "b" two_staged).1).1;
        jobs = [];
      })
      b_deleted (tt, tt)
      (flush_one_pack-Reach toy conf (Spares "b") two_entries [] (Store.delete "b" two_staged).1
        few)

flush_packs-Worked_example :
    Worked toy conf
      (claimed two_entries ∷ [])
      two_staged
      (flush_packs toy conf (two_entries ∷ []) two_staged)
flush_packs-Worked_example = flush_packs-Worked toy conf (two_entries ∷ []) two_staged (few, tt)

-- The lease of both blocks is over.
abbrev lapsed_world : World (Unit {0})
lapsed_world = record two_staged { pg = record two_staged.pg { now = 1000000 }; clock = 1000000 }

flush_staged-stops_example :
    (w : World (Unit {0})) × (flush_staged toy conf (λ k j. true) 3 lapsed_world ≡ some w)
flush_staged-stops_example = flush_staged-stops toy (λ k j. true) conf 3 lapsed_world (omega arith)
