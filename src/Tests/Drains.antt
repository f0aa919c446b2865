-- ===== src/Tests/Drains.antt =====
-- A flush of two blocks that have waited.
use go_ds_s3_walrus.Common.{true, false, ◌≡◌, refl, some, arith}
use go_ds_s3_walrus.Common.Assoc.{lookup}
use go_ds_s3_walrus.Index.Stage.{is_claimable}
use go_ds_s3_walrus.Datastore.{Config, World}
use go_ds_s3_walrus.Datastore.Construct.{IsReady}
use go_ds_s3_walrus.Datastore.Flush.{flush_staged}
use go_ds_s3_walrus.Datastore.Drain.{Waiting}
use go_ds_s3_walrus.Datastore.Drain.Packed.{IsSteady}
use go_ds_s3_walrus.Datastore.Drain.Flushed.{Flushed, flush_staged-Flushed}
use go_ds_s3_walrus.Tests.Toy.{toy}
use go_ds_s3_walrus.Tests.Toy.Accepting.{toy-Accepts}
use go_ds_s3_walrus.Tests.Datastores.{conf, two_staged}

abbrev quilts : Config
quilts = record conf { disable_quilt = false }

abbrev later : World (Unit {0})
later = record two_staged { pg = record two_staged.pg { now = 1000000 }; clock = 1000000 }

ready : IsReady quilts
ready = record {
  publisher_urls = λ e. absurd (cc e);
  aggregator_urls = λ e. absurd (cc e);
  epochs = refl;
  n_shards = refl;
  workers = refl;
  pack_target_size = refl;
  max_retries = refl;
  pack_flush_interval = refl;
}

steady : IsSteady later
steady = record { calm = refl; keyed = refl; small = omega arith }

waiting : Waiting quilts later "b"
unfolding lookup is_claimable
waiting = (_, refl, refl, refl)

flush_staged-Flushed_example :
    (w : World (Unit {0})) × (flush_staged toy quilts (λ k j. true) 3 later ≡ some w)
    × Flushed w "b"
flush_staged-Flushed_example =
    flush_staged-Flushed toy toy-Accepts (λ k j. true) quilts ready later "b" steady waiting
