-- ===== src/Tests/Leases.antt =====
-- Claims of staged blocks.
use go_ds_s3_walrus.Common.{ℕ, false, ◌≡◌, refl, none, List, [], ◌∷◌, arith, length, contains, take}
use go_ds_s3_walrus.Common.Int.{pos}
use go_ds_s3_walrus.Common.Assoc.{map_values, Assoc}
use go_ds_s3_walrus.Common.Result.{ok}
use go_ds_s3_walrus.Index.{Bytes, StageRow, StageEntry}
use go_ds_s3_walrus.Index.Postgres.{statement, Pg}
use go_ds_s3_walrus.Index.Stage.{
  leased_row, leased_entries, lease_rows, is_claimable, lease_keys, scan_keys, stage_keys,
}
use go_ds_s3_walrus.Index.Claims.{lease_keys_disjoint, at_time, primary_keys}
use go_ds_s3_walrus.Index.Packs.{IsFit, scan_keys-IsFit}

abbrev waiting : Bytes → StageRow
waiting v = record { value = v; size = pos (length v); created_at = 3; leased_until = none }

abbrev two_waiting : Assoc StageRow
two_waiting = ("a", waiting (1 ∷ 2 ∷ [])) ∷ ("b", waiting (3 ∷ [])) ∷ []

abbrev server : Pg
server = record { tables = record { index = []; staging = two_waiting }; now = 5; outcomes = [] }

-- The second flusher wanted both blocks, and gets the one that the first left.
abbrev second_claim : List StageEntry
second_claim = record { key = "b"; value = 3 ∷ [] } ∷ []

second_leased :
    (lease_keys ("a" ∷ "b" ∷ []) 900 (at_time 6 (lease_keys ("a" ∷ []) 900 server).1)).0
    ≡ ok second_claim
unfolding lease_keys statement lease_rows leased_entries map_values is_claimable leased_row
second_leased = refl

lease_keys_disjoint_example : contains (stage_keys second_claim) "a" ≡ false
unfolding lease_keys statement lease_rows leased_entries is_claimable
lease_keys_disjoint_example =
    lease_keys_disjoint ("a" ∷ []) ("a" ∷ "b" ∷ []) 900 900 6 server
      (record { key = "a"; value = 1 ∷ 2 ∷ [] } ∷ []) second_claim "a" refl (omega arith) refl
      second_leased refl

scan_keys-IsFit_example :
    (n : ℕ) × (scan_keys (pos 2) false (pos 0) two_waiting
      ≡ "a" ∷ primary_keys (take n (("b", waiting (3 ∷ [])) ∷ [])))
    × IsFit 2 2 n (("b", waiting (3 ∷ [])) ∷ [])
scan_keys-IsFit_example =
    scan_keys-IsFit 2 "a" (waiting (1 ∷ 2 ∷ [])) (("b", waiting (3 ∷ [])) ∷ []) (refl, (refl, tt))
      (omega arith)
