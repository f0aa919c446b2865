-- ===== src/Datastore/Upload.antt =====
-- `uploadPack` of walrus.go: a pack of blocks becomes one Walrus blob and its index records.
use go_ds_s3_walrus.Common.{
  ℕ, ◌+◌, ◌-◌, String, Bool, Option, none, some, List, [], ◌∷◌, ◌++◌, length, ◌==◌, str_eq,
  if◌then◌else◌,
}
use go_ds_s3_walrus.Common.Int.{ℤ, pos, pos_part, neg_part, leb_ℤ, ltb_ℤ, add64, mul64}
use go_ds_s3_walrus.Common.Decimal.{itoa}
use go_ds_s3_walrus.Common.Result.{Exec, pure, raise, handle, failure, wrapped, ◌>>=◌}
use go_ds_s3_walrus.Encoding.{encoded_blob_length}
use go_ds_s3_walrus.Index.{Bytes, KeyRecord}
use go_ds_s3_walrus.Client.{StoreResult, QuiltPart, QuiltPatch, QuiltStoreResult, WalrusClient}
use go_ds_s3_walrus.Datastore.{Config, World, BlockEntry, on_client}

-- `time.Now().Add(d)`. Times are counted from an epoch before every time in use.
unfoldable pub add_duration : ℕ → ℤ → ℕ
add_duration now d = now + pos_part d - neg_part d

unfoldable pub expiry : Config → ℕ → Option ℕ
unfolding add_duration
expiry conf now =
    if leb_ℤ conf.epoch_duration (pos 0)
    then none
    else some (add_duration now (mul64 conf.epochs conf.epoch_duration))

unfoldable pub encoded_size : Config → ℤ → ℤ → ℤ
encoded_size conf reported unencoded =
    if ltb_ℤ (pos 0) reported then reported else encoded_blob_length unencoded conf.n_shards

abbrev pub size_of : Bytes → ℤ
size_of val = pos (length val)

unfoldable pub total_size : List BlockEntry → ℤ
total_size [] = pos 0
total_size (e ∷ pack) = add64 (size_of e.val) (total_size pack)

unfoldable pub single_record : Config → ℕ → BlockEntry → StoreResult → KeyRecord
single_record conf now e res = record {
  key = e.key;
  rec = record {
    blob_id = res.blob_id;
    object_id = res.object_id;
    patch_id = "";
    offset = pos 0;
    size = size_of e.val;
    encoded_size = encoded_size conf res.encoded_size (size_of e.val);
    cost = res.cost;
    deletable = conf.deletable;
    end_epoch = res.end_epoch;
    expires_at = expiry conf now;
  };
}

-- The parts of a quilt, each named by its position in the pack.
unfoldable pub parts_from : ℕ → List BlockEntry → List QuiltPart
parts_from i [] = []
parts_from i (e ∷ pack) = record { identifier = itoa i; content = e.val } ∷ parts_from (i + 1) pack

-- A later entry of a Go map under the same key replaces an earlier one.
or_here : Option BlockEntry → Bool → BlockEntry → Option BlockEntry
or_here (some later) same e = some later
or_here none same e = if same then some e else none

-- `keyByID` and `sizeByID`: the block for an identifier.
unfoldable pub block_by_id : ℕ → List BlockEntry → String → Option BlockEntry
unfolding or_here
block_by_id i [] id = none
block_by_id i (e ∷ pack) id = or_here (block_by_id (i + 1) pack id) (str_eq (itoa i) id) e

unfoldable pub quilt_record :
    Config → ℕ → ℤ → QuiltStoreResult → QuiltPatch → BlockEntry → KeyRecord
quilt_record conf now encoded res p e = record {
  key = e.key;
  rec = record {
    blob_id = res.quilt_id;
    object_id = res.object_id;
    patch_id = p.quilt_patch_id;
    offset = pos 0;
    size = size_of e.val;
    encoded_size = encoded;
    cost = res.cost;
    deletable = conf.deletable;
    end_epoch = res.end_epoch;
    expires_at = expiry conf now;
  };
}

-- A byte-range record of a concatenated pack, whose blob is `res`.
unfoldable pub concat_record : Config → ℕ → ℤ → StoreResult → ℤ → BlockEntry → KeyRecord
concat_record conf now encoded res offset e = record {
  key = e.key;
  rec = record {
    blob_id = res.blob_id;
    object_id = res.object_id;
    patch_id = "";
    offset = offset;
    size = size_of e.val;
    encoded_size = encoded;
    cost = res.cost;
    deletable = conf.deletable;
    end_epoch = res.end_epoch;
    expires_at = expiry conf now;
  };
}

unfoldable pub concat_records : Config → ℕ → ℤ → StoreResult → ℤ → List BlockEntry → List KeyRecord
concat_records conf now encoded res offset [] = []
concat_records conf now encoded res offset (e ∷ pack) =
    concat_record conf now encoded res offset e
    ∷ concat_records conf now encoded res (add64 offset (size_of e.val)) pack

-- `buf`: the blocks one after the other.
unfoldable pub concat_blocks : List BlockEntry → Bytes
concat_blocks [] = []
concat_blocks (e ∷ pack) = e.val ++ concat_blocks pack

module _ {N : Type 0} where
  quilt_step :
      Config
      → ℕ
      → ℤ
      → QuiltStoreResult
      → QuiltPatch
      → Option BlockEntry
      → Exec (World N) (List KeyRecord)
      → Exec (World N) (List KeyRecord)
  quilt_step conf now encoded res p none rest = raise (failure "quilt returned unknown identifier")
  quilt_step conf now encoded res p (some e) rest = do
    recs ← rest
    pure (quilt_record conf now encoded res p e ∷ recs)

  -- The loop over the returned patches.
  unfoldable pub quilt_records :
      Config
      → ℕ
      → ℤ
      → QuiltStoreResult
      → List BlockEntry
      → List QuiltPatch
      → Exec (World N) (List KeyRecord)
  unfolding quilt_step
  quilt_records conf now encoded res pack [] = pure []
  quilt_records conf now encoded res pack (p ∷ patches) =
      quilt_step conf now encoded res p (block_by_id 0 pack p.identifier)
        (quilt_records conf now encoded res pack patches)

module _ {N : Type 0} (client : WalrusClient N) (conf : Config) where
  unfoldable pub upload_single_block : BlockEntry → Exec (World N) (List KeyRecord)
  upload_single_block e w =
      handle (on_client (client.store e.val conf.epochs conf.deletable))
        (λ res. pure (single_record conf w.clock e res ∷ []))
        (λ x. raise (wrapped "storing block" x)) w

  unfoldable pub upload_quilt_pack : List BlockEntry → Exec (World N) (List KeyRecord)
  upload_quilt_pack pack w =
      handle (on_client (client.store_quilt (parts_from 0 pack) conf.epochs conf.deletable))
        (λ res.
          if length res.patches == length pack
          then quilt_records conf w.clock (encoded_size conf res.encoded_size (total_size pack)) res
              pack res.patches
          else raise (failure "quilt stored an unexpected number of patches"))
        (λ x. raise (wrapped "storing quilt" x)) w

  unfoldable pub upload_concat_pack : List BlockEntry → Exec (World N) (List KeyRecord)
  upload_concat_pack pack w =
      handle (on_client (client.store (concat_blocks pack) conf.epochs conf.deletable))
        (λ res. pure (
          concat_records conf w.clock (encoded_size conf res.encoded_size (total_size pack)) res
            (pos 0) pack))
        (λ x. raise (wrapped "storing pack" x)) w

  unfoldable pub upload_pack : List BlockEntry → Exec (World N) (List KeyRecord)
  upload_pack [] = pure []
  upload_pack (e ∷ []) = upload_single_block e
  upload_pack (e ∷ f ∷ pack) =
      if conf.disable_quilt
      then upload_concat_pack (e ∷ f ∷ pack)
      else upload_quilt_pack (e ∷ f ∷ pack)
