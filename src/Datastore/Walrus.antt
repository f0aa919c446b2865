-- ===== src/Datastore/Walrus.antt =====
-- What the datastore relies on of Walrus, through its client.
use go_ds_s3_walrus.Common.{ℕ, String, ◌+◌, ◌≤◌, ◌<◌, Bool, ◌≡◌, ◌≢◌, List, take, drop, length, All}
use go_ds_s3_walrus.Common.Int.{ℤ, pos, word}
use go_ds_s3_walrus.Common.Result.{ok}
use go_ds_s3_walrus.Index.{Bytes, Record}
use go_ds_s3_walrus.Client.{StoreResult, QuiltPart, QuiltPatch, QuiltStoreResult, WalrusClient}
use go_ds_s3_walrus.Datastore.Store.{read_record}

-- A healthy Walrus: a stored blob is content that does not change and stays readable, by any range
-- of its bytes, and the members of a quilt by their patches. (No storage expires meanwhile.)
pub record IsWalrus {N : Type 0} (client : WalrusClient N) : Type 0 where
  -- A later upload does not disturb what a record reads.
  pub store_keeps :
      (v : Bytes) (epochs : ℤ) (deletable : Bool) (n : N) (rec : Record) (b : Bytes)
      → (read_record client rec n).0 ≡ ok b
      → (read_record client rec (client.store v epochs deletable n).1).0 ≡ ok b
  pub store_quilt_keeps :
      (parts : List QuiltPart) (epochs : ℤ) (deletable : Bool) (n : N) (rec : Record) (b : Bytes)
      → (read_record client rec n).0 ≡ ok b
      → (read_record client rec (client.store_quilt parts epochs deletable n).1).0 ≡ ok b
  pub range_of_stored :
      (v : Bytes) (epochs : ℤ) (deletable : Bool) (n : N) (res : StoreResult) (offset len : ℕ)
      → (client.store v epochs deletable n).0 ≡ ok res
      → offset + len ≤ length v
      → (client.read_range res.blob_id
          (pos offset)
          (pos len)
          (client.store v epochs deletable n).1).0
        ≡ ok (take len (drop offset v))
  -- A download disturbs nothing either, and a blob that can be read can be read by ranges.
  pub read_keeps :
      (id : String) (n : N) (rec : Record) (b : Bytes)
      → (read_record client rec n).0 ≡ ok b
      → (read_record client rec (client.read id n).1).0 ≡ ok b
  pub range_of_blob :
      (id : String) (n : N) (content : Bytes) (offset len : ℕ)
      → (client.read id n).0 ≡ ok content
      → offset + len ≤ length content
      → (client.read_range id (pos offset) (pos len) n).0 ≡ ok (take len (drop offset content))
  -- A patch is named by a text, and reads the part that it was stored for.
  pub patch_of_quilt :
      (parts : List QuiltPart) (epochs : ℤ) (deletable : Bool) (n : N) (res : QuiltStoreResult)
      → (client.store_quilt parts epochs deletable n).0 ≡ ok res
      → All
          (λ (p : QuiltPatch).
            (p.quilt_patch_id ≢ "")
            × All
                (λ (q : QuiltPart).
                  q.identifier ≡ p.identifier
                  → (client.read_quilt_patch p.quilt_patch_id
                      (client.store_quilt parts epochs deletable n).1).0
                    ≡ ok q.content)
                parts)
          res.patches
  -- The counters of a result are `uint64`.
  pub store_words :
      (v : Bytes) (epochs : ℤ) (deletable : Bool) (n : N) (res : StoreResult)
      → (client.store v epochs deletable n).0 ≡ ok res
      → (res.cost < word) × (res.end_epoch < word)
  pub quilt_words :
      (parts : List QuiltPart) (epochs : ℤ) (deletable : Bool) (n : N) (res : QuiltStoreResult)
      → (client.store_quilt parts epochs deletable n).0 ≡ ok res
      → (res.cost < word) × (res.end_epoch < word)
