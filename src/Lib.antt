-- ===== src/Lib.antt =====
-- go-ds-s3-walrus: an IPFS datastore on Walrus, modelled and verified
--
-- The program is a go-datastore on top of Walrus, a store of immutable blobs with large fixed costs
-- per blob. Put and Commit write blocks to a staging table in Postgres; a flusher claims staged
-- blocks under a lease, uploads them as one pack (a quilt, or one concatenated blob) and promotes
-- them, in one transaction, from the staging table to the index table, which says for each key in
-- which blob, and where in it, the bytes are. Get asks staging first, then the index and Walrus.
--
-- The files and the code that they model (paths from the root of the repository):
--
--   Encoding      encoding.go: the billed size of a blob, in 64-bit arithmetic that wraps. Spec has
--                 the formula in exact arithmetic, Bounds what holds of the code.
--   Index         index.go: Record and the two tables. Postgres is a connection whose every round
--                 trip may be refused, or carried out with its answer lost; a transaction keeps all
--                 or nothing. Write has putManyTx, PutMany, Get, Delete, DeleteMany, PromoteStaged and
--                 UpdateBlobAfterRenewal, Stage the staging methods (Claims, Packs, Staging and Primary have the proofs), Listing List (with Listed),
--                 Schema the tables and migrate (Columns, Traces, Versions and Migrated have the proofs).
--                 View is what a reader of the index sees; Atomic, Chunks, Promote and Moves
--                 carry the proofs on transactions, Sound, Known, Overlap and Present those on what the tables hold, Sizes those on sizes;
--                 Faultless has the claims of a server without faults, Rearranged lists in another order.
--   Client        client.go: the results of the Walrus client and its methods as an interface.
--                 Backoff has backoff, Retry doWithRetry, Responses the parsing of responses and
--                 sliceBlob, Calls the five calls with their failover, over parameters for the network, JSON and the
--                 cache; Multipart the body of a quilt and its length, over a parameter for mime/multipart; Open NewClient and normalizeURLs; Parsing and Ranges have the proofs.
--   Cache         cache.go: the blob cache, with its list elements, its map and its accounting. Elements and Links have
--                 the agreement of list and map, Laws what the operations keep, Contents and Added what they
--                 find, and Runs rows of calls.
--   Datastore     walrus.go: Config and the state. Store has Has, GetSize, Get, Put, Delete, the batch
--                 and Commit; Upload has uploadPack and its three forms; Flush has the claims and
--                 flushOnePack. Walrus has the laws that a healthy Walrus obeys; Located (with
--                 Identified), Uploads, Answers, Transparent, Methods and Shadow have the proofs; Named, Shrinks
--                 and Stops those on the loop of flushStaged; Drain those on the blocks that it flushes (Packed its claims, Parts and Uploaded its
--                 uploads, Rounds and Flushed its rounds). Construct has the checks and defaults of NewWalrusDatastore, Open what it
--                 opens and starts, Opened what it returns.
--                 Listing has Query (Values its values), Batched and Commit the reads after a batch.
--                 System has the goroutines of all nodes and their interleavings: Induction, Truth,
--                 Durable and Absent carry the proofs, and Refines compares its jobs with the flusher.
--                 Renewals are not among its steps. Quiet says that an upload leaves the database.
--   Plugin        plugin/walrusds.go: the parser of the mount configuration and DiskSpec. Urls has splitURLs,
--                 Parsing what the parser accepts, Parsed what it returns.
--   Renewal       renewal.go: renewBlob and the scan of renewExpiring; Kept has the proof.
--   Common        Shared names, Go's int64 and uint64, association lists, decimal texts and errors.
--   Tests         A small Walrus that obeys the laws, and runs of the code at concrete inputs.
--
-- Texts are strings, bytes are natural numbers, times are natural numbers of nanoseconds. A table is
-- an association list by key. Postgres is not part of the repository: a statement has the effect that
-- its SQL says, at the database's `now`, and a script of outcomes says how each round trip ends. A
-- transaction is one step, which takes effect at its commit: the rows that it writes stay locked until
-- then. It runs at READ COMMITTED, where each of its statements sees what is committed when it runs:
-- in the interleaved system the DELETE statements of PromoteStaged and DeleteMany may have seen fewer
-- rows than there are at the commit (`overlap`). The lease of a claim, bound as a number of nanoseconds, is added as the interval that
-- PostgreSQL makes of it (`interval`), whose range is not modelled. The clock of a node is not that of
-- the server. The
-- order of keys in ORDER BY is the collation of the database, and is a parameter. The network behind
-- the client is a parameter too: the laws of Walrus say that stored bytes stay readable and are not
-- changed by later uploads, so they leave out the expiry of blobs. A goroutine of the interleaved system does one call of the
-- database or of Walrus at a time; a crash loses what it has in hand. Of an error only its class is kept
-- (not found, blob not found, cancelled, others by their text), not its formatted values.
--
-- Loops run on fuel where they go by chunks: putManyTx and StagePutMany have as many rounds as
-- records, and each round takes at least one record. doWithRetry has one round more than retries; a
-- negative number of retries, which NewWalrusDatastore replaces, is not in the model. The loop of
-- flushStaged has fuel for its rounds, and the eviction loop of the cache as much as elements.
--
-- Not modelled: the URLs and headers of requests, the tickers that start the workers, closing, logging.
pub mod Common
pub mod Encoding
pub mod Index
pub mod Client
pub mod Datastore
pub mod Renewal
pub mod Plugin
pub mod Tests
pub mod Cache
