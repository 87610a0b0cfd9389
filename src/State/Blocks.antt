-- ===== src/State/Blocks.antt =====
-- state/process.go: one round of the loop of `processBlock`, behind the fetching of a block's data.
-- The elements of a decoded list of chunks are not nil, so the test for a nil chunk is left out.
pub mod Integrity
pub mod Ledger
use rosetta.Shared.{
  ℕ, ◌+◌, ◌-◌, ◌%◌, ◌^◌, Bool, true, false, not, ◌&&◌, Option, none, some, List, [], ◌∷◌, ◌++◌,
  Bytes, bytes_eq, find, put, delete_key, ◌==◌, if◌then◌else◌, leb, length,
}
use rosetta.Shared.Results.{Result, ok, err, crash, ◌>>=◌, ◌>>◌, or_err}
use rosetta.Crypto.{Curve}
use rosetta.IndexDb.{Error, Store}
use rosetta.IndexDb.Database.{Badger, Codec}
use rosetta.IndexDb.Write.{index}
use rosetta.Model.{BlockMeta, IndexedBlock}
use rosetta.State.{Indexer}
use rosetta.State.Cadence.{Cadence}
use rosetta.State.EventHashes.{event_hashes}
use rosetta.State.Events.{Abort, retry, require}
use rosetta.State.Execution.{
  ProtoChunk, ProtoResult, convert_execution_result, derive_execution_result,
}
use rosetta.State.Flow.{Flow}
use rosetta.State.Transactions.{CollectionData, Progress, process_collections}

-- config.Spork, as far as it is read: whether it has a predecessor, and its successor's root block.
pub record Spork : Type 0 where
  pub has_prev : Bool
  pub next_root : Option ℕ
  pub root_block : ℕ
  pub version : ℕ

-- Whether a block is the self-sealed root block of a spork.
unfoldable pub self_sealed : Spork → ℕ → Bool
self_sealed spork height = spork.has_prev && height == spork.root_block

unfoldable pub chunks_match : List Bytes → List ProtoChunk → Bool
chunks_match [] [] = true
chunks_match [] (c ∷ cs) = false
chunks_match (h ∷ hs) [] = false
chunks_match (h ∷ hs) (c ∷ cs) = bytes_eq c.event_collection h && chunks_match hs cs

module _ (i : Indexer) (tolerance : ℕ) (spork : Spork) (height : ℕ) (hash : Bytes) where
  -- A block without a sealed result: whether it stands at the end of a past spork.
  pub unsealed_end : Option ℕ → Result Abort Bool
  unsealed_end none = crash
  unsealed_end (some next_root) =
      if leb ((next_root + (2 ^ 64 - tolerance)) % 2 ^ 64) height then ok true else crash

  -- Whether the block passes for unsealed, by the identifier of its result.
  unfoldable pub check_seal : Bytes → Result Abort Bool
  unfolding self_sealed unsealed_end
  check_seal result_id =
      elim (if self_sealed spork height then some result_id else find hash i.sealed_results) [
        | some sealed ↦ if bytes_eq result_id sealed then ok false else err retry
        | none ↦ unsealed_end spork.next_root
      ]

  -- The data integrity checks.
  unfoldable pub check_integrity : Flow → List Bytes → ProtoResult → Result Abort Bool
  unfolding chunks_match check_seal
  check_integrity f hashes exec_result = do
    require (length exec_result.chunks == length hashes)
    require (chunks_match hashes exec_result.chunks)
    exec ← or_err (convert_execution_result f spork.version exec_result) retry
    result_id ← derive_execution_result f spork.version exec
    check_seal result_id

  -- What a round makes of the fetched collections, execution result and timestamp.
  unfoldable pub attempt :
      Flow → Cadence → Curve → Bool → List CollectionData → ProtoResult → Result Abort Progress
  unfolding check_integrity self_sealed
  attempt f c curve skip cols exec_result = do
    hashes ← event_hashes f spork.version (self_sealed spork height) cols
    unsealed ← if skip then ok false else check_integrity f hashes exec_result
    process_collections i c curve hash skip cols (record { new_accounts = []; transactions = [] })

-- `i.accts[acct] = isProxy` for the new accounts.
unfoldable pub add_accounts : List (Bytes × Bool) → List (Bytes × Bool) → List (Bytes × Bool)
add_accounts [] accts = accts
add_accounts ((a, p) ∷ new_accounts) accts = add_accounts new_accounts (put a p accts)

-- The index's store and the indexer's state, after a block is indexed. An error of `Index` leaves both
-- as they were, and the call is made again.
unfoldable pub commit :
    (b : Badger)
    → Codec
    → Indexer
    → Store b
    → ℕ
    → Bytes
    → ℕ
    → Progress
    → Result Error (Indexer × Store b)
unfolding add_accounts index delete_key
commit b codec i s height hash timestamp pr = do
  s' ←
      index b codec s height hash (record { timestamp = timestamp; transactions = pr.transactions })
  ok (
    record i {
      accts = add_accounts pr.new_accounts i.accts;
      last_indexed = record {
        hash = hash;
        height = height;
        parent = i.last_indexed.parent;
        timestamp = i.last_indexed.timestamp;
      };
      sealed_results = delete_key hash i.sealed_results;
    },
    s',
  )
