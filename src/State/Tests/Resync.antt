-- ===== src/State/Tests/Resync.antt =====
-- state/state.go: `handleResyncFrom` to height 11 of a store that holds a deposit there and a transfer
-- at 12, and whose genesis block is in the database only.
use rosetta.Shared.{◌≡◌, refl, [], ◌∷◌, arith}
use rosetta.Shared.Results.{ok}
use rosetta.IndexDb.{Store}
use rosetta.IndexDb.Database.Sorted.{sorted}
use rosetta.IndexDb.Database.Plain.{plain}
use rosetta.IndexDb.Write.{indexed_meta}
use rosetta.IndexDb.Write.Step.{IsStore}
use rosetta.IndexDb.Write.Tests.{top2, deposit}
use rosetta.IndexDb.Write.Tests.Unloaded.{
  unloaded, unloaded-IsStore, unloaded_genesis, unloaded_hash, unloaded_block,
}
use rosetta.State.Parents.{handle_resync_from}
use rosetta.State.Parents.Resync.{handle_resync_from_resets}
use rosetta.State.Tests.Round.{indexer}

handle_resync_from_resets_example :
    (s' : Store sorted) × (handle_resync_from sorted plain 11 indexer unloaded
      ≡ ok (record indexer { last_indexed = indexed_meta sorted plain 11 (7 ∷ []) deposit }, s'))
    × IsStore sorted plain s' (indexed_meta sorted plain 11 (7 ∷ []) deposit)
handle_resync_from_resets_example =
    handle_resync_from_resets sorted plain unloaded top2 11 indexer unloaded-IsStore (omega arith)
      (omega arith) unloaded_genesis (omega arith) unloaded_hash unloaded_block refl
