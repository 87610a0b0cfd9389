-- ===== src/IndexDb/Reset/Tests.antt =====
-- indexdb/indexdb.go: `ResetTo` on a store that holds a deposit at height 11 and a transfer at 12.
use rosetta.Shared.{◌≡◌, refl, arith, [], ◌∷◌, Bytes}
use rosetta.Shared.Results.{ok, err}
use rosetta.IndexDb.{balance_by_height, hash_for_height, read_block, block_not_indexed}
use rosetta.IndexDb.Database.Sorted.{sorted}
use rosetta.IndexDb.Database.Plain.{plain}
use rosetta.IndexDb.Write.{indexed_meta}
use rosetta.IndexDb.Write.Step.{IsStore}
use rosetta.IndexDb.Write.Tests.{store2, top2, store2-IsStore, hash-store2, block-store2, deposit}
use rosetta.IndexDb.Reset.{reset_to}
use rosetta.IndexDb.Reset.History.{reset_to-IsStore, reset_to_keeps, reset_to_drops}

reset_to-IsStore_example :
    ((reset_to sorted plain store2 11).1 ≡ ok tt)
    × IsStore sorted plain
        (reset_to sorted plain store2 11).0
        (indexed_meta sorted plain 11 (7 ∷ []) deposit)
reset_to-IsStore_example =
    reset_to-IsStore sorted plain store2 top2 11 store2-IsStore (omega arith) (7 ∷ []) _ deposit
      hash-store2 block-store2 refl

reset_to_keeps_example :
    ((a : Bytes)
      → balance_by_height sorted (reset_to sorted plain store2 11).0 a 10
        ≡ balance_by_height sorted store2 a 10)
    × (hash_for_height sorted (reset_to sorted plain store2 11).0 10
        ≡ hash_for_height sorted store2 10)
    × (read_block sorted plain (reset_to sorted plain store2 11).0 10
        ≡ read_block sorted plain store2 10)
reset_to_keeps_example =
    reset_to_keeps sorted plain store2 top2 11 store2-IsStore (omega arith) (7 ∷ []) _ deposit
      hash-store2 block-store2 refl 10 (omega arith)

reset_to_drops_example :
    (hash_for_height sorted (reset_to sorted plain store2 11).0 12 ≡ err block_not_indexed)
    × ((a : Bytes)
        → balance_by_height sorted (reset_to sorted plain store2 11).0 a 12
          ≡ balance_by_height sorted store2 a 11)
reset_to_drops_example =
    reset_to_drops sorted plain store2 top2 11 store2-IsStore (omega arith) (7 ∷ []) _ deposit
      hash-store2 block-store2 refl 12 (omega arith) (omega arith)
