-- ===== src/IndexDb/Write/Tests/Runs.antt =====
-- indexdb/indexdb.go: a run of calls of `Index` on a concrete store.
use rosetta.Shared.{
  ◌≡◌, refl, List, [], ◌∷◌, arith, bytes_eq, bytes_lt, has_prefix, big_endian, from_big_endian,
}
use rosetta.Shared.Results.{ok, err}
use rosetta.Model.{BlockMeta}
use rosetta.IndexDb.{hash_for_height, read_block, pad8, block_not_indexed}
use rosetta.IndexDb.Database.Sorted.{sorted}
use rosetta.IndexDb.Database.Plain.{plain}
use rosetta.IndexDb.Write.{
  index, set_genesis, set_block, collect, collect_ops, collect_op, transfer_op, update, index_next,
  index_txn, apply_updates, apply_update, updates_of, set_proxies, current, own_key,
}
use rosetta.IndexDb.Write.Step.{IsStore}
use rosetta.IndexDb.Write.Runs.{Call, index_all, highest, found, first_of, index_all_chain}
use rosetta.IndexDb.Write.Tests.{
  root, started, store1, store2, deposit, transfer, deposit_txns, transfer_txns, started-IsStore,
}

-- The block at 11, the same height again with another hash, the block at 12, and the root's height.
abbrev calls : List Call
calls =
    record { height = 11; hash = 7 ∷ []; block = deposit }
    ∷ record { height = 11; hash = 5 ∷ []; block = transfer }
    ∷ record { height = 12; hash = 6 ∷ []; block = transfer }
    ∷ record { height = 10; hash = 4 ∷ []; block = deposit }
    ∷ []

run_calls : index_all sorted plain started calls ≡ ok store2
unfolding index_all store2 store1 started set_genesis index index_next index_txn collect collect_ops
    collect_op transfer_op update apply_updates apply_update updates_of set_proxies set_block
    current own_key has_prefix bytes_eq bytes_lt big_endian from_big_endian pad8
run_calls = refl

index_all_chain_example :
    (tip : BlockMeta) × IsStore sorted plain store2 tip
    × (tip.height ≡ highest 10 calls)
    × (hash_for_height sorted store2 11
        ≡ found (λ x. x.hash) (hash_for_height sorted started 11) 10 11 calls)
    × (read_block sorted plain store2 11
        ≡ found (λ x. x.block) (read_block sorted plain started 11) 10 11 calls)
index_all_chain_example =
    index_all_chain sorted plain calls started store2 root 11 started-IsStore (omega arith)
      (deposit_txns, (transfer_txns, (transfer_txns, (deposit_txns, tt)))) run_calls (omega arith)

-- The calls make 12 the tip, and the first of the two at height 11 counts.
calls_facts :
    (highest 10 calls ≡ 12)
    × (found (λ x. x.hash) (hash_for_height sorted started 11) 10 11 calls ≡ ok (7 ∷ []))
    × (found (λ x. x.hash) (hash_for_height sorted started 13) 10 13 calls ≡ err block_not_indexed)
unfolding highest found first_of hash_for_height started set_genesis set_block has_prefix bytes_eq
    bytes_lt big_endian
calls_facts = (refl, refl, refl)
