-- ===== src/IndexDb/Write/Tests/Unloaded.antt =====
-- indexdb/indexdb.go: a concrete store whose genesis block is in the database only.
use rosetta.Shared.{
  ◌≡◌, refl, none, some, [], ◌∷◌, bytes_eq, bytes_lt, has_prefix, big_endian, from_big_endian,
}
use rosetta.Shared.Results.{ok}
use rosetta.IndexDb.{Store, genesis, hash_for_height, read_block, pad8}
use rosetta.IndexDb.Database.Sorted.{sorted}
use rosetta.IndexDb.Database.Plain.{plain}
use rosetta.IndexDb.Write.{
  index, set_genesis, set_block, collect, collect_ops, collect_op, transfer_op, update, index_next,
  index_txn, apply_updates, apply_update, updates_of, set_proxies, current, own_key,
}
use rosetta.IndexDb.Write.Step.{IsStore}
use rosetta.IndexDb.Write.Tests.{
  root, started, store1, store2, top2, store2-IsStore, deposit, hash-store2, block-store2,
}

pub unloaded : Store sorted
unloaded = record store2 { genesis = none }

pub unloaded-IsStore : IsStore sorted plain unloaded top2
unfolding unloaded
unloaded-IsStore = record { latest_eq = store2-IsStore.latest_eq; indexed = store2-IsStore.indexed }

pub unloaded_genesis :
    genesis sorted plain unloaded ≡ ok (record unloaded { genesis = some root }, some root)
unfolding genesis unloaded store2 store1 started set_genesis index index_next index_txn collect
    collect_ops collect_op transfer_op update apply_updates apply_update updates_of set_proxies
    set_block current own_key has_prefix bytes_eq bytes_lt big_endian from_big_endian pad8
unloaded_genesis = refl

pub unloaded_hash : hash_for_height sorted unloaded 11 ≡ ok (7 ∷ [])
unfolding unloaded hash_for_height
unloaded_hash = hash-store2

pub unloaded_block : read_block sorted plain unloaded 11 ≡ ok deposit
unfolding unloaded read_block
unloaded_block = block-store2
