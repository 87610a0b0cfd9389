-- ===== src/State/Tests/Round.antt =====
-- state/process.go on a concrete block: a deposit of 500 to a tracked account.
use rosetta.Shared.{
  ◌⊎◌, ℕ, ◌+◌, ◌^◌, ◌≡◌, refl, true, false, none, some, List, [], ◌∷◌, ◌++◌, Bytes, replicate,
  arith, inr, bytes_eq, put, delete_key, has_prefix, bytes_lt, big_endian, from_big_endian, map,
  ◌%◌,
}
use rosetta.Shared.Results.{Result, ok, err, crash}
use rosetta.Model.{BlockMeta, IndexedTransaction, TransferType, OperationType}
use rosetta.State.{Indexer}
use rosetta.State.Flow.{to_flow_identifier}
use rosetta.IndexDb.{Error, Store, balance_by_height, pad8}
use rosetta.IndexDb.Write.Totals.{ops_debit, ops_credit, AreTxns}
use rosetta.State.Blocks.Ledger.{block_of, block_balance}
use rosetta.State.Blocks.Integrity.{attempt_agrees}
use rosetta.State.Headers.Verified.{Collision}
use rosetta.State.Transactions.Grouping.{
  Segment, collection_of, txns_of, results_of, close, group_exact,
}
use rosetta.State.Transactions.Blocks.{events_credit, events_debit, process_collections-AreTxns}
use rosetta.State.Transactions.Conservation.{process_transaction_conserves}
use rosetta.State.Events.Tallies.{is_deposit, is_withdrawal, received, sent}
use rosetta.IndexDb.Database.Moved.{moved}
use rosetta.IndexDb.Database.Sorted.{sorted, empty_db}
use rosetta.IndexDb.Write.{
  index, set_genesis, set_block, collect, collect_ops, collect_op, transfer_op, update, index_next,
  index_txn, indexed_meta, apply_updates, apply_update, updates_of, set_proxies, current, own_key,
}
use rosetta.IndexDb.Write.Step.{IsStore}
use rosetta.IndexDb.Write.Start.{set_genesis_starts}
use rosetta.State.{is_proxy, is_tracked}
use rosetta.State.Cadence.{decode_event, decode_payload}
use rosetta.State.Events.{
  load_event, amount_field, optional_field, amount_in, optional_in, scan_events, scan_event,
  move_events, move_event, transfer_event, tokens_deposited, deposited_at, deposit_to, add_amount,
}
use rosetta.State.Operations.{
  operation, operations_of, create_operations, take_fees, proxy_transfers, merge_remaining, merge,
  remaining, deposit_operations, withdrawal_operations,
}
use rosetta.State.Transactions.{
  group, Transaction, TransactionResult, CollectionData, Progress, process_transaction,
  process_result, process_results, process_collections,
}
use rosetta.State.Transactions.Blocks.{no_progress}
use rosetta.State.EventHashes.{
  event_hashes, collection_hashes, collection_events, flow_events, derive_events_hash,
  derive_events_hash_v8, tree_of_events, put_events, event_v8,
}
use rosetta.State.Execution.{
  ProtoChunk, ProtoResult, convert_execution_result, convert_chunks, convert_chunk, count_of,
  convert_service_events, derive_execution_result, derive_execution_result_v8, chunks_to_v8,
  chunk_with, result_entity,
}
use rosetta.State.Blocks.{
  Spork, attempt, check_integrity, check_seal, chunks_match, self_sealed, commit, add_accounts,
}
use rosetta.State.Tests.{Item, TestEvent, cadence, curve, toy}

abbrev pub alice : Bytes
alice = 1 ∷ 0 ∷ 0 ∷ 0 ∷ 0 ∷ 0 ∷ 0 ∷ 1 ∷ []

-- 500 for alice.
abbrev events : List TestEvent
events = (("amount", Item.ufix 500) ∷ ("to", Item.optional (some alice)) ∷ []) ∷ []

abbrev result : TransactionResult
result = record {
  block_id = 7 ∷ [];
  collection_id = [];
  error_message = "";
  events =
      record {
        event_index = 0;
        payload = 0 ∷ [];
        transaction_id = [];
        transaction_index = 0;
        typ = "deposited";
      }
      ∷ [];
  status_code = 0;
  transaction_id = [];
}

abbrev collections : List CollectionData
collections =
    record { system = true; txns = record { payer = [] } ∷ []; txn_results = result ∷ [] } ∷ []

abbrev root : BlockMeta
root = record { hash = 9 ∷ []; height = 10; parent = 8 ∷ []; timestamp = 100 }

abbrev pub indexer : Indexer
indexer = record {
  accts = (alice, false) ∷ [];
  fee_addrs = [];
  last_indexed = root;
  originators = [];
  sealed_results = (7 ∷ [], 146 ∷ []) ∷ [];
  typ_proxy_created = "proxy created";
  typ_proxy_deposited = "proxy deposited";
  typ_proxy_transferred = "proxy transferred";
  typ_tokens_deposited = "deposited";
  typ_tokens_withdrawn = "withdrawn";
}

abbrev spork : Spork
spork = record { has_prev = false; next_root = none; root_block = 5; version = 8 }

abbrev chunk : ProtoChunk
chunk = record {
  collection_index = 0;
  start_state = [];
  event_collection = 1 ∷ replicate 31 0;
  service_event_count = 1;
  block_id = [];
  total_computation_used = 0;
  number_of_transactions = 1;
  index = 0;
  end_state = [];
}

abbrev exec_result : ProtoResult
exec_result = record {
  previous_result_id = [];
  block_id = [];
  chunks = chunk ∷ [];
  service_events = [];
  execution_data_id = [];
}

abbrev deposited_alice : IndexedTransaction
deposited_alice = record {
  error_message = "";
  events = transfer_event TransferType.deposit [] alice 500 ∷ [];
  failed = false;
  hash = [];
  operations = operation OperationType.transfer [] alice 500 ∷ [];
}

abbrev round_progress : Progress
round_progress = record { new_accounts = []; transactions = deposited_alice ∷ [] }

round_run :
    attempt indexer 5 spork 11 (7 ∷ []) toy (cadence events) curve false collections exec_result
    ≡ ok round_progress
unfolding cadence toy curve attempt check_integrity check_seal chunks_match self_sealed event_hashes
    collection_hashes collection_events flow_events derive_events_hash derive_events_hash_v8
    tree_of_events put_events event_v8 convert_execution_result convert_chunks convert_chunk
    count_of convert_service_events derive_execution_result derive_execution_result_v8 chunks_to_v8
    chunk_with result_entity process_collections process_results process_result process_transaction
    scan_events scan_event move_events move_event tokens_deposited deposited_at deposit_to
    load_event amount_field optional_field amount_in optional_in decode_event decode_payload
    add_amount put operations_of create_operations take_fees proxy_transfers merge_remaining merge
    remaining deposit_operations withdrawal_operations is_proxy is_tracked to_flow_identifier
    bytes_eq
round_run = refl

abbrev unopened : Store sorted
unopened = record { db = empty_db; genesis = none; latest = none }

store_of : Result Error (Store sorted) → Store sorted
store_of (ok s) = s
store_of (err e) = unopened
store_of crash = unopened

started : Store sorted
unfolding store_of
started = store_of (set_genesis sorted moved unopened root)

started_run : set_genesis sorted moved unopened root ≡ ok started
unfolding started set_genesis store_of moved
started_run = refl

started-IsStore : IsStore sorted moved started root
started-IsStore =
    (set_genesis_starts sorted moved unopened started root (λ k. refl) (omega arith) started_run
      alice 10 (omega arith)).0

alice_before : balance_by_height sorted started alice 10 ≡ ok 0
alice_before =
    (set_genesis_starts sorted moved unopened started root (λ k. refl) (omega arith) started_run
      alice 10 (omega arith)).2

state_of : Result Error (Indexer × Store sorted) → Indexer × Store sorted
state_of (ok x) = x
state_of (err e) = (indexer, unopened)
state_of crash = (indexer, unopened)

after : Indexer × Store sorted
unfolding state_of
after = state_of (commit sorted moved indexer started 11 (7 ∷ []) 101 round_progress)

committed_run : commit sorted moved indexer started 11 (7 ∷ []) 101 round_progress ≡ ok after
unfolding after state_of commit add_accounts started store_of moved set_genesis index index_next
    index_txn collect collect_ops collect_op transfer_op update apply_updates apply_update
    updates_of set_proxies set_block current own_key has_prefix bytes_eq bytes_lt big_endian
    from_big_endian pad8 delete_key
committed_run = refl

block_balance_example :
    IsStore sorted moved after.1
      (indexed_meta sorted moved 11 (7 ∷ []) (block_of 101 round_progress))
    × ((new : ℕ) × (balance_by_height sorted after.1 alice 11 ≡ ok new)
        × (new + events_debit alice false round_progress.transactions
            ≡ 0 + events_credit alice false round_progress.transactions))
unfolding bytes_eq
block_balance_example =
    block_balance sorted moved indexer started root (7 ∷ []) 101 round_progress 5 spork toy
      (cadence events) curve false collections exec_result alice false 0 started-IsStore
      (omega arith) round_run committed_run refl refl (inr refl) alice_before (omega arith)
      (omega arith)

process_transaction_run :
    process_transaction indexer (cadence events) curve [] result no_progress ≡ ok round_progress
unfolding cadence toy curve attempt check_integrity check_seal chunks_match self_sealed event_hashes
    collection_hashes collection_events flow_events derive_events_hash derive_events_hash_v8
    tree_of_events put_events event_v8 convert_execution_result convert_chunks convert_chunk
    count_of convert_service_events derive_execution_result derive_execution_result_v8 chunks_to_v8
    chunk_with result_entity process_collections process_results process_result process_transaction
    scan_events scan_event move_events move_event tokens_deposited deposited_at deposit_to
    load_event amount_field optional_field amount_in optional_in decode_event decode_payload
    add_amount put operations_of create_operations take_fees proxy_transfers merge_remaining merge
    remaining deposit_operations withdrawal_operations is_proxy is_tracked to_flow_identifier
    bytes_eq
process_transaction_run = refl

process_transaction_conserves_example :
    (txn : IndexedTransaction) × ((deposited_alice ∷ []) ≡ [] ++ (txn ∷ []))
    × (txn.hash ≡ [])
    × (ops_debit alice txn.operations ≡ sent is_withdrawal alice txn.events % 2 ^ 64)
    × (ops_credit alice txn.operations ≡ received is_deposit alice txn.events % 2 ^ 64)
unfolding bytes_eq
process_transaction_conserves_example =
    process_transaction_conserves indexer (cadence events) curve [] result no_progress alice false
      refl refl (inr refl) process_transaction_run

process_collections_run :
    process_collections indexer (cadence events) curve (7 ∷ []) false collections no_progress
    ≡ ok round_progress
unfolding cadence toy curve attempt check_integrity check_seal chunks_match self_sealed event_hashes
    collection_hashes collection_events flow_events derive_events_hash derive_events_hash_v8
    tree_of_events put_events event_v8 convert_execution_result convert_chunks convert_chunk
    count_of convert_service_events derive_execution_result derive_execution_result_v8 chunks_to_v8
    chunk_with result_entity process_collections process_results process_result process_transaction
    scan_events scan_event move_events move_event tokens_deposited deposited_at deposit_to
    load_event amount_field optional_field amount_in optional_in decode_event decode_payload
    add_amount put operations_of create_operations take_fees proxy_transfers merge_remaining merge
    remaining deposit_operations withdrawal_operations is_proxy is_tracked to_flow_identifier
    bytes_eq
process_collections_run = refl

process_collections-AreTxns_example : AreTxns round_progress.transactions
process_collections-AreTxns_example =
    process_collections-AreTxns indexer (cadence events) curve (7 ∷ []) false collections
      process_collections_run

attempt_agrees_example :
    ((hashes1 hashes2 : List Bytes) × (event_hashes toy 8 false collections ≡ ok hashes1)
      × (event_hashes toy 8 false collections ≡ ok hashes2)
      × (map (λ b. b) hashes1 ≡ map (λ b. b) hashes2))
    ⊎ Collision toy
unfolding toy bytes_eq self_sealed
attempt_agrees_example =
    attempt_agrees toy indexer indexer 5 spork 11 (7 ∷ []) (146 ∷ []) (cadence events) curve
      collections collections exec_result exec_result refl refl refl round_run round_run

abbrev of_collection : Bytes → Bytes → Transaction × TransactionResult
of_collection id hash = (
  record { payer = hash },
  record {
    block_id = 7 ∷ [];
    collection_id = id;
    error_message = "";
    events = [];
    status_code = 0;
    transaction_id = hash;
  },
)

abbrev user_segment : Segment
user_segment = record {
  head = of_collection (1 ∷ []) (10 ∷ []);
  tail = of_collection (1 ∷ []) (11 ∷ []) ∷ [];
}

abbrev system_segment : Segment
system_segment = record { head = of_collection [] (12 ∷ []); tail = [] }

group_exact_example :
    group
      (txns_of (user_segment ∷ system_segment ∷ []))
      (results_of (user_segment ∷ system_segment ∷ []))
    ≡ close (collection_of user_segment) (collection_of system_segment ∷ [])
unfolding bytes_eq
group_exact_example = group_exact user_segment (system_segment ∷ []) (refl, tt) (refl, tt, tt)
