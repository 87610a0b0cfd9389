-- ===== src/State/Tests.antt =====
-- Concrete values that meet the interfaces of the packages cadence, secp256k1 and flow-go.
pub mod Resync
pub mod Round
pub mod Verified
use rosetta.Shared.{
  ◌⊎◌, ℕ, zero, suc, ◌+◌, ◌^◌, ◌≤◌, ◌<◌, ◌≡◌, refl, sym, ap, ◌∙◌, Bool, true, false, Option, none,
  some, List, [], ◌∷◌, ◌++◌, Bytes, String, length, replicate, arith, inl, inr, bytes_eq, get_elem?,
  same_text, if◌then◌else◌, ltb, ltb→lt, ◌==◌, ==_iff, some_inj, by_test, find, put, delete_key,
  has_prefix, bytes_lt, big_endian, from_big_endian, map, take, min, ◌*◌, ◌%◌,
}
use rosetta.Shared.Results.{Result, ok, err, crash, ok_inj}
use rosetta.Crypto.{Curve}
use rosetta.Model.{BlockMeta, IndexedBlock, IndexedTransaction, TransferType, OperationType}
use rosetta.State.{Indexer}
use rosetta.State.Cadence.{Cadence}
use rosetta.State.Flow.{Flow, Entity, to_flow_identifier}
use rosetta.IndexDb.{Error, Store, balance_by_height, pad8}
use rosetta.IndexDb.Write.Totals.{ops_debit, ops_credit, AreTxns}
use rosetta.State.Blocks.Ledger.{block_of, block_balance}
use rosetta.State.Blocks.Integrity.{attempt_agrees}
use rosetta.State.Execution.Versions.{
  count_of_exact, AreHigh, derive_execution_result_total, derive_execution_result_unchanged,
}
use rosetta.State.Headers.Verified.{Collision, verify_block_hash_unique}
use rosetta.State.Transactions.Blocks.{events_credit, events_debit, process_collections-AreTxns}
use rosetta.State.Transactions.Conservation.{process_transaction_conserves}
use rosetta.State.Events.Tallies.{is_deposit, is_withdrawal, received, sent}
use rosetta.IndexDb.Database.Moved.{moved}
use rosetta.IndexDb.Database.Sorted.{sorted, empty_db}
use rosetta.IndexDb.Write.{
  index, set_genesis, set_block, collect, collect_ops, collect_op, transfer_op, update, index_next,
  index_txn, indexed_meta, apply_updates, apply_update, updates_of, set_proxies, current, own_key,
}
use rosetta.IndexDb.Write.Step.{IsStore}
use rosetta.IndexDb.Write.Start.{set_genesis_starts}
use rosetta.State.{is_proxy, is_tracked}
use rosetta.State.Cadence.{decode_event, decode_payload}
use rosetta.State.Events.{
  Abort, retry, load_event, amount_field, optional_field, amount_in, optional_in, scan_events,
  scan_event, move_events, move_event, transfer_event, tokens_deposited, deposited_at, deposit_to,
  add_amount,
}
use rosetta.State.Operations.{
  operation, operations_of, create_operations, take_fees, proxy_transfers, merge_remaining, merge,
  remaining, deposit_operations, withdrawal_operations,
}
use rosetta.State.Transactions.{
  Transaction, TransactionResult, CollectionData, Progress, process_transaction, process_result,
  process_results, process_collections,
}
use rosetta.State.Transactions.Blocks.{no_progress}
use rosetta.State.EventHashes.{
  event_hashes, collection_hashes, collection_events, flow_events, derive_events_hash,
  derive_events_hash_v8, tree_of_events, put_events, event_v8,
}
use rosetta.State.Execution.{
  ProtoChunk, ProtoResult, FlowExecutionResult, convert_execution_result, convert_chunks,
  convert_chunk, count_of, convert_service_events, derive_execution_result,
  derive_execution_result_v8, chunks_to_v8, chunk_with, result_entity,
}
use rosetta.State.Blocks.{
  Spork, attempt, check_integrity, check_seal, chunks_match, self_sealed, commit, add_accounts,
}

pub data Item : Type 0 where
  address : Bytes → Item
  ufix : ℕ → Item
  word : Bytes → Item
  optional : Option Bytes → Item

abbrev pub TestEvent : Type 0
TestEvent = List (String × Item)

abbrev pub lookup : String → TestEvent → Option (TestEvent ⊎ Item)
lookup name [] = none
lookup name ((n, v) ∷ es) =
    let others = lookup name es in if same_text n name then some (inr v) else others

abbrev pub address_of : TestEvent ⊎ Item → Option Bytes
address_of (inl e) = none
address_of (inr (Item.address a)) = if length a == 8 then some a else none
address_of (inr (Item.ufix n)) = none
address_of (inr (Item.word w)) = none
address_of (inr (Item.optional o)) = none

abbrev pub ufix_of : TestEvent ⊎ Item → Option ℕ
ufix_of (inl e) = none
ufix_of (inr (Item.address a)) = none
ufix_of (inr (Item.ufix n)) = if ltb n (2 ^ 64) then some n else none
ufix_of (inr (Item.word w)) = none
ufix_of (inr (Item.optional o)) = none

abbrev pub word_of : TestEvent ⊎ Item → Option Bytes
word_of (inl e) = none
word_of (inr (Item.address a)) = none
word_of (inr (Item.ufix n)) = none
word_of (inr (Item.word w)) = some w
word_of (inr (Item.optional o)) = none

abbrev pub optional_of : TestEvent ⊎ Item → Option (Option (TestEvent ⊎ Item))
optional_of (inl e) = none
optional_of (inr (Item.address a)) = none
optional_of (inr (Item.ufix n)) = none
optional_of (inr (Item.word w)) = none
optional_of (inr (Item.optional none)) = some none
optional_of (inr (Item.optional (some a))) = some (some (inr (Item.address a)))

abbrev pub event_of : TestEvent ⊎ Item → Option TestEvent
event_of (inl e) = some e
event_of (inr v) = none

pub length-address_of : (v : TestEvent ⊎ Item) (a : Bytes) → address_of v ≡ some a → length a ≡ 8
length-address_of (inl e) a r = cc
length-address_of (inr (Item.address b)) a r =
    by_test (length b == 8) r (λ y q. ap length (sym (some_inj q)) ∙ (==_iff (length b) 8).0 y)
      (λ n q. cc)
length-address_of (inr (Item.ufix n)) a r = cc
length-address_of (inr (Item.word w)) a r = cc
length-address_of (inr (Item.optional o)) a r = cc

pub ufix_of_lt : (v : TestEvent ⊎ Item) (n : ℕ) → ufix_of v ≡ some n → n < 2 ^ 64
ufix_of_lt (inl e) n r = cc
ufix_of_lt (inr (Item.address b)) n r = cc
ufix_of_lt (inr (Item.ufix m)) n r =
    by_test (ltb m (2 ^ 64)) r (λ y q. omega (arith, ltb→lt m (2 ^ 64) y, some_inj q)) (λ y q. cc)
ufix_of_lt (inr (Item.word w)) n r = cc
ufix_of_lt (inr (Item.optional o)) n r = cc

-- The payload is the number of an event.
abbrev pub decode_number : List TestEvent → Bytes → Option (TestEvent ⊎ Item)
decode_number events [] = none
decode_number events (n ∷ b) = elim (get_elem? events n) [ none ↦ none | some e ↦ some (inl e) ]

unfoldable pub cadence : List TestEvent → Cadence
cadence events = record {
  Value = TestEvent ⊎ Item;
  Event = TestEvent;
  has_ccf_prefix = λ b. false;
  ccf_decode = λ b. none;
  json_decode = decode_number events;
  as_event = event_of;
  empty_event = [];
  field_count = length;
  search_field = λ e name. lookup name e;
  as_address = address_of;
  as_ufix64 = ufix_of;
  as_string = word_of;
  as_optional = optional_of;
  address_parameter = "address";
  public_key_parameter = "publicKey";
  length-as_address = length-address_of;
  as_ufix64_lt = ufix_of_lt;
}

unfoldable pub curve : Curve
curve = record {
  PublicKey = Bytes;
  parse = λ b. some b;
  compressed = λ k. k;
  uncompressed = λ k. k;
}

abbrev pub size : Entity → ℕ
size (Entity.entry x xs) = size x + size xs + 1
size Entity.absent = 1
size Entity.finish = 0
size (Entity.name s) = 1
size (Entity.num n) = n
size (Entity.text t) = length t

unfoldable pub toy : Flow
toy = record {
  Time = ℕ;
  ServiceEvent = ℕ;
  Hasher = ℕ;
  Tree = ℕ;
  unix_nano = λ t. t;
  unix_milli = λ t. t;
  unmarshal_event = λ typ b. some (length b);
  service_event = Entity.num;
  fingerprint = λ e. size e ∷ [];
  make_id = λ e. size e ∷ [];
  make_id_of = λ b. b;
  to_state_commitment = λ b. some b;
  message_to_identifier = λ b. b;
  concat_sum = λ ids. replicate 32 (length ids);
  merkle_root = λ ids. replicate 32 (length ids);
  quorum_certificate_id = λ qc. qc.block_id;
  timeout_certificate_id = λ tc. [];
  seal_id = λ s. s.block_id;
  receipt_id = λ r. r.executor_id;
  unsigned_receipt_id = λ r. r.executor_id;
  new_sha3 = 0;
  write = λ h b. some (h + 1);
  sum_hash = λ h. h ∷ [];
  new_tree = λ n. some 0;
  put_leaf = λ t k v. some (t + 1);
  tree_hash = λ t. t ∷ [];
}
