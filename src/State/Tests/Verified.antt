-- ===== src/State/Tests/Verified.antt =====
-- state/convert.go and state/state.go on a concrete header, block and execution result.
use rosetta.Shared.{
  ◌⊎◌, ℕ, zero, suc, ◌*◌, ◌^◌, ◌≡◌, refl, min, true, Option, none, some, [], ◌∷◌, Bytes, replicate,
  arith, bytes_eq,
}
use rosetta.Shared.Results.{ok}
use rosetta.Model.{BlockMeta}
use rosetta.State.Execution.{
  ProtoChunk, ProtoResult, FlowExecutionResult, convert_execution_result, convert_chunks,
  convert_chunk, count_of, convert_service_events, derive_execution_result,
}
use rosetta.State.Execution.Versions.{
  count_of_exact, derive_execution_result_total, derive_execution_result_unchanged,
}
use rosetta.State.Flow.{to_flow_identifier, to_identifier_slice}
use rosetta.State.Headers.{
  ProtoHeader, ProtoBlock, verify_block_hash, verify_header, payload_of, timeout_of, header_of,
  derive_block_hash, derive_block_hash_v8, ids_of, result_ids, derive_payload_hash,
}
use rosetta.State.Headers.Total.{Returns, verify_block_hash_total}
use rosetta.State.Headers.Verified.{Collision, verify_block_hash_unique}
use rosetta.State.Parents.{add_seals, verified_parent, hashes_down, numbered, index_past_sporks}
use rosetta.State.Parents.Chained.{
  backoff_after, next_backoff_grows, Linked, index_past_sporks-Linked, verified_parent_agrees,
  verified_parent_any,
}
use rosetta.State.Tests.{toy}

count_of_exact_example :
    (count_of 7 65536 ≡ some none) × (count_of 8 65536 ≡ none) × (count_of 6 65536 ≡ some none)
count_of_exact_example = count_of_exact 6 65536 (omega arith) (omega arith)

-- A chunk whose count has a high bit set.
abbrev chunk : ProtoChunk
chunk = record {
  collection_index = 2;
  start_state = 1 ∷ [];
  event_collection = 3 ∷ [];
  service_event_count = 65536;
  block_id = 4 ∷ [];
  total_computation_used = 5;
  number_of_transactions = 6;
  index = 0;
  end_state = 2 ∷ [];
}

abbrev result : ProtoResult
result = record {
  previous_result_id = 8 ∷ [];
  block_id = 4 ∷ [];
  chunks = chunk ∷ [];
  service_events = [];
  execution_data_id = 9 ∷ [];
}

converted : FlowExecutionResult toy
unfolding toy
converted = record {
  block_id = 4 ∷ replicate 31 0;
  chunks =
      record {
        collection_index = 2;
        start_state = 1 ∷ [];
        event_collection = 3 ∷ [];
        service_event_count = none;
        block_id = 4 ∷ [];
        total_computation_used = 5;
        number_of_transactions = 6;
        index = 0;
        end_state = 2 ∷ [];
      }
      ∷ [];
  execution_data_id = 9 ∷ replicate 31 0;
  previous_result_id = 8 ∷ replicate 31 0;
  service_events = [];
}

converted_run : convert_execution_result toy 6 result ≡ some converted
unfolding toy converted convert_execution_result convert_chunks convert_chunk count_of
    convert_service_events to_flow_identifier
converted_run = refl

derive_execution_result_total_example :
    (id : Bytes) × (derive_execution_result toy 6 converted ≡ ok id)
derive_execution_result_total_example =
    derive_execution_result_total toy 6 result (omega arith) (omega arith) converted_run

derive_execution_result_unchanged_example :
    (convert_execution_result toy 7 result ≡ some converted)
    × (derive_execution_result toy 7 converted ≡ derive_execution_result toy 6 converted)
derive_execution_result_unchanged_example =
    derive_execution_result_unchanged toy result (omega arith, omega arith, tt) converted_run

abbrev hash : Bytes
hash = 121 ∷ []

header : ProtoHeader toy
unfolding toy
header = record {
  id = hash;
  height = 12;
  parent_id = 3 ∷ [];
  parent_voter_ids = [];
  parent_voter_indices = [];
  parent_voter_sig_data = [];
  payload_hash = replicate 32 5;
  proposer_id = 1 ∷ [];
  proposer_sig_data = [];
  timestamp = 1;
  view = 1;
  last_view_tc = none;
  parent_view = 0;
}

abbrev block : ProtoBlock
block = record {
  id = hash;
  parent_id = 3 ∷ [];
  collection_guarantees = [];
  block_seals = [];
  receipt_metas = [];
  execution_results = [];
  protocol_state_id = [];
}

verified_run : verify_block_hash toy 8 [] hash header block ≡ ok true
unfolding toy header verify_block_hash verify_header payload_of timeout_of header_of
    derive_block_hash derive_block_hash_v8 ids_of result_ids derive_payload_hash to_flow_identifier
    to_identifier_slice bytes_eq
verified_run = refl

verify_block_hash_total_example : Returns (verify_block_hash toy 8 [] hash header block)
verify_block_hash_total_example =
    verify_block_hash_total toy 8 (omega arith) (omega arith) [] hash header block

verify_block_hash_unique_example :
    ((to_flow_identifier header.parent_id ≡ to_flow_identifier header.parent_id)
      × (header.height ≡ header.height)
      × (to_flow_identifier header.payload_hash ≡ to_flow_identifier header.payload_hash)
      × (payload_of toy 8 block ≡ payload_of toy 8 block))
    ⊎ Collision toy
verify_block_hash_unique_example =
    verify_block_hash_unique toy 8 8 [] [] hash header header block block verified_run verified_run

parent_run : verified_parent toy 8 [] hash header block [] ≡ ok (3 ∷ [], [])
unfolding toy header verified_parent add_seals verify_block_hash verify_header payload_of timeout_of
    header_of derive_block_hash derive_block_hash_v8 ids_of result_ids derive_payload_hash
    to_flow_identifier to_identifier_slice bytes_eq
parent_run = refl

verified_parent_agrees_example :
    (to_flow_identifier (3 ∷ []) ≡ to_flow_identifier (3 ∷ [])) ⊎ Collision toy
unfolding header
verified_parent_agrees_example =
    verified_parent_agrees toy 8 [] hash header header block block [] [] parent_run parent_run refl
      refl

-- The header's parent is another.
verified_parent_any_example :
    verified_parent toy 8 [] hash header (record block { parent_id = 66 ∷ [] }) []
    ≡ ok (66 ∷ [], [])
verified_parent_any_example = verified_parent_any toy 8 [] hash header block [] (66 ∷ []) parent_run

next_backoff_grows_example : backoff_after 30 5 1 ≡ min 30 (1 * 2 ^ 5)
next_backoff_grows_example = next_backoff_grows 30 5 1 (omega arith) (omega arith)

abbrev live : BlockMeta
live = record { hash = 12 ∷ []; height = 12; parent = 11 ∷ []; timestamp = 0 }

abbrev last : BlockMeta
last = record { hash = 9 ∷ []; height = 9; parent = []; timestamp = 0 }

-- Each block's hash is its height, and its parent the height below.
abbrev parent_of : Bytes → ℕ → Option Bytes
parent_of h zero = none
parent_of h (suc n) = some (n ∷ [])

past_run :
    index_past_sporks parent_of live last 10
    ≡ some ((10, 10 ∷ []) ∷ (11, 11 ∷ []) ∷ (12, 12 ∷ []) ∷ [])
unfolding index_past_sporks hashes_down numbered bytes_eq
past_run = refl

index_past_sporks-Linked_example :
    Linked parent_of live (9 ∷ []) 10 ((10, 10 ∷ []) ∷ (11, 11 ∷ []) ∷ (12, 12 ∷ []) ∷ [])
index_past_sporks-Linked_example =
    index_past_sporks-Linked parent_of live last 10 (omega arith) past_run
