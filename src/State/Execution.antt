-- ===== src/State/Execution.antt =====
-- state/convert.go: execution results, and their identifiers in each version of a spork.
-- A version without a case is a panic.
pub mod Commitments
pub mod Versions
use rosetta.Shared.{
  ℕ, ◌+◌, ◌%◌, ◌^◌, bit_and, ltb, Bool, true, false, not, ◌&&◌, Option, none, some, List, [], ◌∷◌,
  ◌++◌, Bytes, String, ◌==◌, if◌then◌else◌, leb, ◌>>=◌,
}
use rosetta.Shared.Results.{Result, ok, err, crash}
use rosetta.State.Events.{Abort}
use rosetta.State.Flow.{Flow, Entity, ◌▸◌, items, to_flow_identifier}

-- entities.Chunk, as far as it is read.
pub record ProtoChunk : Type 0 where
  pub collection_index : ℕ
  pub start_state : Bytes
  pub event_collection : Bytes
  pub service_event_count : ℕ
  pub block_id : Bytes
  pub total_computation_used : ℕ
  pub number_of_transactions : ℕ
  pub index : ℕ
  pub end_state : Bytes

pub record ProtoServiceEvent : Type 0 where
  pub typ : String
  pub payload : Bytes

-- entities.ExecutionResult, as far as it is read.
pub record ProtoResult : Type 0 where
  pub previous_result_id : Bytes
  pub block_id : Bytes
  pub chunks : List ProtoChunk
  pub service_events : List ProtoServiceEvent
  pub execution_data_id : Bytes

pub record FlowChunk : Type 0 where
  pub collection_index : ℕ
  pub start_state : Bytes
  pub event_collection : Bytes
  pub service_event_count : Option ℕ
  pub block_id : Bytes
  pub total_computation_used : ℕ
  pub number_of_transactions : ℕ
  pub index : ℕ
  pub end_state : Bytes

-- `none` is an error; `some none` a nil count. A version without a case leaves the count nil.
unfoldable pub count_of : ℕ → ℕ → Option (Option ℕ)
count_of version count =
    if version == 7
    then some (if ltb 0 (bit_and count 4294901760) then none else some (count % 2 ^ 16))
    else if version == 8
    then (if ltb 65535 count then none else some (some (count % 2 ^ 16)))
    else some none

module _ (f : Flow) where
  pub record FlowExecutionResult : Type 0 where
    pub block_id : Bytes
    pub chunks : List FlowChunk
    pub execution_data_id : Bytes
    pub previous_result_id : Bytes
    pub service_events : List f.ServiceEvent

  unfoldable pub convert_chunk : ℕ → ProtoChunk → Option FlowChunk
  unfolding count_of
  convert_chunk version c = do
    start_state ← f.to_state_commitment c.start_state
    end_state ← f.to_state_commitment c.end_state
    count ← count_of version c.service_event_count
    some (record {
      collection_index = c.collection_index;
      start_state = start_state;
      event_collection = f.message_to_identifier c.event_collection;
      service_event_count = count;
      block_id = f.message_to_identifier c.block_id;
      total_computation_used = c.total_computation_used;
      number_of_transactions = c.number_of_transactions;
      index = c.index;
      end_state = end_state;
    })

  unfoldable pub convert_chunks : ℕ → List ProtoChunk → Option (List FlowChunk)
  unfolding convert_chunk
  convert_chunks version [] = some []
  convert_chunks version (c ∷ cs) = do
    chunk ← convert_chunk version c
    chunks ← convert_chunks version cs
    some (chunk ∷ chunks)

  unfoldable pub convert_service_events : List ProtoServiceEvent → Option (List f.ServiceEvent)
  convert_service_events [] = some []
  convert_service_events (ev ∷ evs) = do
    event ← f.unmarshal_event ev.typ ev.payload
    events ← convert_service_events evs
    some (event ∷ events)

  -- `none` is a result of false.
  unfoldable pub convert_execution_result : ℕ → ProtoResult → Option FlowExecutionResult
  unfolding convert_chunks convert_service_events to_flow_identifier
  convert_execution_result version r = do
    chunks ← convert_chunks version r.chunks
    events ← convert_service_events r.service_events
    some (record {
      block_id = to_flow_identifier r.block_id;
      chunks = chunks;
      execution_data_id = to_flow_identifier r.execution_data_id;
      previous_result_id = to_flow_identifier r.previous_result_id;
      service_events = events;
    })

-- The chunk of versions 1 to 6.
pub chunk_to_v1 : FlowChunk → Entity
chunk_to_v1 c =
    (Entity.num c.collection_index
      ▸ Entity.text c.start_state
      ▸ Entity.text c.event_collection
      ▸ Entity.text c.block_id
      ▸ Entity.num c.total_computation_used
      ▸ Entity.num c.number_of_transactions
      ▸ Entity.finish)
    ▸ Entity.num c.index
    ▸ Entity.text c.end_state
    ▸ Entity.finish

-- A chunk with a count, which is a pointer in version 7.
unfoldable pub chunk_with : Entity → FlowChunk → Entity
chunk_with count c =
    (Entity.num c.collection_index
      ▸ Entity.text c.start_state
      ▸ Entity.text c.event_collection
      ▸ count
      ▸ Entity.text c.block_id
      ▸ Entity.num c.total_computation_used
      ▸ Entity.num c.number_of_transactions
      ▸ Entity.finish)
    ▸ Entity.num c.index
    ▸ Entity.text c.end_state
    ▸ Entity.finish

pub chunk_to_v7 : FlowChunk → Entity
unfolding chunk_with
chunk_to_v7 c =
    chunk_with (elim c.service_event_count [ none ↦ Entity.absent | some n ↦ Entity.num n ]) c

pub chunks_to_v1 : List FlowChunk → Entity
unfolding chunk_to_v1
chunks_to_v1 = items chunk_to_v1

pub chunks_to_v7 : List FlowChunk → Entity
unfolding chunk_to_v7
chunks_to_v7 = items chunk_to_v7

-- The count's pointer is read.
unfoldable pub chunks_to_v8 : List FlowChunk → Result Abort Entity
unfolding chunk_with
chunks_to_v8 [] = ok Entity.finish
chunks_to_v8 (c ∷ cs) = elim c.service_event_count [
  | none ↦ crash
  | some n ↦ elim (chunks_to_v8 cs) [
    | crash ↦ crash
    | err e ↦ err e
    | ok rest ↦ ok (Entity.entry (chunk_with (Entity.num n) c) rest)
  ]
]

-- Whether `exec.Chunks[0].ServiceEventCount` is there and nil.
pub counts_left_out : List FlowChunk → Bool
counts_left_out [] = false
counts_left_out (c ∷ cs) = elim c.service_event_count [ none ↦ true | some n ↦ false ]

module _ (f : Flow) where
  pub derive_execution_result_v1 : FlowExecutionResult f → Bytes
  unfolding chunks_to_v1
  derive_execution_result_v1 exec = f.make_id (
      Entity.text exec.previous_result_id
      ▸ Entity.text exec.block_id
      ▸ chunks_to_v1 exec.chunks
      ▸ items f.service_event exec.service_events
      ▸ Entity.finish)

  -- The struct of versions 2 and later, of the chunks of that version.
  unfoldable pub result_entity : Entity → FlowExecutionResult f → Entity
  result_entity chunks exec =
      Entity.text exec.previous_result_id
      ▸ Entity.text exec.block_id
      ▸ chunks
      ▸ items f.service_event exec.service_events
      ▸ Entity.text exec.execution_data_id
      ▸ Entity.finish

  pub derive_execution_result_v2 : FlowExecutionResult f → Bytes
  unfolding chunks_to_v1 result_entity
  derive_execution_result_v2 exec = f.make_id (result_entity (chunks_to_v1 exec.chunks) exec)

  pub derive_execution_result_v7 : FlowExecutionResult f → Bytes
  unfolding chunks_to_v7 result_entity counts_left_out derive_execution_result_v2
  derive_execution_result_v7 exec =
      if counts_left_out exec.chunks
      then derive_execution_result_v2 exec
      else f.make_id (result_entity (chunks_to_v7 exec.chunks) exec)

  unfoldable pub derive_execution_result_v8 : FlowExecutionResult f → Result Abort Bytes
  unfolding chunks_to_v8 result_entity
  derive_execution_result_v8 exec = elim (chunks_to_v8 exec.chunks) [
    | crash ↦ crash
    | err e ↦ err e
    | ok chunks ↦ ok (f.make_id (result_entity chunks exec))
  ]

  unfoldable pub derive_execution_result : ℕ → FlowExecutionResult f → Result Abort Bytes
  unfolding derive_execution_result_v1 derive_execution_result_v2 derive_execution_result_v7
      derive_execution_result_v8
  derive_execution_result version exec =
      if version == 1
      then ok (derive_execution_result_v1 exec)
      else if leb 2 version && leb version 6
      then ok (derive_execution_result_v2 exec)
      else if version == 7
      then ok (derive_execution_result_v7 exec)
      else if version == 8
      then derive_execution_result_v8 exec
      else crash
