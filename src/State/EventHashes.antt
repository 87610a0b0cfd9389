-- ===== src/State/EventHashes.antt =====
-- state/convert.go: the hash of a collection's events in each version of a spork, and
-- state/process.go: the hashes of a block's collections.
-- A write that fails ends the process, and a version without a case is a panic.
use rosetta.Shared.{
  ℕ, Bool, ◌&&◌, ◌||◌, List, [], ◌∷◌, ◌++◌, Bytes, String, ◌==◌, if◌then◌else◌, leb, map,
}
use rosetta.Shared.Results.{Result, ok, crash, ◌>>=◌, or_crash}
use rosetta.State.Events.{Abort, ChainEvent}
use rosetta.State.Flow.{Flow, Entity, ◌▸◌, zero_id, to_flow_identifier}
use rosetta.State.Transactions.{TransactionResult, CollectionData}

pub record FlowEvent : Type 0 where
  pub event_index : ℕ
  pub payload : Bytes
  pub transaction_id : Bytes
  pub transaction_index : ℕ
  pub typ : String

-- The struct of versions 1 to 7.
pub event_v1 : FlowEvent → Entity
event_v1 e =
    Entity.text e.transaction_id
    ▸ Entity.num e.event_index
    ▸ Entity.name e.typ
    ▸ Entity.num e.transaction_index
    ▸ Entity.text e.payload
    ▸ Entity.finish

unfoldable pub event_v8 : FlowEvent → Entity
event_v8 e =
    Entity.name e.typ
    ▸ Entity.text e.transaction_id
    ▸ Entity.num e.transaction_index
    ▸ Entity.num e.event_index
    ▸ Entity.text e.payload
    ▸ Entity.finish

module _ (f : Flow) where
  -- The loop of `deriveEventsHashV1`.
  pub hash_events : f.Hasher → List FlowEvent → Result Abort f.Hasher
  unfolding event_v1
  hash_events hasher [] = ok hasher
  hash_events hasher (e ∷ es) = do
    next ← or_crash (f.write hasher (f.fingerprint (event_v1 e)))
    hash_events next es

  pub derive_events_hash_v1 : List FlowEvent → Result Abort Bytes
  unfolding hash_events to_flow_identifier
  derive_events_hash_v1 events = do
    hasher ← hash_events f.new_sha3 events
    ok (to_flow_identifier (f.sum_hash hasher))

  -- The loops over a Merkle tree, for an identifier of a fingerprint and a struct of an event.
  unfoldable pub put_events :
      (Bytes → Bytes) → (FlowEvent → Entity) → f.Tree → List FlowEvent → Result Abort f.Tree
  put_events id entity tree [] = ok tree
  put_events id entity tree (e ∷ es) = do
    let fp = f.fingerprint (entity e)
    next ← or_crash (f.put_leaf tree (id fp) fp)
    put_events id entity next es

  -- A copy of the tree's hash into an identifier.
  unfoldable pub tree_of_events :
      (Bytes → Bytes) → (FlowEvent → Entity) → List FlowEvent → Result Abort Bytes
  unfolding put_events to_flow_identifier
  tree_of_events id entity events = do
    tree ← or_crash (f.new_tree 32)
    full ← put_events id entity tree events
    ok (to_flow_identifier (f.tree_hash full))

  pub derive_events_hash_v2 : List FlowEvent → Result Abort Bytes
  unfolding tree_of_events event_v1
  derive_events_hash_v2 = tree_of_events (λ fp. f.make_id (Entity.text fp)) event_v1

  pub derive_events_hash_v4 : List FlowEvent → Result Abort Bytes
  unfolding tree_of_events event_v1
  derive_events_hash_v4 = tree_of_events f.make_id_of event_v1

  unfoldable pub derive_events_hash_v8 : List FlowEvent → Result Abort Bytes
  unfolding tree_of_events event_v8
  derive_events_hash_v8 = tree_of_events f.make_id_of event_v8

  unfoldable pub derive_events_hash : ℕ → List FlowEvent → Result Abort Bytes
  unfolding derive_events_hash_v1 derive_events_hash_v2 derive_events_hash_v4 derive_events_hash_v8
  derive_events_hash version events =
      if version == 1
      then derive_events_hash_v1 events
      else if version == 2 || version == 3
      then derive_events_hash_v2 events
      else if leb 4 version && leb version 7
      then derive_events_hash_v4 events
      else if version == 8
      then derive_events_hash_v8 events
      else crash

-- The events of a result, and of a collection's results.
unfoldable pub flow_events : List ChainEvent → List FlowEvent
unfolding to_flow_identifier
flow_events = map (λ evt. record {
  event_index = evt.event_index;
  payload = evt.payload;
  transaction_id = to_flow_identifier evt.transaction_id;
  transaction_index = evt.transaction_index;
  typ = evt.typ;
})

unfoldable pub collection_events : List TransactionResult → List FlowEvent
unfolding flow_events
collection_events [] = []
collection_events (r ∷ rs) = flow_events r.events ++ collection_events rs

module _ (f : Flow) where
  unfoldable pub collection_hashes : ℕ → List CollectionData → Result Abort (List Bytes)
  unfolding derive_events_hash collection_events
  collection_hashes version [] = ok []
  collection_hashes version (col ∷ cols) = do
    hash ← derive_events_hash f version (collection_events col.txn_results)
    hashes ← collection_hashes version cols
    ok (hash ∷ hashes)

  -- `eventHashes`; the root block of a spork behind the first seals itself, with a zero hash.
  unfoldable pub event_hashes : ℕ → Bool → List CollectionData → Result Abort (List Bytes)
  unfolding collection_hashes
  event_hashes version self_sealed cols =
      if self_sealed then ok (zero_id ∷ []) else collection_hashes version cols
