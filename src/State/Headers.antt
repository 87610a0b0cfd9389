-- ===== src/State/Headers.antt =====
-- state/convert.go: the hash of a block's header, and the check of a block against its hash.
-- A version without a case is a panic. The log lines are left out.
pub mod Total
pub mod Verified
use rosetta.Shared.{
  ℕ, ◌+◌, Bool, true, false, not, ◌&&◌, ◌||◌, Option, none, some, List, [], ◌∷◌, ◌++◌, Bytes,
  bytes_eq, String, ◌==◌, if◌then◌else◌, leb, map,
}
use rosetta.Shared.Results.{Result, ok, err, crash, ◌>>=◌}
use rosetta.State.Events.{Abort}
use rosetta.State.Flow.{
  Flow, Entity, ◌▸◌, items, QuorumCertificate, TimeoutCertificate, AggregatedSignature, Seal,
  ReceiptStub, zero_id, to_flow_identifier, to_identifier_slice, to_signature_slice,
}
use rosetta.State.Execution.{ProtoResult, convert_execution_result, derive_execution_result}

-- entities.TimeoutCertificate; `none` is a nil pointer.
pub record ProtoTimeout : Type 0 where
  pub view : ℕ
  pub high_qc_views : List ℕ
  pub highest_qc : Option QuorumCertificate
  pub signer_indices : Bytes
  pub sig_data : Bytes

-- entities.CollectionGuarantee, as far as it is read.
pub record Guarantee : Type 0 where
  pub collection_id : Bytes
  pub reference_block_id : Bytes
  pub cluster_chain_id : Bytes
  pub signer_indices : Bytes
  pub signature : Bytes

-- entities.ExecutionReceiptMeta, as far as it is read.
pub record ReceiptMeta : Type 0 where
  pub executor_id : Bytes
  pub result_id : Bytes
  pub spocks : List Bytes
  pub executor_signature : Bytes

-- entities.Block, as far as it is read here.
pub record ProtoBlock : Type 0 where
  pub id : Bytes
  pub parent_id : Bytes
  pub collection_guarantees : List Guarantee
  pub block_seals : List Seal
  pub receipt_metas : List ReceiptMeta
  pub execution_results : List ProtoResult
  pub protocol_state_id : Bytes

module _ (f : Flow) where
  -- entities.BlockHeader, as far as it is read; the time is `Timestamp.AsTime().UTC()`.
  pub record ProtoHeader : Type 0 where
    pub id : Bytes
    pub height : ℕ
    pub parent_id : Bytes
    pub parent_voter_ids : List Bytes
    pub parent_voter_indices : Bytes
    pub parent_voter_sig_data : Bytes
    pub payload_hash : Bytes
    pub proposer_id : Bytes
    pub proposer_sig_data : Bytes
    pub timestamp : f.Time
    pub view : ℕ
    pub last_view_tc : Option ProtoTimeout
    pub parent_view : ℕ

  pub record FlowHeader : Type 0 where
    pub chain_id : Bytes
    pub height : ℕ
    pub parent_id : Bytes
    pub parent_voter_ids : List Bytes
    pub parent_voter_indices : Bytes
    pub parent_voter_sig_data : Bytes
    pub payload_hash : Bytes
    pub proposer_id : Bytes
    pub proposer_sig_data : Bytes
    pub timestamp : f.Time
    pub view : ℕ
    pub last_view_tc : Option TimeoutCertificate
    pub parent_view : ℕ

  pub derive_timeout_certificate_hash_v5 : Option TimeoutCertificate → Bytes
  derive_timeout_certificate_hash_v5 none = zero_id
  derive_timeout_certificate_hash_v5 (some tc) = f.make_id (
      Entity.num tc.view
      ▸ items Entity.num tc.newest_qc_views
      ▸ Entity.text (f.quorum_certificate_id tc.newest_qc)
      ▸ Entity.text tc.signer_indices
      ▸ Entity.text tc.sig_data
      ▸ Entity.finish)

  pub derive_block_hash_v1 : FlowHeader → Bytes
  derive_block_hash_v1 hdr = f.make_id (
      Entity.text hdr.chain_id
      ▸ Entity.text hdr.parent_id
      ▸ Entity.num hdr.height
      ▸ Entity.text hdr.payload_hash
      ▸ Entity.num (f.unix_nano hdr.timestamp)
      ▸ Entity.num hdr.view
      ▸ items Entity.text hdr.parent_voter_ids
      ▸ Entity.text hdr.parent_voter_sig_data
      ▸ Entity.text hdr.proposer_id
      ▸ Entity.finish)

  pub derive_block_hash_v3 : FlowHeader → Bytes
  derive_block_hash_v3 hdr = f.make_id (
      Entity.text hdr.chain_id
      ▸ Entity.text hdr.parent_id
      ▸ Entity.num hdr.height
      ▸ Entity.text hdr.payload_hash
      ▸ Entity.num (f.unix_nano hdr.timestamp)
      ▸ Entity.num hdr.view
      ▸ Entity.text hdr.parent_voter_indices
      ▸ Entity.text hdr.parent_voter_sig_data
      ▸ Entity.text hdr.proposer_id
      ▸ Entity.finish)

  pub derive_block_hash_v5 : FlowHeader → Bytes
  unfolding derive_timeout_certificate_hash_v5
  derive_block_hash_v5 hdr = f.make_id (
      Entity.text hdr.chain_id
      ▸ Entity.text hdr.parent_id
      ▸ Entity.num hdr.height
      ▸ Entity.text hdr.payload_hash
      ▸ Entity.num (f.unix_nano hdr.timestamp)
      ▸ Entity.num hdr.view
      ▸ Entity.num hdr.parent_view
      ▸ Entity.text hdr.parent_voter_indices
      ▸ Entity.text hdr.parent_voter_sig_data
      ▸ Entity.text hdr.proposer_id
      ▸ Entity.text (derive_timeout_certificate_hash_v5 hdr.last_view_tc)
      ▸ Entity.finish)

  unfoldable pub derive_block_hash_v8 : FlowHeader → Bytes
  derive_block_hash_v8 hdr = f.make_id (
      Entity.text hdr.chain_id
      ▸ Entity.text hdr.parent_id
      ▸ Entity.num hdr.height
      ▸ Entity.text hdr.payload_hash
      ▸ Entity.num (f.unix_milli hdr.timestamp)
      ▸ Entity.num hdr.view
      ▸ Entity.num hdr.parent_view
      ▸ Entity.text hdr.parent_voter_indices
      ▸ Entity.text hdr.parent_voter_sig_data
      ▸ Entity.text hdr.proposer_id
      ▸ Entity.text (f.timeout_certificate_id hdr.last_view_tc)
      ▸ Entity.finish)

  unfoldable pub derive_block_hash : ℕ → FlowHeader → Result Abort Bytes
  unfolding derive_block_hash_v1 derive_block_hash_v3 derive_block_hash_v5 derive_block_hash_v8
  derive_block_hash version hdr =
      if version == 1 || version == 2
      then ok (derive_block_hash_v1 hdr)
      else if version == 3 || version == 4
      then ok (derive_block_hash_v3 hdr)
      else if leb 5 version && leb version 7
      then ok (derive_block_hash_v5 hdr)
      else if version == 8
      then ok (derive_block_hash_v8 hdr)
      else crash

  pub derive_execution_receipt_hash : ℕ → ReceiptStub → Result Abort Bytes
  derive_execution_receipt_hash version receipt =
      if leb 1 version && leb version 7
      then ok (f.unsigned_receipt_id receipt)
      else if version == 8
      then ok (f.receipt_id receipt)
      else crash

  pub derive_collection_guarantee_id : ℕ → Guarantee → Result Abort Bytes
  unfolding to_flow_identifier
  derive_collection_guarantee_id version g =
      if leb 1 version && leb version 7
      then ok (to_flow_identifier g.collection_id)
      else if version == 8
      then ok (
          f.make_id (
            Entity.text (to_flow_identifier g.collection_id)
            ▸ Entity.text (to_flow_identifier g.reference_block_id)
            ▸ Entity.text g.cluster_chain_id
            ▸ Entity.text g.signer_indices
            ▸ Entity.text g.signature
            ▸ Entity.finish))
      else crash

  unfoldable pub derive_payload_hash :
      ℕ → Bytes → Bytes → Bytes → Bytes → Bytes → Result Abort Bytes
  derive_payload_hash version collection_hash seal_hash receipt_hash result_hash protocol_state_id =
      if leb 1 version && leb version 6
      then ok (f.concat_sum (collection_hash ∷ seal_hash ∷ receipt_hash ∷ result_hash ∷ []))
      else if version == 7 || version == 8
      then ok (
          f.concat_sum
            (collection_hash ∷ seal_hash ∷ receipt_hash ∷ result_hash ∷ protocol_state_id ∷ []))
      else crash

  -- A loop that appends an identifier for each element.
  unfoldable pub ids_of :
      {A : Type 0} → (A → Result Abort Bytes) → List A → Result Abort (List Bytes)
  ids_of id [] = ok []
  ids_of id (x ∷ xs) = do first ← id x; rest ← ids_of id xs; ok (first ∷ rest)

  pub seal_of : Seal → Seal
  unfolding to_flow_identifier to_identifier_slice to_signature_slice
  seal_of src = record {
    block_id = to_flow_identifier src.block_id;
    result_id = to_flow_identifier src.result_id;
    final_state = to_flow_identifier src.final_state;
    aggregated_approval_sigs =
        map
          (λ sig. record {
            signer_ids = to_identifier_slice sig.signer_ids;
            verifier_signatures = to_signature_slice sig.verifier_signatures;
          })
          src.aggregated_approval_sigs;
  }

  pub receipt_of : ReceiptMeta → ReceiptStub
  unfolding to_flow_identifier to_signature_slice
  receipt_of src = record {
    executor_id = to_flow_identifier src.executor_id;
    result_id = to_flow_identifier src.result_id;
    spocks = to_signature_slice src.spocks;
    executor_signature = src.executor_signature;
  }

  -- The identifiers of the execution results; `none` where one is not converted.
  unfoldable pub result_ids : ℕ → List ProtoResult → Result Abort (Option (List Bytes))
  unfolding convert_execution_result derive_execution_result
  result_ids version [] = ok (some [])
  result_ids version (r ∷ rs) = elim (convert_execution_result f version r) [
    | none ↦ ok none
    | some exec ↦ (do
      id ← derive_execution_result f version exec
      rest ← result_ids version rs
      ok (elim rest [ none ↦ none | some ids ↦ some (id ∷ ids) ]))
  ]

  -- `none` is an error in the structure of the header's timeout certificate.
  unfoldable pub timeout_of : Option ProtoTimeout → Option (Option TimeoutCertificate)
  unfolding to_flow_identifier
  timeout_of none = some none
  timeout_of (some tc) = elim tc.highest_qc [
    | none ↦ none
    | some qc ↦ some (
        some (record {
          view = tc.view;
          newest_qc_views = tc.high_qc_views;
          newest_qc = record qc { block_id = to_flow_identifier qc.block_id };
          signer_indices = tc.signer_indices;
          sig_data = tc.sig_data;
        }))
  ]

  unfoldable pub header_of : Bytes → Option TimeoutCertificate → ProtoHeader → FlowHeader
  unfolding to_flow_identifier to_identifier_slice
  header_of chain_id last_view_tc hdr = record {
    chain_id = chain_id;
    height = hdr.height;
    parent_id = to_flow_identifier hdr.parent_id;
    parent_voter_ids = to_identifier_slice hdr.parent_voter_ids;
    parent_voter_indices = hdr.parent_voter_indices;
    parent_voter_sig_data = hdr.parent_voter_sig_data;
    payload_hash = to_flow_identifier hdr.payload_hash;
    proposer_id = to_flow_identifier hdr.proposer_id;
    proposer_sig_data = hdr.proposer_sig_data;
    timestamp = hdr.timestamp;
    view = hdr.view;
    last_view_tc = last_view_tc;
    parent_view = hdr.parent_view;
  }

  -- The hash of the block's payload; `none` where an execution result is not converted.
  unfoldable pub payload_of : ℕ → ProtoBlock → Result Abort (Option Bytes)
  unfolding ids_of seal_of receipt_of result_ids derive_payload_hash derive_collection_guarantee_id
      derive_execution_receipt_hash to_flow_identifier
  payload_of version block = do
    guarantee_ids ← ids_of (derive_collection_guarantee_id version) block.collection_guarantees
    receipt_ids ←
        ids_of (λ src. derive_execution_receipt_hash version (receipt_of src)) block.receipt_metas
    results ← result_ids version block.execution_results
    elim results [
      | none ↦ ok none
      | some ids ↦ (do
        hash ←
            derive_payload_hash version (f.merkle_root guarantee_ids)
              (f.merkle_root (map (λ src. f.seal_id (seal_of src)) block.block_seals))
              (f.merkle_root receipt_ids) (f.merkle_root ids)
              (to_flow_identifier block.protocol_state_id)
        ok (some hash))
    ]

  -- The rest of `verifyBlockHash`, behind the header's timeout certificate.
  unfoldable pub verify_header : ℕ → Bytes → FlowHeader → ProtoBlock → Result Abort Bool
  unfolding derive_block_hash payload_of
  verify_header version hash xhdr block = do
    block_id ← derive_block_hash version xhdr
    if bytes_eq block_id hash
        then (do
          payload ← payload_of version block
          ok (elim payload [ none ↦ false | some id ↦ bytes_eq id xhdr.payload_hash ]))
        else ok false

  -- `verifyBlockHash`; the chain's identifier is "flow-" and the network.
  unfoldable pub verify_block_hash :
      ℕ → Bytes → Bytes → ProtoHeader → ProtoBlock → Result Abort Bool
  unfolding timeout_of header_of verify_header
  verify_block_hash version chain_id hash hdr block = elim (timeout_of hdr.last_view_tc) [
    | none ↦ ok false
    | some tc ↦ verify_header version hash (header_of chain_id tc hdr) block
  ]
