-- ===== src/State/Flow.antt =====
-- What state/convert.go uses of flow-go: the entities it hashes, the hashes, and the types that it
-- fills.
use rosetta.Shared.{ℕ, Option, List, [], ◌∷◌, ◌++◌, Bytes, String, take, replicate, map}

-- What `MakeID` and `Fingerprint` read of a Go value: the fields of a struct and the elements of a
-- slice, in their order. `absent` is a nil pointer.
pub data Entity : Type 0 where
  absent : Entity
  finish : Entity
  name : String → Entity
  num : ℕ → Entity
  text : Bytes → Entity
  entry : Entity → Entity → Entity

infixr 5 ◌▸◌
abbrev pub ◌▸◌ : Entity → Entity → Entity
x ▸ xs = Entity.entry x xs

abbrev pub items {ℓ} : {A : Type ℓ} → (A → Entity) → List A → Entity
items f [] = Entity.finish
items f (x ∷ xs) = Entity.entry (f x) (items f xs)

pub record QuorumCertificate : Type 0 where
  pub view : ℕ
  pub block_id : Bytes
  pub signer_indices : Bytes
  pub sig_data : Bytes

pub record TimeoutCertificate : Type 0 where
  pub view : ℕ
  pub newest_qc_views : List ℕ
  pub newest_qc : QuorumCertificate
  pub signer_indices : Bytes
  pub sig_data : Bytes

pub record AggregatedSignature : Type 0 where
  pub signer_ids : List Bytes
  pub verifier_signatures : List Bytes

pub record Seal : Type 0 where
  pub block_id : Bytes
  pub result_id : Bytes
  pub final_state : Bytes
  pub aggregated_approval_sigs : List AggregatedSignature

pub record ReceiptStub : Type 0 where
  pub executor_id : Bytes
  pub result_id : Bytes
  pub spocks : List Bytes
  pub executor_signature : Bytes

-- `fingerprint` is Fingerprint, `make_id` MakeID, `make_id_of` MakeIDFromFingerPrint. An identifier is
-- an array of 32 bytes. A write to the hasher and an insertion into the tree may fail.
pub record Flow : Type 1 where
  pub Time : Type 0
  pub ServiceEvent : Type 0
  pub Hasher : Type 0
  pub Tree : Type 0
  pub unix_nano : Time → ℕ
  pub unix_milli : Time → ℕ
  pub unmarshal_event : String → Bytes → Option ServiceEvent
  pub service_event : ServiceEvent → Entity
  pub fingerprint : Entity → Bytes
  pub make_id : Entity → Bytes
  pub make_id_of : Bytes → Bytes
  pub to_state_commitment : Bytes → Option Bytes
  pub message_to_identifier : Bytes → Bytes
  pub concat_sum : List Bytes → Bytes
  pub merkle_root : List Bytes → Bytes
  pub quorum_certificate_id : QuorumCertificate → Bytes
  pub timeout_certificate_id : Option TimeoutCertificate → Bytes
  pub seal_id : Seal → Bytes
  pub receipt_id : ReceiptStub → Bytes
  pub unsigned_receipt_id : ReceiptStub → Bytes
  pub new_sha3 : Hasher
  pub write : Hasher → Bytes → Option Hasher
  pub sum_hash : Hasher → Bytes
  pub new_tree : ℕ → Option Tree
  pub put_leaf : Tree → Bytes → Bytes → Option Tree
  pub tree_hash : Tree → Bytes

abbrev pub zero_id : Bytes
zero_id = replicate 32 0

-- A copy into an array of 32 zeros.
unfoldable pub to_flow_identifier : Bytes → Bytes
to_flow_identifier v = take 32 (v ++ zero_id)

unfoldable pub to_identifier_slice : List Bytes → List Bytes
unfolding to_flow_identifier
to_identifier_slice = map to_flow_identifier

-- Copies of the same lengths.
unfoldable pub to_signature_slice : List Bytes → List Bytes
to_signature_slice [] = []
to_signature_slice (sig ∷ sigs) = sig ∷ to_signature_slice sigs
