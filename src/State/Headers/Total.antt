-- ===== src/State/Headers/Total.antt =====
-- state/convert.go: `verifyBlockHash` does not panic in the known versions.
use rosetta.Shared.{
  ℕ, ◌≤◌, ◌≡◌, refl, Bool, true, false, ◌&&◌, ◌||◌, Option, none, some, List, [], ◌∷◌, Bytes,
  bytes_eq, ◌==◌, if◌then◌else◌, leb, arith, map,
}
use rosetta.Shared.Results.{Result, ok, err, crash, ◌>>=◌}
use rosetta.State.Events.{Abort}
use rosetta.State.Flow.{Flow, TimeoutCertificate, to_flow_identifier}
use rosetta.State.Execution.{
  ProtoResult, FlowExecutionResult, convert_execution_result, derive_execution_result,
}
use rosetta.State.Execution.Versions.{derive_execution_result_total}
use rosetta.State.Headers.{
  ProtoHeader, FlowHeader, ProtoBlock, Guarantee, ReceiptMeta, derive_block_hash,
  derive_execution_receipt_hash, derive_collection_guarantee_id, derive_payload_hash, ids_of,
  receipt_of, seal_of, result_ids, timeout_of, header_of, payload_of, verify_header,
  verify_block_hash,
}

-- That a computation returns.
abbrev pub Returns {ℓ} : {A : Type ℓ} → Result Abort A → Type ℓ
Returns {A = A} run = (x : A) × (run ≡ ok x)

>>=-Returns :
    {A B : Type 0} (first : Result Abort A) (next : A → Result Abort B)
    → Returns first
    → ((x : A) → Returns (next x))
    → Returns (first >>= next)
>>=-Returns (ok x) next done rest = rest x
>>=-Returns (err e) next (x, r) rest = cc
>>=-Returns crash next (x, r) rest = cc

if-Returns :
    {A : Type 0} (b : Bool) {x y : Result Abort A}
    → (b ≡ true → Returns x)
    → (b ≡ false → Returns y)
    → Returns (if b then x else y)
if-Returns true then_case else_case = then_case refl
if-Returns false then_case else_case = else_case refl

module _ (f : Flow) (version : ℕ) (low : 1 ≤ version) (high : version ≤ 8) where
  derive_block_hash-Returns : (hdr : FlowHeader f) → Returns (derive_block_hash f version hdr)
  unfolding derive_block_hash
  derive_block_hash-Returns hdr =
      if-Returns (version == 1 || version == 2) (λ y. (_, refl))
        (λ n1.
          if-Returns (version == 3 || version == 4) (λ y. (_, refl))
            (λ n2.
              if-Returns (leb 5 version && leb version 7) (λ y. (_, refl))
                (λ n3.
                  if-Returns (version == 8) (λ y. (_, refl))
                    (λ n4. absurd (ground (arith, n1, n2, n3, n4, low, high))))))

  receipt-Returns :
      (r : ReceiptMeta) → Returns (derive_execution_receipt_hash f version (receipt_of f r))
  unfolding derive_execution_receipt_hash
  receipt-Returns r =
      if-Returns (leb 1 version && leb version 7) (λ y. (_, refl))
        (λ n1.
          if-Returns (version == 8) (λ y. (_, refl))
            (λ n2. absurd (ground (arith, n1, n2, low, high))))

  guarantee-Returns : (g : Guarantee) → Returns (derive_collection_guarantee_id f version g)
  unfolding derive_collection_guarantee_id
  guarantee-Returns g =
      if-Returns (leb 1 version && leb version 7) (λ y. (_, refl))
        (λ n1.
          if-Returns (version == 8) (λ y. (_, refl))
            (λ n2. absurd (ground (arith, n1, n2, low, high))))

  derive_payload_hash-Returns :
      (a b c d e : Bytes) → Returns (derive_payload_hash f version a b c d e)
  unfolding derive_payload_hash
  derive_payload_hash-Returns a b c d e =
      if-Returns (leb 1 version && leb version 6) (λ y. (_, refl))
        (λ n1.
          if-Returns (version == 7 || version == 8) (λ y. (_, refl))
            (λ n2. absurd (ground (arith, n1, n2, low, high))))

  ids_of-Returns :
      {A : Type 0} (id : A → Result Abort Bytes) (xs : List A)
      → ((x : A) → Returns (id x))
      → Returns (ids_of f id xs)
  unfolding ids_of
  ids_of-Returns id [] each = (_, refl)
  ids_of-Returns id (x ∷ xs) each =
      >>=-Returns (id x) _ (each x)
        (λ first. >>=-Returns (ids_of f id xs) _ (ids_of-Returns id xs each) (λ rest. (_, refl)))

  result_ids-Returns : (rs : List ProtoResult) → Returns (result_ids f version rs)
  unfolding result_ids
  result_ids-Returns [] = (_, refl)
  result_ids-Returns (r ∷ rs) =
      go (convert_execution_result f version r) (result_ids-Returns rs) refl
    where
      go :
          (o : Option (FlowExecutionResult f))
          → Returns (result_ids f version rs)
          → convert_execution_result f version r ≡ o
          → Returns {A = Option (List Bytes)} (elim o [
            | none ↦ ok none
            | some exec ↦
                (derive_execution_result f version exec >>= λ id.
                result_ids f version rs >>= λ rest.
                ok (elim rest [ none ↦ none | some ids ↦ some (id ∷ ids) ]))
          ])
      go none rest e = (_, refl)
      go (some exec) rest e =
          >>=-Returns (derive_execution_result f version exec) _
            (derive_execution_result_total f version r low high e)
            (λ id. >>=-Returns (result_ids f version rs) _ rest (λ ids. (_, refl)))

  payload_of-Returns : (block : ProtoBlock) → Returns (payload_of f version block)
  unfolding payload_of
  payload_of-Returns block =
      >>=-Returns _ _
        (ids_of-Returns (derive_collection_guarantee_id f version) block.collection_guarantees
          guarantee-Returns)
        (λ guarantee_ids.
          >>=-Returns _ _
            (ids_of-Returns (λ src. derive_execution_receipt_hash f version (receipt_of f src))
              block.receipt_metas receipt-Returns)
            (λ receipt_ids.
              >>=-Returns (result_ids f version block.execution_results) _
                (result_ids-Returns block.execution_results)
                (λ results. go guarantee_ids receipt_ids results)))
    where
      go :
          (guarantee_ids receipt_ids : List Bytes) (results : Option (List Bytes))
          → Returns {A = Option Bytes} (elim results [
            | none ↦ ok none
            | some ids ↦
                (derive_payload_hash f version
                    (f.merkle_root guarantee_ids)
                    (f.merkle_root (map (λ src. f.seal_id (seal_of f src)) block.block_seals))
                    (f.merkle_root receipt_ids)
                    (f.merkle_root ids)
                    (to_flow_identifier block.protocol_state_id)
                  >>= λ hash. ok (some hash))
          ])
      go guarantee_ids receipt_ids none = (_, refl)
      go guarantee_ids receipt_ids (some ids) =
          >>=-Returns _ _ (derive_payload_hash-Returns _ _ _ _ _) (λ hash. (_, refl))

  -- In a version from 1 to 8, `verifyBlockHash` returns, whatever the header and the block are.
  pub verify_block_hash_total :
      (chain_id hash : Bytes) (hdr : ProtoHeader f) (block : ProtoBlock)
      → Returns (verify_block_hash f version chain_id hash hdr block)
  unfolding verify_block_hash verify_header
  verify_block_hash_total chain_id hash hdr block = go (timeout_of f hdr.last_view_tc)
    where
      go :
          (o : Option (Option TimeoutCertificate))
          → Returns {A = Bool} (elim o [
            | none ↦ ok false
            | some tc ↦ verify_header f version hash (header_of f chain_id tc hdr) block
          ])
      go none = (false, refl)
      go (some tc) =
          >>=-Returns (derive_block_hash f version (header_of f chain_id tc hdr)) _
            (derive_block_hash-Returns (header_of f chain_id tc hdr))
            (λ id.
              if-Returns (bytes_eq id hash)
                (λ y.
                  >>=-Returns (payload_of f version block) _ (payload_of-Returns block)
                    (λ payload. (_, refl)))
                (λ y. (false, refl)))
