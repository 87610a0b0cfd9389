-- ===== src/State/Headers/Verified.antt =====
-- state/convert.go: `verifyBlockHash` returns in every known version, and ties a block to its hash.
use rosetta.Shared.{
  ℕ, ◌≡◌, ◌≢◌, ap, sym, ◌∙◌, true, false, ◌&&◌, ◌||◌, Option, none, some, Bytes, bytes_eq,
  bytes_eq_iff, ◌==◌, ==_iff, leb, arith, Bool-cases, inl, inr, ◌⊎◌, by_branch, by_test,
}
use rosetta.Shared.Results.{ok, >>=-eq-ok, ok_inj}
use rosetta.State.Flow.{Flow, Entity, ◌▸◌, TimeoutCertificate, to_flow_identifier}
use rosetta.State.Headers.{
  ProtoHeader, FlowHeader, ProtoBlock, derive_block_hash, derive_block_hash_v1,
  derive_block_hash_v3, derive_block_hash_v5, derive_block_hash_v8, timeout_of, header_of,
  payload_of, verify_header, verify_block_hash,
}

module _ (f : Flow) where
  -- Two values that `make_id` does not tell apart.
  abbrev pub Collision : Type 0
  Collision = (x y : Entity) × (x ≢ y) × (f.make_id x ≡ f.make_id y)

  -- The first four fields are hashed in every version.
  derive_block_hash-fields :
      (version : ℕ) (hdr : FlowHeader f) {id : Bytes}
      → derive_block_hash f version hdr ≡ ok id
      → (rest : Entity) × (f.make_id (
            Entity.text hdr.chain_id
            ▸ Entity.text hdr.parent_id
            ▸ Entity.num hdr.height
            ▸ Entity.text hdr.payload_hash
            ▸ rest)
          ≡ id)
  unfolding derive_block_hash derive_block_hash_v1 derive_block_hash_v3 derive_block_hash_v5
      derive_block_hash_v8
  derive_block_hash-fields version hdr e =
      by_branch (version == 1 || version == 2) e (λ r. (_, ok_inj r))
        (λ e2.
          by_branch (version == 3 || version == 4) e2 (λ r. (_, ok_inj r))
            (λ e3.
              by_branch (leb 5 version && leb version 7) e3 (λ r. (_, ok_inj r))
                (λ e4. by_branch (version == 8) e4 (λ r. (_, ok_inj r)) (λ r. cc))))

  -- What a header that is verified says.
  record IsVerified (version : ℕ) (hash : Bytes) (xhdr : FlowHeader f) (block : ProtoBlock)
      : Type 0 where
    hash_eq : derive_block_hash f version xhdr ≡ ok hash
    payload_eq : payload_of f version block ≡ ok (some xhdr.payload_hash)

  verify_header-IsVerified :
      (version : ℕ) (hash : Bytes) (xhdr : FlowHeader f) (block : ProtoBlock)
      → verify_header f version hash xhdr block ≡ ok true
      → IsVerified version hash xhdr block
  unfolding verify_header
  verify_header-IsVerified version hash xhdr block e =
      let (id, e1, r1) = >>=-eq-ok (derive_block_hash f version xhdr) _ e in
      by_test (bytes_eq id hash) r1
        (λ same r.
          let (payload, e2, r2) = >>=-eq-ok (payload_of f version block) _ r in
          record {
            hash_eq = e1 ∙ ap ok ((bytes_eq_iff id hash).0 same);
            payload_eq = e2 ∙ ap ok (matched payload xhdr.payload_hash (ok_inj r2));
          })
        (λ other r. cc)
    where
      matched :
          (payload : Option Bytes) (h : Bytes)
          → (elim payload [ none ↦ false | some id ↦ bytes_eq id h ]) ≡ true
          → payload ≡ some h
      matched none h e = cc
      matched (some id) h e = ap some ((bytes_eq_iff id h).0 e)

  fields_agree :
      (h1 h2 : FlowHeader f) (rest1 rest2 : Entity)
      → f.make_id (
          Entity.text h1.chain_id
          ▸ Entity.text h1.parent_id
          ▸ Entity.num h1.height
          ▸ Entity.text h1.payload_hash
          ▸ rest1)
        ≡ f.make_id (
            Entity.text h2.chain_id
            ▸ Entity.text h2.parent_id
            ▸ Entity.num h2.height
            ▸ Entity.text h2.payload_hash
            ▸ rest2)
      → ((h1.parent_id ≡ h2.parent_id)
          × (h1.height ≡ h2.height)
          × (h1.payload_hash ≡ h2.payload_hash))
        ⊎ Collision
  fields_agree h1 h2 rest1 rest2 e =
      elim (Bool-cases (
        bytes_eq h1.parent_id h2.parent_id
        && (h1.height == h2.height && bytes_eq h1.payload_hash h2.payload_hash))) [
          | inl same ↦ inl (
            (bytes_eq_iff h1.parent_id h2.parent_id).0 (ground (arith, same)),
            (==_iff h1.height h2.height).0 (ground (arith, same)),
            (bytes_eq_iff h1.payload_hash h2.payload_hash).0 (ground (arith, same)),
          )
          | inr differ ↦ inr (_, _, (λ eq. apart differ eq), e)
        ]
    where
      apart :
          (bytes_eq h1.parent_id h2.parent_id
              && (h1.height == h2.height && bytes_eq h1.payload_hash h2.payload_hash))
            ≡ false
          → (Entity.text h1.chain_id
              ▸ Entity.text h1.parent_id
              ▸ Entity.num h1.height
              ▸ Entity.text h1.payload_hash
              ▸ rest1)
            ≢ (Entity.text h2.chain_id
                ▸ Entity.text h2.parent_id
                ▸ Entity.num h2.height
                ▸ Entity.text h2.payload_hash
                ▸ rest2)
      apart differ eq =
          let p : h1.parent_id ≡ h2.parent_id = cc in
          let n : h1.height ≡ h2.height = cc in
          let l : h1.payload_hash ≡ h2.payload_hash = cc in
          let p' = (bytes_eq_iff h1.parent_id h2.parent_id).1 p in
          let n' = (==_iff h1.height h2.height).1 n in
          let l' = (bytes_eq_iff h1.payload_hash h2.payload_hash).1 l in
          ground (arith, differ, p', n', l')

  -- The header that `verifyBlockHash` checks, if it checks one.
  verify_block_hash-header :
      (version : ℕ) (chain_id hash : Bytes) (hdr : ProtoHeader f) (block : ProtoBlock)
      → verify_block_hash f version chain_id hash hdr block ≡ ok true
      → (tc : Option TimeoutCertificate) × IsVerified version hash
          (header_of f chain_id tc hdr)
          block
  unfolding verify_block_hash
  verify_block_hash-header version chain_id hash hdr block e = go (timeout_of f hdr.last_view_tc) e
    where
      go :
          (o : Option (Option TimeoutCertificate))
          → (elim o [
            | none ↦ ok false
            | some tc ↦ verify_header f version hash (header_of f chain_id tc hdr) block
          ])
            ≡ ok true
          → (tc : Option TimeoutCertificate) × IsVerified version hash
              (header_of f chain_id tc hdr)
              block
      go none r = cc
      go (some tc) r =
          (tc, verify_header-IsVerified version hash (header_of f chain_id tc hdr) block r)

  -- If two headers, each with its block, are verified against the same hash, each in a version of its
  -- own, then the headers have the same parent, height and payload hash, as identifiers, and the
  -- payloads of the two blocks have the same hash, or two values are found that `make_id` does not
  -- tell apart.
  pub verify_block_hash_unique :
      (v w : ℕ) (chain1 chain2 hash : Bytes) (hdr1 hdr2 : ProtoHeader f)
      (block1 block2 : ProtoBlock)
      → verify_block_hash f v chain1 hash hdr1 block1 ≡ ok true
      → verify_block_hash f w chain2 hash hdr2 block2 ≡ ok true
      → ((to_flow_identifier hdr1.parent_id ≡ to_flow_identifier hdr2.parent_id)
          × (hdr1.height ≡ hdr2.height)
          × (to_flow_identifier hdr1.payload_hash ≡ to_flow_identifier hdr2.payload_hash)
          × (payload_of f v block1 ≡ payload_of f w block2))
        ⊎ Collision
  unfolding header_of
  verify_block_hash_unique v w chain1 chain2 hash hdr1 hdr2 block1 block2 e1 e2 =
      let (tc1, v1) = verify_block_hash-header v chain1 hash hdr1 block1 e1 in
      let (tc2, v2) = verify_block_hash-header w chain2 hash hdr2 block2 e2 in
      let x1 = header_of f chain1 tc1 hdr1 in
      let x2 = header_of f chain2 tc2 hdr2 in
      let (rest1, id1) = derive_block_hash-fields v x1 v1.hash_eq in
      let (rest2, id2) = derive_block_hash-fields w x2 v2.hash_eq in
      elim (fields_agree x1 x2 rest1 rest2 (id1 ∙ sym id2)) [
        | inr c ↦ inr c
        | inl (p, n, l) ↦ inl (p, n, l, v1.payload_eq ∙ rw l (sym v2.payload_eq))
      ]
