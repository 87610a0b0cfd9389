-- ===== src/State/Parents/Chained.antt =====
-- state/state.go: the blocks of past sporks are processed along their chain of parents, and what the
-- check of a parent rests on.
use rosetta.Shared.{
  ℕ, zero, suc, ◌+◌, ◌-◌, ◌*◌, ◌^◌, ◌≤◌, ◌<◌, ◌≡◌, refl, subst, ap, sym, ◌∙◌, min, true, false,
  Option, none, some, List, [], ◌∷◌, Bytes, bytes_eq, bytes_eq_iff, ◌==◌, ==_iff, if◌then◌else◌,
  ltb, arith, inl, inr, ◌⊎◌, by_test, some_inj,
}
use rosetta.Shared.Results.{ok, >>=-eq-ok, ok_inj}
use native.Mathlib.Nat.{mul_assoc, pow-suc}
use rosetta.Model.{BlockMeta}
use rosetta.State.Events.{require}
use rosetta.State.Flow.{Flow, to_flow_identifier}
use rosetta.State.Headers.{ProtoHeader, ProtoBlock, verify_block_hash, verify_header, payload_of}
use rosetta.State.Headers.Verified.{Collision, verify_block_hash_unique}
use rosetta.State.Operations.Matching.{require_lem}
use rosetta.State.Parents.{
  next_backoff, add_seals, verified_parent, hashes_down, numbered, index_past_sporks,
}

-- `nextBackoff`, called again and again.
abbrev pub backoff_after : ℕ → ℕ → ℕ → ℕ
backoff_after max_interval zero d = d
backoff_after max_interval (suc n) d = next_backoff max_interval (backoff_after max_interval n d)

-- For a limit below 2^62 and a backoff up to the limit, the backoff after some calls is the first one
-- doubled as often, but at most the limit.
pub next_backoff_grows :
    (max_interval n d : ℕ)
    → max_interval < 2 ^ 62
    → d ≤ max_interval
    → backoff_after max_interval n d ≡ min max_interval (d * 2 ^ n)
unfolding next_backoff
next_backoff_grows max_interval zero d small le = ground arith
next_backoff_grows max_interval (suc n) d small le =
    let before = next_backoff_grows max_interval n d small le in
    let double : d * 2 ^ suc n ≡ d * 2 ^ n * 2 =
      ap (λ (x : ℕ). d * x) (pow-suc 2 n) ∙ sym (mul_assoc d (2 ^ n) 2) in
    ground (arith, before, double)

module _ (parent_of : Bytes → ℕ → Option Bytes) (live : BlockMeta) where
  -- The parent of a block of the chain that ends in the root block of the live spork.
  abbrev parent_at : Bytes → ℕ → Option Bytes
  parent_at x n = if n == live.height then some live.parent else parent_of x n

  -- The blocks stand at the heights from the given one, each the child of the one before it, and the
  -- last is the root block of the live spork.
  abbrev pub Linked : Bytes → ℕ → List (ℕ × Bytes) → Type 0
  Linked prev height [] = (height ≡ live.height + 1) × (prev ≡ live.hash)
  Linked prev height ((n, x) ∷ blocks) =
      (n ≡ height) × (parent_at x n ≡ some prev) × Linked x (height + 1) blocks

  hashes_down-Linked :
      (n start : ℕ) (parent : Bytes) (hashes : List Bytes) {out : List Bytes × Bytes}
      → start + n ≤ live.height
      → Linked parent (start + n) (numbered (start + n) hashes)
      → hashes_down parent_of n start parent hashes ≡ some out
      → Linked out.1 start (numbered start out.0)
  unfolding hashes_down numbered
  hashes_down-Linked zero start parent hashes le linked e =
      let at : start + 0 ≡ start = omega arith in
      subst (λ (r : List Bytes × Bytes). Linked r.1 start (numbered start r.0)) (some_inj e)
        (subst (λ (k : ℕ). Linked parent k (numbered k hashes)) at linked)
  hashes_down-Linked (suc n) start parent hashes le linked e =
      go (parent_of parent (start + n)) refl
        (λ next l r. hashes_down-Linked n start next (parent ∷ hashes) (omega (arith, le)) l r) e
    where
      go :
          {out : List Bytes × Bytes} (o : Option Bytes)
          → parent_of parent (start + n) ≡ o
          → ((next : Bytes)
              → Linked next (start + n) (numbered (start + n) (parent ∷ hashes))
              → hashes_down parent_of n start next (parent ∷ hashes) ≡ some out
              → Linked out.1 start (numbered start out.0))
          → (elim o [
            | none ↦ none
            | some next ↦ hashes_down parent_of n start next (parent ∷ hashes)
          ])
            ≡ some out
          → Linked out.1 start (numbered start out.0)
      go none at below r = cc
      go (some next) at below r =
          let higher : start + suc n ≡ start + n + 1 = omega arith in
          let past : (start + n == live.height) ≡ false = ground (arith, le) in
          below next
            (refl, rw past at, subst (λ (k : ℕ). Linked parent k (numbered k hashes)) higher linked)
            r

  -- If `indexPastSporks` processes blocks from a height up to the height of the live spork's root
  -- block, then these are linked from the last indexed block to that root block: they stand at
  -- successive heights, and each one's parent is the one before it: for the root block the parent that
  -- the live root has, for the others the one that `getVerifiedParent` answered.
  pub index_past_sporks-Linked :
      (last_indexed : BlockMeta) (start : ℕ) {blocks : List (ℕ × Bytes)}
      → start ≤ live.height
      → index_past_sporks parent_of live last_indexed start ≡ some blocks
      → Linked last_indexed.hash start blocks
  unfolding index_past_sporks numbered
  index_past_sporks-Linked last_indexed start le e =
      by_test (ltb live.height start) e (λ past r. absurd (ground (arith, past, le)))
        (λ not_past r.
          go (hashes_down parent_of (live.height - start) start live.parent (live.hash ∷ [])) refl
            r)
    where
      go :
          {blocks : List (ℕ × Bytes)} (o : Option (List Bytes × Bytes))
          → hashes_down parent_of (live.height - start) start live.parent (live.hash ∷ []) ≡ o
          → (elim o [
            | none ↦ none
            | some r ↦ if bytes_eq last_indexed.hash r.1 then some (numbered start r.0) else none
          ])
            ≡ some blocks
          → Linked last_indexed.hash start blocks
      go none at r = cc
      go (some (hs, last)) at r =
          let top : start + (live.height - start) ≡ live.height = omega (arith, le) in
          let here : (live.height == live.height) ≡ true =
            (==_iff live.height live.height).1 refl in
          let root : Linked live.parent live.height ((live.height, live.hash) ∷ []) =
            (refl, rw here refl, (refl, refl)) in
          let all =
            hashes_down-Linked (live.height - start) start live.parent (live.hash ∷ [])
              (omega (arith, le))
              (subst (λ (k : ℕ). Linked live.parent k (numbered k (live.hash ∷ []))) (sym top) root)
              at in
          by_test (bytes_eq last_indexed.hash last) r
            (λ same q.
              let e1 = (bytes_eq_iff last_indexed.hash last).0 same in
              subst (Linked last_indexed.hash start) (some_inj q) (rw e1 all))
            (λ other q. cc)

module _ (f : Flow) (version : ℕ) (chain_id hash : Bytes) where
  -- What a round of `getVerifiedParent` that succeeds has checked.
  record IsRound (hdr : ProtoHeader f) (block : ProtoBlock) (sealed : List (Bytes × Bytes))
      (out : Bytes × List (Bytes × Bytes)) : Type 0 where
    header_id : bytes_eq hdr.id hash ≡ true
    block_id : bytes_eq block.id hash ≡ true
    verified : verify_block_hash f version chain_id hash hdr block ≡ ok true
    out_eq : (block.parent_id, add_seals block.block_seals sealed) ≡ out

  verified_parent-IsRound :
      (hdr : ProtoHeader f) (block : ProtoBlock) (sealed : List (Bytes × Bytes))
      {out : Bytes × List (Bytes × Bytes)}
      → verified_parent f version chain_id hash hdr block sealed ≡ ok out
      → IsRound hdr block sealed out
  unfolding verified_parent
  verified_parent-IsRound hdr block sealed e =
      let (u1, e1, r1) = >>=-eq-ok (require (bytes_eq hdr.id hash)) _ e in
      let (u2, e2, r2) = >>=-eq-ok (require (bytes_eq block.id hash)) _ r1 in
      let (verified, e3, r3) =
        >>=-eq-ok (verify_block_hash f version chain_id hash hdr block) _ r2 in
      let (u4, e4, r4) = >>=-eq-ok (require verified) _ r3 in
      record {
        header_id = require_lem (bytes_eq hdr.id hash) e1;
        block_id = require_lem (bytes_eq block.id hash) e2;
        verified = e3 ∙ ap ok (require_lem verified e4);
        out_eq = ok_inj r4;
      }

  -- If two rounds of `getVerifiedParent` for a block succeed, and each fetched block names the parent
  -- that its header names, then the two parents agree, as identifiers, or two values are found that
  -- `make_id` does not tell apart.
  pub verified_parent_agrees :
      (hdr1 hdr2 : ProtoHeader f) (block1 block2 : ProtoBlock)
      (sealed1 sealed2 : List (Bytes × Bytes)) {out1 out2 : Bytes × List (Bytes × Bytes)}
      → verified_parent f version chain_id hash hdr1 block1 sealed1 ≡ ok out1
      → verified_parent f version chain_id hash hdr2 block2 sealed2 ≡ ok out2
      → to_flow_identifier block1.parent_id ≡ to_flow_identifier hdr1.parent_id
      → to_flow_identifier block2.parent_id ≡ to_flow_identifier hdr2.parent_id
      → (to_flow_identifier out1.0 ≡ to_flow_identifier out2.0) ⊎ Collision f
  verified_parent_agrees hdr1 hdr2 block1 block2 sealed1 sealed2 e1 e2 named1 named2 =
      let v1 = verified_parent-IsRound hdr1 block1 sealed1 e1 in
      let v2 = verified_parent-IsRound hdr2 block2 sealed2 e2 in
      elim (verify_block_hash_unique f version version chain_id chain_id hash hdr1 hdr2 block1
        block2 v1.verified v2.verified) [
          | inr c ↦ inr c
          | inl (p, n, l, q) ↦ inl (
              ap (λ (x : Bytes × List (Bytes × Bytes)). to_flow_identifier x.0) (sym v1.out_eq)
              ∙ named1
              ∙ p
              ∙ sym named2
              ∙ ap (λ (x : Bytes × List (Bytes × Bytes)). to_flow_identifier x.0) v2.out_eq)
        ]

  parent_unread :
      (hdr : ProtoHeader f) (block : ProtoBlock) (parent : Bytes)
      → verify_block_hash f version chain_id hash hdr (record block { parent_id = parent })
        ≡ verify_block_hash f version chain_id hash hdr block
  unfolding verify_block_hash verify_header payload_of
  parent_unread hdr block parent = refl

  -- If a round of `getVerifiedParent` succeeds, then with any other parent in the fetched block it
  -- succeeds as well, and answers with that parent.
  pub verified_parent_any :
      (hdr : ProtoHeader f) (block : ProtoBlock) (sealed : List (Bytes × Bytes)) (parent : Bytes)
      {out : Bytes × List (Bytes × Bytes)}
      → verified_parent f version chain_id hash hdr block sealed ≡ ok out
      → verified_parent f version chain_id hash hdr (record block { parent_id = parent }) sealed
        ≡ ok (parent, out.1)
  unfolding verified_parent
  verified_parent_any hdr block sealed parent e =
      let v = verified_parent-IsRound hdr block sealed e in
      let checked = parent_unread hdr block parent ∙ v.verified in
      rw (v.header_id, v.block_id, checked)
        (ap (λ (x : Bytes × List (Bytes × Bytes)). ok (parent, x.1)) v.out_eq)
