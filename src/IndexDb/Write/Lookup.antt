-- ===== src/IndexDb/Write/Lookup.antt =====
-- indexdb/indexdb.go: the lookups by height and by hash behind a call of `Index`.
use rosetta.Shared.{
  ◌-◌, ◌%◌, ℕ, ◌+◌, ◌^◌, ◌≤◌, ◌<◌, ◌≡◌, ◌≢◌, refl, ap, ◌∙◌, false, Option, none, some, Bytes,
  bytes_eq, has_prefix, arith, ◌==◌, bytes_eq-big_endian,
}
use rosetta.Shared.Results.{ok, or_err, ◌>>=◌}
use rosetta.Model.{BlockMeta, IndexedBlock}
use rosetta.IndexDb.{
  BlockData, block_by_height, block_by_hash, with_parent_info, Store, block_key, hash2height_key,
  height2hash_key, latest_key, hash_for_height, height_for_hash, read_block, latest,
  block_not_indexed, corrupt_block,
}
use rosetta.IndexDb.Database.{Badger, Codec}
use rosetta.IndexDb.Indexed.{uint64-be64}
use rosetta.IndexDb.Write.{index, indexed_meta, set_proxies}
use rosetta.IndexDb.Write.Totals.{AreTxns}
use rosetta.IndexDb.Write.Step.{IsStore}
use rosetta.IndexDb.Write.Ledger.{step, applied, kept}
use rosetta.IndexDb.Write.Stored.{stored_latest, stored_hash, stored_height, stored_block}

module _ (b : Badger) (c : Codec) (s s' : Store b) (top : BlockMeta) (hash : Bytes)
    (block : IndexedBlock) (store : IsStore b c s top) (room : top.height + 1 < 2 ^ 64)
    (txns : AreTxns block.transactions)
    (run : index b c s (top.height + 1) hash block ≡ ok s') where
  abbrev pub with_parent : Bytes → BlockData
  with_parent prev = record {
    block = block;
    hash = hash;
    height = top.height + 1;
    parent_hash = prev;
    parent_height = top.height;
  }

  -- On a well-formed store, with a next height below 2^64, well-formed operations and a call of
  -- `Index` for that height that succeeds, the block is found under its height and under its
  -- hash, as it was given.
  pub index_lookup :
      (hash_for_height b s' (top.height + 1) ≡ ok hash)
      × (height_for_hash b s' hash ≡ ok (top.height + 1))
      × (read_block b c s' (top.height + 1) ≡ ok block)
  unfolding hash_for_height height_for_hash read_block
  index_lookup =
      let st = step b c s s' top hash block store room txns run in
      let d = set_proxies b st.mid st.col.proxy_accts in
      let at = λ (k : Bytes). ap (λ (e : b.Db). b.get e k) st.db_eq in
      (
        rw (
            at (height2hash_key (top.height + 1))
            ∙ stored_hash b d (top.height + 1) hash st.block_value st.latest_value),
        rw
            (at (hash2height_key hash)
              ∙ stored_height b d (top.height + 1) hash st.block_value st.latest_value)
            (uint64-be64 (top.height + 1) room),
        rw (
          at (block_key (top.height + 1))
              ∙ stored_block b d (top.height + 1) hash st.block_value st.latest_value,
          c.decode-encode_block block st.block_value st.block_eq,
        ),
      )

  -- The hash and the block at any other height.
  pub index_lookup_other :
      (i : ℕ)
      → i < 2 ^ 64
      → i ≢ top.height + 1
      → (hash_for_height b s' i ≡ hash_for_height b s i)
        × (read_block b c s' i ≡ read_block b c s i)
  unfolding hash_for_height read_block bytes_eq has_prefix
  index_lookup_other i i_lt ne =
      let past : (top.height + 1 == i) ≡ false = ground arith in
      let other = bytes_eq-big_endian 8 (top.height + 1) i room i_lt ∙ past in
      let keep = kept b c s s' top hash block store room txns run in
      let same = (applied b c s s' top hash block store room txns run).others in
      (
        ap (λ (o : Option Bytes). or_err o block_not_indexed)
            (keep (height2hash_key i) refl refl refl other refl ∙ same (height2hash_key i) refl),
        ap
            (λ (o : Option Bytes).
              or_err o block_not_indexed >>= λ v. or_err (c.decode_block v) corrupt_block)
            (keep (block_key i) refl other refl refl refl ∙ same (block_key i) refl),
      )

  -- On a well-formed store, with a next height below 2^64, well-formed operations and a call of
  -- `Index` for that height that succeeds, the hash and the block at every height up to the old
  -- tip are found as before.
  pub index_lookup_past :
      (i : ℕ)
      → i ≤ top.height
      → (hash_for_height b s' i ≡ hash_for_height b s i)
        × (read_block b c s' i ≡ read_block b c s i)
  index_lookup_past i le = index_lookup_other i (omega arith) (λ e. absurd (omega (arith, e)))

  -- On a well-formed store, with a next height below 2^64, well-formed operations and a call of
  -- `Index` for that height that succeeds, a store that is opened on the resulting database, and
  -- has no latest block in memory, reads the new block's meta data as its latest block.
  pub index_reopen :
      (fresh : Store b)
      → fresh.db ≡ s'.db
      → fresh.latest ≡ none
      → latest b c fresh
        ≡ ok (
          record fresh { latest = some (indexed_meta b c (top.height + 1) hash block) },
          some (indexed_meta b c (top.height + 1) hash block),
        )
  unfolding latest
  index_reopen fresh same_db empty =
      let st = step b c s s' top hash block store room txns run in
      let d = set_proxies b st.mid st.col.proxy_accts in
      let found =
        ap (λ (e : b.Db). b.get e latest_key) (same_db ∙ st.db_eq)
        ∙ stored_latest b d (top.height + 1) hash st.block_value st.latest_value in
      rw (empty, found, c.decode-encode_meta _ st.latest_value st.latest_eq)

  -- On a well-formed store, with a next height below 2^64, well-formed operations and a call of
  -- `Index` for that height that succeeds, reading the block by its height or by its hash gives
  -- it with the hash and the height of the block before it, if genesis is known and not above the
  -- old tip and the old tip has a hash.
  pub index_parent :
      (g : BlockMeta) (prev : Bytes)
      → s.genesis ≡ some g
      → g.height ≤ top.height
      → hash_for_height b s top.height ≡ ok prev
      → (block_by_height b c s' (top.height + 1) ≡ ok (with_parent prev))
        × (block_by_hash b c s' hash ≡ ok (with_parent prev))
  unfolding block_by_height block_by_hash with_parent_info hash_for_height
  index_parent g prev g_eq g_le prev_eq =
      let st = step b c s s' top hash block store room txns run in
      let lookup = index_lookup in
      let gen : s'.genesis ≡ some g = st.genesis_eq ∙ g_eq in
      let later : (top.height + 1 == g.height) ≡ false = ground arith in
      let before : (top.height + 1 + 2 ^ 64 - 1) % 2 ^ 64 ≡ top.height = omega (arith, room) in
      let past : hash_for_height b s' top.height ≡ ok prev =
        (index_lookup_past top.height (omega arith)).0 ∙ prev_eq in
      (
        rw (lookup.0, lookup.2, gen, later, before, past),
        rw (lookup.1, lookup.2, gen, later, before, past),
      )
