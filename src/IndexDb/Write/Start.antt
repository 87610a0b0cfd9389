-- ===== src/IndexDb/Write/Start.antt =====
-- indexdb/indexdb.go: `SetGenesis` on an empty database.
use rosetta.Shared.{
  ℕ, ◌^◌, ◌<◌, ◌≡◌, refl, ap, sym, ◌∙◌, false, none, some, [], Bytes, bytes_eq, has_prefix,
}
use rosetta.Shared.Results.{ok, >>=-eq-ok, or_err, or_crash, ok_inj, or_crash_ok, or_err_ok}
use rosetta.Model.{BlockMeta, IndexedBlock}
use rosetta.IndexDb.{
  Store, account_key, genesis_key, latest_key, height2hash_key, hash2height_key, block_key,
  balance_by_height, has_balance, bad_genesis, hash_for_height, height_for_hash, read_block,
  genesis, latest,
}
use rosetta.IndexDb.Database.{Badger, Codec}
use rosetta.IndexDb.Indexed.{IsIndexed, uint64-be64}
use rosetta.IndexDb.Changes.{latest_change-none}
use rosetta.IndexDb.Balances.{change, balance_by_height_refines, has_balance_refines}
use rosetta.IndexDb.Write.{set_block, set_genesis}
use rosetta.IndexDb.Write.Updates.{set-IsIndexed}
use rosetta.IndexDb.Write.Step.{IsStore}
use rosetta.IndexDb.Write.Keys.{set_block-IsIndexed, get-set_block_other}
use rosetta.IndexDb.Write.Stored.{stored_latest, stored_hash, stored_height, stored_block}

module _ (b : Badger) (c : Codec) where
  pub empty-IsIndexed :
      (d : b.Db) (top : ℕ) → ((k : Bytes) → b.get d k ≡ none) → top < 2 ^ 64 → IsIndexed b d top
  empty-IsIndexed d top empty lt = record {
    top_lt = lt;
    accounts = λ k v e p. let clash = sym (empty k) ∙ e in cc;
    proxies = λ k v e p. let clash = sym (empty k) ∙ e in cc;
    hashes = λ k v e p. let clash = sym (empty k) ∙ e in cc;
  }

  -- The block that is stored for a genesis block: it has no transactions.
  abbrev pub root_block : BlockMeta → IndexedBlock
  root_block val = record { timestamp = val.timestamp; transactions = [] }

  -- What a successful call wrote.
  record Started (s s' : Store b) (val : BlockMeta) : Type 0 where
    genesis_value : Bytes
    block_value : Bytes
    genesis_eq : c.encode_meta val ≡ some genesis_value
    block_eq : c.encode_block (root_block val) ≡ some block_value
    state_eq : s' ≡ record s {
      db =
          set_block b
            (b.set s.db genesis_key genesis_value)
            val.height
            val.hash
            block_value
            genesis_value;
      genesis = some val;
      latest = some val;
    }

  set_genesis-Started :
      (s s' : Store b) (val : BlockMeta) → set_genesis b c s val ≡ ok s' → Started s s' val
  unfolding set_genesis
  set_genesis-Started s s' val e =
      let (gv, e1, r1) = >>=-eq-ok (or_err (c.encode_meta val) bad_genesis) _ e in
      let (bv, e2, r2) =
        >>=-eq-ok
          (or_crash (c.encode_block (record { timestamp = val.timestamp; transactions = [] }))) _
          r1 in
      record {
        genesis_value = gv;
        block_value = bv;
        genesis_eq = or_err_ok (c.encode_meta val) bad_genesis e1;
        block_eq = or_crash_ok (c.encode_block (root_block val)) e2;
        state_eq = sym (ok_inj r2);
      }

  -- A store that is opened on the database of another.
  abbrev pub reopened : Store b → Store b
  reopened s = record { db = s.db; genesis = none; latest = none }

  -- A call of `SetGenesis` that succeeds on an empty database, for a height below 2^64, makes a
  -- well-formed store with the given block as its tip and its genesis: an account's balance at every
  -- height below 2^64 is 0, the block is found under its height and its hash, without transactions,
  -- and a store opened again on the database reads it as its genesis and as its latest block.
  pub set_genesis_starts :
      (s s' : Store b) (val : BlockMeta)
      → ((k : Bytes) → b.get s.db k ≡ none)
      → val.height < 2 ^ 64
      → set_genesis b c s val ≡ ok s'
      → (a : Bytes) (i : ℕ) → i < 2 ^ 64
      → IsStore b c s' val
        × (s'.genesis ≡ some val)
        × (balance_by_height b s' a i ≡ ok 0)
        × (has_balance b s' a i ≡ false)
        × (hash_for_height b s' val.height ≡ ok val.hash)
        × (height_for_hash b s' val.hash ≡ ok val.height)
        × (read_block b c s' val.height ≡ ok (root_block val))
        × (genesis b c (reopened s') ≡ ok (record (reopened s') { genesis = some val }, some val))
        × (latest b c (reopened s') ≡ ok (record (reopened s') { latest = some val }, some val))
  unfolding hash_for_height height_for_hash read_block genesis latest
  set_genesis_starts s s' val empty lt e a i i_lt = (
    store,
    ap (λ (x : Store b). x.genesis) st.state_eq,
    balance_by_height_refines b s' val.height a i store.indexed i_lt
        ∙ ap ok (latest_change-none (change b s'.db a) i (λ j p. unwritten a j)).0,
    has_balance_refines b s' val.height a i store.indexed i_lt
        ∙ (latest_change-none (change b s'.db a) i (λ j p. unwritten a j)).1,
    rw (
        at (height2hash_key val.height)
        ∙ stored_hash b d val.height val.hash st.block_value st.genesis_value),
    rw
        (at (hash2height_key val.hash)
          ∙ stored_height b d val.height val.hash st.block_value st.genesis_value)
        (uint64-be64 val.height lt),
    rw (
      at (block_key val.height)
          ∙ stored_block b d val.height val.hash st.block_value st.genesis_value,
      c.decode-encode_block (root_block val) st.block_value st.block_eq,
    ),
    rw (genesis_stored, c.decode-encode_meta val st.genesis_value st.genesis_eq),
    rw (
      at latest_key ∙ stored_latest b d val.height val.hash st.block_value st.genesis_value,
      c.decode-encode_meta val st.genesis_value st.genesis_eq,
    ),
  )
    where
      st : Started s s' val
      st = set_genesis-Started s s' val e

      d : b.Db
      d = b.set s.db genesis_key st.genesis_value

      at :
          (k : Bytes)
          → b.get s'.db k
            ≡ b.get (set_block b d val.height val.hash st.block_value st.genesis_value) k
      at k = ap (λ (x : Store b). b.get x.db k) st.state_eq

      genesis_stored : b.get s'.db genesis_key ≡ some st.genesis_value
      genesis_stored =
          unfold bytes_eq in
          at genesis_key
          ∙ get-set_block_other b d val.height val.hash st.block_value st.genesis_value genesis_key
              refl refl refl refl
          ∙ b.get-set s.db genesis_key st.genesis_value genesis_key

      store : IsStore b c s' val
      store = record {
        latest_eq = ap (λ (x : Store b). x.latest) st.state_eq;
        indexed = rw st.state_eq (
            set_block-IsIndexed b _ val.height val.hash st.block_value st.genesis_value (
              unfold has_prefix in
              set-IsIndexed b s.db val.height genesis_key st.genesis_value
                (empty-IsIndexed s.db val.height empty lt) (λ p. cc) (λ p. cc) (λ p. cc)));
      }

      unwritten_key : (a : Bytes) (j : ℕ) → b.get s'.db (account_key a j) ≡ none
      unwritten_key a j =
          unfold bytes_eq in
          at (account_key a j)
          ∙ get-set_block_other b d val.height val.hash st.block_value st.genesis_value
              (account_key a j) refl refl refl refl
          ∙ b.get-set s.db genesis_key st.genesis_value (account_key a j)
          ∙ empty (account_key a j)

      unwritten : (a : Bytes) (j : ℕ) → change b s'.db a j ≡ none
      unwritten a j = unfold change in rw (unwritten_key a j)
