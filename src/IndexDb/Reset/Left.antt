-- ===== src/IndexDb/Reset/Left.antt =====
-- indexdb/indexdb.go: the database behind the deletions of `ResetTo`.
use rosetta.Shared.{
  ℕ, ◌^◌, ◌≤◌, ◌<◌, ◌≡◌, ap, sym, ◌∙◌, true, false, none, some, [], ◌∷◌, Bytes, has_prefix, arith,
  leb, Bool-cases, inl, inr,
}
use rosetta.Shared.Results.{ok_inj}
use rosetta.Model.{BlockMeta}
use rosetta.IndexDb.{Store, account_key, height2hash_key, block_key}
use rosetta.IndexDb.Database.{Badger, Codec}
use rosetta.IndexDb.Indexed.{IsIndexed, account_key_parts, uint64-be64}
use rosetta.IndexDb.Write.Step.{IsStore}
use rosetta.IndexDb.Reset.{height_at, delete_keys, sort_keys}
use rosetta.IndexDb.Reset.Keys.{mem, get-delete_keys}
use rosetta.IndexDb.Reset.Blocks.{IsBlockKey, of_hash, of_height}
use rosetta.IndexDb.Reset.Collect.{IsStaleKey, of_account, of_proxy, Collection, collection}

module _ (base i : ℕ) (le : i ≤ base) (i_lt : i < 2 ^ 64) where
  -- The keys of heights up to the base are not deleted.
  pub fresh_account : (a : Bytes) → IsStaleKey base (account_key a i) → true ≡ false
  unfolding has_prefix
  fresh_account a (of_account h lt (acct, h_lt, e)) =
      let parts = account_key_parts a acct i h i_lt h_lt e in absurd (omega (arith, parts.1))
  fresh_account a (of_proxy h lt (acct, h_lt, e)) = ap (has_prefix (b'a' ∷ [])) e
  fresh_account a (IsStaleKey.of_block (of_hash h lt h_lt e)) = ap (has_prefix (b'a' ∷ [])) e
  fresh_account a (IsStaleKey.of_block (IsBlockKey.of_block h lt h_lt e)) =
      ap (has_prefix (b'a' ∷ [])) e
  fresh_account a (IsStaleKey.of_block (of_height hash e)) = ap (has_prefix (b'a' ∷ [])) e

  pub fresh_hash : IsStaleKey base (height2hash_key i) → true ≡ false
  unfolding has_prefix
  fresh_hash (of_account h lt (acct, h_lt, e)) = ap (has_prefix (b'd' ∷ [])) e
  fresh_hash (of_proxy h lt (acct, h_lt, e)) = ap (has_prefix (b'd' ∷ [])) e
  fresh_hash (IsStaleKey.of_block (of_hash h lt h_lt e)) =
      let ih : i ≡ h =
        ok_inj (sym (uint64-be64 i i_lt) ∙ ap (height_at 1) e ∙ uint64-be64 h h_lt) in
      absurd (omega arith)
  fresh_hash (IsStaleKey.of_block (IsBlockKey.of_block h lt h_lt e)) = ap (has_prefix (b'd' ∷ [])) e
  fresh_hash (IsStaleKey.of_block (of_height hash e)) = ap (has_prefix (b'd' ∷ [])) e

  pub fresh_block : IsStaleKey base (block_key i) → true ≡ false
  unfolding has_prefix
  fresh_block (of_account h lt (acct, h_lt, e)) = ap (has_prefix (b'b' ∷ [])) e
  fresh_block (of_proxy h lt (acct, h_lt, e)) = ap (has_prefix (b'b' ∷ [])) e
  fresh_block (IsStaleKey.of_block (of_hash h lt h_lt e)) = ap (has_prefix (b'b' ∷ [])) e
  fresh_block (IsStaleKey.of_block (IsBlockKey.of_block h lt h_lt e)) =
      let ih : i ≡ h =
        ok_inj (sym (uint64-be64 i i_lt) ∙ ap (height_at 1) e ∙ uint64-be64 h h_lt) in
      absurd (omega arith)
  fresh_block (IsStaleKey.of_block (of_height hash e)) = ap (has_prefix (b'b' ∷ [])) e

module _ (b : Badger) (c : Codec) (s : Store b) (top : BlockMeta) (base : ℕ)
    (store : IsStore b c s top) (lower : base < top.height) where
  pub col : Collection b s.db top.height store.indexed base
  col = collection b s.db top.height store.indexed base

  pub base_lt : base < 2 ^ 64
  base_lt = omega (arith, store.indexed.top_lt)

  abbrev pub left : b.Db
  left = delete_keys b s.db (sort_keys col.keys)

  -- A key that is not stale stays.
  pub stays : (k : Bytes) → (IsStaleKey base k → true ≡ false) → b.get left k ≡ b.get s.db k
  stays k fresh = elim (Bool-cases (mem k col.keys)) [
    | inl m ↦ let clash = fresh (col.sound k m) in cc
    | inr n ↦ get-delete_keys b s.db col.keys k ∙ rw n
  ]

  -- What stays was there, and its key is not collected.
  was_there :
      (k : Bytes) {v : Bytes}
      → b.get left k ≡ some v
      → (b.get s.db k ≡ some v) × (mem k col.keys ≡ false)
  was_there k e = elim (Bool-cases (mem k col.keys)) [
    | inl m ↦
        let gone : b.get left k ≡ none = get-delete_keys b s.db col.keys k ∙ rw m in
        let clash = sym gone ∙ e in cc
    | inr n ↦
        let same : b.get left k ≡ b.get s.db k = get-delete_keys b s.db col.keys k ∙ rw n in
        (sym same ∙ e, n)
  ]

  -- A height whose items are all collected above the base is at most the base.
  not_above :
      (k : Bytes) (h : ℕ) → mem k col.keys ≡ false → (base < h → mem k col.keys ≡ true) → h ≤ base
  not_above k h n m = elim (Bool-cases (leb h base)) [
    | inl le ↦ ground arith
    | inr gt ↦ let clash : false ≡ true = sym n ∙ m (ground arith) in cc
  ]

  pub left-IsIndexed : IsIndexed b left base
  left-IsIndexed = record {
    top_lt = base_lt;
    accounts = λ k v e p.
        let (was, n) = was_there k e in
        let i = store.indexed.accounts k v was p in
        record {
          acct = i.acct;
          height = i.height;
          amount = i.amount;
          key_eq = i.key_eq;
          height_le = not_above k i.height n (
              col.has_account k i.height was
                (i.acct, omega (arith, i.height_le, store.indexed.top_lt), i.key_eq));
          amount_lt = i.amount_lt;
          val_eq = i.val_eq;
        };
    proxies = λ k v e p.
        let (was, n) = was_there k e in
        let i = store.indexed.proxies k v was p in
        record {
          acct = i.acct;
          height = i.height;
          key_eq = i.key_eq;
          height_le = not_above k i.height n (
              col.has_proxy k i.height was
                (i.acct, omega (arith, i.height_le, store.indexed.top_lt), i.key_eq));
        };
    hashes = λ k v e p.
        let (was, n) = was_there k e in
        let i = store.indexed.hashes k v was p in
        let i_lt : i.height < 2 ^ 64 = omega (arith, i.height_le, store.indexed.top_lt) in
        record {
          height = i.height;
          key_eq = i.key_eq;
          height_le = not_above k i.height n (λ lt.
              ap (λ (j : Bytes). mem j col.keys) i.key_eq
              ∙ col.has_hash i.height (sym (ap (b.get s.db) i.key_eq) ∙ was) i_lt lt);
        };
  }
