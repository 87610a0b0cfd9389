-- ===== src/IndexDb/Write/Ledger.antt =====
-- indexdb/indexdb.go: what `Index` does to the balances, the history and the block lookups.
use rosetta.Shared.{
  find, ℕ, ◌+◌, ◌^◌, ◌≤◌, ◌<◌, ◌≡◌, refl, ap, sym, ◌∙◌, false, none, [], ◌∷◌, Bytes, bytes_eq,
  has_prefix, arith, length, Option-cases, from_big_endian, inl, inr, ◌==◌, ==_iff,
}
use rosetta.Shared.Results.{ok, ok_inj}
use rosetta.Model.{BlockMeta, IndexedBlock}
use rosetta.IndexDb.{
  Store, account_key, block_key, hash2height_key, height2hash_key, latest_key, balance_by_height,
}
use rosetta.IndexDb.Database.{Badger, Codec}
use rosetta.IndexDb.Indexed.{IsIndexed}
use rosetta.IndexDb.Changes.{
  latest_change, latest_change_ext, latest_change_stays, latest_change_at,
}
use rosetta.IndexDb.Balances.{change, balance_by_height_refines}
use rosetta.IndexDb.Write.{set_proxies, index, indexed_meta}
use rosetta.IndexDb.Write.Totals.{AreTxns, debits, credits, value, value_absent, value_entry}
use rosetta.IndexDb.Write.Tracking.{IsCollected, collect-Tracks}
use rosetta.IndexDb.Write.Updates.{IsIndexed-mono}
use rosetta.IndexDb.Write.Applied.{Applied, Fresh, apply_updates_cases, next_change, next_balance}
use rosetta.IndexDb.Write.Step.{IsStore, Stepped, index-Stepped}
use rosetta.IndexDb.Write.Keys.{
  get-set_block_other, get-set_proxies_other, set_proxies-IsIndexed, set_block-IsIndexed,
  fresh_above,
}
use mathlib.Core.Option

module _ (b : Badger) (c : Codec) (s s' : Store b) (top : BlockMeta) (hash : Bytes)
    (block : IndexedBlock) (store : IsStore b c s top) (room : top.height + 1 < 2 ^ 64)
    (txns : AreTxns block.transactions)
    (run : index b c s (top.height + 1) hash block ≡ ok s') where
  pub step : Stepped b c s s' (top.height + 1) hash block
  step = index-Stepped b c s s' top hash block store.latest_eq room run

  len8 : Bytes
  len8 = 0 ∷ 0 ∷ 0 ∷ 0 ∷ 0 ∷ 0 ∷ 0 ∷ 0 ∷ []

  pub valid_col : IsCollected (top.height + 1) step.col
  valid_col =
      (collect-Tracks (top.height + 1) len8 (unfold len8 in refl) block.transactions txns
        step.collected).valid

  pub wider : IsIndexed b s.db (top.height + 1)
  wider = IsIndexed-mono b s.db top.height (top.height + 1) store.indexed (omega arith) room

  pub applied : Applied b (top.height + 1) s.db step.mid step.col.accts
  applied =
      elim (apply_updates_cases b (top.height + 1) step.col.accts s.db wider valid_col.diffs
        (unfold Fresh in λ y e ly fe. fresh_above b s.db top.height y store.indexed room)) [
          | inl (d', e, done) ↦
              let same : d' ≡ step.mid = ok_inj (sym e ∙ step.applied) in rw (← same) done
          | inr (e, r) ↦ let clash = sym e ∙ step.applied in cc
        ]

  -- The new database agrees with the updated one on what the block's own writes leave alone.
  pub kept :
      (k : Bytes)
      → has_prefix (b'p' ∷ []) k ≡ false
      → bytes_eq (block_key (top.height + 1)) k ≡ false
      → bytes_eq (hash2height_key hash) k ≡ false
      → bytes_eq (height2hash_key (top.height + 1)) k ≡ false
      → bytes_eq latest_key k ≡ false
      → b.get s'.db k ≡ b.get step.mid k
  kept k p e1 e2 e3 e4 =
      ap (λ (d : b.Db). b.get d k) step.db_eq
      ∙ get-set_block_other b (set_proxies b step.mid step.col.proxy_accts) (top.height + 1) hash
          step.block_value step.latest_value k e1 e2 e3 e4
      ∙ get-set_proxies_other b step.mid (top.height + 1) step.col.proxy_accts k valid_col.proxies p

  change_new : (a : Bytes) (i : ℕ) → change b s'.db a i ≡ change b step.mid a i
  change_new a i =
      unfold change bytes_eq has_prefix in
      ap (Option.map (from_big_endian 0)) (kept (account_key a i) refl refl refl refl refl)

  -- On a well-formed store, with a next height below 2^64, well-formed operations and a call of
  -- `Index` for that height that succeeds, the store that results is well formed, with the new
  -- block's meta data as its tip.
  pub index-IsStore : IsStore b c s' (indexed_meta b c (top.height + 1) hash block)
  index-IsStore = record {
    latest_eq = step.meta_eq;
    indexed = rw step.db_eq (
        set_block-IsIndexed b _ (top.height + 1) hash step.block_value step.latest_value (
          set_proxies-IsIndexed b step.mid (top.height + 1) step.col.proxy_accts valid_col.proxies
            applied.indexed));
  }

  past_change :
      (a : Bytes) (i : ℕ) → length a ≡ 8 → i ≤ top.height → change b s'.db a i ≡ change b s.db a i
  past_change a i la le =
      change_new a i
      ∙ applied.changes a i la (omega arith)
      ∙ (let past : (i == top.height + 1) ≡ false = ground arith in rw past)

  past_balance :
      (a : Bytes) (i : ℕ)
      → length a ≡ 8
      → i ≤ top.height
      → latest_change (change b s'.db a) i ≡ latest_change (change b s.db a) i
  past_balance a i la le =
      latest_change_ext (change b s'.db a) (change b s.db a) i
        (λ j p. past_change a j la (omega arith))

  -- On a well-formed store, with a next height below 2^64, well-formed operations and a call of
  -- `Index` for that height that succeeds, the balance of every address of 8 bytes at every
  -- height up to the old tip reads as before.
  pub index_history :
      (a : Bytes) (i : ℕ)
      → length a ≡ 8
      → i ≤ top.height
      → balance_by_height b s' a i ≡ balance_by_height b s a i
  index_history a i la le =
      balance_by_height_refines b s' (top.height + 1) a i index-IsStore.indexed (omega arith)
      ∙ ap ok (past_balance a i la le)
      ∙ sym (balance_by_height_refines b s top.height a i store.indexed (omega arith))

  abbrev h : ℕ
  h = top.height + 1

  old_eq :
      (a : Bytes) (old : ℕ)
      → balance_by_height b s a top.height ≡ ok old
      → latest_change (change b s.db a) top.height ≡ old
  old_eq a old e =
      ok_inj (
        sym (balance_by_height_refines b s top.height a top.height store.indexed (omega arith)) ∙ e)

  read_new :
      (a : Bytes)
      → length a ≡ 8
      → (n : ℕ) → latest_change (change b s'.db a) (top.height + 1) ≡ n
      → balance_by_height b s' a (top.height + 1) ≡ ok n
  read_new a la n e =
      balance_by_height_refines b s' (top.height + 1) a (top.height + 1) index-IsStore.indexed room
      ∙ ap ok e

  pub fresh_change : (a : Bytes) → change b s.db a (top.height + 1) ≡ none
  fresh_change a = unfold change in rw (fresh_above b s.db top.height a store.indexed room)

  new_change :
      (a : Bytes)
      → length a ≡ 8
      → change b s'.db a (top.height + 1)
        ≡ next_change b (top.height + 1) s.db a (find a step.col.accts)
  new_change a la =
      change_new a (top.height + 1)
      ∙ applied.changes a (top.height + 1) la room
      ∙ rw ((==_iff (top.height + 1) (top.height + 1)).1 refl)

  -- On a well-formed store, with a next height below 2^64, well-formed operations and a call of
  -- `Index` for that height that succeeds, the balance of an address of 8 bytes at the new height
  -- is the old one plus what the block's operations give it less what they take from it, if the
  -- old balance with the first sum, and the second sum, are below 2^63.
  pub index_balance :
      (a : Bytes) (old : ℕ)
      → length a ≡ 8
      → balance_by_height b s a top.height ≡ ok old
      → old + credits a block.transactions < 2 ^ 63
      → debits a block.transactions < 2 ^ 63
      → (new : ℕ) × (balance_by_height b s' a (top.height + 1) ≡ ok new)
        × (new + debits a block.transactions ≡ old + credits a block.transactions)
  index_balance a old la e cr de = elim (Option-cases (find a step.col.accts)) [
    | inl absent ↦
        let net = (collect-Tracks h a la block.transactions txns step.collected).net in
        let no_diff : value a step.col.accts ≡ 0 = value_absent a step.col.accts absent in
        (
          old,
          read_new a la old (
              latest_change_stays (change b s'.db a) top.height h (omega arith) (λ i p q.
                let at : i ≡ h = omega arith in rw (at, new_change a la, absent) (fresh_change a))
              ∙ past_balance a top.height la (omega arith)
              ∙ old_eq a old e),
          omega (arith, no_diff, net.nets),
        )
    | inr (diff, entry) ↦
        let net = (collect-Tracks h a la block.transactions txns step.collected).net in
        let new_diff : value a step.col.accts ≡ diff = value_entry a step.col.accts entry in
        let before : latest_change (change b s.db a) h ≡ old =
          latest_change_stays (change b s.db a) top.height h (omega arith)
            (λ i p q. let at : i ≡ h = omega arith in rw at (fresh_change a))
          ∙ old_eq a old e in
        (
          next_balance b h s.db a diff,
          read_new a la (next_balance b h s.db a diff)
              (latest_change_at (change b s'.db a) h h (next_balance b h s.db a diff) (omega arith)
                (new_change a la ∙ rw entry) (λ i p q. absurd (omega arith))).0,
          omega (arith, new_diff, before, net.nets, net.small, applied.nonneg a diff entry),
        )
  ]
