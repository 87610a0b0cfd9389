-- ===== src/IndexDb/Balances.antt =====
-- indexdb/indexdb.go: `balanceByHeight` and `HasBalance` against the account's changes by height.
use rosetta.Shared.{
  ℕ, ◌^◌, ◌≤◌, ◌<◌, ◌≡◌, refl, ap, sym, ◌∙◌, true, false, Option, none, some, ◌∷◌, ◌++◌, Bytes,
  has_prefix, bytes_lt, from_big_endian, arith, ltb, Option-cases, Bool-cases, prefix_gap, inl, inr,
  from_big_endian-big_endian, lt→ltb,
}
use rosetta.Shared.Results.{ok}
use rosetta.IndexDb.{
  Store, be64, account_prefix, account_key, balance_at, balance_by_height, has_balance, has_item,
}
use rosetta.IndexDb.Database.{Badger}
use rosetta.IndexDb.Indexed.{
  IsIndexed, uint64-be64, bytes_lt-account_key, account_prefix_same, account_prefix_a,
}
use rosetta.IndexDb.Changes.{latest_change, any_change, latest_change-none, latest_change_at}
use mathlib.Core.Option

-- The change of an account's balance that is stored for a height.
unfoldable pub change : (b : Badger) → b.Db → Bytes → ℕ → Option ℕ
change b d a h = Option.map (from_big_endian 0) (b.get d (account_key a h))

pub ltb-false : (h k : ℕ) → ltb h k ≡ false → k ≤ h
ltb-false h k e = ground arith

not_lt : (h k : ℕ) → k ≤ h → ltb h k ≡ false
not_lt h k e = ground arith

module _ (b : Badger) (d : b.Db) (top : ℕ) (v : IsIndexed b d top) (a : Bytes) (h : ℕ)
    (h_lt : h < 2 ^ 64) where
  -- What the reverse iterator finds, read as the last change.
  pub record Found (item : Option (Bytes × Bytes)) : Type 0 where
    pub balance : ℕ
    pub balance_eq : latest_change (change b d a) h ≡ balance
    pub read_eq : balance_at b (account_prefix a) item ≡ ok balance
    pub any_eq : any_change (change b d a) h ≡ has_item b (account_prefix a) item

  missing : (i : ℕ) → b.get d (account_key a i) ≡ none → change b d a i ≡ none
  unfolding change
  missing i e = rw e

  key_le : (i : ℕ) → i ≤ h → bytes_lt (account_key a h) (account_key a i) ≡ false
  key_le i p = bytes_lt-account_key a h i h_lt (omega arith) ∙ not_lt h i p

  Found-none : ((i : Bytes) → bytes_lt (account_key a h) i ≡ false → b.get d i ≡ none) → Found none
  unfolding balance_at has_item
  Found-none empty =
      let (zero_eq, any_eq) =
        latest_change-none (change b d a) h (λ i p. missing i (empty _ (key_le i p))) in
      record { balance = 0; balance_eq = zero_eq; read_eq = refl; any_eq = any_eq }

  Found-other :
      (k w : Bytes)
      → bytes_lt (account_key a h) k ≡ false
      → ((i : Bytes)
          → bytes_lt k i ≡ true
          → bytes_lt (account_key a h) i ≡ false
          → b.get d i ≡ none)
      → has_prefix (account_prefix a) k ≡ false
      → Found (some (k, w))
  unfolding balance_at has_item
  Found-other k w below empty other =
      let (zero_eq, any_eq) = latest_change-none (change b d a) h (λ i p.
        missing i
          (empty _ (prefix_gap (account_prefix a) k (be64 h) (be64 i) other below) (key_le i p))) in
      record { balance = 0; balance_eq = zero_eq; read_eq = rw other; any_eq = rw other any_eq }

  Found-own :
      (k w : Bytes)
      → b.get d k ≡ some w
      → bytes_lt (account_key a h) k ≡ false
      → ((i : Bytes)
          → bytes_lt k i ≡ true
          → bytes_lt (account_key a h) i ≡ false
          → b.get d i ≡ none)
      → has_prefix (account_prefix a) k ≡ true
      → Found (some (k, w))
  unfolding balance_at has_item
  Found-own k w stored below empty own =
      let item = v.accounts k w stored (account_prefix_a a k own) in
      let same : account_key item.acct item.height ≡ account_key a item.height =
        ap (λ (p : Bytes). (b'a' ∷ p) ++ be64 item.height)
          (sym (account_prefix_same a item.acct item.height (rw (item.key_eq) at own))) in
      let key_eq : k ≡ account_key a item.height = item.key_eq ∙ same in
      let top_lt : item.height < 2 ^ 64 = omega (arith, v.top_lt, item.height_le) in
      let at_or_below : item.height ≤ h = ltb-false h item.height (
        sym (bytes_lt-account_key a h item.height h_lt top_lt)
        ∙ ap (bytes_lt (account_key a h)) (sym key_eq)
        ∙ below) in
      let (balance_eq, any_eq) =
        latest_change_at (change b d a) h item.height item.amount at_or_below
          (own_change item.height item.amount key_eq item.val_eq (omega (arith, item.amount_lt)))
          (λ i p q. missing i (
            empty _
              (rw key_eq (
                bytes_lt-account_key a item.height i top_lt (omega arith) ∙ lt→ltb item.height i p))
              (key_le i q))) in
      record {
        balance = item.amount;
        balance_eq = balance_eq;
        read_eq = rw (own, item.val_eq) (uint64-be64 item.amount (omega (arith, item.amount_lt)));
        any_eq = rw own any_eq;
      }
    where
      own_change :
          (i n : ℕ) → k ≡ account_key a i → w ≡ be64 n → n < 2 ^ 64 → change b d a i ≡ some n
      own_change i n ke we lt =
          unfold change in rw (← ke, stored, we) (ap some (from_big_endian-big_endian 8 n lt))

  pub found : Found (b.seek d (account_key a h))
  found = elim (Option-cases (b.seek d (account_key a h))) [
    | inl e ↦ rw e (Found-none (b.seek_none d (account_key a h) e))
    | inr ((k, w), e) ↦
        let (stored, below, empty) = b.seek_some d (account_key a h) k w e in
        elim (Bool-cases (has_prefix (account_prefix a) k)) [
          | inl own ↦ rw e (Found-own k w stored below empty own)
          | inr other ↦ rw e (Found-other k w below empty other)
        ]
  ]

module _ (b : Badger) (s : Store b) (top : ℕ) where
  -- On a well-formed database and at a height below 2^64, `balanceByHeight` returns the account's
  -- last change that is stored for a height up to that one, or 0 if there is none.
  pub balance_by_height_refines :
      (a : Bytes) (h : ℕ)
      → IsIndexed b s.db top
      → h < 2 ^ 64
      → balance_by_height b s a h ≡ ok (latest_change (change b s.db a) h)
  unfolding balance_by_height
  balance_by_height_refines a h v h_lt =
      let f = found b s.db top v a h h_lt in f.read_eq ∙ ap ok (sym f.balance_eq)

  -- On a well-formed database and at a height below 2^64, `HasBalance` tells whether a change of
  -- the account is stored for a height up to that one.
  pub has_balance_refines :
      (a : Bytes) (h : ℕ)
      → IsIndexed b s.db top
      → h < 2 ^ 64
      → has_balance b s a h ≡ any_change (change b s.db a) h
  unfolding has_balance
  has_balance_refines a h v h_lt = let f = found b s.db top v a h h_lt in sym f.any_eq
