-- ===== src/IndexDb/Write/Updates.antt =====
-- indexdb/indexdb.go: the transaction of `Index` writes each account's next change, and no other.
use rosetta.Shared.{
  ℕ, ◌^◌, ◌≤◌, ◌<◌, ◌≡◌, refl, ap, sym, ◌∙◌, true, Option, none, some, [], ◌∷◌, ◌++◌, Bytes,
  bytes_eq, bytes_eq_iff, has_prefix, arith, take, Bool-cases, inl, inr, some_inj,
}
use rosetta.Shared.Results.{ok}
use rosetta.IndexDb.{be64, pad8, account_prefix, account_key, balance_at}
use rosetta.IndexDb.Database.{Badger}
use rosetta.IndexDb.Indexed.{
  IsIndexed, IsAccountItem, IsProxyItem, IsHashItem, length-pad8, take_append,
}
use rosetta.IndexDb.Changes.{latest_change}
use rosetta.IndexDb.Balances.{change, found}
use rosetta.IndexDb.Write.{current}

module _ (b : Badger) where
  -- A write keeps the invariant if its own key is well formed.
  pub set-IsIndexed :
      (d : b.Db) (top : ℕ) (k v : Bytes)
      → IsIndexed b d top
      → (has_prefix (b'a' ∷ []) k ≡ true → IsAccountItem top k v)
      → (has_prefix (b'p' ∷ []) k ≡ true → IsProxyItem top k)
      → (has_prefix (b'd' ∷ []) k ≡ true → IsHashItem top k)
      → IsIndexed b (b.set d k v) top
  set-IsIndexed d top k v h ia ip ih = record {
    top_lt = h.top_lt;
    accounts = λ j w e p. elim (Bool-cases (bytes_eq k j)) [
      | inl same ↦
          let kj : k ≡ j = (bytes_eq_iff k j).0 same in
          let vw : v ≡ w = some_inj (sym (b.get-set d k v j ∙ rw same) ∙ e) in
          rw (← kj, ← vw) (ia (rw kj p))
      | inr other ↦ h.accounts j w (sym (b.get-set d k v j ∙ rw other) ∙ e) p
    ];
    proxies = λ j w e p. elim (Bool-cases (bytes_eq k j)) [
      | inl same ↦ let kj : k ≡ j = (bytes_eq_iff k j).0 same in rw (← kj) (ip (rw kj p))
      | inr other ↦ h.proxies j w (sym (b.get-set d k v j ∙ rw other) ∙ e) p
    ];
    hashes = λ j w e p. elim (Bool-cases (bytes_eq k j)) [
      | inl same ↦ let kj : k ≡ j = (bytes_eq_iff k j).0 same in rw (← kj) (ih (rw kj p))
      | inr other ↦ h.hashes j w (sym (b.get-set d k v j ∙ rw other) ∙ e) p
    ];
  }

  -- A bound may grow.
  pub IsIndexed-mono :
      (d : b.Db) (top h : ℕ) → IsIndexed b d top → top ≤ h → h < 2 ^ 64 → IsIndexed b d h
  IsIndexed-mono d top h v le lt = record {
    top_lt = lt;
    accounts = λ k w e p.
        let i = v.accounts k w e p in
        record {
          acct = i.acct;
          height = i.height;
          amount = i.amount;
          key_eq = i.key_eq;
          height_le = omega (arith, i.height_le);
          amount_lt = i.amount_lt;
          val_eq = i.val_eq;
        };
    proxies = λ k w e p.
        let i = v.proxies k w e p in
        record {
          acct = i.acct;
          height = i.height;
          key_eq = i.key_eq;
          height_le = omega (arith, i.height_le);
        };
    hashes = λ k w e p.
        let i = v.hashes k w e p in
        record { height = i.height; key_eq = i.key_eq; height_le = omega (arith, i.height_le) };
  }

  take-account_key : (a : Bytes) (h : ℕ) → take 9 (account_key a h) ≡ account_prefix a
  take-account_key a h =
      ap (λ (n : ℕ). b'a' ∷ take n (pad8 a ++ be64 h)) (sym (length-pad8 a))
      ∙ ap (◌∷◌ b'a') (take_append (pad8 a) (be64 h))

  module _ (d : b.Db) (h : ℕ) (v : IsIndexed b d h) (a : Bytes) where
    -- Without a change at the height itself, `current` reads what `balanceByHeight` reads.
    current_eq :
        (item : Option (Bytes × Bytes))
        → ((k w : Bytes) → item ≡ some (k, w) → b.get d k ≡ some w)
        → b.get d (account_key a h) ≡ none
        → current b d (account_key a h) item ≡ balance_at b (account_prefix a) item
    unfolding current balance_at
    current_eq none stored empty = refl
    current_eq (some (k, w)) stored empty = elim (Bool-cases (bytes_eq k (account_key a h))) [
      | inl same ↦
          let e : k ≡ account_key a h = (bytes_eq_iff k (account_key a h)).0 same in
          let clash : some w ≡ none = sym (stored k w refl) ∙ ap (b.get d) e ∙ empty in cc
      | inr other ↦ rw (take-account_key a h, other)
    ]

    pub current-seek :
        b.get d (account_key a h) ≡ none
        → current b d (account_key a h) (b.seek d (account_key a h))
          ≡ ok (latest_change (change b d a) h)
    current-seek empty =
        let f = found b d h v a h v.top_lt in
        current_eq (b.seek d (account_key a h)) (λ k w e. (b.seek_some d (account_key a h) k w e).0)
          empty
        ∙ f.read_eq
        ∙ ap ok (sym f.balance_eq)
