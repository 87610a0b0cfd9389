-- ===== src/IndexDb/Purge/Balances.antt =====
-- indexdb/indexdb.go: what `PurgeProxyAccounts` does to the balances.
use rosetta.Shared.{
  find, ℕ, ◌^◌, ◌≤◌, ◌<◌, ◌≡◌, refl, ap, sym, ap₂, ◌∙◌, Bool, true, false, ◌&&◌, Option, none, some,
  [], ◌∷◌, ◌++◌, Bytes, bytes_eq, bytes_eq_iff, has_prefix, arith, if◌then◌else◌, Bool-cases, inl,
  inr, length, map, from_big_endian,
}
use rosetta.Shared.Results.{ok}
use rosetta.IndexDb.{Store, pad8, be64, account_key, proxy_key, balance_by_height, has_balance}
use rosetta.IndexDb.Database.{Badger}
use rosetta.IndexDb.Indexed.{IsIndexed}
use rosetta.IndexDb.Changes.{latest_change_ext, any_change_ext, latest_change-none}
use rosetta.IndexDb.Balances.{change, balance_by_height_refines, has_balance_refines}
use rosetta.IndexDb.Reset.{delete_keys}
use rosetta.IndexDb.Reset.Keys.{mem, get-delete_keys_from, AllItems, find-AllItems}
use rosetta.IndexDb.Reset.Collect.{item_parts, listed}
use rosetta.IndexDb.Purge.{purge_proxy_accounts, is_some}
use rosetta.IndexDb.Purge.Marks.{
  address, address-key, length-key, marked, marked_item, not_marked, mem-own, IsMark, Marked,
  proxy_marks-Marked, Owned, balance_keys-Owned,
}
use mathlib.Core.Option

-- A deletion that is decided by whether the item is there and by the account.
deleted :
    (x g : Option Bytes) (in_keys own proxy : Bool)
    → x ≡ (if in_keys then none else (if own then none else g))
    → own ≡ false
    → in_keys ≡ (is_some g && proxy)
    → x ≡ (if proxy then none else g)
deleted x none in_keys own true e o m = ground arith
deleted x none in_keys own false e o m = ground arith
deleted x (some w) in_keys own true e o m = ground arith
deleted x (some w) in_keys own false e o m = ground arith

module _ (b : Badger) (s : Store b) (top : ℕ) (v : IsIndexed b s.db top) where
  pub proxy_items : AllItems IsMark (b.items s.db (b'p' ∷ []))
  proxy_items =
      find-AllItems IsMark (b.items s.db (b'p' ∷ [])) (b.items-Ascending s.db (b'p' ∷ [])) (λ k w e.
        let (own, stored) = item_parts b s.db top v 0 (b'p' ∷ []) k e in
        let i = v.proxies k w stored own in
        (coe 1 0 (j. 9 ≤ length (i.key_eq j)) (length-key (b'p') i.acct i.height), own))

  pub balance_items : AllItems (λ k w. 9 ≤ length k) (b.items s.db (b'a' ∷ []))
  balance_items =
      find-AllItems (λ k w. 9 ≤ length k) (b.items s.db (b'a' ∷ []))
        (b.items-Ascending s.db (b'a' ∷ []))
        (λ k w e.
          let (own, stored) = item_parts b s.db top v 0 (b'a' ∷ []) k e in
          let i = v.accounts k w stored own in
          coe 1 0 (j. 9 ≤ length (i.key_eq j)) (length-key (b'a') i.acct i.height))

  marks : Marked (b.items s.db (b'p' ∷ [])) []
  marks = proxy_marks-Marked (b.items s.db (b'p' ∷ [])) [] proxy_items tt

  owned : Owned marks.marks (b.items s.db (b'a' ∷ []))
  owned = balance_keys-Owned marks.marks (b.items s.db (b'a' ∷ [])) balance_items

  abbrev unmarked : b.Db
  unmarked = delete_keys b s.db (map (λ m. m.1) marks.marks)

  abbrev purged : Store b
  purged = record s { db = delete_keys b unmarked owned.keys }

  purge_runs : purge_proxy_accounts b s ≡ ok purged
  unfolding purge_proxy_accounts
  purge_runs = rw (marks.eq, owned.eq)

  get-purged :
      (k : Bytes)
      → b.get purged.db k ≡ (
          if mem k owned.keys
          then none
          else (if mem k (map (λ m. m.1) marks.marks) then none else b.get s.db k))
  get-purged k =
      get-delete_keys_from b unmarked owned.keys k
      ∙ rw (get-delete_keys_from b s.db (map (λ m. m.1) marks.marks) k)

  -- What is left was there.
  was_there : (k : Bytes) {w : Bytes} → b.get purged.db k ≡ some w → b.get s.db k ≡ some w
  was_there k e = let g = get-purged k in ground arith

  purged-IsIndexed : IsIndexed b purged.db top
  purged-IsIndexed = record {
    top_lt = v.top_lt;
    accounts = λ k w e p. v.accounts k w (was_there k e) p;
    proxies = λ k w e p. v.proxies k w (was_there k e) p;
    hashes = λ k w e p. v.hashes k w (was_there k e) p;
  }

  abbrev pub is_proxy : Bytes → Bool
  is_proxy a = marked (pad8 a) (b.items s.db (b'p' ∷ []))

  get-purged_account :
      (a : Bytes) (i : ℕ)
      → b.get purged.db (account_key a i)
        ≡ (if is_proxy a then none else b.get s.db (account_key a i))
  get-purged_account a i =
      let k : Bytes = account_key a i in
      let g = get-purged k in
      let not_own = mem-own k marks.marks marks.own (unfold has_prefix in refl) in
      let addr : is_some (find (address k) marks.marks) ≡ is_some (find (pad8 a) marks.marks) =
        ap (λ (x : Bytes). is_some (find x marks.marks)) (address-key (b'a') a i) in
      let member = owned.member k in
      let proxy : is_some (find (pad8 a) marks.marks) ≡ is_proxy a = marks.found (pad8 a) in
      let at : find k (b.items s.db (b'a' ∷ [])) ≡ b.get s.db k =
        b.find-items s.db (b'a' ∷ []) k ∙ (unfold has_prefix in refl) in
      deleted (b.get purged.db k) (b.get s.db k) (mem k owned.keys)
        (mem k (map (λ m. m.1) marks.marks)) (is_proxy a) g not_own
        (member ∙ ap₂ (λ o p. is_some o && p) at (addr ∙ proxy))

  pub proxied :
      (a : Bytes) (j : ℕ) {w : Bytes} → b.get s.db (proxy_key a j) ≡ some w → is_proxy a ≡ true
  proxied a j e =
      marked_item (pad8 a) (proxy_key a j) (b.items s.db (b'p' ∷ []))
        (listed b s.db top v 0 (b'p' ∷ []) (proxy_key a j) (unfold has_prefix in refl) e)
        (address-key (b'p') a j)

  pub plain_account :
      (a : Bytes) → ((j : ℕ) → b.get s.db (proxy_key a j) ≡ none) → is_proxy a ≡ false
  plain_account a none_at = not_marked (pad8 a) (b.items s.db (b'p' ∷ [])) (
      find-AllItems (λ k w. bytes_eq (address k) (pad8 a) ≡ false) (b.items s.db (b'p' ∷ []))
        (b.items-Ascending s.db (b'p' ∷ []))
        (λ k w e.
          let (own, stored) = item_parts b s.db top v 0 (b'p' ∷ []) k e in
          let i = v.proxies k w stored own in
          elim (Bool-cases (bytes_eq (address k) (pad8 a))) [
            | inl same ↦
                let addr : pad8 i.acct ≡ pad8 a =
                  sym (address-key (b'p') i.acct i.height)
                  ∙ ap address (sym i.key_eq)
                  ∙ (bytes_eq_iff (address k) (pad8 a)).0 same in
                let key : k ≡ proxy_key a i.height =
                  i.key_eq ∙ ap (λ (x : Bytes). (b'p' ∷ x) ++ be64 i.height) addr in
                let clash = sym stored ∙ ap (b.get s.db) key ∙ none_at i.height in cc
            | inr other ↦ other
          ]))

  -- `PurgeProxyAccounts` succeeds on a well-formed database and keeps it so, and an account that is
  -- marked as a proxy at some height has no balance at any height afterwards.
  pub purge_proxy :
      (a : Bytes) (i j : ℕ) {w : Bytes}
      → i < 2 ^ 64
      → b.get s.db (proxy_key a j) ≡ some w
      → (s' : Store b) × (purge_proxy_accounts b s ≡ ok s')
        × IsIndexed b s'.db top
        × (balance_by_height b s' a i ≡ ok 0)
        × (has_balance b s' a i ≡ false)
  purge_proxy a i j i_lt e =
      let gone =
        latest_change-none (change b purged.db a) i
          (λ n p. unfold change in rw (get-purged_account a n, proxied a j e)) in
      (
        purged,
        purge_runs,
        purged-IsIndexed,
        balance_by_height_refines b purged top a i purged-IsIndexed i_lt ∙ ap ok gone.0,
        has_balance_refines b purged top a i purged-IsIndexed i_lt ∙ gone.1,
      )

  kept_change :
      (a : Bytes) (n : ℕ) → is_proxy a ≡ false → change b purged.db a n ≡ change b s.db a n
  kept_change a n e =
      unfold change in ap (Option.map (from_big_endian 0)) (get-purged_account a n ∙ rw e)

  -- `PurgeProxyAccounts` succeeds on a well-formed database, and an account that is marked as a
  -- proxy at no height keeps its balance at every height.
  pub purge_others :
      (a : Bytes) (i : ℕ)
      → i < 2 ^ 64
      → ((j : ℕ) → b.get s.db (proxy_key a j) ≡ none)
      → (s' : Store b) × (purge_proxy_accounts b s ≡ ok s')
        × (balance_by_height b s' a i ≡ balance_by_height b s a i)
        × (has_balance b s' a i ≡ has_balance b s a i)
  purge_others a i i_lt none_at =
      let same = λ (n : ℕ) (p : n ≤ i). kept_change a n (plain_account a none_at) in
      (
        purged,
        purge_runs,
        balance_by_height_refines b purged top a i purged-IsIndexed i_lt
            ∙ ap ok (latest_change_ext (change b purged.db a) (change b s.db a) i same)
            ∙ sym (balance_by_height_refines b s top a i v i_lt),
        has_balance_refines b purged top a i purged-IsIndexed i_lt
            ∙ any_change_ext (change b purged.db a) (change b s.db a) i same
            ∙ sym (has_balance_refines b s top a i v i_lt),
      )
