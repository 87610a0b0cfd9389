-- ===== src/IndexDb/Accounts/Listing.antt =====
-- indexdb/indexdb.go: what `Accounts` lists.
use rosetta.Shared.{
  find, put, find-put_exact, ℕ, ◌≤◌, ◌≡◌, refl, ap, sym, ◌∙◌, Bool, true, false, Option, none, some,
  List, [], ◌∷◌, ◌++◌, Bytes, bytes_eq, bytes_eq_iff, has_prefix, arith, if◌then◌else◌, Bool-cases,
  inl, inr, length,
}
use rosetta.Shared.Results.{Result, ok, ◌>>=◌, or_err}
use rosetta.IndexDb.{be64, Error, Store, pad8, account_key, proxy_key, proxy_without_balance}
use rosetta.IndexDb.Database.{Badger}
use rosetta.IndexDb.Indexed.{IsIndexed}
use rosetta.IndexDb.Reset.Keys.{AllItems, find-AllItems}
use rosetta.IndexDb.Reset.Collect.{item_parts, listed}
use rosetta.IndexDb.Purge.{is_some}
use rosetta.IndexDb.Purge.Marks.{
  address, address-key, length-key, marked, marked_item, not_marked, account_of-address,
}
use rosetta.IndexDb.Purge.Balances.{balance_items, plain_account, proxied}
use rosetta.IndexDb.Accounts.{list_accounts, flag_proxies, accounts}

-- A map that has the flag for the accounts of a list's items, and what it had for the others.
pub record Flagged (run : Result Error (List (Bytes × Bool))) (flag : Bool)
    (l : List (Bytes × Bytes)) (m0 : List (Bytes × Bool)) : Type 0 where
  pub accts : List (Bytes × Bool)
  pub eq : run ≡ ok accts
  pub found : (a : Bytes) → find a accts ≡ (if marked a l then some flag else find a m0)

list_accounts-Flagged :
    (l : List (Bytes × Bytes)) (m0 : List (Bytes × Bool))
    → AllItems (λ k v. 9 ≤ length k) l
    → Flagged (list_accounts l m0) false l m0
unfolding list_accounts marked
list_accounts-Flagged [] m0 a = record { accts = m0; eq = refl; found = λ x. refl }
list_accounts-Flagged ((k, v) ∷ l) m0 (long, a) =
    let rest = list_accounts-Flagged l (put (address k) false m0) a in
    record {
      accts = rest.accts;
      eq = rw (account_of-address k long) rest.eq;
      found = λ x. ground (arith, rest.found x, find-put_exact x (address k) false m0);
    }

flag_proxies-Flagged :
    (l : List (Bytes × Bytes)) (m0 : List (Bytes × Bool))
    → AllItems (λ k v. (9 ≤ length k) × (is_some (find (address k) m0) ≡ true)) l
    → Flagged (flag_proxies l m0) true l m0
unfolding flag_proxies marked
flag_proxies-Flagged [] m0 a = record { accts = m0; eq = refl; found = λ x. refl }
flag_proxies-Flagged ((k, v) ∷ l) m0 ((long, here), a) =
    let rest = flag_proxies-Flagged l (put (address k) true m0) (still l a) in
    record {
      accts = rest.accts;
      eq = rw (account_of-address k long) (known (find (address k) m0) here ∙ rest.eq);
      found = λ x. ground (arith, rest.found x, find-put_exact x (address k) true m0);
    }
  where
    still :
        (items : List (Bytes × Bytes))
        → AllItems (λ j w. (9 ≤ length j) × (is_some (find (address j) m0) ≡ true)) items
        → AllItems
            (λ j w. (9 ≤ length j) × (is_some (find (address j) (put (address k) true m0)) ≡ true))
            items
    still [] h = tt
    still ((j, w) ∷ items) ((lj, ej), h) =
        ((lj, ground (arith, ej, find-put_exact (address j) (address k) true m0)), still items h)

    known :
        {next : Result Error (List (Bytes × Bool))} (o : Option Bool)
        → is_some o ≡ true
        → (or_err o proxy_without_balance >>= λ x. next) ≡ next
    known none e = cc
    known (some x) e = refl

module _ (b : Badger) (s : Store b) where
  -- What is stored of an account: its balances and its marks as a proxy.
  pub data IsKind (a : Bytes) : Option Bool → Type 0 where
    proxy :
        (i j : ℕ) (u w : Bytes)
        → b.get s.db (account_key a i) ≡ some u
        → b.get s.db (proxy_key a j) ≡ some w
        → IsKind a (some true)
    plain :
        (i : ℕ) (u : Bytes)
        → b.get s.db (account_key a i) ≡ some u
        → ((j : ℕ) → b.get s.db (proxy_key a j) ≡ none)
        → IsKind a (some false)
    unknown :
        ((i : ℕ) → b.get s.db (account_key a i) ≡ none)
        → ((j : ℕ) → b.get s.db (proxy_key a j) ≡ none)
        → IsKind a none

module _ (b : Badger) (s : Store b) (top : ℕ) (v : IsIndexed b s.db top)
    (complete : (a : Bytes) (j : ℕ) (w : Bytes)
      → b.get s.db (proxy_key a j) ≡ some w
      → (i : ℕ) × (u : Bytes) × (b.get s.db (account_key a i) ≡ some u)) where
  balances :
      Flagged (list_accounts (b.items s.db (b'a' ∷ [])) []) false (b.items s.db (b'a' ∷ [])) []
  balances = list_accounts-Flagged (b.items s.db (b'a' ∷ [])) [] (balance_items b s top v)

  with_balance :
      (a : Bytes) (i : ℕ) {u : Bytes}
      → b.get s.db (account_key a i) ≡ some u
      → marked (pad8 a) (b.items s.db (b'a' ∷ [])) ≡ true
  with_balance a i e =
      marked_item (pad8 a) (account_key a i) (b.items s.db (b'a' ∷ []))
        (listed b s.db top v 0 (b'a' ∷ []) (account_key a i) (unfold has_prefix in refl) e)
        (address-key (b'a') a i)

  without_balance :
      (a : Bytes)
      → ((i : ℕ) → b.get s.db (account_key a i) ≡ none)
      → marked (pad8 a) (b.items s.db (b'a' ∷ [])) ≡ false
  without_balance a none_at = not_marked (pad8 a) (b.items s.db (b'a' ∷ [])) (
      find-AllItems (λ k w. bytes_eq (address k) (pad8 a) ≡ false) (b.items s.db (b'a' ∷ []))
        (b.items-Ascending s.db (b'a' ∷ []))
        (λ k w e.
          let (own, stored) = item_parts b s.db top v 0 (b'a' ∷ []) k e in
          let i = v.accounts k w stored own in
          elim (Bool-cases (bytes_eq (address k) (pad8 a))) [
            | inl same ↦
                let addr : pad8 i.acct ≡ pad8 a =
                  sym (address-key (b'a') i.acct i.height)
                  ∙ ap address (sym i.key_eq)
                  ∙ (bytes_eq_iff (address k) (pad8 a)).0 same in
                let key : k ≡ account_key a i.height =
                  i.key_eq ∙ ap (λ (x : Bytes). (b'a' ∷ x) ++ be64 i.height) addr in
                let clash = sym stored ∙ ap (b.get s.db) key ∙ none_at i.height in cc
            | inr other ↦ other
          ]))

  proxies_known :
      AllItems
        (λ k w. (9 ≤ length k) × (is_some (find (address k) balances.accts) ≡ true))
        (b.items s.db (b'p' ∷ []))
  proxies_known =
      find-AllItems (λ k w. (9 ≤ length k) × (is_some (find (address k) balances.accts) ≡ true))
        (b.items s.db (b'p' ∷ [])) (b.items-Ascending s.db (b'p' ∷ []))
        (λ k w e.
          let (own, stored) = item_parts b s.db top v 0 (b'p' ∷ []) k e in
          let p = v.proxies k w stored own in
          let (i, u, there) =
            complete p.acct p.height w (sym (ap (b.get s.db) p.key_eq) ∙ stored) in
          let addr : address k ≡ pad8 p.acct =
            ap address p.key_eq ∙ address-key (b'p') p.acct p.height in
          (
            coe 1 0 (j. 9 ≤ length (p.key_eq j)) (length-key (b'p') p.acct p.height),
            ap (λ (x : Bytes). is_some (find x balances.accts)) addr
                ∙ ap is_some (balances.found (pad8 p.acct))
                ∙ rw (with_balance p.acct i there),
          ))

  all :
      Flagged
        (flag_proxies (b.items s.db (b'p' ∷ [])) balances.accts)
        true
        (b.items s.db (b'p' ∷ []))
        balances.accts
  all = flag_proxies-Flagged (b.items s.db (b'p' ∷ [])) balances.accts proxies_known

  accounts_runs : accounts b s ≡ ok all.accts
  unfolding accounts
  accounts_runs = rw (balances.eq, all.eq)

  found_kind : (a : Bytes) (o : Option Bool) → IsKind b s a o → find (pad8 a) all.accts ≡ o
  found_kind a (some true) (proxy i j u w e p) = all.found (pad8 a) ∙ rw (proxied b s top v a j p)
  found_kind a (some false) (plain i u e np) =
      all.found (pad8 a)
      ∙ rw (plain_account b s top v a np, balances.found (pad8 a), with_balance a i e)
  found_kind a none (unknown n np) =
      all.found (pad8 a)
      ∙ rw (plain_account b s top v a np, balances.found (pad8 a), without_balance a n)

  -- `Accounts` succeeds on a well-formed database in which every proxy account has a balance. It
  -- lists an account with a balance as a proxy if it is marked as one at some height, as no proxy if
  -- it is marked at none, and does not list an account that has neither balance nor mark.
  pub accounts_lists :
      (a : Bytes) (o : Option Bool)
      → IsKind b s a o
      → (m : List (Bytes × Bool)) × (accounts b s ≡ ok m) × (find (pad8 a) m ≡ o)
  accounts_lists a o kind = (all.accts, accounts_runs, found_kind a o kind)
