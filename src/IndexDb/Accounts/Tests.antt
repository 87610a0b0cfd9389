-- ===== src/IndexDb/Accounts/Tests.antt =====
-- indexdb/indexdb.go: `Accounts` on a store with one account.
use rosetta.Shared.{
  find, put, ℕ, ◌≡◌, refl, sym, ◌∙◌, Bool, true, false, none, some, arith, List, [], ◌∷◌, Bytes,
  has_prefix, bytes_eq, bytes_lt, big_endian,
}
use rosetta.Shared.Results.{ok}
use rosetta.IndexDb.{pad8, Store, account_key, proxy_key, be64}
use rosetta.IndexDb.Indexed.{IsIndexed}
use rosetta.IndexDb.Database.Sorted.{sorted, empty_db}
use rosetta.IndexDb.Database.Plain.{plain}
use rosetta.IndexDb.Write.Updates.{set-IsIndexed}
use rosetta.IndexDb.Write.Start.{empty-IsIndexed}
use rosetta.IndexDb.Purge.{account_of}
use rosetta.IndexDb.Accounts.{accounts, list_accounts, flag_proxies}
use rosetta.IndexDb.Accounts.Listing.{IsKind, accounts_lists}

abbrev carol : Bytes
carol = 1 ∷ 2 ∷ 3 ∷ 4 ∷ 5 ∷ 6 ∷ 7 ∷ 8 ∷ []

abbrev store : Store sorted
store = record {
  db = sorted.set empty_db (account_key carol 3) (be64 5);
  genesis = none;
  latest = none;
}

-- A mark at a later height makes the account a proxy.
abbrev marked_store : Store sorted
marked_store = record {
  db = sorted.set store.db (proxy_key carol 4) (b'1' ∷ []);
  genesis = none;
  latest = none;
}

accounts-store : accounts sorted store ≡ ok ((carol, false) ∷ [])
unfolding accounts list_accounts flag_proxies account_of put pad8 big_endian bytes_eq bytes_lt
    has_prefix
accounts-store = refl

accounts-marked_store : accounts sorted marked_store ≡ ok ((carol, true) ∷ [])
unfolding accounts list_accounts flag_proxies account_of put pad8 big_endian bytes_eq bytes_lt
    has_prefix
accounts-marked_store = refl

store-IsIndexed : IsIndexed sorted store.db 3
unfolding has_prefix
store-IsIndexed =
    set-IsIndexed sorted empty_db 3 (account_key carol 3) (be64 5)
      (empty-IsIndexed sorted plain empty_db 3 (λ k. refl) (omega arith))
      (λ p. record {
        acct = carol;
        height = 3;
        amount = 5;
        key_eq = refl;
        height_le = omega arith;
        amount_lt = omega arith;
        val_eq = refl;
      })
      (λ p. cc) (λ p. cc)

no_marks : (a : Bytes) (j : ℕ) → sorted.get store.db (proxy_key a j) ≡ none
unfolding bytes_eq
no_marks a j = refl

carol_balance : sorted.get store.db (account_key carol 3) ≡ some (be64 5)
unfolding bytes_eq pad8 big_endian
carol_balance = refl

accounts_lists_example :
    (m : List (Bytes × Bool)) × (accounts sorted store ≡ ok m) × (find (pad8 carol) m ≡ some false)
accounts_lists_example =
    accounts_lists sorted store 3 store-IsIndexed
      (λ a j w e. let clash = sym (no_marks a j) ∙ e in cc) carol (some false)
      (IsKind.plain 3 (be64 5) carol_balance (no_marks carol))
