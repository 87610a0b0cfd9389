-- ===== src/IndexDb/Purge/Tests.antt =====
-- indexdb/indexdb.go: `PurgeProxyAccounts` on a proxy account and another one.
use rosetta.Shared.{
  big_endian, ℕ, ◌≡◌, refl, false, none, arith, [], ◌∷◌, Bytes, has_prefix, bytes_eq, bytes_lt,
}
use rosetta.Shared.Results.{ok}
use rosetta.IndexDb.{pad8, Store, account_key, proxy_key, be64, balance_by_height, has_balance}
use rosetta.IndexDb.Indexed.{IsIndexed}
use rosetta.IndexDb.Database.Sorted.{sorted, empty_db}
use rosetta.IndexDb.Database.Plain.{plain}
use rosetta.IndexDb.Write.Updates.{set-IsIndexed}
use rosetta.IndexDb.Write.Start.{empty-IsIndexed}
use rosetta.IndexDb.Purge.{purge_proxy_accounts}
use rosetta.IndexDb.Purge.Balances.{purge_proxy, purge_others}

abbrev proxy : Bytes
proxy = 1 ∷ 2 ∷ 3 ∷ 4 ∷ 5 ∷ 6 ∷ 7 ∷ 8 ∷ []

abbrev other : Bytes
other = 8 ∷ 7 ∷ 6 ∷ 5 ∷ 4 ∷ 3 ∷ 2 ∷ 1 ∷ []

abbrev marked_db : sorted.Db
marked_db = sorted.set empty_db (proxy_key proxy 3) (b'1' ∷ [])

abbrev store : Store sorted
store = record {
  db = sorted.set marked_db (account_key proxy 3) (be64 5);
  genesis = none;
  latest = none;
}

store-IsIndexed : IsIndexed sorted store.db 3
unfolding has_prefix
store-IsIndexed =
    set-IsIndexed sorted marked_db 3 (account_key proxy 3) (be64 5)
      (set-IsIndexed sorted empty_db 3 (proxy_key proxy 3) (b'1' ∷ [])
        (empty-IsIndexed sorted plain empty_db 3 (λ k. refl) (omega arith)) (λ p. cc)
        (λ p. record { acct = proxy; height = 3; key_eq = refl; height_le = omega arith })
        (λ p. cc))
      (λ p. record {
        acct = proxy;
        height = 3;
        amount = 5;
        key_eq = refl;
        height_le = omega arith;
        amount_lt = omega arith;
        val_eq = refl;
      })
      (λ p. cc) (λ p. cc)

purge_proxy_example :
    (s' : Store sorted) × (purge_proxy_accounts sorted store ≡ ok s')
    × IsIndexed sorted s'.db 3
    × (balance_by_height sorted s' proxy 9 ≡ ok 0)
    × (has_balance sorted s' proxy 9 ≡ false)
unfolding bytes_eq bytes_lt pad8 big_endian
purge_proxy_example =
    purge_proxy sorted store 3 store-IsIndexed proxy 9 3 {w = b'1' ∷ []} (omega arith) refl

other_unmarked : (j : ℕ) → sorted.get store.db (proxy_key other j) ≡ none
unfolding bytes_eq bytes_lt pad8 big_endian
other_unmarked j = refl

purge_others_example :
    (s' : Store sorted) × (purge_proxy_accounts sorted store ≡ ok s')
    × (balance_by_height sorted s' other 9 ≡ balance_by_height sorted store other 9)
    × (has_balance sorted s' other 9 ≡ has_balance sorted store other 9)
purge_others_example =
    purge_others sorted store 3 store-IsIndexed other 9 (omega arith) other_unmarked
