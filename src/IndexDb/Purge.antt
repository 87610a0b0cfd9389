-- ===== src/IndexDb/Purge.antt =====
-- indexdb/indexdb.go: `PurgeProxyAccounts`.
-- A Go map is an association list; the order in which its keys are deleted does not matter.
pub mod Marks
pub mod Balances
mod Tests
use rosetta.Shared.{
  put, find, ℕ, Bool, true, false, Option, none, some, List, [], ◌∷◌, Bytes, bytes_eq, length, drop,
  take, ltb, if◌then◌else◌, map,
}
use rosetta.Shared.Results.{Result, ok, err, crash, ◌>>=◌}
use rosetta.IndexDb.{Error, Store}
use rosetta.IndexDb.Database.{Badger}
use rosetta.IndexDb.Reset.{delete_keys}

-- `key[1:9]`; a key of fewer than 9 bytes is a panic.
unfoldable pub account_of : Bytes → Result Error Bytes
account_of key = if ltb (length key) 9 then crash else ok (take 8 (drop 1 key))

-- `accts`: the key of each proxy account's mark.
pub proxy_marks : List (Bytes × Bytes) → List (Bytes × Bytes) → Result Error (List (Bytes × Bytes))
unfolding account_of put
proxy_marks [] accts = ok accts
proxy_marks ((key, val) ∷ items) accts = do
  acct ← account_of key
  proxy_marks items (put acct key accts)

abbrev pub is_some {ℓ} : {A : Type ℓ} → Option A → Bool
is_some none = false
is_some (some x) = true

-- `accountBalanceKeys`: the keys of the proxy accounts' balances.
pub balance_keys : List (Bytes × Bytes) → List (Bytes × Bytes) → Result Error (List Bytes)
unfolding account_of
balance_keys accts [] = ok []
balance_keys accts ((key, val) ∷ items) = do
  acct ← account_of key
  rest ← balance_keys accts items
  ok (if is_some (find acct accts) then key ∷ rest else rest)

module _ (b : Badger) where
  pub purge_proxy_accounts : Store b → Result Error (Store b)
  unfolding proxy_marks balance_keys
  purge_proxy_accounts s = do
    accts ← proxy_marks (b.items s.db (b'p' ∷ [])) []
    keys ← balance_keys accts (b.items s.db (b'a' ∷ []))
    ok (record s { db = delete_keys b (delete_keys b s.db (map (λ m. m.1) accts)) keys })
