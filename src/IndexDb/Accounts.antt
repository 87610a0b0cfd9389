-- ===== src/IndexDb/Accounts.antt =====
-- indexdb/indexdb.go: `Accounts`, a map from each account with a balance to whether it is a proxy.
pub mod Listing
mod Tests
use rosetta.Shared.{find, put, ℕ, Bool, true, false, Option, none, some, List, [], ◌∷◌, Bytes}
use rosetta.Shared.Results.{Result, ok, err, ◌>>=◌, or_err}
use rosetta.IndexDb.{Error, Store, proxy_without_balance}
use rosetta.IndexDb.Database.{Badger}
use rosetta.IndexDb.Purge.{account_of}

pub list_accounts : List (Bytes × Bytes) → List (Bytes × Bool) → Result Error (List (Bytes × Bool))
list_accounts [] accts = ok accts
list_accounts ((key, val) ∷ items) accts = do
  acct ← account_of key
  list_accounts items (put acct false accts)

pub flag_proxies : List (Bytes × Bytes) → List (Bytes × Bool) → Result Error (List (Bytes × Bool))
flag_proxies [] accts = ok accts
flag_proxies ((key, val) ∷ items) accts = do
  acct ← account_of key
  known ← or_err (find acct accts) proxy_without_balance
  flag_proxies items (put acct true accts)

module _ (b : Badger) where
  pub accounts : Store b → Result Error (List (Bytes × Bool))
  unfolding list_accounts flag_proxies
  accounts s = do
    accts ← list_accounts (b.items s.db (b'a' ∷ [])) []
    flag_proxies (b.items s.db (b'p' ∷ [])) accts
