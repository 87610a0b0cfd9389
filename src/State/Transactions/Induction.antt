-- ===== src/State/Transactions/Induction.antt =====
-- state/process.go: what every processed transaction keeps, a block keeps.
use rosetta.Shared.{
  ℕ, suc, ◌≡◌, subst, Bool, Option, none, some, List, [], ◌∷◌, Bytes, bytes_eq, get_elem?,
  by_branch,
}
use rosetta.Shared.Results.{ok, >>=-eq-ok, ok_inj}
use rosetta.Crypto.{Curve}
use rosetta.State.{Indexer}
use rosetta.State.Cadence.{Cadence}
use rosetta.State.Transactions.{
  Transaction, TransactionResult, CollectionData, Progress, process_transaction, process_result,
  process_results, process_collections,
}

module _ (i : Indexer) (c : Cadence) (curve : Curve) (Keeps : Progress → Type 0)
    (step : (payer : Bytes) (r : TransactionResult) (pr pr' : Progress)
      → Keeps pr
      → process_transaction i c curve payer r pr ≡ ok pr'
      → Keeps pr') where
  process_result-Keeps :
      (hash : Bytes) (skip : Bool) (t : Option Transaction) (r : TransactionResult) (pr : Progress)
      {pr' : Progress}
      → Keeps pr
      → process_result i c curve hash skip t r pr ≡ ok pr'
      → Keeps pr'
  unfolding process_result
  process_result-Keeps hash skip none r pr k e = cc
  process_result-Keeps hash skip (some txn) r pr k e =
      by_branch (bytes_eq r.block_id hash) e (λ e1. step txn.payer r pr _ k e1)
        (λ e1. by_branch skip e1 (λ e2. subst Keeps (ok_inj e2) k) (λ e2. cc))

  process_results-Keeps :
      (hash : Bytes) (skip : Bool) (txns : List Transaction) (idx : ℕ) (rs : List TransactionResult)
      (pr : Progress) {pr' : Progress}
      → Keeps pr
      → process_results i c curve hash skip txns idx rs pr ≡ ok pr'
      → Keeps pr'
  unfolding process_results
  process_results-Keeps hash skip txns idx [] pr k e = subst Keeps (ok_inj e) k
  process_results-Keeps hash skip txns idx (r ∷ rs) pr k e =
      let (pr1, e1, e2) =
        >>=-eq-ok (process_result i c curve hash skip (get_elem? txns idx) r pr) _ e in
      process_results-Keeps hash skip txns (suc idx) rs pr1
        (process_result-Keeps hash skip (get_elem? txns idx) r pr k e1) e2

  pub process_collections-Keeps :
      (hash : Bytes) (skip : Bool) (cols : List CollectionData) (pr : Progress) {pr' : Progress}
      → Keeps pr
      → process_collections i c curve hash skip cols pr ≡ ok pr'
      → Keeps pr'
  unfolding process_collections
  process_collections-Keeps hash skip [] pr k e = subst Keeps (ok_inj e) k
  process_collections-Keeps hash skip (col ∷ cols) pr k e =
      let (pr1, e1, e2) =
        >>=-eq-ok (process_results i c curve hash skip col.txns 0 col.txn_results pr) _ e in
      process_collections-Keeps hash skip cols pr1
        (process_results-Keeps hash skip col.txns 0 col.txn_results pr k e1) e2
