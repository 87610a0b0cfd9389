-- ===== src/State/Transactions/Blocks.antt =====
-- state/process.go: the transactions that a block's collections come to.
use rosetta.Shared.{
  ℕ, ◌+◌, ◌%◌, ◌^◌, ◌≡◌, refl, Bool, true, false, List, [], ◌∷◌, ◌++◌, Bytes, find, find_or,
  if◌then◌else◌, length, arith, ◌⊎◌, some,
}
use rosetta.Shared.Results.{ok, >>=-eq-ok, ok_inj}
use rosetta.Crypto.{Curve}
use rosetta.Model.{IndexedTransaction}
use rosetta.IndexDb.Write.Totals.{debits, credits, AreTxns}
use rosetta.State.{Indexer}
use rosetta.State.Cadence.{Cadence}
use rosetta.State.Events.{Moves, scan_events, move_events}
use rosetta.State.Events.Bounds.First.{scan_events-IsScan}
use rosetta.State.Events.Bounds.Second.{move_events-AreMoves}
use rosetta.State.Events.Tallies.{
  is_deposit, is_withdrawal, is_proxy_deposit, is_proxy_withdrawal, received, sent,
}
use rosetta.State.Operations.{operations_of}
use rosetta.State.Operations.Bounds.{operations_of-AreOps}
use rosetta.State.Transactions.{
  TransactionResult, CollectionData, Progress, process_transaction, process_collections, no_scan,
}
use rosetta.State.Transactions.Conservation.{process_transaction_conserves}
use rosetta.State.Transactions.Induction.{process_collections-Keeps}

-- What the transfer events of the transactions bring to the account, and take from it. The events of
-- a proxy account's vault are passed over, as its proxy events tell of the same amounts.
module _ (a : Bytes) (p : Bool) where
  abbrev pub events_credit : List IndexedTransaction → ℕ
  events_credit [] = 0
  events_credit (t ∷ ts) =
      (if p then received is_proxy_deposit a t.events else received is_deposit a t.events) % 2 ^ 64
      + events_credit ts

  abbrev pub events_debit : List IndexedTransaction → ℕ
  events_debit [] = 0
  events_debit (t ∷ ts) =
      (if p then sent is_proxy_withdrawal a t.events else sent is_withdrawal a t.events % 2 ^ 64)
      + events_debit ts

  events_credit-append :
      (xs ys : List IndexedTransaction)
      → events_credit (xs ++ ys) ≡ events_credit xs + events_credit ys
  events_credit-append [] ys = omega arith
  events_credit-append (x ∷ xs) ys = omega (arith, events_credit-append xs ys)

  events_debit-append :
      (xs ys : List IndexedTransaction)
      → events_debit (xs ++ ys) ≡ events_debit xs + events_debit ys
  events_debit-append [] ys = omega arith
  events_debit-append (x ∷ xs) ys = omega (arith, events_debit-append xs ys)

debits-append :
    (a : Bytes) (xs ys : List IndexedTransaction) → debits a (xs ++ ys) ≡ debits a xs + debits a ys
debits-append a [] ys = omega arith
debits-append a (x ∷ xs) ys = omega (arith, debits-append a xs ys)

credits-append :
    (a : Bytes) (xs ys : List IndexedTransaction)
    → credits a (xs ++ ys) ≡ credits a xs + credits a ys
credits-append a [] ys = omega arith
credits-append a (x ∷ xs) ys = omega (arith, credits-append a xs ys)

append-AreTxns : (xs ys : List IndexedTransaction) → AreTxns xs → AreTxns ys → AreTxns (xs ++ ys)
append-AreTxns [] ys v w = w
append-AreTxns (x ∷ xs) ys (vx, v) w = (vx, append-AreTxns xs ys v w)

abbrev pub no_progress : Progress
no_progress = record { new_accounts = []; transactions = [] }

module _ (i : Indexer) (c : Cadence) (curve : Curve) where
  process_transaction-AreTxns :
      (payer : Bytes) (r : TransactionResult) (pr : Progress) {pr' : Progress}
      → AreTxns pr.transactions
      → process_transaction i c curve payer r pr ≡ ok pr'
      → AreTxns pr'.transactions
  unfolding process_transaction
  process_transaction-AreTxns payer r pr v e =
      let (sc, e1, r1) =
        >>=-eq-ok (scan_events i c curve payer r.events (no_scan pr.new_accounts)) _ e in
      let sc_ok =
        scan_events-IsScan c i curve payer r.events (no_scan pr.new_accounts)
          (record { addrs_ok = tt; deposits_ok = tt; transfers_ok = tt }) e1 in
      let start : Moves = record {
        deposits = [];
        fees = 0;
        withdrawals = [];
        events = sc.events;
      } in
      let (mv, e2, r2) = >>=-eq-ok (move_events i c sc.new_accounts r.events start) _ r1 in
      let mv_ok =
        move_events-AreMoves c i sc.new_accounts r.events start
          (record { deposits_ok = tt; withdrawals_ok = tt }) e2 in
      let (ops, e3, r3) = >>=-eq-ok (operations_of i payer sc mv) _ r2 in
      rw (← ok_inj r3)
        (append-AreTxns pr.transactions _ v (operations_of-AreOps i payer sc mv sc_ok mv_ok e3, tt))

  -- Every operation of the transactions that a block's collections come to has an amount below 2^64,
  -- names accounts of 8 bytes or none, and names one if it creates an account.
  pub process_collections-AreTxns :
      (hash : Bytes) (skip : Bool) (cols : List CollectionData) {pr : Progress}
      → process_collections i c curve hash skip cols no_progress ≡ ok pr
      → AreTxns pr.transactions
  process_collections-AreTxns hash skip cols e =
      process_collections-Keeps i c curve (λ pr. AreTxns pr.transactions)
        (λ payer r pr pr' v f. process_transaction-AreTxns payer r pr v f) hash skip cols
        no_progress tt e

  record Conserved (a : Bytes) (p : Bool) (pr : Progress) : Type 0 where
    debit_eq : debits a pr.transactions ≡ events_debit a p pr.transactions
    credit_eq : credits a pr.transactions ≡ events_credit a p pr.transactions

  process_transaction-Conserved :
      (a : Bytes) (p : Bool)
      → length a ≡ 8
      → find a i.accts ≡ some p
      → (p ≡ true) ⊎ (find_or false a i.fee_addrs ≡ false)
      → (payer : Bytes) (r : TransactionResult) (pr : Progress) {pr' : Progress} → Conserved a p pr
      → process_transaction i c curve payer r pr ≡ ok pr'
      → Conserved a p pr'
  process_transaction-Conserved a p len known no_fee payer r pr v e =
      let (txn, same, named, debit, credit) =
        process_transaction_conserves i c curve payer r pr a p len known no_fee e in
      record {
        debit_eq = rw same (
            omega (
              arith,
              v.debit_eq,
              debit,
              debits-append a pr.transactions (txn ∷ []),
              events_debit-append a p pr.transactions (txn ∷ []),
            ));
        credit_eq = rw same (
            omega (
              arith,
              v.credit_eq,
              credit,
              credits-append a pr.transactions (txn ∷ []),
              events_credit-append a p pr.transactions (txn ∷ []),
            ));
      }

  pub process_collections_conserves :
      (a : Bytes) (p : Bool) (hash : Bytes) (skip : Bool) (cols : List CollectionData)
      {pr : Progress}
      → length a ≡ 8
      → find a i.accts ≡ some p
      → (p ≡ true) ⊎ (find_or false a i.fee_addrs ≡ false)
      → process_collections i c curve hash skip cols no_progress ≡ ok pr
      → (debits a pr.transactions ≡ events_debit a p pr.transactions)
        × (credits a pr.transactions ≡ events_credit a p pr.transactions)
  process_collections_conserves a p hash skip cols len known no_fee e =
      let v =
        process_collections-Keeps i c curve (Conserved a p)
          (λ payer r pr pr' v f. process_transaction-Conserved a p len known no_fee payer r pr v f)
          hash skip cols no_progress (record { debit_eq = refl; credit_eq = refl }) e in
      (v.debit_eq, v.credit_eq)
