-- ===== src/State/Transactions/Conservation.antt =====
-- state/process.go: the operations of a processed transaction move what its events say was moved.
use rosetta.Shared.{
  ◌%◌, ◌^◌, ◌≡◌, refl, Bool, true, false, some, [], ◌∷◌, ◌++◌, Bytes, find, find_or, if◌then◌else◌,
  length, arith, ◌⊎◌,
}
use rosetta.Shared.Results.{ok, >>=-eq-ok, ok_inj}
use rosetta.Crypto.{Curve}
use rosetta.Model.{IndexedTransaction}
use rosetta.IndexDb.Write.Totals.{ops_debit, ops_credit}
use rosetta.State.{Indexer}
use rosetta.State.Cadence.{Cadence}
use rosetta.State.Events.{Moves, scan_events, move_events}
use rosetta.State.Events.Tallies.{
  is_deposit, is_withdrawal, is_proxy_deposit, is_proxy_withdrawal, received, sent,
}
use rosetta.State.Events.Tallies.First.{ScanTally, scan_events-ScanTally}
use rosetta.State.Events.Tallies.Second.{MoveTally, move_events-MoveTally}
use rosetta.State.Operations.{operations_of}
use rosetta.State.Operations.Matching.{operations_of_lem}
use rosetta.State.Transactions.{TransactionResult, Progress, process_transaction, no_scan}

-- If a result is processed, then one transaction is added, under the result's identifier, and for an
-- account of 8 bytes in the indexer's map of accounts (as a proxy account, or as another account that
-- is no fee address) the operations of that transaction take from it and give to it what the
-- transaction's transfer events say: the vault's withdrawals and deposits, modulo 2^64, of a plain
-- account, and of a proxy account its transfers and, modulo 2^64, its proxy deposits.
pub process_transaction_conserves :
    (i : Indexer) (c : Cadence) (curve : Curve) (payer : Bytes) (r : TransactionResult)
    (pr : Progress) {pr' : Progress} (a : Bytes) (p : Bool)
    → length a ≡ 8
    → find a i.accts ≡ some p
    → (p ≡ true) ⊎ (find_or false a i.fee_addrs ≡ false)
    → process_transaction i c curve payer r pr ≡ ok pr'
    → (txn : IndexedTransaction) × (pr'.transactions ≡ pr.transactions ++ (txn ∷ []))
      × (txn.hash ≡ r.transaction_id)
      × (ops_debit a txn.operations ≡ (
          if p
          then sent is_proxy_withdrawal a txn.events
          else sent is_withdrawal a txn.events % 2 ^ 64))
      × (ops_credit a txn.operations
          ≡ (if p then received is_proxy_deposit a txn.events else received is_deposit a txn.events)
            % 2 ^ 64)
unfolding process_transaction
process_transaction_conserves i c curve payer r pr a p len known no_fee e =
    let (sc, e1, r1) =
      >>=-eq-ok (scan_events i c curve payer r.events (no_scan pr.new_accounts)) _ e in
    let zero_scan : ScanTally i a len p known (no_scan pr.new_accounts) = record {
      deposits_eq = ground arith;
      sending_eq = ground arith;
      map = tt;
      quiet = (refl, refl);
    } in
    let t = scan_events-ScanTally i a len p known c curve payer r.events _ zero_scan e1 in
    let start : Moves = record { deposits = []; fees = 0; withdrawals = []; events = sc.events } in
    let (mv, e2, r2) = >>=-eq-ok (move_events i c sc.new_accounts r.events start) _ r1 in
    let zero_moves : MoveTally i a len p known no_fee (received is_proxy_deposit a sc.events)
        (sent is_proxy_withdrawal a sc.events) start =
      record {
        deposits_eq = ground (arith, t.quiet.0);
        withdrawals_eq = ground (arith, t.quiet.1);
        maps = (tt, tt);
        proxy = (refl, refl);
      } in
    let u =
      move_events-MoveTally i a len p known no_fee _ _ c sc.new_accounts r.events start zero_moves
        e2 in
    let (ops, e3, r3) = >>=-eq-ok (operations_of i payer sc mv) _ r2 in
    let kind : (if p then find_or 0 a mv.deposits else find_or 0 a sc.proxy_deposits) ≡ 0 =
      ground (arith, u.deposits_eq, t.deposits_eq) in
    let (debit, credit) =
      operations_of_lem i a payer p sc mv len e3 (u.maps.0, t.map, u.maps.1) kind in
    rw (← ok_inj r3) (
      _,
      refl,
      refl,
      ground (arith, debit, u.withdrawals_eq, t.sending_eq, u.proxy),
      ground (arith, credit, u.deposits_eq, t.deposits_eq, u.proxy),
    )
