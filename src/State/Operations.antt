-- ===== src/State/Operations.antt =====
-- state/process.go: the operations that `processBlock` makes of what a transaction's events moved.
-- Go's order of iteration over a map is any order; here it is that of insertion.
pub mod Bounds
pub mod Merge
pub mod Matching
use rosetta.Shared.{
  ℕ, ◌+◌, ◌-◌, ◌%◌, ◌^◌, Bool, true, false, not, ◌&&◌, Option, none, some, List, [], ◌∷◌, ◌++◌,
  Bytes, find, find_or, put, ◌==◌, if◌then◌else◌, ltb, leb, length, map, append-nil,
}
use rosetta.Shared.Results.{Result, ok, err, crash, ◌>>=◌, ◌>>◌, or_err}
use rosetta.IndexDb.Write.{present}
use rosetta.Model.{Operation, OperationType, IndexedTransaction, TransferEvent}
use rosetta.State.{Indexer, is_proxy, is_tracked}
use rosetta.State.Events.{Abort, retry, ProxyTransfer, Scan, Moves, require}

abbrev pub operation : OperationType → Bytes → Bytes → ℕ → Operation
operation typ account receiver amount = record {
  account = account;
  amount = amount;
  proxy_public_key = [];
  receiver = receiver;
  typ = typ;
}

-- `m[k] -= n`, for a value of at least `n`.
unfoldable pub take_amount : Bytes → ℕ → List (Bytes × ℕ) → List (Bytes × ℕ)
take_amount k n m = put k (find_or 0 k m - n) m

-- What is left to be matched, and the operations so far.
pub record Pending : Type 0 where
  pub deposits : List (Bytes × ℕ)
  pub proxy_deposits : List (Bytes × ℕ)
  pub withdrawals : List (Bytes × ℕ)
  pub operations : List Operation

-- One CREATE_ACCOUNT operation for each new account.
unfoldable pub create_operations : List (Bytes × Bytes) → List Bytes → List Operation
create_operations account_keys = map (λ addr. record {
  account = addr;
  amount = 0;
  proxy_public_key = find_or [] addr account_keys;
  receiver = [];
  typ = OperationType.create_account;
})

module _ (i : Indexer) (new_accounts : List (Bytes × Bool)) where
  unfoldable pub take_fees : Bytes → ℕ → Pending → Result Abort Pending
  take_fees payer fees p =
      if is_tracked i payer new_accounts && ltb 0 fees
      then (do
        require (leb fees (find_or 0 payer p.withdrawals))
        ok (record p {
          withdrawals = take_amount payer fees p.withdrawals;
          operations = p.operations ++ (operation OperationType.fee payer [] fees ∷ []);
        }))
      else ok p

  -- A transfer to an account of ours is matched with a deposit to it.
  pub match_deposit : ProxyTransfer → Pending → Result Abort Pending
  match_deposit t p =
      if is_proxy i t.receiver new_accounts
      then (do
        require (leb t.amount (find_or 0 t.receiver p.proxy_deposits))
        ok (record p { proxy_deposits = take_amount t.receiver t.amount p.proxy_deposits }))
      else (do
        require (leb t.amount (find_or 0 t.receiver p.deposits))
        ok (record p { deposits = take_amount t.receiver t.amount p.deposits }))

  pub add_operation : Operation → Pending → Pending
  add_operation op p = record p { operations = p.operations ++ (op ∷ []) }

  pub proxy_transfer : ProxyTransfer → Pending → Result Abort Pending
  unfolding match_deposit add_operation
  proxy_transfer t p =
      if t.amount == 0
      then ok p
      else if present t.receiver
      then (do
        p' ← match_deposit t p
        ok (add_operation (operation OperationType.proxy_transfer t.sender t.receiver t.amount) p'))
      else ok (add_operation (operation OperationType.proxy_transfer t.sender [] t.amount) p)

  unfoldable pub proxy_transfers : List ProxyTransfer → Pending → Result Abort Pending
  unfolding proxy_transfer
  proxy_transfers [] p = ok p
  proxy_transfers (t ∷ ts) p = do p' ← proxy_transfer t p; proxy_transfers ts p'

-- The loops that copy positive amounts to a map, and note the last account that has one.
pub record Remaining : Type 0 where
  pub last : Bytes
  pub amounts : List (Bytes × ℕ)

unfoldable pub remaining : List (Bytes × ℕ) → Remaining → Remaining
remaining [] r = r
remaining ((acct, amount) ∷ m) r =
    remaining m
      (if ltb 0 amount then record { last = acct; amounts = put acct amount r.amounts } else r)

unfoldable pub deposit_operations : List (Bytes × ℕ) → List Operation
deposit_operations = map (λ e. operation OperationType.transfer [] e.0 e.1)

unfoldable pub withdrawal_operations : List (Bytes × ℕ) → List Operation
withdrawal_operations = map (λ e. operation OperationType.transfer e.0 [] e.1)

-- A single deposit and a single withdrawal of one amount are a transfer.
unfoldable pub merge : Remaining → Remaining → List Operation
unfolding deposit_operations withdrawal_operations
merge deps wdrs =
    if length deps.amounts == 1
      && (length wdrs.amounts == 1
          && find_or 0 deps.last deps.amounts == find_or 0 wdrs.last wdrs.amounts)
    then operation OperationType.transfer wdrs.last deps.last (find_or 0 deps.last deps.amounts)
      ∷ []
    else deposit_operations deps.amounts ++ withdrawal_operations wdrs.amounts

abbrev pub nothing_left : Remaining
nothing_left = record { last = []; amounts = [] }

unfoldable pub merge_remaining : Pending → List Operation
unfolding merge remaining
merge_remaining p =
    merge (remaining p.proxy_deposits (remaining p.deposits nothing_left))
      (remaining p.withdrawals nothing_left)

module _ (i : Indexer) (payer : Bytes) where
  -- The operations of a transaction.
  unfoldable pub operations_of : Scan → Moves → Result Abort (List Operation)
  unfolding create_operations take_fees proxy_transfers merge_remaining
  operations_of sc mv = do
    p ← take_fees i sc.new_accounts payer mv.fees (record {
      deposits = mv.deposits;
      proxy_deposits = sc.proxy_deposits;
      withdrawals = mv.withdrawals;
      operations = create_operations sc.account_keys sc.addrs;
    })
    p' ← proxy_transfers i sc.new_accounts sc.proxy_transfers p
    ok (p'.operations ++ merge_remaining p')
