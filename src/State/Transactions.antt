-- ===== src/State/Transactions.antt =====
-- state/process.go: how `processBlock` groups the results of a block's transactions into collections,
-- and makes the indexed transactions of them.
pub mod Grouping
pub mod Induction
pub mod Blocks
pub mod Conservation
use rosetta.Shared.{
  ℕ, zero, suc, ◌+◌, Bool, true, false, not, ◌&&◌, Option, none, some, List, [], ◌∷◌, ◌++◌, Bytes,
  bytes_eq, ◌==◌, if◌then◌else◌, String, get_elem?,
}
use rosetta.Shared.Results.{Result, ok, err, crash, ◌>>=◌, or_err, or_crash}
use rosetta.Crypto.{Curve}
use rosetta.Model.{IndexedTransaction}
use rosetta.State.{Indexer}
use rosetta.State.Cadence.{Cadence}
use rosetta.State.Events.{Abort, retry, ChainEvent, Scan, Moves, scan_events, move_events}
use rosetta.State.Operations.{operations_of}

-- entities.Transaction, as far as it is read.
pub record Transaction : Type 0 where
  pub payer : Bytes

-- TransactionResultResponse, as far as it is read.
pub record TransactionResult : Type 0 where
  pub block_id : Bytes
  pub collection_id : Bytes
  pub error_message : String
  pub events : List ChainEvent
  pub status_code : ℕ
  pub transaction_id : Bytes

pub record CollectionData : Type 0 where
  pub system : Bool
  pub txns : List Transaction
  pub txn_results : List TransactionResult

abbrev pub empty_collection : CollectionData
empty_collection = record { system = false; txns = []; txn_results = [] }

-- Adds a result, and its transaction if there is one at its index, to a collection.
pub add_result : Option Transaction → TransactionResult → CollectionData → CollectionData
add_result none r col = record col { txn_results = col.txn_results ++ (r ∷ []) }
add_result (some t) r col = record col {
  txns = col.txns ++ (t ∷ []);
  txn_results = col.txn_results ++ (r ∷ []);
}

-- The collections behind the open one. A new one starts where the collection's identifier changes.
pub group_from :
    List Transaction → ℕ → Bytes → CollectionData → List TransactionResult → List CollectionData
unfolding add_result
group_from txns idx prev col [] = record col { system = true } ∷ []
group_from txns idx prev col (r ∷ results) =
    let same = bytes_eq r.collection_id prev in
    let rest =
      group_from txns (suc idx) r.collection_id
        (add_result (get_elem? txns idx) r (if same then col else empty_collection)) results in
    if same then rest else col ∷ rest

-- The fast path; the last collection is the system's.
pub group : List Transaction → List TransactionResult → List CollectionData
unfolding group_from add_result
group txns [] = record empty_collection { system = true } ∷ []
group txns (r ∷ results) =
    group_from txns 1 r.collection_id (add_result (get_elem? txns 0) r empty_collection) results

-- What a block has made of its transactions so far.
pub record Progress : Type 0 where
  pub new_accounts : List (Bytes × Bool)
  pub transactions : List IndexedTransaction

abbrev pub no_scan : List (Bytes × Bool) → Scan
no_scan new_accounts = record {
  account_keys = [];
  addrs = [];
  new_accounts = new_accounts;
  events = [];
  proxy_deposits = [];
  proxy_transfers = [];
}

module _ (i : Indexer) (c : Cadence) (curve : Curve) where
  unfoldable pub process_transaction : Bytes → TransactionResult → Progress → Result Abort Progress
  process_transaction payer r pr = do
    sc ← scan_events i c curve payer r.events (no_scan pr.new_accounts)
    mv ←
        move_events i c sc.new_accounts r.events
          (record { deposits = []; fees = 0; withdrawals = []; events = sc.events })
    ops ← operations_of i payer sc mv
    ok (record {
      new_accounts = sc.new_accounts;
      transactions =
          pr.transactions
          ++ (record {
            error_message = if r.status_code == 0 then "" else r.error_message;
            events = mv.events;
            failed = not (r.status_code == 0);
            hash = r.transaction_id;
            operations = ops;
          }
              ∷ []);
    })

  -- A result of another block is left out if the integrity checks are skipped.
  unfoldable pub process_result :
      Bytes → Bool → Option Transaction → TransactionResult → Progress → Result Abort Progress
  unfolding process_transaction
  process_result hash skip none r pr = crash
  process_result hash skip (some txn) r pr =
      if bytes_eq r.block_id hash
      then process_transaction txn.payer r pr
      else if skip
      then ok pr
      else err retry

  unfoldable pub process_results :
      Bytes
      → Bool
      → List Transaction
      → ℕ
      → List TransactionResult
      → Progress
      → Result Abort Progress
  unfolding process_result
  process_results hash skip txns idx [] pr = ok pr
  process_results hash skip txns idx (r ∷ results) pr = do
    pr' ← process_result hash skip (get_elem? txns idx) r pr
    process_results hash skip txns (suc idx) results pr'

  unfoldable pub process_collections :
      Bytes → Bool → List CollectionData → Progress → Result Abort Progress
  unfolding process_results
  process_collections hash skip [] pr = ok pr
  process_collections hash skip (col ∷ cols) pr = do
    pr' ← process_results hash skip col.txns 0 col.txn_results pr
    process_collections hash skip cols pr'
