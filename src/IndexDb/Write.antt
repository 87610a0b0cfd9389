-- ===== src/IndexDb/Write.antt =====
-- indexdb/indexdb.go: `Index` and `SetGenesis`.
pub mod Totals
pub mod Tracking
pub mod Updates
pub mod Applied
pub mod Step
pub mod Keys
pub mod Ledger
pub mod Stored
pub mod Lookup
pub mod Runs
pub mod Start
pub mod Tests
pub mod Outcome
use rosetta.Shared.{
  ℕ, ◌+◌, ◌-◌, ◌%◌, ◌^◌, Bool, true, false, not, ◌&&◌, Option, none, some, List, [], ◌∷◌, ◌++◌,
  Bytes, bytes_eq, has_prefix, length, take, ltb, leb, ◌==◌, if◌then◌else◌, map,
}
use rosetta.Shared.Results.{Result, ok, err, crash, ◌>>=◌, ◌>>◌, or_crash, or_err}
use rosetta.Model.{BlockMeta, IndexedBlock, IndexedTransaction, Operation, OperationType}
use rosetta.IndexDb.Database.{Badger, Codec}
use rosetta.IndexDb.{
  Error, invalid_balance, bad_genesis, Store, be64, uint64, account_key, proxy_key, block_key,
  hash2height_key, height2hash_key, genesis_key, latest_key,
}

-- An int64 is its two's complement pattern, a number below 2^64.
abbrev pub add64 : ℕ → ℕ → ℕ
add64 x y = (x + y) % 2 ^ 64

abbrev pub sub64 : ℕ → ℕ → ℕ
sub64 x y = (x + 2 ^ 64 - y) % 2 ^ 64

-- `map[string]int64` with its entries in the order of insertion, where Go's order is arbitrary.
abbrev pub Diffs : Type 0
Diffs = List (Bytes × ℕ)

-- `m[k] = f(m[k])`, where a missing entry is 0.
unfoldable pub update : (ℕ → ℕ) → Bytes → Diffs → Diffs
update f k [] = (k, f 0) ∷ []
update f k ((j, v) ∷ m) = if bytes_eq j k then (j, f v) ∷ m else (j, v) ∷ update f k m

-- What `Index` collects from a block's operations.
pub record Collected : Type 0 where
  pub accts : Diffs
  pub proxy_accts : List Bytes

-- `len(x) > 0`
abbrev pub present : Bytes → Bool
present [] = false
present (x ∷ xs) = true

module _ (height : ℕ) where
  unfoldable pub transfer_op : Collected → Operation → Collected
  transfer_op col op =
      let debited =
        if present op.account
        then update (λ v. sub64 v op.amount) op.account col.accts
        else col.accts in
      record col {
        accts =
            if present op.receiver
            then update (λ v. add64 v op.amount) op.receiver debited
            else debited;
      }

  pub create_op : Collected → Operation → Collected
  create_op col op = record {
    accts = update (λ v. v) op.account col.accts;
    proxy_accts =
        if present op.proxy_public_key
        then col.proxy_accts ++ (proxy_key op.account height ∷ [])
        else col.proxy_accts;
  }

  unfoldable pub collect_op : OperationType → Collected → Operation → Result Error Collected
  unfolding transfer_op create_op
  collect_op OperationType.fee col op = ok (transfer_op col op)
  collect_op OperationType.transfer col op = ok (transfer_op col op)
  collect_op OperationType.proxy_transfer col op = ok (transfer_op col op)
  collect_op OperationType.create_account col op = ok (create_op col op)
  collect_op OperationType.unspecified col op = crash

  unfoldable pub collect_ops : Collected → List Operation → Result Error Collected
  unfolding collect_op
  collect_ops col [] = ok col
  collect_ops col (op ∷ ops) = do col' ← collect_op op.typ col op; collect_ops col' ops

  unfoldable pub collect : Collected → List IndexedTransaction → Result Error Collected
  unfolding collect_ops
  collect col [] = ok col
  collect col (txn ∷ txns) = do col' ← collect_ops col txn.operations; collect col' txns

abbrev pub nothing_yet : Collected
nothing_yet = record { accts = []; proxy_accts = [] }

module _ (b : Badger) where
  -- Behind an item that has the update's own key, `Value` is read after the iterator moved on.
  unfoldable pub own_key : b.Db → Bytes → Option (Bytes × Bytes) → Result Error ℕ
  own_key d key none = ok 0
  own_key d key (some (k, v)) =
      if has_prefix (take 9 key) k then uint64 (b.recycled d key) else ok 0

  -- The balance before an update.
  unfoldable pub current : b.Db → Bytes → Option (Bytes × Bytes) → Result Error ℕ
  unfolding own_key
  current d key none = ok 0
  current d key (some (k, v)) =
      if has_prefix (take 9 key) k
      then (if bytes_eq k key then own_key d key (b.prev d key) else uint64 v)
      else ok 0

  unfoldable pub apply_update : b.Db → Bytes × ℕ → Result Error b.Db
  unfolding current
  apply_update d (key, diff) = do
    cur ← current d key (b.seek d key)
    let val = add64 cur diff
    if leb (2 ^ 63) val then err invalid_balance else ok (b.set d key (be64 val))

  unfoldable pub apply_updates : b.Db → List (Bytes × ℕ) → Result Error b.Db
  unfolding apply_update
  apply_updates d [] = ok d
  apply_updates d (u ∷ us) = do d' ← apply_update d u; apply_updates d' us

  unfoldable pub set_proxies : b.Db → List Bytes → b.Db
  set_proxies d [] = d
  set_proxies d (key ∷ keys) = set_proxies (b.set d key (b'1' ∷ [])) keys

  unfoldable pub updates_of : ℕ → Diffs → List (Bytes × ℕ)
  updates_of height = map (λ u. (account_key u.0 height, u.1))

  -- The writes of a block behind those of its accounts.
  unfoldable pub set_block : b.Db → ℕ → Bytes → Bytes → Bytes → b.Db
  set_block d height hash block_value latest_value =
      let d1 = b.set d (block_key height) block_value in
      let d2 = b.set d1 (hash2height_key hash) (be64 height) in
      let d3 = b.set d2 (height2hash_key height) hash in b.set d3 latest_key latest_value

  -- The transaction of `Index`: an error discards it.
  unfoldable pub index_txn : b.Db → ℕ → Bytes → Collected → Bytes → Bytes → Result Error b.Db
  unfolding apply_updates set_proxies set_block updates_of
  index_txn d height hash col block_value latest_value = do
    d' ← apply_updates d (updates_of height col.accts)
    ok (set_block (set_proxies d' col.proxy_accts) height hash block_value latest_value)

module _ (b : Badger) (c : Codec) where
  -- The `BlockMeta` that `Index` stores has no parent.
  abbrev pub indexed_meta : ℕ → Bytes → IndexedBlock → BlockMeta
  indexed_meta height hash block = record {
    hash = hash;
    height = height;
    parent = [];
    timestamp = block.timestamp;
  }

  -- The work of `Index` for the height behind the latest one.
  unfoldable pub index_next :
      Store b → BlockMeta → ℕ → Bytes → IndexedBlock → Result Error (Store b)
  unfolding collect index_txn
  index_next s top height hash block = do
    col ← collect height nothing_yet block.transactions
    block_value ← or_crash (c.encode_block block)
    latest_value ← or_crash (c.encode_meta (indexed_meta height hash block))
    d ← index_txn b s.db height hash col block_value latest_value
    ok (record s {
      db = d;
      latest =
          if height == add64 top.height 1 then some (indexed_meta height hash block) else s.latest;
    })

  -- `Index`: an `err` leaves the store as it was, since the transaction is discarded.
  unfoldable pub index : Store b → ℕ → Bytes → IndexedBlock → Result Error (Store b)
  unfolding index_next
  index s height hash block = do
    top ← or_crash s.latest
    if leb height top.height
        then ok s
        else if not (height == add64 top.height 1)
        then crash
        else index_next s top height hash block

  unfoldable pub set_genesis : Store b → BlockMeta → Result Error (Store b)
  unfolding set_block
  set_genesis s val = do
    genesis_value ← or_err (c.encode_meta val) bad_genesis
    block_value ←
        or_crash (c.encode_block (record { timestamp = val.timestamp; transactions = [] }))
    ok (record s {
      db =
          set_block b (b.set s.db genesis_key genesis_value) val.height val.hash block_value
            genesis_value;
      genesis = some val;
      latest = some val;
    })
