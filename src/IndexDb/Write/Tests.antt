-- ===== src/IndexDb/Write/Tests.antt =====
-- indexdb/indexdb.go on a concrete store: a genesis block, a deposit and a transfer.
mod Runs
pub mod Unloaded
use rosetta.Shared.{
  ◌⊎◌, ℕ, ◌+◌, ◌^◌, ◌≤◌, ◌<◌, ◌≡◌, refl, sym, ◌∙◌, false, none, some, [], ◌∷◌, Bytes, length, arith,
  inl, inr, bytes_eq, bytes_lt, has_prefix, big_endian, from_big_endian,
}
use rosetta.Shared.Results.{Result, ok, err, crash, ok_inj}
use rosetta.Model.{BlockMeta, IndexedBlock}
use rosetta.IndexDb.{
  block_by_height, block_by_hash, Error, invalid_balance, Store, balance_by_height, balance_at,
  has_balance, hash_for_height, height_for_hash, read_block, latest, genesis, pad8,
}
use rosetta.IndexDb.Changes.{latest_change, any_change}
use rosetta.IndexDb.Balances.{change, balance_by_height_refines, has_balance_refines}
use rosetta.IndexDb.Database.Sorted.{sorted, empty_db}
use rosetta.IndexDb.Database.Plain.{plain, single, transfer_of}
use rosetta.IndexDb.Write.{
  index, set_genesis, indexed_meta, set_block, collect, collect_ops, collect_op, transfer_op,
  update, index_next, index_txn, apply_updates, apply_update, updates_of, set_proxies, current,
  own_key,
}
use rosetta.IndexDb.Write.Totals.{AreTxns, debits, credits}
use rosetta.IndexDb.Write.Step.{IsStore}
use rosetta.IndexDb.Write.Start.{set_genesis_starts, reopened, root_block}
use rosetta.IndexDb.Write.Ledger.{index_balance, index_history, index-IsStore}
use rosetta.IndexDb.Write.Lookup.{
  index_parent, with_parent, index_lookup, index_lookup_past, index_reopen,
}
use rosetta.IndexDb.Write.Outcome.{index_accepts, index_rejects}

abbrev pub alice : Bytes
alice = 1 ∷ 0 ∷ 0 ∷ 0 ∷ 0 ∷ 0 ∷ 0 ∷ 1 ∷ []

abbrev bob : Bytes
bob = 1 ∷ 0 ∷ 0 ∷ 0 ∷ 0 ∷ 0 ∷ 0 ∷ 2 ∷ []

abbrev pub root : BlockMeta
root = record { hash = 9 ∷ []; height = 10; parent = 8 ∷ []; timestamp = 100 }

abbrev unopened : Store sorted
unopened = record { db = empty_db; genesis = none; latest = none }

store_of : Result Error (Store sorted) → Store sorted
store_of (ok s) = s
store_of (err e) = unopened
store_of crash = unopened

pub started : Store sorted
unfolding store_of
started = store_of (set_genesis sorted plain unopened root)

started_run : set_genesis sorted plain unopened root ≡ ok started
unfolding started set_genesis
started_run = refl

started_facts :
    (a : Bytes)
    → IsStore sorted plain started root
      × (started.genesis ≡ some root)
      × (balance_by_height sorted started a 10 ≡ ok 0)
      × (has_balance sorted started a 10 ≡ false)
      × (hash_for_height sorted started 10 ≡ ok (9 ∷ []))
      × (height_for_hash sorted started (9 ∷ []) ≡ ok 10)
      × (read_block sorted plain started 10 ≡ ok (root_block sorted plain root))
      × (genesis sorted plain (reopened sorted plain started)
          ≡ ok (record (reopened sorted plain started) { genesis = some root }, some root))
      × (latest sorted plain (reopened sorted plain started)
          ≡ ok (record (reopened sorted plain started) { latest = some root }, some root))
started_facts a =
    set_genesis_starts sorted plain unopened started root (λ k. refl) (omega arith) started_run a 10
      (omega arith)

set_genesis_starts_example :
    IsStore sorted plain started root
    × (started.genesis ≡ some root)
    × (balance_by_height sorted started alice 10 ≡ ok 0)
    × (has_balance sorted started alice 10 ≡ false)
    × (hash_for_height sorted started 10 ≡ ok (9 ∷ []))
    × (height_for_hash sorted started (9 ∷ []) ≡ ok 10)
    × (read_block sorted plain started 10 ≡ ok (root_block sorted plain root))
    × (genesis sorted plain (reopened sorted plain started)
        ≡ ok (record (reopened sorted plain started) { genesis = some root }, some root))
    × (latest sorted plain (reopened sorted plain started)
        ≡ ok (record (reopened sorted plain started) { latest = some root }, some root))
set_genesis_starts_example =
    set_genesis_starts sorted plain unopened started root (λ k. refl) (omega arith) started_run
      alice 10 (omega arith)

pub started-IsStore : IsStore sorted plain started root
started-IsStore = (started_facts alice).0

-- 500 for alice from outside.
abbrev pub deposit : IndexedBlock
deposit = record { timestamp = 101; transactions = single (transfer_of [] alice 500) ∷ [] }

pub deposit_txns : AreTxns deposit.transactions
deposit_txns = (
  (
    record {
      amount_lt = omega arith;
      account_ok = inl refl;
      receiver_ok = inr refl;
      created_ok = λ e. cc;
    },
    tt,
  ),
  tt,
)

abbrev pub top1 : BlockMeta
top1 = indexed_meta sorted plain 11 (7 ∷ []) deposit

pub store1 : Store sorted
unfolding store_of
store1 = store_of (index sorted plain started 11 (7 ∷ []) deposit)

run1 : index sorted plain started 11 (7 ∷ []) deposit ≡ ok store1
unfolding store1 started set_genesis index index_next index_txn collect collect_ops collect_op
    transfer_op update apply_updates apply_update updates_of set_proxies set_block current own_key
    has_prefix bytes_eq bytes_lt big_endian from_big_endian pad8
run1 = refl

index-IsStore_example : IsStore sorted plain store1 top1
index-IsStore_example =
    index-IsStore sorted plain started store1 root (7 ∷ []) deposit started-IsStore (omega arith)
      deposit_txns run1

store1-IsStore : IsStore sorted plain store1 top1
store1-IsStore =
    index-IsStore sorted plain started store1 root (7 ∷ []) deposit started-IsStore (omega arith)
      deposit_txns run1

abbrev pub transfer : IndexedBlock
transfer = record { timestamp = 102; transactions = single (transfer_of alice bob 200) ∷ [] }

pub transfer_txns : AreTxns transfer.transactions
transfer_txns = (
  (
    record {
      amount_lt = omega arith;
      account_ok = inr refl;
      receiver_ok = inr refl;
      created_ok = λ e. cc;
    },
    tt,
  ),
  tt,
)

pub store2 : Store sorted
unfolding store_of
store2 = store_of (index sorted plain store1 12 (6 ∷ []) transfer)

run2 : index sorted plain store1 12 (6 ∷ []) transfer ≡ ok store2
unfolding store2 store1 started set_genesis index index_next index_txn collect collect_ops
    collect_op transfer_op update apply_updates apply_update updates_of set_proxies set_block
    current own_key has_prefix bytes_eq bytes_lt big_endian from_big_endian pad8
run2 = refl

-- What the two accounts hold along the chain.
balances2 :
    (balance_by_height sorted store2 alice 10 ≡ ok 0)
    × (balance_by_height sorted store2 alice 11 ≡ ok 500)
    × (balance_by_height sorted store2 alice 12 ≡ ok 300)
    × (balance_by_height sorted store2 bob 11 ≡ ok 0)
    × (balance_by_height sorted store2 bob 20 ≡ ok 200)
unfolding store2 store1 started set_genesis index index_next index_txn collect collect_ops
    collect_op transfer_op update apply_updates apply_update updates_of set_proxies set_block
    current own_key has_prefix bytes_eq bytes_lt big_endian from_big_endian pad8 balance_by_height
    balance_at
balances2 = (refl, refl, refl, refl, refl)

alice1 : balance_by_height sorted store1 alice 11 ≡ ok 500
unfolding store2 store1 started set_genesis index index_next index_txn collect collect_ops
    collect_op transfer_op update apply_updates apply_update updates_of set_proxies set_block
    current own_key has_prefix bytes_eq bytes_lt big_endian from_big_endian pad8 balance_by_height
    balance_at
alice1 = refl

index_balance_example :
    (new : ℕ) × (balance_by_height sorted store2 alice 12 ≡ ok new)
    × (new + debits alice transfer.transactions ≡ 500 + credits alice transfer.transactions)
unfolding bytes_eq
index_balance_example =
    index_balance sorted plain store1 store2 top1 (6 ∷ []) transfer store1-IsStore (omega arith)
      transfer_txns run2 alice 500 refl alice1 (omega arith) (omega arith)

index_history_example :
    balance_by_height sorted store2 alice 11 ≡ balance_by_height sorted store1 alice 11
index_history_example =
    index_history sorted plain store1 store2 top1 (6 ∷ []) transfer store1-IsStore (omega arith)
      transfer_txns run2 alice 11 refl (omega arith)

index_lookup_example :
    (hash_for_height sorted store2 12 ≡ ok (6 ∷ []))
    × (height_for_hash sorted store2 (6 ∷ []) ≡ ok 12)
    × (read_block sorted plain store2 12 ≡ ok transfer)
index_lookup_example =
    index_lookup sorted plain store1 store2 top1 (6 ∷ []) transfer store1-IsStore (omega arith)
      transfer_txns run2

index_lookup_past_example :
    (hash_for_height sorted store2 11 ≡ hash_for_height sorted store1 11)
    × (read_block sorted plain store2 11 ≡ read_block sorted plain store1 11)
index_lookup_past_example =
    index_lookup_past sorted plain store1 store2 top1 (6 ∷ []) transfer store1-IsStore (omega arith)
      transfer_txns run2 11 (omega arith)

index_reopen_example :
    latest sorted plain (reopened sorted plain store2)
    ≡ ok (
      record (reopened sorted plain store2) {
        latest = some (indexed_meta sorted plain 12 (6 ∷ []) transfer);
      },
      some (indexed_meta sorted plain 12 (6 ∷ []) transfer),
    )
index_reopen_example =
    index_reopen sorted plain store1 store2 top1 (6 ∷ []) transfer store1-IsStore (omega arith)
      transfer_txns run2 (reopened sorted plain store2) refl refl

-- Alice has 500.
abbrev overdraft : IndexedBlock
overdraft = record { timestamp = 102; transactions = single (transfer_of alice bob 501) ∷ [] }

run_overdraft : index sorted plain store1 12 (6 ∷ []) overdraft ≡ err invalid_balance
unfolding store2 store1 started set_genesis index index_next index_txn collect collect_ops
    collect_op transfer_op update apply_updates apply_update updates_of set_proxies set_block
    current own_key has_prefix bytes_eq bytes_lt big_endian from_big_endian pad8
run_overdraft = refl

overdraft_txns : AreTxns overdraft.transactions
overdraft_txns = (
  (
    record {
      amount_lt = omega arith;
      account_ok = inr refl;
      receiver_ok = inr refl;
      created_ok = λ e. cc;
    },
    tt,
  ),
  tt,
)

index_rejects_example :
    (invalid_balance ≡ invalid_balance)
    × ((a : Bytes) × (old : ℕ) × (length a ≡ 8)
        × (balance_by_height sorted store1 a 11 ≡ ok old)
        × ((old + credits a overdraft.transactions < debits a overdraft.transactions)
            ⊎ ((2 ^ 63 ≤ old + credits a overdraft.transactions)
                ⊎ (2 ^ 63 ≤ debits a overdraft.transactions))))
index_rejects_example =
    index_rejects sorted plain store1 top1 (6 ∷ []) overdraft store1-IsStore (omega arith)
      overdraft_txns run_overdraft

balance_by_height_refines_example :
    balance_by_height sorted store1 alice 15 ≡ ok (latest_change (change sorted store1.db alice) 15)
balance_by_height_refines_example =
    balance_by_height_refines sorted store1 11 alice 15 store1-IsStore.indexed (omega arith)

has_balance_refines_example :
    has_balance sorted store1 alice 15 ≡ any_change (change sorted store1.db alice) 15
has_balance_refines_example =
    has_balance_refines sorted store1 11 alice 15 store1-IsStore.indexed (omega arith)

-- The deposit takes nothing from anyone, and nobody has anything before it.
deposit_covered :
    (a : Bytes) (old : ℕ)
    → length a ≡ 8
    → balance_by_height sorted started a 10 ≡ ok old
    → (old + credits a deposit.transactions < 2 ^ 63)
      × (debits a deposit.transactions ≤ old + credits a deposit.transactions)
unfolding bytes_eq
deposit_covered [] old la e = absurd (omega (arith, la))
deposit_covered (x ∷ a) old la e =
    let empty = ok_inj (sym (started_facts (x ∷ a)).2 ∙ e) in ground arith

index_accepts_example : (s : Store sorted) × (index sorted plain started 11 (7 ∷ []) deposit ≡ ok s)
index_accepts_example =
    index_accepts sorted plain started root (7 ∷ []) deposit started-IsStore (omega arith)
      deposit_txns ((λ e. cc, tt), tt) refl refl deposit_covered

abbrev pub top2 : BlockMeta
top2 = indexed_meta sorted plain 12 (6 ∷ []) transfer

pub store2-IsStore : IsStore sorted plain store2 top2
store2-IsStore =
    index-IsStore sorted plain store1 store2 top1 (6 ∷ []) transfer store1-IsStore (omega arith)
      transfer_txns run2

pub hash-store2 : hash_for_height sorted store2 11 ≡ ok (7 ∷ [])
unfolding store2 store1 started set_genesis index index_next index_txn collect collect_ops
    collect_op transfer_op update apply_updates apply_update updates_of set_proxies set_block
    current own_key has_prefix bytes_eq bytes_lt big_endian from_big_endian pad8 hash_for_height
hash-store2 = refl

pub block-store2 : read_block sorted plain store2 11 ≡ ok deposit
unfolding store2 store1 started set_genesis index index_next index_txn collect collect_ops
    collect_op transfer_op update apply_updates apply_update updates_of set_proxies set_block
    current own_key has_prefix bytes_eq bytes_lt big_endian from_big_endian pad8 read_block
block-store2 = refl

genesis-store1 : store1.genesis ≡ some root
unfolding store2 store1 started set_genesis index index_next index_txn collect collect_ops
    collect_op transfer_op update apply_updates apply_update updates_of set_proxies set_block
    current own_key has_prefix bytes_eq bytes_lt big_endian from_big_endian pad8
genesis-store1 = refl

hash-store1 : hash_for_height sorted store1 11 ≡ ok (7 ∷ [])
unfolding store2 store1 started set_genesis index index_next index_txn collect collect_ops
    collect_op transfer_op update apply_updates apply_update updates_of set_proxies set_block
    current own_key has_prefix bytes_eq bytes_lt big_endian from_big_endian pad8 hash_for_height
hash-store1 = refl

index_parent_example :
    (block_by_height sorted plain store2 12
      ≡ ok (
          with_parent sorted plain store1 store2 top1
            (6 ∷ [])
            transfer
            store1-IsStore
            (omega arith)
            transfer_txns
            run2
            (7 ∷ [])))
    × (block_by_hash sorted plain store2 (6 ∷ [])
        ≡ ok (
            with_parent sorted plain store1 store2 top1
              (6 ∷ [])
              transfer
              store1-IsStore
              (omega arith)
              transfer_txns
              run2
              (7 ∷ [])))
index_parent_example =
    index_parent sorted plain store1 store2 top1 (6 ∷ []) transfer store1-IsStore (omega arith)
      transfer_txns run2 root (7 ∷ []) genesis-store1 (omega arith) hash-store1
