-- ===== src/IndexDb/Write/Outcome.antt =====
-- indexdb/indexdb.go: when `Index` succeeds, fails, skips and exits.
use native.Mathlib.Decide.{dec_lt}
use rosetta.Shared.{
  ℕ, ◌+◌, ◌^◌, ◌≤◌, ◌<◌, ◌≡◌, refl, sym, ◌∙◌, ◌≢◌, Option, none, some, List, [], ◌∷◌, Bytes, arith,
  if◌then◌else◌, length, ◌⊎◌, inl, inr, ◌==◌,
}
use rosetta.Shared.Results.{ok, err, or_crash, >>=-eq-err, err_inj}
use rosetta.Model.{BlockMeta, IndexedBlock, IndexedTransaction, Operation, OperationType}
use rosetta.IndexDb.{Error, invalid_balance, Store, balance_by_height}
use rosetta.IndexDb.Database.{Badger, Codec}
use rosetta.IndexDb.Changes.{latest_change, latest_change_stays}
use rosetta.IndexDb.Balances.{change, balance_by_height_refines}
use rosetta.IndexDb.Write.{
  Collected, add64, collect, collect_op, collect_ops, nothing_yet, apply_updates, updates_of, index,
  index_next, index_txn, indexed_meta, set_block, set_proxies,
}
use rosetta.IndexDb.Write.Totals.{AreTxns, IsDiffs, debits, credits, value_entry}
use rosetta.IndexDb.Write.Tracking.{collect-Tracks}
use rosetta.IndexDb.Write.Updates.{IsIndexed-mono}
use rosetta.IndexDb.Write.Applied.{Rejected, Fresh, apply_updates_cases, length_of_find}
use rosetta.IndexDb.Write.Step.{IsStore, index_guards}
use rosetta.IndexDb.Write.Keys.{fresh_above}

abbrev pub AreKnownOps : List Operation → Type 0
AreKnownOps [] = Unit {0}
AreKnownOps (op ∷ ops) = (op.typ ≢ OperationType.unspecified) × AreKnownOps ops

-- Every operation has a type.
abbrev pub AreKnown : List IndexedTransaction → Type 0
AreKnown [] = Unit {0}
AreKnown (txn ∷ txns) = AreKnownOps txn.operations × AreKnown txns

collect_op_total :
    (h : ℕ) (typ : OperationType) (col : Collected) (op : Operation)
    → typ ≢ OperationType.unspecified
    → (col' : Collected) × (collect_op h typ col op ≡ ok col')
unfolding collect_op
collect_op_total h OperationType.fee col op k = (_, refl)
collect_op_total h OperationType.transfer col op k = (_, refl)
collect_op_total h OperationType.proxy_transfer col op k = (_, refl)
collect_op_total h OperationType.create_account col op k = (_, refl)
collect_op_total h OperationType.unspecified col op k = absurd (k refl)

collect_ops_total :
    (h : ℕ) (ops : List Operation) (col : Collected)
    → AreKnownOps ops
    → (col' : Collected) × (collect_ops h col ops ≡ ok col')
unfolding collect_ops
collect_ops_total h [] col k = (col, refl)
collect_ops_total h (op ∷ ops) col (k, ks) =
    let (mid, e) = collect_op_total h op.typ col op k in
    let (col', e') = collect_ops_total h ops mid ks in (col', rw e e')

collect_total :
    (h : ℕ) (txns : List IndexedTransaction) (col : Collected)
    → AreKnown txns
    → (col' : Collected) × (collect h col txns ≡ ok col')
unfolding collect
collect_total h [] col k = (col, refl)
collect_total h (txn ∷ txns) col (k, ks) =
    let (mid, e) = collect_ops_total h txn.operations col k in
    let (col', e') = collect_total h txns mid ks in (col', rw e e')

-- The loops end well or exit.
collect_op-ne-err :
    (h : ℕ) (typ : OperationType) (col : Collected) (op : Operation) {e : Error}
    → collect_op h typ col op ≢ err e
unfolding collect_op
collect_op-ne-err h OperationType.fee col op = λ p. cc
collect_op-ne-err h OperationType.transfer col op = λ p. cc
collect_op-ne-err h OperationType.proxy_transfer col op = λ p. cc
collect_op-ne-err h OperationType.create_account col op = λ p. cc
collect_op-ne-err h OperationType.unspecified col op = λ p. cc

collect_ops-ne-err :
    (h : ℕ) (ops : List Operation) (col : Collected) {e : Error} → collect_ops h col ops ≢ err e
unfolding collect_ops
collect_ops-ne-err h [] col = λ p. cc
collect_ops-ne-err h (op ∷ ops) col = λ p. elim (>>=-eq-err (collect_op h op.typ col op) _ p) [
  | inl bad ↦ collect_op-ne-err h op.typ col op bad
  | inr (mid, e1, rest) ↦ collect_ops-ne-err h ops mid rest
]

collect-ne-err :
    (h : ℕ) (txns : List IndexedTransaction) (col : Collected) {e : Error}
    → collect h col txns ≢ err e
unfolding collect
collect-ne-err h [] col = λ p. cc
collect-ne-err h (txn ∷ txns) col = λ p. elim (>>=-eq-err (collect_ops h col txn.operations) _ p) [
  | inl bad ↦ collect_ops-ne-err h txn.operations col bad
  | inr (mid, e1, rest) ↦ collect-ne-err h txns mid rest
]

or_crash-ne-err : {A : Type 0} (o : Option A) {e : Error} → or_crash o ≢ err e
or_crash-ne-err none = λ p. cc
or_crash-ne-err (some a) = λ p. cc

ok-ne-err : {A : Type 0} {a : A} {e : Error} → ok a ≢ err e
ok-ne-err p = cc

less_or_large : (n x y : ℕ) → (x < n → y < n → x < y) → (x < y) ⊎ ((n ≤ x) ⊎ (n ≤ y))
less_or_large n x y less = elim (dec_lt x n) [
  | no large ↦ inr (inl (omega arith))
  | yes px ↦ elim (dec_lt y n) [ no large ↦ inr (inr (omega arith)) | yes py ↦ inl (less px py) ]
]

module _ (b : Badger) (c : Codec) (s : Store b) (top : BlockMeta) (hash : Bytes)
    (block : IndexedBlock) (store : IsStore b c s top) (room : top.height + 1 < 2 ^ 64)
    (txns : AreTxns block.transactions) where
  old_balance :
      (a : Bytes)
      → balance_by_height b s a top.height ≡ ok (latest_change (change b s.db a) top.height)
  old_balance a = balance_by_height_refines b s top.height a top.height store.indexed (omega arith)

  still_old :
      (a : Bytes)
      → latest_change (change b s.db a) (top.height + 1)
        ≡ latest_change (change b s.db a) top.height
  still_old a =
      latest_change_stays (change b s.db a) top.height (top.height + 1) (omega arith) (λ i p q.
        let at : i ≡ top.height + 1 = omega arith in
        unfold change in rw (at, fresh_above b s.db top.height a store.indexed room))

  -- The account that makes the update loop give up is overdrawn.
  overdrawn :
      (col : Collected)
      → collect (top.height + 1) nothing_yet block.transactions ≡ ok col
      → Rejected b (top.height + 1) s.db col.accts
      → (a : Bytes) × (old : ℕ) × (length a ≡ 8)
        × (balance_by_height b s a top.height ≡ ok old)
        × (old + credits a block.transactions < 2 ^ 63
            → debits a block.transactions < 2 ^ 63
            → old + credits a block.transactions < debits a block.transactions)
  overdrawn col e r =
      let la = length_of_find r.acct col.accts (valid r.acct) r.entry in
      let net = (collect-Tracks (top.height + 1) r.acct la block.transactions txns e).net in
      (
        r.acct,
        latest_change (change b s.db r.acct) top.height,
        la,
        old_balance r.acct,
        λ cr de. omega (
          arith,
          net.nets,
          net.small,
          r.negative,
          still_old r.acct,
          value_entry r.acct col.accts r.entry,
        ),
      )
    where
      valid : Bytes → IsDiffs col.accts
      valid _ =
          (collect-Tracks (top.height + 1) (0 ∷ 0 ∷ 0 ∷ 0 ∷ 0 ∷ 0 ∷ 0 ∷ 0 ∷ []) refl
            block.transactions txns e).valid.diffs

  txn_cases :
      (col : Collected)
      → collect (top.height + 1) nothing_yet block.transactions ≡ ok col
      → ((d : b.Db) × (apply_updates b s.db (updates_of b (top.height + 1) col.accts) ≡ ok d))
        ⊎ ((apply_updates b s.db (updates_of b (top.height + 1) col.accts) ≡ err invalid_balance)
            × Rejected b (top.height + 1) s.db col.accts)
  unfolding Fresh
  txn_cases col e =
      elim (apply_updates_cases b (top.height + 1) col.accts s.db
        (IsIndexed-mono b s.db top.height (top.height + 1) store.indexed (omega arith) room)
        (collect-Tracks (top.height + 1) (0 ∷ 0 ∷ 0 ∷ 0 ∷ 0 ∷ 0 ∷ 0 ∷ 0 ∷ []) refl
          block.transactions txns e).valid.diffs
        (λ y diff ly fe. fresh_above b s.db top.height y store.indexed room)) [
          | inl (d, run, done) ↦ inl (d, run)
          | inr (run, r) ↦ inr (run, r)
        ]

  -- The store that a call leaves.
  abbrev final : Collected → b.Db → Bytes → Bytes → Store b
  final col d bv lv = record s {
    db = set_block b (set_proxies b d col.proxy_accts) (top.height + 1) hash bv lv;
    latest =
        if top.height + 1 == add64 top.height 1
        then some (indexed_meta b c (top.height + 1) hash block)
        else s.latest;
  }

  -- On a well-formed store, with a next height below 2^64 and well-formed operations, `Index` for
  -- that height succeeds if every operation has a type, the two messages can be encoded, and for
  -- every address of 8 bytes the old balance with what the block gives it is below 2^63 and
  -- covers what the block takes from it.
  pub index_accepts :
      {bv lv : Bytes}
      → AreKnown block.transactions
      → c.encode_block block ≡ some bv
      → c.encode_meta (indexed_meta b c (top.height + 1) hash block) ≡ some lv
      → ((a : Bytes) (old : ℕ)
          → length a ≡ 8
          → balance_by_height b s a top.height ≡ ok old
          → (old + credits a block.transactions < 2 ^ 63)
            × (debits a block.transactions ≤ old + credits a block.transactions))
      → (s' : Store b) × (index b c s (top.height + 1) hash block ≡ ok s')
  unfolding index_next index_txn
  index_accepts {bv} {lv} known be le covered =
      let (col, e) = collect_total (top.height + 1) block.transactions nothing_yet known in
      elim (txn_cases col e) [
        | inl (d, run) ↦ (
          final col d bv lv,
          index_guards b c s top hash block store.latest_eq room ∙ rw (e, be, le, run),
        )
        | inr (run, r) ↦
            let (a, old, la, oe, less) = overdrawn col e r in
            let (cr, cov) = covered a old la oe in absurd (omega (arith, less cr (omega arith)))
      ]

  -- On a well-formed store, with a next height below 2^64 and well-formed operations, `Index` for
  -- that height fails only with an invalid balance, and then there is an address of 8 bytes from
  -- which the block takes more than its old balance and what the block gives it, or for which one
  -- of these two sums is 2^63 or more.
  pub index_rejects :
      {e : Error}
      → index b c s (top.height + 1) hash block ≡ err e
      → (e ≡ invalid_balance)
        × ((a : Bytes) × (old : ℕ) × (length a ≡ 8)
            × (balance_by_height b s a top.height ≡ ok old)
            × ((old + credits a block.transactions < debits a block.transactions)
                ⊎ ((2 ^ 63 ≤ old + credits a block.transactions)
                    ⊎ (2 ^ 63 ≤ debits a block.transactions))))
  unfolding index_next index_txn
  index_rejects {e} run =
      let inner = sym (index_guards b c s top hash block store.latest_eq room) ∙ run in
      elim (>>=-eq-err (collect (top.height + 1) nothing_yet block.transactions) _ inner) [
        | inl bad ↦ absurd (collect-ne-err (top.height + 1) block.transactions nothing_yet bad)
        | inr (col, e1, r1) ↦ elim (>>=-eq-err (or_crash (c.encode_block block)) _ r1) [
          | inl bad ↦ absurd (or_crash-ne-err (c.encode_block block) bad)
          | inr (bv, e2, r2) ↦
              elim (>>=-eq-err
                (or_crash (c.encode_meta (indexed_meta b c (top.height + 1) hash block))) _ r2) [
                  | inl bad ↦ absurd (or_crash-ne-err (c.encode_meta _) bad)
                  | inr (lv, e3, r3) ↦ elim (txn_cases col e1) [
                    | inl (d, applied) ↦ absurd (ok-ne-err (rw (applied, index_txn) at r3))
                    | inr (failed, r) ↦
                        let (a, old, la, oe, less) = overdrawn col e1 r in
                        (
                          err_inj (sym (rw (failed, index_txn) at r3)),
                          (a, old, la, oe, less_or_large (2 ^ 63) _ _ less),
                        )
                  ]
                ]
        ]
      ]
