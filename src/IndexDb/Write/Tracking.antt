-- ===== src/IndexDb/Write/Tracking.antt =====
-- indexdb/indexdb.go: the loop of `Index` over a block's operations keeps track of every account.
use rosetta.Shared.{
  ℕ, ◌+◌, ◌≡◌, refl, true, List, [], ◌∷◌, ◌++◌, Bytes, bytes_eq, arith, length, Bool-cases, inl,
  inr,
}
use rosetta.Shared.Results.{ok, >>=-eq-ok, ok_inj}
use native.Mathlib.Nat.{add_assoc}
use rosetta.Model.{IndexedTransaction, Operation, OperationType}
use rosetta.IndexDb.{proxy_key}
use rosetta.IndexDb.Write.{
  Collected, present, transfer_op, create_op, collect_op, collect_ops, collect, nothing_yet,
}
use rosetta.IndexDb.Write.Totals.{
  moves, op_debit, op_credit, ops_debit, ops_credit, debits, credits, IsOp, AreOps, AreTxns, value,
  IsDiffs, Nets, debited, debited-Nets, credited-Nets, if-IsDiffs, update-IsDiffs, value-update,
}

-- The keys that mark new proxy accounts.
abbrev pub AreProxyKeys : ℕ → List Bytes → Type 0
AreProxyKeys height [] = Unit {0}
AreProxyKeys height (k ∷ ks) =
    ((acct : Bytes) × (k ≡ proxy_key acct height)) × AreProxyKeys height ks

AreProxyKeys-snoc :
    (height : ℕ) (ks : List Bytes) (acct : Bytes)
    → AreProxyKeys height ks
    → AreProxyKeys height (ks ++ (proxy_key acct height ∷ []))
AreProxyKeys-snoc height [] acct v = ((acct, refl), tt)
AreProxyKeys-snoc height (k ∷ ks) acct (h, v) = (h, AreProxyKeys-snoc height ks acct v)

pub record IsCollected (height : ℕ) (col : Collected) : Type 0 where
  pub diffs : IsDiffs col.accts
  pub proxies : AreProxyKeys height col.proxy_accts

module _ (height : ℕ) where
  transfer_op-IsCollected :
      (col : Collected) (op : Operation)
      → IsOp op
      → IsCollected height col
      → IsCollected height (transfer_op height col op)
  unfolding transfer_op
  transfer_op-IsCollected col op o v = record {
    diffs =
        if-IsDiffs _ op.receiver _ o.receiver_ok (if-IsDiffs _ op.account _ o.account_ok v.diffs);
    proxies = v.proxies;
  }

  create_op-IsCollected :
      (col : Collected) (op : Operation)
      → length op.account ≡ 8
      → IsCollected height col
      → IsCollected height (create_op height col op)
  unfolding create_op
  create_op-IsCollected col op l v = record {
    diffs = update-IsDiffs (λ x. x) op.account col.accts l v.diffs;
    proxies = added;
  }
    where
      added : AreProxyKeys height (create_op height col op).proxy_accts
      added = elim (Bool-cases (present op.proxy_public_key)) [
        | inl p ↦ rw p (AreProxyKeys-snoc height col.proxy_accts op.account v.proxies)
        | inr p ↦ rw p v.proxies
      ]

  module _ (a : Bytes) (len : length a ≡ 8) where
    -- A collection whose entry for `a` is the net of the two sums.
    pub record Tracks (col : Collected) (deb cred : ℕ) : Type 0 where
      pub valid : IsCollected height col
      pub net : Nets (value a col.accts) deb cred

    transfer_op-Tracks :
        (col : Collected) (op : Operation) (deb cred : ℕ)
        → moves op.typ ≡ true
        → IsOp op
        → Tracks col deb cred
        → Tracks (transfer_op height col op) (deb + op_debit a op) (cred + op_credit a op)
    transfer_op-Tracks col op deb cred m o t =
        let taken = debited-Nets a len deb cred op.amount o.amount_lt op.account col.accts t.net in
        let given =
          credited-Nets a len _ cred op.amount o.amount_lt op.receiver
            (debited op.amount op.account col.accts) taken in
        record {
          valid = transfer_op-IsCollected col op o t.valid;
          net = rw m (unfold transfer_op in given);
        }

    create_op-Tracks :
        (col : Collected) (op : Operation) (deb cred : ℕ)
        → op.typ ≡ OperationType.create_account
        → IsOp op
        → Tracks col deb cred
        → Tracks (create_op height col op) (deb + op_debit a op) (cred + op_credit a op)
    create_op-Tracks col op deb cred same o t = record {
      valid = create_op-IsCollected col op (o.created_ok same) t.valid;
      net = simp same (record { small = same_value.small; nets = omega (arith, same_value.nets) });
    }
      where
        same_value : Nets (value a (create_op height col op).accts) deb cred
        same_value =
            unfold create_op in
            elim (Bool-cases (bytes_eq op.account a)) [
              | inl p ↦ rw (value-update (λ v. v) op.account a col.accts, p) t.net
              | inr p ↦ rw (value-update (λ v. v) op.account a col.accts, p) t.net
            ]

    collect_op-Tracks :
        (typ : OperationType) (col : Collected) (op : Operation) (deb cred : ℕ) {col' : Collected}
        → op.typ ≡ typ
        → IsOp op
        → Tracks col deb cred
        → collect_op height typ col op ≡ ok col'
        → Tracks col' (deb + op_debit a op) (cred + op_credit a op)
    unfolding collect_op
    collect_op-Tracks OperationType.fee col op deb cred same o t e =
        rw (← ok_inj e) (transfer_op-Tracks col op deb cred (rw same) o t)
    collect_op-Tracks OperationType.transfer col op deb cred same o t e =
        rw (← ok_inj e) (transfer_op-Tracks col op deb cred (rw same) o t)
    collect_op-Tracks OperationType.proxy_transfer col op deb cred same o t e =
        rw (← ok_inj e) (transfer_op-Tracks col op deb cred (rw same) o t)
    collect_op-Tracks OperationType.create_account col op deb cred same o t e =
        rw (← ok_inj e) (create_op-Tracks col op deb cred same o t)
    collect_op-Tracks OperationType.unspecified col op deb cred same o t e = cc

    collect_ops-Tracks :
        (ops : List Operation) (col : Collected) (deb cred : ℕ) {col' : Collected}
        → AreOps ops
        → Tracks col deb cred
        → collect_ops height col ops ≡ ok col'
        → Tracks col' (deb + ops_debit a ops) (cred + ops_credit a ops)
    unfolding collect_ops
    collect_ops-Tracks [] col deb cred o t e = rw (← ok_inj e) (record {
      valid = t.valid;
      net = record { small = t.net.small; nets = omega (arith, t.net.nets) };
    })
    collect_ops-Tracks (op ∷ ops) col deb cred (o, os) t e =
        let (mid, step, rest) = >>=-eq-ok (collect_op height op.typ col op) _ e in
        rw
          (
            ← add_assoc deb (op_debit a op) (ops_debit a ops),
            ← add_assoc cred (op_credit a op) (ops_credit a ops),
          )
          (collect_ops-Tracks ops mid _ _ os
            (collect_op-Tracks op.typ col op deb cred refl o t step) rest)

    collect-Tracks_from :
        (txns : List IndexedTransaction) (col : Collected) (deb cred : ℕ) {col' : Collected}
        → AreTxns txns
        → Tracks col deb cred
        → collect height col txns ≡ ok col'
        → Tracks col' (deb + debits a txns) (cred + credits a txns)
    unfolding collect
    collect-Tracks_from [] col deb cred o t e = rw (← ok_inj e) (record {
      valid = t.valid;
      net = record { small = t.net.small; nets = omega (arith, t.net.nets) };
    })
    collect-Tracks_from (txn ∷ txns) col deb cred (o, os) t e =
        let (mid, step, rest) = >>=-eq-ok (collect_ops height col txn.operations) _ e in
        rw
          (
            ← add_assoc deb (ops_debit a txn.operations) (debits a txns),
            ← add_assoc cred (ops_credit a txn.operations) (credits a txns),
          )
          (collect-Tracks_from txns mid _ _ os
            (collect_ops-Tracks txn.operations col deb cred o t step) rest)

    -- What `Index` collects for an account is, as an int64 pattern, all that the block gives to the
    -- account less all that it takes.
    pub collect-Tracks :
        (txns : List IndexedTransaction) {col : Collected}
        → AreTxns txns
        → collect height nothing_yet txns ≡ ok col
        → Tracks col (debits a txns) (credits a txns)
    collect-Tracks txns {col} o e =
        let t =
          collect-Tracks_from txns nothing_yet 0 0 o
            (record {
              valid = record { diffs = tt; proxies = tt };
              net = record { small = unfold value in omega arith; nets = unfold value in refl };
            })
            e in
        record {
          valid = t.valid;
          net = record { small = t.net.small; nets = omega (arith, t.net.nets) };
        }
