-- ===== src/State/Operations/Bounds.antt =====
-- state/process.go: the operations that `processBlock` makes are well formed, as indexdb/indexdb.go
-- expects them.
use rosetta.Shared.{
  ℕ, ◌-◌, ◌<◌, ◌^◌, ◌≡◌, refl, sym, ◌∙◌, Bool, ◌&&◌, List, [], ◌∷◌, ◌++◌, Bytes, find_or, ◌==◌, ltb,
  leb, leb→le, length, arith, Bool-cases, inl, inr, ◌⊎◌, by_branch,
}
use rosetta.Shared.Results.{ok, ◌>>=◌, >>=-eq-ok, ok_inj}
use rosetta.Model.{Operation, OperationType}
use rosetta.IndexDb.Write.{present}
use rosetta.IndexDb.Write.Totals.{IsAddress, IsOp, AreOps}
use rosetta.State.{Indexer, is_proxy, is_tracked}
use rosetta.State.Events.{ProxyTransfer, Scan, Moves, require}
use rosetta.State.Events.Bounds.{
  AreAmounts, AreAddresses, IsTransfer, AreTransfers, IsScan, AreMoves, put-AreAmounts, find_or_lt,
  length-positive,
}
use rosetta.State.Operations.{
  Pending, take_amount, take_fees, match_deposit, add_operation, proxy_transfer, proxy_transfers,
  operations_of, create_operations, merge_remaining, merge, remaining, Remaining, nothing_left,
  operation, deposit_operations, withdrawal_operations,
}
use rosetta.State.Operations.Matching.{require_lem}

record IsPending (p : Pending) : Type 0 where
  deposits_ok : AreAmounts p.deposits
  proxy_deposits_ok : AreAmounts p.proxy_deposits
  withdrawals_ok : AreAmounts p.withdrawals
  operations_ok : AreOps p.operations

append-AreOps : (xs ys : List Operation) → AreOps xs → AreOps ys → AreOps (xs ++ ys)
append-AreOps [] ys v w = w
append-AreOps (x ∷ xs) ys (vx, v) w = (vx, append-AreOps xs ys v w)

-- An operation that creates no account.
moving-IsOp :
    (typ : OperationType) (account receiver : Bytes) (amount : ℕ)
    → (typ ≡ OperationType.fee)
      ⊎ (typ ≡ OperationType.transfer)
      ⊎ (typ ≡ OperationType.proxy_transfer)
    → amount < 2 ^ 64
    → IsAddress account
    → IsAddress receiver
    → IsOp (operation typ account receiver amount)
moving-IsOp typ account receiver amount kind lt a r = record {
  amount_lt = lt;
  account_ok = a;
  receiver_ok = r;
  created_ok = λ created. elim kind [
    | inl k ↦ let clash = sym k ∙ created in cc
    | inr (inl k) ↦ let clash = sym k ∙ created in cc
    | inr (inr k) ↦ let clash = sym k ∙ created in cc
  ];
}

take_amount-AreAmounts :
    (k : Bytes) (n : ℕ) (m : List (Bytes × ℕ))
    → length k ≡ 8
    → AreAmounts m
    → AreAmounts (take_amount k n m)
unfolding take_amount
take_amount-AreAmounts k n m l v =
    let lt = find_or_lt k m v in put-AreAmounts k (find_or 0 k m - n) m l (omega arith) v

create_operations-AreOps :
    (keys : List (Bytes × Bytes)) (addrs : List Bytes)
    → AreAddresses addrs
    → AreOps (create_operations keys addrs)
unfolding create_operations
create_operations-AreOps keys [] v = tt
create_operations-AreOps keys (a ∷ addrs) (l, v) = (
  record {
    amount_lt = omega arith;
    account_ok = inr l;
    receiver_ok = inl refl;
    created_ok = λ _. l;
  },
  create_operations-AreOps keys addrs v,
)

module _ (i : Indexer) (new_accounts : List (Bytes × Bool)) where
  take_fees-IsPending :
      (payer : Bytes) (fees : ℕ) (p : Pending) {p' : Pending}
      → IsPending p
      → take_fees i new_accounts payer fees p ≡ ok p'
      → IsPending p'
  unfolding take_fees
  take_fees-IsPending payer fees p v e =
      elim (Bool-cases (is_tracked i payer new_accounts && ltb 0 fees)) [
        | inr none_due ↦
            let same : take_fees i new_accounts payer fees p ≡ ok p = rw none_due in
            rw (← ok_inj (sym same ∙ e)) v
        | inl due ↦
            let run : take_fees i new_accounts payer fees p ≡ (
                require (leb fees (find_or 0 payer p.withdrawals)) >>= λ u. ok (record p {
                  withdrawals = take_amount payer fees p.withdrawals;
                  operations = p.operations ++ (operation OperationType.fee payer [] fees ∷ []);
                })) =
              rw due in
            let (u, e1, r1) =
              >>=-eq-ok (require (leb fees (find_or 0 payer p.withdrawals))) _ (sym run ∙ e) in
            let le = leb→le _ _ (require_lem (leb fees (find_or 0 payer p.withdrawals)) e1) in
            let pos : 0 < fees = ground (arith, due) in
            let l = length-positive payer p.withdrawals v.withdrawals_ok (omega (arith, le, pos)) in
            let lt = find_or_lt payer p.withdrawals v.withdrawals_ok in
            let op =
              moving-IsOp OperationType.fee payer [] fees (inl refl) (omega (arith, le, lt)) (inr l)
                (inl refl) in
            rw (← ok_inj r1) (record {
              deposits_ok = v.deposits_ok;
              proxy_deposits_ok = v.proxy_deposits_ok;
              withdrawals_ok = take_amount-AreAmounts payer fees p.withdrawals l v.withdrawals_ok;
              operations_ok = append-AreOps p.operations _ v.operations_ok (op, tt);
            })
      ]

  match_deposit-IsPending :
      (t : ProxyTransfer) (p : Pending) {p' : Pending}
      → IsPending p
      → 0 < t.amount
      → match_deposit i new_accounts t p ≡ ok p'
      → IsPending p'
  unfolding match_deposit
  match_deposit-IsPending t p v pos e =
      by_branch (is_proxy i t.receiver new_accounts) e
        (λ r.
          let (u, e1, r1) =
            >>=-eq-ok (require (leb t.amount (find_or 0 t.receiver p.proxy_deposits))) _ r in
          let le =
            leb→le _ _ (require_lem (leb t.amount (find_or 0 t.receiver p.proxy_deposits)) e1) in
          let l =
            length-positive t.receiver p.proxy_deposits v.proxy_deposits_ok
              (omega (arith, le, pos)) in
          rw (← ok_inj r1) (record {
            deposits_ok = v.deposits_ok;
            proxy_deposits_ok =
                take_amount-AreAmounts t.receiver t.amount p.proxy_deposits l v.proxy_deposits_ok;
            withdrawals_ok = v.withdrawals_ok;
            operations_ok = v.operations_ok;
          }))
        (λ r.
          let (u, e1, r1) =
            >>=-eq-ok (require (leb t.amount (find_or 0 t.receiver p.deposits))) _ r in
          let le = leb→le _ _ (require_lem (leb t.amount (find_or 0 t.receiver p.deposits)) e1) in
          let l = length-positive t.receiver p.deposits v.deposits_ok (omega (arith, le, pos)) in
          rw (← ok_inj r1) (record {
            deposits_ok = take_amount-AreAmounts t.receiver t.amount p.deposits l v.deposits_ok;
            proxy_deposits_ok = v.proxy_deposits_ok;
            withdrawals_ok = v.withdrawals_ok;
            operations_ok = v.operations_ok;
          }))

  add_operation-IsPending :
      (op : Operation) (p : Pending)
      → IsPending p
      → IsOp op
      → IsPending (add_operation i new_accounts op p)
  unfolding add_operation
  add_operation-IsPending op p v o = record {
    deposits_ok = v.deposits_ok;
    proxy_deposits_ok = v.proxy_deposits_ok;
    withdrawals_ok = v.withdrawals_ok;
    operations_ok = append-AreOps p.operations (op ∷ []) v.operations_ok (o, tt);
  }

  sends :
      (receiver : Bytes) (t : ProxyTransfer)
      → IsTransfer t
      → IsAddress receiver
      → IsOp (operation OperationType.proxy_transfer t.sender receiver t.amount)
  sends receiver t w r =
      moving-IsOp OperationType.proxy_transfer t.sender receiver t.amount (inr (inr refl))
        w.amount_lt (inr w.sender_ok) r

  proxy_transfer-IsPending :
      (t : ProxyTransfer) (p : Pending) {p' : Pending}
      → IsTransfer t
      → IsPending p
      → proxy_transfer i new_accounts t p ≡ ok p'
      → IsPending p'
  unfolding proxy_transfer
  proxy_transfer-IsPending t p w v e = elim (Bool-cases (t.amount == 0)) [
    | inl zero_sent ↦
        let same : proxy_transfer i new_accounts t p ≡ ok p = rw zero_sent in
        rw (← ok_inj (sym same ∙ e)) v
    | inr sent ↦
        let pos : 0 < t.amount = ground (arith, sent) in
        by_branch (t.amount == 0) e (λ r. rw (← ok_inj r) v)
          (λ r.
            by_branch (present t.receiver) r
              (λ r1.
                let (q, e1, r2) = >>=-eq-ok (match_deposit i new_accounts t p) _ r1 in
                rw (← ok_inj r2) (
                  add_operation-IsPending _ q (match_deposit-IsPending t p v pos e1)
                    (sends t.receiver t w w.receiver_ok)))
              (λ r1. rw (← ok_inj r1) (add_operation-IsPending _ p v (sends [] t w (inl refl)))))
  ]

  proxy_transfers-IsPending :
      (ts : List ProxyTransfer) (p : Pending) {p' : Pending}
      → AreTransfers ts
      → IsPending p
      → proxy_transfers i new_accounts ts p ≡ ok p'
      → IsPending p'
  unfolding proxy_transfers
  proxy_transfers-IsPending [] p w v e = rw (← ok_inj e) v
  proxy_transfers-IsPending (t ∷ ts) p (wt, w) v e =
      let (q, e1, r1) = >>=-eq-ok (proxy_transfer i new_accounts t p) _ e in
      proxy_transfers-IsPending ts q w (proxy_transfer-IsPending t p wt v e1) r1

record IsLeft (r : Remaining) : Type 0 where
  last_ok : IsAddress r.last
  amounts_ok : AreAmounts r.amounts

remaining-IsLeft :
    (m : List (Bytes × ℕ)) (r : Remaining) → AreAmounts m → IsLeft r → IsLeft (remaining m r)
unfolding remaining
remaining-IsLeft [] r v w = w
remaining-IsLeft ((k, n) ∷ m) r (l, lt, v) w = remaining-IsLeft m _ v (elim (Bool-cases (ltb 0 n)) [
  | inl pos ↦
      rw pos
        (record { last_ok = inr l; amounts_ok = put-AreAmounts k n r.amounts l lt w.amounts_ok })
  | inr zero_left ↦ rw zero_left w
])

deposit_operations-AreOps : (m : List (Bytes × ℕ)) → AreAmounts m → AreOps (deposit_operations m)
unfolding deposit_operations
deposit_operations-AreOps [] v = tt
deposit_operations-AreOps ((k, n) ∷ m) (l, lt, v) = (
  moving-IsOp OperationType.transfer [] k n (inr (inl refl)) lt (inl refl) (inr l),
  deposit_operations-AreOps m v,
)

withdrawal_operations-AreOps :
    (m : List (Bytes × ℕ)) → AreAmounts m → AreOps (withdrawal_operations m)
unfolding withdrawal_operations
withdrawal_operations-AreOps [] v = tt
withdrawal_operations-AreOps ((k, n) ∷ m) (l, lt, v) = (
  moving-IsOp OperationType.transfer k [] n (inr (inl refl)) lt (inr l) (inl refl),
  withdrawal_operations-AreOps m v,
)

merge-AreOps : (deps wdrs : Remaining) → IsLeft deps → IsLeft wdrs → AreOps (merge deps wdrs)
unfolding merge
merge-AreOps deps wdrs v w =
    elim (Bool-cases (
      length deps.amounts == 1
      && (length wdrs.amounts == 1
          && find_or 0 deps.last deps.amounts == find_or 0 wdrs.last wdrs.amounts))) [
            | inl single ↦ rw single (
              moving-IsOp OperationType.transfer wdrs.last deps.last
                  (find_or 0 deps.last deps.amounts) (inr (inl refl))
                  (find_or_lt deps.last deps.amounts v.amounts_ok) w.last_ok v.last_ok,
              tt,
            )
            | inr many ↦ rw many (
                append-AreOps (deposit_operations deps.amounts) _
                  (deposit_operations-AreOps deps.amounts v.amounts_ok)
                  (withdrawal_operations-AreOps wdrs.amounts w.amounts_ok))
          ]

pub operations_of-AreOps :
    (i : Indexer) (payer : Bytes) (sc : Scan) (mv : Moves) {ops : List Operation}
    → IsScan sc
    → AreMoves mv
    → operations_of i payer sc mv ≡ ok ops
    → AreOps ops
unfolding operations_of merge_remaining
operations_of-AreOps i payer sc mv v w e =
    let start : Pending = record {
      deposits = mv.deposits;
      proxy_deposits = sc.proxy_deposits;
      withdrawals = mv.withdrawals;
      operations = create_operations sc.account_keys sc.addrs;
    } in
    let v0 : IsPending start = record {
      deposits_ok = w.deposits_ok;
      proxy_deposits_ok = v.deposits_ok;
      withdrawals_ok = w.withdrawals_ok;
      operations_ok = create_operations-AreOps sc.account_keys sc.addrs v.addrs_ok;
    } in
    let (p, e1, r1) = >>=-eq-ok (take_fees i sc.new_accounts payer mv.fees start) _ e in
    let v1 = take_fees-IsPending i sc.new_accounts payer mv.fees start v0 e1 in
    let (q, e2, r2) = >>=-eq-ok (proxy_transfers i sc.new_accounts sc.proxy_transfers p) _ r1 in
    let v2 =
      proxy_transfers-IsPending i sc.new_accounts sc.proxy_transfers p v.transfers_ok v1 e2 in
    let none_noted : IsLeft nothing_left = record { last_ok = inl refl; amounts_ok = tt } in
    let deps =
      remaining-IsLeft q.proxy_deposits _ v2.proxy_deposits_ok
        (remaining-IsLeft q.deposits nothing_left v2.deposits_ok none_noted) in
    let wdrs = remaining-IsLeft q.withdrawals nothing_left v2.withdrawals_ok none_noted in
    rw (← ok_inj r2) (append-AreOps q.operations _ v2.operations_ok (merge-AreOps _ _ deps wdrs))
