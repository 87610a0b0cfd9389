-- ===== src/State/Operations/Matching.antt =====
-- state/process.go: the operations of a transaction take from and give to each account what the maps
-- and the list of transfers hold for it.
use rosetta.Shared.{
  ℕ, ◌+◌, ◌-◌, ◌≡◌, refl, ap, sym, ◌∙◌, Bool, true, false, ◌&&◌, List, [], ◌∷◌, ◌++◌, Bytes,
  bytes_eq, bytes_eq_iff, find_or, find_or-put, IsMap, put-IsMap, ◌==◌, ==_iff, if◌then◌else◌, ltb,
  leb, length, arith, Bool-cases, inl, inr,
}
use rosetta.Shared.Results.{ok, ◌>>=◌, >>=-eq-ok, ok_inj}
use rosetta.Model.{Operation, OperationType}
use rosetta.IndexDb.Write.{present}
use rosetta.IndexDb.Write.Totals.{ops_debit, ops_credit}
use rosetta.State.{Indexer, is_proxy, is_tracked}
use rosetta.State.Events.{ProxyTransfer, Scan, Moves, require}
use rosetta.State.Operations.{
  Pending, take_amount, take_fees, match_deposit, add_operation, proxy_transfer, proxy_transfers,
  operations_of, create_operations, merge_remaining, remaining, nothing_left, operation,
}
use rosetta.State.Operations.Merge.{
  ops_debit-append, ops_credit-append, merge_lem, IsRemaining, remaining-IsRemaining,
  find_or-remaining, no_account,
}

pub find_or-take_amount :
    (a k : Bytes) (n : ℕ) (m : List (Bytes × ℕ))
    → find_or 0 a (take_amount k n m) ≡ (if bytes_eq k a then find_or 0 a m - n else find_or 0 a m)
unfolding take_amount
find_or-take_amount a k n m = elim (Bool-cases (bytes_eq k a)) [
  | inl same ↦
      let e = (bytes_eq_iff k a).0 same in
      find_or-put 0 a k (find_or 0 k m - n) m ∙ rw same (ap (λ (x : Bytes). find_or 0 x m - n) e)
  | inr other ↦ find_or-put 0 a k (find_or 0 k m - n) m ∙ rw other
]

pub require_lem : (b : Bool) {u : Unit {0}} → require b ≡ ok u → b ≡ true
require_lem true e = refl
require_lem false e = cc

-- Taking an amount that is there.
taken :
    (a k : Bytes) (n : ℕ) (m : List (Bytes × ℕ))
    → leb n (find_or 0 k m) ≡ true
    → find_or 0 a (take_amount k n m) + (if bytes_eq k a then n else 0) ≡ find_or 0 a m
taken a k n m le = elim (Bool-cases (bytes_eq k a)) [
  | inl same ↦
      let e : find_or 0 k m ≡ find_or 0 a m =
        ap (λ (x : Bytes). find_or 0 x m) ((bytes_eq_iff k a).0 same) in
      ground (arith, same, e, le, find_or-take_amount a k n m)
  | inr other ↦ ground (arith, other, find_or-take_amount a k n m)
]

take_amount-IsMap : (k : Bytes) (n : ℕ) (m : List (Bytes × ℕ)) → IsMap m → IsMap (take_amount k n m)
unfolding take_amount
take_amount-IsMap k n m u = put-IsMap k (find_or 0 k m - n) m u

-- The amounts of transfers that an account sends.
abbrev pub sending : Bytes → List ProxyTransfer → ℕ
sending a [] = 0
sending a (t ∷ ts) = (if bytes_eq t.sender a then t.amount else 0) + sending a ts

module _ (i : Indexer) (new_accounts : List (Bytes × Bool)) (a : Bytes) (len : length a ≡ 8)
    (proxy : Bool) where
  -- What is pending, against what the account gives and gets in all.
  pub record Balanced (p : Pending) (rest out into : ℕ) : Type 0 where
    pub gives : ops_debit a p.operations + find_or 0 a p.withdrawals + rest ≡ out
    pub gets :
        ops_credit a p.operations + find_or 0 a p.deposits + find_or 0 a p.proxy_deposits ≡ into
    pub kind : (if proxy then find_or 0 a p.deposits else find_or 0 a p.proxy_deposits) ≡ 0
    pub maps : IsMap p.deposits × IsMap p.proxy_deposits × IsMap p.withdrawals

  take_fees-Balanced :
      (payer : Bytes) (fees : ℕ) (p : Pending) (rest out into : ℕ) {p' : Pending}
      → Balanced p rest out into
      → take_fees i new_accounts payer fees p ≡ ok p'
      → Balanced p' rest out into
  unfolding take_fees
  take_fees-Balanced payer fees p rest out into b e =
      elim (Bool-cases (is_tracked i payer new_accounts && ltb 0 fees)) [
        | inr none_due ↦
            let same : take_fees i new_accounts payer fees p ≡ ok p = rw none_due in
            rw (← ok_inj (sym same ∙ e)) b
        | inl due ↦
            let run : take_fees i new_accounts payer fees p ≡ (
                require (leb fees (find_or 0 payer p.withdrawals)) >>= λ u. ok (record p {
                  withdrawals = take_amount payer fees p.withdrawals;
                  operations = p.operations ++ (operation OperationType.fee payer [] fees ∷ []);
                })) =
              rw due in
            let (u, e1, e2) =
              >>=-eq-ok (require (leb fees (find_or 0 payer p.withdrawals))) _ (sym run ∙ e) in
            let le = require_lem (leb fees (find_or 0 payer p.withdrawals)) e1 in
            let t = taken a payer fees p.withdrawals le in
            let empty = no_account a len in
            let one = operation OperationType.fee payer [] fees ∷ [] in
            rw (← ok_inj e2) (record {
              gives = ground (arith, b.gives, t, ops_debit-append a p.operations one);
              gets = ground (arith, b.gets, empty, ops_credit-append a p.operations one);
              kind = b.kind;
              maps = (b.maps.0, b.maps.1, take_amount-IsMap payer fees p.withdrawals b.maps.2);
            })
      ]

  -- A matched deposit is owed to the receiver.
  record Owed (t : ProxyTransfer) (p : Pending) (rest out into : ℕ) : Type 0 where
    gives : ops_debit a p.operations + find_or 0 a p.withdrawals + rest ≡ out
    gets :
        ops_credit a p.operations
          + (if bytes_eq t.receiver a then t.amount else 0)
          + find_or 0 a p.deposits
          + find_or 0 a p.proxy_deposits
        ≡ into
    kind : (if proxy then find_or 0 a p.deposits else find_or 0 a p.proxy_deposits) ≡ 0
    maps : IsMap p.deposits × IsMap p.proxy_deposits × IsMap p.withdrawals

  match_deposit-Owed :
      (t : ProxyTransfer) (p : Pending) (rest out into : ℕ) {p' : Pending}
      → Balanced p rest out into
      → match_deposit i new_accounts t p ≡ ok p'
      → Owed t p' rest out into
  unfolding match_deposit
  match_deposit-Owed t p rest out into b e =
      elim (Bool-cases (is_proxy i t.receiver new_accounts)) [
        | inl yes_proxy ↦
            let run : match_deposit i new_accounts t p ≡ (
                require (leb t.amount (find_or 0 t.receiver p.proxy_deposits)) >>= λ u.
                ok (record p {
                  proxy_deposits = take_amount t.receiver t.amount p.proxy_deposits;
                })) =
              rw yes_proxy in
            let (u, e1, e2) =
              >>=-eq-ok (require (leb t.amount (find_or 0 t.receiver p.proxy_deposits))) _
                (sym run ∙ e) in
            let le = require_lem (leb t.amount (find_or 0 t.receiver p.proxy_deposits)) e1 in
            let tk = taken a t.receiver t.amount p.proxy_deposits le in
            rw (← ok_inj e2) (record {
              gives = b.gives;
              gets = omega (arith, b.gets, tk);
              kind = ground (arith, b.kind, tk);
              maps = (
                b.maps.0,
                take_amount-IsMap t.receiver t.amount p.proxy_deposits b.maps.1,
                b.maps.2,
              );
            })
        | inr no_proxy ↦
            let run : match_deposit i new_accounts t p ≡ (
                require (leb t.amount (find_or 0 t.receiver p.deposits)) >>= λ u.
                ok (record p { deposits = take_amount t.receiver t.amount p.deposits })) =
              rw no_proxy in
            let (u, e1, e2) =
              >>=-eq-ok (require (leb t.amount (find_or 0 t.receiver p.deposits))) _
                (sym run ∙ e) in
            let le = require_lem (leb t.amount (find_or 0 t.receiver p.deposits)) e1 in
            let tk = taken a t.receiver t.amount p.deposits le in
            rw (← ok_inj e2) (record {
              gives = b.gives;
              gets = omega (arith, b.gets, tk);
              kind = ground (arith, b.kind, tk);
              maps =
                  (take_amount-IsMap t.receiver t.amount p.deposits b.maps.0, b.maps.1, b.maps.2);
            })
      ]

  proxy_transfer-Balanced :
      (t : ProxyTransfer) (p : Pending) (rest out into : ℕ) {p' : Pending}
      → Balanced p ((if bytes_eq t.sender a then t.amount else 0) + rest) out into
      → proxy_transfer i new_accounts t p ≡ ok p'
      → Balanced p' rest out into
  unfolding proxy_transfer add_operation
  proxy_transfer-Balanced t p rest out into b e = elim (Bool-cases (t.amount == 0)) [
    | inl none_moved ↦
        let zero_moved = (==_iff t.amount 0).0 none_moved in
        let same : proxy_transfer i new_accounts t p ≡ ok p = rw none_moved in
        rw (← ok_inj (sym same ∙ e)) (record {
          gives = ground (arith, b.gives, zero_moved);
          gets = b.gets;
          kind = b.kind;
          maps = b.maps;
        })
    | inr moved ↦ elim (Bool-cases (present t.receiver)) [
      | inl ours ↦
          let op : Operation =
            operation OperationType.proxy_transfer t.sender t.receiver t.amount in
          let run : proxy_transfer i new_accounts t p
              ≡ (match_deposit i new_accounts t p >>= λ q. ok (add_operation i new_accounts op q)) =
            rw (moved, ours) in
          let (q, e1, e2) = >>=-eq-ok (match_deposit i new_accounts t p) _ (sym run ∙ e) in
          let o = match_deposit-Owed t p _ out into b e1 in
          rw (← ok_inj e2) (record {
            gives = ground (arith, o.gives, ops_debit-append a q.operations (op ∷ []));
            gets = ground (arith, o.gets, ops_credit-append a q.operations (op ∷ []));
            kind = o.kind;
            maps = o.maps;
          })
      | inr not_ours ↦
          let op : Operation = operation OperationType.proxy_transfer t.sender [] t.amount in
          let run : proxy_transfer i new_accounts t p ≡ ok (add_operation i new_accounts op p) =
            rw (moved, not_ours) in
          let empty = no_account a len in
          rw (← ok_inj (sym run ∙ e)) (record {
            gives = ground (arith, b.gives, ops_debit-append a p.operations (op ∷ []));
            gets = ground (arith, b.gets, empty, ops_credit-append a p.operations (op ∷ []));
            kind = b.kind;
            maps = b.maps;
          })
    ]
  ]

  proxy_transfers-Balanced :
      (ts : List ProxyTransfer) (p : Pending) (out into : ℕ) {p' : Pending}
      → Balanced p (sending a ts) out into
      → proxy_transfers i new_accounts ts p ≡ ok p'
      → Balanced p' 0 out into
  unfolding proxy_transfers
  proxy_transfers-Balanced [] p out into b e = rw (← ok_inj e) b
  proxy_transfers-Balanced (t ∷ ts) p out into b e =
      let (q, e1, e2) = >>=-eq-ok (proxy_transfer i new_accounts t p) _ e in
      proxy_transfers-Balanced ts q out into
        (proxy_transfer-Balanced t p (sending a ts) out into b e1) e2

  merge_remaining_lem :
      (p : Pending) (out into : ℕ)
      → Balanced p 0 out into
      → (ops_debit a (p.operations ++ merge_remaining p) ≡ out)
        × (ops_credit a (p.operations ++ merge_remaining p) ≡ into)
  unfolding merge_remaining
  merge_remaining_lem p out into b =
      let none_noted : IsRemaining nothing_left = record { keys = tt; last_in = inl refl } in
      let first = remaining p.deposits nothing_left in
      let deps = remaining p.proxy_deposits first in
      let wdrs = remaining p.withdrawals nothing_left in
      let v1 = remaining-IsRemaining p.deposits nothing_left none_noted in
      let v2 = remaining-IsRemaining p.proxy_deposits first v1 in
      let v3 = remaining-IsRemaining p.withdrawals nothing_left none_noted in
      let m = merge_lem a len deps wdrs v2 v3 in
      let d1 = find_or-remaining a p.deposits nothing_left b.maps.0 in
      let d2 = find_or-remaining a p.proxy_deposits first b.maps.1 in
      let w = find_or-remaining a p.withdrawals nothing_left b.maps.2 in
      (
        ground (arith, b.gives, m.1, w, ops_debit-append a p.operations (merge_remaining p)),
        ground (
          arith,
          b.gets,
          b.kind,
          m.0,
          d1,
          d2,
          ops_credit-append a p.operations (merge_remaining p),
        ),
      )

created_none :
    (a : Bytes) (keys : List (Bytes × Bytes)) (addrs : List Bytes)
    → (ops_debit a (create_operations keys addrs) ≡ 0)
      × (ops_credit a (create_operations keys addrs) ≡ 0)
unfolding create_operations
created_none a keys [] = (refl, refl)
created_none a keys (x ∷ addrs) =
    let (d, c) = created_none a keys addrs in (omega (arith, d), omega (arith, c))

-- A transaction's operations take from the account what was withdrawn from it and what it sent from
-- its proxy vault, and give it what was deposited to it.
pub operations_of_lem :
    (i : Indexer) (a payer : Bytes) (proxy : Bool) (sc : Scan) (mv : Moves) {ops : List Operation}
    → length a ≡ 8
    → operations_of i payer sc mv ≡ ok ops
    → IsMap mv.deposits × IsMap sc.proxy_deposits × IsMap mv.withdrawals
    → (if proxy then find_or 0 a mv.deposits else find_or 0 a sc.proxy_deposits) ≡ 0
    → (ops_debit a ops ≡ find_or 0 a mv.withdrawals + sending a sc.proxy_transfers)
      × (ops_credit a ops ≡ find_or 0 a mv.deposits + find_or 0 a sc.proxy_deposits)
unfolding operations_of
operations_of_lem i a payer proxy sc mv len e maps kind =
    let start : Pending = record {
      deposits = mv.deposits;
      proxy_deposits = sc.proxy_deposits;
      withdrawals = mv.withdrawals;
      operations = create_operations sc.account_keys sc.addrs;
    } in
    let (d0, c0) = created_none a sc.account_keys sc.addrs in
    let b0 : Balanced i sc.new_accounts a len proxy start (sending a sc.proxy_transfers)
        (find_or 0 a mv.withdrawals + sending a sc.proxy_transfers)
        (find_or 0 a mv.deposits + find_or 0 a sc.proxy_deposits) =
      record { gives = omega (arith, d0); gets = omega (arith, c0); kind = kind; maps = maps } in
    let (p, e1, r1) = >>=-eq-ok (take_fees i sc.new_accounts payer mv.fees start) _ e in
    let b1 = take_fees-Balanced i sc.new_accounts a len proxy payer mv.fees start _ _ _ b0 e1 in
    let (q, e2, r2) = >>=-eq-ok (proxy_transfers i sc.new_accounts sc.proxy_transfers p) _ r1 in
    let b2 =
      proxy_transfers-Balanced i sc.new_accounts a len proxy sc.proxy_transfers p _ _ b1 e2 in
    let done = merge_remaining_lem i sc.new_accounts a len proxy q _ _ b2 in rw (← ok_inj r2) done
