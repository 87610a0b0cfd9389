-- ===== src/State/Operations/Merge.antt =====
-- state/process.go: the operations for what is left move each account's amounts, and no others.
use rosetta.Shared.{
  ℕ, ◌+◌, ◌≡◌, refl, ap, sym, ◌∙◌, true, false, none, some, List, [], ◌∷◌, ◌++◌, Bytes, bytes_eq,
  bytes_eq_iff, find, find_or, put, find-put_exact, find_or-put, find_or-none, IsMap, put-IsMap,
  ◌==◌, ==_iff, if◌then◌else◌, ltb, length, arith, Bool-cases, inl, inr, ◌⊎◌,
}
use rosetta.Model.{Operation}
use rosetta.IndexDb.Write.Totals.{ops_debit, ops_credit}
use rosetta.State.Operations.{
  Remaining, remaining, deposit_operations, withdrawal_operations, merge,
}

pub ops_debit-append :
    (a : Bytes) (xs ys : List Operation) → ops_debit a (xs ++ ys) ≡ ops_debit a xs + ops_debit a ys
ops_debit-append a [] ys = omega arith
ops_debit-append a (x ∷ xs) ys = omega (arith, ops_debit-append a xs ys)

pub ops_credit-append :
    (a : Bytes) (xs ys : List Operation)
    → ops_credit a (xs ++ ys) ≡ ops_credit a xs + ops_credit a ys
ops_credit-append a [] ys = omega arith
ops_credit-append a (x ∷ xs) ys = omega (arith, ops_credit-append a xs ys)

-- The last account noted is one of the map's, if that has any.
pub record IsRemaining (r : Remaining) : Type 0 where
  pub keys : IsMap r.amounts
  pub last_in : (r.amounts ≡ []) ⊎ ((n : ℕ) × (find r.last r.amounts ≡ some n))

pub remaining-IsRemaining :
    (m : List (Bytes × ℕ)) (r : Remaining) → IsRemaining r → IsRemaining (remaining m r)
unfolding remaining
remaining-IsRemaining [] r v = v
remaining-IsRemaining ((k, n) ∷ m) r v = elim (Bool-cases (ltb 0 n)) [
  | inl pos ↦ rw pos (
      remaining-IsRemaining m _ (record {
        keys = put-IsMap k n r.amounts v.keys;
        last_in = inr (n, find-put_exact k k n r.amounts ∙ rw ((bytes_eq_iff k k).1 refl));
      }))
  | inr zero_left ↦ rw zero_left (remaining-IsRemaining m r v)
]

-- Copying a map takes its positive amounts over those that were there.
pub find_or-remaining :
    (a : Bytes) (m : List (Bytes × ℕ)) (r : Remaining)
    → IsMap m
    → find_or 0 a (remaining m r).amounts
      ≡ (if ltb 0 (find_or 0 a m) then find_or 0 a m else find_or 0 a r.amounts)
unfolding remaining
find_or-remaining a [] r u = refl
find_or-remaining a ((k, n) ∷ m) r (new, u) = find_or-remaining a m _ u ∙ step
  where
    step :
        (if ltb 0 (find_or 0 a m)
          then find_or 0 a m
          else find_or 0 a
              (if ltb 0 n then record { last = k; amounts = put k n r.amounts } else r).amounts)
        ≡ (if ltb 0 (find_or 0 a ((k, n) ∷ m))
            then find_or 0 a ((k, n) ∷ m)
            else find_or 0 a r.amounts)
    step = elim (Bool-cases (bytes_eq k a)) [
      | inl same ↦
          let gone : find a m ≡ none =
            ap (λ (x : Bytes). find x m) (sym ((bytes_eq_iff k a).0 same)) ∙ new in
          let zero_at = find_or-none 0 a m gone in
          ground (arith, same, zero_at, find_or-put 0 a k n r.amounts)
      | inr other ↦ ground (arith, other, find_or-put 0 a k n r.amounts)
    ]

pub no_account : (a : Bytes) → length a ≡ 8 → bytes_eq [] a ≡ false
no_account [] e = absurd (omega (arith, e))
no_account (x ∷ a) e = unfold bytes_eq in refl

module _ (a : Bytes) (len : length a ≡ 8) where
  deposit_operations_lem :
      (m : List (Bytes × ℕ))
      → IsMap m
      → (ops_credit a (deposit_operations m) ≡ find_or 0 a m)
        × (ops_debit a (deposit_operations m) ≡ 0)
  unfolding deposit_operations
  deposit_operations_lem [] u = (refl, refl)
  deposit_operations_lem ((k, n) ∷ m) (new, u) =
      let (c, d) = deposit_operations_lem m u in
      let empty = no_account a len in
      elim (Bool-cases (bytes_eq k a)) [
        | inl same ↦
            let gone : find a m ≡ none =
              ap (λ (x : Bytes). find x m) (sym ((bytes_eq_iff k a).0 same)) ∙ new in
            let zero_at = find_or-none 0 a m gone in
            (ground (arith, same, c, zero_at), ground (arith, d, empty))
        | inr other ↦ (ground (arith, other, c), ground (arith, d, empty))
      ]

  withdrawal_operations_lem :
      (m : List (Bytes × ℕ))
      → IsMap m
      → (ops_debit a (withdrawal_operations m) ≡ find_or 0 a m)
        × (ops_credit a (withdrawal_operations m) ≡ 0)
  unfolding withdrawal_operations
  withdrawal_operations_lem [] u = (refl, refl)
  withdrawal_operations_lem ((k, n) ∷ m) (new, u) =
      let (d, c) = withdrawal_operations_lem m u in
      let empty = no_account a len in
      elim (Bool-cases (bytes_eq k a)) [
        | inl same ↦
            let gone : find a m ≡ none =
              ap (λ (x : Bytes). find x m) (sym ((bytes_eq_iff k a).0 same)) ∙ new in
            let zero_at = find_or-none 0 a m gone in
            (ground (arith, same, d, zero_at), ground (arith, c, empty))
        | inr other ↦ (ground (arith, other, d), ground (arith, c, empty))
      ]

  single_entry :
      (last : Bytes) (m : List (Bytes × ℕ))
      → (m ≡ []) ⊎ ((n : ℕ) × (find last m ≡ some n))
      → (length m == 1) ≡ true
      → find_or 0 a m ≡ (if bytes_eq last a then find_or 0 last m else 0)
  single_entry last [] v one = cc
  single_entry last ((k, n) ∷ e ∷ m) v one =
      absurd (omega (arith, (==_iff (length ((k, n) ∷ e ∷ m)) 1).0 one))
  single_entry last ((k, n) ∷ []) (inl empty) one = absurd (omega (arith, ap length empty))
  single_entry last ((k, n) ∷ []) (inr (w, f)) one = elim (Bool-cases (bytes_eq k last)) [
    | inl same ↦ let e = (bytes_eq_iff k last).0 same in rw (← e, (bytes_eq_iff k k).1 refl) refl
    | inr other ↦
        let gone : find last ((k, n) ∷ []) ≡ none = rw other in let clash = sym gone ∙ f in cc
  ]

  -- A map of one entry has it at the account that was noted.
  single :
      (r : Remaining)
      → IsRemaining r
      → (length r.amounts == 1) ≡ true
      → find_or 0 a r.amounts ≡ (if bytes_eq r.last a then find_or 0 r.last r.amounts else 0)
  single r v one = single_entry r.last r.amounts v.last_in one

  pub merge_lem :
      (deps wdrs : Remaining)
      → IsRemaining deps
      → IsRemaining wdrs
      → (ops_credit a (merge deps wdrs) ≡ find_or 0 a deps.amounts)
        × (ops_debit a (merge deps wdrs) ≡ find_or 0 a wdrs.amounts)
  unfolding merge
  merge_lem deps wdrs vd vw = elim (Bool-cases (length deps.amounts == 1)) [
    | inr many ↦ rw many separate
    | inl one ↦ elim (Bool-cases (length wdrs.amounts == 1)) [
      | inr many ↦ rw (one, many) separate
      | inl one' ↦
          elim (Bool-cases (find_or 0 deps.last deps.amounts == find_or 0 wdrs.last wdrs.amounts)) [
            | inr differ ↦ rw (one, one', differ) separate
            | inl same ↦
                let n =
                  (==_iff (find_or 0 deps.last deps.amounts) (find_or 0 wdrs.last wdrs.amounts)).0
                    same in
                let d = single deps vd one in
                let w = single wdrs vw one' in
                rw (one, one', same) (ground (arith, d), ground (arith, w, n))
          ]
    ]
  ]
    where
      separate :
          (ops_credit a (deposit_operations deps.amounts ++ withdrawal_operations wdrs.amounts)
            ≡ find_or 0 a deps.amounts)
          × (ops_debit a (deposit_operations deps.amounts ++ withdrawal_operations wdrs.amounts)
              ≡ find_or 0 a wdrs.amounts)
      separate =
          let d = deposit_operations_lem deps.amounts vd.keys in
          let w = withdrawal_operations_lem wdrs.amounts vw.keys in
          (
            omega (
              arith,
              ops_credit-append a (deposit_operations deps.amounts)
                  (withdrawal_operations wdrs.amounts),
              d.0,
              w.1,
            ),
            omega (
              arith,
              ops_debit-append a (deposit_operations deps.amounts)
                  (withdrawal_operations wdrs.amounts),
              d.1,
              w.0,
            ),
          )
