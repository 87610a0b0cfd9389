-- ===== src/State/Events/Tallies.antt =====
-- state/process.go: sums over the transfer events that `processBlock` lists, and what it reads of an
-- account that is tracked already.
pub mod First
pub mod Second
use rosetta.Shared.{
  ℕ, ◌+◌, ◌%◌, ◌^◌, ◌≤◌, ◌<◌, ◌≡◌, refl, ap, sym, ◌∙◌, Bool, true, false, not, ◌&&◌, ◌||◌, Option,
  none, some, List, [], ◌∷◌, ◌++◌, Bytes, bytes_eq, bytes_eq_iff, find, find_or, put, find_or-put,
  IsMap, put-IsMap, ◌==◌, if◌then◌else◌, length, arith, Bool-cases, inl, inr, ◌⊎◌, same_text,
  by_branch,
}
use rosetta.Shared.Results.{
  Result, ok, err, crash, ◌>>=◌, ◌>>◌, >>=-eq-ok, ok_inj, or_err, or_crash,
}
use rosetta.Crypto.{Curve, hex_decode, convert_flow_public_key}
use rosetta.Model.{TransferEvent, TransferType}
use rosetta.State.{Indexer, is_proxy, is_tracked}
use rosetta.State.Cadence.{Cadence, decode_event}
use rosetta.State.Events.{
  Abort, retry, ChainEvent, ProxyTransfer, Scan, Moves, require, add_amount, transfer_event,
  load_event, address_field, amount_field, optional_field, sender_of, account_created,
  proxy_created_by, proxy_created, proxy_deposited, proxy_transferred, scan_event, scan_events,
  deposit_to, withdraw_from, deposited_at, withdrawn_at, tokens_deposited, tokens_withdrawn,
  move_event, move_events, string_field,
}
use rosetta.State.Operations.Merge.{no_account}
use rosetta.State.Operations.Matching.{sending}

abbrev pub is_deposit : TransferType → Bool
is_deposit TransferType.deposit = true
is_deposit TransferType.withdrawal = false
is_deposit TransferType.proxy_deposit = false
is_deposit TransferType.proxy_withdrawal = false
is_deposit TransferType.fee_deposit = false
is_deposit TransferType.unspecified = false

abbrev pub is_withdrawal : TransferType → Bool
is_withdrawal TransferType.deposit = false
is_withdrawal TransferType.withdrawal = true
is_withdrawal TransferType.proxy_deposit = false
is_withdrawal TransferType.proxy_withdrawal = false
is_withdrawal TransferType.fee_deposit = false
is_withdrawal TransferType.unspecified = false

abbrev pub is_proxy_deposit : TransferType → Bool
is_proxy_deposit TransferType.deposit = false
is_proxy_deposit TransferType.withdrawal = false
is_proxy_deposit TransferType.proxy_deposit = true
is_proxy_deposit TransferType.proxy_withdrawal = false
is_proxy_deposit TransferType.fee_deposit = false
is_proxy_deposit TransferType.unspecified = false

abbrev pub is_proxy_withdrawal : TransferType → Bool
is_proxy_withdrawal TransferType.deposit = false
is_proxy_withdrawal TransferType.withdrawal = false
is_proxy_withdrawal TransferType.proxy_deposit = false
is_proxy_withdrawal TransferType.proxy_withdrawal = true
is_proxy_withdrawal TransferType.fee_deposit = false
is_proxy_withdrawal TransferType.unspecified = false

module _ (sel : TransferType → Bool) (a : Bytes) where
  -- What the events of a kind bring to the account, and take from it.
  abbrev pub received : List TransferEvent → ℕ
  received [] = 0
  received (e ∷ es) = (if sel e.typ && bytes_eq e.receiver a then e.amount else 0) + received es

  abbrev pub sent : List TransferEvent → ℕ
  sent [] = 0
  sent (e ∷ es) = (if sel e.typ && bytes_eq e.sender a then e.amount else 0) + sent es

  pub received-append :
      (xs ys : List TransferEvent) → received (xs ++ ys) ≡ received xs + received ys
  received-append [] ys = omega arith
  received-append (x ∷ xs) ys = omega (arith, received-append xs ys)

  pub sent-append : (xs ys : List TransferEvent) → sent (xs ++ ys) ≡ sent xs + sent ys
  sent-append [] ys = omega arith
  sent-append (x ∷ xs) ys = omega (arith, sent-append xs ys)

pub sending-append :
    (a : Bytes) (xs ys : List ProxyTransfer) → sending a (xs ++ ys) ≡ sending a xs + sending a ys
sending-append a [] ys = omega arith
sending-append a (x ∷ xs) ys = omega (arith, sending-append a xs ys)

pub find_or-add_amount :
    (a k : Bytes) (n : ℕ) (m : List (Bytes × ℕ))
    → find_or 0 a (add_amount k n m)
      ≡ (if bytes_eq k a then (find_or 0 a m + n) % 2 ^ 64 else find_or 0 a m)
unfolding add_amount
find_or-add_amount a k n m = elim (Bool-cases (bytes_eq k a)) [
  | inl same ↦
      let e = (bytes_eq_iff k a).0 same in
      find_or-put 0 a k ((find_or 0 k m + n) % 2 ^ 64) m
      ∙ rw same (ap (λ (x : Bytes). (find_or 0 x m + n) % 2 ^ 64) e)
  | inr other ↦ find_or-put 0 a k ((find_or 0 k m + n) % 2 ^ 64) m ∙ rw other
]

add_amount-IsMap : (k : Bytes) (n : ℕ) (m : List (Bytes × ℕ)) → IsMap m → IsMap (add_amount k n m)
unfolding add_amount
add_amount-IsMap k n m u = put-IsMap k ((find_or 0 k m + n) % 2 ^ 64) m u

pub add_if-IsMap :
    (b : Bool) (addr : Bytes) (amount : ℕ) (m : List (Bytes × ℕ))
    → IsMap m
    → IsMap (if b then add_amount addr amount m else m)
add_if-IsMap true addr amount m u = add_amount-IsMap addr amount m u
add_if-IsMap false addr amount m u = u

module _ (i : Indexer) (a : Bytes) (len : length a ≡ 8) (p : Bool)
    (known : find a i.accts ≡ some p) where
  pub is_proxy-known :
      (x : Bytes) (m : List (Bytes × Bool)) → bytes_eq x a ≡ true → is_proxy i x m ≡ p
  unfolding is_proxy
  is_proxy-known x m same =
      let e : find x i.accts ≡ some p =
        ap (λ (y : Bytes). find y i.accts) ((bytes_eq_iff x a).0 same) ∙ known in
      rw (is_proxy, e)

  pub is_tracked-known :
      (x : Bytes) (m : List (Bytes × Bool)) → bytes_eq x a ≡ true → is_tracked i x m ≡ true
  unfolding is_tracked
  is_tracked-known x m same =
      let e : find x i.accts ≡ some p =
        ap (λ (y : Bytes). find y i.accts) ((bytes_eq_iff x a).0 same) ∙ known in
      rw (is_tracked, e)
