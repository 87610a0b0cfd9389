-- ===== src/State/Events/Bounds.antt =====
-- state/process.go: what the two loops collect is keyed by addresses of 8 bytes, and its amounts are
-- uint64 values.
pub mod First
pub mod Second
use rosetta.Shared.{
  ℕ, ◌+◌, ◌%◌, ◌^◌, ◌<◌, ◌≡◌, refl, ap, sym, ◌∙◌, Bool, true, false, not, ◌&&◌, ◌||◌, Option, none,
  some, List, [], ◌∷◌, ◌++◌, Bytes, bytes_eq, bytes_eq_iff, find, find_or, put, ◌==◌, if◌then◌else◌,
  length, arith, Bool-cases, inl, inr, same_text, by_branch, String,
}
use rosetta.Shared.Results.{Result, ok, >>=-eq-ok, ok_inj, or_err}
use rosetta.Crypto.{Curve, hex_decode, convert_flow_public_key}
use rosetta.IndexDb.Write.Totals.{IsAddress}
use rosetta.State.{Indexer, is_proxy, is_tracked}
use rosetta.State.Cadence.{Cadence, decode_event}
use rosetta.State.Events.{
  Abort, retry, ChainEvent, ProxyTransfer, Scan, Moves, require, add_amount, load_event,
  address_field, amount_field, optional_field, string_field, sender_of, account_created,
  proxy_created_by, proxy_created, proxy_deposited, proxy_transferred, scan_event, scan_events,
  deposit_to, withdraw_from, deposited_at, withdrawn_at, tokens_deposited, tokens_withdrawn,
  move_event, move_events, address_in, amount_in,
}

abbrev pub AreAmounts : List (Bytes × ℕ) → Type 0
AreAmounts [] = Unit {0}
AreAmounts ((k, n) ∷ m) = (length k ≡ 8) × (n < 2 ^ 64) × AreAmounts m

abbrev pub AreAddresses : List Bytes → Type 0
AreAddresses [] = Unit {0}
AreAddresses (a ∷ addrs) = (length a ≡ 8) × AreAddresses addrs

pub record IsTransfer (t : ProxyTransfer) : Type 0 where
  pub amount_lt : t.amount < 2 ^ 64
  pub receiver_ok : IsAddress t.receiver
  pub sender_ok : length t.sender ≡ 8

abbrev pub AreTransfers : List ProxyTransfer → Type 0
AreTransfers [] = Unit {0}
AreTransfers (t ∷ ts) = IsTransfer t × AreTransfers ts

pub put-AreAmounts :
    (k : Bytes) (n : ℕ) (m : List (Bytes × ℕ))
    → length k ≡ 8
    → n < 2 ^ 64
    → AreAmounts m
    → AreAmounts (put k n m)
unfolding put
put-AreAmounts k n [] l lt v = (l, lt, tt)
put-AreAmounts k n ((j, w) ∷ m) l lt (lj, ltw, v) = elim (Bool-cases (bytes_eq j k)) [
  | inl same ↦ rw same (lj, lt, v)
  | inr other ↦ rw other (lj, ltw, put-AreAmounts k n m l lt v)
]

pub find_or_lt : (k : Bytes) (m : List (Bytes × ℕ)) → AreAmounts m → find_or 0 k m < 2 ^ 64
find_or_lt k [] v = omega arith
find_or_lt k ((j, w) ∷ m) (lj, lt, v) = elim (Bool-cases (bytes_eq j k)) [
  | inl same ↦ rw same lt
  | inr other ↦ rw other (find_or_lt k m v)
]

-- A name with an amount is one of the map's.
pub length-positive :
    (k : Bytes) (m : List (Bytes × ℕ)) → AreAmounts m → 0 < find_or 0 k m → length k ≡ 8
length-positive k [] v pos = absurd (omega (arith, pos))
length-positive k ((j, w) ∷ m) (lj, lt, v) pos = elim (Bool-cases (bytes_eq j k)) [
  | inl same ↦ ap length (sym ((bytes_eq_iff j k).0 same)) ∙ lj
  | inr other ↦
      let skip : find_or 0 k ((j, w) ∷ m) ≡ find_or 0 k m = rw other in
      length-positive k m v (rw (← skip) pos)
]

pub add_amount-AreAmounts :
    (b : Bool) (k : Bytes) (n : ℕ) (m : List (Bytes × ℕ))
    → length k ≡ 8
    → AreAmounts m
    → AreAmounts (if b then add_amount k n m else m)
unfolding add_amount
add_amount-AreAmounts true k n m l v =
    put-AreAmounts k ((find_or 0 k m + n) % 2 ^ 64) m l (omega arith) v
add_amount-AreAmounts false k n m l v = v

pub append-AreAddresses :
    (xs : List Bytes) (a : Bytes) → AreAddresses xs → length a ≡ 8 → AreAddresses (xs ++ (a ∷ []))
append-AreAddresses [] a v l = (l, tt)
append-AreAddresses (x ∷ xs) a (lx, v) l = (lx, append-AreAddresses xs a v l)

pub append-AreTransfers :
    (ts : List ProxyTransfer) (t : ProxyTransfer)
    → AreTransfers ts
    → IsTransfer t
    → AreTransfers (ts ++ (t ∷ []))
append-AreTransfers [] t v w = (w, tt)
append-AreTransfers (x ∷ ts) t (vx, v) w = (vx, append-AreTransfers ts t v w)

pub record IsScan (sc : Scan) : Type 0 where
  pub addrs_ok : AreAddresses sc.addrs
  pub deposits_ok : AreAmounts sc.proxy_deposits
  pub transfers_ok : AreTransfers sc.proxy_transfers

pub record AreMoves (mv : Moves) : Type 0 where
  pub deposits_ok : AreAmounts mv.deposits
  pub withdrawals_ok : AreAmounts mv.withdrawals

module _ (c : Cadence) where
  pub or_err-ok :
      {A : Type 0} (o : Option A) {x : A}
      → ◌≡◌ {A = Result Abort A} (or_err o retry) (ok x)
      → o ≡ some x
  or_err-ok none e = cc
  or_err-ok (some y) e = ap some (ok_inj e)

  address_in-length : (v : Option c.Value) {a : Bytes} → address_in c v ≡ some a → length a ≡ 8
  unfolding address_in
  address_in-length none e = cc
  address_in-length (some v) e = c.length-as_address v _ e

  amount_in_lt : (v : Option c.Value) {n : ℕ} → amount_in c v ≡ some n → n < 2 ^ 64
  unfolding amount_in
  amount_in_lt none e = cc
  amount_in_lt (some v) e = c.as_ufix64_lt v _ e

  pub length-address_field :
      (event : c.Event) (name : String) {a : Bytes}
      → address_field c event name ≡ ok a
      → length a ≡ 8
  unfolding address_field
  length-address_field event name e =
      address_in-length (c.search_field event name)
        (or_err-ok (address_in c (c.search_field event name)) e)

  pub amount_field_lt : (event : c.Event) {n : ℕ} → amount_field c event ≡ ok n → n < 2 ^ 64
  unfolding amount_field
  amount_field_lt event e =
      amount_in_lt (c.search_field event "amount")
        (or_err-ok (amount_in c (c.search_field event "amount")) e)
