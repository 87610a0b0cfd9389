-- ===== src/State/Events.antt =====
-- state/process.go: the two loops of `processBlock` over the events of a transaction.
-- An `err` makes the block be fetched and processed again without the cache; a failed type assertion
-- that has no `ok` is a panic. The log lines are left out.
pub mod Bounds
pub mod Tallies
use rosetta.Shared.{
  ℕ, ◌+◌, ◌%◌, ◌^◌, Bool, true, false, not, ◌&&◌, ◌||◌, Option, none, some, List, [], ◌∷◌, ◌++◌,
  Bytes, find, find_or, put, ◌==◌, if◌then◌else◌, String, same_text, length, replicate,
}
use rosetta.Shared.Results.{Result, ok, err, crash, ◌>>=◌, ◌>>◌, or_err, or_crash}
use rosetta.Crypto.{Curve, hex_decode, convert_flow_public_key}
use rosetta.Model.{TransferEvent, TransferType}
use rosetta.State.{Indexer, is_proxy, is_tracked}
use rosetta.State.Cadence.{Cadence, decode_event}

pub data Abort : Type 0 where
  retry : Abort

-- entities.Event
pub record ChainEvent : Type 0 where
  pub event_index : ℕ
  pub payload : Bytes
  pub transaction_id : Bytes
  pub transaction_index : ℕ
  pub typ : String

pub record ProxyTransfer : Type 0 where
  pub amount : ℕ
  pub receiver : Bytes
  pub sender : Bytes

abbrev pub require : Bool → Result Abort (Unit {0})
require true = ok tt
require false = err retry

-- `m[k] += n`
unfoldable pub add_amount : Bytes → ℕ → List (Bytes × ℕ) → List (Bytes × ℕ)
add_amount k n m = put k ((find_or 0 k m + n) % 2 ^ 64) m

-- A slice of an all-zero array.
abbrev pub zero_address : Bytes
zero_address = replicate 8 0

abbrev pub transfer_event : TransferType → Bytes → Bytes → ℕ → TransferEvent
transfer_event typ sender receiver amount = record {
  amount = amount;
  receiver = receiver;
  sender = sender;
  typ = typ;
}

-- What the first loop collects. In `account_keys` an empty key is nil.
pub record Scan : Type 0 where
  pub account_keys : List (Bytes × Bytes)
  pub addrs : List Bytes
  pub new_accounts : List (Bytes × Bool)
  pub events : List TransferEvent
  pub proxy_deposits : List (Bytes × ℕ)
  pub proxy_transfers : List ProxyTransfer

-- What the second loop collects.
pub record Moves : Type 0 where
  pub deposits : List (Bytes × ℕ)
  pub fees : ℕ
  pub withdrawals : List (Bytes × ℕ)
  pub events : List TransferEvent

module _ (c : Cadence) where
  pub address_in : Option c.Value → Option Bytes
  address_in none = none
  address_in (some v) = c.as_address v

  unfoldable pub amount_in : Option c.Value → Option ℕ
  amount_in none = none
  amount_in (some v) = c.as_ufix64 v

  string_in : Option c.Value → Option Bytes
  string_in none = none
  string_in (some v) = c.as_string v

  unfoldable pub optional_in : Option c.Value → Option (Option c.Value)
  optional_in none = none
  optional_in (some v) = c.as_optional v

  -- `decodeEvent` and the test on the number of fields.
  unfoldable pub load_event : ℕ → Bytes → Result Abort c.Event
  load_event fields payload = do
    event ← or_err (decode_event c payload) retry
    require (c.field_count event == fields)
    ok event

  pub address_field : c.Event → String → Result Abort Bytes
  unfolding address_in
  address_field event name = or_err (address_in (c.search_field event name)) retry

  unfoldable pub amount_field : c.Event → Result Abort ℕ
  unfolding amount_in
  amount_field event = or_err (amount_in (c.search_field event "amount")) retry

  pub string_field : c.Event → String → Result Abort Bytes
  unfolding string_in
  string_field event name = or_err (string_in (c.search_field event name)) retry

  -- The value of an Optional field; the assertion panics.
  unfoldable pub optional_field : c.Event → String → Result Abort (Option c.Value)
  unfolding optional_in
  optional_field event name = or_crash (optional_in (c.search_field event name))

module _ (i : Indexer) (c : Cadence) (curve : Curve) (payer : Bytes) where
  pub account_created : ChainEvent → Scan → Result Abort Scan
  account_created evt sc = do
    event ← load_event c 1 evt.payload
    addr ← address_field c event c.address_parameter
    ok (
        if find_or false addr i.originators || is_tracked i payer sc.new_accounts
        then record sc {
          account_keys = put addr [] sc.account_keys;
          addrs = sc.addrs ++ (addr ∷ []);
          new_accounts = put addr false sc.new_accounts;
        }
        else sc)

  -- The rest of a FlowColdStorageProxy.Created event, behind the test on the payer.
  pub proxy_created_by : c.Event → Scan → Result Abort Scan
  proxy_created_by event sc = do
    require (not (length sc.account_keys == 0))
    require (c.field_count event == 2)
    addr ← address_field c event "account"
    known ← or_err (find addr sc.account_keys) retry
    public_key ← string_field c event c.public_key_parameter
    decoded ← or_err (hex_decode public_key) retry
    compressed ← or_err (convert_flow_public_key curve decoded) retry
    ok (record sc {
      account_keys = put addr compressed sc.account_keys;
      new_accounts = put addr true sc.new_accounts;
    })

  pub proxy_created : ChainEvent → Scan → Result Abort Scan
  unfolding proxy_created_by
  proxy_created evt sc = do
    event ← or_err (decode_event c evt.payload) retry
    if is_tracked i payer sc.new_accounts then proxy_created_by event sc else ok sc

  pub proxy_deposited : ChainEvent → Scan → Result Abort Scan
  proxy_deposited evt sc = do
    event ← load_event c 2 evt.payload
    addr ← address_field c event "account"
    amount ← amount_field c event
    ok (record sc {
      events = sc.events ++ (transfer_event TransferType.proxy_deposit [] addr amount ∷ []);
      proxy_deposits =
          if is_proxy i addr sc.new_accounts
          then add_amount addr amount sc.proxy_deposits
          else sc.proxy_deposits;
    })

  -- The sender of a FlowColdStorageProxy.Transferred event; a nil one leaves the array at zero.
  pub sender_of : Option c.Value → Result Abort Bytes
  sender_of none = ok zero_address
  sender_of (some v) = or_err (c.as_address v) retry

  pub proxy_transferred : ChainEvent → Scan → Result Abort Scan
  unfolding sender_of
  proxy_transferred evt sc = do
    event ← load_event c 3 evt.payload
    receiver ← address_field c event "to"
    from_value ← optional_field c event "from"
    sender ← sender_of from_value
    amount ← amount_field c event
    ok (record sc {
      events =
          sc.events ++ (transfer_event TransferType.proxy_withdrawal sender receiver amount ∷ []);
      proxy_transfers =
          if is_proxy i sender sc.new_accounts
          then sc.proxy_transfers
            ++ (record {
              amount = amount;
              receiver = if is_tracked i receiver sc.new_accounts then receiver else [];
              sender = sender;
            }
                ∷ [])
          else sc.proxy_transfers;
    })

  unfoldable pub scan_event : ChainEvent → Scan → Result Abort Scan
  unfolding account_created proxy_created proxy_deposited proxy_transferred
  scan_event evt sc =
      if same_text evt.typ "flow.AccountCreated"
      then account_created evt sc
      else if same_text evt.typ i.typ_proxy_created
      then proxy_created evt sc
      else if same_text evt.typ i.typ_proxy_deposited
      then proxy_deposited evt sc
      else if same_text evt.typ i.typ_proxy_transferred
      then proxy_transferred evt sc
      else ok sc

  unfoldable pub scan_events : List ChainEvent → Scan → Result Abort Scan
  unfolding scan_event
  scan_events [] sc = ok sc
  scan_events (evt ∷ evts) sc = do sc' ← scan_event evt sc; scan_events evts sc'

module _ (i : Indexer) (c : Cadence) (new_accounts : List (Bytes × Bool)) where
  -- A deposit to an address, behind the decoding.
  unfoldable pub deposit_to : Bytes → ℕ → Moves → Moves
  deposit_to receiver amount mv = record mv {
    events = mv.events ++ (transfer_event TransferType.deposit [] receiver amount ∷ []);
    fees = if find_or false receiver i.fee_addrs then (mv.fees + amount) % 2 ^ 64 else mv.fees;
    deposits =
        if not (find_or false receiver i.fee_addrs)
          && (is_tracked i receiver new_accounts && not (is_proxy i receiver new_accounts))
        then add_amount receiver amount mv.deposits
        else mv.deposits;
  }

  pub withdraw_from : Bytes → ℕ → Moves → Moves
  withdraw_from sender amount mv = record mv {
    events = mv.events ++ (transfer_event TransferType.withdrawal sender [] amount ∷ []);
    withdrawals =
        if is_tracked i sender new_accounts && not (is_proxy i sender new_accounts)
        then add_amount sender amount mv.withdrawals
        else mv.withdrawals;
  }

  unfoldable pub deposited_at : ℕ → Option c.Value → Moves → Result Abort Moves
  unfolding deposit_to
  deposited_at amount none mv =
      ok (record mv {
        events = mv.events ++ (transfer_event TransferType.deposit [] [] amount ∷ []);
      })
  deposited_at amount (some v) mv = do
    receiver ← or_err (c.as_address v) retry
    ok (deposit_to receiver amount mv)

  pub withdrawn_at : ℕ → Option c.Value → Moves → Result Abort Moves
  unfolding withdraw_from
  withdrawn_at amount none mv = ok (record mv {
    events = mv.events ++ (transfer_event TransferType.withdrawal [] [] amount ∷ []);
  })
  withdrawn_at amount (some v) mv = do
    sender ← or_err (c.as_address v) retry
    ok (withdraw_from sender amount mv)

  unfoldable pub tokens_deposited : ChainEvent → Moves → Result Abort Moves
  unfolding deposited_at
  tokens_deposited evt mv = do
    event ← load_event c 2 evt.payload
    amount ← amount_field c event
    to_value ← optional_field c event "to"
    deposited_at amount to_value mv

  pub tokens_withdrawn : ChainEvent → Moves → Result Abort Moves
  unfolding withdrawn_at
  tokens_withdrawn evt mv = do
    event ← load_event c 2 evt.payload
    amount ← amount_field c event
    from_value ← optional_field c event "from"
    withdrawn_at amount from_value mv

  unfoldable pub move_event : ChainEvent → Moves → Result Abort Moves
  unfolding tokens_deposited tokens_withdrawn
  move_event evt mv =
      if same_text evt.typ i.typ_tokens_deposited
      then tokens_deposited evt mv
      else if same_text evt.typ i.typ_tokens_withdrawn
      then tokens_withdrawn evt mv
      else ok mv

  unfoldable pub move_events : List ChainEvent → Moves → Result Abort Moves
  unfolding move_event
  move_events [] mv = ok mv
  move_events (evt ∷ evts) mv = do mv' ← move_event evt mv; move_events evts mv'
