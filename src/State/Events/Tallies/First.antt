-- ===== src/State/Events/Tallies/First.antt =====
-- state/process.go: what the first loop collects for an account that is tracked already, against the
-- transfer events that it lists.
use rosetta.Shared.{
  ℕ, ◌+◌, ◌%◌, ◌^◌, ◌≡◌, Bool, true, false, not, ◌&&◌, ◌||◌, some, List, [], ◌∷◌, ◌++◌, Bytes,
  bytes_eq, find, find_or, put, IsMap, ◌==◌, if◌then◌else◌, length, arith, Bool-cases, inl, inr,
  same_text, by_branch,
}
use rosetta.Shared.Results.{ok, >>=-eq-ok, ok_inj, or_err}
use rosetta.Crypto.{Curve, hex_decode, convert_flow_public_key}
use rosetta.Model.{TransferType}
use rosetta.State.{Indexer, is_proxy, is_tracked}
use rosetta.State.Cadence.{Cadence, decode_event}
use rosetta.State.Events.{
  retry, ChainEvent, ProxyTransfer, Scan, require, add_amount, transfer_event, load_event,
  address_field, amount_field, optional_field, sender_of, account_created, proxy_created_by,
  proxy_created, proxy_deposited, proxy_transferred, scan_event, scan_events, string_field,
}
use rosetta.State.Operations.Matching.{sending}
use rosetta.State.Events.Tallies.{
  is_deposit, is_withdrawal, is_proxy_deposit, is_proxy_withdrawal, received, sent, received-append,
  sent-append, sending-append, find_or-add_amount, is_proxy-known, add_if-IsMap,
}

module _ (i : Indexer) (a : Bytes) (len : length a ≡ 8) (p : Bool)
    (known : find a i.accts ≡ some p) where
  -- The first loop.
  pub record ScanTally (sc : Scan) : Type 0 where
    pub deposits_eq :
        find_or 0 a sc.proxy_deposits
        ≡ (if p then received is_proxy_deposit a sc.events else 0) % 2 ^ 64
    pub sending_eq :
        sending a sc.proxy_transfers ≡ (if p then sent is_proxy_withdrawal a sc.events else 0)
    pub map : IsMap sc.proxy_deposits
    pub quiet : (received is_deposit a sc.events ≡ 0) × (sent is_withdrawal a sc.events ≡ 0)

  abbrev new_account : Bytes → Scan → Scan
  new_account addr sc = record sc {
    account_keys = put addr [] sc.account_keys;
    addrs = sc.addrs ++ (addr ∷ []);
    new_accounts = put addr false sc.new_accounts;
  }

  account-ScanTally :
      (created : Bool) (addr : Bytes) (sc : Scan)
      → ScanTally sc
      → ScanTally (if created then new_account addr sc else sc)
  account-ScanTally true addr sc t = record {
    deposits_eq = t.deposits_eq;
    sending_eq = t.sending_eq;
    map = t.map;
    quiet = t.quiet;
  }
  account-ScanTally false addr sc t = t

  proxied_deposit :
      (addr : Bytes) (amount : ℕ) (new : List (Bytes × Bool)) (m : List (Bytes × ℕ))
      → find_or 0 a (if is_proxy i addr new then add_amount addr amount m else m)
        ≡ (if bytes_eq addr a && p then (find_or 0 a m + amount) % 2 ^ 64 else find_or 0 a m)
  proxied_deposit addr amount new m = elim (Bool-cases (bytes_eq addr a)) [
    | inl same ↦ ground (
      arith,
      same,
      is_proxy-known i a len p known addr new same,
      find_or-add_amount a addr amount m,
    )
    | inr other ↦ ground (arith, other, find_or-add_amount a addr amount m)
  ]

  deposit-ScanTally :
      (addr : Bytes) (amount : ℕ) (sc : Scan)
      → ScanTally sc
      → ScanTally (record sc {
        events = sc.events ++ (transfer_event TransferType.proxy_deposit [] addr amount ∷ []);
        proxy_deposits =
            if is_proxy i addr sc.new_accounts
            then add_amount addr amount sc.proxy_deposits
            else sc.proxy_deposits;
      })
  deposit-ScanTally addr amount sc t =
      let one = transfer_event TransferType.proxy_deposit [] addr amount ∷ [] in
      record {
        deposits_eq =
            let get = proxied_deposit addr amount sc.new_accounts sc.proxy_deposits in
            let all = received-append is_proxy_deposit a sc.events one in
            ground (arith, t.deposits_eq, get, all);
        sending_eq = ground (arith, t.sending_eq, sent-append is_proxy_withdrawal a sc.events one);
        map = add_if-IsMap (is_proxy i addr sc.new_accounts) addr amount sc.proxy_deposits t.map;
        quiet = (
          omega (arith, t.quiet.0, received-append is_deposit a sc.events one),
          omega (arith, t.quiet.1, sent-append is_withdrawal a sc.events one),
        );
      }

  sent_if :
      (receiver sender : Bytes) (amount : ℕ) (new : List (Bytes × Bool)) (ts : List ProxyTransfer)
      → sending a (
          if is_proxy i sender new
          then ts ++ (record { amount = amount; receiver = receiver; sender = sender } ∷ [])
          else ts)
        ≡ sending a ts + (if bytes_eq sender a && p then amount else 0)
  sent_if receiver sender amount new ts =
      let one : List ProxyTransfer =
        record { amount = amount; receiver = receiver; sender = sender } ∷ [] in
      elim (Bool-cases (bytes_eq sender a)) [
        | inl same ↦
            ground
              (arith, same, is_proxy-known i a len p known sender new same, sending-append a ts one)
        | inr other ↦ ground (arith, other, sending-append a ts one)
      ]

  transfer-ScanTally :
      (receiver sender : Bytes) (amount : ℕ) (sc : Scan)
      → ScanTally sc
      → ScanTally (record sc {
        events =
            sc.events ++ (transfer_event TransferType.proxy_withdrawal sender receiver amount ∷ []);
        proxy_transfers =
            if is_proxy i sender sc.new_accounts
            then sc.proxy_transfers
              ++ (record {
                amount = amount;
                receiver = if is_tracked i receiver sc.new_accounts then receiver else [];
                sender = sender;
              }
                  ∷ [])
            else sc.proxy_transfers;
      })
  transfer-ScanTally receiver sender amount sc t =
      let one = transfer_event TransferType.proxy_withdrawal sender receiver amount ∷ [] in
      record {
        deposits_eq =
            ground (arith, t.deposits_eq, received-append is_proxy_deposit a sc.events one);
        sending_eq =
            let all = sent-append is_proxy_withdrawal a sc.events one in
            let to = if is_tracked i receiver sc.new_accounts then receiver else [] in
            let get = sent_if to sender amount sc.new_accounts sc.proxy_transfers in
            ground (arith, t.sending_eq, all, get);
        map = t.map;
        quiet = (
          omega (arith, t.quiet.0, received-append is_deposit a sc.events one),
          omega (arith, t.quiet.1, sent-append is_withdrawal a sc.events one),
        );
      }

  module _ (c : Cadence) (curve : Curve) (payer : Bytes) where
    account_created-ScanTally :
        (evt : ChainEvent) (sc : Scan) {sc' : Scan}
        → ScanTally sc
        → account_created i c curve payer evt sc ≡ ok sc'
        → ScanTally sc'
    unfolding account_created
    account_created-ScanTally evt sc t e =
        let (event, e1, r1) = >>=-eq-ok (load_event c 1 evt.payload) _ e in
        let (addr, e2, r2) = >>=-eq-ok (address_field c event c.address_parameter) _ r1 in
        rw (← ok_inj r2) (
          account-ScanTally (find_or false addr i.originators || is_tracked i payer sc.new_accounts)
            addr sc t)

    proxy_created_by-ScanTally :
        (event : c.Event) (sc : Scan) {sc' : Scan}
        → ScanTally sc
        → proxy_created_by i c curve payer event sc ≡ ok sc'
        → ScanTally sc'
    unfolding proxy_created_by
    proxy_created_by-ScanTally event sc t e =
        let (u1, e1, r1) = >>=-eq-ok (require (not (length sc.account_keys == 0))) _ e in
        let (u2, e2, r2) = >>=-eq-ok (require (c.field_count event == 2)) _ r1 in
        let (addr, e3, r3) = >>=-eq-ok (address_field c event "account") _ r2 in
        let (known_key, e4, r4) = >>=-eq-ok (or_err (find addr sc.account_keys) retry) _ r3 in
        let (public_key, e5, r5) = >>=-eq-ok (string_field c event c.public_key_parameter) _ r4 in
        let (decoded, e6, r6) = >>=-eq-ok (or_err (hex_decode public_key) retry) _ r5 in
        let (compressed, e7, r7) =
          >>=-eq-ok (or_err (convert_flow_public_key curve decoded) retry) _ r6 in
        rw (← ok_inj r7) (record {
          deposits_eq = t.deposits_eq;
          sending_eq = t.sending_eq;
          map = t.map;
          quiet = t.quiet;
        })

    proxy_created-ScanTally :
        (evt : ChainEvent) (sc : Scan) {sc' : Scan}
        → ScanTally sc
        → proxy_created i c curve payer evt sc ≡ ok sc'
        → ScanTally sc'
    unfolding proxy_created
    proxy_created-ScanTally evt sc t e =
        let (event, e1, r1) = >>=-eq-ok (or_err (decode_event c evt.payload) retry) _ e in
        by_branch (is_tracked i payer sc.new_accounts) r1
          (λ r. proxy_created_by-ScanTally event sc t r) (λ r. rw (← ok_inj r) t)

    proxy_deposited-ScanTally :
        (evt : ChainEvent) (sc : Scan) {sc' : Scan}
        → ScanTally sc
        → proxy_deposited i c curve payer evt sc ≡ ok sc'
        → ScanTally sc'
    unfolding proxy_deposited
    proxy_deposited-ScanTally evt sc t e =
        let (event, e1, r1) = >>=-eq-ok (load_event c 2 evt.payload) _ e in
        let (addr, e2, r2) = >>=-eq-ok (address_field c event "account") _ r1 in
        let (amount, e3, r3) = >>=-eq-ok (amount_field c event) _ r2 in
        rw (← ok_inj r3) (deposit-ScanTally addr amount sc t)

    proxy_transferred-ScanTally :
        (evt : ChainEvent) (sc : Scan) {sc' : Scan}
        → ScanTally sc
        → proxy_transferred i c curve payer evt sc ≡ ok sc'
        → ScanTally sc'
    unfolding proxy_transferred
    proxy_transferred-ScanTally evt sc t e =
        let (event, e1, r1) = >>=-eq-ok (load_event c 3 evt.payload) _ e in
        let (receiver, e2, r2) = >>=-eq-ok (address_field c event "to") _ r1 in
        let (from_value, e3, r3) = >>=-eq-ok (optional_field c event "from") _ r2 in
        let (sender, e4, r4) = >>=-eq-ok (sender_of i c curve payer from_value) _ r3 in
        let (amount, e5, r5) = >>=-eq-ok (amount_field c event) _ r4 in
        rw (← ok_inj r5) (transfer-ScanTally receiver sender amount sc t)

    scan_event-ScanTally :
        (evt : ChainEvent) (sc : Scan) {sc' : Scan}
        → ScanTally sc
        → scan_event i c curve payer evt sc ≡ ok sc'
        → ScanTally sc'
    unfolding scan_event
    scan_event-ScanTally evt sc t e =
        by_branch (same_text evt.typ "flow.AccountCreated") e
          (λ r. account_created-ScanTally evt sc t r)
          (λ e2.
            by_branch (same_text evt.typ i.typ_proxy_created) e2
              (λ r. proxy_created-ScanTally evt sc t r)
              (λ e3.
                by_branch (same_text evt.typ i.typ_proxy_deposited) e3
                  (λ r. proxy_deposited-ScanTally evt sc t r)
                  (λ e4.
                    by_branch (same_text evt.typ i.typ_proxy_transferred) e4
                      (λ r. proxy_transferred-ScanTally evt sc t r) (λ r. rw (← ok_inj r) t))))

    pub scan_events-ScanTally :
        (evts : List ChainEvent) (sc : Scan) {sc' : Scan}
        → ScanTally sc
        → scan_events i c curve payer evts sc ≡ ok sc'
        → ScanTally sc'
    unfolding scan_events
    scan_events-ScanTally [] sc t e = rw (← ok_inj e) t
    scan_events-ScanTally (evt ∷ evts) sc t e =
        let (sc1, e1, r1) = >>=-eq-ok (scan_event i c curve payer evt sc) _ e in
        scan_events-ScanTally evts sc1 (scan_event-ScanTally evt sc t e1) r1
