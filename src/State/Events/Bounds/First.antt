-- ===== src/State/Events/Bounds/First.antt =====
-- state/process.go: the first loop collects addresses of 8 bytes and uint64 amounts.
use rosetta.Shared.{
  ◌≡◌, refl, ap, sym, Bool, true, false, not, ◌||◌, Option, none, some, List, [], ◌∷◌, ◌++◌, Bytes,
  find, find_or, put, ◌==◌, if◌then◌else◌, length, inl, inr, same_text, by_branch,
}
use rosetta.Shared.Results.{ok, >>=-eq-ok, ok_inj, or_err}
use rosetta.Crypto.{Curve, hex_decode, convert_flow_public_key}
use rosetta.IndexDb.Write.Totals.{IsAddress}
use rosetta.State.{Indexer, is_proxy, is_tracked}
use rosetta.State.Cadence.{Cadence, decode_event}
use rosetta.State.Events.{
  retry, ChainEvent, ProxyTransfer, Scan, require, load_event, address_field, amount_field,
  optional_field, string_field, sender_of, account_created, proxy_created_by, proxy_created,
  proxy_deposited, proxy_transferred, scan_event, scan_events,
}
use rosetta.State.Events.Bounds.{
  IsTransfer, AreTransfers, add_amount-AreAmounts, append-AreAddresses, append-AreTransfers, IsScan,
  or_err-ok, length-address_field, amount_field_lt,
}

module _ (c : Cadence) where
  module _ (i : Indexer) (curve : Curve) (payer : Bytes) where
    length-sender_of :
        (v : Option c.Value) {a : Bytes} → sender_of i c curve payer v ≡ ok a → length a ≡ 8
    unfolding sender_of
    length-sender_of none e = ap length (sym (ok_inj e))
    length-sender_of (some v) e = c.length-as_address v _ (or_err-ok c (c.as_address v) e)

    account-IsScan :
        (created : Bool) (addr : Bytes) (sc : Scan)
        → length addr ≡ 8
        → IsScan sc
        → IsScan (
            if created
            then record sc {
              account_keys = put addr [] sc.account_keys;
              addrs = sc.addrs ++ (addr ∷ []);
              new_accounts = put addr false sc.new_accounts;
            }
            else sc)
    account-IsScan true addr sc l v = record {
      addrs_ok = append-AreAddresses sc.addrs addr v.addrs_ok l;
      deposits_ok = v.deposits_ok;
      transfers_ok = v.transfers_ok;
    }
    account-IsScan false addr sc l v = v

    transfers_if :
        (b : Bool) (ts : List ProxyTransfer) (t : ProxyTransfer)
        → AreTransfers ts
        → IsTransfer t
        → AreTransfers (if b then ts ++ (t ∷ []) else ts)
    transfers_if true ts t v w = append-AreTransfers ts t v w
    transfers_if false ts t v w = v

    receiver_if : (b : Bool) (a : Bytes) → length a ≡ 8 → IsAddress (if b then a else [])
    receiver_if true a l = inr l
    receiver_if false a l = inl refl

    account_created-IsScan :
        (evt : ChainEvent) (sc : Scan) {sc' : Scan}
        → IsScan sc
        → account_created i c curve payer evt sc ≡ ok sc'
        → IsScan sc'
    unfolding account_created
    account_created-IsScan evt sc v e =
        let (event, e1, r1) = >>=-eq-ok (load_event c 1 evt.payload) _ e in
        let (addr, e2, r2) = >>=-eq-ok (address_field c event c.address_parameter) _ r1 in
        let l = length-address_field c event c.address_parameter e2 in
        rw (← ok_inj r2) (
          account-IsScan (find_or false addr i.originators || is_tracked i payer sc.new_accounts)
            addr sc l v)

    proxy_created_by-IsScan :
        (event : c.Event) (sc : Scan) {sc' : Scan}
        → IsScan sc
        → proxy_created_by i c curve payer event sc ≡ ok sc'
        → IsScan sc'
    unfolding proxy_created_by
    proxy_created_by-IsScan event sc v e =
        let (u1, e1, r1) = >>=-eq-ok (require (not (length sc.account_keys == 0))) _ e in
        let (u2, e2, r2) = >>=-eq-ok (require (c.field_count event == 2)) _ r1 in
        let (addr, e3, r3) = >>=-eq-ok (address_field c event "account") _ r2 in
        let (known_key, e4, r4) = >>=-eq-ok (or_err (find addr sc.account_keys) retry) _ r3 in
        let (public_key, e5, r5) = >>=-eq-ok (string_field c event c.public_key_parameter) _ r4 in
        let (decoded, e6, r6) = >>=-eq-ok (or_err (hex_decode public_key) retry) _ r5 in
        let (compressed, e7, r7) =
          >>=-eq-ok (or_err (convert_flow_public_key curve decoded) retry) _ r6 in
        rw (← ok_inj r7) (record {
          addrs_ok = v.addrs_ok;
          deposits_ok = v.deposits_ok;
          transfers_ok = v.transfers_ok;
        })

    proxy_created-IsScan :
        (evt : ChainEvent) (sc : Scan) {sc' : Scan}
        → IsScan sc
        → proxy_created i c curve payer evt sc ≡ ok sc'
        → IsScan sc'
    unfolding proxy_created
    proxy_created-IsScan evt sc v e =
        let (event, e1, r1) = >>=-eq-ok (or_err (decode_event c evt.payload) retry) _ e in
        by_branch (is_tracked i payer sc.new_accounts) r1
          (λ r. proxy_created_by-IsScan event sc v r) (λ r. rw (← ok_inj r) v)

    proxy_deposited-IsScan :
        (evt : ChainEvent) (sc : Scan) {sc' : Scan}
        → IsScan sc
        → proxy_deposited i c curve payer evt sc ≡ ok sc'
        → IsScan sc'
    unfolding proxy_deposited
    proxy_deposited-IsScan evt sc v e =
        let (event, e1, r1) = >>=-eq-ok (load_event c 2 evt.payload) _ e in
        let (addr, e2, r2) = >>=-eq-ok (address_field c event "account") _ r1 in
        let (amount, e3, r3) = >>=-eq-ok (amount_field c event) _ r2 in
        let l = length-address_field c event "account" e2 in
        rw (← ok_inj r3) (record {
          addrs_ok = v.addrs_ok;
          deposits_ok =
              add_amount-AreAmounts (is_proxy i addr sc.new_accounts) addr amount sc.proxy_deposits
                l v.deposits_ok;
          transfers_ok = v.transfers_ok;
        })

    proxy_transferred-IsScan :
        (evt : ChainEvent) (sc : Scan) {sc' : Scan}
        → IsScan sc
        → proxy_transferred i c curve payer evt sc ≡ ok sc'
        → IsScan sc'
    unfolding proxy_transferred
    proxy_transferred-IsScan evt sc v e =
        let (event, e1, r1) = >>=-eq-ok (load_event c 3 evt.payload) _ e in
        let (receiver, e2, r2) = >>=-eq-ok (address_field c event "to") _ r1 in
        let (from_value, e3, r3) = >>=-eq-ok (optional_field c event "from") _ r2 in
        let (sender, e4, r4) = >>=-eq-ok (sender_of i c curve payer from_value) _ r3 in
        let (amount, e5, r5) = >>=-eq-ok (amount_field c event) _ r4 in
        rw (← ok_inj r5) (record {
          addrs_ok = v.addrs_ok;
          deposits_ok = v.deposits_ok;
          transfers_ok =
              transfers_if (is_proxy i sender sc.new_accounts) sc.proxy_transfers _ v.transfers_ok
                (record {
                  amount_lt = amount_field_lt c event e5;
                  receiver_ok =
                      receiver_if (is_tracked i receiver sc.new_accounts) receiver
                        (length-address_field c event "to" e2);
                  sender_ok = length-sender_of from_value e4;
                });
        })

    pub scan_events-IsScan :
        (evts : List ChainEvent) (sc : Scan) {sc' : Scan}
        → IsScan sc
        → scan_events i c curve payer evts sc ≡ ok sc'
        → IsScan sc'
    unfolding scan_events scan_event
    scan_events-IsScan [] sc v e = rw (← ok_inj e) v
    scan_events-IsScan (evt ∷ evts) sc v e =
        let (sc1, e1, r1) = >>=-eq-ok (scan_event i c curve payer evt sc) _ e in
        let next : IsScan sc1 =
          by_branch (same_text evt.typ "flow.AccountCreated") e1
            (λ r. account_created-IsScan evt sc v r)
            (λ e2.
              by_branch (same_text evt.typ i.typ_proxy_created) e2
                (λ r. proxy_created-IsScan evt sc v r)
                (λ e3.
                  by_branch (same_text evt.typ i.typ_proxy_deposited) e3
                    (λ r. proxy_deposited-IsScan evt sc v r)
                    (λ e4.
                      by_branch (same_text evt.typ i.typ_proxy_transferred) e4
                        (λ r. proxy_transferred-IsScan evt sc v r) (λ r. rw (← ok_inj r) v)))) in
        scan_events-IsScan evts sc1 next r1
