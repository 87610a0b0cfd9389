-- ===== src/State/Events/Tallies/Second.antt =====
-- state/process.go: what the second loop collects for an account that is tracked already, against the
-- transfer events that it lists.
use rosetta.Shared.{
  ℕ, ◌+◌, ◌%◌, ◌^◌, ◌≡◌, ap, Bool, true, false, not, ◌&&◌, Option, none, some, List, [], ◌∷◌, ◌++◌,
  Bytes, bytes_eq, bytes_eq_iff, find, find_or, IsMap, if◌then◌else◌, length, arith, Bool-cases,
  inl, inr, ◌⊎◌, same_text, by_branch,
}
use rosetta.Shared.Results.{ok, >>=-eq-ok, ok_inj, or_err}
use rosetta.Model.{TransferType}
use rosetta.State.{Indexer, is_proxy, is_tracked}
use rosetta.State.Cadence.{Cadence}
use rosetta.State.Events.{
  retry, ChainEvent, Moves, add_amount, transfer_event, load_event, amount_field, optional_field,
  deposit_to, withdraw_from, deposited_at, withdrawn_at, tokens_deposited, tokens_withdrawn,
  move_event, move_events,
}
use rosetta.State.Operations.Merge.{no_account}
use rosetta.State.Events.Tallies.{
  is_deposit, is_withdrawal, is_proxy_deposit, is_proxy_withdrawal, received, sent, received-append,
  sent-append, find_or-add_amount, is_proxy-known, is_tracked-known, add_if-IsMap,
}

module _ (i : Indexer) (a : Bytes) (len : length a ≡ 8) (p : Bool)
    (known : find a i.accts ≡ some p) where
  -- The second loop, on the maps of the first. A fee address that is no proxy account would not count
  -- as an account of ours.
  module _ (no_fee : (p ≡ true) ⊎ (find_or false a i.fee_addrs ≡ false))
      (proxy_gets proxy_sends : ℕ) where
    pub record MoveTally (mv : Moves) : Type 0 where
      pub deposits_eq :
          find_or 0 a mv.deposits ≡ (if p then 0 else received is_deposit a mv.events) % 2 ^ 64
      pub withdrawals_eq :
          find_or 0 a mv.withdrawals ≡ (if p then 0 else sent is_withdrawal a mv.events) % 2 ^ 64
      pub maps : IsMap mv.deposits × IsMap mv.withdrawals
      pub proxy :
          (received is_proxy_deposit a mv.events ≡ proxy_gets)
          × (sent is_proxy_withdrawal a mv.events ≡ proxy_sends)

    deposited :
        (addr : Bytes) (amount : ℕ) (new : List (Bytes × Bool)) (m : List (Bytes × ℕ))
        → find_or 0 a (
            if not (find_or false addr i.fee_addrs)
              && (is_tracked i addr new && not (is_proxy i addr new))
            then add_amount addr amount m
            else m)
          ≡ (if bytes_eq addr a && not p then (find_or 0 a m + amount) % 2 ^ 64 else find_or 0 a m)
    deposited addr amount new m = elim (Bool-cases (bytes_eq addr a)) [
      | inl same ↦
          let fee : find_or false addr i.fee_addrs ≡ find_or false a i.fee_addrs =
            ap (λ (y : Bytes). find_or false y i.fee_addrs) ((bytes_eq_iff addr a).0 same) in
          ground (
            arith,
            same,
            fee,
            no_fee,
            is_proxy-known i a len p known addr new same,
            is_tracked-known i a len p known addr new same,
            find_or-add_amount a addr amount m,
          )
      | inr other ↦ ground (arith, other, find_or-add_amount a addr amount m)
    ]

    withdrawn :
        (addr : Bytes) (amount : ℕ) (new : List (Bytes × Bool)) (m : List (Bytes × ℕ))
        → find_or 0 a (
            if is_tracked i addr new && not (is_proxy i addr new)
            then add_amount addr amount m
            else m)
          ≡ (if bytes_eq addr a && not p then (find_or 0 a m + amount) % 2 ^ 64 else find_or 0 a m)
    withdrawn addr amount new m = elim (Bool-cases (bytes_eq addr a)) [
      | inl same ↦ ground (
        arith,
        same,
        is_proxy-known i a len p known addr new same,
        is_tracked-known i a len p known addr new same,
        find_or-add_amount a addr amount m,
      )
      | inr other ↦ ground (arith, other, find_or-add_amount a addr amount m)
    ]

    module _ (c : Cadence) (new : List (Bytes × Bool)) where
      deposit_to-MoveTally :
          (addr : Bytes) (amount : ℕ) (mv : Moves)
          → MoveTally mv
          → MoveTally (deposit_to i c new addr amount mv)
      unfolding deposit_to
      deposit_to-MoveTally addr amount mv t =
          let one = transfer_event TransferType.deposit [] addr amount ∷ [] in
          record {
            deposits_eq =
                let get = deposited addr amount new mv.deposits in
                let all = received-append is_deposit a mv.events one in
                ground (arith, t.deposits_eq, get, all);
            withdrawals_eq =
                ground (arith, t.withdrawals_eq, sent-append is_withdrawal a mv.events one);
            maps = (
              add_if-IsMap
                  (not (find_or false addr i.fee_addrs)
                    && (is_tracked i addr new && not (is_proxy i addr new)))
                  addr amount mv.deposits t.maps.0,
              t.maps.1,
            );
            proxy = (
              omega (arith, t.proxy.0, received-append is_proxy_deposit a mv.events one),
              omega (arith, t.proxy.1, sent-append is_proxy_withdrawal a mv.events one),
            );
          }

      withdraw_from-MoveTally :
          (addr : Bytes) (amount : ℕ) (mv : Moves)
          → MoveTally mv
          → MoveTally (withdraw_from i c new addr amount mv)
      unfolding withdraw_from
      withdraw_from-MoveTally addr amount mv t =
          let one = transfer_event TransferType.withdrawal addr [] amount ∷ [] in
          record {
            deposits_eq = ground (arith, t.deposits_eq, received-append is_deposit a mv.events one);
            withdrawals_eq =
                let get = withdrawn addr amount new mv.withdrawals in
                let all = sent-append is_withdrawal a mv.events one in
                ground (arith, t.withdrawals_eq, get, all);
            maps = (
              t.maps.0,
              add_if-IsMap (is_tracked i addr new && not (is_proxy i addr new)) addr amount
                  mv.withdrawals t.maps.1,
            );
            proxy = (
              omega (arith, t.proxy.0, received-append is_proxy_deposit a mv.events one),
              omega (arith, t.proxy.1, sent-append is_proxy_withdrawal a mv.events one),
            );
          }

      -- An event whose account is nil.
      nowhere-MoveTally :
          (typ : TransferType) (amount : ℕ) (mv : Moves)
          → MoveTally mv
          → MoveTally (record mv { events = mv.events ++ (transfer_event typ [] [] amount ∷ []) })
      nowhere-MoveTally typ amount mv t =
          let one = transfer_event typ [] [] amount ∷ [] in
          let empty = no_account a len in
          record {
            deposits_eq =
                ground (arith, t.deposits_eq, empty, received-append is_deposit a mv.events one);
            withdrawals_eq =
                ground (arith, t.withdrawals_eq, empty, sent-append is_withdrawal a mv.events one);
            maps = t.maps;
            proxy = (
              ground (arith, t.proxy.0, empty, received-append is_proxy_deposit a mv.events one),
              ground (arith, t.proxy.1, empty, sent-append is_proxy_withdrawal a mv.events one),
            );
          }

      deposited_at-MoveTally :
          (amount : ℕ) (v : Option c.Value) (mv : Moves) {mv' : Moves}
          → MoveTally mv
          → deposited_at i c new amount v mv ≡ ok mv'
          → MoveTally mv'
      unfolding deposited_at
      deposited_at-MoveTally amount none mv t e =
          rw (← ok_inj e) (nowhere-MoveTally TransferType.deposit amount mv t)
      deposited_at-MoveTally amount (some v) mv t e =
          let (receiver, e1, r1) = >>=-eq-ok (or_err (c.as_address v) retry) _ e in
          rw (← ok_inj r1) (deposit_to-MoveTally receiver amount mv t)

      withdrawn_at-MoveTally :
          (amount : ℕ) (v : Option c.Value) (mv : Moves) {mv' : Moves}
          → MoveTally mv
          → withdrawn_at i c new amount v mv ≡ ok mv'
          → MoveTally mv'
      unfolding withdrawn_at
      withdrawn_at-MoveTally amount none mv t e =
          rw (← ok_inj e) (nowhere-MoveTally TransferType.withdrawal amount mv t)
      withdrawn_at-MoveTally amount (some v) mv t e =
          let (sender, e1, r1) = >>=-eq-ok (or_err (c.as_address v) retry) _ e in
          rw (← ok_inj r1) (withdraw_from-MoveTally sender amount mv t)

      tokens_deposited-MoveTally :
          (evt : ChainEvent) (mv : Moves) {mv' : Moves}
          → MoveTally mv
          → tokens_deposited i c new evt mv ≡ ok mv'
          → MoveTally mv'
      unfolding tokens_deposited
      tokens_deposited-MoveTally evt mv t e =
          let (event, e1, r1) = >>=-eq-ok (load_event c 2 evt.payload) _ e in
          let (amount, e2, r2) = >>=-eq-ok (amount_field c event) _ r1 in
          let (to_value, e3, r3) = >>=-eq-ok (optional_field c event "to") _ r2 in
          deposited_at-MoveTally amount to_value mv t r3

      tokens_withdrawn-MoveTally :
          (evt : ChainEvent) (mv : Moves) {mv' : Moves}
          → MoveTally mv
          → tokens_withdrawn i c new evt mv ≡ ok mv'
          → MoveTally mv'
      unfolding tokens_withdrawn
      tokens_withdrawn-MoveTally evt mv t e =
          let (event, e1, r1) = >>=-eq-ok (load_event c 2 evt.payload) _ e in
          let (amount, e2, r2) = >>=-eq-ok (amount_field c event) _ r1 in
          let (from_value, e3, r3) = >>=-eq-ok (optional_field c event "from") _ r2 in
          withdrawn_at-MoveTally amount from_value mv t r3

      pub move_events-MoveTally :
          (evts : List ChainEvent) (mv : Moves) {mv' : Moves}
          → MoveTally mv
          → move_events i c new evts mv ≡ ok mv'
          → MoveTally mv'
      unfolding move_events move_event
      move_events-MoveTally [] mv t e = rw (← ok_inj e) t
      move_events-MoveTally (evt ∷ evts) mv t e =
          let (mv1, e1, r1) = >>=-eq-ok (move_event i c new evt mv) _ e in
          let next : MoveTally mv1 =
            by_branch (same_text evt.typ i.typ_tokens_deposited) e1
              (λ r. tokens_deposited-MoveTally evt mv t r)
              (λ e2.
                by_branch (same_text evt.typ i.typ_tokens_withdrawn) e2
                  (λ r. tokens_withdrawn-MoveTally evt mv t r) (λ r. rw (← ok_inj r) t)) in
          move_events-MoveTally evts mv1 next r1
