-- ===== src/State/Events/Bounds/Second.antt =====
-- state/process.go: the second loop collects addresses of 8 bytes and uint64 amounts.
use rosetta.Shared.{
  ℕ, ◌≡◌, Bool, false, not, ◌&&◌, Option, none, some, List, [], ◌∷◌, Bytes, find_or, same_text,
  by_branch,
}
use rosetta.Shared.Results.{ok, >>=-eq-ok, ok_inj, or_err}
use rosetta.State.{Indexer, is_proxy, is_tracked}
use rosetta.State.Cadence.{Cadence}
use rosetta.State.Events.{
  retry, ChainEvent, Moves, load_event, amount_field, optional_field, deposit_to, withdraw_from,
  deposited_at, withdrawn_at, tokens_deposited, tokens_withdrawn, move_event, move_events,
}
use rosetta.State.Events.Bounds.{add_amount-AreAmounts, AreMoves, or_err-ok}

module _ (c : Cadence) where
  module _ (i : Indexer) (new : List (Bytes × Bool)) where
    deposited_at-AreMoves :
        (amount : ℕ) (v : Option c.Value) (mv : Moves) {mv' : Moves}
        → AreMoves mv
        → deposited_at i c new amount v mv ≡ ok mv'
        → AreMoves mv'
    unfolding deposited_at deposit_to
    deposited_at-AreMoves amount none mv t e =
        rw (← ok_inj e) (record { deposits_ok = t.deposits_ok; withdrawals_ok = t.withdrawals_ok })
    deposited_at-AreMoves amount (some v) mv t e =
        let (receiver, e1, r1) = >>=-eq-ok (or_err (c.as_address v) retry) _ e in
        let l = c.length-as_address v receiver (or_err-ok c (c.as_address v) e1) in
        rw (← ok_inj r1) (record {
          deposits_ok =
              add_amount-AreAmounts
                (not (find_or false receiver i.fee_addrs)
                  && (is_tracked i receiver new && not (is_proxy i receiver new)))
                receiver amount mv.deposits l t.deposits_ok;
          withdrawals_ok = t.withdrawals_ok;
        })

    withdrawn_at-AreMoves :
        (amount : ℕ) (v : Option c.Value) (mv : Moves) {mv' : Moves}
        → AreMoves mv
        → withdrawn_at i c new amount v mv ≡ ok mv'
        → AreMoves mv'
    unfolding withdrawn_at withdraw_from
    withdrawn_at-AreMoves amount none mv t e =
        rw (← ok_inj e) (record { deposits_ok = t.deposits_ok; withdrawals_ok = t.withdrawals_ok })
    withdrawn_at-AreMoves amount (some v) mv t e =
        let (sender, e1, r1) = >>=-eq-ok (or_err (c.as_address v) retry) _ e in
        let l = c.length-as_address v sender (or_err-ok c (c.as_address v) e1) in
        rw (← ok_inj r1) (record {
          deposits_ok = t.deposits_ok;
          withdrawals_ok =
              add_amount-AreAmounts (is_tracked i sender new && not (is_proxy i sender new)) sender
                amount mv.withdrawals l t.withdrawals_ok;
        })

    move_event-AreMoves :
        (evt : ChainEvent) (mv : Moves) {mv' : Moves}
        → AreMoves mv
        → move_event i c new evt mv ≡ ok mv'
        → AreMoves mv'
    unfolding move_event tokens_deposited tokens_withdrawn
    move_event-AreMoves evt mv t e =
        by_branch (same_text evt.typ i.typ_tokens_deposited) e
          (λ r.
            let (event, e1, r1) = >>=-eq-ok (load_event c 2 evt.payload) _ r in
            let (amount, e2, r2) = >>=-eq-ok (amount_field c event) _ r1 in
            let (to_value, e3, r3) = >>=-eq-ok (optional_field c event "to") _ r2 in
            deposited_at-AreMoves amount to_value mv t r3)
          (λ e2.
            by_branch (same_text evt.typ i.typ_tokens_withdrawn) e2
              (λ r.
                let (event, e1, r1) = >>=-eq-ok (load_event c 2 evt.payload) _ r in
                let (amount, e3, r2) = >>=-eq-ok (amount_field c event) _ r1 in
                let (from_value, e4, r3) = >>=-eq-ok (optional_field c event "from") _ r2 in
                withdrawn_at-AreMoves amount from_value mv t r3)
              (λ r. rw (← ok_inj r) t))

    pub move_events-AreMoves :
        (evts : List ChainEvent) (mv : Moves) {mv' : Moves}
        → AreMoves mv
        → move_events i c new evts mv ≡ ok mv'
        → AreMoves mv'
    unfolding move_events
    move_events-AreMoves [] mv t e = rw (← ok_inj e) t
    move_events-AreMoves (evt ∷ evts) mv t e =
        let (mv1, e1, r1) = >>=-eq-ok (move_event i c new evt mv) _ e in
        move_events-AreMoves evts mv1 (move_event-AreMoves evt mv t e1) r1
