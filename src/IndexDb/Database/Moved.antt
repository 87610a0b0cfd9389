-- ===== src/IndexDb/Database/Moved.antt =====
-- An encoding that meets the interface: it accepts a block's meta data, and a block that is empty or
-- has one transaction with one event, a deposit, and otherwise as Plain does.
use rosetta.Shared.{
  ℕ, ◌≡◌, refl, ap, sym, ◌∙◌, Option, none, some, some_inj, List, [], ◌∷◌, ◌++◌, Bytes, length,
  take, drop, ◌>>=◌, >>=-eq-some,
}
use rosetta.Model.{IndexedBlock, IndexedTransaction, TransferEvent, TransferType}
use rosetta.IndexDb.Database.{Codec}
use rosetta.IndexDb.Database.Plain.{
  encode_meta, decode_meta, decode-encode_meta, encode_block, decode_block, decode-encode_block,
  take-append_self, drop-append_self,
}

abbrev deposited_to : Bytes → ℕ → TransferEvent
deposited_to receiver n = record {
  amount = n;
  receiver = receiver;
  sender = [];
  typ = TransferType.deposit;
}

abbrev encode_event : TransferType → Bytes → Bytes → ℕ → Option Bytes
encode_event TransferType.deposit receiver [] n = some (n ∷ length receiver ∷ receiver)
encode_event TransferType.deposit receiver (s ∷ sender) n = none
encode_event TransferType.unspecified receiver sender n = none
encode_event TransferType.withdrawal receiver sender n = none
encode_event TransferType.fee_deposit receiver sender n = none
encode_event TransferType.proxy_deposit receiver sender n = none
encode_event TransferType.proxy_withdrawal receiver sender n = none

abbrev bare : ℕ → IndexedTransaction → IndexedBlock
bare timestamp t = record { timestamp = timestamp; transactions = record t { events = [] } ∷ [] }

abbrev encode_with : ℕ → IndexedTransaction → List TransferEvent → Option Bytes
encode_with timestamp t [] = none
encode_with timestamp t (e ∷ e' ∷ es) = none
encode_with timestamp t (e ∷ []) = encode_event e.typ e.receiver e.sender e.amount >>= λ head.
    encode_block (bare timestamp t) >>= λ body. some (head ++ body)

abbrev pub encode_moved : ℕ → List IndexedTransaction → Option Bytes
encode_moved timestamp [] = some (timestamp ∷ [])
encode_moved timestamp (t ∷ t' ∷ ts) = none
encode_moved timestamp (t ∷ []) = encode_with timestamp t t.events

abbrev restore : TransferEvent → ℕ → List IndexedTransaction → Option IndexedBlock
restore e timestamp [] = none
restore e timestamp (t ∷ t' ∷ ts) = none
restore e timestamp (t ∷ []) =
    some (record { timestamp = timestamp; transactions = record t { events = e ∷ [] } ∷ [] })

abbrev pub decode_moved : Bytes → Option IndexedBlock
decode_moved [] = none
decode_moved (n ∷ []) = some (record { timestamp = n; transactions = [] })
decode_moved (n ∷ l ∷ b) =
    decode_block (drop l b) >>= λ m. restore (deposited_to (take l b) n) m.timestamp m.transactions

decode-encode_event :
    (timestamp : ℕ) (t : IndexedTransaction) (typ : TransferType) (receiver sender : Bytes) (n : ℕ)
    (head body : Bytes)
    → encode_event typ receiver sender n ≡ some head
    → decode_block body ≡ some (bare timestamp t)
    → decode_moved (head ++ body)
      ≡ some (record {
        timestamp = timestamp;
        transactions =
            record t {
              events = record { amount = n; receiver = receiver; sender = sender; typ = typ } ∷ [];
            }
            ∷ [];
      })
decode-encode_event timestamp t TransferType.deposit receiver [] n head body e d =
    rw (← some_inj e, take-append_self receiver body, drop-append_self receiver body, d) refl
decode-encode_event timestamp t TransferType.deposit receiver (s ∷ sender) n head body e d = cc
decode-encode_event timestamp t TransferType.unspecified receiver sender n head body e d = cc
decode-encode_event timestamp t TransferType.withdrawal receiver sender n head body e d = cc
decode-encode_event timestamp t TransferType.fee_deposit receiver sender n head body e d = cc
decode-encode_event timestamp t TransferType.proxy_deposit receiver sender n head body e d = cc
decode-encode_event timestamp t TransferType.proxy_withdrawal receiver sender n head body e d = cc

decode-encode_with :
    (timestamp : ℕ) (t : IndexedTransaction) (es : List TransferEvent) (b : Bytes)
    → encode_with timestamp t es ≡ some b
    → decode_moved b
      ≡ some (record { timestamp = timestamp; transactions = record t { events = es } ∷ [] })
decode-encode_with timestamp t [] b e = cc
decode-encode_with timestamp t (x ∷ y ∷ es) b e = cc
decode-encode_with timestamp t (x ∷ []) b e =
    let (head, e1, r1) = >>=-eq-some (encode_event x.typ x.receiver x.sender x.amount) _ e in
    let (body, e2, r2) = >>=-eq-some (encode_block (bare timestamp t)) _ r1 in
    ap decode_moved (sym (some_inj r2))
    ∙ decode-encode_event timestamp t x.typ x.receiver x.sender x.amount head body e1
        (decode-encode_block (bare timestamp t) body e2)

pub decode-encode_moved :
    (timestamp : ℕ) (ts : List IndexedTransaction) (b : Bytes)
    → encode_moved timestamp ts ≡ some b
    → decode_moved b ≡ some (record { timestamp = timestamp; transactions = ts })
decode-encode_moved timestamp [] b e = ap decode_moved (sym (some_inj e))
decode-encode_moved timestamp (t ∷ t' ∷ ts) b e = cc
decode-encode_moved timestamp (t ∷ []) b e = decode-encode_with timestamp t t.events b e

unfoldable pub moved : Codec
moved = record {
  encode_meta = encode_meta;
  decode_meta = decode_meta;
  encode_block = λ m. encode_moved m.timestamp m.transactions;
  decode_block = decode_moved;
  decode-encode_meta = decode-encode_meta;
  decode-encode_block = λ m b e. decode-encode_moved m.timestamp m.transactions b e;
}
