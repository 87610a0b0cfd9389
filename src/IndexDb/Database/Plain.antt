-- ===== src/IndexDb/Database/Plain.antt =====
-- An encoding that meets the interface: it accepts a block's meta data, and a block of at most one
-- transaction, which makes one transfer.
use rosetta.Shared.{
  ℕ, ◌≡◌, refl, ap, sym, ◌∙◌, Bool, true, false, Option, none, some, some_inj, List, [], ◌∷◌, ◌++◌,
  Bytes, length, take, drop, ◌>>=◌, Option-cases, inl, inr,
}
use rosetta.Model.{
  BlockMeta, IndexedBlock, IndexedTransaction, Operation, OperationType, TransferEvent,
}
use rosetta.IndexDb.Database.{Codec}
use Prim.Native.String.{String}
use text.Mathlib.TextEquality.{eq_iff}
use text.Mathlib.Text.{◌==◌}

abbrev pub encode_meta : BlockMeta → Option Bytes
encode_meta m = some (m.height ∷ m.timestamp ∷ length m.hash ∷ m.hash ++ m.parent)

abbrev pub decode_meta : Bytes → Option BlockMeta
decode_meta [] = none
decode_meta (h ∷ []) = none
decode_meta (h ∷ t ∷ []) = none
decode_meta (h ∷ t ∷ n ∷ rest) =
    some (record { hash = take n rest; height = h; parent = drop n rest; timestamp = t })

pub take-append_self {ℓ} : {A : Type ℓ} (xs ys : List A) → take (length xs) (xs ++ ys) ≡ xs
take-append_self [] ys = refl
take-append_self (x ∷ xs) ys = ap (λ l. x ∷ l) (take-append_self xs ys)

pub drop-append_self {ℓ} : {A : Type ℓ} (xs ys : List A) → drop (length xs) (xs ++ ys) ≡ ys
drop-append_self [] ys = refl
drop-append_self (x ∷ xs) ys = drop-append_self xs ys

pub decode-encode_meta :
    (m : BlockMeta) (b : Bytes) → encode_meta m ≡ some b → decode_meta b ≡ some m
decode-encode_meta m b e =
    rw (← some_inj e, take-append_self m.hash m.parent, drop-append_self m.hash m.parent) refl

abbrev pub encode_op : OperationType → Bytes → Bytes → Bytes → ℕ → Option Bytes
encode_op OperationType.transfer [] acct recv n = some (n ∷ length acct ∷ acct ++ recv)
encode_op OperationType.transfer (k ∷ ks) acct recv n = none
encode_op OperationType.fee key acct recv n = none
encode_op OperationType.proxy_transfer key acct recv n = none
encode_op OperationType.create_account key acct recv n = none
encode_op OperationType.unspecified key acct recv n = none

abbrev pub transfer_of : Bytes → Bytes → ℕ → Operation
transfer_of acct recv n = record {
  account = acct;
  amount = n;
  proxy_public_key = [];
  receiver = recv;
  typ = OperationType.transfer;
}

abbrev pub single : Operation → IndexedTransaction
single op = record {
  error_message = "";
  events = [];
  failed = false;
  hash = [];
  operations = op ∷ [];
}

abbrev pub encode_txn : Bool → List TransferEvent → Bool → Bytes → List Operation → Option Bytes
encode_txn true [] false [] (op ∷ []) =
    encode_op op.typ op.proxy_public_key op.account op.receiver op.amount
encode_txn true [] false [] (op ∷ op' ∷ ops) = none
encode_txn true [] false [] [] = none
encode_txn true [] false (h ∷ hash) ops = none
encode_txn true [] true hash ops = none
encode_txn true (ev ∷ evs) failed hash ops = none
encode_txn false evs failed hash ops = none

abbrev pub encode_txns : List IndexedTransaction → Option Bytes
encode_txns [] = some []
encode_txns (t ∷ []) = encode_txn (t.error_message == "") t.events t.failed t.hash t.operations
encode_txns (t ∷ t' ∷ ts) = none

abbrev pub decode_txns : Bytes → Option (List IndexedTransaction)
decode_txns [] = some []
decode_txns (n ∷ []) = none
decode_txns (n ∷ l ∷ rest) = some (single (transfer_of (take l rest) (drop l rest) n) ∷ [])

decode-encode_op :
    (typ : OperationType) (key acct recv : Bytes) (n : ℕ) (b : Bytes)
    → encode_op typ key acct recv n ≡ some b
    → decode_txns b
      ≡ some (
          single (record {
            account = acct;
            amount = n;
            proxy_public_key = key;
            receiver = recv;
            typ = typ;
          })
          ∷ [])
decode-encode_op OperationType.transfer [] acct recv n b e =
    rw (← some_inj e, take-append_self acct recv, drop-append_self acct recv) refl
decode-encode_op OperationType.transfer (k ∷ ks) acct recv n b e = cc
decode-encode_op OperationType.fee key acct recv n b e = cc
decode-encode_op OperationType.proxy_transfer key acct recv n b e = cc
decode-encode_op OperationType.create_account key acct recv n b e = cc
decode-encode_op OperationType.unspecified key acct recv n b e = cc

decode-encode_txn :
    (msg : String) (no_msg : Bool) (evs : List TransferEvent) (failed : Bool) (hash : Bytes)
    (ops : List Operation) (b : Bytes)
    → (msg == "") ≡ no_msg
    → encode_txn no_msg evs failed hash ops ≡ some b
    → decode_txns b
      ≡ some (
          record {
            error_message = msg;
            events = evs;
            failed = failed;
            hash = hash;
            operations = ops;
          }
          ∷ [])
decode-encode_txn msg true [] false [] (op ∷ []) b m e =
    rw ((eq_iff msg "").0 m)
      (decode-encode_op op.typ op.proxy_public_key op.account op.receiver op.amount b e)
decode-encode_txn msg true [] false [] (op ∷ op' ∷ ops) b m e = cc
decode-encode_txn msg true [] false [] [] b m e = cc
decode-encode_txn msg true [] false (h ∷ hash) ops b m e = cc
decode-encode_txn msg true [] true hash ops b m e = cc
decode-encode_txn msg true (ev ∷ evs) failed hash ops b m e = cc
decode-encode_txn msg false evs failed hash ops b m e = cc

decode-encode_txns :
    (ts : List IndexedTransaction) (b : Bytes) → encode_txns ts ≡ some b → decode_txns b ≡ some ts
decode-encode_txns [] b e = rw (← some_inj e) refl
decode-encode_txns (t ∷ []) b e =
    decode-encode_txn t.error_message _ t.events t.failed t.hash t.operations b refl e
decode-encode_txns (t ∷ t' ∷ ts) b e = cc

abbrev pub encode_block : IndexedBlock → Option Bytes
encode_block m = encode_txns m.transactions >>= λ b. some (m.timestamp ∷ b)

abbrev pub decode_block : Bytes → Option IndexedBlock
decode_block [] = none
decode_block (t ∷ b) = decode_txns b >>= λ ts. some (record { timestamp = t; transactions = ts })

pub decode-encode_block :
    (m : IndexedBlock) (b : Bytes) → encode_block m ≡ some b → decode_block b ≡ some m
decode-encode_block m b e = elim (Option-cases (encode_txns m.transactions)) [
  | inl bad ↦ let clash = sym (ap (λ o. o >>= λ x. some (m.timestamp ∷ x)) bad) ∙ e in cc
  | inr (x, good) ↦
      let same = some_inj (sym (ap (λ o. o >>= λ y. some (m.timestamp ∷ y)) good) ∙ e) in
      rw (← same, decode-encode_txns m.transactions x good) refl
]

abbrev pub plain : Codec
plain = record {
  encode_meta = encode_meta;
  decode_meta = decode_meta;
  encode_block = encode_block;
  decode_block = decode_block;
  decode-encode_meta = decode-encode_meta;
  decode-encode_block = decode-encode_block;
}
