-- ===== src/IndexDb/Write/Totals.antt =====
-- indexdb/indexdb.go: what `Index` collects from a block's operations, against each account's sums.
use rosetta.Shared.{
  find, ℕ, ◌+◌, ◌%◌, ◌^◌, ◌<◌, ◌≡◌, refl, ap, Bool, true, false, none, some, List, [], ◌∷◌, Bytes,
  bytes_eq, bytes_eq_iff, arith, if◌then◌else◌, ◌&&◌, length, Bool-cases, ◌⊎◌, inl, inr,
}
use rosetta.Model.{IndexedTransaction, Operation, OperationType}
use rosetta.IndexDb.Write.{Diffs, update, present, add64, sub64}

-- Whether an operation moves an amount.
abbrev pub moves : OperationType → Bool
moves OperationType.fee = true
moves OperationType.transfer = true
moves OperationType.proxy_transfer = true
moves OperationType.create_account = false
moves OperationType.unspecified = false

abbrev pub creates : OperationType → Bool
creates OperationType.create_account = true
creates OperationType.fee = false
creates OperationType.transfer = false
creates OperationType.proxy_transfer = false
creates OperationType.unspecified = false

module _ (a : Bytes) where
  abbrev pub op_debit : Operation → ℕ
  op_debit op = if moves op.typ && bytes_eq op.account a then op.amount else 0

  abbrev pub op_credit : Operation → ℕ
  op_credit op = if moves op.typ && bytes_eq op.receiver a then op.amount else 0

  abbrev pub ops_debit : List Operation → ℕ
  ops_debit [] = 0
  ops_debit (op ∷ ops) = op_debit op + ops_debit ops

  abbrev pub ops_credit : List Operation → ℕ
  ops_credit [] = 0
  ops_credit (op ∷ ops) = op_credit op + ops_credit ops

  -- What a block's transactions take from an account, and give to it.
  abbrev pub debits : List IndexedTransaction → ℕ
  debits [] = 0
  debits (txn ∷ txns) = ops_debit txn.operations + debits txns

  abbrev pub credits : List IndexedTransaction → ℕ
  credits [] = 0
  credits (txn ∷ txns) = ops_credit txn.operations + credits txns

-- An address has 8 bytes, or is left out; an amount is a uint64.
abbrev pub IsAddress : Bytes → Type 0
IsAddress a = (a ≡ []) ⊎ (length a ≡ 8)

pub record IsOp (op : Operation) : Type 0 where
  pub amount_lt : op.amount < 2 ^ 64
  pub account_ok : IsAddress op.account
  pub receiver_ok : IsAddress op.receiver
  pub created_ok : op.typ ≡ OperationType.create_account → length op.account ≡ 8

abbrev pub AreOps : List Operation → Type 0
AreOps [] = Unit {0}
AreOps (op ∷ ops) = IsOp op × AreOps ops

abbrev pub AreTxns : List IndexedTransaction → Type 0
AreTxns [] = Unit {0}
AreTxns (txn ∷ txns) = AreOps txn.operations × AreTxns txns

unfoldable pub value : Bytes → Diffs → ℕ
value a m = elim (find a m) [ none ↦ 0 | some v ↦ v ]

pub find-update :
    (f : ℕ → ℕ) (k j : Bytes) (m : Diffs)
    → find j (update f k m) ≡ (if bytes_eq k j then some (f (value k m)) else find j m)
unfolding update value
find-update f k j [] = refl
find-update f k j ((i, v) ∷ m) = ground (
  arith,
  bytes_eq_iff i k,
  bytes_eq_iff i j,
  bytes_eq_iff k j,
  bytes_eq_iff j j,
  find-update f k j m,
)

-- The entries stand under different names, each of 8 bytes.
abbrev pub IsDiffs : Diffs → Type 0
IsDiffs [] = Unit {0}
IsDiffs ((k, v) ∷ m) = (length k ≡ 8) × (find k m ≡ none) × IsDiffs m

pub update-IsDiffs :
    (f : ℕ → ℕ) (k : Bytes) (m : Diffs) → length k ≡ 8 → IsDiffs m → IsDiffs (update f k m)
unfolding update
update-IsDiffs f k [] l v = (l, refl, tt)
update-IsDiffs f k ((j, w) ∷ m) l (lj, new, rest) = elim (Bool-cases (bytes_eq j k)) [
  | inl same ↦ rw same (lj, new, rest)
  | inr other ↦ rw other (
    lj,
    ground (arith, find-update f k j m, bytes_eq_iff k j, bytes_eq_iff j k),
    update-IsDiffs f k m l rest,
  )
]

-- Pattern `x` stands for credits less debits.
pub record Nets (x deb cred : ℕ) : Type 0 where
  pub small : x < 2 ^ 64
  pub nets : (x + deb) % 2 ^ 64 ≡ cred % 2 ^ 64

pub value-update :
    (f : ℕ → ℕ) (k a : Bytes) (m : Diffs)
    → value a (update f k m) ≡ (if bytes_eq k a then f (value a m) else value a m)
unfolding value
value-update f k a m = ground (arith, find-update f k a m, bytes_eq_iff k a)

present_addr : (a : Bytes) → present a ≡ true → IsAddress a → length a ≡ 8
present_addr [] p (inl e) = cc
present_addr [] p (inr l) = l
present_addr (x ∷ xs) p (inl e) = cc
present_addr (x ∷ xs) p (inr l) = l

pub present_of_eq : (x a : Bytes) → length a ≡ 8 → bytes_eq x a ≡ true → present x ≡ true
present_of_eq [] a l e = absurd (omega (arith, ap length ((bytes_eq_iff [] a).0 e)))
present_of_eq (y ∷ x) a l e = refl

sub-Nets : (x deb cred n : ℕ) → Nets x deb cred → n < 2 ^ 64 → Nets (sub64 x n) (deb + n) cred
sub-Nets x deb cred n h l = record { small = omega arith; nets = omega (arith, h.small, h.nets) }

add-Nets : (x deb cred n : ℕ) → Nets x deb cred → n < 2 ^ 64 → Nets (add64 x n) deb (cred + n)
add-Nets x deb cred n h l = record { small = omega arith; nets = omega (arith, h.small, h.nets) }

-- One side of a transfer.
abbrev pub debited : ℕ → Bytes → Diffs → Diffs
debited n k m = if present k then update (λ v. sub64 v n) k m else m

abbrev pub credited : ℕ → Bytes → Diffs → Diffs
credited n k m = if present k then update (λ v. add64 v n) k m else m

module _ (a : Bytes) (len : length a ≡ 8) (deb cred n : ℕ) (n_lt : n < 2 ^ 64) where
  pub debited-Nets :
      (k : Bytes) (m : Diffs)
      → Nets (value a m) deb cred
      → Nets (value a (debited n k m)) (deb + (if bytes_eq k a then n else 0)) cred
  debited-Nets k m h = elim (Bool-cases (bytes_eq k a)) [
    | inl own ↦
        rw (own, present_of_eq k a len own, value-update (λ v. sub64 v n) k a m, own)
          (sub-Nets (value a m) deb cred n h n_lt)
    | inr other ↦ elim (Bool-cases (present k)) [
      | inl p ↦
          rw (other, p, value-update (λ v. sub64 v n) k a m, other)
            (record { small = h.small; nets = omega (arith, h.nets) })
      | inr p ↦ rw (other, p) (record { small = h.small; nets = omega (arith, h.nets) })
    ]
  ]

  pub credited-Nets :
      (k : Bytes) (m : Diffs)
      → Nets (value a m) deb cred
      → Nets (value a (credited n k m)) deb (cred + (if bytes_eq k a then n else 0))
  credited-Nets k m h = elim (Bool-cases (bytes_eq k a)) [
    | inl own ↦
        rw (own, present_of_eq k a len own, value-update (λ v. add64 v n) k a m, own)
          (add-Nets (value a m) deb cred n h n_lt)
    | inr other ↦ elim (Bool-cases (present k)) [
      | inl p ↦
          rw (other, p, value-update (λ v. add64 v n) k a m, other)
            (record { small = h.small; nets = omega (arith, h.nets) })
      | inr p ↦ rw (other, p) (record { small = h.small; nets = omega (arith, h.nets) })
    ]
  ]

pub if-IsDiffs :
    (f : ℕ → ℕ) (k : Bytes) (m : Diffs)
    → IsAddress k
    → IsDiffs m
    → IsDiffs (if present k then update f k m else m)
if-IsDiffs f k m addr v = elim (Bool-cases (present k)) [
  | inl p ↦ rw p (update-IsDiffs f k m (present_addr k p addr) v)
  | inr p ↦ rw p v
]

pub value_absent : (a : Bytes) (m : Diffs) → find a m ≡ none → value a m ≡ 0
unfolding value
value_absent a m e = rw (e, value)

pub value_entry : (a : Bytes) (m : Diffs) {v : ℕ} → find a m ≡ some v → value a m ≡ v
unfolding value
value_entry a m e = rw (e, value)
