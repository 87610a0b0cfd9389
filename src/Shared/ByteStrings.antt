-- ===== src/Shared/ByteStrings.antt =====
-- Byte strings: equality, Go's `bytes.Compare`, `bytes.HasPrefix`, `copy`, and the big-endian form
-- of a number (encoding/binary's `PutUint64` and `Uint64` at width 8).
use Prim.Native.Nat.{ℕ, zero, suc, ◌+◌, ◌*◌, ◌/◌, ◌%◌, ◌^◌, ◌<◌}
use mathlib.Core.Path.{◌≡◌, refl, ap, sym, ◌∙◌}
use mathlib.Core.Logic.{◌↔◌, inl, inr}
use mathlib.Core.Bool.{Bool, true, false, ◌&&◌, ◌||◌}
use mathlib.Core.List.{List, [], ◌∷◌, ◌++◌}
use native.Mathlib.Omega.{arith}
use native.Mathlib.Nat.{pow-suc}
use rosetta.Shared.Tests.{ltb, ◌==◌, ==_iff, Bool-cases}
use rosetta.Shared.Lists.{length, length-append}

abbrev pub Bytes : Type 0
Bytes = List ℕ

unfoldable pub bytes_eq : Bytes → Bytes → Bool
bytes_eq [] [] = true
bytes_eq [] (y ∷ ys) = false
bytes_eq (x ∷ xs) [] = false
bytes_eq (x ∷ xs) (y ∷ ys) = x == y && bytes_eq xs ys

pub bytes_eq_iff : (xs ys : Bytes) → (bytes_eq xs ys ≡ true) ↔ (xs ≡ ys)
unfolding bytes_eq
bytes_eq_iff [] [] = (λ e. refl, λ e. refl)
bytes_eq_iff [] (y ∷ ys) = (λ e. cc, λ e. cc)
bytes_eq_iff (x ∷ xs) [] = (λ e. cc, λ e. cc)
bytes_eq_iff (x ∷ xs) (y ∷ ys) =
    (λ e. ground (arith, bytes_eq_iff xs ys), λ e. ground (arith, bytes_eq_iff xs ys))

-- `bytes.Compare(xs, ys) == -1`.
unfoldable pub bytes_lt : Bytes → Bytes → Bool
bytes_lt [] [] = false
bytes_lt [] (y ∷ ys) = true
bytes_lt (x ∷ xs) [] = false
bytes_lt (x ∷ xs) (y ∷ ys) = ltb x y || (x == y && bytes_lt xs ys)

pub bytes_lt_irrefl : (xs : Bytes) → bytes_lt xs xs ≡ false
unfolding bytes_lt
bytes_lt_irrefl [] = refl
bytes_lt_irrefl (x ∷ xs) = ground (arith, bytes_lt_irrefl xs)

pub bytes_lt_trans :
    (xs ys zs : Bytes) → bytes_lt xs ys ≡ true → bytes_lt ys zs ≡ true → bytes_lt xs zs ≡ true
unfolding bytes_lt
bytes_lt_trans [] [] zs h k = cc
bytes_lt_trans [] (y ∷ ys) [] h k = cc
bytes_lt_trans [] (y ∷ ys) (z ∷ zs) h k = refl
bytes_lt_trans (x ∷ xs) [] zs h k = cc
bytes_lt_trans (x ∷ xs) (y ∷ ys) [] h k = cc
bytes_lt_trans (x ∷ xs) (y ∷ ys) (z ∷ zs) h k = ground (arith, bytes_lt_trans xs ys zs)

pub bytes_lt_total : (xs ys : Bytes) → bytes_lt xs ys ≡ false → bytes_lt ys xs ≡ false → xs ≡ ys
unfolding bytes_lt
bytes_lt_total [] [] h k = refl
bytes_lt_total [] (y ∷ ys) h k = cc
bytes_lt_total (x ∷ xs) [] h k = cc
bytes_lt_total (x ∷ xs) (y ∷ ys) h k = ground (arith, bytes_lt_total xs ys)

-- A common front does not matter to the order.
pub bytes_lt-append : (p xs ys : Bytes) → bytes_lt (p ++ xs) (p ++ ys) ≡ bytes_lt xs ys
unfolding bytes_lt
bytes_lt-append [] xs ys = refl
bytes_lt-append (c ∷ p) xs ys = ground (arith, bytes_lt-append p xs ys)

-- `bytes.HasPrefix(xs, p)`.
unfoldable pub has_prefix : Bytes → Bytes → Bool
has_prefix [] xs = true
has_prefix (c ∷ p) [] = false
has_prefix (c ∷ p) (x ∷ xs) = c == x && has_prefix p xs

pub has_prefix-append : (p xs : Bytes) → has_prefix p (p ++ xs) ≡ true
unfolding has_prefix
has_prefix-append [] xs = refl
has_prefix-append (c ∷ p) xs = ground (arith, has_prefix-append p xs)

-- Strings of one length after the prefix's: the fronts are equal.
pub has_prefix_same : (p q xs : Bytes) → length p ≡ length q → has_prefix p (q ++ xs) ≡ true → p ≡ q
unfolding has_prefix
has_prefix_same [] [] xs l h = refl
has_prefix_same [] (d ∷ q) xs l h = absurd (omega arith)
has_prefix_same (c ∷ p) [] xs l h = absurd (omega arith)
has_prefix_same (c ∷ p) (d ∷ q) xs l h = ground (arith, has_prefix_same p q xs (omega arith))

-- What lies below one string with a prefix, and has it not, lies below them all.
pub prefix_gap :
    (p k xs ys : Bytes)
    → has_prefix p k ≡ false
    → bytes_lt (p ++ xs) k ≡ false
    → bytes_lt k (p ++ ys) ≡ true
unfolding has_prefix bytes_lt
prefix_gap [] k xs ys h l = cc
prefix_gap (c ∷ p) [] xs ys h l = refl
prefix_gap (c ∷ p) (d ∷ k) xs ys h l = ground (arith, prefix_gap p k xs ys)

-- The last `n` bytes of `v`, the highest first.
unfoldable pub big_endian : ℕ → ℕ → Bytes
big_endian zero v = []
big_endian (suc n) v = big_endian n (v / 256) ++ (v % 256 ∷ [])

pub length-big_endian : (n v : ℕ) → length (big_endian n v) ≡ n
unfolding big_endian
length-big_endian zero v = refl
length-big_endian (suc n) v =
    omega
      (arith, length-append (big_endian n (v / 256)) (v % 256 ∷ []), length-big_endian n (v / 256))

-- The number that a byte string stands for, read behind `acc`.
unfoldable pub from_big_endian : ℕ → Bytes → ℕ
from_big_endian acc [] = acc
from_big_endian acc (b ∷ bs) = from_big_endian (acc * 256 + b) bs

from_big_endian-append :
    (xs ys : Bytes) (acc : ℕ)
    → from_big_endian acc (xs ++ ys) ≡ from_big_endian (from_big_endian acc xs) ys
unfolding from_big_endian
from_big_endian-append [] ys acc = refl
from_big_endian-append (x ∷ xs) ys acc = from_big_endian-append xs ys (acc * 256 + x)

-- Reading back what was written, at every width that holds the number.
pub from_big_endian-big_endian : (n v : ℕ) → v < 256 ^ n → from_big_endian 0 (big_endian n v) ≡ v
unfolding big_endian from_big_endian
from_big_endian-big_endian zero v h = omega arith
from_big_endian-big_endian (suc n) v h =
    from_big_endian-append (big_endian n (v / 256)) (v % 256 ∷ []) 0
    ∙ omega (arith, from_big_endian-big_endian n (v / 256) (omega (arith, pow-suc 256 n)))

-- The order of two strings of one length is decided by the fronts, then by the last bytes.
bytes_lt_last :
    (xs ys : Bytes) (a b : ℕ)
    → length xs ≡ length ys
    → bytes_lt (xs ++ (a ∷ [])) (ys ++ (b ∷ [])) ≡ (bytes_lt xs ys || (bytes_eq xs ys && ltb a b))
unfolding bytes_lt bytes_eq
bytes_lt_last [] [] a b l = ground arith
bytes_lt_last [] (y ∷ ys) a b l = absurd (omega arith)
bytes_lt_last (x ∷ xs) [] a b l = absurd (omega arith)
bytes_lt_last (x ∷ xs) (y ∷ ys) a b l = ground (arith, bytes_lt_last xs ys a b (omega arith))

pub big_endian_inj :
    (n v w : ℕ) → v < 256 ^ n → w < 256 ^ n → big_endian n v ≡ big_endian n w → v ≡ w
big_endian_inj n v w h k e =
    sym (from_big_endian-big_endian n v h)
    ∙ ap (from_big_endian 0) e
    ∙ from_big_endian-big_endian n w k

pub bytes_eq-big_endian :
    (n v w : ℕ) → v < 256 ^ n → w < 256 ^ n → bytes_eq (big_endian n v) (big_endian n w) ≡ (v == w)
bytes_eq-big_endian n v w h k = elim (Bool-cases (v == w)) [
  | inl same ↦
      let e : v ≡ w = (==_iff v w).0 same in
      rw same ((bytes_eq_iff (big_endian n v) (big_endian n w)).1 (ap (big_endian n) e))
  | inr other ↦ elim (Bool-cases (bytes_eq (big_endian n v) (big_endian n w))) [
    | inl p ↦
        let e : v ≡ w =
          big_endian_inj n v w h k ((bytes_eq_iff (big_endian n v) (big_endian n w)).0 p) in
        ground arith
    | inr p ↦ rw (p, other)
  ]
]

-- Big-endian numbers of one width are in the order of the numbers.
pub bytes_lt-big_endian :
    (n v w : ℕ) → v < 256 ^ n → w < 256 ^ n → bytes_lt (big_endian n v) (big_endian n w) ≡ ltb v w
unfolding big_endian
bytes_lt-big_endian zero v w h k = unfold bytes_lt in ground arith
bytes_lt-big_endian (suc n) v w h k =
    let hv : v / 256 < 256 ^ n = omega (arith, pow-suc 256 n) in
    let hw : w / 256 < 256 ^ n = omega (arith, pow-suc 256 n) in
    bytes_lt_last (big_endian n (v / 256)) (big_endian n (w / 256)) (v % 256) (w % 256)
      (length-big_endian n (v / 256) ∙ sym (length-big_endian n (w / 256)))
    ∙ rw
        (
          bytes_lt-big_endian n (v / 256) (w / 256) hv hw,
          bytes_eq-big_endian n (v / 256) (w / 256) hv hw,
        )
        (ground arith)
