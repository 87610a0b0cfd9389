-- ===== src/Shared/Bits.antt =====
-- `&` with a low mask as a remainder at every width, and what `x & (x - 1)` being 0 says of `x`.
use Prim.Native.Nat.{ℕ, zero, suc, ◌+◌, ◌-◌, ◌*◌, ◌/◌, ◌%◌, ◌^◌, ◌≤◌, ◌<◌, min, bit_and}
use Prim.Native.Nat.{digits, bit_and-bitwise}
use mathlib.Core.Path.{◌≡◌, refl, ap, sym, ◌∙◌}
use mathlib.Core.Logic.{◌⊎◌, inl, inr}
use native.Mathlib.Nat.{
  mul_assoc, pow-suc, one-le-pow, mod-lt, mod_self, mod-eq_of_lt, div-add-mod',
  mul-add-mod_self_right,
}
use native.Mathlib.Decide.{ℕ_discrete}
use native.Mathlib.Omega.{arith}

-- `bit_and` stands for a recursion over binary digits on fuel, here named.
abbrev and_fuel : ℕ → ℕ → ℕ → ℕ
and_fuel fuel a b = digits (λ y. zero) min fuel a b

and_fuel_any : (n m a b : ℕ) → a ≤ n → a ≤ m → and_fuel n a b ≡ and_fuel m a b
and_fuel_any zero zero a b p q = refl
and_fuel_any zero (suc m) zero b p q = refl
and_fuel_any zero (suc m) (suc a) b p q = absurd (omega arith)
and_fuel_any (suc n) zero zero b p q = refl
and_fuel_any (suc n) zero (suc a) b p q = absurd (omega arith)
and_fuel_any (suc n) (suc m) zero b p q = refl
and_fuel_any (suc n) (suc m) (suc a) b p q =
    omega (arith, and_fuel_any n m (suc a / 2) (b / 2) (omega arith) (omega arith))

zero-bit_and : (b : ℕ) → bit_and 0 b ≡ 0
zero-bit_and b = bit_and-bitwise 0 b

-- One equation for the lowest digit.
pub bit_and_digit : (a b : ℕ) → bit_and a b ≡ bit_and (a / 2) (b / 2) * 2 + min (a % 2) (b % 2)
bit_and_digit zero b = omega (arith, zero-bit_and b, zero-bit_and (b / 2))
bit_and_digit (suc a) b =
    let half : ℕ = suc a / 2 in
    omega (
      arith,
      bit_and-bitwise (suc a) b,
      bit_and-bitwise half (b / 2),
      and_fuel_any a half half (b / 2) (omega arith) (omega arith),
    )

bit_and_nil : (n a : ℕ) → a ≤ n → bit_and a 0 ≡ 0
bit_and_nil n zero h = refl
bit_and_nil zero (suc a) h = absurd (omega arith)
bit_and_nil (suc n) (suc a) h =
    omega (arith, bit_and_digit (suc a) 0, bit_and_nil n (suc a / 2) (omega arith))

-- The lowest digit of a remainder.
half_mod : (a p : ℕ) → 1 ≤ p → a % (p * 2) ≡ a / 2 % p * 2 + a % 2
half_mod a p h =
    let q : ℕ = a / 2 / p in
    let r : ℕ = a / 2 % p * 2 + a % 2 in
    let split : q * (p * 2) + r ≡ a = omega (arith, div-add-mod' (a / 2) p) in
    let small : r < p * 2 = omega (arith, mod-lt (a / 2) {m = p} h) in
    sym (ap (λ (t : ℕ). t % (p * 2)) split)
    ∙ mul-add-mod_self_right q (p * 2) r
    ∙ mod-eq_of_lt small

-- Halving a mask of `k + 1` ones leaves one of `k`.
pub bit_and-mask : (k a : ℕ) → bit_and a (2 ^ k - 1) ≡ a % 2 ^ k
bit_and-mask zero a = omega (arith, bit_and_nil a a (omega arith))
bit_and-mask (suc k) a = omega (
  arith,
  pow-suc 2 k,
  one-le-pow k 2 (omega arith),
  bit_and_digit a (2 ^ suc k - 1),
  ap (λ (m : ℕ). bit_and (a / 2) m) {x = (2 ^ suc k - 1) / 2} {y = 2 ^ k - 1}
      (omega (arith, pow-suc 2 k, one-le-pow k 2 (omega arith))),
  bit_and-mask k (a / 2),
  half_mod a (2 ^ k) (one-le-pow k 2 (omega arith)),
  ap (λ (m : ℕ). a % m) (pow-suc 2 k),
)

bit_and_self : (n a : ℕ) → a ≤ n → bit_and a a ≡ a
bit_and_self n zero h = zero-bit_and 0
bit_and_self zero (suc a) h = absurd (omega arith)
bit_and_self (suc n) (suc a) h =
    omega (arith, bit_and_digit (suc a) (suc a), bit_and_self n (suc a / 2) (omega arith))

-- An even number keeps only the digits above the lowest, an odd one loses it.
even_step : (a : ℕ) → a % 2 ≡ 0 → 0 < a → bit_and a (a - 1) ≡ bit_and (a / 2) (a / 2 - 1) * 2
even_step a e h = omega (
  arith,
  bit_and_digit a (a - 1),
  ap (λ (m : ℕ). bit_and (a / 2) m) {x = (a - 1) / 2} {y = a / 2 - 1} (omega arith),
)

odd_step : (a : ℕ) → a % 2 ≡ 1 → bit_and a (a - 1) ≡ a - 1
odd_step a e = omega (
  arith,
  bit_and_digit a (a - 1),
  ap (λ (m : ℕ). bit_and (a / 2) m) {x = (a - 1) / 2} {y = a / 2} (omega arith),
  bit_and_self (a / 2) (a / 2) (omega arith),
)

-- `x & (x - 1)` is 0 for 0 and for the powers of 2 alone.
pow2_fuel : (n a : ℕ) → a ≤ n → bit_and a (a - 1) ≡ 0 → (a ≡ 0) ⊎ ((k : ℕ) × (a ≡ 2 ^ k))
pow2_fuel n zero h e = inl refl
pow2_fuel zero (suc a) h e = absurd (omega arith)
pow2_fuel (suc n) (suc a) h e = elim (ℕ_discrete (suc a % 2) 0) [
  | yes even ↦
      half_cases (pow2_fuel n (suc a / 2) (omega arith) (omega (arith, even_step (suc a) even)))
        even
  | no odd ↦ inr (0, omega (arith, odd_step (suc a) (omega arith)))
]
  where
    half_cases :
        (suc a / 2 ≡ 0) ⊎ ((k : ℕ) × (suc a / 2 ≡ 2 ^ k))
        → suc a % 2 ≡ 0
        → (suc a ≡ 0) ⊎ ((k : ℕ) × (suc a ≡ 2 ^ k))
    half_cases (inl z) even = absurd (omega arith)
    half_cases (inr (k, p)) even = inr (suc k, omega (arith, pow-suc 2 k))

pub pow2_of_bit_and : (a : ℕ) → bit_and a (a - 1) ≡ 0 → (a ≡ 0) ⊎ ((k : ℕ) × (a ≡ 2 ^ k))
pow2_of_bit_and a e = pow2_fuel a a (omega arith) e

-- The other direction: a power of 2 has no digit in common with its predecessor.
pub bit_and-pow2 : (k : ℕ) → bit_and (2 ^ k) (2 ^ k - 1) ≡ 0
bit_and-pow2 k = bit_and-mask k (2 ^ k) ∙ mod_self (2 ^ k)

abbrev pub halves : ℕ → ℕ → ℕ
halves zero a = a
halves (suc k) a = halves k (a / 2)

-- A mask of high bits.
pub bit_and-shift : (k a m : ℕ) → bit_and a (m * 2 ^ k) ≡ bit_and (halves k a) m * 2 ^ k
bit_and-shift zero a m =
    omega (arith, ap (λ (x : ℕ). bit_and a x) {x = m * 2 ^ 0} {y = m} (omega arith))
bit_and-shift (suc k) a m =
    let wide : m * 2 ^ suc k ≡ m * 2 ^ k * 2 =
      ap (λ (x : ℕ). m * x) (pow-suc 2 k) ∙ sym (mul_assoc m (2 ^ k) 2) in
    let half : bit_and (a / 2) (m * 2 ^ k * 2 / 2) ≡ bit_and (a / 2) (m * 2 ^ k) =
      ap (λ (x : ℕ). bit_and (a / 2) x) (omega arith) in
    let out : bit_and (halves k (a / 2)) m * 2 ^ suc k ≡ bit_and (halves k (a / 2)) m * 2 ^ k * 2 =
      ap (λ (x : ℕ). bit_and (halves k (a / 2)) m * x) (pow-suc 2 k)
      ∙ sym (mul_assoc (bit_and (halves k (a / 2)) m) (2 ^ k) 2) in
    ap (λ (x : ℕ). bit_and a x) wide
    ∙ omega (arith, bit_and_digit a (m * 2 ^ k * 2), half, bit_and-shift k (a / 2) m, out)
