-- ===== src/IndexDb/Changes.antt =====
-- The abstract view of an account's balance: its changes by height, and the last one up to a height.
use rosetta.Shared.{ℕ, zero, suc, ◌≤◌, ◌<◌, ◌≡◌, Bool, true, false, Option, none, some, arith}
use native.Mathlib.Decide.{ℕ_discrete}

-- The amount of the last change at or below a height, 0 without one.
unfoldable pub latest_change : (ℕ → Option ℕ) → ℕ → ℕ
latest_change c zero = elim (c zero) [ some v ↦ v | none ↦ 0 ]
latest_change c (suc h) = elim (c (suc h)) [ some v ↦ v | none ↦ latest_change c h ]

-- Whether there is one.
unfoldable pub any_change : (ℕ → Option ℕ) → ℕ → Bool
any_change c zero = elim (c zero) [ some v ↦ true | none ↦ false ]
any_change c (suc h) = elim (c (suc h)) [ some v ↦ true | none ↦ any_change c h ]

module _ (c : ℕ → Option ℕ) where
  pub latest_change-none :
      (h : ℕ) → ((i : ℕ) → i ≤ h → c i ≡ none) → (latest_change c h ≡ 0) × (any_change c h ≡ false)
  unfolding latest_change any_change
  latest_change-none zero e = ground (arith, e 0 (omega arith))
  latest_change-none (suc h) e =
      ground (arith, e (suc h) (omega arith), latest_change-none h (λ i p. e i (omega arith)))

  pub latest_change_at :
      (h k n : ℕ)
      → k ≤ h
      → c k ≡ some n
      → ((i : ℕ) → k < i → i ≤ h → c i ≡ none)
      → (latest_change c h ≡ n) × (any_change c h ≡ true)
  unfolding latest_change any_change
  latest_change_at zero zero n p e above = ground arith
  latest_change_at zero (suc k) n p e above = absurd (omega arith)
  latest_change_at (suc h) k n p e above = elim (ℕ_discrete k (suc h)) [
    | yes same ↦ let here : c (suc h) ≡ some n = rw (← same) e in ground arith
    | no less ↦ ground (
      arith,
      above (suc h) (omega arith) (omega arith),
      latest_change_at h k n (omega arith) e (λ i q r. above i q (omega arith)),
    )
  ]

pub latest_change_ext :
    (c c' : ℕ → Option ℕ) (h : ℕ)
    → ((i : ℕ) → i ≤ h → c i ≡ c' i)
    → latest_change c h ≡ latest_change c' h
unfolding latest_change
latest_change_ext c c' zero e = ground (arith, e 0 (omega arith))
latest_change_ext c c' (suc h) e =
    ground (arith, e (suc h) (omega arith), latest_change_ext c c' h (λ i p. e i (omega arith)))

pub any_change_ext :
    (c c' : ℕ → Option ℕ) (h : ℕ)
    → ((i : ℕ) → i ≤ h → c i ≡ c' i)
    → any_change c h ≡ any_change c' h
unfolding any_change
any_change_ext c c' zero e = ground (arith, e 0 (omega arith))
any_change_ext c c' (suc h) e =
    ground (arith, e (suc h) (omega arith), any_change_ext c c' h (λ i p. e i (omega arith)))

-- Without changes above `k` the balance stays.
pub latest_change_stays :
    (c : ℕ → Option ℕ) (k h : ℕ)
    → k ≤ h
    → ((i : ℕ) → k < i → i ≤ h → c i ≡ none)
    → latest_change c h ≡ latest_change c k
unfolding latest_change
latest_change_stays c k zero p e = let z : k ≡ zero = omega arith in rw z
latest_change_stays c k (suc h) p e = elim (ℕ_discrete k (suc h)) [
  | yes same ↦ rw same
  | no less ↦ ground (
    arith,
    e (suc h) (omega arith) (omega arith),
    latest_change_stays c k h (omega arith) (λ i q r. e i q (omega arith)),
  )
]
