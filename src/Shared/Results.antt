-- ===== src/Shared/Results.antt =====
-- Go's (value, error) pairs. `crash` is a panic or `log.Fatalf`, which ends the process.
use mathlib.Core.Path.{◌≡◌, refl, ap}
use mathlib.Core.Logic.{◌⊎◌, inl, inr}
use mathlib.Core.Option.{Option, none, some}

pub data Result {ℓ} (E : Type 0) (A : Type ℓ) : Type ℓ where
  ok : A → Result E A
  err : E → Result E A
  crash : Result E A

infixl 5 ◌>>=◌ ◌>>◌
abbrev pub ◌>>=◌ {ℓ κ} :
    {E : Type 0} {A : Type ℓ} {B : Type κ} → Result E A → (A → Result E B) → Result E B
ok a >>= f = f a
err e >>= f = err e
crash >>= f = crash

abbrev pub ◌>>◌ {ℓ} : {E : Type 0} {B : Type ℓ} → Result E (Unit {0}) → Result E B → Result E B
m >> k = m >>= λ _. k

-- What the code does without, it exits on.
abbrev pub or_crash {ℓ} : {E : Type 0} {A : Type ℓ} → Option A → Result E A
or_crash none = crash
or_crash (some a) = ok a

abbrev pub or_err {ℓ} : {E : Type 0} {A : Type ℓ} → Option A → E → Result E A
or_err none e = err e
or_err (some a) e = ok a

pub ok_inj {ℓ} : {E : Type 0} {A : Type ℓ} {a b : A} → ◌≡◌ {A = Result E A} (ok a) (ok b) → a ≡ b
ok_inj e = cc

pub err_inj {ℓ} : {E : Type 0} {A : Type ℓ} {x y : E} → ◌≡◌ {A = Result E A} (err x) (err y) → x ≡ y
err_inj e = cc

pub or_crash_ok {ℓ} :
    {E : Type 0} {A : Type ℓ} (o : Option A) {a : A}
    → ◌≡◌ {A = Result E A} (or_crash o) (ok a)
    → o ≡ some a
or_crash_ok none e = cc
or_crash_ok (some x) e = ap some (ok_inj e)

pub or_err_ok {ℓ} :
    {E : Type 0} {A : Type ℓ} (o : Option A) (x : E) {a : A} → or_err o x ≡ ok a → o ≡ some a
or_err_ok none x e = cc
or_err_ok (some y) x e = ap some (ok_inj e)

pub >>=-eq-ok {ℓ κ} :
    {E : Type 0} {A : Type ℓ} {B : Type κ} (first : Result E A) (next : A → Result E B) {out : B}
    → (first >>= next) ≡ ok out
    → (mid : A) × (first ≡ ok mid) × (next mid ≡ ok out)
>>=-eq-ok crash next run = cc
>>=-eq-ok (err x) next run = cc
>>=-eq-ok (ok mid) next run = (mid, refl, run)

pub >>=-eq-err {ℓ κ} :
    {E : Type 0} {A : Type ℓ} {B : Type κ} (first : Result E A) (next : A → Result E B) {e : E}
    → (first >>= next) ≡ err e
    → (first ≡ err e) ⊎ ((mid : A) × (first ≡ ok mid) × (next mid ≡ err e))
>>=-eq-err crash next run = cc
>>=-eq-err (err x) next run = inl (ap err (err_inj run))
>>=-eq-err (ok mid) next run = inr (mid, refl, run)
