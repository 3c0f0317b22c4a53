-- ===== src/Prelude/Results.antt =====
-- Fallible code: a result that is a value or an error, and actions over a state that keep the state
-- they reached when they fail.
use mathlib.Core.Path.{◌≡◌, refl, sym, subst}
use mathlib.Core.Logic.{◌⊎◌, inl, inr}
use mathlib.Core.Bool.{Bool, true, false}

pub data Result {ℓ κ} (E : Type κ) (A : Type ℓ) : Type (ℓ ⊔ κ) where
  ok : A → Result E A
  err : E → Result E A

pub Result-cases {ℓ κ} :
    {E : Type κ} {A : Type ℓ} (r : Result E A) → ((a : A) × (r ≡ ok a)) ⊎ ((e : E) × (r ≡ err e))
Result-cases (ok a) = inl (a, refl)
Result-cases (err e) = inr (e, refl)

-- `and_then r f` is `f` on the value of `r`, or the error of `r`.
abbrev pub and_then {ℓ κ λ'} :
    {E : Type κ} {A : Type ℓ} {B : Type λ'} → Result E A → (A → Result E B) → Result E B
and_then (ok a) f = f a
and_then (err e) f = err e

-- A check that stops with an error.
abbrev pub guard {κ} : {E : Type κ} → Bool → E → Result E (Unit {0})
guard true e = ok tt
guard false e = err e

-- An action over a state: the state it leaves, and its result.
abbrev pub Exec {ℓ κ λ'} : Type ℓ → Type κ → Type λ' → Type (ℓ ⊔ κ ⊔ λ')
Exec S E A = S → S × Result E A

module _ {ℓ κ λ'} {S : Type ℓ} {E : Type κ} {A : Type λ'} where
  abbrev pub pure : A → Exec S E A
  pure a s = (s, ok a)

  abbrev pub raise : E → Exec S E A
  raise e s = (s, err e)

  abbrev pub lift : Result E A → Exec S E A
  lift r s = (s, r)

  abbrev pub then_run {μ} : {B : Type μ} → S → Result E A → (A → Exec S E B) → S × Result E B
  then_run s (ok a) f = f a s
  then_run s (err e) f = (s, err e)

  infixl 5 ◌>>=◌
  abbrev pub ◌>>=◌ {μ} : {B : Type μ} → Exec S E A → (A → Exec S E B) → Exec S E B
  ◌>>=◌ m f s = then_run (m s).0 (m s).1 f

pub ok_injective {ℓ κ} :
    {E : Type κ} {A : Type ℓ} {a b : A} → ◌≡◌ {A = Result E A} (ok a) (ok b) → a ≡ b
ok_injective h = cc

pub and_then-ok {ℓ κ λ'} :
    {E : Type κ} {A : Type ℓ} {B : Type λ'} (r : Result E A) (f : A → Result E B) {a : A} {b : B}
    → r ≡ ok a
    → f a ≡ ok b
    → and_then r f ≡ ok b
and_then-ok (ok c) f {a} {b} h k = subst (λ c. f c ≡ ok b) (sym (ok_injective h)) k
and_then-ok (err e) f h k = cc
