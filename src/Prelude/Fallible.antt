-- ===== src/Prelude/Fallible.antt =====
-- Go's `(value, error)` returns: a value, or the error that the caller sees.
use mathlib.Core.Path.{◌≡◌, refl}
use mathlib.Core.Logic.{◌⊎◌, ◌↔◌, inl, inr}
use mathlib.Core.Bool.{Bool, true, false}
use mathlib.Core.Option.{Option, none, some}

pub data Result {ℓ κ} (E : Type κ) (A : Type ℓ) : Type (ℓ ⊔ κ) where
  ok : A → Result E A
  err : E → Result E A

module _ {ℓ κ ι} {E : Type ι} {A : Type ℓ} {B : Type κ} where
  infixl 5 ◌>>=◌
  abbrev pub ◌>>=◌ : Result E A → (A → Result E B) → Result E B
  ok a >>= f = f a
  err e >>= f = err e

  -- Inversion of a chain that succeeded.
  pub bind-eq-ok :
      (r : Result E A) (next : A → Result E B) {y : B}
      → (r >>= next) ≡ ok y
      → (x : A) × (r ≡ ok x) × (next x ≡ ok y)
  bind-eq-ok (err e) next h = cc
  bind-eq-ok (ok x) next h = (x, refl, h)

module _ {ℓ ι} {E : Type ι} {A : Type ℓ} where
  pub Result-cases : (r : Result E A) → ((a : A) × (r ≡ ok a)) ⊎ ((e : E) × (r ≡ err e))
  Result-cases (ok a) = inl (a, refl)
  Result-cases (err e) = inr (e, refl)

-- A test that stops with an error, and two of them, one after the other.
abbrev pub require {ι} : {E : Type ι} → Bool → E → Result E (Unit {0})
require true e = ok tt
require false e = err e

infixr 5 ◌>>◌
abbrev pub ◌>>◌ {ι} : {E : Type ι} → Result E (Unit {0}) → Result E (Unit {0}) → Result E (Unit {0})
ok u >> r = r
err e >> r = err e

module _ {ι} {E : Type ι} where
  pub require_iff : (b : Bool) (e : E) → (require b e ≡ ok tt) ↔ (b ≡ true)
  require_iff true e = (λ h. refl, λ h. refl)
  require_iff false e = (λ h. absurd (cc), λ h. absurd (cc))

  -- Both pass.
  pub >>_iff : (r s : Result E (Unit {0})) → ((r >> s) ≡ ok tt) ↔ ((r ≡ ok tt) × (s ≡ ok tt))
  >>_iff (ok u) s = (λ h. (refl, h), λ h. h.1)
  >>_iff (err e) s = (λ h. absurd (cc), λ h. absurd (cc))

  -- What a chain of tests comes to, test by test.
  pub test_iff {ℓ} : {A : Type ℓ} (b : Bool) (e : E) → (b ≡ true) ↔ A → (require b e ≡ ok tt) ↔ A
  test_iff b e h = (λ r. h.0 ((require_iff b e).0 r), λ a. (require_iff b e).1 (h.1 a))

  pub chain_iff {ℓ κ} :
      {A : Type ℓ} {B : Type κ} (r s : Result E (Unit {0}))
      → (r ≡ ok tt) ↔ A
      → (s ≡ ok tt) ↔ B
      → ((r >> s) ≡ ok tt) ↔ (A × B)
  chain_iff r s h k =
      (λ e. let (a, b) = (>>_iff r s).0 e in (h.0 a, k.0 b), λ p. (>>_iff r s).1 (h.1 p.0, k.1 p.1))

module _ {ℓ ι} {E : Type ι} {A : Type ℓ} where
  -- A call has one outcome.
  pub ok_unique : {r : Result E A} {a b : A} → r ≡ ok a → r ≡ ok b → a ≡ b
  ok_unique h k = cc

  pub ok_or_err : {r : Result E A} {a : A} {e : E} → r ≡ err e → r ≡ ok a → ⊥
  ok_or_err h k = absurd (cc)

module _ {ℓ} {A : Type ℓ} where
  pub some_unique : {o : Option A} {a b : A} → o ≡ some a → o ≡ some b → a ≡ b
  some_unique h k = cc

  pub none_or_some : {o : Option A} {a : A} → o ≡ none → o ≡ some a → ⊥
  none_or_some h k = absurd (cc)
