-- ===== src/Prelude/Outcome.antt =====
-- `Result<T, E>`: fallible code, its `?` as a bind, and the inversions that proofs use.
use mathlib.Core.Path.{◌≡◌, refl, ap}
use mathlib.Core.Logic.{◌⊎◌, inl, inr}
use mathlib.Core.Bool.{Bool, true, false}
use mathlib.Core.Option.{Option, none, some}

pub data Result {ℓ κ} (E : Type ℓ) (A : Type κ) : Type (ℓ ⊔ κ) where
  ok : A → Result E A
  err : E → Result E A

infixl 5 ◌>>=◌ ◌>>◌
abbrev pub ◌>>=◌ {ℓ κ υ} :
    {E : Type ℓ} {A : Type κ} {B : Type υ} → Result E A → (A → Result E B) → Result E B
ok a >>= next = next a
err e >>= _ = err e

abbrev pub ◌>>◌ {ℓ κ} : {E : Type ℓ} {B : Type κ} → Result E (Unit {0}) → Result E B → Result E B
first >> second = first >>= λ _. second

-- `if bad { return Err(e) }`.
abbrev pub refuse_if {ℓ} : {E : Type ℓ} → Bool → E → Result E (Unit {0})
refuse_if true e = err e
refuse_if false e = ok tt

-- `ok_or(e)?`.
abbrev pub ok_or {ℓ κ} : {E : Type ℓ} {A : Type κ} → Option A → E → Result E A
ok_or none e = err e
ok_or (some a) e = ok a

abbrev pub is_ok {ℓ κ} : {E : Type ℓ} {A : Type κ} → Result E A → Bool
is_ok (ok a) = true
is_ok (err e) = false

module _ {ℓ κ υ} {E : Type ℓ} {A : Type κ} {B : Type υ} where
  -- A bind that succeeded had a first part that succeeded.
  pub >>=-eq-ok :
      (r : Result E A) (next : A → Result E B) {b : B}
      → (r >>= next) ≡ ok b
      → (a : A) × (r ≡ ok a) × (next a ≡ ok b)
  >>=-eq-ok (ok a) next succeeded = (a, refl, succeeded)
  >>=-eq-ok (err e) next succeeded = cc

pub ok->>= {ℓ κ υ} :
    {E : Type ℓ} {A : Type κ} {B : Type υ} (m : Result E A) (f : A → Result E B) {a : A}
    → m ≡ ok a
    → (m >>= f) ≡ f a
ok->>= m f h = ap (λ m'. m' >>= f) h

module _ {ℓ κ υ ω} {E : Type ℓ} {A : Type κ} {B : Type υ} {C : Type ω} where
  pub >>=_assoc :
      (m : Result E A) (f : A → Result E B) (g : B → Result E C)
      → (m >>= f >>= g) ≡ (m >>= λ a. f a >>= g)
  >>=_assoc (ok a) f g = refl
  >>=_assoc (err e) f g = refl

module _ {ℓ κ υ} {E : Type ℓ} {A : Type κ} {B : Type υ} where
  pub >>=_cong :
      (m : Result E A) (f g : A → Result E B) → ((a : A) → f a ≡ g a) → (m >>= f) ≡ (m >>= g)
  >>=_cong (ok a) f g h = h a
  >>=_cong (err e) f g h = refl

module _ {ℓ κ} {E : Type ℓ} {A : Type κ} where
  abbrev value_or : A → Result E A → A
  value_or d (ok a) = a
  value_or d (err _) = d

  pub ok-injective : {a b : A} → ◌≡◌ {A = Result E A} (ok a) (ok b) → a ≡ b
  ok-injective {a} h = ap (value_or a) h

  pub Result-cases : (r : Result E A) → ((a : A) × (r ≡ ok a)) ⊎ ((e : E) × (r ≡ err e))
  Result-cases (ok a) = inl (a, refl)
  Result-cases (err e) = inr (e, refl)
