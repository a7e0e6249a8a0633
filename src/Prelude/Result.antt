-- ===== src/Prelude/Result.antt =====
-- A Go function that returns a value and an error: one of the two.
use mathlib.Core.Path.{◌≡◌, refl}
use mathlib.Core.Bool.{Bool, true, false}
use mathlib.Core.Logic.{◌⊎◌, inl, inr}

pub data Result {ℓ κ} (E : Type κ) (A : Type ℓ) : Type (ℓ ⊔ κ) where
  ok : A → Result E A
  err : E → Result E A

module _ {κ} {E : Type κ} where
  infixl 5 ◌>>=◌ ◌>>◌
  -- `if err != nil { return err }`, and then the rest of the function, which uses the value.
  abbrev pub ◌>>=◌ {ℓ μ} : {A : Type ℓ} {B : Type μ} → Result E A → (A → Result E B) → Result E B
  err failure >>= rest = err failure
  ok value >>= rest = rest value

  -- The same for a call that returns only an error.
  abbrev pub ◌>>◌ {μ} : {B : Type μ} → Result E (Unit {0}) → Result E B → Result E B
  call >> rest = call >>= λ nothing. rest

  -- `if !test { return failure }`.
  abbrev pub require : Bool → E → Result E (Unit {0})
  require false failure = err failure
  require true failure = ok tt

  pub Result-cases {ℓ} :
      {A : Type ℓ} (m : Result E A) → ((a : A) × (m ≡ ok a)) ⊎ ((e : E) × (m ≡ err e))
  Result-cases (err e) = inr (e, refl)
  Result-cases (ok a) = inl (a, refl)

  pub ok-injective {ℓ} : {A : Type ℓ} {x y : A} → ◌≡◌ {A = Result E A} (ok x) (ok y) → x ≡ y
  ok-injective p = cc

  -- A function that succeeds went through each of its parts.
  pub >>=-eq-ok {ℓ μ} :
      {A : Type ℓ} {B : Type μ} (call : Result E A) (rest : A → Result E B) {b : B}
      → (call >>= rest) ≡ ok b
      → (a : A) × (call ≡ ok a) × (rest a ≡ ok b)
  >>=-eq-ok (err failure) rest p = cc
  >>=-eq-ok (ok value) rest p = (value, refl, p)

  pub require-eq-ok {ℓ} :
      {A : Type ℓ} (test : Bool) (failure : E) (rest : Result E A) {a : A}
      → (require test failure >> rest) ≡ ok a
      → (test ≡ true) × (rest ≡ ok a)
  require-eq-ok false failure rest p = cc
  require-eq-ok true failure rest p = (refl, p)

  module _ {ℓ μ} {A : Type ℓ} {B : Type μ} where
    pub bind_assoc {ν} :
        {C : Type ν} (call : Result E A) (rest : A → Result E B) (more : B → Result E C)
        → (call >>= rest >>= more) ≡ (call >>= λ a. rest a >>= more)
    bind_assoc (err failure) rest more = refl
    bind_assoc (ok value) rest more = refl

    pub bind_cong :
        (call : Result E A) (rest other : A → Result E B)
        → ((a : A) → rest a ≡ other a)
        → (call >>= rest) ≡ (call >>= other)
    bind_cong (err failure) rest other same = refl
    bind_cong (ok value) rest other same = same value
