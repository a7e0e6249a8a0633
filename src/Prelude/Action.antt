-- ===== src/Prelude/Action.antt =====
-- A Go function that works on shared state: the state that it leaves, and a value or an error.
use mathlib.Core.Path.{◌≡◌, refl, subst}
use native.Mathlib.Omega.{arith}
use mathlib.Core.Bool.{Bool}
use geoflow_updater.Prelude.Result.{Result, ok, err, require, ok-injective}

abbrev pub Action : Type 0 → Type 0 → Type 0 → Type 0
Action S E A = S → S × Result E A

module _ {S E : Type 0} where
  -- The rest of a function, after a call that left this state and this result.
  abbrev pub proceed : {A B : Type 0} → S × Result E A → (A → Action S E B) → S × Result E B
  proceed (s, err failure) rest = (s, err failure)
  proceed (s, ok value) rest = rest value s

  infixl 5 ◌>>=◌ ◌>>◌
  abbrev pub ◌>>=◌ : {A B : Type 0} → Action S E A → (A → Action S E B) → Action S E B
  ◌>>=◌ call rest s = proceed (call s) rest

  abbrev pub ◌>>◌ : {B : Type 0} → Action S E (Unit {0}) → Action S E B → Action S E B
  call >> rest = call >>= λ nothing. rest

  -- `return value, nil`.
  abbrev pub done : {A : Type 0} → A → Action S E A
  done value s = (s, ok value)

  -- `return err`.
  abbrev pub fail : {A : Type 0} → E → Action S E A
  fail failure s = (s, err failure)

  -- A call that does not touch the state.
  abbrev pub lift : {A : Type 0} → Result E A → Action S E A
  lift r s = (s, r)

  -- A call that only reads the state.
  abbrev pub query : {A : Type 0} → (S → Result E A) → Action S E A
  query f s = (s, f s)

  -- `if !test { return failure }`.
  abbrev pub check : Bool → E → Action S E (Unit {0})
  check test failure = lift (require test failure)

  -- What holds of the state at the end, and there of the value, where there is one.
  abbrev pub Leaves : {A : Type 0} → (S → Type 0) → (A → S → Type 0) → S × Result E A → Type 0
  Leaves I Q (s, err failure) = I s
  Leaves I Q (s, ok value) = I s × Q value s

  -- From a state with `P` the action leaves `I` on every path, and `Q` of its value.
  abbrev pub Keeps :
      {A : Type 0} → (S → Type 0) → (S → Type 0) → (A → S → Type 0) → Action S E A → Type 0
  Keeps P I Q call = (s : S) → P s → Leaves I Q (call s)

  module _ {A B : Type 0} (I : S → Type 0) (Q : A → S → Type 0) (R : B → S → Type 0) where
    pub Leaves-proceed :
        (o : S × Result E A) (rest : A → Action S E B)
        → Leaves I Q o
        → ((value : A) → Keeps (λ s. I s × Q value s) I R (rest value))
        → Leaves I R (proceed o rest)
    Leaves-proceed (s, err failure) rest h k = h
    Leaves-proceed (s, ok value) rest h k = k value s h

  -- An action that succeeds went through each of its parts.
  pub proceed-eq-ok :
      {A B : Type 0} (o : S × Result E A) (rest : A → Action S E B) {s : S} {value : B}
      → proceed o rest ≡ (s, ok value)
      → (t : S) × (a : A) × (o ≡ (t, ok a)) × (rest a t ≡ (s, ok value))
  proceed-eq-ok (t, err failure) rest p = cc
  proceed-eq-ok (t, ok a) rest p = (t, a, refl, p)

  -- The rule of a call that leaves the state alone.
  pub lift_rule :
      {A B : Type 0} (I : S → Type 0) (R : B → S → Type 0) (s : S) (r : Result E A)
      (rest : A → Action S E B)
      → I s
      → ((value : A) → r ≡ ok value → Leaves I R (rest value s))
      → Leaves I R (proceed (s, r) rest)
  lift_rule I R s (err failure) rest h k = h
  lift_rule I R s (ok value) rest h k = k value refl

  pub Leaves-state :
      {A : Type 0} (I : S → Type 0) (R : A → S → Type 0) (o : S × Result E A) → Leaves I R o → I o.0
  Leaves-state I R (s, err failure) h = h
  Leaves-state I R (s, ok value) h = h.0

  pub Leaves-trivial :
      {A : Type 0} (o : S × Result E A) → Leaves (λ s. Unit {0}) (λ (a : A) s. Unit {0}) o
  Leaves-trivial (s, err failure) = tt
  Leaves-trivial (s, ok value) = (tt, tt)

  pub Leaves-value :
      {A : Type 0} (I : S → Type 0) (R : A → S → Type 0) (o : S × Result E A) {s : S} {value : A}
      → Leaves I R o
      → o ≡ (s, ok value)
      → R value s
  Leaves-value I R (t, err failure) h e = absurd (ground arith)
  Leaves-value I R (t, ok a) h e = (subst (Leaves I R) e h).1

  pub Leaves-ok :
      {A : Type 0} (I : S → Type 0) (R : A → S → Type 0) (o : S × Result E A) {value : A}
      → Leaves I R o
      → o.1 ≡ ok value
      → R value o.0
  Leaves-ok I R (s, err failure) h e = absurd (ground arith)
  Leaves-ok I R (s, ok a) h e = subst (λ x. R x s) (ok-injective e) h.1
