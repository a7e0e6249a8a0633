-- ===== src/Update/Triples.antt =====
-- Triples for actions and routines over a trace: a condition before, and one after.
use geoflow_updater.Prelude.{String, Bool, true, false, none, some, Error, if◌then◌else◌}
use geoflow_updater.Update.Journal.{Trace}
use geoflow_updater.Update.Routine.{
  Act, Routine, Step, next, returned, judge, continue, settle, lift, give_back, check, ◌>>=◌,
  run_body, pure,
}

-- `m` takes every trace of `P` to a result and a trace of `Q`.
pub record Triple {A : Type 0} (P : Trace → Type 0) (m : Act A) (Q : A → Trace → Type 0)
    : Type 0 where
  pub at : (t : Trace) → P t → Q (m t).0 (m t).1

-- After a step: `Q` if the body goes on, `S` if it has returned.
abbrev pub Post :
    {R A : Type 0} → (A → Trace → Type 0) → (R → Trace → Type 0) → Step R A → Trace → Type 0
Post Q S (next a) t = Q a t
Post Q S (returned r) t = S r t

pub record Body {R A : Type 0} (P : Trace → Type 0) (m : Routine R A) (Q : A → Trace → Type 0)
    (S : R → Trace → Type 0) : Type 0 where
  pub at : (t : Trace) → P t → Post Q S (m t).0 (m t).1

settle_rule :
    {R : Type 0} (S : R → Trace → Type 0) (s : Step R R) (t : Trace)
    → Post S S s t
    → S (settle s t).0 (settle s t).1
settle_rule S (next r) t q = q
settle_rule S (returned r) t q = q

judge_rule :
    {R : Type 0} (E : Error → Trace → Type 0) (S : R → Trace → Type 0) (handle : String → Act R)
    → ((e : String) → Triple (E (some e)) (handle e) S)
    → (e : Error) (t : Trace) → E e t
    → Post (λ (_ : Unit {0}). E none) S (judge e handle t).0 (judge e handle t).1
judge_rule E S handle h none t p = p
judge_rule E S handle h (some e) t p = (h e).at t p

continue_rule :
    {R A B : Type 0} (Q : A → Trace → Type 0) (Q' : B → Trace → Type 0) (S : R → Trace → Type 0)
    (f : A → Routine R B)
    → ((a : A) → Body (Q a) (f a) Q' S)
    → (s : Step R A) (t : Trace) → Post Q S s t
    → Post Q' S (continue s f t).0 (continue s f t).1
continue_rule Q Q' S f k (next a) t q = (k a).at t q
continue_rule Q Q' S f k (returned r) t q = q

relax :
    {R A : Type 0} (Q Q' : A → Trace → Type 0) (S : R → Trace → Type 0)
    → ((a : A) (t : Trace) → Q a t → Q' a t)
    → (s : Step R A) (t : Trace) → Post Q S s t
    → Post Q' S s t
relax Q Q' S w (next a) t q = w a t q
relax Q Q' S w (returned r) t q = q

module _ {P : Trace → Type 0} where
  pub lift_rule :
      {R A : Type 0} {m : Act A} {Q : A → Trace → Type 0} {S : R → Trace → Type 0}
      → Triple P m Q
      → Body P (lift m) Q S
  lift_rule h = record { at = h.at }

  pub give_back_rule :
      {R A : Type 0} {m : Act R} {Q : A → Trace → Type 0} {S : R → Trace → Type 0}
      → Triple P m S
      → Body P (give_back m) Q S
  give_back_rule h = record { at = h.at }

  pub run_body_rule :
      {R : Type 0} {m : Routine R R} {S : R → Trace → Type 0}
      → Body P m S S
      → Triple P (run_body m) S
  unfolding run_body
  run_body_rule {m} {S} h = record { at = λ t p. settle_rule S (m t).0 (m t).1 (h.at t p) }

  pub check_rule :
      {R : Type 0} {m : Act Error} {handle : String → Act R} {E : Error → Trace → Type 0}
      {S : R → Trace → Type 0}
      → Triple P m E
      → ((e : String) → Triple (E (some e)) (handle e) S)
      → Body P (check m handle) (λ _. E none) S
  unfolding check
  check_rule {m} {handle} {E} {S} h k = record {
    at = λ t p. judge_rule E S handle k (m t).0 (m t).1 (h.at t p);
  }

  pub bind_rule :
      {R A B : Type 0} {m : Routine R A} {f : A → Routine R B} {Q : A → Trace → Type 0}
      {Q' : B → Trace → Type 0} {S : R → Trace → Type 0}
      → Body P m Q S
      → ((a : A) → Body (Q a) (f a) Q' S)
      → Body P (m >>= f) Q' S
  unfolding ◌>>=◌
  bind_rule {m} {f} {Q} {Q'} {S} h k = record {
    at = λ t p. continue_rule Q Q' S f k (m t).0 (m t).1 (h.at t p);
  }

  pub pure_rule :
      {A : Type 0} {a : A} {Q : A → Trace → Type 0}
      → ((t : Trace) → P t → Q a t)
      → Triple P (pure a) Q
  pure_rule h = record { at = h }

  pub weaken_rule :
      {A : Type 0} {m : Act A} {P' : Trace → Type 0} {Q : A → Trace → Type 0}
      → ((t : Trace) → P t → P' t)
      → Triple P' m Q
      → Triple P m Q
  weaken_rule w h = record { at = λ t p. h.at t (w t p) }

  pub strengthen_rule :
      {A : Type 0} {m : Act A} {Q Q' : A → Trace → Type 0}
      → Triple P m Q
      → ((a : A) (t : Trace) → Q a t → Q' a t)
      → Triple P m Q'
  strengthen_rule {m} h w = record { at = λ t p. w (m t).0 (m t).1 (h.at t p) }

  pub relax_rule :
      {R A : Type 0} {m : Routine R A} {Q Q' : A → Trace → Type 0} {S : R → Trace → Type 0}
      → Body P m Q S
      → ((a : A) (t : Trace) → Q a t → Q' a t)
      → Body P m Q' S
  relax_rule {m} {Q} {Q'} {S} h w = record { at = λ t p. relax Q Q' S w (m t).0 (m t).1 (h.at t p) }

  pub before_rule :
      {R A : Type 0} {m : Routine R A} {P' : Trace → Type 0} {Q : A → Trace → Type 0}
      {S : R → Trace → Type 0}
      → ((t : Trace) → P t → P' t)
      → Body P' m Q S
      → Body P m Q S
  before_rule w h = record { at = λ t p. h.at t (w t p) }

  pub if_rule :
      {R A : Type 0} {m n : Routine R A} {Q : A → Trace → Type 0} {S : R → Trace → Type 0}
      (b : Bool)
      → Body P m Q S
      → Body P n Q S
      → Body P (if b then m else n) Q S
  if_rule true hm hn = hm
  if_rule false hm hn = hn

  pub act_if_rule :
      {A : Type 0} {m n : Act A} {Q : A → Trace → Type 0} (b : Bool)
      → Triple P m Q
      → Triple P n Q
      → Triple P (if b then m else n) Q
  act_if_rule true hm hn = hm
  act_if_rule false hm hn = hn
