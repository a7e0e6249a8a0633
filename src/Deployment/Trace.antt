-- ===== src/Deployment/Trace.antt =====
-- The rules for what internal/deployment does before it has read or made its transaction: only the
-- log is known.
use geoflow_updater.Prelude.{
  ◌≡◌, refl, String, Bool, true, false, Error, Option, none, some, ◌∷◌, any, if◌then◌else◌, arith,
}
use geoflow_updater.Prelude.Result.{Result, ok, err}
use geoflow_updater.Coordination.Files.{WriteEnd, clean, early, late}
use geoflow_updater.Deployment.Journal.{
  Transaction, Call, Event, made, wrote, reported, Log, Run, Env,
}
use geoflow_updater.Deployment.Task.{
  Task, proceed, ◌>>=◌, done, fail, modify, look, answered, call, written, save_transaction, told,
  report, ignored, ignore, caught, try, require,
}
use geoflow_updater.Deployment.Protocol.{opens, Allowed, Follows}
use geoflow_updater.Deployment.Rules.{After, Triple}

-- The log keeps to the protocol and, where it is asked for, nothing was opened.
pub record Before (unopened : Bool) (s : Run) : Type 0 where
  pub follows : Follows s.log
  pub closed : unopened ≡ true → any opens s.log ≡ false

abbrev pub Ends : {A : Type 0} → (A → Run → Type 0) → Run × Result String A → Type 0
Ends Q (s, err e) = Follows s.log
Ends Q (s, ok a) = Q a s

pub record Traced {A : Type 0} (P : Run → Type 0) (m : Task A) (Q : A → Run → Type 0) : Type 0 where
  pub at : (s : Run) → P s → Ends Q (m s)

proceed_traced :
    {A B : Type 0} (Q : A → Run → Type 0) (R : B → Run → Type 0) (f : A → Task B)
    → ((a : A) → Traced (Q a) (f a) R)
    → (o : Run × Result String A) → Ends Q o
    → Ends R (proceed o f)
proceed_traced Q R f k (s, err e) h = h
proceed_traced Q R f k (s, ok a) h = (k a).at s h

caught_traced :
    {A : Type 0} (Q : A → Run → Type 0) (o : Run × Result String A)
    → Ends Q o
    → Ends (λ (r : Result String A) s. Ends Q (s, r)) (caught o)
caught_traced Q (s, err e) h = h
caught_traced Q (s, ok a) h = h

After-Ends :
    {A : Type 0} (Q R : A → Run → Type 0) (o : Run × Result String A)
    → ((a : A) (s : Run) → Q a s → R a s)
    → After Q o
    → Ends R o
After-Ends Q R (s, err e) w h = h.follows
After-Ends Q R (s, ok a) w h = w a s h

Ends-map :
    {A : Type 0} (Q R : A → Run → Type 0) (o : Run × Result String A)
    → ((a : A) (s : Run) → Q a s → R a s)
    → Ends Q o
    → Ends R o
Ends-map Q R (s, err e) w h = h
Ends-map Q R (s, ok a) w h = w a s h

ignored_traced :
    {A : Type 0} (o : Run × Result String A)
    → Ends (λ (a : A) s. Follows s.log) o
    → Ends (λ u s. Follows s.log) (ignored o)
ignored_traced (s, err e) h = h
ignored_traced (s, ok a) h = h

pub Ends-Follows :
    {A : Type 0} (o : Run × Result String A) → Ends (λ (a : A) s. Follows s.log) o → Follows o.0.log
Ends-Follows (s, err e) h = h
Ends-Follows (s, ok a) h = h

pub Before-event :
    {unopened : Bool} (x : Event) (s t : Run)
    → t.log ≡ x ∷ s.log
    → (Follows s.log → Follows (x ∷ s.log))
    → opens x ≡ false
    → Before unopened s
    → Before unopened t
Before-event x s t p g q h = record {
  follows = rw p (g h.follows);
  closed = λ u. let c = h.closed u in rw p (ground arith);
}

module _ {P : Run → Type 0} where
  pub bind_traced :
      {A B : Type 0} {m : Task A} {f : A → Task B} {Q : A → Run → Type 0} {R : B → Run → Type 0}
      → Traced P m Q
      → ((a : A) → Traced (Q a) (f a) R)
      → Traced P (m >>= f) R
  unfolding ◌>>=◌
  bind_traced {m} {f} {Q} {R} h k = record { at = λ s p. proceed_traced Q R f k (m s) (h.at s p) }

  pub before_traced :
      {A : Type 0} {m : Task A} {P' : Run → Type 0} {Q : A → Run → Type 0}
      → ((s : Run) → P s → P' s)
      → Traced P' m Q
      → Traced P m Q
  before_traced w h = record { at = λ s p. h.at s (w s p) }

  pub try_traced :
      {A : Type 0} {m : Task A} {Q : A → Run → Type 0}
      → Traced P m Q
      → Traced P (try m) (λ r s. Ends Q (s, r))
  unfolding try
  try_traced {m} {Q} h = record { at = λ s p. caught_traced Q (m s) (h.at s p) }

  pub if_traced :
      {A : Type 0} {m n : Task A} {Q : A → Run → Type 0} (b : Bool)
      → (b ≡ true → Traced P m Q)
      → (b ≡ false → Traced P n Q)
      → Traced P (if b then m else n) Q
  if_traced true h k = h refl
  if_traced false h k = k refl

  pub weaken_traced :
      {A : Type 0} {m : Task A} {Q R : A → Run → Type 0}
      → ((a : A) (s : Run) → Q a s → R a s)
      → Traced P m Q
      → Traced P m R
  weaken_traced {m} {Q} {R} w h = record { at = λ s p. Ends-map Q R (m s) w (h.at s p) }

  -- What does not depend on the state is known to the rest.
  pub given_traced :
      {A : Type 0} {X : Type 0} {m : Task A} {Q : A → Run → Type 0}
      → (X → Traced P m Q)
      → Traced (λ s. P s × X) m Q
  given_traced k = record { at = λ s h. (k h.1).at s h.0 }

  pub done_traced :
      {A : Type 0} {Q : A → Run → Type 0} (a : A) → ((s : Run) → P s → Q a s) → Traced P (done a) Q
  unfolding done
  done_traced a h = record { at = h }

  pub ignore_traced :
      {A : Type 0} {m : Task A}
      → Traced P m (λ a s. Follows s.log)
      → Traced P (ignore m) (λ u s. Follows s.log)
  unfolding ignore
  ignore_traced {m} h = record { at = λ s p. ignored_traced (m s) (h.at s p) }

  -- A task that keeps to the protocol with its transaction known.
  pub sound_traced :
      {A : Type 0} {m : Task A} {P' : Run → Type 0} {Q R : A → Run → Type 0}
      → ((s : Run) → P s → P' s)
      → Triple P' m Q
      → ((a : A) (s : Run) → Q a s → R a s)
      → Traced P m R
  sound_traced {m} {Q} {R} w h k = record { at = λ s p. After-Ends Q R (m s) k (h.at s (w s p)) }

module _ (unopened : Bool) where
  pub require_traced :
      (b : Bool) (message : String)
      → Traced (Before unopened) (require b message) (λ u s. Before unopened s × (b ≡ true))
  unfolding done fail
  require_traced true message = record { at = λ s h. (h, refl) }
  require_traced false message = record { at = λ s h. h.follows }

  pure_ends :
      {A : Type 0} (r : Result String A) (s : Run)
      → Before unopened s
      → Ends (λ (a : A). Before unopened) (s, r)
  pure_ends (ok a) s h = h
  pure_ends (err e) s h = h.follows

  -- A value that is only looked up.
  pub pure_traced :
      {A : Type 0} (f : Run → Result String A)
      → Traced (Before unopened) (λ s. (s, f s)) (λ a. Before unopened)
  pure_traced f = record { at = λ s h. pure_ends (f s) s h }

  answered_ends :
      (e : Error) (s : Run) → Before unopened s → Ends (λ u. Before unopened) (s, answered e)
  answered_ends none s h = h
  answered_ends (some e) s h = h.follows

  module _ ⦃env : Env⦄ where
    pub look_traced :
        {A : Type 0} (show : Log → A) → Traced (Before unopened) (look show) (λ a. Before unopened)
    unfolding look
    look_traced show = record { at = λ s h. h }

    pub call_traced :
        (c : Call)
        → ((log : Log) → Allowed c log)
        → ((e : Error) → opens (made c e) ≡ false)
        → Traced (Before unopened) (call c) (λ u. Before unopened)
    unfolding call
    call_traced c a q = record {
      at = λ s h.
          let e = env.answer s.log c in
          answered_ends e _ (Before-event (made c e) s _ refl (λ f. (a s.log, f)) (q e) h);
    }

    written_traced :
        (w : WriteEnd) (s : Run) → Before unopened s → Ends (λ u. Before unopened) (written w s)
    written_traced clean s h =
        Before-event (wrote s.tx.traffic_opened clean) s _ refl (λ f. f) refl h
    written_traced (early e) s h = h.follows
    written_traced (late e) s h = h.follows

    pub save_traced : Traced (Before unopened) save_transaction (λ u. Before unopened)
    unfolding save_transaction
    save_traced = record { at = λ s h. written_traced (env.write_end s.log) s h }

    told_traced :
        (o : Option (Log → String → String → Error)) (name status : String)
        → Traced (Before unopened) (told o name status) (λ u. Before unopened)
    told_traced none name status = record { at = λ s h. h }
    told_traced (some observe) name status = record {
      at = λ s h.
          let e = observe s.log name status in
          answered_ends e _ (Before-event (reported name status e) s _ refl (λ f. f) refl h);
    }

    pub report_traced :
        (name status : String)
        → Traced (Before unopened) (report name status) (λ u. Before unopened)
    unfolding report
    report_traced name status = told_traced env.observer name status

  pub modify_traced :
      (change : Transaction → Transaction)
      → Traced (Before unopened) (modify change) (λ u. Before unopened)
  unfolding modify
  modify_traced change = record { at = λ s h. record { follows = h.follows; closed = h.closed } }

pub Before-log : (s : Run) → Follows s.log → Before false s
Before-log s h = record { follows = h; closed = λ u. absurd (ground arith) }

-- What is left of a task that was tried.
pub tried-Before :
    {A : Type 0} (Q : A → Run → Type 0) (r : Result String A) (s : Run)
    → ((a : A) → Q a s → Follows s.log)
    → Ends Q (s, r)
    → Before false s
tried-Before Q (ok a) s w h = Before-log s (w a h)
tried-Before Q (err e) s w h = Before-log s h
