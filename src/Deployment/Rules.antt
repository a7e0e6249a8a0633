-- ===== src/Deployment/Rules.antt =====
-- The rules by which a task of internal/deployment keeps to the protocol.
use geoflow_updater.Prelude.{
  ◌≡◌, refl, String, Bool, true, false, not, ◌&&◌, List, [], any, str_eq, All, if◌then◌else◌,
}
use geoflow_updater.Prelude.Result.{Result, ok, err}
use geoflow_updater.Deployment.Journal.{Transaction, Event, Run}
use geoflow_updater.Deployment.Task.{
  Task, proceed, ◌>>=◌, ◌>>◌, done, ignored, ignore, caught, try, named, wrap,
}
use geoflow_updater.Deployment.Protocol.{opens, Has, Follows}

-- A transaction whose data may still be restored.
abbrev pub is_restorable : Transaction → Bool
is_restorable tx = not tx.traffic_opened && not (str_eq tx.strategy "online")

-- The log keeps to the protocol; as long as the data may be restored, nothing was opened; the
-- transaction passes a test; and these things have happened.
pub record Held (test : Transaction → Bool) (facts : List (Event → Bool)) (s : Run) : Type 0 where
  pub follows : Follows s.log
  pub closed : is_restorable s.tx ≡ true → any opens s.log ≡ false
  pub passes : test s.tx ≡ true
  pub happened : All (λ f. Has f s.log) facts

abbrev pub any_state : Transaction → Bool
any_state tx = true

-- The state at an error.
abbrev pub Sound : Run → Type 0
Sound s = Held any_state [] s

abbrev pub After : {A : Type 0} → (A → Run → Type 0) → Run × Result String A → Type 0
After Q (s, err e) = Sound s
After Q (s, ok a) = Q a s

pub record Triple {A : Type 0} (P : Run → Type 0) (m : Task A) (Q : A → Run → Type 0) : Type 0 where
  pub at : (s : Run) → P s → After Q (m s)

proceed_rule :
    {A B : Type 0} (Q : A → Run → Type 0) (R : B → Run → Type 0) (f : A → Task B)
    → ((a : A) → Triple (Q a) (f a) R)
    → (o : Run × Result String A) → After Q o
    → After R (proceed o f)
proceed_rule Q R f k (s, err e) h = h
proceed_rule Q R f k (s, ok a) h = (k a).at s h

caught_rule :
    {A : Type 0} (Q : A → Run → Type 0) (o : Run × Result String A)
    → After Q o
    → After (λ (r : Result String A) s. After Q (s, r)) (caught o)
caught_rule Q (s, err e) h = h
caught_rule Q (s, ok a) h = h

named_rule :
    {A : Type 0} (Q : A → Run → Type 0) (name : String) (o : Run × Result String A)
    → After Q o
    → After Q (named name o)
named_rule Q name (s, err e) h = h
named_rule Q name (s, ok a) h = h

ignored_rule :
    {A : Type 0} (Q : A → Run → Type 0) (o : Run × Result String A)
    → After Q o
    → ((a : A) (s : Run) → Q a s → Sound s)
    → After (λ (u : Unit {0}). Sound) (ignored o)
ignored_rule Q (s, err e) h k = h
ignored_rule Q (s, ok a) h k = k a s h

After-map :
    {A : Type 0} (Q R : A → Run → Type 0) (o : Run × Result String A)
    → ((a : A) (s : Run) → Q a s → R a s)
    → After Q o
    → After R o
After-map Q R (s, err e) w h = h
After-map Q R (s, ok a) w h = w a s h

pub forget :
    (test : Transaction → Bool) (facts : List (Event → Bool)) (s : Run)
    → Held test facts s
    → Sound s
forget test facts s h = record {
  follows = h.follows;
  closed = h.closed;
  passes = refl;
  happened = tt;
}

module _ {P : Run → Type 0} where
  pub bind_rule :
      {A B : Type 0} {m : Task A} {f : A → Task B} {Q : A → Run → Type 0} {R : B → Run → Type 0}
      → Triple P m Q
      → ((a : A) → Triple (Q a) (f a) R)
      → Triple P (m >>= f) R
  unfolding ◌>>=◌
  bind_rule {m} {f} {Q} {R} h k = record { at = λ s p. proceed_rule Q R f k (m s) (h.at s p) }

  pub before_rule :
      {A : Type 0} {m : Task A} {P' : Run → Type 0} {Q : A → Run → Type 0}
      → ((s : Run) → P s → P' s)
      → Triple P' m Q
      → Triple P m Q
  before_rule w h = record { at = λ s p. h.at s (w s p) }

  pub if_rule :
      {A : Type 0} {m n : Task A} {Q : A → Run → Type 0} (b : Bool)
      → (b ≡ true → Triple P m Q)
      → (b ≡ false → Triple P n Q)
      → Triple P (if b then m else n) Q
  if_rule true h k = h refl
  if_rule false h k = k refl

  pub done_rule :
      {A : Type 0} {Q : A → Run → Type 0} (a : A) → ((s : Run) → P s → Q a s) → Triple P (done a) Q
  unfolding done
  done_rule a h = record { at = h }

  pub try_rule :
      {A : Type 0} {m : Task A} {Q : A → Run → Type 0}
      → Triple P m Q
      → Triple P (try m) (λ r s. After Q (s, r))
  unfolding try
  try_rule {m} {Q} h = record { at = λ s p. caught_rule Q (m s) (h.at s p) }

  pub wrap_rule :
      {A : Type 0} (name : String) {m : Task A} {Q : A → Run → Type 0}
      → Triple P m Q
      → Triple P (wrap name m) Q
  unfolding wrap
  wrap_rule name {m} {Q} h = record { at = λ s p. named_rule Q name (m s) (h.at s p) }

  pub ignore_rule :
      {A : Type 0} {m : Task A} {Q : A → Run → Type 0}
      → Triple P m Q
      → ((a : A) (s : Run) → Q a s → Sound s)
      → Triple P (ignore m) (λ u. Sound)
  unfolding ignore
  ignore_rule {m} {Q} h k = record { at = λ s p. ignored_rule Q (m s) (h.at s p) k }

  pub then_rule :
      {B : Type 0} {m : Task (Unit {0})} {n : Task B} {Q : Run → Type 0} {R : B → Run → Type 0}
      → Triple P m (λ u. Q)
      → Triple Q n R
      → Triple P (m >> n) R
  then_rule h k = bind_rule h (λ u. k)

  pub after_rule :
      {A : Type 0} {m : Task A} {Q R : A → Run → Type 0}
      → ((a : A) (s : Run) → Q a s → R a s)
      → Triple P m Q
      → Triple P m R
  after_rule {m} {Q} {R} w h = record { at = λ s p. After-map Q R (m s) w (h.at s p) }
