-- ===== src/Update/Phases.antt =====
-- What is known of the trace between two steps of the engine, and what its actions make of it.
use geoflow_updater.Prelude.{String, ◌≡◌, refl, Option, none, some, List, [], ◌∷◌, Memᴰ, All, Error}
use geoflow_updater.Update.Journal.{
  Stage, Context, Call, Event, recorded, unrecorded, done, broken, Trace, Observer, Env,
}
use geoflow_updater.Update.Engine.Emit.{stage_of, observed, emit_to, answered, emit, call}
use geoflow_updater.Update.Protocol.{
  Level, calm, stopped, free, WithinCall, IsWithin, IsNewest, Facts, Allowed, Admissible, IsSound,
}
use geoflow_updater.Update.Triples.{Triple}

-- Sound so far, within a level, and with the events listed behind it.
pub record Held (l : Level) (es : List Event) (t : Trace) : Type 0 where
  pub sound : IsSound t
  pub within : All (IsWithin l) t
  pub facts : Facts es t

-- A condition for a nil error, and one for any other.
abbrev pub Either : (Trace → Type 0) → (String → Trace → Type 0) → Error → Trace → Type 0
Either G B none t = G t
Either G B (some e) t = B e t

pub Facts-cons : (es : List Event) (e : Event) (t : Trace) → Facts es t → Facts es (e ∷ t)
Facts-cons [] e t h = tt
Facts-cons (x ∷ es) e t h = (Memᴰ.tail h.0, Facts-cons es e t h.1)

IsWithin-free : (t : Trace) → All (IsWithin free) t
IsWithin-free [] = tt
IsWithin-free (recorded _ ∷ t) = (tt, IsWithin-free t)
IsWithin-free (done _ _ ∷ t) = (tt, IsWithin-free t)
IsWithin-free (broken _ _ _ ∷ t) = (tt, IsWithin-free t)
IsWithin-free (_ ∷ t) = (tt, IsWithin-free t)

pub Held-free : {l : Level} {es : List Event} (t : Trace) → Held l es t → Held free es t
Held-free t h = record { sound = h.sound; within = IsWithin-free t; facts = h.facts }

calm_call : (k : Call) → WithinCall calm k → WithinCall stopped k
calm_call (Call.preflight _) h = refl
calm_call (Call.pull _) h = refl
calm_call Call.resume h = cc
calm_call _ h = refl

pub IsWithin-stopped : (t : Trace) → All (IsWithin calm) t → All (IsWithin stopped) t
IsWithin-stopped [] h = tt
IsWithin-stopped (done _ k ∷ t) h = (calm_call k h.0, IsWithin-stopped t h.1)
IsWithin-stopped (broken _ k _ ∷ t) h = (calm_call k h.0, IsWithin-stopped t h.1)
IsWithin-stopped (_ ∷ t) h = (tt, IsWithin-stopped t h.1)

pub Held-stopped : {es : List Event} (t : Trace) → Held calm es t → Held stopped es t
Held-stopped t h = record { sound = h.sound; within = IsWithin-stopped t h.within; facts = h.facts }

-- One more event, which was admissible and stays within the level.
pub grow :
    {l : Level} {es : List Event} (e : Event) (t : Trace)
    → Admissible t e
    → IsWithin l e
    → Held l es t
    → Held l (e ∷ es) (e ∷ t)
grow {es = es} e t a w h = record {
  sound = (a, h.sound);
  within = (w, h.within);
  facts = (Memᴰ.head refl, Facts-cons es e t h.facts);
}

pub forget : {l : Level} {e : Event} {es : List Event} (t : Trace) → Held l (e ∷ es) t → Held l es t
forget t h = record { sound = h.sound; within = h.within; facts = h.facts.1 }

-- A stage that the observer persisted stands at the head of the journal.
abbrev pub Marked : Level → List Event → Stage → Error → Trace → Type 0
Marked l es stage =
    Either (λ t. IsNewest (recorded stage) t × Held l (recorded stage ∷ es) t) (λ _. Held l es)

module _ {l : Level} {es : List Event} (stage : Stage) where
  observed_keeps : (x : Error) (t : Trace) → Held l es t → Held l es (observed x stage t).1
  observed_keeps none t h = forget _ (grow (recorded stage) t tt tt h)
  observed_keeps (some e) t h = forget _ (grow (unrecorded stage e) t tt tt h)

  emit_to_keeps : (o : Option Observer) (t : Trace) → Held l es t → Held l es (emit_to o stage t).1
  emit_to_keeps none t h = h
  emit_to_keeps (some o) t h = observed_keeps (o t stage) t h

  observed_marks :
      (x : Error) (t : Trace)
      → Held l es t
      → Marked l es stage (observed x stage t).0 (observed x stage t).1
  observed_marks none t h = (refl, grow (recorded stage) t tt tt h)
  observed_marks (some e) t h = forget _ (grow (unrecorded stage e) t tt tt h)

answered_keeps :
    {l : Level} {es : List Event} (x : Error) (c : Context) (k : Call) (t : Trace)
    → WithinCall l k
    → Held l es t
    → Allowed t c k
    → Either
        (Held l (done c k ∷ es))
        (λ e. Held l (broken c k e ∷ es))
        (answered x c k t).0
        (answered x c k t).1
answered_keeps none c k t w h a = grow (done c k) t a w h
answered_keeps (some e) c k t w h a = grow (broken c k e) t a w h

module _ ⦃env : Env⦄ where
  -- Whatever the observer does, a stage keeps what is known.
  pub emit_rule :
      {l : Level} {es : List Event} (n s m : String)
      → Triple (Held l es) (emit n s m) (λ _. Held l es)
  unfolding emit
  emit_rule n s m = record { at = λ t h. emit_to_keeps (stage_of n s m) env.observe t h }

  -- A stage that is persisted stands at the head of the journal.
  pub mark_rule :
      {l : Level} {es : List Event} {o : Observer} (n s m : String)
      → env.observe ≡ some o
      → Triple (Held l es) (emit n s m) (Marked l es (stage_of n s m))
  unfolding emit
  mark_rule {o = o} n s m e = record {
    at = λ t h. rw e (observed_marks (stage_of n s m) (o t (stage_of n s m)) t h);
  }

  -- A method that is allowed is recorded with its answer.
  pub call_rule :
      {P : Trace → Type 0} {l : Level} {es : List Event} (c : Context) (k : Call)
      → WithinCall l k
      → ((t : Trace) → P t → Held l es t)
      → ((t : Trace) → P t → Allowed t c k)
      → Triple P (call c k) (Either (Held l (done c k ∷ es)) (λ e. Held l (broken c k e ∷ es)))
  unfolding call
  call_rule c k w held allowed = record {
    at = λ t h. answered_keeps (env.deployment.answer t c k) c k t w (held t h) (allowed t h);
  }
