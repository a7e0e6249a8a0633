-- ===== src/Deployment/Steps.antt =====
-- How the steps of a release transaction of internal/deployment keep to the protocol: what is read,
-- what is changed, a call, a write of the transaction and a report.
use geoflow_updater.Prelude.{
  ◌≡◌, refl, String, Bool, true, false, Error, Option, none, some, List, [], ◌∷◌, any, All, arith,
}
use geoflow_updater.Coordination.Files.{WriteEnd, clean, early, late}
use geoflow_updater.Deployment.Journal.{
  Transaction, Call, Event, made, wrote, reported, Log, Run, Env,
}
use geoflow_updater.Deployment.Task.{
  done, fail, get, modify, look, answered, call, written, save_transaction, told, report, require,
}
use geoflow_updater.Deployment.Protocol.{opens, marks_opened, Has, Allowed, Follows}
use geoflow_updater.Deployment.Rules.{is_restorable, Held, After, Triple, forget}

-- What happened stays so.
All-Has-cons :
    (facts : List (Event → Bool)) (x : Event) (log : Log)
    → All (λ f. Has f log) facts
    → All (λ f. Has f (x ∷ log)) facts
All-Has-cons [] x log h = tt
All-Has-cons (f ∷ facts) x log (h, hs) = (ground arith, All-Has-cons facts x log hs)

-- An event that does not open the application.
quiet :
    {test : Transaction → Bool} {facts : List (Event → Bool)} (x : Event) (s : Run)
    → opens x ≡ false
    → is_restorable s.tx ≡ true
    → Held test facts s
    → any opens (x ∷ s.log) ≡ false
quiet x s q r h = let c = h.closed r in ground arith

module _ (test : Transaction → Bool) (facts : List (Event → Bool)) where
  pub fail_rule :
      {A : Type 0} {Q : A → Run → Type 0} (message : String)
      → Triple (Held test facts) (fail message) Q
  unfolding fail
  fail_rule message = record { at = λ s h. forget test facts s h }

  pub get_rule : Triple (Held test facts) get (λ tx s. Held test facts s × (s.tx ≡ tx))
  unfolding get
  get_rule = record { at = λ s h. (h, refl) }

  pub require_rule :
      (b : Bool) (message : String)
      → Triple (Held test facts) (require b message) (λ u. Held test facts)
  unfolding done
  require_rule true message = record { at = λ s h. h }
  require_rule false message = fail_rule message

  pub modify_rule :
      (after : Transaction → Bool) (change : Transaction → Transaction)
      → ((tx : Transaction) → test tx ≡ true → after (change tx) ≡ true)
      → ((tx : Transaction)
          → test tx ≡ true
          → is_restorable (change tx) ≡ true
          → is_restorable tx ≡ true)
      → Triple (Held test facts) (modify change) (λ u. Held after facts)
  unfolding modify
  modify_rule after change p q = record {
    at = λ s h. record {
      follows = h.follows;
      closed = λ r. h.closed (q s.tx h.passes r);
      passes = p s.tx h.passes;
      happened = h.happened;
    };
  }

  module _ ⦃env : Env⦄ where
    pub look_rule :
        {A : Type 0} (show : Log → A) → Triple (Held test facts) (look show) (λ a. Held test facts)
    unfolding look
    look_rule show = record { at = λ s h. h }

    -- The state after a call that is allowed, and does not open or opens what may be opened.
    called :
        (c : Call) (e : Error) (s : Run)
        → Allowed c s.log
        → (is_restorable s.tx ≡ true → opens (made c e) ≡ false)
        → Held test facts s
        → Held test facts (record s { log = made c e ∷ s.log })
    called c e s a q h = record {
      follows = (a, h.follows);
      closed = λ r. quiet (made c e) s (q r) r h;
      passes = h.passes;
      happened = All-Has-cons facts (made c e) s.log h.happened;
    }

    ends_call :
        (e : Error) (s : Run) (more : List (Event → Bool))
        → Held test facts s
        → (e ≡ none → Held test more s)
        → After (λ (u : Unit {0}). Held test more) (s, answered e)
    ends_call none s more h k = k refl
    ends_call (some e) s more h k = forget test facts s h

    pub call_rule :
        (c : Call)
        → ((s : Run) → Held test facts s → Allowed c s.log)
        → ((tx : Transaction) (e : Error)
            → test tx ≡ true
            → is_restorable tx ≡ true
            → opens (made c e) ≡ false)
        → Triple (Held test facts) (call c) (λ u. Held test facts)
    unfolding call
    call_rule c a q = record {
      at = λ s h.
          let e = env.answer s.log c in
          let k = called c e s (a s h) (λ r. q s.tx e h.passes r) h in
          ends_call e _ facts k (λ p. k);
    }

    -- A call whose success is a fact.
    pub fact_rule :
        (c : Call) (f : Event → Bool)
        → ((s : Run) → Held test facts s → Allowed c s.log)
        → ((e : Error) → opens (made c e) ≡ false)
        → f (made c none) ≡ true
        → Triple (Held test facts) (call c) (λ u. Held test (f ∷ facts))
    unfolding call
    fact_rule c f a q p = record {
      at = λ s h.
          let e = env.answer s.log c in
          let k = called c e s (a s h) (λ r. q e) h in
          ends_call e _ (f ∷ facts) k (λ z. record {
            follows = k.follows;
            closed = k.closed;
            passes = k.passes;
            happened = (ground arith, k.happened);
          });
    }

    -- An event of the transaction file or the observer.
    noted :
        (x : Event) (file : Option (Option Transaction)) (s : Run)
        → ((log : Log) → Follows log → Follows (x ∷ log))
        → opens x ≡ false
        → Held test facts s
        → Held test facts (record s { file = file; log = x ∷ s.log })
    noted x file s g q h = record {
      follows = g s.log h.follows;
      closed = λ r. quiet x s q r h;
      passes = h.passes;
      happened = All-Has-cons facts x s.log h.happened;
    }

    saved :
        (w : WriteEnd) (s : Run) → Held test facts s → After (λ u. Held test facts) (written w s)
    saved clean s h = noted _ _ s (λ log f. f) refl h
    saved (early e) s h = forget test facts _ (noted _ s.file s (λ log f. f) refl h)
    saved (late e) s h = forget test facts _ (noted _ _ s (λ log f. f) refl h)

    pub save_rule : Triple (Held test facts) save_transaction (λ u. Held test facts)
    unfolding save_transaction
    save_rule = record { at = λ s h. saved (env.write_end s.log) s h }

    saved_mark :
        (w : WriteEnd) (s : Run)
        → s.tx.traffic_opened ≡ true
        → Held test facts s
        → After (λ u. Held test (marks_opened ∷ facts)) (written w s)
    saved_mark clean s p h =
        let k = noted (wrote s.tx.traffic_opened clean) (some (some s.tx)) s (λ log f. f) refl h in
        record {
          follows = k.follows;
          closed = k.closed;
          passes = k.passes;
          happened = (rw p (ground arith), k.happened);
        }
    saved_mark (early e) s p h = forget test facts _ (noted _ s.file s (λ log f. f) refl h)
    saved_mark (late e) s p h = forget test facts _ (noted _ _ s (λ log f. f) refl h)

    -- A write of a transaction that says that traffic may have been opened.
    pub mark_rule :
        ((tx : Transaction) → test tx ≡ true → tx.traffic_opened ≡ true)
        → Triple (Held test facts) save_transaction (λ u. Held test (marks_opened ∷ facts))
    unfolding save_transaction
    mark_rule p = record { at = λ s h. saved_mark (env.write_end s.log) s (p s.tx h.passes) h }

    reported_rule :
        (o : Option (Log → String → String → Error)) (name status : String)
        → Triple (Held test facts) (told o name status) (λ u. Held test facts)
    reported_rule none name status = record { at = λ s h. h }
    reported_rule (some observe) name status = record {
      at = λ s h.
          let e = observe s.log name status in
          let k = noted (reported name status e) s.file s (λ log f. f) refl h in
          ends_call e _ facts k (λ p. k);
    }

    pub report_rule :
        (name status : String)
        → Triple (Held test facts) (report name status) (λ u. Held test facts)
    unfolding report
    report_rule name status = reported_rule env.observer name status
