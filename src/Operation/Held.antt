-- ===== src/Operation/Held.antt =====
-- What `reconcileOperation` of internal/operation/manager.go does to an operation that may have
-- restored data, and when it says that an operation ended well.
use geoflow_updater.Prelude.{
  String, ◌≡◌, ◌⊎◌, refl, sym, subst, inl, inr, Bool, true, false, Option, none, some, [], ◌∷◌,
  Error, str_eq, if◌then◌else◌,
}
use geoflow_updater.Prelude.Result.{Result, ok, err}
use geoflow_updater.Update.Journal.{Stage, Result as ReleaseResult}
use geoflow_updater.Coordination.Records.{Head}
use geoflow_updater.Coordination.Files.{Failure, not_exist}
use geoflow_updater.Operation.Stages.{has_durable_resume_boundary, has_legacy_restore_hold}
use geoflow_updater.Operation.Recovery.{legacy_partial_restore, restores_data}
use geoflow_updater.Operation.Records.{
  Kind, update, backup, rollback, verify, switch_back, other_kind, Operation, Happening, saved,
  unsaved, Log, Host, State,
}
use geoflow_updater.Operation.Steps.{bounded, save, save_result, update_stage}
use geoflow_updater.Operation.Extends.{Extends}
use geoflow_updater.Operation.Reconcile.{
  Verdict, failed_start, reconcile_as, handled, after_release, legacy_held, hold_legacy,
  reconcile_started, never_started, unless_admitted, reconcile_operation,
}

-- A write of the journal.
abbrev pub IsNote : Happening → Type 0
IsNote (saved o) = Unit
IsNote (unsaved o e) = Unit
IsNote _ = ⊥

-- The deployment was not called, and no success is reported.
abbrev pub IsHeld : State → Verdict × State → Type 0
IsHeld s (v, s') = Extends IsNote s s' × ((v ≡ failed_start) ⊎ ((e : String) × (v ≡ err e)))

-- What holds an operation back: an uncertain legacy restore, or no durable resume boundary, for a data
-- recovery, or for an update of which `ReconcileRelease` finds no journal.
abbrev pub IsBlocked : Option (Operation → Option ReleaseResult) → Operation → Type 0
IsBlocked release o =
    (legacy_partial_restore o ≡ true)
    ⊎ ((handled release o ≡ none)
        × (restores_data o.kind ≡ true)
        × (has_durable_resume_boundary o.stages ≡ false))

Extends-refl : (s : State) → Extends IsNote s s
Extends-refl s = record { news = []; sort = tt; grown = refl; same_id = refl }

save-IsNote :
    (e : Error) (o o' : Operation) (l : Log)
    → o'.id ≡ o.id
    → Extends IsNote (o, l) (save_result e o' l).1
save-IsNote none o o' l p = record {
  news = saved o' ∷ [];
  sort = (tt, tt);
  grown = refl;
  same_id = p;
}
save-IsNote (some e) o o' l p = record {
  news = unsaved o' e ∷ [];
  sort = (tt, tt);
  grown = refl;
  same_id = p;
}

legacy_held-IsHeld :
    (s : State) (r : Error × State) → Extends IsNote s r.1 → IsHeld s (legacy_held r)
legacy_held-IsHeld s (none, t) h = (h, inr (_, refl))
legacy_held-IsHeld s (some e, t) h = (h, inr (_, refl))

verdict_if :
    (s : State) (b : Bool) {x y : Verdict × State}
    → IsHeld s x
    → IsHeld s y
    → IsHeld s (if b then x else y)
verdict_if s true p q = p
verdict_if s false p q = q

module _ ⦃host : Host⦄ where
  update_stage-IsNote : (st : Stage) (s : State) → Extends IsNote s (update_stage st s).1
  unfolding update_stage save bounded
  update_stage-IsNote st (o, l) = save-IsNote _ o _ l refl

  hold_legacy-IsHeld : (s : State) → IsHeld s (hold_legacy s)
  unfolding hold_legacy
  hold_legacy-IsHeld s =
      verdict_if s (has_legacy_restore_hold s.0.stages) (Extends-refl s, inr (_, refl))
        (legacy_held-IsHeld s _ (update_stage-IsNote _ s))

  -- Without a durable resume boundary.
  unbounded-IsHeld :
      (k : Kind) (s : State)
      → restores_data k ≡ true
      → has_durable_resume_boundary s.0.stages ≡ false
      → IsHeld s (reconcile_as k s)
  unfolding reconcile_as
  unbounded-IsHeld update s r n = rw n (Extends-refl s, inr (_, refl))
  unbounded-IsHeld rollback s r n = rw n (Extends-refl s, inr (_, refl))
  unbounded-IsHeld backup s r n = absurd cc
  unbounded-IsHeld verify s r n = absurd cc
  unbounded-IsHeld switch_back s r n = absurd cc
  unbounded-IsHeld (other_kind x) s r n = absurd cc

  reconcile_started-IsHeld :
      (release : Option (Operation → Option ReleaseResult)) (s : State)
      → IsBlocked release s.0
      → IsHeld s (reconcile_started release s)
  unfolding reconcile_started
  reconcile_started-IsHeld release s (inl h) = rw h (hold_legacy-IsHeld s)
  reconcile_started-IsHeld release s (inr (none', r, n)) =
      verdict_if s (legacy_partial_restore s.0) (hold_legacy-IsHeld s)
        (subst (λ q. IsHeld s (after_release s q)) (sym none') (unbounded-IsHeld s.0.kind s r n))

  unless_admitted-IsHeld :
      (describe : Failure → String) (latest : Result Failure Head)
      (release : Option (Operation → Option ReleaseResult)) (s : State)
      → IsHeld s (reconcile_started release s)
      → IsHeld s (unless_admitted describe latest release s)
  unless_admitted-IsHeld describe (ok h) release s i =
      verdict_if s (str_eq h.operation_id s.0.id) (Extends-refl s, inl refl) i
  unless_admitted-IsHeld describe (err e) release s i = error_case describe e release s i
    where
      error_case :
          (describe : Failure → String) (e : Failure)
          (release : Option (Operation → Option ReleaseResult)) (s : State)
          → IsHeld s (reconcile_started release s)
          → IsHeld s (unless_admitted describe (err e) release s)
      error_case describe not_exist release s i = i
      error_case describe _ release s i = (Extends-refl s, inr (_, refl))

  -- An interrupted operation with an uncertain legacy restore; or a data recovery without a durable
  -- resume boundary, or an update without one where `ReconcileRelease`, if the deployment has it, does
  -- not handle it: but for `ReconcileRelease` its reconciliation makes no call of the deployment, it
  -- only writes the journal, and its outcome is an error or `failed`.
  pub reconcile_operation-IsHeld :
      (describe : Failure → String) (latest : Result Failure Head)
      (release : Option (Operation → Option ReleaseResult)) (s : State)
      → IsBlocked release s.0
      → IsHeld s (reconcile_operation describe latest release s)
  unfolding reconcile_operation
  reconcile_operation-IsHeld describe latest release s b =
      verdict_if s (never_started s.0.stages s.0.id)
        (unless_admitted-IsHeld describe latest release s (reconcile_started-IsHeld release s b))
        (reconcile_started-IsHeld release s b)
