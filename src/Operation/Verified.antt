-- ===== src/Operation/Verified.antt =====
-- When `reconcileOperation` of internal/operation/manager.go may say that an operation ended well.
use geoflow_updater.Prelude.{
  String, Bool, true, false, none, some, Memᴰ, Error, Option, ◌≡◌, str_eq, if◌then◌else◌,
}
use geoflow_updater.Prelude.Result.{Result, ok, err}
use geoflow_updater.Update.Journal.{Result as ReleaseResult}
use geoflow_updater.Coordination.Records.{Head}
use geoflow_updater.Coordination.Files.{Failure, not_exist}
use geoflow_updater.Operation.Stages.{has_durable_resume_boundary, has_legacy_restore_hold}
use geoflow_updater.Operation.Recovery.{legacy_partial_restore}
use geoflow_updater.Operation.Records.{
  Operation, Kind, update, backup, rollback, verify, switch_back, other_kind, OperationStatus,
  queued, running, succeeded, failed, rolled_back, recovery_required, verifies, resumes, called,
  Host, State,
}
use geoflow_updater.Operation.Steps.{call, step, guarded, with_own_error, resume_and_verify}
use geoflow_updater.Operation.Extends.{Extends-Memᴰ, Called, Stepped, call-Called, step-Stepped}
use geoflow_updater.Operation.Reconcile.{
  Verdict, when_resumed, verified, after_backup, reconcile_as, handled, after_release,
  resumed_status, legacy_held, hold_legacy, reconcile_started, never_started, unless_admitted,
  reconcile_operation,
}

-- The services were verified, and they were resumed before that unless the operation only verifies.
abbrev pub WereVerified : Kind → State → Type 0
WereVerified verify s = Memᴰ (called verifies) s.1
WereVerified _ s = Memᴰ (called verifies) s.1 × Memᴰ (called resumes) s.1

-- A status that is not a failure is only given to a host that was verified.
abbrev pub IsVerified : Kind → Verdict × State → Type 0
IsVerified k (err e, s) = Unit
IsVerified k (ok failed, s) = Unit
IsVerified k (ok _, s) = WereVerified k s

any_status :
    (k : Kind) (status : OperationStatus) (s : State)
    → WereVerified k s
    → IsVerified k (ok status, s)
any_status k queued s h = h
any_status k running s h = h
any_status k succeeded s h = h
any_status k failed s h = tt
any_status k rolled_back s h = h
any_status k recovery_required s h = h

abbrev Resumed : Error × State → Type 0
Resumed (none, s) = Memᴰ (called verifies) s.1 × Memᴰ (called resumes) s.1
Resumed (some e, s) = Unit

either :
    (k : Kind) (b : Bool) (x y : Verdict × State)
    → IsVerified k x
    → IsVerified k y
    → IsVerified k (if b then x else y)
either k true x y p q = p
either k false x y p q = q

module _ ⦃host : Host⦄ where
  verify_after :
      (s : State) (r : Bool × State)
      → Memᴰ (called resumes) s.1
      → Stepped verifies s r
      → Resumed (guarded r with_own_error (λ s. (none, s)))
  verify_after s (true, t) m (h, c, _) = (c, Extends-Memᴰ (called resumes) h m)
  verify_after s (false, t) m h = tt

  resume_after :
      (s : State) (r : Bool × State)
      → Stepped resumes s r
      → Resumed (
          guarded r with_own_error
            λ s. guarded (step "verify" (call verifies) s) with_own_error λ s. (none, s))
  resume_after s (true, t) (h, c, _) =
      verify_after t _ c (step-Stepped verifies "verify" (call verifies) t (call-Called verifies))
  resume_after s (false, t) h = tt

  resume_and_verify-Resumed : (s : State) → Resumed (resume_and_verify s)
  unfolding resume_and_verify
  resume_and_verify-Resumed s =
      resume_after s _ (step-Stepped resumes "resume" (call resumes) s (call-Called resumes))

  when_resumed-IsVerified :
      (k : Kind) (status : OperationStatus) (r : Error × State)
      → ((s : State) → Memᴰ (called verifies) s.1 × Memᴰ (called resumes) s.1 → WereVerified k s)
      → Resumed r
      → IsVerified k (when_resumed status r)
  when_resumed-IsVerified k status (none, s) f h = any_status k status s (f s h)
  when_resumed-IsVerified k status (some e, s) f h = tt

  backup-IsVerified :
      (r : Error × State) → Resumed r → IsVerified backup (after_backup (when_resumed succeeded r))
  backup-IsVerified (none, s) h = any_status backup _ s h
  backup-IsVerified (some e, s) h = tt

  verified-IsVerified :
      (s : State) (r : Error × State) → Called verifies s r → IsVerified verify (verified r)
  verified-IsVerified s (none, t) (h, c, _) = c
  verified-IsVerified s (some e, t) h = tt

  reconcile_as-IsVerified : (k : Kind) (s : State) → IsVerified k (reconcile_as k s)
  unfolding reconcile_as
  reconcile_as-IsVerified backup s = backup-IsVerified _ (resume_and_verify-Resumed s)
  reconcile_as-IsVerified verify s = verified-IsVerified s _ (call-Called verifies s)
  reconcile_as-IsVerified rollback s =
      either rollback (has_durable_resume_boundary s.0.stages) _ _
        (when_resumed-IsVerified rollback succeeded _ (λ s h. h) (resume_and_verify-Resumed s)) tt
  reconcile_as-IsVerified update s =
      either update (has_durable_resume_boundary s.0.stages) _ _
        (when_resumed-IsVerified update (resumed_status s.0) _ (λ s h. h)
          (resume_and_verify-Resumed s))
        tt
  reconcile_as-IsVerified switch_back s = tt
  reconcile_as-IsVerified (other_kind x) s = tt

  legacy_held-IsVerified : (k : Kind) (r : Error × State) → IsVerified k (legacy_held r)
  legacy_held-IsVerified k (none, s) = tt
  legacy_held-IsVerified k (some e, s) = tt

  after_release-IsVerified :
      (s : State) (r : Option ReleaseResult) → r ≡ none → IsVerified s.0.kind (after_release s r)
  after_release-IsVerified s none h = reconcile_as-IsVerified s.0.kind s
  after_release-IsVerified s (some r) h = absurd cc

  module _ (release : Option (Operation → Option ReleaseResult)) (s : State)
      (unhandled : handled release s.0 ≡ none) where
    reconcile_started-IsVerified : IsVerified s.0.kind (reconcile_started release s)
    unfolding reconcile_started hold_legacy
    reconcile_started-IsVerified =
        either s.0.kind (legacy_partial_restore s.0) _ _
          (either s.0.kind (has_legacy_restore_hold s.0.stages) _ _ tt
            (legacy_held-IsVerified s.0.kind _))
          (after_release-IsVerified s (handled release s.0) unhandled)

    unless_admitted-IsVerified :
        (describe : Failure → String) (latest : Result Failure Head)
        → IsVerified s.0.kind (unless_admitted describe latest release s)
    unless_admitted-IsVerified describe (ok h) =
        either s.0.kind (str_eq h.operation_id s.0.id) _ _ tt reconcile_started-IsVerified
    unless_admitted-IsVerified describe (err not_exist) = reconcile_started-IsVerified
    unless_admitted-IsVerified describe (err _) = tt

    -- Where `ReconcileRelease`, if the deployment has it, does not handle the operation, its
    -- reconciliation says that it ended, and not that it failed, only after the services were verified,
    -- and, but for an operation that only verifies, resumed.
    pub reconcile_operation-IsVerified :
        (describe : Failure → String) (latest : Result Failure Head)
        → IsVerified s.0.kind (reconcile_operation describe latest release s)
    unfolding reconcile_operation
    reconcile_operation-IsVerified describe latest =
        either s.0.kind (never_started s.0.stages s.0.id) _ _
          (unless_admitted-IsVerified describe latest) reconcile_started-IsVerified
