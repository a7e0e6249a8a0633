-- ===== src/Operation/Recovery.antt =====
-- What internal/operation/manager.go reads from a journal, when an operation was interrupted.
use text.Mathlib.Text.{starts_with}
use geoflow_updater.Prelude.{
  ℕ, zero, suc, ◌-◌, ◌*◌, String, Bool, true, false, not, ◌&&◌, ◌||◌, List, [], ◌∷◌, any, ltb, ◌==◌,
  str_eq, if◌then◌else◌,
}
use geoflow_updater.Update.Journal.{Stage}
use geoflow_updater.Operation.Stages.{legacy_restore_uncertain, has_legacy_restore_hold}
use geoflow_updater.Operation.Records.{
  Kind, update, rollback, OperationStatus, running, failed, recovery_required, Operation,
}

-- `strings.Contains`.
abbrev pub contains_text : String → String → Bool
contains_text String.[] part = starts_with String.[] part
contains_text (String.◌∷◌ c s) part = starts_with (String.◌∷◌ c s) part || contains_text s part

abbrev pub is_update : Kind → Bool
is_update update = true
is_update _ = false

abbrev pub restores_data : Kind → Bool
restores_data rollback = true
restores_data update = true
restores_data _ = false

abbrev pub legacy_failures : List String
legacy_failures =
    "recover interrupted rollback:" ∷ "recover interrupted update:"
    ∷ "quiesce before recovering interrupted rollback:"
    ∷ "quiesce before recovering interrupted update:" ∷ []

-- `legacyPartialRestore`.
unfoldable pub legacy_partial_restore : Operation → Bool
legacy_partial_restore o =
    restores_data o.kind
    && (has_legacy_restore_hold o.stages
        || contains_text o.error legacy_restore_uncertain
        || (not (o.reconcile_attempts == 0) && any (contains_text o.error) legacy_failures))

abbrev is_failed_rollback : Stage → Bool
is_failed_rollback s = str_eq s.name "rollback" && str_eq s.status "failed"

-- The last stage is a failed rollback, or there is none.
abbrev pub ends_in_failed_rollback : List Stage → Bool
ends_in_failed_rollback [] = true
ends_in_failed_rollback (s ∷ []) = is_failed_rollback s
ends_in_failed_rollback (s ∷ t ∷ stages) = ends_in_failed_rollback (t ∷ stages)

-- `recoveryRequired`.
unfoldable pub is_recovery_required : Operation → Bool
is_recovery_required o = elim o.status [
  | recovery_required ↦ true
  | failed ↦
      not (str_eq o.recovery_point_id "")
      && str_eq o.current_stage "rollback"
      && ends_in_failed_rollback o.stages
  | _ ↦ false
]

abbrev pub is_running : OperationStatus → Bool
is_running running = true
is_running _ = false

-- `updateRecoveryNeeded`.
unfoldable pub update_recovery_needed : Operation → Bool
update_recovery_needed o =
    is_update o.kind
    && is_running o.status
    && (str_eq o.current_stage "quiesce"
        || str_eq o.current_stage "backup"
        || str_eq o.current_stage "rollback")

-- The loop of `reconciliationBackoff`, in seconds, for the attempts that are left.
unfoldable pub backoff_loop : ℕ → ℕ → ℕ
backoff_loop zero delay = delay
backoff_loop (suc attempts) delay =
    let rest = backoff_loop attempts (delay * 2) in
    if ltb delay 900 then (if ltb 900 (delay * 2) then 900 else rest) else delay

-- `reconciliationBackoff`.
unfoldable pub reconciliation_backoff : ℕ → ℕ
unfolding backoff_loop
reconciliation_backoff attempts = backoff_loop (attempts - 1) 30
