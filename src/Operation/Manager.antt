-- ===== src/Operation/Manager.antt =====
-- `Reconcile` of internal/operation/manager.go, for a current operation that was read, under the lock
-- and after `repairAdmissions`.
use geoflow_updater.Prelude.{
  ℕ, suc, ◌+◌, ◌≤◌, ◌<◌, ◌≡◌, String, Bool, true, false, not, ◌&&◌, ◌||◌, Option, none, some, [],
  ◌∷◌, Error, joined, concat, ltb, if◌then◌else◌,
}
use geoflow_updater.Prelude.Result.{Result, ok, err}
use geoflow_updater.Update.Journal.{Result as ReleaseResult}
use geoflow_updater.Coordination.Records.{Head}
use geoflow_updater.Coordination.Files.{Failure}
use geoflow_updater.Operation.Records.{
  OperationStatus, queued, running, recovery_required, Operation, called, refused, saved, unsaved,
  Log, Host, State,
}
use geoflow_updater.Operation.Recovery.{is_recovery_required, reconciliation_backoff}
use geoflow_updater.Operation.Steps.{save}
use geoflow_updater.Operation.Reconcile.{Verdict, reconcile_operation}

abbrev pub is_open : OperationStatus → Bool
is_open queued = true
is_open running = true
is_open _ = false

-- The next attempt is still to come.
abbrev pub waits : ℕ → Option ℕ → Bool
waits now none = false
waits now (some next) = ltb now next

-- Whether `Reconcile` takes up an operation.
unfoldable pub takes_up : ℕ → Operation → Bool
takes_up now o =
    (is_open o.status || is_recovery_required o)
    && not (is_recovery_required o && waits now o.next_reconcile_at)

-- An attempt that failed.
abbrev pub attempted : ℕ → String → Operation → Operation
attempted now e o = record o {
  status = recovery_required;
  error = concat ("updater service could not recover an interrupted operation: " ∷ e ∷ []);
  reconcile_attempts = suc o.reconcile_attempts;
  next_reconcile_at = some (now + reconciliation_backoff (suc o.reconcile_attempts));
}

abbrev pub reconciled : OperationStatus → Operation → Operation
reconciled status o = record o {
  status = status;
  error = "updater service recovered an interrupted operation";
  current_stage = "reconciled";
  reconcile_attempts = 0;
  next_reconcile_at = none;
}

abbrev pub attempt_error : String → Error × State → Error × State
attempt_error e (none, s) = (some e, s)
attempt_error e (some x, s) =
    (some (joined e (some (concat ("persist failed operation recovery: " ∷ x ∷ [])))), s)

module _ ⦃host : Host⦄ where
  -- The end of `Reconcile`. The operation in the result is its local variable; which operation is on
  -- disk is read from the log (`on_file`).
  unfoldable pub settle_reconciliation : ℕ → Verdict × State → Error × State
  settle_reconciliation now (ok status, (o, l)) = save (reconciled status o, l)
  settle_reconciliation now (err e, (o, l)) = attempt_error e (save (attempted now e o, l))

  -- `Reconcile`.
  unfoldable pub reconcile :
      ℕ
      → (Failure → String)
      → Result Failure Head
      → Option (Operation → Option ReleaseResult)
      → State
      → Error × State
  reconcile now describe latest release s =
      if not (takes_up now s.0)
      then (none, s)
      else if not host.available
      then (some "deployment service is unavailable", s)
      else settle_reconciliation now (reconcile_operation describe latest release s)

-- The operation asks for recovery, is left alone for at least half a minute, and is taken up again at
-- the latest after a quarter of an hour.
abbrev WillRetry : ℕ → Operation → Type 0
WillRetry now o =
    (o.status ≡ recovery_required)
    × ((later : ℕ) → later < now + 30 → takes_up later o ≡ false)
    × ((later : ℕ) → now + 900 ≤ later → takes_up later o ≡ true)

-- The operation on disk after a log, from what it was before: the newest that was written.
abbrev pub on_file : Operation → Log → Operation
on_file before [] = before
on_file before (saved o ∷ l) = o
on_file before (unsaved o e ∷ l) = on_file before l
on_file before (called m ∷ l) = on_file before l
on_file before (refused m e ∷ l) = on_file before l

-- What becomes of the operation on disk, with the error of the last write: it is taken up again at
-- the latest after a quarter of an hour, and where it was written, it asks for recovery and is left
-- alone for half a minute.
pub record IsRetried (now : ℕ) (o : Operation) (written : Error) : Type 0 where
  pub again : (later : ℕ) → now + 900 ≤ later → takes_up later o ≡ true
  pub noted :
      written ≡ none
      → (o.status ≡ recovery_required) × ((later : ℕ) → later < now + 30 → takes_up later o ≡ false)
