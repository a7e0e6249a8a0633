-- ===== src/Operation/Smooth.antt =====
-- A data recovery against which nothing fails, for the code of internal/operation/manager.go.
use geoflow_updater.Prelude.{String, ◌≡◌, refl, sym, subst, true, none}
use geoflow_updater.Operation.Records.{OperationStatus, Operation, Method, Log, Host, State}
use geoflow_updater.Operation.Steps.{bounded, save, update_stage, call, step}
use geoflow_updater.Operation.Runners.{rollback_runner}

-- A host that answers as `h` does where nothing fails.
abbrev willing : Host → Host
willing h = record h { available = true; answer = λ l m. none; save = λ l o. none }

willing_runs :
    (h : Host) (point : String) (s : State)
    → (rollback_runner ⦃host = willing h⦄ point s).0.status ≡ OperationStatus.succeeded
unfolding rollback_runner step update_stage save call bounded
willing_runs h point s = refl

-- Where there is a deployment, each of its methods returns nil and every write of the journal goes
-- well, a data recovery succeeds.
pub rollback_runner-succeeded :
    (h : Host) (point : String) (s : State)
    → h.available ≡ true
    → ((l : Log) (m : Method) → h.answer l m ≡ none)
    → ((l : Log) (o : Operation) → h.save l o ≡ none)
    → (rollback_runner ⦃host = h⦄ point s).0.status ≡ OperationStatus.succeeded
rollback_runner-succeeded h point s v a w =
    subst (λ h. (rollback_runner ⦃host = h⦄ point s).0.status ≡ OperationStatus.succeeded)
      (sym (λ i. record h { available = v i; answer = λ l m. a l m i; save = λ l o. w l o i }))
      (willing_runs h point s)
