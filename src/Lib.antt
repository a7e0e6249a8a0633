-- ===== src/Lib.antt =====
-- GEOFlow updater: the coordination of updates, backups and recoveries of a GEOFlow host.
--
-- The program runs as a service beside an application. A client plans an action and submits it with
-- a one-time code; the authorization checks the code and hands its counter to the coordination store,
-- which records the admission under the next number; the operation manager then runs the action and
-- keeps its journal of stages; for an update it runs the update engine, which drives the deployment
-- and restores a recovery point where the update fails.
--
-- The files and what they model:
-- - Prelude: shared names. Prelude/Result is a Go function that returns a value and an error,
--   Prelude/Action one that also changes
--   shared files, Prelude/Text its error values, Prelude/Regex its regular expressions,
--   Prelude/Decimal its numbers as text.
-- - Managed: internal/managed. Managed/Upgrade has the plan and `Validate`, Managed/Decode
--   `DecodeUpgradePlan` from a JSON value on (Managed/Json), Managed/Validate `Release.Validate` and
--   the choice of images. Managed/Steps, Valid, Planned, Images and RoundTrip are the proofs.
-- - Update: internal/update. Update/Journal has the data of engine.go and planned.go. A Go function
--   is an action on a trace of events (Update/Routine), with early return as a step that has
--   returned. Update/Engine is `RunWithOptions` and its closures, `rollback` (`restore`), `resume`
--   (`resume_services`), `resumeAndVerify` and `resumeAfterPersistenceFailure`. The deployment and
--   the observer are functions of the trace, so that they may answer anything at any time.
--   Update/Protocol states what the trace of an update has to be, without reference to the engine;
--   Update/Triples and Update/Phases carry the proof, which Update/Sound gives function by function.
-- - Coordination: internal/coordination/store.go and head.go. A directory is a list of names and
--   records; a write is told how it ends, before or after the file has its name (Coordination/Files);
--   the link or rename that gives it the name is one step, as the file system makes it.
--   Coordination/Store has the reads and the order of operations, Coordination/Head the writes.
-- - Authorization: internal/authorization/service.go and retry.go. `authorize` works on the files
--   `mutation.*` and on the coordination store, which its callback may change
--   (Authorization/World). HMAC and base 32 are parameters (Authorization/Codes).
-- - Operation: internal/operation/manager.go. Operation/Stages is `boundedOperationStages`,
--   Operation/Messages `boundedOperationMessage`, Operation/Steps `step`, `save` and
--   `resumeAndVerify` over an operation and a log of what happened, Operation/Runners the runners of
--   a backup, a data recovery and a verification, Operation/Recovery the tests on an interrupted
--   operation, Operation/Reconcile `reconcileOperation` and Operation/Manager `Reconcile`. The writes
--   of `save` and the calls of the deployment may answer anything at any time. Operation/Admission is
--   the callback of `Submit` (coordination.go), `validate` and `accept`, on the coordination store.
-- - Recovery: internal/recovery/store.go. Recovery/Points has a recovery point, load and List,
--   Recovery/Prune `prune`, with the coordination store's ProtectedPoints; Recovery/Retained,
--   Recovery/Checkpoints, Recovery/Pruned and Recovery/Bounded what it leaves. Recovery/Swap has
--   restoreStagedDirectory and reconcileInterruptedDirectorySwap on a disk whose every state is
--   recorded, Recovery/Intact and Recovery/Restored what their steps keep, and Recovery/Attempts any
--   number of attempts that are cut off. Recovery/Restore has restoreValidated, on the disk of
--   RecoveryControl and with the swap of both directories, Recovery/Begun the authorities that it
--   gets, Recovery/Boundary what has to hold at each step that changes the host, and
--   Recovery/Guarded, by the rules of Recovery/Rules, that it does. The names of the files to
--   replace are an argument. Points made at the same moment are taken in some order, which Go leaves
--   open, and a negative limit, which `prune` refuses, is no number of the model.
-- - RecoveryControl: internal/recoverycontrol. RecoveryControl/Disk has the files and how the calls of
--   one operation end, RecoveryControl/Store `change` and the operations that are made of it,
--   RecoveryControl/Checkpoints checkpoint.go. RecoveryControl/Machine is the abstract machine of the
--   phases of a restore; Operations says which phase the files show, Advances what each operation does
--   to the authority, Change, Commands and Histories that the operations refine the machine.
-- - Deployment: internal/deployment, its planned releases. A function is an action on a `Run`: the
--   transaction in memory, its file, and the log of what was called, written and reported
--   (Deployment/Journal, Deployment/Task). What the host answers is the record `Env`, whose fields
--   are functions of the log, so that they may answer anything at any time. Deployment/Recover has
--   `failRelease` and what it calls (traffic.go), Deployment/Reconcile `readTransaction`,
--   `ReconcileRelease` and `SwitchBack`, Deployment/Execute the steps of `ExecuteRelease` and
--   Deployment/Admit what comes before them. Deployment/Protocol states what a log has to be, without
--   reference to these; Rules, Steps, Undone, Failed, Released, Trace, Sound and Reached carry the proof.
-- - Bootstrap: internal/bootstrap/manifest.go. Bootstrap/Manifest has `Validate`, Bootstrap/Envelope
--   `Sign` and `Verify`; go-tuf, the canonical encoding and ed25519 are the record `Signing`.
-- - Examples: concrete inputs.
--
-- Numbers are natural numbers. A counter or a time that the program holds to be positive or zero is
-- one; Go's counter -1, for none, is an option. The sequence number is a uint64 and its largest value
-- is written out in `nextSequence`. Sums of a clock reading and a delay stay below 2^63.
-- All loops run over lists or over a number of remaining elements, so that no fuel is needed.
--
-- Not modelled: the JSON texts and their size bounds, where a record is its fields, or unreadable;
-- time-outs, where a call that times out is one that returns an error; the lock of an instance,
-- under which the modelled functions run; the commands that a call of the deployment is made of, its
-- legacy maintenance operations (service.go), the rendering of its topology, and the removal of a
-- preparation directory that no transaction refers to; the runners of an update and of a switch
-- back, and the start of operations by the manager, with the repair of admissions, and the making of
-- plans; what a recovery point holds, how it is made and how it is validated (recovery/store.go);
-- the agent, the enrollment, the TUF client and repository, and the commands.
pub mod Prelude
pub mod Managed
pub mod Update
pub mod Coordination
pub mod Operation
pub mod Authorization
pub mod Recovery
pub mod RecoveryControl
pub mod Bootstrap
pub mod Deployment
pub mod Examples
