-- ===== src/Update/Protocol.antt =====
-- What the engine of internal/update promises of its journal and of the calls that it makes, stated
-- of the trace alone, with no reference to how the engine is written.
use geoflow_updater.Prelude.{
  String, ◌≡◌, ◌⊎◌, Bool, true, false, Option, some, List, [], ◌∷◌, Memᴰ, All,
}
use geoflow_updater.Managed.Release.{Release}
use geoflow_updater.Update.Journal.{
  Status, Result, Context, request, detached, Call, preflight, pull, migrate, activate, quiesce,
  resume, verify, quiesce_for_recovery, freeze, rollback, Event, recorded, done, broken, created,
  Trace,
}
use geoflow_updater.Update.Engine.Emit.{stage_of}

-- A method that may start a service, after which the restored or migrated data can change.
abbrev pub starts_services : Call → Bool
starts_services resume = true
starts_services _ = false

-- A method that leaves the deployment as it runs.
abbrev pub only_prepares : Call → Bool
only_prepares (preflight _) = true
only_prepares (pull _) = true
only_prepares _ = false

-- How much may have happened so far: only preparations, or anything but a start of the services.
pub data Level : Type 0 where
  calm stopped free : Level

abbrev pub WithinCall : Level → Call → Type 0
WithinCall calm k = only_prepares k ≡ true
WithinCall stopped k = starts_services k ≡ false
WithinCall free k = Unit

abbrev pub IsWithin : Level → Event → Type 0
IsWithin l (done _ k) = WithinCall l k
IsWithin l (broken _ k _) = WithinCall l k
IsWithin l _ = Unit

abbrev pub IsNewest : Event → Trace → Type 0
IsNewest e [] = ⊥
IsNewest e (x ∷ _) = x ≡ e

-- All the events listed have happened.
abbrev pub Facts : List Event → Trace → Type 0
Facts es t = All (λ e. Memᴰ e t) es

-- The recovery point was made, and its identity is in the persisted journal.
abbrev pub IsJournaled : String → Trace → Type 0
IsJournaled p t =
    ((label : String) × Memᴰ (created label p) t)
    × Memᴰ (recorded (stage_of "backup" "succeeded" p)) t

-- When a method may be called.
abbrev pub Allowed : Trace → Context → Call → Type 0
Allowed t c (preflight r) = Unit
Allowed t c (pull r) = Memᴰ (done request (preflight r)) t
Allowed t c quiesce = ((r : Release) × Memᴰ (done request (pull r)) t) × All (IsWithin stopped) t
Allowed t c (quiesce_for_recovery p) =
    (c ≡ detached) × ((label : String) × Memᴰ (created label p) t) × All (IsWithin stopped) t
Allowed t c (freeze p _) = IsJournaled p t × All (IsWithin stopped) t
Allowed t c (migrate r) =
    Memᴰ (done request (pull r)) t
    × Memᴰ (done request quiesce) t
    × ((p : String) × IsJournaled p t)
    × All (IsWithin stopped) t
Allowed t c (activate r) = Memᴰ (done request (migrate r)) t × All (IsWithin stopped) t
Allowed t c (rollback p _) =
    (c ≡ detached) × ((label : String) × Memᴰ (created label p) t) × All (IsWithin stopped) t
Allowed t c resume = IsNewest (recorded (stage_of "resume" "running" "")) t
Allowed t c verify =
    IsNewest (recorded (stage_of "verify" "running" "")) t
    × ((d : Context) × Memᴰ (done d resume) t)

abbrev pub Admissible : Trace → Event → Type 0
Admissible t (done c k) = Allowed t c k
Admissible t (broken c k _) = Allowed t c k
Admissible t (created _ _) = Memᴰ (done request quiesce) t × All (IsWithin stopped) t
Admissible t _ = Unit

-- Every event of the trace was admissible when it happened.
abbrev pub IsSound : Trace → Type 0
IsSound [] = Unit
IsSound (e ∷ t) = Admissible t e × IsSound t

-- The services were started again after they had been stopped.
abbrev pub WasRestarted : Trace → Type 0
WasRestarted t = Memᴰ (done detached resume) t

-- The automatic restore of the point could not be made.
abbrev pub WasGivenUp : String → Trace → Type 0
WasGivenUp p t =
    (e : String) × ((Memᴰ (broken detached quiesce e) t)
      ⊎ ((Memᴰ (broken detached (quiesce_for_recovery p) e) t)
          ⊎ ((transaction : String) × Memᴰ (broken detached (rollback p transaction) e) t)))

-- What a status says of the trace, for the release `r`, the transaction `transaction` and the recovery point
-- that the result names.
abbrev pub Reports : Release → String → String → Status → Trace → Type 0
Reports r transaction p Status.succeeded t =
    Facts
      (recorded (stage_of "succeeded" "succeeded" "")
        ∷ done request verify
        ∷ done request resume
        ∷ done request (activate r)
        ∷ done request (migrate r)
        ∷ recorded (stage_of "backup" "succeeded" p)
        ∷ done request quiesce
        ∷ done request (pull r)
        ∷ [])
      t
Reports r transaction p Status.rolled_back t =
    Facts
      (done detached verify ∷ done detached resume ∷ done detached (rollback p transaction) ∷ []) t
Reports r transaction p Status.failed t =
    (All (IsWithin calm) t) ⊎ (WasRestarted t ⊎ WasGivenUp p t)
Reports r transaction p Status.recovery_required t = Unit

-- A result names the release, unless nothing came of the update.
abbrev pub Names : Release → Status → Option Release → Type 0
Names r Status.failed target = Unit
Names r _ target = target ≡ some r

-- What the result and the trace of an update of `r` have to show: every event was admissible, and
-- the result reports what happened.
abbrev pub Delivers : Release → String → Result → Trace → Type 0
Delivers r transaction result t =
    IsSound t
    × Reports r transaction result.recovery_point_id result.status t
    × Names r result.status result.target
