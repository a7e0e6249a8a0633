-- ===== src/Deployment/Protocol.antt =====
-- What a release may do, and when: a condition on the log of internal/deployment/bluegreen.go that
-- makes no reference to the program.
use geoflow_updater.Prelude.{◌≡◌, Bool, true, false, none, [], ◌∷◌, any}
use geoflow_updater.Coordination.Files.{clean}
use geoflow_updater.Deployment.Journal.{
  candidate, Call, apply, freeze_point, switch_ingress, resume, restore, wait_containers, Event,
  made, wrote, Log,
}

-- A call after which the application may write again.
abbrev pub opens : Event → Bool
opens (made (switch_ingress side running) e) = true
opens (made resume e) = true
opens _ = false

-- A durable write of the transaction with the traffic flag.
abbrev pub marks_opened : Event → Bool
marks_opened (wrote true clean) = true
marks_opened _ = false

-- The checkpoint of a recovery point was frozen.
abbrev pub freezes : Event → Bool
freezes (made freeze_point none) = true
freezes _ = false

-- No upgrade container of the operation was left.
abbrev pub waits : Event → Bool
waits (made wait_containers none) = true
waits _ = false

abbrev pub Has : (Event → Bool) → Log → Type 0
Has test log = any test log ≡ true

-- A call with what must have happened before it. A data restore comes only while nothing may have
-- been written since the recovery point, and after the upgrade containers are gone; the candidate is
-- opened, and the source resumed, only behind a durable mark; drained data is migrated only with a
-- frozen recovery point.
abbrev pub Allowed : Call → Log → Type 0
Allowed restore log = (any opens log ≡ false) × Has waits log
Allowed resume log = Has marks_opened log
Allowed (switch_ingress candidate running) log = Has marks_opened log
Allowed (apply true) log = Has freezes log
Allowed _ log = Unit

abbrev pub Follows : Log → Type 0
Follows [] = Unit
Follows (made c e ∷ log) = Allowed c log × Follows log
Follows (_ ∷ log) = Follows log
