-- ===== src/Examples/Operation.antt =====
-- A journal with a durable resume boundary, and more stages than it may keep.
use geoflow_updater.Prelude.{ℕ, zero, suc, ◌≡◌, List, [], ◌∷◌}
use geoflow_updater.Update.Journal.{Stage}
use geoflow_updater.Operation.Stages.{
  has_durable_resume_boundary, has_legacy_restore_hold, bounded_operation_stages,
}
use geoflow_updater.Operation.Stages.Kept.{evidence-bounded_operation_stages}
use geoflow_updater.Update.Engine.Emit.{stage_of}

abbrev repeated : ℕ → List Stage → List Stage
repeated zero stages = stages
repeated (suc n) stages = stage_of "pull" "running" "" ∷ repeated n stages

-- A boundary, and then a hundred and fifty stages that prove nothing.
abbrev long_journal : List Stage
long_journal = stage_of "resume" "running" "" ∷ repeated 150 []

evidence-bounded_operation_stages_example :
    (has_durable_resume_boundary (bounded_operation_stages long_journal)
      ≡ has_durable_resume_boundary long_journal)
    × (has_legacy_restore_hold (bounded_operation_stages long_journal)
        ≡ has_legacy_restore_hold long_journal)
evidence-bounded_operation_stages_example = evidence-bounded_operation_stages long_journal
