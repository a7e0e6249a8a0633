-- ===== src/Operation/Stages.antt =====
-- The bounded journal of an operation: `boundedOperationStages` and the evidence tests of
-- internal/operation/manager.go.
pub mod Keys
pub mod Evidence
pub mod Kept
pub mod Bounds
use geoflow_updater.Prelude.{
  ℕ, suc, ◌+◌, String, Bool, true, false, not, ◌&&◌, ◌||◌, List, [], ◌∷◌, length, any, ltb, leb,
  str_eq, if◌then◌else◌, concat,
}
use mathlib.Core.List.{reverse}
use text.Mathlib.Text.{starts_with}
use geoflow_updater.Update.Journal.{Stage}
use geoflow_updater.Update.Engine.Emit.{resume_boundary_message}

abbrev pub maximum_operation_stages : ℕ
maximum_operation_stages = 100

abbrev pub legacy_restore_uncertain : String
legacy_restore_uncertain =
    "legacy recovery may have partially restored data; start a new explicit data recovery"

unfoldable pub is_durable_resume_boundary : Stage → Bool
is_durable_resume_boundary s =
    str_eq s.name "resume" && str_eq s.status "running" && str_eq s.message resume_boundary_message

unfoldable pub has_durable_resume_boundary : List Stage → Bool
has_durable_resume_boundary stages = any is_durable_resume_boundary stages

unfoldable pub is_legacy_restore_hold : Stage → Bool
is_legacy_restore_hold s =
    str_eq s.name "rollback"
    && str_eq s.status "failed"
    && starts_with s.message legacy_restore_uncertain

unfoldable pub has_legacy_restore_hold : List Stage → Bool
has_legacy_restore_hold stages = any is_legacy_restore_hold stages

abbrev pub is_milestone : String → Bool
is_milestone name =
    str_eq name "resume"
    || str_eq name "verify"
    || str_eq name "activate"
    || str_eq name "rollback"
    || str_eq name "rolled_back"
    || str_eq name "succeeded"

-- The key of a milestone, which tells its success apart.
abbrev pub milestone_key : String → Bool → String
milestone_key name done = if done then concat (name ∷ ":succeeded" ∷ []) else name

-- The kind of evidence that a stage is, and "" for none.
unfoldable pub evidence_key : Stage → String
evidence_key s =
    if is_durable_resume_boundary s
    then "durable-resume-boundary"
    else if is_legacy_restore_hold s
    then "legacy-restore-hold"
    else if is_milestone s.name
    then milestone_key s.name (str_eq s.status "succeeded")
    else ""

abbrev pub contains : String → List String → Bool
contains key keys = any (λ k. str_eq k key) keys

-- The first of each kind of evidence is new.
abbrev pub is_new : List String → Stage → Bool
is_new seen s = not (str_eq (evidence_key s) "") && not (contains (evidence_key s) seen)

-- The first loop: each stage with `selected[index]`.
unfoldable pub select : List String → List Stage → List (Bool × Stage)
select seen [] = []
select seen (s ∷ stages) =
    (is_new seen s, s) ∷ select (if is_new seen s then evidence_key s ∷ seen else seen) stages

unfoldable pub count : List (Bool × Stage) → ℕ
count [] = 0
count ((b, s) ∷ marked) = if b then suc (count marked) else count marked

-- The second loop, over the stages from the last one.
unfoldable pub fill : ℕ → List (Bool × Stage) → List (Bool × Stage)
fill n [] = []
fill n ((b, s) ∷ marked) =
    if ltb n maximum_operation_stages
    then (true, s) ∷ fill (if b then n else suc n) marked
    else (b, s) ∷ marked

-- The third loop.
unfoldable pub chosen : List (Bool × Stage) → List Stage
chosen [] = []
chosen ((b, s) ∷ marked) = if b then s ∷ chosen marked else chosen marked

unfoldable pub bounded_operation_stages : List Stage → List Stage
unfolding select count fill chosen
bounded_operation_stages stages =
    if leb (length stages) maximum_operation_stages
    then stages
    else (let selected = select [] stages in
        chosen (reverse (fill (count selected) (reverse selected))))
