-- ===== src/Operation/Stages/Kept.antt =====
-- The evidence tests of internal/operation/manager.go on a bounded journal.
use geoflow_updater.Prelude.{
  ◌≡◌, refl, sym, ◌∙◌, inl, inr, String, Bool, true, false, Bool-cases, List, [], ◌∷◌, any, str_eq,
  eq_iff, arith,
}
use geoflow_updater.Update.Journal.{Stage}
use geoflow_updater.Operation.Stages.{
  is_durable_resume_boundary, has_durable_resume_boundary, is_legacy_restore_hold,
  has_legacy_restore_hold, is_milestone, milestone_key, evidence_key, contains,
  bounded_operation_stages,
}
use geoflow_updater.Operation.Stages.Keys.{milestone_keys, milestone_known}
use geoflow_updater.Operation.Stages.Evidence.{has_key, any_key-bounded_operation_stages}

any-cong :
    (p q : Stage → Bool) → ((s : Stage) → p s ≡ q s) → (xs : List Stage) → any p xs ≡ any q xs
any-cong p q e [] = refl
any-cong p q e (x ∷ xs) = ground (arith, e x, any-cong p q e xs)

apart :
    (key k : String) (keys : List String)
    → contains k keys ≡ true
    → contains key keys ≡ false
    → str_eq k key ≡ false
apart key k [] h n = cc
apart key k (x ∷ keys) h n =
    ground (arith, eq_iff x k, eq_iff k key, eq_iff x key, apart key k keys)

milestone_apart :
    (key name : String) (done : Bool)
    → is_milestone name ≡ true
    → contains key milestone_keys ≡ false
    → str_eq (milestone_key name done) key ≡ false
milestone_apart key name done h n = apart key _ milestone_keys (milestone_known name done h) n

is_durable-has_key :
    (s : Stage) → is_durable_resume_boundary s ≡ has_key "durable-resume-boundary" s
unfolding has_key evidence_key
is_durable-has_key s = elim (Bool-cases (is_durable_resume_boundary s)) [
  | inl e ↦ rw e refl
  | inr e ↦ rw e (elim (Bool-cases (is_legacy_restore_hold s)) [
    | inl f ↦ rw f refl
    | inr f ↦ rw f (elim (Bool-cases (is_milestone s.name)) [
      | inl g ↦ rw g (
          sym
            (milestone_apart "durable-resume-boundary" s.name (str_eq s.status "succeeded") g refl))
      | inr g ↦ rw g refl
    ])
  ])
]

-- A stage is not both kinds of evidence at once.
not_both : (s : Stage) → is_durable_resume_boundary s ≡ true → is_legacy_restore_hold s ≡ false
unfolding is_durable_resume_boundary is_legacy_restore_hold
not_both s h = elim (Bool-cases (str_eq s.name "resume")) [
  | inl e ↦ (let q : s.name ≡ "resume" = (eq_iff s.name "resume").0 e in rw q refl)
  | inr e ↦ absurd (ground arith)
]

is_hold-has_key : (s : Stage) → is_legacy_restore_hold s ≡ has_key "legacy-restore-hold" s
unfolding has_key evidence_key
is_hold-has_key s = elim (Bool-cases (is_durable_resume_boundary s)) [
  | inl e ↦ rw e (not_both s e)
  | inr e ↦ rw e (elim (Bool-cases (is_legacy_restore_hold s)) [
    | inl f ↦ rw f refl
    | inr f ↦ rw f (elim (Bool-cases (is_milestone s.name)) [
      | inl g ↦
          rw g (
            sym (milestone_apart "legacy-restore-hold" s.name (str_eq s.status "succeeded") g refl))
      | inr g ↦ rw g refl
    ])
  ])
]

kept :
    (p : Stage → Bool) (key : String)
    → str_eq key "" ≡ false
    → ((s : Stage) → p s ≡ has_key key s)
    → (stages : List Stage) → any p (bounded_operation_stages stages) ≡ any p stages
kept p key k e stages =
    any-cong p (has_key key) e (bounded_operation_stages stages)
    ∙ any_key-bounded_operation_stages key stages k
    ∙ sym (any-cong p (has_key key) e stages)

-- A bounded journal shows a durable resume boundary exactly when the journal does, and it shows an
-- uncertain legacy restore exactly when the journal does.
pub evidence-bounded_operation_stages :
    (stages : List Stage)
    → (has_durable_resume_boundary (bounded_operation_stages stages)
        ≡ has_durable_resume_boundary stages)
      × (has_legacy_restore_hold (bounded_operation_stages stages) ≡ has_legacy_restore_hold stages)
unfolding has_durable_resume_boundary has_legacy_restore_hold
evidence-bounded_operation_stages stages = (
  kept is_durable_resume_boundary "durable-resume-boundary" refl is_durable-has_key stages,
  kept is_legacy_restore_hold "legacy-restore-hold" refl is_hold-has_key stages,
)
