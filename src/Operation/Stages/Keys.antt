-- ===== src/Operation/Stages/Keys.antt =====
-- The kinds of evidence that `boundedOperationStages` keeps: there are fourteen.
use geoflow_updater.Prelude.{
  ℕ, suc, ◌≤◌, ◌<◌, ◌≡◌, refl, ◌⊎◌, inl, inr, String, Bool, true, false, Bool-cases, List, [], ◌∷◌,
  str_eq, eq_iff, arith, if◌then◌else◌,
}
use geoflow_updater.Update.Journal.{Stage}
use geoflow_updater.Operation.Stages.{
  is_durable_resume_boundary, is_legacy_restore_hold, is_milestone, evidence_key, contains, is_new,
  milestone_key, select, count,
}

-- The keys of milestones.
abbrev pub milestone_keys : List String
milestone_keys =
    "resume" ∷ "verify" ∷ "activate" ∷ "rollback" ∷ "rolled_back" ∷ "succeeded" ∷ "resume:succeeded"
    ∷ "verify:succeeded" ∷ "activate:succeeded" ∷ "rollback:succeeded" ∷ "rolled_back:succeeded"
    ∷ "succeeded:succeeded" ∷ []

-- The kinds of evidence.
abbrev evidence_keys : List String
evidence_keys = "durable-resume-boundary" ∷ "legacy-restore-hold" ∷ milestone_keys

-- How many of the keys have not been seen.
unseen : List String → List String → ℕ
unseen seen [] = 0
unseen seen (k ∷ keys) = if contains k seen then unseen seen keys else suc (unseen seen keys)

unseen-cons : (k : String) (seen keys : List String) → unseen (k ∷ seen) keys ≤ unseen seen keys
unfolding unseen
unseen-cons k seen [] = omega arith
unseen-cons k seen (x ∷ keys) = ground (arith, unseen-cons k seen keys)

unseen_new :
    (k : String) (seen keys : List String)
    → contains k keys ≡ true
    → contains k seen ≡ false
    → unseen (k ∷ seen) keys < unseen seen keys
unfolding unseen
unseen_new k seen [] h n = cc
unseen_new k seen (x ∷ keys) h n =
    ground (arith, eq_iff x k, eq_iff k x, unseen_new k seen keys, unseen-cons k seen keys)

milestone_cases :
    (name : String)
    → is_milestone name ≡ true
    → (name ≡ "resume")
      ⊎ ((name ≡ "verify")
          ⊎ ((name ≡ "activate")
              ⊎ ((name ≡ "rollback") ⊎ ((name ≡ "rolled_back") ⊎ (name ≡ "succeeded")))))
milestone_cases name h = ground (
  arith,
  eq_iff name "resume",
  eq_iff name "verify",
  eq_iff name "activate",
  eq_iff name "rollback",
  eq_iff name "rolled_back",
  eq_iff name "succeeded",
)

pub milestone_known :
    (name : String) (done : Bool)
    → is_milestone name ≡ true
    → contains (milestone_key name done) milestone_keys ≡ true
milestone_known name done h = elim (milestone_cases name h) [
  | inl e ↦ rw e (known_resume done)
  | inr (inl e) ↦ rw e (known_verify done)
  | inr (inr (inl e)) ↦ rw e (known_activate done)
  | inr (inr (inr (inl e))) ↦ rw e (known_rollback done)
  | inr (inr (inr (inr (inl e)))) ↦ rw e (known_rolled_back done)
  | inr (inr (inr (inr (inr e)))) ↦ rw e (known_succeeded done)
]
  where
    known_resume : (d : Bool) → contains (milestone_key "resume" d) milestone_keys ≡ true
    known_resume true = refl
    known_resume false = refl

    known_verify : (d : Bool) → contains (milestone_key "verify" d) milestone_keys ≡ true
    known_verify true = refl
    known_verify false = refl

    known_activate : (d : Bool) → contains (milestone_key "activate" d) milestone_keys ≡ true
    known_activate true = refl
    known_activate false = refl

    known_rollback : (d : Bool) → contains (milestone_key "rollback" d) milestone_keys ≡ true
    known_rollback true = refl
    known_rollback false = refl

    known_rolled_back : (d : Bool) → contains (milestone_key "rolled_back" d) milestone_keys ≡ true
    known_rolled_back true = refl
    known_rolled_back false = refl

    known_succeeded : (d : Bool) → contains (milestone_key "succeeded" d) milestone_keys ≡ true
    known_succeeded true = refl
    known_succeeded false = refl

milestone_evidence :
    (k : String) → contains k milestone_keys ≡ true → contains k evidence_keys ≡ true
milestone_evidence k h = ground arith

evidence_key-cases :
    (s : Stage) → (evidence_key s ≡ "") ⊎ (contains (evidence_key s) evidence_keys ≡ true)
unfolding evidence_key
evidence_key-cases s = elim (Bool-cases (is_durable_resume_boundary s)) [
  | inl e ↦ rw e (inr refl)
  | inr e ↦ rw e (elim (Bool-cases (is_legacy_restore_hold s)) [
    | inl f ↦ rw f (inr refl)
    | inr f ↦ rw f (elim (Bool-cases (is_milestone s.name)) [
      | inl g ↦ rw g (
          inr (
            milestone_evidence (milestone_key s.name (str_eq s.status "succeeded"))
              (milestone_known s.name (str_eq s.status "succeeded") g)))
      | inr g ↦ rw g (inl refl)
    ])
  ])
]

new_unseen :
    (seen : List String) (s : Stage)
    → is_new seen s ≡ true
    → unseen (evidence_key s ∷ seen) evidence_keys < unseen seen evidence_keys
new_unseen seen s h = elim (evidence_key-cases s) [
  | inl e ↦ absurd (ground (arith, eq_iff (evidence_key s) ""))
  | inr k ↦ unseen_new (evidence_key s) seen evidence_keys k (ground arith)
]

count-select-le :
    (seen : List String) (stages : List Stage)
    → count (select seen stages) ≤ unseen seen evidence_keys
unfolding select count
count-select-le seen [] = omega arith
count-select-le seen (s ∷ stages) = elim (Bool-cases (is_new seen s)) [
  | inl h ↦
      rw h (omega (arith, new_unseen seen s h, count-select-le (evidence_key s ∷ seen) stages))
  | inr h ↦ rw h (count-select-le seen stages)
]

-- At most one stage is selected for each of the fourteen kinds of evidence.
pub count-select : (stages : List Stage) → count (select [] stages) ≤ 14
unfolding unseen
count-select stages = count-select-le [] stages
