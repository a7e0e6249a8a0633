-- ===== src/RecoveryControl/Operations.antt =====
-- The phase that the files of internal/recoverycontrol/store.go show, and what each operation does
-- to the authority.
use geoflow_updater.Prelude.{
  ◌≡◌, ◌≢◌, refl, inl, inr, String, Bool, true, false, Bool-cases, Option, none, some, str_eq,
  eq_iff, if◌then◌else◌, arith,
}
use geoflow_updater.Prelude.Result.{Result, ok, err, >>=-eq-ok, require-eq-ok}
use geoflow_updater.Coordination.Patterns.{identifier}
use geoflow_updater.RecoveryControl.Records.{
  Failure, Authority, passes, is_nil, validate, validate_phase,
}
use geoflow_updater.RecoveryControl.Disk.{Disk}
use geoflow_updater.RecoveryControl.Machine.{
  Restore, Evidence, Phase, absent, ready, lost, restoring, validating, http_ready, transaction_of,
}

abbrev or_blank : Option String → String
or_blank none = ""
or_blank (some s) = s

abbrev pub restore_of : Authority → Restore
restore_of a = record {
  epoch = a.state.epoch;
  transaction = or_blank a.state.transaction_id;
  point = a.point_id;
  admin_digest = a.admin_digest;
}

abbrev pub evidence_of : Authority → Evidence
evidence_of a = record { redis = a.redis_manifest_sha256; preparation = a.preparation_sha256 }

-- The phase of an authority that is valid.
abbrev pub phase_of : Authority → Phase
phase_of a =
    if str_eq a.state.phase "restoring"
    then restoring (restore_of a) (evidence_of a)
    else if str_eq a.state.phase "validating"
    then validating (restore_of a) (evidence_of a)
    else if str_eq a.state.phase "http_ready"
    then http_ready (restore_of a) (evidence_of a)
    else ready

abbrev phase_if : {A : Type 0} → Result Failure A → Authority → Phase
phase_if (ok _) a = phase_of a
phase_if (err _) a = lost

abbrev phase_read : Bool → Option (Option Authority) → Phase
phase_read false none = absent
phase_read true none = lost
phase_read initialized (some none) = lost
phase_read initialized (some (some a)) = phase_if (validate a "primary") a

-- The phase of a host.
unfoldable pub phase : Disk → Phase
phase d = phase_read d.initialized d.authority

-- A valid authority has a transaction exactly in the phases of a restore.
abbrev pub IsCoherent : Authority → Type 0
IsCoherent a = transaction_of (phase_of a) ≡ a.state.transaction_id

-- What a phase can be.
data Named (p : String) : Type 0 where
  is_ready : p ≡ "ready" → Named p
  is_restoring : p ≡ "restoring" → Named p
  is_validating : p ≡ "validating" → Named p
  is_http_ready : p ≡ "http_ready" → Named p
  is_other :
      str_eq p "ready" ≡ false
      → str_eq p "restoring" ≡ false
      → str_eq p "validating" ≡ false
      → str_eq p "http_ready" ≡ false
      → Named p

named : (p : String) → Named p
named p = elim (Bool-cases (str_eq p "ready")) [
  | inl e ↦ is_ready ((eq_iff p "ready").0 e)
  | inr a ↦ elim (Bool-cases (str_eq p "restoring")) [
    | inl e ↦ is_restoring ((eq_iff p "restoring").0 e)
    | inr b ↦ elim (Bool-cases (str_eq p "validating")) [
      | inl e ↦ is_validating ((eq_iff p "validating").0 e)
      | inr c ↦ elim (Bool-cases (str_eq p "http_ready")) [
        | inl e ↦ is_http_ready ((eq_iff p "http_ready").0 e)
        | inr d ↦ is_other a b c d
      ]
    ]
  ]
]

passes-some : (p : String → Bool) (t : Option String) → passes p t ≡ true → some (or_blank t) ≡ t
passes-some p none h = cc
passes-some p (some t) h = refl

nil_none : (t : Option String) → is_nil t ≡ true → none ≡ t
nil_none none h = refl
nil_none (some t) h = cc

transaction-IsCoherent :
    (a : Authority) → Named a.state.phase → validate_phase a ≡ ok tt → IsCoherent a
unfolding validate_phase
transaction-IsCoherent a (is_ready e) h =
    let h' = rw e at h in rw e (nil_none a.state.transaction_id (ground arith))
transaction-IsCoherent a (is_restoring e) h =
    let h' = rw e at h in rw e (passes-some identifier a.state.transaction_id (ground arith))
transaction-IsCoherent a (is_validating e) h =
    let h' = rw e at h in rw e (passes-some identifier a.state.transaction_id (ground arith))
transaction-IsCoherent a (is_http_ready e) h =
    let h' = rw e at h in rw e (passes-some identifier a.state.transaction_id (ground arith))
transaction-IsCoherent a (is_other r s v o) h = absurd (ground arith)

pub validate-IsCoherent :
    (a : Authority) (instance : String) → validate a instance ≡ ok tt → IsCoherent a
unfolding validate
validate-IsCoherent a instance h =
    let (_, p) = require-eq-ok _ _ _ h in
    let (_, q, _) = >>=-eq-ok (validate_phase a) _ p in
    transaction-IsCoherent a (named a.state.phase) q

pub phase_of-lost : (a : Authority) → phase_of a ≢ lost
phase_of-lost a h = absurd (ground arith)
