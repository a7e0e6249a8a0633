-- ===== src/RecoveryControl/Change.antt =====
-- `change` of internal/recoverycontrol/store.go makes at most one move of the machine, whatever its
-- writes come to.
use geoflow_updater.Prelude.{
  ◌≡◌, ◌≢◌, refl, sym, subst, inl, inr, String, Bool, true, false, not, Bool-cases, Option, none,
  some, eq_iff, arith,
}
use geoflow_updater.Prelude.Result.{Result, ok, err, require, >>=-eq-ok, Result-cases}
use geoflow_updater.Prelude.Action.{
  Leaves, proceed, lift_rule, Leaves-proceed, Leaves-state, lift, ◌>>=◌, ◌>>◌,
}
use geoflow_updater.RecoveryControl.Records.{
  Failure, not_exist, refused, io, Authority, minimum_protocol, validate, validate_phase,
}
use geoflow_updater.RecoveryControl.Disk.{
  Disk, Ends, Control, attempt, check_protocol, location, read, read_authority,
}
use geoflow_updater.RecoveryControl.Store.{
  write_floor, write_marker, write_authority, write_public, initialized_authority, current, publish,
  change,
}
use geoflow_updater.RecoveryControl.Machine.{
  Phase, absent, ready, lost, enable, interrupt, rotate, finish, prepare, quarantine, expose, Moves,
}
use geoflow_updater.RecoveryControl.Operations.{phase_of, phase, IsCoherent, validate-IsCoherent}
use geoflow_updater.RecoveryControl.Advances.{Agrees, Next, Advances, atomic_rule}

-- On every path the host is at most one move further than at the start.
abbrev Within : Phase → Disk × Result Failure Authority → Type 0
Within c o = Leaves (λ s. Moves c (phase s)) (λ a s. Unit) o

pub phase_authority :
    (d : Disk) (a : Authority)
    → d.authority ≡ some (some a)
    → validate a "primary" ≡ ok tt
    → phase d ≡ phase_of a
unfolding phase
phase_authority d a e v = rw (e, v) refl

phase-Agrees : (d s : Disk) → Agrees d s → phase s ≡ phase d
unfolding phase
phase-Agrees d s h = rw (h.0, h.1) refl

validate_phase_refuses : (a : Authority) → validate_phase a ≢ err not_exist
unfolding validate_phase
validate_phase_refuses a h = absurd (ground arith)

validate_refuses : (a : Authority) (instance : String) → validate a instance ≢ err not_exist
unfolding validate
validate_refuses a instance h = absurd (ground (arith, validate_phase_refuses a))

read_missing :
    (file : Option (Option Authority)) (instance : String)
    → read_authority file instance ≡ err not_exist
    → file ≡ none
unfolding read_authority
read_missing none instance h = refl
read_missing (some none) instance h = absurd (ground arith)
read_missing (some (some a)) instance h = absurd (ground (arith, validate_refuses a instance))

read_present :
    (file : Option (Option Authority)) (instance : String) (a : Authority)
    → read_authority file instance ≡ ok a
    → (file ≡ some (some a)) × (validate a instance ≡ ok tt)
unfolding read_authority
read_present none instance a h = cc
read_present (some none) instance a h = cc
read_present (some (some b)) instance a h =
    let (_, v, e) = >>=-eq-ok (validate b instance) _ h in ground arith

abbrev Any : Authority → Disk → Type 0
Any a s = Unit

module _ (w : Ends) (c : Phase) where
  abbrev Still : Disk → Type 0
  Still s = Moves c (phase s)

  publish_within :
      (b : Authority) (s : Disk)
      → Still s
      → validate b "primary" ≡ ok tt
      → Moves c (phase_of b)
      → Leaves Still Any (publish w b s)
  unfolding publish
  publish_within b s m v n =
      let s' = write_floor s in
      let t = write_authority b s' in
      let before : Still s' = subst (Moves c) (sym (phase-Agrees s s' (refl, refl))) m in
      let after : Still t = subst (Moves c) (sym (phase_authority t b refl v)) n in
      let shown : Still (write_public b t) =
        subst (Moves c) (sym (phase-Agrees t (write_public b t) (refl, refl))) after in
      lift_rule Still Any s (attempt w.public_directory) _ m (λ u e.
        atomic_rule Still Any w.floor_end write_floor s _ m before (
          atomic_rule Still Any w.authority_end (write_authority b) s' _ before after
            (atomic_rule Still Any w.public_end (write_public b) t _ after shown (shown, tt))))

  -- From the point where the authority is known.
  mutated_within :
      (mutate : Authority → Control Authority) (a : Authority) (s : Disk)
      → Advances a (mutate a)
      → ((t : Disk) → Agrees s t → Still t)
      → ((d : Phase) → Moves (phase_of a) d → Moves c d)
      → Leaves Still Any (proceed (mutate a s) (λ b. do lift (validate b "primary"); publish w b))
  mutated_within mutate a s adv keep onward = settle (mutate a s) (adv s)
    where
      settle :
          (o : Disk × Result Failure Authority)
          → Leaves (Agrees s) (Next a) o
          → Leaves Still Any (proceed o (λ b. do lift (validate b "primary"); publish w b))
      settle (t, err e) h = keep t h
      settle (t, ok b) h =
          lift_rule Still Any t (validate b "primary") _ (keep t h.0)
            (λ u e. publish_within b t (keep t h.0) e (onward (phase_of b) h.1))

from_ready : (c : Phase) → Moves ready c → Moves absent c
from_ready c (inl e) = inr (enable refl e)
from_ready c (inr (rotate r p q e)) =
    inr (rotate r (λ h. absurd (ground arith)) (λ h. absurd (ground arith)) e)
from_ready c (inr (enable p q)) = absurd (ground arith)
from_ready c (inr (interrupt p q)) = absurd (ground arith)
from_ready c (inr (finish r e p q)) = absurd (ground arith)
from_ready c (inr (prepare r e g p q h k)) = absurd (ground arith)
from_ready c (inr (quarantine r e g p q h k)) = absurd (ground arith)
from_ready c (inr (expose r e p q h k)) = absurd (ground arith)

phase_new : (d : Disk) → d.authority ≡ none → d.initialized ≡ false → phase d ≡ absent
unfolding phase
phase_new d a i = rw (a, i) refl

phase_lost : (d : Disk) → d.authority ≡ none → phase (write_marker d) ≡ lost
unfolding phase
phase_lost d a = rw a refl

module _ (w : Ends) (mutate : Authority → Control Authority)
    (adv : (a : Authority) → IsCoherent a → Advances a (mutate a)) where
  abbrev rest_of : Authority → Control Authority
  rest_of a = do b ← mutate a; lift (validate b "primary"); publish w b

  existing-Within :
      (d : Disk) (a : Authority)
      → read_authority d.authority "primary" ≡ ok a
      → Within (phase d) (rest_of a d)
  existing-Within d a e =
      let (p, v) = read_present d.authority "primary" a e in
      let q = phase_authority d a p v in
      mutated_within w (phase d) mutate a d (adv a (validate-IsCoherent a "primary" v))
        (λ t h. inl (phase-Agrees d t h)) (λ c m. subst (λ b. Moves b c) (sym q) m)

  -- What the first authority is, and what its making leaves.
  abbrev Fresh : Authority → Disk → Type 0
  Fresh a s = IsCoherent a × (phase_of a ≡ ready) × (phase s ≡ lost)

  initialized_within :
      (d : Disk)
      → d.authority ≡ none
      → d.initialized ≡ false
      → Leaves (Still w (phase d)) Fresh (initialized_authority w "primary" d)
  unfolding initialized_authority
  initialized_within d none_there e =
      let start = phase_new d none_there e in
      let s = write_floor d in
      let t = write_marker s in
      let same_there : Moves (phase d) (phase s) = inl (phase-Agrees d s (refl, refl)) in
      let gone = phase_lost s none_there in
      let lost_there : Moves (phase d) (phase t) = inr (interrupt start gone) in
      lift_rule (Still w (phase d)) Fresh d
        (require (not d.initialized) (refused "recovery authority is missing after initialization"))
        _ (inl refl)
        (λ u k. lift_rule (Still w (phase d)) Fresh d w.host_id _ (inl refl) (λ host p.
          lift_rule (Still w (phase d)) Fresh d w.first_epoch _ (inl refl) (λ epoch q.
            atomic_rule (Still w (phase d)) Fresh w.first_floor_end write_floor d _ (inl refl)
              same_there
              (atomic_rule (Still w (phase d)) Fresh w.marker_end write_marker s _ same_there
                lost_there (lost_there, (refl, refl, gone))))))

  already-Within :
      (d : Disk)
      → d.initialized ≡ true
      → Within (phase d) (proceed (initialized_authority w "primary" d) rest_of)
  unfolding initialized_authority
  already-Within d e = rw e (inl refl)

  new-Within :
      (d : Disk)
      → d.authority ≡ none
      → Within (phase d) (proceed (initialized_authority w "primary" d) rest_of)
  new-Within d none_there = elim (Bool-cases d.initialized) [
    | inl e ↦ already-Within d e
    | inr e ↦
        let start = phase_new d none_there e in
        Leaves-proceed (Still w (phase d)) Fresh Any (initialized_authority w "primary" d) rest_of
          (initialized_within d none_there e)
          (λ a s h.
            mutated_within w (phase d) mutate a s (adv a h.1.0)
              (λ u k. subst (Moves (phase d)) (sym (phase-Agrees s u k)) h.0)
              (λ c m.
                subst (λ b. Moves b c) (sym start) (from_ready c (subst (λ b. Moves b c) h.1.1 m))))
  ]

  current-Within :
      (d : Disk) (init : Bool) (r : Result Failure Authority)
      → read_authority d.authority "primary" ≡ r
      → Within (phase d) (proceed (current w "primary" init r d) rest_of)
  unfolding current
  current-Within d init (ok a) e = existing-Within d a e
  current-Within d true (err not_exist) e = new-Within d (read_missing d.authority "primary" e)
  current-Within d false (err not_exist) e = inl refl
  current-Within d true (err (refused m)) e = inl refl
  current-Within d false (err (refused m)) e = inl refl
  current-Within d true (err (io m)) e = inl refl
  current-Within d false (err (io m)) e = inl refl

  -- A place that passes the guard is that of the one instance there is.
  location_lem :
      (instance : String) (u : Unit {0})
      → location w instance ≡ ok u
      → (instance ≡ "primary") × (w.absolute ≡ true)
  unfolding location
  location_lem instance u e = ground (arith, eq_iff instance "primary")

  read_there :
      (d : Disk) → w.absolute ≡ true → read w "primary" d ≡ read_authority d.authority "primary"
  unfolding read location
  read_there d a = rw a refl

  primary-Within :
      (init : Bool) (d : Disk)
      → w.absolute ≡ true
      → Within (phase d) (change w "primary" init mutate d)
  unfolding change
  primary-Within init d absolute =
      lift_rule (Still w (phase d)) Any d (location w "primary") _ (inl refl) (λ u p.
        lift_rule (Still w (phase d)) Any d (check_protocol d.floor minimum_protocol) _ (inl refl)
          (λ u q. lift_rule (Still w (phase d)) Any d (attempt w.directories) _ (inl refl) (λ u r.
            lift_rule (Still w (phase d)) Any d (attempt w.locked) _ (inl refl)
              (λ u s. current-Within d init (read w "primary" d) (sym (read_there d absolute))))))

  change_elsewhere :
      (instance : String) (init : Bool) (d : Disk) (e : Failure)
      → location w instance ≡ err e
      → Within (phase d) (change w instance init mutate d)
  unfolding change
  change_elsewhere instance init d e p = rw p (inl refl)

  pub change-Moves :
      (instance : String) (init : Bool) (d : Disk)
      → Moves (phase d) (phase (change w instance init mutate d).0)
  change-Moves instance init d =
      Leaves-state (Still w (phase d)) Any _ (elim (Result-cases (location w instance)) [
        | inl (u, p) ↦
            let (q, absolute) = location_lem instance u p in
            subst (λ i. Within (phase d) (change w i init mutate d)) (sym q)
              (primary-Within init d absolute)
        | inr (e, p) ↦ change_elsewhere instance init d e p
      ])
