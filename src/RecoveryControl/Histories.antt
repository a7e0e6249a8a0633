-- ===== src/RecoveryControl/Histories.antt =====
-- What holds of a host after any history of operations of internal/recoverycontrol/store.go.
use geoflow_updater.Prelude.{
  ◌≡◌, ◌≢◌, refl, sym, ap, subst, ◌∙◌, inl, inr, String, false, none, some, List, [], ◌∷◌, arith,
}
use geoflow_updater.Prelude.Result.{Result, ok, err}
use geoflow_updater.RecoveryControl.Records.{Failure, Authority, validate}
use geoflow_updater.RecoveryControl.Disk.{Disk, Ends}
use geoflow_updater.RecoveryControl.Machine.{
  Phase, absent, ready, lost, http_ready, enable, interrupt, rotate, finish, prepare, quarantine,
  expose, Reach, here, Moves, Reach-Moves, IsSound, Reach-IsSound, HasBegun, Reach-HasBegun,
}
use geoflow_updater.RecoveryControl.Operations.{
  phase_of, phase, restore_of, evidence_of, phase_of-lost,
}
use geoflow_updater.RecoveryControl.Change.{phase_authority}
use geoflow_updater.RecoveryControl.Commands.{Command, run, run-Moves, run-IsCommitted}

-- Operations one after the other, each with the ends of its calls, whatever they return.
unfoldable pub history : List (Ends × Command) → Disk → Disk
history [] d = d
history ((w, command) ∷ rest) d = history rest (run w "primary" command d).0

history-Reach :
    (c : Phase) (events : List (Ends × Command)) (d : Disk)
    → Reach c (phase d)
    → Reach c (phase (history events d))
unfolding history
history-Reach c [] d r = r
history-Reach c ((w, command) ∷ rest) d r =
    history-Reach c rest (run w "primary" command d).0
      (Reach-Moves r (run-Moves w "primary" command d))

-- A host with no files of recovery control.
abbrev pub new_host : Disk
new_host = record {
  floor = none;
  initialized = false;
  authority = none;
  public = none;
  checkpoints = [];
}

new_host-phase : phase new_host ≡ absent
unfolding phase
new_host-phase = refl

module _ (events : List (Ends × Command)) where
  pub history-IsSound : IsSound (phase (history events new_host))
  history-IsSound =
      Reach-IsSound
        (history-Reach absent events new_host (subst (Reach absent) (sym new_host-phase) here))

  -- After any history of a new host, an authority that has opened the site has the digests of both
  -- the quarantine of Redis and the preparation of Core.
  pub history-http_ready :
      (a : Authority)
      → (history events new_host).authority ≡ some (some a)
      → validate a "primary" ≡ ok tt
      → a.state.phase ≡ "http_ready"
      → (a.redis_manifest_sha256 ≢ "") × (a.preparation_sha256 ≢ "")
  history-http_ready a e v p =
      subst IsSound (phase_authority (history events new_host) a e v ∙ phase_http_ready)
        history-IsSound
    where
      phase_http_ready : phase_of a ≡ http_ready (restore_of a) (evidence_of a)
      phase_http_ready = rw p refl

  -- Once a restore has begun, no history of operations makes the host ready again.
  pub history-ready :
      (d : Disk) (a : Authority)
      → HasBegun (phase d)
      → (history events d).authority ≡ some (some a)
      → validate a "primary" ≡ ok tt
      → a.state.phase ≢ "ready"
  history-ready d a begun e v p =
      subst HasBegun (phase_authority (history events d) a e v ∙ phase_ready)
        (Reach-HasBegun (history-Reach (phase d) events d here) begun)
    where
      phase_ready : phase_of a ≡ ready
      phase_ready = rw p refl

stays_lost : (c : Phase) → Moves lost c → c ≡ lost
stays_lost c (inl e) = e
stays_lost c (inr (rotate r p q e)) = absurd (p refl)
stays_lost c (inr (enable p q)) = absurd (ground arith)
stays_lost c (inr (interrupt p q)) = absurd (ground arith)
stays_lost c (inr (finish r e p q)) = absurd (ground arith)
stays_lost c (inr (prepare r e g p q h k)) = absurd (ground arith)
stays_lost c (inr (quarantine r e g p q h k)) = absurd (ground arith)
stays_lost c (inr (expose r e p q h k)) = absurd (ground arith)

not_committed :
    (w : Ends) (instance : String) (command : Command) (d : Disk)
    → phase (run w instance command d).0 ≡ lost
    → (o : Disk × Result Failure Authority) → run w instance command d ≡ o
    → (e : Failure) × (o.1 ≡ err e)
not_committed w instance command d l (s, err e) p = (e, refl)
not_committed w instance command d l (s, ok b) p =
    let c = run-IsCommitted w instance command d s b p in
    absurd (
      phase_of-lost b (
        sym (phase_authority s b c.stored (subst (λ i. validate b i ≡ ok tt) c.place c.valid))
        ∙ ap (λ (o : Disk × Result Failure Authority). phase o.0) (sym p)
        ∙ l))

-- A host whose authority is unreadable, or is missing behind the marker, stays so: every operation
-- returns an error, and leaves the authority lost.
pub run-lost :
    (w : Ends) (instance : String) (command : Command) (d : Disk)
    → phase d ≡ lost
    → ((e : Failure) × ((run w instance command d).1 ≡ err e))
      × (phase (run w instance command d).0 ≡ lost)
run-lost w instance command d l =
    let s = stays_lost _ (
      subst (λ c. Moves c (phase (run w instance command d).0)) l
        (run-Moves w instance command d)) in
    (not_committed w instance command d s (run w instance command d) refl, s)
