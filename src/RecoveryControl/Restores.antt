-- ===== src/RecoveryControl/Restores.antt =====
-- A restore that nothing disturbs, through the operations of internal/recoverycontrol/store.go.
use geoflow_updater.Prelude.{
  ◌≡◌, ◌≢◌, refl, ap, ◌∙◌, subst, inl, inr, Bool-cases, eq_iff, String, Bool, true, false, ◌||◌,
  none, some, List, [], ◌∷◌, eq_refl, arith,
}
use geoflow_updater.Prelude.Result.{Result, ok}
use geoflow_updater.Coordination.Patterns.{identifier, hex32, hex64, point_id}
use geoflow_updater.Coordination.Files.{clean}
use geoflow_updater.RecoveryControl.Records.{
  Failure, Authority, minimum_protocol, is_blank, validate, validate_phase,
}
use geoflow_updater.RecoveryControl.Disk.{
  Disk, Ends, Control, check_protocol, location, read, read_authority,
}
use geoflow_updater.RecoveryControl.Store.{
  write_floor, write_marker, write_authority, write_public, first_authority, initialized_authority,
  current, publish, change, begin, begin_transaction, initialize, restored, mark_restored,
  open_http, mark_opened, record_preparation, mark_prepared, record_redis_manifest,
  mark_quarantined,
}
use geoflow_updater.RecoveryControl.Floor.{floor_text-accepted}
use geoflow_updater.RecoveryControl.Commands.{
  Command, initialize_host, begin_restore, mark_complete, expose_http, prepared, quarantined, run,
}
use geoflow_updater.RecoveryControl.Histories.{history, new_host}

-- Every call goes well, and `randomID` gives these.
abbrev pub smooth : String → String → String → Ends
smooth host first next = record {
  absolute = true;
  directories = none;
  locked = none;
  host_id = ok host;
  first_epoch = ok first;
  next_epoch = ok next;
  first_floor_end = clean;
  marker_end = clean;
  checkpoint_directory = none;
  checkpoint_end = clean;
  public_directory = none;
  floor_end = clean;
  authority_end = clean;
  public_end = clean;
}

-- The texts of one restore, each in its format.
pub record Texts (host first next point transaction digest redis preparation : String)
    : Type 0 where
  pub host_hex : hex32 host ≡ true
  pub first_hex : hex32 first ≡ true
  pub next_hex : hex32 next ≡ true
  pub point_form : point_id point ≡ true
  pub transaction_form : identifier transaction ≡ true
  pub digest_hex : hex64 digest ≡ true
  pub redis_hex : hex64 redis ≡ true
  pub preparation_hex : hex64 preparation ≡ true

abbrev published : Authority → Disk → Disk
published b d = write_public b (write_authority b (write_floor d))

history_step :
    (w : Ends) (command : Command) (rest : List (Ends × Command)) (d : Disk) {s : Disk}
    {r : Result Failure Authority}
    → run w "primary" command d ≡ (s, r)
    → history ((w, command) ∷ rest) d ≡ history rest s
unfolding history
history_step w command rest d e = ap (λ o. history rest o.0) e

blank_hex : hex64 "" ≢ true
unfolding hex64
blank_hex h = cc

module _ {host first next point transaction digest redis preparation : String}
    (x : Texts host first next point transaction digest redis preparation) where
  abbrev pub w : Ends
  w = smooth host first next

  -- The authority in the course of this restore.
  abbrev pub stage : String → Bool → Bool → String → String → Authority
  stage phase data_restored http_opened r p = record {
    state = record {
      schema_version = 1;
      instance_id = "primary";
      host_id = host;
      epoch = next;
      transaction_id = some transaction;
      phase = phase;
      minimum_updater_protocol = 5;
    };
    point_id = point;
    admin_digest = digest;
    data_restored = data_restored;
    http_opened = http_opened;
    redis_manifest_sha256 = r;
    preparation_sha256 = p;
  }

  change_smooth :
      (init : Bool) (mutate : Authority → Control Authority) (b c : Authority) (d : Disk)
      → validate b "primary" ≡ ok tt
      → mutate b (published b d) ≡ (published b d, ok c)
      → validate c "primary" ≡ ok tt
      → change w "primary" init mutate (published b d) ≡ (published c d, ok c)
  unfolding change location read read_authority current publish
  change_smooth init mutate b c d v m u =
      rw ((floor_text-accepted 5).1 (omega arith)) (rw v (rw m (rw u refl)))

  abbrev initial : Authority
  initial = first_authority "primary" host first

  initial_valid : validate initial "primary" ≡ ok tt
  unfolding validate validate_phase minimum_protocol
  initial_valid = rw (x.host_hex, x.first_hex) refl

  stage_valid :
      (phase : String) (data_restored http_opened : Bool) (r p : String)
      → validate_phase (stage phase data_restored http_opened r p) ≡ ok tt
      → (is_blank r || hex64 r) ≡ true
      → (is_blank p || hex64 p) ≡ true
      → validate (stage phase data_restored http_opened r p) "primary" ≡ ok tt
  unfolding validate minimum_protocol
  stage_valid phase data_restored http_opened r p v u t =
      rw (x.host_hex, x.next_hex) (rw v (rw (u, t) refl))

  phase_valid :
      (r p : String)
      → (validate_phase (stage "restoring" false false r p) ≡ ok tt)
        × (validate_phase (stage "validating" true false r p) ≡ ok tt)
        × (validate_phase (stage "http_ready" true true r p) ≡ ok tt)
  unfolding validate_phase
  phase_valid r p = (
    rw (x.point_form, x.transaction_form, x.digest_hex) refl,
    rw (x.point_form, x.transaction_form, x.digest_hex) refl,
    rw (x.point_form, x.transaction_form, x.digest_hex) refl,
  )

  or_true : (b : Bool) → (b || true) ≡ true
  or_true false = refl
  or_true true = refl

  redis_there : (is_blank redis || hex64 redis) ≡ true
  redis_there = rw x.redis_hex (or_true (is_blank redis))

  preparation_there : (is_blank preparation || hex64 preparation) ≡ true
  preparation_there = rw x.preparation_hex (or_true (is_blank preparation))

  restoring_valid : validate (stage "restoring" false false "" "") "primary" ≡ ok tt
  restoring_valid = stage_valid "restoring" false false "" "" (phase_valid "" "").0 refl refl

  validating_valid : validate (stage "validating" true false "" "") "primary" ≡ ok tt
  validating_valid = stage_valid "validating" true false "" "" (phase_valid "" "").1 refl refl

  quarantined_valid : validate (stage "validating" true false redis "") "primary" ≡ ok tt
  quarantined_valid =
      stage_valid "validating" true false redis "" (phase_valid redis "").1 redis_there refl

  prepared_valid : validate (stage "validating" true false redis preparation) "primary" ≡ ok tt
  prepared_valid =
      stage_valid "validating" true false redis preparation (phase_valid redis preparation).1
        redis_there preparation_there

  opened_valid : validate (stage "http_ready" true true redis preparation) "primary" ≡ ok tt
  opened_valid =
      stage_valid "http_ready" true true redis preparation (phase_valid redis preparation).2
        redis_there preparation_there

  -- A digest is not blank.
  hex64-is_blank : (s : String) → hex64 s ≡ true → is_blank s ≡ false
  hex64-is_blank s h = elim (Bool-cases (is_blank s)) [
    | inl e ↦ absurd (blank_hex (subst (λ t. hex64 t ≡ true) ((eq_iff s "").0 e) h))
    | inr e ↦ e
  ]

  abbrev host_disk : Disk
  host_disk = write_marker new_host

  initialized : run w "primary" initialize_host new_host ≡ (published initial host_disk, ok initial)
  unfolding run initialize change location read read_authority current initialized_authority publish
      check_protocol
  initialized = rw initial_valid refl

  begun : run w "primary" (begin_restore point transaction digest) (published initial host_disk) ≡ (
    published (stage "restoring" false false "" "") host_disk,
    ok (stage "restoring" false false "" ""),
  )
  unfolding run begin begin_transaction
  begun =
      rw (x.point_form, x.transaction_form, x.digest_hex)
        (change_smooth true (begin_transaction w point transaction digest) initial
          (stage "restoring" false false "" "") host_disk initial_valid refl restoring_valid)

  completed :
      run w "primary"
        (mark_complete transaction)
        (published (stage "restoring" false false "" "") host_disk)
      ≡ (
        published (stage "validating" true false "" "") host_disk,
        ok (stage "validating" true false "" ""),
      )
  unfolding run restored mark_restored
  completed =
      change_smooth false (mark_restored transaction) (stage "restoring" false false "" "")
        (stage "validating" true false "" "") host_disk restoring_valid
        (rw (eq_refl transaction) refl) validating_valid

  redis_recorded :
      run w "primary"
        (quarantined transaction redis)
        (published (stage "validating" true false "" "") host_disk)
      ≡ (
        published (stage "validating" true false redis "") host_disk,
        ok (stage "validating" true false redis ""),
      )
  unfolding run record_redis_manifest mark_quarantined
  redis_recorded = rw x.redis_hex (
      change_smooth false (mark_quarantined transaction redis) (stage "validating" true false "" "")
        (stage "validating" true false redis "") host_disk validating_valid
        (rw (eq_refl transaction) refl) quarantined_valid)

  preparation_recorded :
      run w "primary"
        (prepared transaction preparation)
        (published (stage "validating" true false redis "") host_disk)
      ≡ (
        published (stage "validating" true false redis preparation) host_disk,
        ok (stage "validating" true false redis preparation),
      )
  unfolding run record_preparation mark_prepared
  preparation_recorded = rw x.preparation_hex (
      change_smooth false (mark_prepared transaction preparation)
        (stage "validating" true false redis "") (stage "validating" true false redis preparation)
        host_disk quarantined_valid (rw (eq_refl transaction) refl) prepared_valid)

  exposed :
      run w "primary"
        (expose_http transaction)
        (published (stage "validating" true false redis preparation) host_disk)
      ≡ (
        published (stage "http_ready" true true redis preparation) host_disk,
        ok (stage "http_ready" true true redis preparation),
      )
  unfolding run open_http mark_opened
  exposed =
      change_smooth false (mark_opened transaction)
        (stage "validating" true false redis preparation)
        (stage "http_ready" true true redis preparation) host_disk prepared_valid
        (rw
          (
            eq_refl transaction,
            hex64-is_blank redis x.redis_hex,
            hex64-is_blank preparation x.preparation_hex,
          )
          refl)
        opened_valid

  -- The operations of a restore, in their order, from each of them on.
  abbrev opening : List (Ends × Command)
  opening = (w, prepared transaction preparation) ∷ (w, expose_http transaction) ∷ []

  abbrev recording : List (Ends × Command)
  recording = (w, quarantined transaction redis) ∷ opening

  abbrev finishing : List (Ends × Command)
  finishing = (w, mark_complete transaction) ∷ recording

  abbrev restoring_events : List (Ends × Command)
  restoring_events = (w, begin_restore point transaction digest) ∷ finishing

  abbrev pub restore_events : List (Ends × Command)
  restore_events = (w, initialize_host) ∷ restoring_events

  restored_disk :
      history restore_events new_host
      ≡ published (stage "http_ready" true true redis preparation) host_disk
  unfolding history
  restored_disk =
      history_step w initialize_host restoring_events new_host initialized
      ∙ history_step w (begin_restore point transaction digest) finishing _ begun
      ∙ history_step w (mark_complete transaction) recording _ completed
      ∙ history_step w (quarantined transaction redis) opening _ redis_recorded
      ∙ history_step w (prepared transaction preparation) ((w, expose_http transaction) ∷ []) _
          preparation_recorded
      ∙ history_step w (expose_http transaction) [] _ exposed

  -- A restore of a new host that nothing disturbs opens the site: the authority and the public state
  -- are those of its transaction in the phase `http_ready`, with the digests that were recorded.
  pub history-restore_events :
      ((history restore_events new_host).authority
        ≡ some (some (stage "http_ready" true true redis preparation)))
      × ((history restore_events new_host).public
          ≡ some (stage "http_ready" true true redis preparation).state)
  history-restore_events = rw restored_disk (refl, refl)
