-- ===== src/RecoveryControl/Store.antt =====
-- `change` of internal/recoverycontrol/store.go and the operations that are made of it.
use geoflow_updater.Prelude.{
  String, Bool, true, false, not, ◌&&◌, ◌||◌, Option, none, some, str_eq, if◌then◌else◌,
}
use geoflow_updater.Prelude.Result.{Result, ok, err}
use geoflow_updater.Prelude.Action.{◌>>=◌, ◌>>◌, done, fail, lift, query, check}
use geoflow_updater.Coordination.Patterns.{identifier, hex64, point_id}
use geoflow_updater.RecoveryControl.Records.{
  Failure, not_exist, refused, Authority, minimum_protocol, is_blank, validate,
}
use geoflow_updater.RecoveryControl.Disk.{
  Disk, Ends, Control, attempt, atomic, check_protocol, location, read,
}

abbrev pub floor_text : String
floor_text = "5\n"

abbrev pub write_floor : Disk → Disk
write_floor d = record d { floor = some (some floor_text) }

abbrev pub write_marker : Disk → Disk
write_marker d = record d { initialized = true }

abbrev pub write_authority : Authority → Disk → Disk
write_authority a d = record d { authority = some (some a) }

abbrev pub write_public : Authority → Disk → Disk
write_public a d = record d { public = some a.state }

-- Whether the transaction of the authority is this one.
abbrev pub is_transaction : Option String → String → Bool
is_transaction none transaction = false
is_transaction (some t) transaction = str_eq t transaction

abbrev pub first_authority : String → String → String → Authority
first_authority instance host epoch = record {
  state = record {
    schema_version = 1;
    instance_id = instance;
    host_id = host;
    epoch = epoch;
    transaction_id = none;
    phase = "ready";
    minimum_updater_protocol = 5;
  };
  point_id = "";
  admin_digest = "";
  data_restored = false;
  http_opened = false;
  redis_manifest_sha256 = "";
  preparation_sha256 = "";
}

-- A new transaction takes a new epoch and starts over.
abbrev pub rotated : String → String → String → String → Authority → Authority
rotated epoch point transaction admin_digest a = record {
  state = record a.state { epoch = epoch; transaction_id = some transaction; phase = "restoring" };
  point_id = point;
  admin_digest = admin_digest;
  data_restored = false;
  http_opened = false;
  redis_manifest_sha256 = "";
  preparation_sha256 = "";
}

abbrev pub in_phase : String → String → Authority → Bool
in_phase transaction phase a =
    is_transaction a.state.transaction_id transaction && str_eq a.state.phase phase

unfoldable pub mark_restored : String → Authority → Control Authority
mark_restored transaction a = do
  check (in_phase transaction "restoring" a) (refused "recovery completion identity conflict")
  done (record a { data_restored = true; state = record a.state { phase = "validating" } })

unfoldable pub mark_opened : String → Authority → Control Authority
mark_opened transaction a = do
  check
      (is_transaction a.state.transaction_id transaction
        && a.data_restored
        && not (is_blank a.redis_manifest_sha256)
        && not (is_blank a.preparation_sha256)
        && (str_eq a.state.phase "validating" || str_eq a.state.phase "http_ready"))
      (refused "recovery HTTP boundary identity conflict")
  done (record a { http_opened = true; state = record a.state { phase = "http_ready" } })

unfoldable pub mark_prepared : String → String → Authority → Control Authority
mark_prepared transaction digest a = do
  check (in_phase transaction "validating" a) (refused "Core preparation transaction mismatch")
  check (is_blank a.preparation_sha256 || str_eq a.preparation_sha256 digest)
      (refused "Core preparation report changed")
  done (record a { preparation_sha256 = digest })

unfoldable pub mark_quarantined : String → String → Authority → Control Authority
mark_quarantined transaction digest a = do
  check (in_phase transaction "validating" a) (refused "Redis quarantine transaction mismatch")
  check (is_blank a.redis_manifest_sha256 || str_eq a.redis_manifest_sha256 digest)
      (refused "Redis quarantine manifest changed")
  done (record a { redis_manifest_sha256 = digest })

module _ (w : Ends) where
  -- The first authority of a host: the floor and the marker are written before it is used.
  unfoldable pub initialized_authority : String → Control Authority
  initialized_authority instance = do
    found ← query (λ d. ok d.initialized)
    check (not found) (refused "recovery authority is missing after initialization")
    host ← lift w.host_id
    epoch ← lift w.first_epoch
    atomic w.first_floor_end write_floor
    atomic w.marker_end write_marker
    done (first_authority instance host epoch)

  -- The authority that is there, or else the first, where one may be made.
  unfoldable pub current : String → Bool → Result Failure Authority → Control Authority
  unfolding initialized_authority
  current instance initialize (ok a) = done a
  current instance true (err not_exist) = initialized_authority instance
  current instance false (err not_exist) = fail not_exist
  current instance initialize (err e) = fail e

  unfoldable pub publish : Authority → Control Authority
  publish a = do
    lift (attempt w.public_directory)
    atomic w.floor_end write_floor
    atomic w.authority_end (write_authority a)
    atomic w.public_end (write_public a)
    done a

  unfoldable pub change : String → Bool → (Authority → Control Authority) → Control Authority
  unfolding check_protocol location read current publish validate minimum_protocol
  change instance initialize mutate = do
    lift (location w instance)
    query (λ d. check_protocol d.floor minimum_protocol)
    lift (attempt w.directories)
    lift (attempt w.locked)
    stored ← query (λ d. ok (read w instance d))
    a ← current instance initialize stored
    b ← mutate a
    lift (validate b instance)
    publish b

  unfoldable pub initialize : String → Control Authority
  unfolding change
  initialize instance = change instance true done

  unfoldable pub begin_transaction : String → String → String → Authority → Control Authority
  begin_transaction point transaction admin_digest a =
      if is_transaction a.state.transaction_id transaction
      then (do
        check (str_eq a.point_id point && str_eq a.admin_digest admin_digest)
            (refused "recovery transaction identity conflict")
        done a)
      else (do epoch ← lift w.next_epoch; done (rotated epoch point transaction admin_digest a))

  unfoldable pub begin : String → String → String → String → Control Authority
  unfolding change begin_transaction
  begin instance point transaction admin_digest = do
    check (point_id point && identifier transaction && hex64 admin_digest)
        (refused "invalid recovery transaction identity")
    change instance true (begin_transaction point transaction admin_digest)

  unfoldable pub restored : String → String → Control Authority
  unfolding change mark_restored
  restored instance transaction = change instance false (mark_restored transaction)

  unfoldable pub open_http : String → String → Control Authority
  unfolding change mark_opened
  open_http instance transaction = change instance false (mark_opened transaction)

  unfoldable pub record_preparation : String → String → String → Control Authority
  unfolding change mark_prepared
  record_preparation instance transaction digest = do
    check (hex64 digest) (refused "invalid Core preparation digest")
    change instance false (mark_prepared transaction digest)

  unfoldable pub record_redis_manifest : String → String → String → Control Authority
  unfolding change mark_quarantined
  record_redis_manifest instance transaction digest = do
    check (hex64 digest) (refused "invalid Redis quarantine digest")
    change instance false (mark_quarantined transaction digest)
