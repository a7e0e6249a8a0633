-- ===== src/Examples/RecoveryControl.antt =====
-- The recovery control of a host that is restored, and of one that lost its authority.
use geoflow_updater.Prelude.{◌≡◌, ◌≢◌, refl, String, true, false, none, some, [], ◌∷◌}
use geoflow_updater.Prelude.Regex.{is_digit, is_lower, is_upper, is_hex, matches}
use geoflow_updater.Prelude.Decimal.{trim_space, parse_uint}
use geoflow_updater.Prelude.Result.{ok, err}
use geoflow_updater.Coordination.Patterns.{identifier, hex32, hex64, point_id}
use geoflow_updater.Coordination.Files.{late, find, put}
use geoflow_updater.Operation.Messages.{byte_length}
use geoflow_updater.RecoveryControl.Records.{
  Failure, Authority, validate, minimum_protocol, validate_phase,
}
use geoflow_updater.RecoveryControl.Disk.{
  Disk, Ends, check_protocol, location, read, read_authority,
}
use geoflow_updater.RecoveryControl.Store.{
  change, current, initialized_authority, publish, restored, mark_restored, floor_text,
}
use geoflow_updater.RecoveryControl.Checkpoints.{checkpoint, capture, capture_checkpoint, freeze}
use geoflow_updater.RecoveryControl.Machine.{lost, Moves, HasBegun}
use geoflow_updater.RecoveryControl.Operations.{phase}
use geoflow_updater.RecoveryControl.Commits.{IsCommitted}
use geoflow_updater.RecoveryControl.Commands.{
  initialize_host, mark_complete, freeze_checkpoint, run, run-Moves, run-IsCommitted,
}
use geoflow_updater.RecoveryControl.Histories.{
  history, new_host, history-http_ready, history-ready, run-lost,
}
use geoflow_updater.RecoveryControl.Frozen.{Holds, checkpoint-capture_checkpoint}
use geoflow_updater.RecoveryControl.Kept.{history-Holds}
use geoflow_updater.RecoveryControl.Restores.{
  smooth, Texts, stage, restore_events, history-restore_events,
}

abbrev pub host : String
host = "00112233445566778899aabbccddeeff"

abbrev pub epoch : String
epoch = "ffeeddccbbaa99887766554433221100"

abbrev pub digest : String
digest = "0123456789abcdef0123456789abcdef0123456789abcdef0123456789abcdef"

abbrev pub point : String
point = "20260101T000000Z-0123abcd"

abbrev pub transaction : String
transaction = "restore-0001"

pub sample_texts : Texts host host epoch point transaction digest digest digest
unfolding hex32 hex64 identifier point_id matches is_hex is_digit is_lower is_upper
sample_texts = record {
  host_hex = refl;
  first_hex = refl;
  next_hex = refl;
  point_form = refl;
  transaction_form = refl;
  digest_hex = refl;
  redis_hex = refl;
  preparation_hex = refl;
}

abbrev opened : Authority
opened = stage sample_texts "http_ready" true true digest digest

history-restore_events_example :
    ((history (restore_events sample_texts) new_host).authority ≡ some (some opened))
    × ((history (restore_events sample_texts) new_host).public ≡ some opened.state)
history-restore_events_example = history-restore_events sample_texts

opened_valid : validate opened "primary" ≡ ok tt
unfolding validate validate_phase minimum_protocol hex32 hex64 identifier point_id matches is_hex
    is_digit is_lower is_upper
opened_valid = refl

history-http_ready_example : (digest ≢ "") × (digest ≢ "")
history-http_ready_example =
    history-http_ready (restore_events sample_texts) opened
      ((history-restore_events sample_texts).0) opened_valid refl

abbrev pub in_restore : Authority
in_restore = stage sample_texts "restoring" false false "" ""

abbrev pub restoring_host : Disk
restoring_host = record {
  floor = some (some floor_text);
  initialized = true;
  authority = some (some in_restore);
  public = some in_restore.state;
  checkpoints = [];
}

abbrev validated : Authority
validated = stage sample_texts "validating" true false "" ""

abbrev validating_host : Disk
validating_host = record restoring_host {
  authority = some (some validated);
  public = some validated.state;
}

restored_sample :
    run (smooth host host epoch) "primary" (mark_complete transaction) restoring_host
    ≡ (validating_host, ok validated)
unfolding run restored mark_restored change location read read_authority current publish
    check_protocol validate validate_phase minimum_protocol byte_length parse_uint trim_space hex32
    hex64 identifier point_id matches is_hex is_digit is_lower is_upper
restored_sample = refl

run-IsCommitted_example : IsCommitted "primary" validated validating_host
run-IsCommitted_example =
    run-IsCommitted (smooth host host epoch) "primary" (mark_complete transaction) restoring_host
      validating_host validated restored_sample

-- A write of the authority that is not known to have reached the disk.
abbrev torn : Ends
torn = record (smooth host host epoch) { authority_end = late "sync" }

run-Moves_example :
    Moves
      (phase restoring_host)
      (phase (run torn "primary" (mark_complete transaction) restoring_host).0)
run-Moves_example = run-Moves torn "primary" (mark_complete transaction) restoring_host

restoring_begun : HasBegun (phase restoring_host)
unfolding phase validate validate_phase minimum_protocol hex32 hex64 identifier point_id matches
    is_hex is_digit is_lower is_upper
restoring_begun = tt

validated_valid : validate validated "primary" ≡ ok tt
unfolding validate validate_phase minimum_protocol hex32 hex64 identifier point_id matches is_hex
    is_digit is_lower is_upper
validated_valid = refl

completed_sample :
    (history ((smooth host host epoch, mark_complete transaction) ∷ []) restoring_host).authority
    ≡ some (some validated)
unfolding history run restored mark_restored change location read read_authority current publish
    check_protocol validate validate_phase minimum_protocol byte_length parse_uint trim_space hex32
    hex64 identifier point_id matches is_hex is_digit is_lower is_upper
completed_sample = refl

history-ready_example : ◌≢◌ {A = String} "validating" "ready"
history-ready_example =
    history-ready ((smooth host host epoch, mark_complete transaction) ∷ []) restoring_host
      validated restoring_begun completed_sample validated_valid

-- The marker is there and the authority is not.
abbrev lost_host : Disk
lost_host = record new_host { initialized = true }

lost_there : phase lost_host ≡ lost
unfolding phase
lost_there = refl

run-lost_example :
    ((e : Failure) × ((run (smooth host host epoch) "primary" initialize_host lost_host).1 ≡ err e))
    × (phase (run (smooth host host epoch) "primary" initialize_host lost_host).0 ≡ lost)
run-lost_example = run-lost (smooth host host epoch) "primary" initialize_host lost_host lost_there

abbrev ready_host : Disk
ready_host =
    (run (smooth host host epoch) "primary" (freeze_checkpoint point transaction digest) new_host).0

abbrev first : Authority
first = record in_restore {
  state = record in_restore.state { epoch = host; transaction_id = none; phase = "ready" };
  point_id = "";
  admin_digest = "";
}

captured :
    capture_checkpoint (smooth host host epoch) "primary" point transaction digest new_host
    ≡ (ready_host, ok first)
unfolding run capture_checkpoint capture freeze checkpoint find put change location read
    read_authority current initialized_authority publish check_protocol validate validate_phase
    minimum_protocol byte_length parse_uint trim_space hex32 hex64 identifier point_id matches
    is_hex is_digit is_lower is_upper
captured = refl

checkpoint-capture_checkpoint_example : Holds point transaction digest ready_host
checkpoint-capture_checkpoint_example =
    checkpoint-capture_checkpoint (smooth host host epoch) point transaction digest new_host
      ready_host first captured

history-Holds_example :
    Holds point transaction digest
      (history ((torn, freeze_checkpoint point transaction host) ∷ []) ready_host)
history-Holds_example =
    history-Holds point transaction digest ((torn, freeze_checkpoint point transaction host) ∷ [])
      ready_host
      (checkpoint-capture_checkpoint (smooth host host epoch) point transaction digest new_host
        ready_host first captured)
