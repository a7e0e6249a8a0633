-- ===== src/Examples/Restore.antt =====
-- A restore that is taken up again after it was cut off while the storage was swapped.
use geoflow_updater.Prelude.{ℕ, ◌≡◌, refl, true, none, [], ◌∷◌, join}
use geoflow_updater.Prelude.Regex.{is_digit, is_lower, is_upper, is_hex, matches, matches_then}
use geoflow_updater.Prelude.Decimal.{trim_space, parse_uint}
use geoflow_updater.Prelude.Result.{ok}
use geoflow_updater.Coordination.Patterns.{identifier, hex32, hex64, point_id}
use geoflow_updater.Operation.Messages.{byte_length}
use geoflow_updater.RecoveryControl.Records.{validate, minimum_protocol, validate_phase}
use geoflow_updater.RecoveryControl.Disk.{check_protocol, location, read, read_authority}
use geoflow_updater.RecoveryControl.Store.{
  begin, begin_transaction, change, current, publish, restored, mark_restored,
}
use geoflow_updater.RecoveryControl.Restores.{smooth}
use geoflow_updater.Recovery.Swap.{
  absent, directory, put_back, clean_up, reconcile_swap, commit, swap_in, restore_staged, ◌>>=◌,
}
use geoflow_updater.Recovery.Attempts.{fresh, quiet}
use geoflow_updater.Recovery.Restore.{
  RestoreRequest, Host, Answers, Contents, replaced, restore_data, stage_archives,
  restore_validated,
}
use geoflow_updater.Recovery.Boundary.{Guarded, IsComplete}
use geoflow_updater.Recovery.Guarded.{restore_validated-Guarded, restore_validated-IsComplete}
use geoflow_updater.Examples.RecoveryControl.{
  host, epoch, digest, point, transaction, restoring_host,
}
use geoflow_updater.Examples.Recovery.{lost, cut_off}

abbrev request : RestoreRequest
request = record { point_id = point; transaction_id = transaction; admin_digest = digest }

abbrev contents : Contents ℕ
contents = record { storage_tree = 2; redis_tree = 4 }

abbrev answers : Answers ℕ
answers = record {
  answer = λ h s. none;
  control_ends = λ h. smooth host host epoch;
  storage_calls = λ h. quiet 1 2;
  redis_calls = λ h. quiet 3 4;
}

abbrev cut_host : Host ℕ
cut_host = record {
  controlled = restoring_host;
  storage = lost;
  redis = record { current = directory 3; old = absent; staged = absent };
  past = [];
}

restore_validated-Guarded_example :
    Guarded "primary" request
      (restore_validated answers contents "primary" request true ("site.env" ∷ []) cut_host).0
restore_validated-Guarded_example =
    restore_validated-Guarded answers contents "primary" request 1 3 cut_host cut_off
      (fresh cut_host.redis refl refl) refl true ("site.env" ∷ [])

cut_host-restored :
    (restore_validated answers contents "primary" request true ("site.env" ∷ []) cut_host).1 ≡ ok tt
unfolding restore_validated stage_archives restore_data replaced restore_staged reconcile_swap
    put_back clean_up swap_in commit ◌>>=◌ join begin begin_transaction restored mark_restored
    change location read read_authority current publish check_protocol validate validate_phase
    minimum_protocol byte_length parse_uint trim_space hex32 hex64 identifier point_id matches
    matches_then is_hex is_digit is_lower is_upper
cut_host-restored = refl

restore_validated-IsComplete_example :
    IsComplete contents "primary" request 1 3 cut_host
      ("site.env" ∷ [])
      (restore_validated answers contents "primary" request true ("site.env" ∷ []) cut_host).0
restore_validated-IsComplete_example =
    restore_validated-IsComplete answers contents "primary" request 1 3 cut_host cut_off
      (fresh cut_host.redis refl refl) refl true ("site.env" ∷ []) cut_host-restored
