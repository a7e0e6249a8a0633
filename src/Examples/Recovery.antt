-- ===== src/Examples/Recovery.antt =====
-- A directory whose restore was cut off between its two renames, and five recovery points of which
-- at most one is to be kept.
use geoflow_updater.Prelude.{
  ℕ, ◌≡◌, ◌<◌, refl, ap, subst, sym, ◌⊎◌, ◌∷◌, inl, inr, String, true, join, none, some, [], Memᴰ,
  arith,
}
use geoflow_updater.Prelude.Regex.{is_digit, is_hex, matches, matches_then}
use geoflow_updater.Prelude.Result.{ok}
use geoflow_updater.Coordination.Patterns.{point_id}
use geoflow_updater.Deployment.Recover.{instance_id_pattern}
use geoflow_updater.Recovery.Points.{
  Point, is_update_checkpoint, Entry, Backups, load, loaded, insert, sort, list_points, entry,
}
use geoflow_updater.Recovery.Prune.{
  gone, Ends, Setup, retain_all, retain_checkpoint, fill, remove_point, remove_points, prune,
}
use geoflow_updater.Recovery.Pruned.{IsProtected, prune-entry}
use geoflow_updater.Recovery.Bounded.{IsBounded, prune-IsBounded}
use geoflow_updater.Recovery.Checkpoints.{IsNewest}
use geoflow_updater.Recovery.Swap.{
  absent, directory, Disk, Run, reconcile_swap, commit, swap_in, restore_staged, ◌>>=◌,
}
use geoflow_updater.Recovery.Intact.{Kept, Finished}
use geoflow_updater.Recovery.Attempts.{
  start, Attempted, fresh, cut, quiet, attempted-Kept, restore_staged-completes,
}

-- The tree from before is 1, the restored one 2.
abbrev whole : Disk ℕ
whole = record { current = directory 1; old = absent; staged = absent }

abbrev halfway : Disk ℕ
halfway = record { current = absent; old = directory 1; staged = directory 2 }

abbrev pub lost : Disk ℕ
lost = record { current = absent; old = directory 1; staged = absent }

abbrev attempt : Run ℕ
attempt = (restore_staged ⦃calls = quiet 1 2⦄ (start 2 whole)).0

halfway_passed : Memᴰ halfway (attempt.disk ∷ attempt.past)
unfolding restore_staged reconcile_swap swap_in commit ◌>>=◌ join
halfway_passed = Memᴰ.tail (Memᴰ.tail (Memᴰ.tail (Memᴰ.tail (Memᴰ.tail (Memᴰ.head refl)))))

pub cut_off : Attempted 1 2 lost
cut_off = cut (quiet 1 2) whole halfway lost absent (fresh whole refl refl) halfway_passed refl

attempted-Kept_example : Kept 1 2 lost
attempted-Kept_example = attempted-Kept 1 2 lost cut_off

restore_staged-completes_example :
    ((restore_staged ⦃calls = quiet 1 2⦄ (start 2 lost)).1 ≡ ok tt)
    × Finished 1 2 (restore_staged ⦃calls = quiet 1 2⦄ (start 2 lost)).0.disk
restore_staged-completes_example = restore_staged-completes 1 2 lost cut_off

abbrev first_id : String
first_id = "20260101T000000Z-aaaaaaaa"

abbrev second_id : String
second_id = "20260102T000000Z-bbbbbbbb"

abbrev third_id : String
third_id = "20260103T000000Z-cccccccc"

abbrev point_of : String → String → ℕ → Point
point_of id reason created = record {
  deployment = none;
  schema_version = 1;
  id = id;
  instance_id = "primary";
  reason = reason;
  created_at = created;
  version = "2.0.0";
  release_sequence = 42;
  root = "/srv/geoflow";
  files = [];
}

abbrev entry_of : Point → String × Entry
entry_of p = (p.id, record { is_directory = true; manifest = some p })

abbrev first : Point
first = point_of first_id "manual" 1

abbrev second : Point
second = point_of second_id "update-to-2.1.0" 2

abbrev third : Point
third = point_of third_id "manual" 3

abbrev backups : Backups
backups = record {
  absolute = true;
  present = true;
  listing = none;
  entries =
      entry_of first
      ∷ entry_of second
      ∷ entry_of third
      ∷ ("notes", record { is_directory = true; manifest = none })
      ∷ [];
}

abbrev ends : Ends
ends = record { remove = λ id. gone; sync = λ id. none }

abbrev setup : Setup
setup = record { keep = 1; control = none; now = 4 }

abbrev pruned_backups : Backups
pruned_backups = record backups {
  entries =
      entry_of second
      ∷ entry_of third
      ∷ ("notes", record { is_directory = true; manifest = none })
      ∷ [];
}

list_points-backups : list_points backups "primary" ≡ ok (third ∷ second ∷ first ∷ [])
unfolding list_points loaded load sort insert point_id instance_id_pattern matches matches_then
    is_digit is_hex
list_points-backups = refl

prune-backups : prune ends (λ plan. "") setup "primary" third_id backups ≡ (pruned_backups, ok tt)
unfolding prune list_points loaded load sort insert retain_all retain_checkpoint fill remove_point
    remove_points is_update_checkpoint point_id instance_id_pattern matches matches_then is_digit
    is_hex
prune-backups = refl

among :
    (q : Point)
    → Memᴰ q (third ∷ second ∷ first ∷ [])
    → is_update_checkpoint q ≡ true
    → (q.id ≡ second_id) ⊎ (q.created_at < 2)
unfolding is_update_checkpoint
among q (Memᴰ.head e) h =
    let h = subst (λ p. is_update_checkpoint p ≡ true) e h in absurd (ground arith)
among q (Memᴰ.tail (Memᴰ.head e)) h = inl (ap (λ (p : Point). p.id) e)
among q (Memᴰ.tail (Memᴰ.tail (Memᴰ.head e))) h =
    inr (subst (λ p. p.created_at < 2) (sym e) (omega arith))
among q (Memᴰ.tail (Memᴰ.tail (Memᴰ.tail m))) h = elim m [ ]

newest : IsNewest second (third ∷ second ∷ first ∷ [])
unfolding is_update_checkpoint
newest = (refl, among)

prune-entry_example :
    entry second_id (prune ends (λ plan. "") setup "primary" third_id backups).0.entries
    ≡ entry second_id backups.entries
prune-entry_example =
    prune-entry ends (λ plan. "") setup "primary" third_id backups second_id
      (IsProtected.checkpoint (third ∷ second ∷ first ∷ []) second list_points-backups
        (Memᴰ.tail (Memᴰ.head refl)) newest refl)

prune-IsBounded_example :
    IsBounded ends
      (λ plan. "")
      setup
      "primary"
      third_id
      backups
      (third ∷ second ∷ first ∷ [])
      []
      pruned_backups
prune-IsBounded_example =
    prune-IsBounded ends (λ plan. "") setup "primary" third_id backups (third ∷ second ∷ first ∷ [])
      [] pruned_backups list_points-backups refl prune-backups
