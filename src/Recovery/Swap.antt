-- ===== src/Recovery/Swap.antt =====
-- `restoreStagedDirectory` and `reconcileInterruptedDirectorySwap` of internal/recovery/store.go, with
-- every state of the disk that they pass through. `A` is what a directory holds.
use geoflow_updater.Prelude.{
  String, Bool, true, false, Error, join, concat, none, some, List, [], ◌∷◌, if◌then◌else◌,
}
use geoflow_updater.Prelude.Result.{Result, ok, err}
use geoflow_updater.Prelude.Action.{Action, proceed, done, fail}

pub data Place (A : Type 0) : Type 0 where
  absent : Place A
  irregular : Place A  -- anything but a directory
  directory : A → Place A

pub record Disk (A : Type 0) : Type 0 where
  pub current : Place A
  pub old : Place A
  pub staged : Place A

-- The disk, and what it was at each call before, the newest first.
pub record Run (A : Type 0) : Type 0 where
  pub disk : Disk A
  pub past : List (Disk A)

-- How a removal ends, and what it removed on its way.
pub data Removal (A : Type 0) : Type 0 where
  removed : List A → Removal A
  interrupted : List A → A → String → Removal A

-- What `Lstat` shows.
pub data Seen : Type 0 where
  missing unsafe plain : Seen
  trouble : String → Seen

-- What the calls come to, which may depend on all that happened.
pub record Calls (A : Type 0) : Type 0 where
  pub lstat : Run A → Error  -- an error other than that of a missing file
  pub mounts : Run A → Error  -- `rejectMountedTree` and `rejectNestedMounts`
  pub rename : Run A → Error
  pub sync : Run A → Error
  pub remove : Run A → Removal A

abbrev pub Swap : Type 0 → Type 0 → Type 0
Swap A B = Action (Run A) String B

abbrev pub seen : {A : Type 0} → Error → Place A → Seen
seen (some e) place = trouble e
seen none absent = missing
seen none irregular = unsafe
seen none (directory a) = plain

infixl 5 ◌>>=◌ ◌>>◌
unfoldable pub ◌>>=◌ : {A B C : Type 0} → Swap A B → (B → Swap A C) → Swap A C
◌>>=◌ call rest s = proceed (call s) rest

abbrev pub ◌>>◌ : {A C : Type 0} → Swap A (Unit {0}) → Swap A C → Swap A C
call >> rest = call >>= λ nothing. rest

module _ {A : Type 0} where
  -- A call that does not change the disk, or one that has changed it.
  abbrev pub passed : Disk A → Run A → Run A
  passed d s = record { disk = d; past = s.disk ∷ s.past }

  abbrev pub ended : Error → (Disk A → Disk A) → Run A → Run A × Result String (Unit {0})
  ended none change s = (passed (change s.disk) s, ok tt)
  ended (some e) change s = (passed s.disk s, err e)

  abbrev pub to_old : Disk A → Disk A
  to_old d = record d { current = absent; old = d.current }

  abbrev pub to_current : Disk A → Disk A
  to_current d = record d { current = d.old; old = absent }

  abbrev pub activated : Disk A → Disk A
  activated d = record d { current = d.staged; staged = absent }

  -- A directory is renamed to where nothing is.
  abbrev pub rename_error : Place A → Place A → Error → Error
  rename_error absent to e = some "no such file or directory"
  rename_error from absent e = e
  rename_error from to e = some "file exists"

  -- `fmt.Errorf("%s: %w", name, err)`.
  abbrev pub renamed_error :
      {B : Type 0} → String → Run A × Result String B → Run A × Result String B
  renamed_error name (s, err e) = (s, err (concat (name ∷ ": " ∷ e ∷ [])))
  renamed_error name (s, ok b) = (s, ok b)

  abbrev pub named : {B : Type 0} → String → Swap A B → Swap A B
  named name call s = renamed_error name (call s)

  -- The error of a call is looked at by the rest.
  abbrev pub error_of : Run A × Result String (Unit {0}) → Run A × Result String Error
  error_of (s, ok nothing) = (s, ok none)
  error_of (s, err e) = (s, ok (some e))

  abbrev pub attempt : Swap A (Unit {0}) → Swap A Error
  attempt call s = error_of (call s)

  abbrev pub returned : Error → Swap A (Unit {0})
  returned none s = (s, ok tt)
  returned (some e) s = (s, err e)

  -- The disks of a removal: the directory with less and less in it.
  abbrev pub emptied : List A → Run A → Run A
  emptied [] s = s
  emptied (a ∷ rest) s = emptied rest (passed (record s.disk { old = directory a }) s)

  abbrev pub after_removal : Removal A → Run A → Run A × Result String (Unit {0})
  after_removal (removed steps) s =
      let t = emptied steps s in (passed (record t.disk { old = absent }) t, ok tt)
  after_removal (interrupted steps a e) s =
      let t = emptied steps s in (passed (record t.disk { old = directory a }) t, err e)

module _ {A : Type 0} ⦃calls : Calls A⦄ where
  abbrev pub look : (Disk A → Place A) → Swap A Seen
  look place s = (passed s.disk s, ok (seen (calls.lstat s) (place s.disk)))

  abbrev pub reject_mounts : Swap A (Unit {0})
  reject_mounts s = ended (calls.mounts s) (λ d. d) s

  abbrev pub sync_directory : Swap A (Unit {0})
  sync_directory s = ended (calls.sync s) (λ d. d) s

  abbrev pub rename_to_old : Swap A (Unit {0})
  rename_to_old s = ended (rename_error s.disk.current s.disk.old (calls.rename s)) to_old s

  abbrev pub rename_to_current : Swap A (Unit {0})
  rename_to_current s = ended (rename_error s.disk.old s.disk.current (calls.rename s)) to_current s

  abbrev pub activate : Swap A (Unit {0})
  activate s = ended (rename_error s.disk.staged s.disk.current (calls.rename s)) activated s

  abbrev pub remove_old : Swap A (Unit {0})
  remove_old s = after_removal (calls.remove s) s

  -- Only the current directory is missing: it is put back.
  unfoldable pub put_back : Swap A Bool
  put_back = do
    named "recover interrupted directory swap" rename_to_current
    named "sync recovered directory swap" sync_directory
    done false

  -- The restored directory is in place: what is left of the other one is removed.
  unfoldable pub clean_up : Swap A Bool
  clean_up = do
    reject_mounts
    named "sync restored directory" sync_directory
    named "remove previous directory after interrupted restore" remove_old
    named "commit interrupted directory restore" sync_directory
    done true

  abbrev pub by_current : Seen → Swap A Bool
  by_current missing = put_back
  by_current plain = clean_up
  by_current _ = fail "restored storage path is unsafe"

  abbrev pub by_old : Seen → Swap A Bool
  by_old missing = done false
  by_old plain = look (λ d. d.current) >>= by_current
  by_old _ = fail "previous storage restore staging directory is unsafe"

  -- `reconcileInterruptedDirectorySwap`: whether the restored directory was already in place.
  unfoldable pub reconcile_swap : Swap A Bool
  unfolding put_back clean_up
  reconcile_swap = look (λ d. d.old) >>= by_old

  abbrev pub check_staged : Seen → Swap A (Unit {0})
  check_staged plain = done tt
  check_staged _ = fail "staged recovery directory is incomplete"

  abbrev pub check_free : Seen → Swap A (Unit {0})
  check_free missing = done tt
  check_free (trouble e) = fail e
  check_free _ = fail "previous directory restore staging path still exists"

  -- A failed step after which the directory is put back, if it can be.
  abbrev pub backed_out : Run A × Result String (Unit {0}) → Run A × Result String (Unit {0})
  backed_out (s, ok nothing) = (s, ok tt)
  backed_out (s, err e) = ((rename_to_current s).0, err e)

  abbrev pub or_back_out : Swap A (Unit {0}) → Swap A (Unit {0})
  or_back_out call s = backed_out (call s)

  unfoldable pub commit : Swap A (Unit {0})
  commit = do
    synced ← attempt sync_directory
    removal ← attempt remove_old
    final ← attempt sync_directory
    named "commit restored directory" (returned (join synced (join removal final)))

  unfoldable pub swap_in : Swap A (Unit {0})
  unfolding commit
  swap_in = do
    info ← look (λ d. d.staged)
    check_staged info
    reject_mounts
    free ← look (λ d. d.old)
    check_free free
    named "stage current directory for restore" rename_to_old
    named "sync staged current directory" (or_back_out sync_directory)
    named "activate restored directory" (or_back_out activate)
    reject_mounts
    commit

  -- `restoreStagedDirectory`.
  unfoldable pub restore_staged : Swap A (Unit {0})
  unfolding reconcile_swap swap_in
  restore_staged = do completed ← reconcile_swap; (if completed then done tt else swap_in)
