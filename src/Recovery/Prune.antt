-- ===== src/Recovery/Prune.antt =====
-- `prune` of internal/recovery/store.go.
use geoflow_updater.Prelude.{
  ℕ, String, Bool, false, Error, Option, none, some, List, [], ◌∷◌, any, length, leb, ◌==◌, str_eq,
  if◌then◌else◌,
}
use geoflow_updater.Prelude.Result.{Result, ok, err}
use geoflow_updater.Prelude.Action.{Action, ◌>>=◌, ◌>>◌, done, lift, query}
use geoflow_updater.Coordination.Records.{Plan}
use geoflow_updater.Coordination.Files.{Store}
use geoflow_updater.Coordination.Files as Files
use geoflow_updater.Coordination.Head.{protected_points}
use geoflow_updater.Recovery.Points.{
  Point, is_update_checkpoint, Entry, Backups, Fault, refused, protection, attempted, entry,
  list_points,
}

-- How `RemoveAll` ends for an entry: it is gone, or something is left of it.
pub data Removal : Type 0 where
  gone : Removal
  left : Entry → String → Removal

pub record Ends : Type 0 where
  pub remove : String → Removal
  pub sync : String → Error

-- What a store is set up with: how many points to keep (0 for the default), and the coordination
-- store, where there is a recovery control.
pub record Setup : Type 0 where
  pub keep : ℕ
  pub control : Option Store
  pub now : ℕ

abbrev pub Pruning : Type 0 → Type 0
Pruning A = Action Backups Fault A

abbrev pub mem : String → List String → Bool
mem id ids = any (str_eq id) ids

-- A set of identities, as a list that holds each once.
abbrev pub retain : String → List String → List String
retain id ids = if mem id ids then ids else id ∷ ids

unfoldable pub retain_all : List String → List String → List String
retain_all [] ids = ids
retain_all (p ∷ protected) ids = retain_all protected (retain p ids)

-- The newest update checkpoint.
unfoldable pub retain_checkpoint : List Point → List String → List String
unfolding is_update_checkpoint
retain_checkpoint [] ids = ids
retain_checkpoint (p ∷ points) ids =
    let rest = retain_checkpoint points ids in
    if is_update_checkpoint p then retain p.id ids else rest

-- The newest points, until there are enough.
unfoldable pub fill : ℕ → List Point → List String → List String
fill keep [] ids = ids
fill keep (p ∷ points) ids =
    let rest = fill keep points (retain p.id ids) in if leb keep (length ids) then ids else rest

abbrev pub retained : ℕ → List Point → List String → String → List String
retained keep points protected own =
    fill keep points (retain_checkpoint points (retain_all protected (own ∷ [])))

abbrev pub without : String → List (String × Entry) → List (String × Entry)
without id [] = []
without id ((n, e) ∷ rest) = if str_eq n id then without id rest else (n, e) ∷ without id rest

abbrev pub with_left : String → Entry → List (String × Entry) → List (String × Entry)
with_left id l [] = []
with_left id l ((n, e) ∷ rest) =
    if str_eq n id then (n, l) ∷ with_left id l rest else (n, e) ∷ with_left id l rest

-- `Lstat` shows a directory.
abbrev pub is_target : Option Entry → Bool
is_target none = false
is_target (some e) = e.is_directory

module _ (w : Ends) where
  abbrev pub removal_of : Removal → String → Pruning (Unit {0})
  removal_of gone id b = (record b { entries = without id b.entries }, ok tt)
  removal_of (left e m) id b = (record b { entries = with_left id e b.entries }, err (refused m))

  -- One turn of the last loop.
  unfoldable pub remove_point : String → Pruning (Unit {0})
  remove_point id = do
    query (λ b. attempted (if b.absolute then none else some "backup root must be absolute"))
    query (λ b. attempted (
        if is_target (entry id b.entries)
        then none
        else some "recovery point retention target is unsafe"))
    removal_of (w.remove id) id
    lift (attempted (w.sync id))

  unfoldable pub remove_points : List String → List Point → Pruning (Unit {0})
  unfolding remove_point
  remove_points ids [] = done tt
  remove_points ids (p ∷ points) =
      (if mem p.id ids then done tt else remove_point p.id) >> remove_points ids points

abbrev pub default_keep : ℕ → ℕ
default_keep keep = if keep == 0 then 5 else keep

abbrev pub protected_by : Result Files.Failure (List String) → Result Fault (List String)
protected_by (ok ids) = ok ids
protected_by (err e) = err (protection e)

-- The points of `ProtectedPoints`, where there is a recovery control. `digest` is `Digest` of the
-- coordination store on plans.
abbrev pub protected_of : (Plan → String) → Setup → String → Result Fault (List String)
protected_of digest setup instance = elim setup.control [
  | none ↦ ok []
  | some store ↦ protected_by (protected_points digest store instance setup.now)
]

-- `prune`. `own` is the point that was just created. A limit below 1 is refused; as a number the
-- limit cannot be.
unfoldable pub prune : Ends → (Plan → String) → Setup → String → String → Pruning (Unit {0})
unfolding retain_all retain_checkpoint fill remove_points
prune w digest setup instance own = do
  points ← query (λ b. list_points b instance)
  protected ← lift (protected_of digest setup instance)
  remove_points w (retained (default_keep setup.keep) points protected own) points
