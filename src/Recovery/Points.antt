-- ===== src/Recovery/Points.antt =====
-- The recovery points of internal/recovery/store.go: the data of a point, `load`, `List` and `prune`.
use text.Mathlib.Text.{starts_with}
use geoflow_updater.Prelude.{
  ℕ, String, Bool, not, ◌&&◌, Error, Option, none, some, List, [], ◌∷◌, ltb, ◌==◌, str_eq,
  if◌then◌else◌,
}
use geoflow_updater.Prelude.Result.{Result, ok, err, require, ◌>>=◌, ◌>>◌}
use geoflow_updater.Coordination.Patterns.{point_id}
use geoflow_updater.Coordination.Files.{find}
use geoflow_updater.Coordination.Files as Files
use geoflow_updater.Deployment.Journal.{Config}
use geoflow_updater.Deployment.Recover.{instance_id_pattern}

pub record FileRecord : Type 0 where
  pub sha256 : String
  pub size : ℕ
  pub mode : ℕ
  pub uid : ℕ
  pub gid : ℕ

pub record Point : Type 0 where
  pub deployment : Option Config
  pub schema_version : ℕ
  pub id : String
  pub instance_id : String
  pub reason : String
  pub created_at : ℕ  -- the zero time is 0
  pub version : String
  pub release_sequence : ℕ  -- uint64
  pub root : String
  pub files : List (String × FileRecord)

-- `IsUpdateCheckpoint`.
unfoldable pub is_update_checkpoint : Point → Bool
is_update_checkpoint p = starts_with p.reason "update-to-"

-- An entry of the directory of an instance: whether it is a directory, and the manifest in it, where
-- there is one that can be decoded.
pub record Entry : Type 0 where
  pub is_directory : Bool
  pub manifest : Option Point

-- The directory of an instance under the backup root, which may be missing, and an error of reading it.
pub record Backups : Type 0 where
  pub absolute : Bool  -- of the backup root
  pub present : Bool
  pub listing : Error
  pub entries : List (String × Entry)

pub data Fault : Type 0 where
  refused : String → Fault
  protection : Files.Failure → Fault

abbrev pub attempted : Error → Result Fault (Unit {0})
attempted none = ok tt
attempted (some e) = err (refused e)

abbrev pub entry : String → List (String × Entry) → Option Entry
entry name [] = none
entry name ((n, e) ∷ rest) = if str_eq n name then some e else entry name rest

abbrev pub manifest_of : Option Entry → Result Fault Point
manifest_of none = err (refused "recovery point manifest is unavailable")
manifest_of (some e) = elim e.manifest [
  | none ↦ err (refused "recovery point manifest is unavailable")
  | some p ↦ ok p
]

abbrev pub is_valid : String → String → Point → Bool
is_valid instance id p =
    p.schema_version == 1
    && str_eq p.id id
    && str_eq p.instance_id instance
    && not (p.release_sequence == 0)
    && not (p.created_at == 0)

-- `load`.
unfoldable pub load : Backups → String → String → Result Fault Point
load b instance id = do
  require (instance_id_pattern instance && point_id id)
      (refused "recovery point identifier is invalid")
  require b.absolute (refused "backup root must be absolute")
  p ← manifest_of (entry id b.entries)
  require (is_valid instance id p) (refused "recovery point manifest is invalid")
  ok p

abbrev pub with_loaded : Result Fault Point → List Point → List Point
with_loaded (ok p) rest = p ∷ rest
with_loaded (err e) rest = rest

-- The loop of `List` over the entries of the directory.
unfoldable pub loaded : Backups → String → List (String × Entry) → List Point
loaded b instance [] = []
loaded b instance ((name, e) ∷ entries) =
    let rest = loaded b instance entries in
    if e.is_directory && point_id name then with_loaded (load b instance name) rest else rest

-- The newest first. Among points of the same moment Go's order is not defined.
unfoldable pub insert : Point → List Point → List Point
insert p [] = p ∷ []
insert p (q ∷ rest) = if ltb p.created_at q.created_at then q ∷ insert p rest else p ∷ q ∷ rest

unfoldable pub sort : List Point → List Point
unfolding insert
sort [] = []
sort (p ∷ rest) = insert p (sort rest)

-- `List`.
unfoldable pub list_points : Backups → String → Result Fault (List Point)
unfolding sort loaded
list_points b instance = do
  require (instance_id_pattern instance) (refused "managed instance identifier is invalid")
  require b.absolute (refused "backup root must be absolute")
  (if b.present then (attempted b.listing >> ok (sort (loaded b instance b.entries))) else ok [])
