-- ===== src/Coordination/Files.antt =====
-- The files of a coordination store: `entries`, `read`, `write` and `root` of
-- internal/coordination/store.go. A file that cannot be read as a record is kept as `none`.
use geoflow_updater.Prelude.{
  String, Bool, Option, none, some, List, [], ◌∷◌, map, str_eq, if◌then◌else◌,
}
use geoflow_updater.Prelude.Result.{Result, ok, err}
use geoflow_updater.Coordination.Records.{Admission, Plan, Head}

pub data Failure : Type 0 where
  conflict plan_invalid not_exist invalid_instance invalid_request_identity : Failure
  invalid_operation_identity invalid_admission_authority invalid_order_authority : Failure
  duplicate_operation duplicate_sequence lost_authority conflicting_order : Failure
  sequence_exhausted superseded invalid_projection unsafe_record unsafe_directory : Failure
  unreadable_json : Failure
  io : String → Failure

-- The order in which a directory lists its files is that of the list; no result depends on it but
-- the choice among several errors.
pub record Directory (A : Type 0) : Type 0 where
  pub usable : Bool
  pub files : List (String × Option A)

pub record Store : Type 0 where
  pub admissions : Directory Admission
  pub plans : Directory Plan
  pub head : Option (Option Head)

-- How a durable write ends: well, with an error before the file has its name, or with an error
-- afterwards, when the directory is synced.
pub data WriteEnd : Type 0 where
  clean : WriteEnd
  early late : String → WriteEnd

abbrev pub write_result : WriteEnd → Result Failure (Unit {0})
write_result clean = ok tt
write_result (early e) = err (io e)
write_result (late e) = err (io e)

module _ {A : Type 0} where
  unfoldable pub find : String → List (String × Option A) → Option (Option A)
  find name [] = none
  find name ((other, value) ∷ files) = if str_eq other name then some value else find name files

  unfoldable pub put : String → A → List (String × Option A) → List (String × Option A)
  put name value [] = (name, some value) ∷ []
  put name value ((other, old) ∷ files) =
      if str_eq other name then (name, some value) ∷ files else (other, old) ∷ put name value files

  -- `read`.
  unfoldable pub read : String → Directory A → Result Failure A
  unfolding find
  read name d = elim (find name d.files) [
    | none ↦ err not_exist
    | some none ↦ err unsafe_record
    | some (some value) ↦ ok value
  ]

  -- `entries`.
  unfoldable pub entries : Directory A → Result Failure (List String)
  entries d = if d.usable then ok (map (λ f. f.0) d.files) else err unsafe_directory

  -- `write` of a file that must be new: the link fails where the name is taken.
  unfoldable pub create :
      WriteEnd → String → A → Directory A → Directory A × Result Failure (Unit {0})
  unfolding find put
  create (early e) name value d = (d, err (io e))
  create end name value d = elim (find name d.files) [
    | none ↦ (record d { files = put name value d.files }, write_result end)
    | some _ ↦ (d, err conflict)
  ]

  -- `write` of a file that may replace another.
  unfoldable pub replace :
      WriteEnd → String → A → Directory A → Directory A × Result Failure (Unit {0})
  unfolding put
  replace (early e) name value d = (d, err (io e))
  replace end name value d = (record d { files = put name value d.files }, write_result end)

-- `root`: only the instance `primary` has a store.
abbrev pub root : String → Result Failure (Unit {0})
root id = if str_eq id "primary" then ok tt else err invalid_instance
