-- ===== src/Authorization/World.antt =====
-- What the authorization works on, and the durable writes of internal/authorization/service.go.
use geoflow_updater.Prelude.{
  ℕ, String, Bool, true, false, Option, some, List, [], ◌∷◌, str_eq, if◌then◌else◌,
}
use geoflow_updater.Prelude.Result.{Result, ok, err}
use geoflow_updater.Coordination.Files.{Store, WriteEnd, clean, early, late, put}
use geoflow_updater.Authorization.Attempts.{Refusal, io, AttemptState}

-- The files `mutation.*` of an instance; those of a scope by its name. A file that cannot be read as
-- what it should hold is kept as `none`.
pub record Factors : Type 0 where
  pub secret : Option (Option String)
  pub global : Option (Option AttemptState)
  pub attempts : List (String × Option AttemptState)
  pub counters : List (String × Option ℕ)

-- What the service works on: its own files and the coordination store.
pub record World : Type 0 where
  pub factors : Factors
  pub store : Store

-- How the durable writes of one authorization end.
pub record Ends : Type 0 where
  pub counter_end : WriteEnd
  pub restore_end : WriteEnd
  pub scope_end : WriteEnd
  pub global_end : WriteEnd

abbrev pub Outcome : Type 0
Outcome = World × Result Refusal (Unit {0})

-- `replacePrivateFile`: whether the file has its new contents, and the error.
abbrev pub reaches : WriteEnd → Bool
reaches (early e) = false
reaches _ = true

abbrev pub write_error : WriteEnd → Result Refusal (Unit {0})
write_error clean = ok tt
write_error (early e) = err (io e)
write_error (late e) = err (io e)

abbrev pub with_global : WriteEnd → AttemptState → World → World
with_global end state w =
    if reaches end
    then record w { factors = record w.factors { global = some (some state) } }
    else w

unfoldable pub with_attempts : WriteEnd → String → AttemptState → World → World
unfolding put
with_attempts end scope state w =
    if reaches end
    then record w { factors = record w.factors { attempts = put scope state w.factors.attempts } }
    else w

unfoldable pub with_counter : WriteEnd → String → ℕ → World → World
unfolding put
with_counter end scope c w =
    if reaches end
    then record w { factors = record w.factors { counters = put scope c w.factors.counters } }
    else w

abbrev pub drop : {A : Type 0} → String → List (String × A) → List (String × A)
drop name [] = []
drop name (f ∷ files) = if str_eq f.0 name then drop name files else f ∷ drop name files

abbrev pub without_counter : WriteEnd → String → World → World
without_counter end scope w =
    if reaches end
    then record w { factors = record w.factors { counters = drop scope w.factors.counters } }
    else w

abbrev pub with_store : Store → World → World
with_store s w = record w { store = s }
