-- ===== src/Deployment/Task.antt =====
-- Functions of internal/deployment that work on a release transaction: they change the transaction
-- in memory, write it, make calls, and return a value or an error.
use geoflow_updater.Prelude.{String, Bool, true, false, Error, Option, none, some, [], ◌∷◌, concat}
use geoflow_updater.Prelude.Result.{Result, ok, err}
use geoflow_updater.Coordination.Files.{WriteEnd, clean, early, late}
use geoflow_updater.Deployment.Journal.{Transaction, Call, made, wrote, reported, Log, Run, Env}

abbrev pub Task : Type 0 → Type 0
Task A = Run → Run × Result String A

abbrev pub proceed : {A B : Type 0} → Run × Result String A → (A → Task B) → Run × Result String B
proceed (s, err failure) rest = (s, err failure)
proceed (s, ok value) rest = rest value s

infixl 5 ◌>>=◌ ◌>>◌
unfoldable pub ◌>>=◌ : {A B : Type 0} → Task A → (A → Task B) → Task B
◌>>=◌ task rest s = proceed (task s) rest

abbrev pub ◌>>◌ : {B : Type 0} → Task (Unit {0}) → Task B → Task B
task >> rest = task >>= λ nothing. rest

unfoldable pub done : {A : Type 0} → A → Task A
done value s = (s, ok value)

unfoldable pub fail : {A : Type 0} → String → Task A
fail message s = (s, err message)

-- What is known of the transaction in memory.
unfoldable pub get : Task Transaction
get s = (s, ok s.tx)

unfoldable pub modify : (Transaction → Transaction) → Task (Unit {0})
modify change s = (record s { tx = change s.tx }, ok tt)

abbrev pub answered : Error → Result String (Unit {0})
answered none = ok tt
answered (some e) = err e

-- The error of a task is dropped.
abbrev pub ignored : {A : Type 0} → Run × Result String A → Run × Result String (Unit {0})
ignored (s, _) = (s, ok tt)

unfoldable pub ignore : {A : Type 0} → Task A → Task (Unit {0})
ignore task s = ignored (task s)

abbrev pub caught : {A : Type 0} → Run × Result String A → Run × Result String (Result String A)
caught (s, r) = (s, ok r)

-- The error of a task is looked at by the rest.
unfoldable pub try : {A : Type 0} → Task A → Task (Result String A)
try task s = caught (task s)

abbrev pub named : {A : Type 0} → String → Run × Result String A → Run × Result String A
named name (s, err e) = (s, err (concat (name ∷ ": " ∷ e ∷ [])))
named name (s, ok a) = (s, ok a)

-- `fmt.Errorf("%s: %w", name, err)`.
unfoldable pub wrap : {A : Type 0} → String → Task A → Task A
wrap name task s = named name (task s)

abbrev pub require : Bool → String → Task (Unit {0})
require true message = done tt
require false message = fail message

module _ ⦃env : Env⦄ where
  -- What the environment shows now.
  unfoldable pub look : {A : Type 0} → (Log → A) → Task A
  look show s = (s, ok (show s.log))

  unfoldable pub call : Call → Task (Unit {0})
  call c s = let e = env.answer s.log c in (record s { log = made c e ∷ s.log }, answered e)

  abbrev pub written : WriteEnd → Run → Run × Result String (Unit {0})
  written clean s =
      (record s { file = some (some s.tx); log = wrote s.tx.traffic_opened clean ∷ s.log }, ok tt)
  written (early e) s = (record s { log = wrote s.tx.traffic_opened (early e) ∷ s.log }, err e)
  written (late e) s = (
    record s { file = some (some s.tx); log = wrote s.tx.traffic_opened (late e) ∷ s.log },
    err e,
  )

  -- `saveTransaction`.
  unfoldable pub save_transaction : Task (Unit {0})
  save_transaction s = written (env.write_end s.log) s

  abbrev pub told : Option (Log → String → String → Error) → String → String → Task (Unit {0})
  told none name status s = (s, ok tt)
  told (some observe) name status s =
      let e = observe s.log name status in
      (record s { log = reported name status e ∷ s.log }, answered e)

  -- `observe`, where there is an observer.
  unfoldable pub report : String → String → Task (Unit {0})
  report name status = told env.observer name status
