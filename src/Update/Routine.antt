-- ===== src/Update/Routine.antt =====
-- Go functions over a trace, with early return: a step goes on with a value, or has returned.
use geoflow_updater.Prelude.{Error, String, none, some}
use geoflow_updater.Update.Journal.{Trace}

-- An action appends to the trace and has a result.
abbrev pub Act : Type 0 → Type 0
Act A = Trace → A × Trace

pub data Step (R A : Type 0) : Type 0 where
  next : A → Step R A
  returned : R → Step R A

-- A part of a function body of result type `R`.
abbrev pub Routine : Type 0 → Type 0 → Type 0
Routine R A = Trace → Step R A × Trace

module _ {R : Type 0} where
  abbrev pub lift : {A : Type 0} → Act A → Routine R A
  lift m t = let (a, t') = m t in (next a, t')

  -- `return r`.
  abbrev pub give_back : {A : Type 0} → Act R → Routine R A
  give_back m t = let (r, t') = m t in (returned r, t')

  abbrev pub judge : Error → (String → Act R) → Routine R (Unit {0})
  judge none handle t = (next tt, t)
  judge (some message) handle t = give_back (handle message) t

  -- `if err := m(); err != nil { return handle(err) }`.
  unfoldable pub check : Act Error → (String → Act R) → Routine R (Unit {0})
  check m handle t = let (e, t') = m t in judge e handle t'

  abbrev pub continue : {A B : Type 0} → Step R A → (A → Routine R B) → Routine R B
  continue (next a) f t = f a t
  continue (returned r) f t = (returned r, t)

  infixl 5 ◌>>=◌ ◌>>◌
  unfoldable pub ◌>>=◌ : {A B : Type 0} → Routine R A → (A → Routine R B) → Routine R B
  ◌>>=◌ m f t = let (s, t') = m t in continue s f t'

  abbrev pub ◌>>◌ : {B : Type 0} → Routine R (Unit {0}) → Routine R B → Routine R B
  m >> k = m >>= λ _. k

  abbrev pub settle : Step R R → Act R
  settle (next r) t = (r, t)
  settle (returned r) t = (r, t)

  -- The whole body: it ends by returning, on every path.
  unfoldable pub run_body : Routine R R → Act R
  run_body m t = let (s, t') = m t in settle s t'

abbrev pub pure : {A : Type 0} → A → Act A
pure a t = (a, t)
