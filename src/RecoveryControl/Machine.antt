-- ===== src/RecoveryControl/Machine.antt =====
-- What recovery control promises of a host: the phases of a restore and the moves between them.
use geoflow_updater.Prelude.{
  ◌≡◌, ◌≢◌, refl, sym, subst, ◌⊎◌, inl, inr, String, true, Option, none, some,
}
use geoflow_updater.Coordination.Patterns.{hex64}

pub record Restore : Type 0 where
  pub epoch : String
  pub transaction : String
  pub point : String
  pub admin_digest : String

-- What was recorded of a restore; an empty text where nothing was.
pub record Evidence : Type 0 where
  pub redis : String
  pub preparation : String

-- `lost` is a host whose authority cannot be read any more, and that needs an operator.
pub data Phase : Type 0 where
  absent ready lost : Phase
  restoring validating http_ready : Restore → Evidence → Phase

abbrev pub no_evidence : Evidence
no_evidence = record { redis = ""; preparation = "" }

abbrev pub transaction_of : Phase → Option String
transaction_of (restoring r e) = some r.transaction
transaction_of (validating r e) = some r.transaction
transaction_of (http_ready r e) = some r.transaction
transaction_of _ = none

pub data Step (c c' : Phase) : Type 0 where
  enable : c ≡ absent → c' ≡ ready → Step c c'
  interrupt : c ≡ absent → c' ≡ lost → Step c c'
  rotate :
      (r : Restore)
      → c ≢ lost
      → transaction_of c ≢ some r.transaction
      → c' ≡ restoring r no_evidence
      → Step c c'
  finish : (r : Restore) (e : Evidence) → c ≡ restoring r e → c' ≡ validating r e → Step c c'
  prepare :
      (r : Restore) (e : Evidence) (digest : String)
      → c ≡ validating r e
      → e.preparation ≡ ""
      → hex64 digest ≡ true
      → c' ≡ validating r (record e { preparation = digest })
      → Step c c'
  quarantine :
      (r : Restore) (e : Evidence) (digest : String)
      → c ≡ validating r e
      → e.redis ≡ ""
      → hex64 digest ≡ true
      → c' ≡ validating r (record e { redis = digest })
      → Step c c'
  expose :
      (r : Restore) (e : Evidence)
      → c ≡ validating r e
      → e.redis ≢ ""
      → e.preparation ≢ ""
      → c' ≡ http_ready r e
      → Step c c'

pub data Reach (c : Phase) : Phase → Type 0 where
  here : Reach c c
  next : {d e : Phase} → Reach c d → Step d e → Reach c e

-- At most one move.
abbrev pub Moves : Phase → Phase → Type 0
Moves c c' = (c' ≡ c) ⊎ Step c c'

pub Reach-Moves : {b c d : Phase} → Reach b c → Moves c d → Reach b d
Reach-Moves {b} r (inl e) = subst (Reach b) (sym e) r
Reach-Moves r (inr s) = next r s

-- What holds in every phase that can be reached from a host with no authority.
abbrev pub IsSound : Phase → Type 0
IsSound (restoring r e) = e ≡ no_evidence
IsSound (http_ready r e) = (e.redis ≢ "") × (e.preparation ≢ "")
IsSound _ = Unit

pub Step-IsSound : {c d : Phase} → Step c d → IsSound c → IsSound d
Step-IsSound (enable p q) h = rw q tt
Step-IsSound (interrupt p q) h = rw q tt
Step-IsSound (rotate r a b q) h = rw q refl
Step-IsSound (finish r e p q) h = rw q tt
Step-IsSound (prepare r e digest p a b q) h = rw q tt
Step-IsSound (quarantine r e digest p a b q) h = rw q tt
Step-IsSound (expose r e p a b q) h = rw q (a, b)

pub Reach-IsSound : {c : Phase} → Reach absent c → IsSound c
Reach-IsSound here = tt
Reach-IsSound (next r s) = Step-IsSound s (Reach-IsSound r)

-- Once a restore has begun the host is never ready again.
abbrev pub HasBegun : Phase → Type 0
HasBegun (restoring r e) = Unit
HasBegun (validating r e) = Unit
HasBegun (http_ready r e) = Unit
HasBegun _ = ⊥

pub Step-HasBegun : {c d : Phase} → Step c d → HasBegun c → HasBegun d
Step-HasBegun (enable p q) h = absurd (subst HasBegun p h)
Step-HasBegun (interrupt p q) h = absurd (subst HasBegun p h)
Step-HasBegun (rotate r a b q) h = rw q tt
Step-HasBegun (finish r e p q) h = rw q tt
Step-HasBegun (prepare r e digest p a b q) h = rw q tt
Step-HasBegun (quarantine r e digest p a b q) h = rw q tt
Step-HasBegun (expose r e p a b q) h = rw q tt

pub Reach-HasBegun : {c d : Phase} → Reach c d → HasBegun c → HasBegun d
Reach-HasBegun here h = h
Reach-HasBegun (next r s) h = Step-HasBegun s (Reach-HasBegun r h)
