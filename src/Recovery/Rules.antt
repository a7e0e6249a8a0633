-- ===== src/Recovery/Rules.antt =====
-- Rules for the steps of `restoreValidated` of internal/recovery/store.go: `I` holds on every path.
use geoflow_updater.Prelude.{String, Bool, true, false, Error, none, some}
use geoflow_updater.Prelude.Result.{Result, ok, err}
use geoflow_updater.Prelude.Action.{check, ◌>>=◌, Leaves, Leaves-proceed}
use geoflow_updater.Recovery.Restore.{Failed, Host, Restoring, step_result, named_error, named}

module _ {A : Type 0} where
  pub record From (I : Host A → Type 0) {B : Type 0} (P : Host A → Type 0) (Q : B → Host A → Type 0)
      (m : Restoring A B) : Type 0 where
    pub at : (h : Host A) → I h → P h → Leaves I Q (m h)

  pub seq :
      {I : Host A → Type 0} {B C : Type 0} {P : Host A → Type 0} {Q : B → Host A → Type 0}
      {R : C → Host A → Type 0} {m : Restoring A B} {f : B → Restoring A C}
      → From I P Q m
      → ((b : B) → From I (Q b) R (f b))
      → From I P R (m >>= f)
  seq {I} {Q} {R} {m} {f} h k = record {
    at = λ s g p. Leaves-proceed I Q R (m s) f (h.at s g p) (λ b t q. (k b).at t q.0 q.1);
  }

  named_ends :
      (I : Host A → Type 0) {B : Type 0} (Q : B → Host A → Type 0) (name : String)
      (o : Host A × Result Failed B)
      → Leaves I Q o
      → Leaves I Q (named_error name o)
  named_ends I Q name (h, ok b) l = l
  named_ends I Q name (h, err e) l = l

  pub naming :
      {I : Host A → Type 0} {B : Type 0} {P : Host A → Type 0} {Q : B → Host A → Type 0}
      (name : String) {m : Restoring A B}
      → From I P Q m
      → From I P Q (named name m)
  naming {I} {Q} name {m} k = record { at = λ s g p. named_ends I Q name (m s) (k.at s g p) }

  pub step_ends :
      (I Q : Host A → Type 0) (e : Error) (h : Host A)
      → I h
      → Q h
      → Leaves I (λ (u : Unit {0}) t. Q t) (h, step_result e)
  step_ends I Q none h g q = (g, q)
  step_ends I Q (some e) h g q = g

  pub check_rule :
      {I : Host A → Type 0} (P : Host A → Type 0) (b : Bool) (e : Failed)
      → From I P (λ (u : Unit {0}). P) (check b e)
  check_rule P true e = record { at = λ h g p. (g, p) }
  check_rule P false e = record { at = λ h g p. g }
