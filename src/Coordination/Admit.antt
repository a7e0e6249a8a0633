-- ===== src/Coordination/Admit.antt =====
-- What `Accept` of internal/coordination/store.go promises of the order, on success and on error.
use geoflow_updater.Prelude.{
  ℕ, ◌+◌, ◌<◌, ◌≡◌, refl, sym, subst, ◌∙◌, inl, inr, ◌⊎◌, String, Bool, true, false, ◌&&◌,
  Bool-cases, Option-cases, Option, none, List, [], ◌∷◌, ◌++◌, All, any, arith, ◌==◌, str_eq,
  if◌then◌else◌,
}
use geoflow_updater.Prelude.Result.{Result, ok, err, >>=-eq-ok, ok-injective}
use geoflow_updater.Coordination.Records.{Admission, valid_admission, Head}
use geoflow_updater.Coordination.Files.{
  Failure, not_exist, Store, WriteEnd, clean, early, late, write_result, find, create,
}
use geoflow_updater.Coordination.Store.{
  seen_operation, seen_sequence, admissions, head, start_head, advance, head_of, latest,
  next_sequence, last_counter, counter, later,
}
use geoflow_updater.Coordination.Head.{numbered, accept, accept_next, accept_numbered}
use geoflow_updater.Coordination.Order.{
  IsBelow, tip, latest_of_admissions, next_sequence-tip, advance_max, advance-append,
}
use geoflow_updater.Coordination.Accept.{with_admission, admissions-create}

-- A write that is known to have succeeded created the file.
accept_numbered-eq-ok :
    (end : WriteEnd) (a : Admission) (s s' : Store)
    → accept_numbered end a s ≡ (s', ok tt)
    → (end ≡ clean)
      × (valid_admission a ≡ true)
      × (find a.client_request_id s.admissions.files ≡ none)
      × (s' ≡ with_admission a.client_request_id a s)
unfolding accept_numbered create
accept_numbered-eq-ok clean a s s' h = ground arith
accept_numbered-eq-ok (early e) a s s' h = absurd (ground arith)
accept_numbered-eq-ok (late e) a s s' h = absurd (ground arith)

accept_next-eq-ok :
    (end : WriteEnd) (a : Admission) (s s' : Store) (r : Result Failure ℕ)
    → accept_next end a s r ≡ (s', ok tt)
    → (n : ℕ) × (r ≡ ok n) × (accept_numbered end (numbered a n) s ≡ (s', ok tt))
accept_next-eq-ok end a s s' (ok n) h = (n, refl, h)
accept_next-eq-ok end a s s' (err e) h = absurd (ground arith)

below_fresh :
    (n m : ℕ) (records : List Admission)
    → n < m
    → IsBelow n records
    → seen_sequence m records ≡ false
below_fresh n m [] lt b = refl
below_fresh n m (a ∷ records) lt b = ground (arith, below_fresh n m records lt b.1)

any-append {ℓ} :
    {A : Type ℓ} (p : A → Bool) (xs ys : List A) → any p xs ≡ true → any p (xs ++ ys) ≡ true
any-append p [] ys h = cc
any-append p (x ∷ xs) ys h = ground (arith, any-append p xs ys)

start_head-append :
    (r : Result Failure Head) (xs ys : List Admission) (start : Head)
    → start_head r xs ≡ ok start
    → start_head r (xs ++ ys) ≡ ok start
unfolding start_head
start_head-append (err not_exist) xs ys start h = h
start_head-append (err _) xs ys start h = h
start_head-append (ok h) xs ys start e = ground (
  arith,
  any-append (λ (a : Admission). str_eq a.operation_id h.operation_id && a.sequence == h.sequence)
      xs ys,
)

advance_one :
    (f : Head) (a : Admission)
    → f.sequence < a.sequence
    → advance "primary" f (a ∷ []) ≡ ok (head_of "primary" a)
unfolding advance
advance_one f a lt = ground arith

-- One more admission, numbered above the tip, is the new tip.
tip-append :
    (s s' : Store) (records : List Admission) (f : Head) (a : Admission)
    → head s' "primary" ≡ head s "primary"
    → tip s records ≡ ok f
    → f.sequence < a.sequence
    → tip s' (records ++ a ∷ []) ≡ ok (head_of "primary" a)
tip-append s s' records f a same t lt =
    let (start, b, c) = >>=-eq-ok (start_head (head s "primary") records) _ t in
    rw (same, start_head-append (head s "primary") records (a ∷ []) start b)
      (rw (advance-append "primary" start records (a ∷ []), c) (advance_one f a lt))

tip-IsBelow :
    (s : Store) (records : List Admission) (f : Head)
    → tip s records ≡ ok f
    → IsBelow f.sequence records
tip-IsBelow s records f t =
    let (start, b, c) = >>=-eq-ok (start_head (head s "primary") records) _ t in
    (advance_max "primary" start records f c).1

with_admission-head :
    (name : String) (a : Admission) (s : Store)
    → head (with_admission name a s) "primary" ≡ head s "primary"
unfolding head
with_admission-head name a s = refl

-- Everything that an accepted request leaves behind: its record, last in the store's order.
pub record IsAdmitted (s s' : Store) (records : List Admission) (a : Admission) (n : ℕ)
    : Type 0 where
  pub stored : admissions s' "primary" ≡ ok (records ++ numbered a n ∷ [])
  pub above : All (λ r. r.sequence < n) records
  pub newest : latest s' "primary" ≡ ok (head_of "primary" (numbered a n))
  pub was_new : find a.client_request_id s.admissions.files ≡ none

strictly_below :
    (n : ℕ) (records : List Admission) → IsBelow n records → All (λ r. r.sequence < n + 1) records
strictly_below n [] h = tt
strictly_below n (a ∷ records) h = (omega arith, strictly_below n records h.1)

latest_admitted :
    (s' : Store) (records : List Admission) (h : Head)
    → admissions s' "primary" ≡ ok records
    → tip s' records ≡ ok h
    → 0 < h.sequence
    → latest s' "primary" ≡ ok h
latest_admitted s' records h e t pos = latest_of_admissions s' records e ∙ rw t (ground arith)

-- An admission that `Accept` reports as accepted had no earlier record; it is stored with a number
-- above those of all other admissions, and `Latest` now finds it. The instance is `primary`, the store
-- could be read before, and no admission in it has the operation's identity.
pub accept_admits :
    (end : WriteEnd) (a : Admission) (s s' : Store) (records : List Admission)
    → a.instance_id ≡ "primary"
    → admissions s "primary" ≡ ok records
    → seen_operation a.operation_id records ≡ false
    → accept end a s ≡ (s', ok tt)
    → (n : ℕ) × IsAdmitted s s' records a n
unfolding accept
accept_admits end a s s' records primary e fresh h =
    let (n, next, w) = accept_next-eq-ok end a s s' _ h in
    let (_, valid, missing, p) = accept_numbered-eq-ok end (numbered a n) s s' w in
    let (f, t, q) =
      next_sequence-tip s records n e (subst (λ id. next_sequence s id ≡ ok n) primary next) in
    let lt : f.sequence < n = omega arith in
    let below = tip-IsBelow s records f t in
    let s'' = with_admission a.client_request_id (numbered a n) s in
    let stored : admissions s'' "primary" ≡ ok (records ++ numbered a n ∷ []) =
      admissions-create s (numbered a n) records e missing valid
        (fresh, below_fresh f.sequence n records lt below) in
    let top : tip s'' (records ++ numbered a n ∷ []) ≡ ok (head_of "primary" (numbered a n)) =
      tip-append s s'' records f (numbered a n) (with_admission-head _ _ s) t lt in
    (
      n,
      record {
        stored = rw p stored;
        above =
            subst (λ m. All (λ r. r.sequence < m) records) (sym q)
              (strictly_below f.sequence records below);
        newest = rw p (latest_admitted s'' _ _ stored top (omega arith));
        was_new = missing;
      },
    )

-- Before it is known which write it was: nothing was changed and there is an error, or the admission
-- is written as by a write that went well, which is only reported where it did.
accept_next_ends :
    (end : WriteEnd) (a : Admission) (s : Store) (r : Result Failure ℕ)
    → (((accept_next end a s r).0 ≡ s) × ((e : Failure) × ((accept_next end a s r).1 ≡ err e)))
      ⊎ ((accept_next clean a s r ≡ ((accept_next end a s r).0, ok tt))
          × ((accept_next end a s r).1 ≡ write_result end))
unfolding accept_numbered create
accept_next_ends end a s (err e) = inl (refl, (e, refl))
accept_next_ends (early x) a s (ok n) = elim (Bool-cases (valid_admission (numbered a n))) [
  | inl v ↦ rw v (inl (refl, (_, refl)))
  | inr v ↦ rw v (inl (refl, (_, refl)))
]
accept_next_ends clean a s (ok n) = elim (Bool-cases (valid_admission (numbered a n))) [
  | inl v ↦ rw v (elim (Option-cases (find a.client_request_id s.admissions.files)) [
    | inl e ↦ rw (e, create) (inr (refl, refl))
    | inr (old, e) ↦ rw (e, create) (inl (refl, (_, refl)))
  ])
  | inr v ↦ rw v (inl (refl, (_, refl)))
]
accept_next_ends (late x) a s (ok n) = elim (Bool-cases (valid_admission (numbered a n))) [
  | inl v ↦ rw v (elim (Option-cases (find a.client_request_id s.admissions.files)) [
    | inl e ↦ rw (e, create) (inr (refl, refl))
    | inr (old, e) ↦ rw (e, create) (inl (refl, (_, refl)))
  ])
  | inr v ↦ rw v (inl (refl, (_, refl)))
]

-- How an acceptance can end: with an error and the store as it was; or with the admission stored,
-- under a number above all others and as a new file, and with the result of the write.
pub data IsSettled (end : WriteEnd) (s : Store) (records : List Admission) (a : Admission)
    (o : Store × Result Failure (Unit {0})) : Type 0 where
  unchanged : o.0 ≡ s → (e : Failure) → o.1 ≡ err e → IsSettled end s records a o
  entered :
      (n : ℕ) → IsAdmitted s o.0 records a n → o.1 ≡ write_result end → IsSettled end s records a o

-- Whatever the write of `Accept` comes to, and whatever it reports, the store is as it was and there
-- is an error, or the admission is stored as a new file with a number above those of all others and
-- is the latest operation, and the result is that of the write, an error where it is not known to have
-- reached the disk. The instance is `primary`, the store could be read before, and no admission in it
-- has the operation's identity.
pub accept-IsSettled :
    (end : WriteEnd) (a : Admission) (s : Store) (records : List Admission)
    → a.instance_id ≡ "primary"
    → admissions s "primary" ≡ ok records
    → seen_operation a.operation_id records ≡ false
    → IsSettled end s records a (accept end a s)
unfolding accept
accept-IsSettled end a s records primary e fresh =
    elim (accept_next_ends end a s (next_sequence s a.instance_id)) [
      | inl (same, (x, failed)) ↦ unchanged same x failed
      | inr (written, result) ↦
          let (n, admitted) =
            accept_admits clean a s (accept end a s).0 records primary e fresh written in
          entered n admitted result
    ]

last_counter-append :
    (scope : String) (last : Option ℕ) (xs : List Admission) (a : Admission)
    → last_counter scope last (xs ++ a ∷ []) ≡ (
        if str_eq a.scope scope
        then later (last_counter scope last xs) a.counter
        else last_counter scope last xs)
unfolding last_counter
last_counter-append scope last [] a = refl
last_counter-append scope last (x ∷ xs) a =
    last_counter-append scope (if str_eq x.scope scope then later last x.counter else last) xs a

-- After an acceptance the counter of the admission's scope is the greater of the old one and the
-- accepted one, and the counters of the other scopes are what they were. The instance is `primary`,
-- the store could be read before, and no admission in it has the operation's identity.
pub counter-accept :
    (end : WriteEnd) (a : Admission) (s s' : Store) (records : List Admission) (scope : String)
    (last : Option ℕ)
    → a.instance_id ≡ "primary"
    → admissions s "primary" ≡ ok records
    → seen_operation a.operation_id records ≡ false
    → accept end a s ≡ (s', ok tt)
    → counter s "primary" scope ≡ ok last
    → counter s' "primary" scope ≡ ok (if str_eq a.scope scope then later last a.counter else last)
unfolding counter
counter-accept end a s s' records scope last primary e fresh h c =
    let (n, admitted) = accept_admits end a s s' records primary e fresh h in
    let was : last_counter scope none records ≡ last = ok-injective (rw e at c) in
    rw (admitted.stored, last_counter-append scope none records (numbered a n), was)
