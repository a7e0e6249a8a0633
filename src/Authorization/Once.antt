-- ===== src/Authorization/Once.antt =====
-- A code authorizes one admission: `AuthorizeAdmission` of internal/authorization/service.go with
-- `Accept` of internal/coordination/store.go behind it.
use geoflow_updater.Prelude.{
  ℕ, ◌≤◌, ◌<◌, ◌≡◌, ◌≢◌, ◌⊎◌, refl, sym, ap, ◌∙◌, inl, inr, String, Bool, true, false, Bool-cases,
  Option, none, some, List, ltb, eq_refl, if◌then◌else◌, arith,
}
use geoflow_updater.Prelude.Result.{Result, ok, ok-injective}
use geoflow_updater.Coordination.Records.{Admission}
use geoflow_updater.Coordination.Files.{Store, WriteEnd}
use geoflow_updater.Coordination.Store.{counter, later, last_counter, admissions, seen_operation}
use geoflow_updater.Coordination.Head.{accept}
use geoflow_updater.Coordination.Admit.{counter-accept}
use geoflow_updater.Authorization.Attempts.{Refusal}
use geoflow_updater.Authorization.Codes.{Crypto}
use geoflow_updater.Authorization.World.{World, Ends, Outcome}
use geoflow_updater.Authorization.Service.{Callback, replayed, authorize}
use geoflow_updater.Authorization.Entitled.{IsNew, IsEntitled}
use geoflow_updater.Authorization.Runs.{WasFound, Fate, authorize-Fate}

-- The store binds the counter of a scope: none up to it authorizes again.
abbrev pub Binds : String → String → ℕ → Store → Type 0
Binds id scope c s = (last : ℕ) × (counter s id scope ≡ ok (some last)) × (c ≤ last)

later-some : (last : Option ℕ) (c : ℕ) → (m : ℕ) × (later last c ≡ some m) × (c ≤ m)
later-some none c = (c, refl, omega arith)
later-some (some l) c = elim (Bool-cases (ltb l c)) [
  | inl y ↦ (c, rw y refl, omega arith)
  | inr n ↦ (l, rw n refl, ground arith)
]

-- An acceptance binds the counter of its admission, for the scope of the admission. The store could be
-- read before, and the operation's identity is new.
pub accept-Binds :
    (end : WriteEnd) (a : Admission) (s s' : Store) (records : List Admission)
    → a.instance_id ≡ "primary"
    → admissions s "primary" ≡ ok records
    → seen_operation a.operation_id records ≡ false
    → accept end a s ≡ (s', ok tt)
    → Binds "primary" a.scope a.counter s'
unfolding counter
accept-Binds end a s s' records primary e fresh h =
    let last = last_counter a.scope none records in
    let before : counter s "primary" a.scope ≡ ok last = rw (counter, e) refl in
    let after = counter-accept end a s s' records a.scope last primary e fresh h before in
    let (m, p, le) = later-some last a.counter in
    (
      m,
      after ∙ ap ok (ap (λ b. if b then later last a.counter else last) (eq_refl a.scope) ∙ p),
      le,
    )

-- What a success shows.
Fate-ok :
    ⦃crypto : Crypto⦄ (w w' : World) (existing : Option (Result Refusal Bool))
    (id scope code : String) (now : ℕ) (callback : Callback) (o : Outcome)
    → WasFound w existing o ⊎ Fate w id scope code now callback o
    → existing ≢ some (ok true)
    → o ≡ (w', ok tt)
    → (c : ℕ) × IsEntitled w id scope code now c
      × ((callback c w.store).0 ≡ w'.store)
      × ((callback c w.store).1 ≡ ok tt)
Fate-ok w w' existing id scope code now callback o (inl (f, _)) ne h = absurd (ne f)
Fate-ok w w' existing id scope code now callback o (inr (inl (_, n))) ne h =
    absurd (n (ap (λ x. x.1) h))
Fate-ok w w' existing id scope code now callback o (inr (inr (c, e, (p, q)))) ne h =
    (c, e, sym p ∙ ap (λ x. x.0.store) h, q (ap (λ x. x.1) h))

above_bound : (last c c' : ℕ) → c ≤ last → replayed (some last) c' ≡ false → c < c'
above_bound last c c' h n = ground arith

IsNew-above :
    (w : World) (id scope : String) (c c' : ℕ)
    → Binds id scope c w.store
    → IsNew w id scope c'
    → c < c'
IsNew-above w id scope c c' (last, p, h) (_, admitted, _, a, _, n) =
    let q : admitted ≡ some last = ok-injective (sym a ∙ p) in
    above_bound last c c' h (ap (λ x. replayed x c') (sym q) ∙ n)

pair_eq :
    (x : Store × Result Refusal (Unit {0})) (s : Store) → x.0 ≡ s → x.1 ≡ ok tt → x ≡ (s, ok tt)
pair_eq (a, b) s p q = λ i. (p i, q i)

-- The callback of the first authorization succeeds only where the store then binds its counter, as
-- `AuthorizeAdmission` asks of it. Two authorizations of one scope succeed, neither by finding an
-- earlier admission, and from the first to the second the store still binds what it bound, while the
-- service's own files may change in any way. Then each code was that of a counter of its time, and
-- the second counter is above the first: no code up to the first counter authorizes again.
pub authorize_once :
    ⦃crypto : Crypto⦄ (id scope : String) (ends ends' : Ends) (admission admission' : Bool)
    (opened opened' : Result Refusal (Unit {0})) (existing existing' : Option (Result Refusal Bool))
    (code code' : String) (now now' : ℕ) (callback callback' : Callback) (w w₁ w' w₂ : World)
    → ((c : ℕ) (s s' : Store) → callback c s ≡ (s', ok tt) → Binds id scope c s')
    → ((c : ℕ) → Binds id scope c w₁.store → Binds id scope c w'.store)
    → existing ≢ some (ok true)
    → existing' ≢ some (ok true)
    → authorize ends admission opened existing id scope code now callback w ≡ (w₁, ok tt)
    → authorize ends' admission' opened' existing' id scope code' now' callback' w' ≡ (w₂, ok tt)
    → (c : ℕ) × (c' : ℕ) × IsEntitled w id scope code now c
      × IsEntitled w' id scope code' now' c'
      × (c < c')
authorize_once id scope ends ends' admission admission' opened opened' existing existing' code code'
      now now' callback callback' w w₁ w' w₂ binds keeps ne ne' h h' =
    let (c, entitled, s, r) =
      Fate-ok w w₁ existing id scope code now callback _
        (authorize-Fate ends admission opened existing id scope code now callback w) ne h in
    let (c', entitled', _, _) =
      Fate-ok w' w₂ existing' id scope code' now' callback' _
        (authorize-Fate ends' admission' opened' existing' id scope code' now' callback' w') ne'
        h' in
    let bound = keeps c (binds c w.store w₁.store (pair_eq (callback c w.store) w₁.store s r)) in
    (c, c', entitled, entitled', IsNew-above w' id scope c c' bound entitled'.fresh)

-- An admission was accepted, into a store that could be read and under a new operation's identity, and
-- from then on the store binds what it bound; the service's own files may be any. Then an authorization
-- of its scope that succeeds, and not by finding an earlier admission, has a code of a counter above
-- the accepted one: no code up to it authorizes again.
pub authorize_after-accept :
    ⦃crypto : Crypto⦄ (end : WriteEnd) (a : Admission) (s s' : Store) (records : List Admission)
    (ends : Ends) (admission : Bool) (opened : Result Refusal (Unit {0}))
    (existing : Option (Result Refusal Bool)) (code : String) (now : ℕ) (callback : Callback)
    (w w' : World)
    → a.instance_id ≡ "primary"
    → admissions s "primary" ≡ ok records
    → seen_operation a.operation_id records ≡ false
    → accept end a s ≡ (s', ok tt)
    → (Binds "primary" a.scope a.counter s' → Binds "primary" a.scope a.counter w.store)
    → existing ≢ some (ok true)
    → authorize ends admission opened existing "primary" a.scope code now callback w ≡ (w', ok tt)
    → (c : ℕ) × IsEntitled w "primary" a.scope code now c × (a.counter < c)
authorize_after-accept end a s s' records ends admission opened existing code now callback w w'
      primary readable fresh accepted keeps ne h =
    let (c, entitled, _, _) =
      Fate-ok w w' existing "primary" a.scope code now callback _
        (authorize-Fate ends admission opened existing "primary" a.scope code now callback w) ne
        h in
    let bound = keeps (accept-Binds end a s s' records primary readable fresh accepted) in
    (c, entitled, IsNew-above w "primary" a.scope a.counter c bound entitled.fresh)
