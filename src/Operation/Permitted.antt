-- ===== src/Operation/Permitted.antt =====
-- What a request that is accepted by internal/operation/coordination.go was checked for.
use geoflow_updater.Prelude.{
  ℕ, ◌≡◌, refl, subst, String, Bool, true, false, ltb, str_eq, eq_iff, List, if◌then◌else◌, arith,
}
use geoflow_updater.Prelude.Result.{Result, ok, err, >>=-eq-ok, require-eq-ok}
use geoflow_updater.Coordination.Records.{RawMessage, Actor, Plan, SubmitRequest, Admission}
use geoflow_updater.Coordination.Files.{Failure, Store, WriteEnd}
use geoflow_updater.Coordination.Store.{admissions, seen_operation}
use geoflow_updater.Coordination.Head.{plan, accept, Change}
use geoflow_updater.Coordination.Admit.{IsAdmitted, accept_admits}
use geoflow_updater.Operation.Admission.{
  Refusal, Visit, same_actor, found_plan, matches_request, is_confirmed, check_plan, admission_of,
  recorded, is_current, accept_request, IsPermitted,
}

found_plan-eq-ok : (r : Result Failure Plan) {p : Plan} → found_plan r ≡ ok p → r ≡ ok p
found_plan-eq-ok (ok p) e = ground arith
found_plan-eq-ok (err f) e = absurd (ground arith)

same_actor-eq : (a b : Actor) → same_actor a b ≡ true → a ≡ b
same_actor-eq a b p = ground (
  arith,
  eq_iff a.management_instance_id b.management_instance_id,
  eq_iff a.identity_sha256 b.identity_sha256,
)

recorded-eq-ok : (c : Change) {s : Store} → recorded c ≡ (s, ok tt) → c ≡ (s, ok tt)
recorded-eq-ok (s, ok nothing) e = ground arith
recorded-eq-ok (s, err f) e = absurd (ground arith)

accepted_parts :
    (b : Bool) (c : Change) (s : Store) (e : Refusal) {s' : Store}
    → (if b then recorded c else (s, err e)) ≡ (s', ok tt)
    → (b ≡ true) × (c ≡ (s', ok tt))
accepted_parts true c s e h = (refl, recorded-eq-ok c h)
accepted_parts false c s e h = absurd (ground arith)

module _ (digest : Plan → String) (s : Store) (id : String) (r : SubmitRequest) (v : Visit) where
  -- What a successful check says, with the counter still to be checked.
  check_plan-IsPermitted :
      (p : Plan) (counter : ℕ)
      → check_plan digest s id r v ≡ ok p
      → is_current counter v.counter_now ≡ true
      → IsPermitted digest s id r v p counter
  unfolding check_plan
  check_plan-IsPermitted p counter h c =
      let (q, found, h) = >>=-eq-ok (found_plan (plan digest s id r.plan_id)) _ h in
      let (matching, h) = require-eq-ok (matches_request q r v.first_now) _ _ h in
      let (confirmed, h) = require-eq-ok (is_confirmed q r) _ _ h in
      let (epoch, read, h) = >>=-eq-ok v.epoch _ h in
      let (same_epoch, h) = require-eq-ok (str_eq epoch r.expected_epoch) _ _ h in
      let (planner, h) = require-eq-ok v.planner _ _ h in
      let (current, seen, h) = >>=-eq-ok (v.baseline q.action q.recovery_point_id) _ h in
      let (unchanged, h) = require-eq-ok (str_eq current q.baseline_sha256) _ _ h in
      let (stored, decoded, h) = >>=-eq-ok (v.stored_baseline q.snapshot) _ h in
      let (same, h) = require-eq-ok (str_eq stored current) _ _ h in
      let (in_time, h) = require-eq-ok (ltb v.second_now q.expires_at) _ _ h in
      let e : q ≡ p = ground arith in
      subst (λ p. IsPermitted digest s id r v p counter) e
        (record {
          stored = found_plan-eq-ok _ found;
          same_plan = (eq_iff q.plan_sha256 r.plan_sha256).0 (ground arith);
          same_action = (eq_iff q.action r.action).0 (ground arith);
          own = same_actor-eq q.actor r.actor (ground arith);
          in_time = ground arith;
          in_epoch =
              rw
                (
                  read,
                  (eq_iff epoch r.expected_epoch).0 same_epoch,
                  (eq_iff q.expected_epoch r.expected_epoch).0 (ground arith),
                )
                refl;
          confirmed = λ m. ground arith;
          host_confirmed = λ m. ground (arith, eq_iff q.continuation "host_only");
          unchanged = rw (seen, (eq_iff current q.baseline_sha256).0 unchanged) refl;
          same_snapshot =
              rw
                (
                  decoded,
                  (eq_iff stored current).0 same,
                  (eq_iff current q.baseline_sha256).0 unchanged,
                )
                refl;
          not_early = ground arith;
          not_late = ground arith;
        })

-- A request whose plan passed the check, and whose admission was recorded, was permitted, and its
-- admission is the newest of the store, under a number above all others. The store could be read
-- before, and no admission in it has the operation's identity.
pub accept_request-IsPermitted :
    (digest : Plan → String) (end : WriteEnd) (s s' : Store) (r : SubmitRequest) (v : Visit)
    (p : Plan) (operation_id business : String) (contents : RawMessage) (counter : ℕ)
    (records : List Admission)
    → check_plan digest s "primary" r v ≡ ok p
    → admissions s "primary" ≡ ok records
    → seen_operation operation_id records ≡ false
    → accept_request end
        (admission_of "primary" p r operation_id contents business counter v)
        v.counter_now
        s
      ≡ (s', ok tt)
    → IsPermitted digest s "primary" r v p counter
      × ((n : ℕ) × IsAdmitted s s' records
            (admission_of "primary" p r operation_id contents business counter v)
            n)
unfolding accept_request
accept_request-IsPermitted digest end s s' r v p operation_id business contents counter records h
      readable fresh accepted =
    let a = admission_of "primary" p r operation_id contents business counter v in
    let (current, stored) =
      accepted_parts (is_current counter v.counter_now) (accept end a s) s _ accepted in
    (
      check_plan-IsPermitted digest s "primary" r v p counter h current,
      accept_admits end a s s' records refl readable fresh stored,
    )
