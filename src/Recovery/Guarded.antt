-- ===== src/Recovery/Guarded.antt =====
-- When `restoreValidated` of internal/recovery/store.go changes the host, and what its success means.
use geoflow_updater.Prelude.{
  ◌≡◌, refl, sym, ap, subst, String, Bool, true, false, List, [], ◌∷◌, if◌then◌else◌, arith,
}
use geoflow_updater.Prelude.Result.{Result, ok, err}
use geoflow_updater.Prelude.Action.{done, Leaves, Leaves-state, Leaves-ok}
use geoflow_updater.RecoveryControl.Records.{Failure, Authority}
use geoflow_updater.RecoveryControl.Disk as RecoveryControl
use geoflow_updater.RecoveryControl.Commits.{Whatever, IsCommitted}
use geoflow_updater.Recovery.Swap.{Run, restore_staged}
use geoflow_updater.Recovery.Intact.{Finished}
use geoflow_updater.Recovery.Attempts.{Attempted, start, restore_staged-restored}
use geoflow_updater.Recovery.Restore.{
  RestoreRequest, RestoreStep, make_storage_stage, stage_storage, make_redis_stage, stage_redis,
  check_storage, check_redis, preserve, replace_file, open_dump, restore_database, close_dump,
  swap_storage, swap_redis, Host, Answers, Contents, noted, controlled_by, after_storage,
  after_redis, act, boundary_begun, marked, storage_swapped, redis_swapped, replaced, restore_data,
  stage_archives, restore_validated,
}
use geoflow_updater.Recovery.Begun.{IsFor, begin-IsFor, IsRestored, restored-IsRestored}
use geoflow_updater.Recovery.Boundary.{
  is_change, steps, prepared, with_files, performed, IsBegun, Guarded, IsComplete, earlier, now,
}
use geoflow_updater.Recovery.Rules.{From, seq, naming, step_ends, check_rule}

module _ {A : Type 0} (w : Answers A) (contents : Contents A) (instance : String)
    (request : RestoreRequest) (storage redis : A) (before : Host A)
    (storage_ready : Attempted storage contents.storage_tree before.storage)
    (redis_ready : Attempted redis contents.redis_tree before.redis) where
  abbrev G : Host A → Type 0
  G = Guarded instance request

  abbrev Begun : Host A → Type 0
  Begun h = IsBegun instance request h.controlled

  abbrev Requested : Authority → RecoveryControl.Disk → Type 0
  Requested a d =
      IsFor request.point_id request.transaction_id request.admin_digest a
      × IsCommitted instance a d

  abbrev Marked : Authority → RecoveryControl.Disk → Type 0
  Marked a d = IsRestored request.transaction_id a × IsCommitted instance a d

  abbrev Same : Host A → Type 0
  Same h = (h.storage ≡ before.storage) × (h.redis ≡ before.redis)

  abbrev At : List RestoreStep → Host A → Type 0
  At l h = (steps h.past ≡ l) × Same h

  abbrev Open : List RestoreStep → Host A → Type 0
  Open l h = At l h × Begun h

  abbrev Half : List RestoreStep → Host A → Type 0
  Half l h =
      (steps h.past ≡ l)
      × (h.redis ≡ before.redis)
      × Finished storage contents.storage_tree h.storage
      × Begun h

  abbrev Full : List RestoreStep → Host A → Type 0
  Full l h =
      (steps h.past ≡ l)
      × Finished storage contents.storage_tree h.storage
      × Finished redis contents.redis_tree h.redis

  abbrev Complete : List String → Host A → Type 0
  Complete = IsComplete contents instance request storage redis before

  quiet_act :
      (l : List RestoreStep) (s : RestoreStep)
      → is_change s ≡ false
      → From G (At l) (λ (u : Unit {0}). At (s ∷ l)) (act w contents instance request s)
  quiet_act l s q = record {
    at = λ h g p.
        step_ends G (At (s ∷ l)) (w.answer h s) (noted s h) ((λ c. absurd (ground arith)), g)
          (ap (λ x. s ∷ x) p.0, p.1);
  }

  change_act :
      (l : List RestoreStep) (s : RestoreStep)
      → From G (Open l) (λ (u : Unit {0}). Open (s ∷ l)) (act w contents instance request s)
  change_act l s = record {
    at = λ h g p.
        step_ends G (Open (s ∷ l)) (w.answer h s) (noted s h) ((λ c. p.1), g)
          ((ap (λ x. s ∷ x) p.0.0, p.0.1), p.1);
  }

  replaced-Open :
      (files : List String) (l : List RestoreStep)
      → From G
          (Open l)
          (λ (u : Unit {0}). Open (with_files files l))
          (replaced w contents instance request files)
  unfolding replaced
  replaced-Open [] l = record { at = λ h g p. (g, p) }
  replaced-Open (f ∷ files) l =
      seq (naming _ (change_act l (replace_file f))) (λ u. replaced-Open files (replace_file f ∷ l))

  storage_ends :
      (l : List RestoreStep) (h : Host A) (o : Run A × Result String (Unit {0}))
      → G h
      → Open l h
      → (o.1 ≡ ok tt → Finished storage contents.storage_tree o.0.disk)
      → Leaves G
          (λ (u : Unit {0}). Half (swap_storage ∷ l))
          (after_storage (noted swap_storage h) o)
  storage_ends l h (s, ok nothing) g p f =
      (((λ c. p.1), g), (ap (λ x. swap_storage ∷ x) p.0.0, p.0.1.1, f refl, p.1))
  storage_ends l h (s, err e) g p f = ((λ c. p.1), g)

  storage_rule :
      (l : List RestoreStep)
      → From G
          (Open l)
          (λ (u : Unit {0}). Half (swap_storage ∷ l))
          (storage_swapped w contents instance request)
  storage_rule l = record {
    at = λ h g p.
        storage_ends l h
          (restore_staged ⦃calls = w.storage_calls h⦄ (start contents.storage_tree h.storage)) g p
          (restore_staged-restored storage contents.storage_tree (w.storage_calls h) h.storage
            (subst (Attempted storage contents.storage_tree) (sym p.0.1.0) storage_ready));
  }

  redis_ends :
      (l : List RestoreStep) (h : Host A) (o : Run A × Result String (Unit {0}))
      → G h
      → Half l h
      → (o.1 ≡ ok tt → Finished redis contents.redis_tree o.0.disk)
      → Leaves G (λ (u : Unit {0}). Full (swap_redis ∷ l)) (after_redis (noted swap_redis h) o)
  redis_ends l h (s, ok nothing) g (e, r, f, b) k =
      (((λ c. b), g), (ap (λ x. swap_redis ∷ x) e, f, k refl))
  redis_ends l h (s, err e) g (x, r, f, b) k = ((λ c. b), g)

  redis_rule :
      (l : List RestoreStep)
      → From G
          (Half l)
          (λ (u : Unit {0}). Full (swap_redis ∷ l))
          (redis_swapped w contents instance request)
  redis_rule l = record {
    at = λ h g p.
        redis_ends l h
          (restore_staged ⦃calls = w.redis_calls h⦄ (start contents.redis_tree h.redis)) g p
          (restore_staged-restored redis contents.redis_tree (w.redis_calls h) h.redis
            (subst (Attempted redis contents.redis_tree) (sym p.1) redis_ready));
  }

  controlled_ends :
      (P : Host A → Type 0) (Q : Authority → RecoveryControl.Disk → Type 0) (h : Host A)
      (o : RecoveryControl.Disk × Result Failure Authority)
      → ((d : RecoveryControl.Disk) → P (record h { controlled = d }))
      → G h
      → Leaves Whatever Q o
      → Leaves G (λ a t. P t × Q a t.controlled) (controlled_by h o)
  controlled_ends P Q h (d, ok a) p g q = (g, (p d, q.1))
  controlled_ends P Q h (d, err e) p g q = g

  begun_rule :
      From G
        (At prepared)
        (λ a h. At prepared h × (Requested a h.controlled))
        (boundary_begun w contents instance request)
  begun_rule = record {
    at = λ h g p.
        controlled_ends (At prepared) (λ a d. Requested a d) h _ (λ d. p) g
          (begin-IsFor (w.control_ends h) request.point_id request.transaction_id
            request.admin_digest instance h.controlled);
  }

  marked_rule :
      (l : List RestoreStep)
      → From G
          (Full l)
          (λ a h. Full l h × (Marked a h.controlled))
          (marked w contents instance request)
  marked_rule l = record {
    at = λ h g p.
        controlled_ends (Full l) (λ a d. Marked a d) h _ (λ d. p) g
          (restored-IsRestored (w.control_ends h) instance request.transaction_id h.controlled);
  }

  restore_data-IsComplete :
      (files : List String)
      → From G
          (Open prepared)
          (λ (u : Unit {0}). Complete files)
          (restore_data w contents instance request files)
  unfolding restore_data
  restore_data-IsComplete files =
      let done_l = with_files files (preserve ∷ prepared) in
      seq (naming _ (change_act prepared preserve)) λ u.
        seq (replaced-Open files (preserve ∷ prepared)) λ u.
          seq (naming _ (change_act done_l open_dump)) λ u.
            seq (naming _ (change_act (open_dump ∷ done_l) restore_database)) λ u.
              seq (naming _ (change_act (restore_database ∷ open_dump ∷ done_l) close_dump)) λ u.
                seq (naming _ (storage_rule (close_dump ∷ restore_database ∷ open_dump ∷ done_l)))
                  λ u.
                    seq
                      (naming _ (
                        redis_rule
                          (swap_storage ∷ close_dump ∷ restore_database ∷ open_dump ∷ done_l)))
                      λ u. seq (marked_rule (performed files)) λ a. record {
                        at = λ h g p.
                            let (x, y, z) = p.0 in
                            (
                              g,
                              now x y z
                                  (record { authority = a; committed = p.1.1; complete = p.1.0 }),
                            );
                      }

  stage_archives-At :
      From G (At []) (λ (u : Unit {0}). At prepared) (stage_archives w contents instance request)
  unfolding stage_archives
  stage_archives-At = seq (naming _ (quiet_act _ make_storage_stage refl)) λ u.
      seq (naming _ (quiet_act _ stage_storage refl)) λ u.
        seq (naming _ (quiet_act _ make_redis_stage refl)) λ u.
          seq (naming _ (quiet_act _ stage_redis refl))
            λ u. seq (quiet_act _ check_storage refl) λ u. quiet_act _ check_redis refl

  by_mark :
      (files : List String) (a : Authority) (b : Bool)
      → a.data_restored ≡ b
      → From G
          (λ h. At prepared h × (Requested a h.controlled))
          (λ (u : Unit {0}). Complete files)
          (if b then done tt else restore_data w contents instance request files)
  by_mark files a true e = record {
    at = λ h g p. (
      g,
      earlier p.0.0 p.0.1.0 p.0.1.1 (record {
        authority = a;
        committed = p.1.1;
        complete = record { restored_mark = e; transaction_mark = p.1.0.same_transaction };
      }),
    );
  }
  by_mark files a false e = record {
    at = λ h g p.
        (restore_data-IsComplete files).at h g
          (p.0, record { authority = a; committed = p.1.1; requested = p.1.0; incomplete = e });
  }

  restore_validated-From :
      (has_control : Bool) (files : List String)
      → From G
          (At [])
          (λ (u : Unit {0}). Complete files)
          (restore_validated w contents instance request has_control files)
  unfolding restore_validated
  restore_validated-From has_control files = seq stage_archives-At λ u.
      seq (check_rule (At prepared) has_control _)
        λ u. seq (naming _ begun_rule) λ a. by_mark files a a.data_restored refl

  module _ (fresh : before.past ≡ []) (has_control : Bool) (files : List String) where
    run_ends :
        Leaves G
          (λ (u : Unit {0}). Complete files)
          (restore_validated w contents instance request has_control files before)
    run_ends =
        (restore_validated-From has_control files).at before (rw fresh tt)
          (rw fresh refl, (refl, refl))

    -- For directories on which a restore was attempted any number of times, on every path of a run each
    -- step that changes the host is taken while recovery control holds a committed authority for this
    -- request whose data is not restored yet.
    pub restore_validated-Guarded :
        Guarded instance request
          (restore_validated w contents instance request has_control files before).0
    restore_validated-Guarded = Leaves-state G (λ (u : Unit {0}). Complete files) _ run_ends

    -- For directories on which a restore was attempted any number of times, a run that returns nil
    -- leaves recovery control with a committed authority of its transaction whose data is restored, and
    -- it found that before any change, or it took every step in order, from the files over the database
    -- to both directories, which hold the trees of the recovery point.
    pub restore_validated-IsComplete :
        (restore_validated w contents instance request has_control files before).1 ≡ ok tt
        → IsComplete contents instance request storage redis before files
            (restore_validated w contents instance request has_control files before).0
    restore_validated-IsComplete e =
        Leaves-ok G (λ (u : Unit {0}). Complete files)
          (restore_validated w contents instance request has_control files before) run_ends e
