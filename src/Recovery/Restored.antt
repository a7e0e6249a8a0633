-- ===== src/Recovery/Restored.antt =====
-- `restoreStagedDirectory` of internal/recovery/store.go: each of its steps keeps a whole tree, and
-- its end has the restored one in its place.
use geoflow_updater.Prelude.{
  ◌≡◌, refl, Bool, true, false, Error, join, join-eq-none, none, some, ◌∷◌, if◌then◌else◌, arith,
}
use geoflow_updater.Prelude.Action.{done, Leaves}
use geoflow_updater.Recovery.Swap.{
  directory, Disk, Run, Removal, removed, interrupted, after_removal, Seen, missing, unsafe, plain,
  trouble, Calls, seen, ended, error_of, attempt, returned, sync_directory, activate, to_old,
  to_current, activated, rename_error, remove_old, check_staged, check_free, backed_out,
  or_back_out, commit, swap_in, restore_staged,
}
use geoflow_updater.Recovery.Intact.{
  Kept, between, Intact, Free, Moved, Placed, Finished, On, Triple, bind_rule, done_rule, fail_rule,
  named_rule, still_rule, move_rule, look_rule, removal_rule, Ready, reconcile_swap-Ready,
  to_old-Moved, to_current-Free, activated-Placed,
}

module _ {A : Type 0} (c n : A) where
  module _ ⦃calls : Calls A⦄ where
    put_back_ended :
        (e : Error) (s : Run A)
        → Intact c n s
        → Moved c n s.disk
        → Intact c n (ended e to_current s).0
    put_back_ended none s i m = record {
      now = (to_current-Free c n s.disk m).0;
      earlier = (i.now, i.earlier);
    }
    put_back_ended (some x) s i m = record { now = i.now; earlier = (i.now, i.earlier) }

    put_back_tried :
        (e : Error) (s : Run A)
        → Intact c n s
        → Moved c n s.disk
        → Intact c n (ended (rename_error s.disk.old s.disk.current e) to_current s).0
    put_back_tried e s i m = put_back_ended (rename_error s.disk.old s.disk.current e) s i m

    -- After a step that failed the moved directory is put back, or stays beside.
    backed_out_rule :
        (Q : Disk A → Type 0) (change : Disk A → Disk A)
        → ((d : Disk A) → Moved c n d → Kept c n (change d) × Q (change d))
        → (e : Error) (s : Run A) → Intact c n s
        → Moved c n s.disk
        → Leaves (Intact c n) (On c n Q) (backed_out (ended e change s))
    backed_out_rule Q change w none s i m =
        let (k, q) = w s.disk m in (record { now = k; earlier = (i.now, i.earlier) }, q)
    backed_out_rule Q change w (some x) s i m =
        put_back_tried (calls.rename (record s { past = s.disk ∷ s.past }))
          (record s { past = s.disk ∷ s.past })
          (record { now = i.now; earlier = (i.now, i.earlier) }) m

    sync_back_rule : Triple c n (Moved c n) (or_back_out sync_directory) (λ u. Moved c n)
    sync_back_rule = record {
      at = λ s i p.
          backed_out_rule (Moved c n) (λ d. d) (λ d m. (between m.none_current m.whole, m))
            (calls.sync s) s i p;
    }

    activate_back_rule : Triple c n (Moved c n) (or_back_out activate) (λ u. Placed c n)
    activate_back_rule = record {
      at = λ s i p.
          backed_out_rule (Placed c n) activated (activated-Placed c n)
            (rename_error s.disk.staged s.disk.current (calls.rename s)) s i p;
    }

    check_staged-Free :
        (x : Seen)
        → Triple c n
            (λ d. Free c n d × ((e : Error) × (x ≡ seen e d.staged)))
            (check_staged x)
            (λ u. Free c n)
    check_staged-Free plain = done_rule c n tt (λ d h. h.0)
    check_staged-Free missing = fail_rule c n _
    check_staged-Free unsafe = fail_rule c n _
    check_staged-Free (trouble e) = fail_rule c n _

    check_free-Free :
        (x : Seen)
        → Triple c n
            (λ d. Free c n d × ((e : Error) × (x ≡ seen e d.old)))
            (check_free x)
            (λ u. Free c n)
    check_free-Free missing = done_rule c n tt (λ d h. h.0)
    check_free-Free plain = fail_rule c n _
    check_free-Free unsafe = fail_rule c n _
    check_free-Free (trouble e) = fail_rule c n _

    tried_still :
        (P : Disk A → Type 0) (e : Error) (s : Run A)
        → Intact c n s
        → P s.disk
        → Leaves (Intact c n) (λ (x : Error) t. P t.disk) (error_of (ended e (λ d. d) s))
    tried_still P none s i p = (record { now = i.now; earlier = (i.now, i.earlier) }, p)
    tried_still P (some e) s i p = (record { now = i.now; earlier = (i.now, i.earlier) }, p)

    try_sync_rule : (P : Disk A → Type 0) → Triple c n P (attempt sync_directory) (λ x. P)
    try_sync_rule P = record { at = λ s i p. tried_still P (calls.sync s) s i p }

    -- What is left where a removal was interrupted is still beside the restored tree.
    abbrev Cleaned : Error → Disk A → Type 0
    Cleaned e d = e ≡ none → Finished c n d

    tried_removal :
        (r : Removal A) (s : Run A)
        → Intact c n s
        → Placed c n s.disk
        → Leaves (Intact c n) (λ (x : Error) t. Cleaned x t.disk) (error_of (after_removal r s))
    tried_removal (removed steps) s i p =
        let (k, f) = removal_rule c n (removed steps) s i p in (k, λ q. f)
    tried_removal (interrupted steps a e) s i p =
        (removal_rule c n (interrupted steps a e) s i p, λ q. absurd (ground arith))

    try_remove_rule : Triple c n (Placed c n) (attempt remove_old) Cleaned
    try_remove_rule = record { at = λ s i p. tried_removal (calls.remove s) s i p }

    returned_ends :
        (e : Error) (s : Run A)
        → Intact c n s
        → (e ≡ none → Finished c n s.disk)
        → Leaves (Intact c n) (On c n (Finished c n)) (returned e s)
    returned_ends none s i h = (i, h refl)
    returned_ends (some e) s i h = i

    returned_rule :
        (a r f : Error) → Triple c n (Cleaned r) (returned (join a (join r f))) (λ u. Finished c n)
    returned_rule a r f = record {
      at = λ s i p.
          returned_ends (join a (join r f)) s i
            (λ q. p (join-eq-none r f (join-eq-none a (join r f) q).1).0);
    }

    commit-Finished : Triple c n (Placed c n) commit (λ u. Finished c n)
    unfolding commit
    commit-Finished = bind_rule c n (try_sync_rule (Placed c n)) λ a.
        bind_rule c n try_remove_rule
          λ r. bind_rule c n (try_sync_rule (Cleaned r)) λ f. named_rule c n _ (returned_rule a r f)

    swap_in-Finished : Triple c n (Free c n) swap_in (λ u. Finished c n)
    unfolding swap_in
    swap_in-Finished = bind_rule c n (look_rule c n (Free c n) (λ d. d.staged)) λ info.
        bind_rule c n (check_staged-Free info) λ u.
          bind_rule c n (still_rule c n (Free c n) calls.mounts) λ u.
            bind_rule c n (look_rule c n (Free c n) (λ d. d.old)) λ info.
              bind_rule c n (check_free-Free info) λ u.
                bind_rule c n
                  (named_rule c n _
                    (move_rule c n (Free c n) (Moved c n) _ to_old (to_old-Moved c n)))
                  λ u. bind_rule c n (named_rule c n _ sync_back_rule) λ u.
                    bind_rule c n (named_rule c n _ activate_back_rule) λ u.
                      bind_rule c n (still_rule c n (Placed c n) calls.mounts) λ u. commit-Finished

    completed_rule :
        (b : Bool) → Triple c n (Ready c n b) (if b then done tt else swap_in) (λ u. Finished c n)
    completed_rule true = done_rule c n tt (λ d f. f)
    completed_rule false = swap_in-Finished

    pub restore_staged-Finished :
        Triple c n (λ d. d.staged ≡ directory n) restore_staged (λ u. Finished c n)
    unfolding restore_staged
    restore_staged-Finished = bind_rule c n (reconcile_swap-Ready c n) completed_rule
