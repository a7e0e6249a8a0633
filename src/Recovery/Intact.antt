-- ===== src/Recovery/Intact.antt =====
-- What the swap of a directory in internal/recovery/store.go keeps: at every moment the tree from
-- before or the restored one is whole.
use geoflow_updater.Prelude.{
  ◌≡◌, ◌≢◌, refl, sym, ◌⊎◌, inl, inr, String, Bool, true, false, Error, none, some, List, [], ◌∷◌,
  All, arith,
}
use geoflow_updater.Prelude.Result.{Result, ok, err}
use geoflow_updater.Prelude.Action.{done, fail, Leaves, Leaves-proceed}
use geoflow_updater.Recovery.Swap.{
  Place, absent, irregular, directory, Disk, Run, Removal, removed, interrupted, Seen, missing,
  unsafe, plain, trouble, Calls, Swap, ◌>>=◌, seen, passed, ended, to_old, to_current, activated,
  renamed_error, named, emptied, after_removal, look, remove_old, put_back, clean_up, by_current,
  by_old, reconcile_swap,
}

abbrev pub is_leftover : {A : Type 0} → Place A → Bool
is_leftover irregular = false
is_leftover _ = true

-- `c` is the tree from before, `n` the restored one.
module _ {A : Type 0} (c n : A) where
  abbrev pub IsWhole : Place A → Type 0
  IsWhole p = (p ≡ directory c) ⊎ (p ≡ directory n)

  -- A whole tree is in its place, or beside it with nothing in its place.
  pub data Kept (d : Disk A) : Type 0 where
    before : IsWhole d.current → d.old ≡ absent → Kept d
    between : d.current ≡ absent → IsWhole d.old → Kept d
    after : d.current ≡ directory n → is_leftover d.old ≡ true → Kept d

  pub record Intact (s : Run A) : Type 0 where
    pub now : Kept s.disk
    pub earlier : All Kept s.past

  -- Ready to be moved; moved; restored; restored with nothing left.
  pub record Free (d : Disk A) : Type 0 where
    pub whole : IsWhole d.current
    pub none_old : d.old ≡ absent
    pub ready : d.staged ≡ directory n

  pub record Moved (d : Disk A) : Type 0 where
    pub none_current : d.current ≡ absent
    pub whole : IsWhole d.old
    pub ready : d.staged ≡ directory n

  pub record Placed (d : Disk A) : Type 0 where
    pub restored : d.current ≡ directory n
    pub leftover : is_leftover d.old ≡ true

  pub record Finished (d : Disk A) : Type 0 where
    pub restored : d.current ≡ directory n
    pub none_old : d.old ≡ absent

  abbrev pub On : (Disk A → Type 0) → Unit {0} → Run A → Type 0
  On P u s = P s.disk

  ended_rule :
      (P : Disk A → Type 0) (e : Error) (change : Disk A → Disk A) (s : Run A)
      → Intact s
      → (e ≡ none → Kept (change s.disk) × P (change s.disk))
      → Leaves Intact (On P) (ended e change s)
  ended_rule P none change s h k =
      (record { now = (k refl).0; earlier = (h.now, h.earlier) }, (k refl).1)
  ended_rule P (some e) change s h k = record { now = h.now; earlier = (h.now, h.earlier) }

  renamed_rule :
      {B : Type 0} (Q : B → Run A → Type 0) (name : String) (o : Run A × Result String B)
      → Leaves Intact Q o
      → Leaves Intact Q (renamed_error name o)
  renamed_rule Q name (s, err e) h = h
  renamed_rule Q name (s, ok b) h = h

  pub passed-Intact : (s : Run A) → Intact s → Intact (passed s.disk s)
  passed-Intact s h = record { now = h.now; earlier = (h.now, h.earlier) }

  pub seen_missing : (e : Error) (p : Place A) → seen e p ≡ missing → p ≡ absent
  seen_missing none absent h = refl
  seen_missing none irregular h = absurd (ground arith)
  seen_missing none (directory a) h = absurd (ground arith)
  seen_missing (some e) p h = absurd (ground arith)

  pub seen_plain : (e : Error) (p : Place A) → seen e p ≡ plain → (a : A) × (p ≡ directory a)
  seen_plain none (directory a) h = (a, refl)
  seen_plain (some e) p h = absurd (ground arith)
  seen_plain none absent h = absurd (ground arith)
  seen_plain none irregular h = absurd (ground arith)

  whole_present : (p : Place A) → IsWhole p → p ≢ absent
  whole_present p (inl e) q = absurd (ground arith)
  whole_present p (inr e) q = absurd (ground arith)

  moved : (d : Disk A) → Kept d → d.current ≡ absent → IsWhole d.old
  moved d (before w o) q = absurd (whole_present d.current w q)
  moved d (between q' w) q = w
  moved d (after r l) q = absurd (whole_present d.current (inr r) q)

  placed :
      (d : Disk A) (b a : A) → Kept d → d.current ≡ directory b → d.old ≡ directory a → Placed d
  placed d b a (before w o) q p = absurd (ground arith)
  placed d b a (between q' w) q p = absurd (ground arith)
  placed d b a (after r l) q p = record { restored = r; leftover = l }

  pub free : (d : Disk A) → Kept d → d.old ≡ absent → d.staged ≡ directory n → Free d
  free d (before w o) q r = record { whole = w; none_old = o; ready = r }
  free d (between q' w) q r = absurd (whole_present d.old w q)
  free d (after p l) q r = record { whole = inr p; none_old = q; ready = r }

  pub to_old-Moved : (d : Disk A) → Free d → Kept (to_old d) × Moved (to_old d)
  to_old-Moved d h =
      (between refl h.whole, record { none_current = refl; whole = h.whole; ready = h.ready })

  pub to_current-Free : (d : Disk A) → Moved d → Kept (to_current d) × Free (to_current d)
  to_current-Free d h =
      (before h.whole refl, record { whole = h.whole; none_old = refl; ready = h.ready })

  whole_leftover : (p : Place A) → IsWhole p → is_leftover p ≡ true
  whole_leftover p (inl e) = rw e refl
  whole_leftover p (inr e) = rw e refl

  pub activated-Placed : (d : Disk A) → Moved d → Kept (activated d) × Placed (activated d)
  activated-Placed d h =
      let l : is_leftover d.old ≡ true = whole_leftover d.old h.whole in
      (after h.ready l, record { restored = h.ready; leftover = l })

  pub Placed-Kept : (d : Disk A) → Placed d → Kept d
  Placed-Kept d h = after h.restored h.leftover

  emptied-Placed :
      (steps : List A) (s : Run A)
      → Intact s
      → Placed s.disk
      → Intact (emptied steps s) × Placed (emptied steps s).disk
  emptied-Placed [] s h p = (h, p)
  emptied-Placed (a ∷ rest) s h p =
      emptied-Placed rest (passed (record s.disk { old = directory a }) s)
        (record { now = after p.restored refl; earlier = (h.now, h.earlier) })
        (record { restored = p.restored; leftover = refl })

  pub removal_rule :
      (r : Removal A) (s : Run A)
      → Intact s
      → Placed s.disk
      → Leaves Intact (On Finished) (after_removal r s)
  removal_rule (removed steps) s h p =
      let (i, q) = emptied-Placed steps s h p in
      (
        record { now = after q.restored refl; earlier = (i.now, i.earlier) },
        record { restored = q.restored; none_old = refl },
      )
  removal_rule (interrupted steps a e) s h p =
      let (i, q) = emptied-Placed steps s h p in
      record { now = after q.restored refl; earlier = (i.now, i.earlier) }

  -- From an intact run whose disk passes `P`, the run stays intact, and `Q` holds of what is returned.
  pub record Triple {B : Type 0} (P : Disk A → Type 0) (m : Swap A B) (Q : B → Disk A → Type 0)
      : Type 0 where
    pub at : (s : Run A) → Intact s → P s.disk → Leaves Intact (λ b t. Q b t.disk) (m s)

  module _ {P : Disk A → Type 0} where
    pub bind_rule :
        {B C : Type 0} {m : Swap A B} {f : B → Swap A C} {Q : B → Disk A → Type 0}
        {R : C → Disk A → Type 0}
        → Triple P m Q
        → ((b : B) → Triple (Q b) (f b) R)
        → Triple P (m >>= f) R
    unfolding ◌>>=◌
    bind_rule {m} {f} {Q} {R} h k = record {
      at = λ s i p.
          Leaves-proceed Intact (λ b t. Q b t.disk) (λ c t. R c t.disk) (m s) f (h.at s i p)
            (λ b t q. (k b).at t q.0 q.1);
    }

    pub weaken_rule :
        {B : Type 0} {P' : Disk A → Type 0} {m : Swap A B} {Q : B → Disk A → Type 0}
        → ((d : Disk A) → Kept d → P d → P' d)
        → Triple P' m Q
        → Triple P m Q
    weaken_rule w h = record { at = λ s i p. h.at s i (w s.disk i.now p) }

    pub done_rule :
        {B : Type 0} {Q : B → Disk A → Type 0} (b : B)
        → ((d : Disk A) → P d → Q b d)
        → Triple P (done b) Q
    done_rule b w = record { at = λ s i p. (i, w s.disk p) }

    pub fail_rule : {B : Type 0} {Q : B → Disk A → Type 0} (e : String) → Triple P (fail e) Q
    fail_rule e = record { at = λ s i p. i }

    pub named_rule :
        {B : Type 0} (name : String) {m : Swap A B} {Q : B → Disk A → Type 0}
        → Triple P m Q
        → Triple P (named name m) Q
    named_rule name {m} {Q} h = record {
      at = λ s i p. renamed_rule (λ b t. Q b t.disk) name (m s) (h.at s i p);
    }

  -- The calls of a swap, from one phase to the next.
  module _ ⦃calls : Calls A⦄ where
    pub still_rule :
        (P : Disk A → Type 0) (e : Run A → Error) → Triple P (λ s. ended (e s) (λ d. d) s) (λ u. P)
    still_rule P e = record { at = λ s i p. ended_rule P (e s) (λ d. d) s i (λ q. (i.now, p)) }

    pub move_rule :
        (P Q : Disk A → Type 0) (e : Run A → Error) (change : Disk A → Disk A)
        → ((d : Disk A) → P d → Kept (change d) × Q (change d))
        → Triple P (λ s. ended (e s) change s) (λ u. Q)
    move_rule P Q e change w = record {
      at = λ s i p. ended_rule Q (e s) change s i (λ q. w s.disk p);
    }

    pub look_rule :
        (P : Disk A → Type 0) (place : Disk A → Place A)
        → Triple P (look place) (λ x d. P d × ((e : Error) × (x ≡ seen e (place d))))
    look_rule P place = record { at = λ s i p. (passed-Intact s i, (p, (calls.lstat s, refl))) }

    pub remove_rule : Triple Placed remove_old (λ u. Finished)
    remove_rule = record { at = λ s i p. removal_rule (calls.remove s) s i p }

    -- What a swap that was looked at starts from, or ends with.
    abbrev pub Ready : Bool → Disk A → Type 0
    Ready true = Finished
    Ready false = Free

    put_back-Ready : Triple Moved put_back Ready
    unfolding put_back
    put_back-Ready =
        bind_rule (named_rule _ (move_rule Moved Free _ to_current to_current-Free))
          λ u. bind_rule (named_rule _ (still_rule Free calls.sync)) λ u. done_rule false (λ d f. f)

    clean_up-Ready : Triple Placed clean_up Ready
    unfolding clean_up
    clean_up-Ready = bind_rule (still_rule Placed calls.mounts) λ u.
        bind_rule (named_rule _ (still_rule Placed calls.sync)) λ u.
          bind_rule (named_rule _ remove_rule) λ u.
            bind_rule (named_rule _ (still_rule Finished calls.sync)) λ u. done_rule true (λ d f. f)

    -- What was seen in the place of the previous directory, and of the current one.
    abbrev Occupied : Disk A → Type 0
    Occupied d = (d.staged ≡ directory n) × ((a : A) × (d.old ≡ directory a))

    by_current-Ready :
        (x : Seen)
        → Triple (λ d. Occupied d × ((e : Error) × (x ≡ seen e d.current))) (by_current x) Ready
    by_current-Ready missing =
        weaken_rule
          (λ d k p.
            let q = seen_missing p.1.0 d.current (sym p.1.1) in
            record { none_current = q; whole = moved d k q; ready = p.0.0 })
          put_back-Ready
    by_current-Ready plain =
        weaken_rule
          (λ d k p.
            let (b, q) = seen_plain p.1.0 d.current (sym p.1.1) in placed d b p.0.1.0 k q p.0.1.1)
          clean_up-Ready
    by_current-Ready unsafe = fail_rule _
    by_current-Ready (trouble e) = fail_rule _

    by_old-Ready :
        (x : Seen)
        → Triple
            (λ d. (d.staged ≡ directory n) × ((e : Error) × (x ≡ seen e d.old)))
            (by_old x)
            Ready
    by_old-Ready missing = record {
      at = λ s i p. (i, free s.disk i.now (seen_missing p.1.0 s.disk.old (sym p.1.1)) p.0);
    }
    by_old-Ready plain =
        weaken_rule (λ d k p. let (a, q) = seen_plain p.1.0 d.old (sym p.1.1) in (p.0, (a, q)))
          (bind_rule (look_rule Occupied (λ d. d.current)) by_current-Ready)
    by_old-Ready unsafe = fail_rule _
    by_old-Ready (trouble e) = fail_rule _

    pub reconcile_swap-Ready : Triple (λ d. d.staged ≡ directory n) reconcile_swap Ready
    unfolding reconcile_swap
    reconcile_swap-Ready =
        bind_rule (look_rule (λ d. d.staged ≡ directory n) (λ d. d.old)) by_old-Ready
