-- ===== src/Recovery/Attempts.antt =====
-- `restoreStagedDirectory` of internal/recovery/store.go over any number of attempts, each of which
-- may be cut off at any point.
use geoflow_updater.Prelude.{
  ◌≡◌, refl, sym, subst, inl, inr, true, join, none, List, [], ◌∷◌, All, Memᴰ, arith,
}
use geoflow_updater.Prelude.Result.{ok}
use geoflow_updater.Prelude.Action.{Leaves-ok, Leaves-state}
use geoflow_updater.Recovery.Swap.{
  Place, absent, irregular, directory, Disk, Run, removed, Calls, ◌>>=◌, put_back, clean_up,
  reconcile_swap, commit, swap_in, restore_staged,
}
use geoflow_updater.Recovery.Intact.{is_leftover, Kept, before, between, after, Intact, Finished}
use geoflow_updater.Recovery.Restored.{restore_staged-Finished}

-- An attempt: what is to be restored was staged anew.
abbrev pub start : {A : Type 0} → A → Disk A → Run A
start n d = record { disk = record d { staged = directory n }; past = [] }

restaged :
    {A : Type 0} (c n : A) (d : Disk A) (p : Place A)
    → Kept c n d
    → Kept c n (record d { staged = p })
restaged c n d p (before w o) = before w o
restaged c n d p (between q w) = between q w
restaged c n d p (after r l) = after r l

-- A disk on which a restore was attempted any number of times, against any calls, and each time cut
-- off when the disk was `d'`, with anything left of what was staged.
pub data Attempted {A : Type 0} (c n : A) : Disk A → Type 0 where
  fresh : (d : Disk A) → d.current ≡ directory c → d.old ≡ absent → Attempted c n d
  cut :
      (calls : Calls A) (d d' d'' : Disk A) (p : Place A)
      → Attempted c n d
      → (let r = (restore_staged ⦃calls = calls⦄ (start n d)).0 in Memᴰ d' (r.disk ∷ r.past))
      → d'' ≡ record d' { staged = p }
      → Attempted c n d''

All-Memᴰ : {A : Type 0} (P : A → Type 0) (x : A) (l : List A) → All P l → Memᴰ x l → P x
All-Memᴰ P x [] h m = elim m [ ]
All-Memᴰ P x (y ∷ l) h (Memᴰ.head e) = subst P (sym e) h.0
All-Memᴰ P x (y ∷ l) h (Memᴰ.tail m) = All-Memᴰ P x l h.1 m

module _ {A : Type 0} (c n : A) where
  start-Intact : (d : Disk A) → Kept c n d → Intact c n (start n d)
  start-Intact d k = record { now = restaged c n d (directory n) k; earlier = tt }

  run-Intact :
      (calls : Calls A) (d : Disk A)
      → Kept c n d
      → Intact c n (restore_staged ⦃calls = calls⦄ (start n d)).0
  run-Intact calls d k =
      Leaves-state (Intact c n) (λ u t. Finished c n t.disk)
        (restore_staged ⦃calls = calls⦄ (start n d))
        ((restore_staged-Finished c n ⦃calls = calls⦄).at (start n d) (start-Intact d k) refl)

  -- However often a restore from one recovery point is attempted, against any calls, and each time cut
  -- off at any point, a whole tree, that of before or the restored one, is in its place, or is beside
  -- it with nothing in its place.
  pub attempted-Kept : (d : Disk A) → Attempted c n d → Kept c n d
  attempted-Kept _ (fresh d e o) = before (inl e) o
  attempted-Kept _ (cut calls d0 d' d p a m e) =
      let i = run-Intact calls d0 (attempted-Kept d0 a) in
      let r = (restore_staged ⦃calls = calls⦄ (start n d0)).0 in
      subst (Kept c n) (sym e)
        (restaged c n d' p (All-Memᴰ (Kept c n) d' (r.disk ∷ r.past) (i.now, i.earlier) m))

  -- After any attempts with the same recovery point that were cut off, an attempt that reports success has left the restored tree
  -- in its place and nothing beside it, whatever its calls came to.
  pub restore_staged-restored :
      (calls : Calls A) (d : Disk A)
      → Attempted c n d
      → (restore_staged ⦃calls = calls⦄ (start n d)).1 ≡ ok tt
      → Finished c n (restore_staged ⦃calls = calls⦄ (start n d)).0.disk
  restore_staged-restored calls d a e =
      Leaves-ok (Intact c n) (λ u t. Finished c n t.disk)
        (restore_staged ⦃calls = calls⦄ (start n d))
        ((restore_staged-Finished c n ⦃calls = calls⦄).at (start n d)
          (start-Intact d (attempted-Kept d a)) refl)
        e

  -- Calls that all succeed.
  abbrev pub quiet : Calls A
  quiet = record {
    lstat = λ s. none;
    mounts = λ s. none;
    rename = λ s. none;
    sync = λ s. none;
    remove = λ s. removed [];
  }

  -- A directory in one of the places, with nothing irregular in the other.
  abbrev IsReady : Place A → Place A → Type 0
  IsReady (directory x) irregular = ⊥
  IsReady (directory x) _ = Unit
  IsReady absent (directory x) = Unit
  IsReady _ _ = ⊥

  quiet_places :
      (current old : Place A)
      → IsReady current old
      → (restore_staged ⦃calls = quiet⦄ (record {
        disk = record { current = current; old = old; staged = directory n };
        past = [];
      })).1
        ≡ ok tt
  unfolding restore_staged reconcile_swap put_back clean_up swap_in commit ◌>>=◌ join
  quiet_places (directory x) absent h = refl
  quiet_places (directory x) (directory y) h = refl
  quiet_places absent (directory x) h = refl
  quiet_places (directory x) irregular h = absurd h
  quiet_places absent absent h = absurd h
  quiet_places absent irregular h = absurd h
  quiet_places irregular old h = absurd h

  leftover-IsReady : (old : Place A) → is_leftover old ≡ true → IsReady (directory n) old
  leftover-IsReady absent h = tt
  leftover-IsReady (directory x) h = tt
  leftover-IsReady irregular h = absurd (ground arith)

  Kept-IsReady : (d : Disk A) → Kept c n d → IsReady d.current d.old
  Kept-IsReady d (before (inl e) o) = rw (e, o) tt
  Kept-IsReady d (before (inr e) o) = rw (e, o) tt
  Kept-IsReady d (between q (inl e)) = rw (q, e) tt
  Kept-IsReady d (between q (inr e)) = rw (q, e) tt
  Kept-IsReady d (after r l) = rw r (leftover-IsReady d.old l)

  -- After any attempts with the same recovery point that were cut off, an attempt of which every call succeeds reports success,
  -- with the restored tree in its place and nothing beside it.
  pub restore_staged-completes :
      (d : Disk A)
      → Attempted c n d
      → ((restore_staged ⦃calls = quiet⦄ (start n d)).1 ≡ ok tt)
        × Finished c n (restore_staged ⦃calls = quiet⦄ (start n d)).0.disk
  restore_staged-completes d a =
      let e = quiet_places d.current d.old (Kept-IsReady d (attempted-Kept d a)) in
      (e, restore_staged-restored quiet d a e)
