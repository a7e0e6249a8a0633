-- ===== src/Recovery/Bounded.antt =====
-- How many recovery points `prune` of internal/recovery/store.go leaves.
use geoflow_updater.Prelude.{
  ℕ, ◌+◌, ◌≤◌, ◌≡◌, refl, sym, subst, ◌⊎◌, inl, inr, String, Bool, true, false, Bool-cases, Error,
  none, some, List, [], ◌∷◌, length, leb, str_eq, Memᴰ, if◌then◌else◌, arith,
}
use geoflow_updater.Prelude.Result.{ok}
use geoflow_updater.Prelude.Action.{proceed, proceed-eq-ok, done}
use geoflow_updater.Coordination.Records.{Plan}
use geoflow_updater.Recovery.Points.{Point, Entry, Backups, attempted, entry, list_points}
use geoflow_updater.Recovery.Prune.{
  Removal, gone, left, Ends, Setup, mem, retain, retain_all, retain_checkpoint, fill, retained,
  without, with_left, is_target, removal_of, remove_point, remove_points, default_keep,
  protected_of, prune,
}
use geoflow_updater.Recovery.Retained.{entry-without_self}
use geoflow_updater.Recovery.Pruned.{pruned}

-- An entry that is gone stays so.
gone-without :
    (x id : String) (l : List (String × Entry)) → entry x l ≡ none → entry x (without id l) ≡ none
gone-without x id [] h = refl
gone-without x id ((n, e) ∷ rest) h = elim (Bool-cases (str_eq n x)) [
  | inl p ↦ absurd (ground arith)
  | inr p ↦ ground (arith, gone-without x id rest (ground arith))
]

gone-with_left :
    (x id : String) (k : Entry) (l : List (String × Entry))
    → entry x l ≡ none
    → entry x (with_left id k l) ≡ none
gone-with_left x id k [] h = refl
gone-with_left x id k ((n, e) ∷ rest) h = elim (Bool-cases (str_eq n x)) [
  | inl p ↦ absurd (ground arith)
  | inr p ↦ ground (arith, gone-with_left x id k rest (ground arith))
]

module _ (w : Ends) where
  removal_of-gone :
      (x : String) (r : Removal) (id : String) (b : Backups)
      → entry x b.entries ≡ none
      → entry x (removal_of w r id b).0.entries ≡ none
  removal_of-gone x gone id b h = gone-without x id b.entries h
  removal_of-gone x (left e m) id b h = gone-with_left x id e b.entries h

  remove_point-gone :
      (x id : String) (b : Backups)
      → entry x b.entries ≡ none
      → entry x (remove_point w id b).0.entries ≡ none
  unfolding remove_point
  remove_point-gone x id b h = ground (arith, removal_of-gone x (w.remove id) id b h)

  removed_at_end :
      (id : String) (b s : Backups) (target : Error) (r : Removal) (e : Error)
      → proceed
          (b, attempted target)
          (λ u t. proceed (removal_of w r id t) (λ u t. (t, attempted e)))
        ≡ (s, ok tt)
      → entry id s.entries ≡ none
  removed_at_end id b s (some x) r e h = absurd (ground arith)
  removed_at_end id b s none (left k m) e h = absurd (ground arith)
  removed_at_end id b s none gone (some x) h = absurd (ground arith)
  removed_at_end id b s none gone none h =
      subst (λ o. entry id o.0.entries ≡ none) h (entry-without_self id b.entries)

  queries_done :
      (id : String) (b s : Backups) (root : Error) (target : Backups → Error) (r : Removal)
      (e : Error)
      → proceed
          (b, attempted root)
          (λ u t.
            proceed
              (t, attempted (target t))
              (λ u t. proceed (removal_of w r id t) (λ u t. (t, attempted e))))
        ≡ (s, ok tt)
      → entry id s.entries ≡ none
  queries_done id b s (some x) target r e h = absurd (ground arith)
  queries_done id b s none target r e h = removed_at_end id b s (target b) r e h

  remove_point-ok :
      (id : String) (b s : Backups) → remove_point w id b ≡ (s, ok tt) → entry id s.entries ≡ none
  unfolding remove_point
  remove_point-ok id b s h =
      queries_done id b s (if b.absolute then none else some "backup root must be absolute")
        (λ t.
          if is_target (entry id t.entries)
          then none
          else some "recovery point retention target is unsafe")
        (w.remove id) (w.sync id) h

  turn-gone :
      (x : String) (m : Bool) (id : String) (b : Backups)
      → entry x b.entries ≡ none
      → entry x ((if m then done tt else remove_point w id) b).0.entries ≡ none
  turn-gone x true id b h = h
  turn-gone x false id b h = remove_point-gone x id b h

  turn-ok :
      (m : Bool) (id : String) (b s : Backups)
      → ((if m then done tt else remove_point w id) b) ≡ (s, ok tt)
      → (m ≡ true) ⊎ (entry id s.entries ≡ none)
  turn-ok true id b s h = inl refl
  turn-ok false id b s h = inr (remove_point-ok id b s h)

  remove_points-gone :
      (x : String) (ids : List String) (points : List Point) (b s : Backups)
      → entry x b.entries ≡ none
      → remove_points w ids points b ≡ (s, ok tt)
      → entry x s.entries ≡ none
  unfolding remove_points
  remove_points-gone x ids [] b s h k = subst (λ o. entry x o.0.entries ≡ none) k h
  remove_points-gone x ids (p ∷ points) b s h k =
      let (t, u, e, k) =
        proceed-eq-ok ((if mem p.id ids then done tt else remove_point w p.id) b)
          (λ u. remove_points w ids points) k in
      remove_points-gone x ids points t s
        (subst (λ o. entry x o.0.entries ≡ none) e (turn-gone x (mem p.id ids) p.id b h)) k

  -- What a loop that succeeded did not retain is gone.
  pub remove_points-ok :
      (ids : List String) (points : List Point) (b s : Backups)
      → remove_points w ids points b ≡ (s, ok tt)
      → (p : Point) → Memᴰ p points
      → (mem p.id ids ≡ true) ⊎ (entry p.id s.entries ≡ none)
  unfolding remove_points
  remove_points-ok ids [] b s h p m = elim m [ ]
  remove_points-ok ids (q ∷ points) b s h p (Memᴰ.head e) =
      let (t, u, f, h) =
        proceed-eq-ok ((if mem q.id ids then done tt else remove_point w q.id) b)
          (λ u. remove_points w ids points) h in
      subst (λ x. (mem x.id ids ≡ true) ⊎ (entry x.id s.entries ≡ none)) (sym e)
        (elim (turn-ok (mem q.id ids) q.id b t f) [
          | inl m ↦ inl m
          | inr g ↦ inr (remove_points-gone q.id ids points t s g h)
        ])
  remove_points-ok ids (q ∷ points) b s h p (Memᴰ.tail m) =
      let (t, u, f, h) =
        proceed-eq-ok ((if mem q.id ids then done tt else remove_point w q.id) b)
          (λ u. remove_points w ids points) h in
      remove_points-ok ids points t s h p m

length-retain : (id : String) (ids : List String) → length (retain id ids) ≤ 1 + length ids
length-retain id ids = ground arith

length-retain_all :
    (protected ids : List String)
    → length (retain_all protected ids) ≤ length protected + length ids
unfolding retain_all
length-retain_all [] ids = omega arith
length-retain_all (p ∷ protected) ids =
    omega (arith, length-retain_all protected (retain p ids), length-retain p ids)

length-retain_checkpoint :
    (points : List Point) (ids : List String)
    → length (retain_checkpoint points ids) ≤ 1 + length ids
unfolding retain_checkpoint
length-retain_checkpoint [] ids = omega arith
length-retain_checkpoint (p ∷ points) ids =
    ground (arith, length-retain_checkpoint points ids, length-retain p.id ids)

-- Filling up stops at the limit.
length-fill :
    (keep : ℕ) (points : List Point) (ids : List String)
    → (length (fill keep points ids) ≤ keep) ⊎ (length (fill keep points ids) ≡ length ids)
unfolding fill
length-fill keep [] ids = inr refl
length-fill keep (p ∷ points) ids = elim (Bool-cases (leb keep (length ids))) [
  | inl e ↦ inr (ground arith)
  | inr e ↦ elim (length-fill keep points (retain p.id ids)) [
    | inl h ↦ inl (ground arith)
    | inr h ↦ inl (ground (arith, length-retain p.id ids))
  ]
]

length-retained :
    (keep : ℕ) (points : List Point) (protected : List String) (own : String)
    → (length (retained keep points protected own) ≤ keep)
      ⊎ (length (retained keep points protected own) ≤ 2 + length protected)
length-retained keep points protected own =
    let k = retain_all protected (own ∷ []) in
    let c = length-retain_checkpoint points k in
    let a = length-retain_all protected (own ∷ []) in
    elim (length-fill keep points (retain_checkpoint points k)) [
      | inl h ↦ inl h
      | inr h ↦ inr (omega (arith, h, c, a))
    ]

module _ (w : Ends) (digest : Plan → String) (setup : Setup) (instance own : String)
    (b : Backups) where
  -- The points of a list that are left are among at most this many: the limit, or the point that was
  -- created, one checkpoint and the protected points, where these are more.
  pub record IsBounded (points : List Point) (protected : List String) (s : Backups) : Type 0 where
    pub ids : List String
    pub few : (length ids ≤ default_keep setup.keep) ⊎ (length ids ≤ 2 + length protected)
    pub rest : (p : Point) → Memᴰ p points → (mem p.id ids ≡ true) ⊎ (entry p.id s.entries ≡ none)

  -- Where `prune` succeeds, on a list of points and of protected ones, each listed point is gone or is
  -- among some that are at most as many as the limit, or as the protected points and two more.
  pub prune-IsBounded :
      (points : List Point) (protected : List String) (s : Backups)
      → list_points b instance ≡ ok points
      → protected_of digest setup instance ≡ ok protected
      → prune w digest setup instance own b ≡ (s, ok tt)
      → IsBounded points protected s
  unfolding prune
  prune-IsBounded points protected s h k r =
      let ids = retained (default_keep setup.keep) points protected own in
      record {
        ids = ids;
        few = length-retained (default_keep setup.keep) points protected own;
        rest = remove_points-ok w ids points b s (
            subst (λ z. pruned w digest setup instance own b z (ok protected) ≡ (s, ok tt)) h
              (subst
                (λ z. pruned w digest setup instance own b (list_points b instance) z ≡ (s, ok tt))
                k r));
      }
