-- ===== src/Recovery/Pruned.antt =====
-- What `prune` of internal/recovery/store.go leaves alone.
use geoflow_updater.Prelude.{
  ◌≡◌, refl, sym, subst, ◌∙◌, ◌⊎◌, inl, inr, String, Bool, true, false, Error, none, some, List, [],
  ◌∷◌, eq_refl, Memᴰ, if◌then◌else◌, arith,
}
use geoflow_updater.Prelude.Result.{Result, ok, err, ◌>>◌, require-eq-ok, ok-injective}
use geoflow_updater.Prelude.Action.{proceed}
use geoflow_updater.Coordination.Records.{Plan}
use geoflow_updater.Deployment.Recover.{instance_id_pattern}
use geoflow_updater.Recovery.Points.{
  Point, Backups, Fault, attempted, entry, load, loaded, sort, list_points,
}
use geoflow_updater.Recovery.Prune.{
  Ends, Setup, mem, retain_all, retain_checkpoint, retained, remove_points, default_keep,
  protected_of, prune,
}
use geoflow_updater.Recovery.Retained.{
  mem-fill, mem-checkpoint_kept, mem-retain_all, mem-protected, remove_points-entry,
}
use geoflow_updater.Recovery.Checkpoints.{
  IsSorted, sort-IsSorted, Memᴰ-sort, loaded-load, IsNewest, mem-newest,
}

ok_or_err : {A : Type 0} {a : A} {f : Fault} → ¬ (◌≡◌ {A = Result Fault A} (ok a) (err f))
ok_or_err h = ground arith

listed_tail :
    (present : Bool) (e : Error) (found points : List Point)
    → (if present then (attempted e >> ok found) else ok []) ≡ ok points
    → (points ≡ []) ⊎ (points ≡ found)
listed_tail true none found points h = inr (sym (ok-injective h))
listed_tail true (some e) found points h = absurd (ground arith)
listed_tail false e found points h = inl (sym (ok-injective h))

-- A list of points is empty, or that of the directory in order.
listed_shape :
    (b : Backups) (instance : String) (points : List Point)
    → list_points b instance ≡ ok points
    → (points ≡ []) ⊎ (points ≡ sort (loaded b instance b.entries))
unfolding list_points
listed_shape b instance points h =
    let h = (require-eq-ok (instance_id_pattern instance) _ _ h).1 in
    listed_tail b.present b.listing (sort (loaded b instance b.entries)) points
      (require-eq-ok b.absolute _ _ h).1

listed-load :
    (b : Backups) (instance : String) (points : List Point) (p : Point)
    → list_points b instance ≡ ok points
    → Memᴰ p points
    → load b instance p.id ≡ ok p
listed-load b instance points p h m = elim (listed_shape b instance points h) [
  | inl e ↦ elim (subst (Memᴰ p) e m) [ ]
  | inr e ↦
      loaded-load b instance p b.entries
        (Memᴰ-sort p (loaded b instance b.entries) (subst (Memᴰ p) e m))
]

listed-IsSorted :
    (b : Backups) (instance : String) (points : List Point)
    → list_points b instance ≡ ok points
    → IsSorted points
listed-IsSorted b instance points h = elim (listed_shape b instance points h) [
  | inl e ↦ rw e tt
  | inr e ↦ subst IsSorted (sym e) (sort-IsSorted (loaded b instance b.entries))
]

module _ (w : Ends) (digest : Plan → String) (setup : Setup) (instance own : String)
    (b : Backups) where
  -- A name that `prune` has to leave alone: the point that was just created, one that the coordination
  -- store protects, the newest update checkpoint, or anything that is not a valid recovery point.
  pub data IsProtected (x : String) : Type 0 where
    created : x ≡ own → IsProtected x
    needed :
        (protected : List String)
        → protected_of digest setup instance ≡ ok protected
        → Memᴰ x protected
        → IsProtected x
    checkpoint :
        (points : List Point) (p : Point)
        → list_points b instance ≡ ok points
        → Memᴰ p points
        → IsNewest p points
        → x ≡ p.id
        → IsProtected x
    unreadable : (f : Fault) → load b instance x ≡ err f → IsProtected x

  protected-retained :
      (x : String) (points : List Point) (protected : List String)
      → list_points b instance ≡ ok points
      → protected_of digest setup instance ≡ ok protected
      → IsProtected x
      → (p : Point) → Memᴰ p points
      → x ≡ p.id
      → mem x (retained (default_keep setup.keep) points protected own) ≡ true
  protected-retained x points protected h k (created e) p m q = mem-fill x _ points _ (
      mem-checkpoint_kept x points _
        (mem-retain_all x protected _ (rw e (ground (arith, eq_refl own)))))
  protected-retained x points protected h k (needed others k' m') p m q =
      let e : others ≡ protected = ok-injective (sym k' ∙ k) in
      mem-fill x _ points _
        (mem-checkpoint_kept x points _ (mem-protected x protected _ (subst (Memᴰ x) e m')))
  protected-retained x points protected h k (checkpoint others c h' m' n q') p m q =
      let e : others ≡ points = ok-injective (sym h' ∙ h) in
      mem-fill x _ points _ (
        subst (λ i. mem i (retain_checkpoint points (retain_all protected (own ∷ []))) ≡ true)
          (sym q')
          (mem-newest c points _ (listed-IsSorted b instance points h) (subst (Memᴰ c) e m')
            (subst (IsNewest c) e n)))
  protected-retained x points protected h k (unreadable f e) p m q =
      let l = listed-load b instance points p h m in
      absurd (ok_or_err (sym (subst (λ i. load b instance i ≡ ok p) (sym q) l) ∙ e))

  abbrev pub pruned :
      Result Fault (List Point) → Result Fault (List String) → Backups × Result Fault (Unit {0})
  pruned points protected =
      proceed (b, points)
        (λ ps s.
          proceed (s, protected)
            (λ qs. remove_points w (retained (default_keep setup.keep) ps qs own) ps))

  pruned-entry :
      (x : String)
      → IsProtected x
      → (points : Result Fault (List Point)) (protected : Result Fault (List String))
      → list_points b instance ≡ points
      → protected_of digest setup instance ≡ protected
      → entry x (pruned points protected).0.entries ≡ entry x b.entries
  pruned-entry x s (err f) protected h k = refl
  pruned-entry x s (ok points) (err f) h k = refl
  pruned-entry x s (ok points) (ok protected) h k =
      remove_points-entry w x (retained (default_keep setup.keep) points protected own) points
        (entry x b.entries) (λ p m q. protected-retained x points protected h k s p m q) b refl

  -- Whatever its calls end with, `prune` leaves an entry as it is whose name is that of the point
  -- just created, of a point that the coordination store protects, of the newest update checkpoint, or
  -- of anything that cannot be read as a recovery point.
  pub prune-entry :
      (x : String)
      → IsProtected x
      → entry x (prune w digest setup instance own b).0.entries ≡ entry x b.entries
  unfolding prune
  prune-entry x s =
      pruned-entry x s (list_points b instance) (protected_of digest setup instance) refl refl
