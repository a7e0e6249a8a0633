-- ===== src/Recovery/Retained.antt =====
-- What `prune` of internal/recovery/store.go leaves alone, and what it leaves.
use geoflow_updater.Prelude.{
  ℕ, ◌≡◌, refl, sym, subst, ◌∙◌, inl, inr, String, true, false, Bool-cases, Option, none, List, [],
  ◌∷◌, str_eq, eq_iff, eq_refl, Memᴰ, if◌then◌else◌, arith,
}
use geoflow_updater.Prelude.Result.{Result, ok, err}
use geoflow_updater.Prelude.Action.{proceed, done}
use geoflow_updater.Recovery.Points.{Point, Entry, Backups, Fault, entry}
use geoflow_updater.Recovery.Prune.{
  Removal, gone, left, Ends, Pruning, mem, retain, retain_all, retain_checkpoint, fill, without,
  with_left, removal_of, remove_point, remove_points,
}

-- Once retained, a point stays so.
pub mem-retain :
    (x id : String) (ids : List String) → mem x ids ≡ true → mem x (retain id ids) ≡ true
mem-retain x id ids h = ground arith

pub mem-retain_self : (id : String) (ids : List String) → mem id (retain id ids) ≡ true
mem-retain_self id ids = ground (arith, eq_refl id)

pub mem-fill :
    (x : String) (keep : ℕ) (points : List Point) (ids : List String)
    → mem x ids ≡ true
    → mem x (fill keep points ids) ≡ true
unfolding fill
mem-fill x keep [] ids h = h
mem-fill x keep (p ∷ points) ids h =
    ground (arith, mem-fill x keep points (retain p.id ids) (mem-retain x p.id ids h))

pub mem-checkpoint_kept :
    (x : String) (points : List Point) (ids : List String)
    → mem x ids ≡ true
    → mem x (retain_checkpoint points ids) ≡ true
unfolding retain_checkpoint
mem-checkpoint_kept x [] ids h = h
mem-checkpoint_kept x (p ∷ points) ids h =
    ground (arith, mem-checkpoint_kept x points ids h, mem-retain x p.id ids h)

pub mem-retain_all :
    (x : String) (protected ids : List String)
    → mem x ids ≡ true
    → mem x (retain_all protected ids) ≡ true
unfolding retain_all
mem-retain_all x [] ids h = h
mem-retain_all x (p ∷ protected) ids h =
    mem-retain_all x protected (retain p ids) (mem-retain x p ids h)

pub mem-protected :
    (x : String) (protected ids : List String)
    → Memᴰ x protected
    → mem x (retain_all protected ids) ≡ true
unfolding retain_all
mem-protected x (p ∷ protected) ids (Memᴰ.head e) =
    mem-retain_all x protected (retain p ids)
      (subst (λ y. mem y (retain p ids) ≡ true) (sym e) (mem-retain_self p ids))
mem-protected x (p ∷ protected) ids (Memᴰ.tail m) = mem-protected x protected (retain p ids) m
mem-protected x [] ids m = elim m [ ]

entry-without :
    (x id : String) (l : List (String × Entry))
    → str_eq x id ≡ false
    → entry x (without id l) ≡ entry x l
entry-without x id [] h = refl
entry-without x id ((n, e) ∷ rest) h =
    ground (arith, entry-without x id rest h, eq_iff n id, eq_iff n x, eq_iff x id)

pub entry-without_self : (id : String) (l : List (String × Entry)) → entry id (without id l) ≡ none
entry-without_self id [] = refl
entry-without_self id ((n, e) ∷ rest) = ground (arith, entry-without_self id rest)

entry-with_left :
    (x id : String) (k : Entry) (l : List (String × Entry))
    → str_eq x id ≡ false
    → entry x (with_left id k l) ≡ entry x l
entry-with_left x id k [] h = refl
entry-with_left x id k ((n, e) ∷ rest) h =
    ground (arith, entry-with_left x id k rest h, eq_iff n id, eq_iff n x, eq_iff x id)

module _ (w : Ends) (x : String) where
  missed : (id : String) (ids : List String) → mem id ids ≡ false → ¬ (mem id ids ≡ true)
  missed id ids m k = ground arith

  differs :
      (id : String) (ids : List String)
      → mem id ids ≡ false
      → (x ≡ id → mem x ids ≡ true)
      → str_eq x id ≡ false
  differs id ids m h = elim (Bool-cases (str_eq x id)) [
    | inl e ↦
        let q = (eq_iff x id).0 e in
        let k = h q in absurd (missed id ids m (subst (λ y. mem y ids ≡ true) q k))
    | inr e ↦ e
  ]

  removal_of-entry :
      (r : Removal) (id : String) (b : Backups)
      → str_eq x id ≡ false
      → entry x (removal_of w r id b).0.entries ≡ entry x b.entries
  removal_of-entry gone id b h = entry-without x id b.entries h
  removal_of-entry (left e m) id b h = entry-with_left x id e b.entries h

  -- Removing one point leaves every other entry alone, however it ends.
  remove_point-entry :
      (id : String) (b : Backups)
      → str_eq x id ≡ false
      → entry x (remove_point w id b).0.entries ≡ entry x b.entries
  unfolding remove_point
  remove_point-entry id b h = ground (arith, removal_of-entry (w.remove id) id b h)

  then_entry :
      (found : Option Entry) (o : Backups × Result Fault (Unit {0}))
      (rest : Unit {0} → Pruning (Unit {0}))
      → entry x o.0.entries ≡ found
      → ((t : Backups) → entry x t.entries ≡ found → entry x (rest tt t).0.entries ≡ found)
      → entry x (proceed o rest).0.entries ≡ found
  then_entry found (t, ok nothing) rest s k = k t s
  then_entry found (t, err e) rest s k = s

  turn :
      (p : Point) (ids : List String) (b : Backups) (found : Option Entry)
      → (x ≡ p.id → mem x ids ≡ true)
      → entry x b.entries ≡ found
      → entry x ((if mem p.id ids then done tt else remove_point w p.id) b).0.entries ≡ found
  turn p ids b found h s = elim (Bool-cases (mem p.id ids)) [
    | inl m ↦ rw m s
    | inr m ↦ rw m (remove_point-entry p.id b (differs p.id ids m h) ∙ s)
  ]

  -- An entry that is retained, or is not of a listed point, is left alone.
  pub remove_points-entry :
      (ids : List String) (points : List Point) (found : Option Entry)
      → ((p : Point) → Memᴰ p points → x ≡ p.id → mem x ids ≡ true)
      → (b : Backups) → entry x b.entries ≡ found
      → entry x (remove_points w ids points b).0.entries ≡ found
  unfolding remove_points
  remove_points-entry ids [] found h b s = s
  remove_points-entry ids (p ∷ points) found h b s =
      then_entry found ((if mem p.id ids then done tt else remove_point w p.id) b)
        (λ u. remove_points w ids points) (turn p ids b found (h p (Memᴰ.head refl)) s)
        (λ t k. remove_points-entry ids points found (λ q m. h q (Memᴰ.tail m)) t k)
