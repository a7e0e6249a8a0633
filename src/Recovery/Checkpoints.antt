-- ===== src/Recovery/Checkpoints.antt =====
-- The order in which `List` of internal/recovery/store.go returns the points, and the update
-- checkpoint that `prune` finds first.
use geoflow_updater.Prelude.{
  ℕ, ◌≤◌, ◌<◌, ◌≡◌, refl, sym, subst, ap, ◌∙◌, ◌⊎◌, inl, inr, String, Bool, true, false, ◌&&◌,
  Bool-cases, List, [], ◌∷◌, ltb, eq_iff, Memᴰ, All, if◌then◌else◌, arith,
}
use geoflow_updater.Prelude.Result.{Result, ok, err, require-eq-ok, >>=-eq-ok, ok-injective}
use geoflow_updater.Coordination.Patterns.{point_id}
use geoflow_updater.Deployment.Recover.{instance_id_pattern}
use geoflow_updater.Recovery.Points.{
  Point, is_update_checkpoint, Entry, Backups, Fault, entry, manifest_of, is_valid, load,
  with_loaded, loaded, insert, sort,
}
use geoflow_updater.Recovery.Prune.{mem, retain, retain_checkpoint}
use geoflow_updater.Recovery.Retained.{mem-retain_self}

-- The newest first.
abbrev pub IsSorted : List Point → Type 0
IsSorted [] = Unit
IsSorted (p ∷ rest) = All (λ q. q.created_at ≤ p.created_at) rest × IsSorted rest

All-le :
    (m n : ℕ) (l : List Point)
    → m ≤ n
    → All (λ q. q.created_at ≤ m) l
    → All (λ q. q.created_at ≤ n) l
All-le m n [] h k = tt
All-le m n (q ∷ l) h k = (omega arith, All-le m n l h k.1)

All-insert :
    (n : ℕ) (p : Point) (l : List Point)
    → p.created_at ≤ n
    → All (λ q. q.created_at ≤ n) l
    → All (λ q. q.created_at ≤ n) (insert p l)
unfolding insert
All-insert n p [] h k = (h, tt)
All-insert n p (q ∷ l) h k = elim (Bool-cases (ltb p.created_at q.created_at)) [
  | inl e ↦ rw e (k.0, All-insert n p l h k.1)
  | inr e ↦ rw e (h, k)
]

insert-IsSorted : (p : Point) (l : List Point) → IsSorted l → IsSorted (insert p l)
unfolding insert
insert-IsSorted p [] h = (tt, tt)
insert-IsSorted p (q ∷ l) h = elim (Bool-cases (ltb p.created_at q.created_at)) [
  | inl e ↦ rw e (All-insert q.created_at p l (ground arith) h.0, insert-IsSorted p l h.1)
  | inr e ↦ rw e ((ground arith, All-le q.created_at p.created_at l (ground arith) h.0), h)
]

pub sort-IsSorted : (l : List Point) → IsSorted (sort l)
unfolding sort
sort-IsSorted [] = tt
sort-IsSorted (p ∷ l) = insert-IsSorted p (sort l) (sort-IsSorted l)

insert_cases :
    (x p q : Point) (l : List Point) (b : Bool)
    → (Memᴰ x (insert p l) → (x ≡ p) ⊎ Memᴰ x l)
    → Memᴰ x (if b then q ∷ insert p l else p ∷ q ∷ l)
    → (x ≡ p) ⊎ Memᴰ x (q ∷ l)
insert_cases x p q l true k (Memᴰ.head e) = inr (Memᴰ.head e)
insert_cases x p q l true k (Memᴰ.tail m) = elim (k m) [ inl e ↦ inl e | inr r ↦ inr (Memᴰ.tail r) ]
insert_cases x p q l false k (Memᴰ.head e) = inl e
insert_cases x p q l false k (Memᴰ.tail m) = inr m

Memᴰ-insert : (x p : Point) (l : List Point) → Memᴰ x (insert p l) → (x ≡ p) ⊎ Memᴰ x l
unfolding insert
Memᴰ-insert x p [] (Memᴰ.head e) = inl e
Memᴰ-insert x p [] (Memᴰ.tail m) = inr m
Memᴰ-insert x p (q ∷ l) m =
    insert_cases x p q l (ltb p.created_at q.created_at) (Memᴰ-insert x p l) m

pub Memᴰ-sort : (x : Point) (l : List Point) → Memᴰ x (sort l) → Memᴰ x l
unfolding sort
Memᴰ-sort x (p ∷ l) m = elim (Memᴰ-insert x p (sort l) m) [
  | inl e ↦ Memᴰ.head e
  | inr k ↦ Memᴰ.tail (Memᴰ-sort x l k)
]
Memᴰ-sort x [] m = m

load-eq-id :
    (b : Backups) (instance name : String) (x : Point) → load b instance name ≡ ok x → x.id ≡ name
unfolding load
load-eq-id b instance name x h =
    let h = (require-eq-ok (instance_id_pattern instance && point_id name) _ _ h).1 in
    let h = (require-eq-ok b.absolute _ _ h).1 in
    let (y, m, h) = >>=-eq-ok (manifest_of (entry name b.entries)) _ h in
    let (v, h) = require-eq-ok (is_valid instance name y) _ _ h in
    let e : y ≡ x = ok-injective h in
    subst (λ z. z.id ≡ name) e ((eq_iff y.id name).0 (ground arith))

load_id :
    (b : Backups) (instance name : String) (x : Point)
    → load b instance name ≡ ok x
    → load b instance x.id ≡ ok x
load_id b instance name x e =
    subst (λ i. load b instance i ≡ ok x) (sym (load-eq-id b instance name x e)) e

loaded_cases :
    (b : Backups) (instance name : String) (x : Point) (rest : List Point) (r : Result Fault Point)
    → load b instance name ≡ r
    → (Memᴰ x rest → load b instance x.id ≡ ok x)
    → Memᴰ x (with_loaded r rest)
    → load b instance x.id ≡ ok x
loaded_cases b instance name x rest (ok p) e k (Memᴰ.head q) =
    load_id b instance name x (e ∙ ap ok (sym q))
loaded_cases b instance name x rest (ok p) e k (Memᴰ.tail m) = k m
loaded_cases b instance name x rest (err f) e k m = k m

-- A listed point is one that its directory loads.
pub loaded-load :
    (b : Backups) (instance : String) (x : Point) (entries : List (String × Entry))
    → Memᴰ x (loaded b instance entries)
    → load b instance x.id ≡ ok x
unfolding loaded
loaded-load b instance x [] m = elim m [ ]
loaded-load b instance x ((name, e) ∷ entries) m =
    elim (Bool-cases (e.is_directory && point_id name)) [
      | inl t ↦
          loaded_cases b instance name x (loaded b instance entries) (load b instance name) refl
            (loaded-load b instance x entries)
            (subst
              (λ u. Memᴰ x (
                if u
                then with_loaded (load b instance name) (loaded b instance entries)
                else loaded b instance entries))
              t m)
      | inr t ↦ loaded-load b instance x entries (
          subst
            (λ u. Memᴰ x (
              if u
              then with_loaded (load b instance name) (loaded b instance entries)
              else loaded b instance entries))
            t m)
    ]

abbrev pub IsNewest : Point → List Point → Type 0
IsNewest p points =
    (is_update_checkpoint p ≡ true)
    × ((q : Point)
        → Memᴰ q points
        → is_update_checkpoint q ≡ true
        → (q.id ≡ p.id) ⊎ (q.created_at < p.created_at))

All-at :
    (n : ℕ) (x : Point) (l : List Point)
    → All (λ q. q.created_at ≤ n) l
    → Memᴰ x l
    → x.created_at ≤ n
All-at n x (y ∷ l) h (Memᴰ.head e) = rw e h.0
All-at n x (y ∷ l) h (Memᴰ.tail m) = All-at n x l h.1 m
All-at n x [] h m = elim m [ ]

different : {b : Bool} → b ≡ true → ¬ (b ≡ false)
different h k = ground arith

-- The first checkpoint of a sorted list is the newest one.
first :
    (p r : Point) (rest : List Point)
    → IsSorted (r ∷ rest)
    → Memᴰ p (r ∷ rest)
    → (r.id ≡ p.id) ⊎ (r.created_at < p.created_at)
    → r.id ≡ p.id
first p r rest s m (inl e) = e
first p r rest s (Memᴰ.head e) (inr l) = rw e refl
first p r rest s (Memᴰ.tail m) (inr l) =
    let k = All-at r.created_at p rest s.0 m in absurd (omega arith)

elsewhere :
    (p r : Point) (rest : List Point)
    → is_update_checkpoint p ≡ true
    → is_update_checkpoint r ≡ false
    → Memᴰ p (r ∷ rest)
    → Memᴰ p rest
elsewhere p r rest h c (Memᴰ.tail m) = m
elsewhere p r rest h c (Memᴰ.head e) =
    absurd (different (subst (λ q. is_update_checkpoint q ≡ true) e h) c)

-- The newest update checkpoint is retained.
pub mem-newest :
    (p : Point) (points : List Point) (ids : List String)
    → IsSorted points
    → Memᴰ p points
    → IsNewest p points
    → mem p.id (retain_checkpoint points ids) ≡ true
unfolding retain_checkpoint
mem-newest p [] ids s m h = elim m [ ]
mem-newest p (r ∷ rest) ids s m h = elim (Bool-cases (is_update_checkpoint r)) [
  | inl c ↦ rw c (
      subst (λ i. mem i (retain r.id ids) ≡ true) (first p r rest s m (h.1 r (Memᴰ.head refl) c))
        (mem-retain_self r.id ids))
  | inr c ↦
      rw c
        (mem-newest p rest ids s.1 (elsewhere p r rest h.0 c m) (h.0, λ q k. h.1 q (Memᴰ.tail k)))
]
