-- ===== src/Coordination/Accept.antt =====
-- `Accept` gives an admission the next number and makes it the latest operation.
use geoflow_updater.Prelude.{
  ◌<◌, ◌≡◌, refl, sym, ap, subst, ◌∙◌, String, true, false, not, ◌&&◌, Option, none, some, List, [],
  ◌∷◌, ◌++◌, map, All, arith, str_eq, eq_iff, eq_refl, if◌then◌else◌,
}
use geoflow_updater.Prelude.Result.{ok, >>=-eq-ok, require-eq-ok, ok-injective, bind_cong}
use geoflow_updater.Coordination.Patterns.{identifier}
use geoflow_updater.Coordination.Records.{Admission, valid_admission}
use geoflow_updater.Coordination.Files.{
  duplicate_operation, duplicate_sequence, Directory, Store, find, put, read, entries,
}
use geoflow_updater.Coordination.Store.{request, seen_operation, seen_sequence, collect, admissions}

-- The name differs from all the others.
abbrev Avoids : String → List String → Type 0
Avoids name = All (λ other. str_eq name other ≡ false)

module _ {A : Type 0} where
  pub find-put :
      (name other : String) (value : A) (files : List (String × Option A))
      → find other (put name value files)
        ≡ (if str_eq name other then some (some value) else find other files)
  unfolding find put
  find-put name other value [] = ground arith
  find-put name other value ((key, old) ∷ files) =
      ground (
        arith,
        eq_iff key name,
        eq_iff key other,
        eq_iff name other,
        find-put name other value files,
      )

  put_new :
      (name : String) (value : A) (files : List (String × Option A))
      → find name files ≡ none
      → put name value files ≡ files ++ (name, some value) ∷ []
  unfolding find put
  put_new name value [] h = refl
  put_new name value ((key, old) ∷ files) h = ground (arith, put_new name value files)

  abbrev names : List (String × Option A) → List String
  names files = map (λ f. f.0) files

  names-append :
      (files : List (String × Option A)) (name : String) (value : Option A)
      → names (files ++ (name, value) ∷ []) ≡ names files ++ name ∷ []
  names-append [] name value = refl
  names-append (f ∷ files) name value = rw (names-append files name value)

  Avoids-none :
      (name : String) (files : List (String × Option A))
      → find name files ≡ none
      → Avoids name (names files)
  unfolding find
  Avoids-none name [] h = tt
  Avoids-none name ((key, old) ∷ files) h =
      (ground (arith, eq_iff key name, eq_iff name key), Avoids-none name files (ground arith))

-- The store with one more admission.
abbrev pub with_admission : String → Admission → Store → Store
with_admission name a s = record s {
  admissions = record s.admissions { files = put name a s.admissions.files };
}

module _ (name : String) (a : Admission) (s : Store) where
  read_other :
      (other : String)
      → str_eq name other ≡ false
      → read other (with_admission name a s).admissions ≡ read other s.admissions
  unfolding read
  read_other other ne = ground (arith, find-put name other a s.admissions.files)

  read_self : read name (with_admission name a s).admissions ≡ ok a
  unfolding read
  read_self = ground (arith, find-put name name a s.admissions.files, eq_iff name name)

module _ (name : String) (a : Admission) (s : Store) (id : String) where
  request_other :
      (other : String)
      → str_eq name other ≡ false
      → request (with_admission name a s) id other ≡ request s id other
  unfolding request
  request_other other ne = rw (read_other name a s other ne)

  request_self :
      identifier name ≡ true
      → str_eq id "primary" ≡ true
      → (valid_admission a && str_eq a.instance_id id && str_eq a.client_request_id name) ≡ true
      → request (with_admission name a s) id name ≡ ok a
  unfolding request
  request_self n i v = rw (read_self name a s) (rw (n, i, v))

  collect_others :
      (seen : List Admission) (others : List String)
      → Avoids name others
      → collect (with_admission name a s) id seen others ≡ collect s id seen others
  unfolding collect
  collect_others seen [] h = refl
  collect_others seen (other ∷ others) h =
      rw (request_other other h.0)
        (bind_cong (request s id other) _ _ (λ x. rw (collect_others (x ∷ seen) others h.1)))

-- What the loop of `Admissions` did when it went through.
collect_step :
    (s : Store) (id : String) (seen : List Admission) (name : String) (rest : List String)
    (records : List Admission)
    → collect s id seen (name ∷ rest) ≡ ok records
    → (x : Admission) × (xs : List Admission) × (request s id name ≡ ok x)
      × (not (seen_operation x.operation_id seen) ≡ true)
      × (not (seen_sequence x.sequence seen) ≡ true)
      × (collect s id (x ∷ seen) rest ≡ ok xs)
      × (records ≡ x ∷ xs)
unfolding collect
collect_step s id seen name rest records e =
    let (x, r, e₁) = >>=-eq-ok (request s id name) _ e in
    let (o, e₂) =
      require-eq-ok (not (seen_operation x.operation_id seen)) duplicate_operation _ e₁ in
    let (q, e₃) = require-eq-ok (not (seen_sequence x.sequence seen)) duplicate_sequence _ e₂ in
    let (xs, c, e₄) = >>=-eq-ok (collect s id (x ∷ seen) rest) _ e₃ in
    (x, xs, r, o, q, c, sym (ok-injective e₄))

-- The other way round.
collect_more :
    (s : Store) (id : String) (seen : List Admission) (name : String) (rest : List String)
    (x : Admission) (xs : List Admission)
    → request s id name ≡ ok x
    → not (seen_operation x.operation_id seen) ≡ true
    → not (seen_sequence x.sequence seen) ≡ true
    → collect s id (x ∷ seen) rest ≡ ok xs
    → collect s id seen (name ∷ rest) ≡ ok (x ∷ xs)
unfolding collect
collect_more s id seen name rest x xs r o q c = rw (r, o, q, c)

-- Neither the operation nor the number of `a` is among the records.
abbrev pub IsFresh : Admission → List Admission → Type 0
IsFresh a records =
    (seen_operation a.operation_id records ≡ false) × (seen_sequence a.sequence records ≡ false)

IsFresh-cons :
    (a x : Admission) (xs seen : List Admission)
    → IsFresh a (x ∷ xs)
    → IsFresh a seen
    → IsFresh a (x ∷ seen) × IsFresh a xs
IsFresh-cons a x xs seen h k = ground arith

IsFresh-seen :
    (a : Admission) (seen : List Admission)
    → IsFresh a seen
    → (not (seen_operation a.operation_id seen) ≡ true)
      × (not (seen_sequence a.sequence seen) ≡ true)
IsFresh-seen a seen h = (ap not h.0, ap not h.1)

collect_none : (s : Store) (id : String) (seen : List Admission) → collect s id seen [] ≡ ok []
unfolding collect
collect_none s id seen = refl

collect-append :
    (s : Store) (id : String) (seen : List Admission) (others : List String) (name : String)
    (records : List Admission) (a : Admission)
    → collect s id seen others ≡ ok records
    → request s id name ≡ ok a
    → IsFresh a seen
    → IsFresh a records
    → collect s id seen (others ++ name ∷ []) ≡ ok (records ++ a ∷ [])
collect-append s id seen [] name records a e r f g =
    let (o, q) = IsFresh-seen a seen f in
    collect_more s id seen name [] a [] r o q (collect_none s id (a ∷ seen))
    ∙ ap (λ xs. ok (xs ++ a ∷ [])) (ok-injective (sym (collect_none s id seen) ∙ e))
collect-append s id seen (other ∷ others) name records a e r f g =
    let (x, xs, rx, o, q, c, p) = collect_step s id seen other others records e in
    let (f', g') = IsFresh-cons a x xs seen (subst (IsFresh a) p g) f in
    collect_more s id seen other (others ++ name ∷ []) x (xs ++ a ∷ []) rx o q
      (collect-append s id (x ∷ seen) others name xs a c r f' g')
    ∙ ap (λ records. ok (records ++ a ∷ [])) (sym p)

entries-eq-ok :
    {A : Type 0} (d : Directory A) (ns : List String)
    → entries d ≡ ok ns
    → (d.usable ≡ true) × (ns ≡ names d.files)
unfolding entries
entries-eq-ok d ns e = ground arith

entries_usable : {A : Type 0} (d : Directory A) → d.usable ≡ true → entries d ≡ ok (names d.files)
unfolding entries
entries_usable d u = rw u

valid_parts :
    (a : Admission)
    → valid_admission a ≡ true
    → (identifier a.client_request_id ≡ true) × (a.instance_id ≡ "primary") × (0 < a.sequence)
unfolding valid_admission
valid_parts a v = ground (arith, eq_iff a.instance_id "primary")

request_created :
    (s : Store) (a : Admission)
    → valid_admission a ≡ true
    → request (with_admission a.client_request_id a s) "primary" a.client_request_id ≡ ok a
request_created s a v =
    let (i, p, _) = valid_parts a v in
    request_self a.client_request_id a s "primary" i refl
      (rw (v, (eq_iff a.instance_id "primary").1 p, eq_refl a.client_request_id))

-- A new file with a fresh admission is one more record at the end.
pub admissions-create :
    (s : Store) (a : Admission) (records : List Admission)
    → admissions s "primary" ≡ ok records
    → find a.client_request_id s.admissions.files ≡ none
    → valid_admission a ≡ true
    → IsFresh a records
    → admissions (with_admission a.client_request_id a s) "primary" ≡ ok (records ++ a ∷ [])
unfolding admissions
admissions-create s a records e missing v f =
    let (ns, en, c) = >>=-eq-ok (entries s.admissions) _ e in
    let (u, p) = entries-eq-ok s.admissions ns en in
    let s' = with_admission a.client_request_id a s in
    let files = s.admissions.files in
    let listed : names s'.admissions.files ≡ names files ++ a.client_request_id ∷ [] =
      ap names (put_new a.client_request_id a files missing)
      ∙ names-append files a.client_request_id (some a) in
    let read_all : collect s' "primary" [] (names files) ≡ ok records =
      collect_others a.client_request_id a s "primary" [] (names files)
        (Avoids-none a.client_request_id files missing)
      ∙ ap (collect s "primary" []) (sym p)
      ∙ c in
    rw (entries_usable s'.admissions u, listed)
      (collect-append s' "primary" [] (names files) a.client_request_id records a read_all
        (request_created s a v) (refl, refl) f)
