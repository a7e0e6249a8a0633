-- ===== src/Operation/Stages/Evidence.antt =====
-- The stages that `boundedOperationStages` of internal/operation/manager.go chooses.
use geoflow_updater.Prelude.{
  ℕ, suc, ◌≡◌, refl, sym, ap, ◌∙◌, subst, String, Bool, true, false, ◌||◌, Bool-cases, List, [],
  ◌∷◌, ◌++◌, length, any, leb, str_eq, eq_iff, arith, if◌then◌else◌, inl, inr,
}
use mathlib.Core.List.{reverse, reverse-cons, reverse-reverse, Sublistᴰ}
use mathlib.Core.List.Sublistᴰ
use geoflow_updater.Update.Journal.{Stage}
use geoflow_updater.Operation.Stages.{
  maximum_operation_stages, evidence_key, contains, is_new, select, count, fill, chosen,
  bounded_operation_stages,
}
use geoflow_updater.Operation.Stages.Bounds.{Marked, stages_of}

module _ (p : Stage → Bool) where
  -- Some chosen stage passes the test.
  shown : Marked → Bool
  shown xs = any p (chosen xs)

  shown-append : (xs ys : Marked) → shown (xs ++ ys) ≡ (shown xs || shown ys)
  unfolding shown chosen
  shown-append [] ys = refl
  shown-append ((true, s) ∷ xs) ys = ground (arith, shown-append xs ys)
  shown-append ((false, s) ∷ xs) ys = shown-append xs ys

  shown_head : (x : Bool × Stage) (xs : Marked) → (shown xs || shown (x ∷ [])) ≡ shown (x ∷ xs)
  unfolding shown chosen
  shown_head (true, s) xs = ground arith
  shown_head (false, s) xs = ground arith

  shown-reverse : (xs : Marked) → shown (reverse xs) ≡ shown xs
  shown-reverse [] = refl
  shown-reverse (x ∷ xs) =
      ap shown (reverse-cons x xs)
      ∙ shown-append (reverse xs) (x ∷ [])
      ∙ ap (λ b. b || shown (x ∷ [])) (shown-reverse xs)
      ∙ shown_head x xs

  -- The second loop takes no mark away.
  shown-fill : (n : ℕ) (xs : Marked) → shown xs ≡ true → shown (fill n xs) ≡ true
  unfolding shown chosen fill
  shown-fill n [] h = h
  shown-fill n ((true, s) ∷ xs) h = ground (arith, shown-fill n xs)
  shown-fill n ((false, s) ∷ xs) h = ground (arith, shown-fill (suc n) xs)

  any-Sublist : {xs ys : List Stage} → Sublistᴰ xs ys → any p xs ≡ true → any p ys ≡ true
  any-Sublist Sublistᴰ.slnil h = h
  any-Sublist (Sublistᴰ.cons {a = a} {l₂ = ys} d) h = ground (arith, any-Sublist d h)
  any-Sublist (Sublistᴰ.cons-cons {a = a} {b = b} {l₁ = xs} {l₂ = ys} e d) h =
      ground (arith, ap p e, any-Sublist d)

shown-cons :
    (p : Stage → Bool) (x : Bool × Stage) (xs : Marked)
    → shown p xs ≡ true
    → shown p (x ∷ xs) ≡ true
unfolding shown chosen
shown-cons p (true, s) xs h = ground arith
shown-cons p (false, s) xs h = h

unfoldable pub has_key : String → Stage → Bool
has_key key s = str_eq (evidence_key s) key

selects_first :
    (key : String) (seen : List String) (s : Stage) (xs : Marked)
    → str_eq key "" ≡ false
    → contains key seen ≡ false
    → has_key key s ≡ true
    → shown (has_key key) ((is_new seen s, s) ∷ xs) ≡ true
unfolding shown chosen has_key
selects_first key seen s xs k n e =
    let q : evidence_key s ≡ key = (eq_iff (evidence_key s) key).0 e in
    let fresh : is_new seen s ≡ true = rw q (rw (k, n)) in rw (fresh, e)

still_unseen :
    (key : String) (seen : List String) (s : Stage)
    → contains key seen ≡ false
    → has_key key s ≡ false
    → contains key (if is_new seen s then evidence_key s ∷ seen else seen) ≡ false
unfolding has_key
still_unseen key seen s n e = elim (Bool-cases (is_new seen s)) [
  | inl f ↦ rw f (rw e n)
  | inr f ↦ rw f n
]

-- The first stage of each kind of evidence is selected.
shown-select :
    (key : String) (seen : List String) (stages : List Stage)
    → str_eq key "" ≡ false
    → contains key seen ≡ false
    → any (has_key key) stages ≡ true
    → shown (has_key key) (select seen stages) ≡ true
unfolding select
shown-select key seen [] k n h = cc
shown-select key seen (s ∷ stages) k n h = elim (Bool-cases (has_key key s)) [
  | inl e ↦ selects_first key seen s _ k n e
  | inr e ↦ shown-cons (has_key key) _ _ (
      shown-select key (if is_new seen s then evidence_key s ∷ seen else seen) stages k
        (still_unseen key seen s n e) (rw e at h))
]

chosen-Sublist : (xs : Marked) → Sublistᴰ (chosen xs) (stages_of xs)
unfolding chosen stages_of
chosen-Sublist [] = Sublistᴰ.slnil
chosen-Sublist ((true, s) ∷ xs) = Sublistᴰ.cons-cons refl (chosen-Sublist xs)
chosen-Sublist ((false, s) ∷ xs) = Sublistᴰ.cons (chosen-Sublist xs)

stages_of-fill : (n : ℕ) (xs : Marked) → stages_of (fill n xs) ≡ stages_of xs
unfolding stages_of fill
stages_of-fill n [] = refl
stages_of-fill n ((b, s) ∷ xs) = ground (arith, stages_of-fill (if b then n else suc n) xs)

stages_of-append : (xs ys : Marked) → stages_of (xs ++ ys) ≡ stages_of xs ++ stages_of ys
unfolding stages_of
stages_of-append [] ys = refl
stages_of-append (x ∷ xs) ys = ap (◌∷◌ x.1) (stages_of-append xs ys)

stages_of-reverse : (xs : Marked) → stages_of (reverse xs) ≡ reverse (stages_of xs)
unfolding stages_of
stages_of-reverse [] = refl
stages_of-reverse (x ∷ xs) =
    ap stages_of (reverse-cons x xs)
    ∙ stages_of-append (reverse xs) (x ∷ [])
    ∙ ap (λ ys. ys ++ x.1 ∷ []) (stages_of-reverse xs)
    ∙ sym (reverse-cons x.1 (stages_of xs))

stages_of-select :
    (seen : List String) (stages : List Stage) → stages_of (select seen stages) ≡ stages
unfolding stages_of select
stages_of-select seen [] = refl
stages_of-select seen (s ∷ stages) =
    ap (◌∷◌ s) (stages_of-select (if is_new seen s then evidence_key s ∷ seen else seen) stages)

raised : List Stage → Marked
raised stages = reverse (fill (count (select [] stages)) (reverse (select [] stages)))

stages_of-raised : (stages : List Stage) → stages_of (raised stages) ≡ stages
unfolding raised
stages_of-raised stages =
    stages_of-reverse (fill (count (select [] stages)) (reverse (select [] stages)))
    ∙ ap reverse (
        stages_of-fill (count (select [] stages)) (reverse (select [] stages))
        ∙ stages_of-reverse (select [] stages)
        ∙ ap reverse (stages_of-select [] stages))
    ∙ reverse-reverse stages

-- The bounded journal is what is left of the journal when some stages are taken out: no stage is
-- added, changed or moved.
pub bounded_operation_stages-Sublist :
    (stages : List Stage) → Sublistᴰ (bounded_operation_stages stages) stages
unfolding bounded_operation_stages raised
bounded_operation_stages-Sublist stages =
    elim (Bool-cases (leb (length stages) maximum_operation_stages)) [
      | inl h ↦ rw h (Sublistᴰ.refl stages)
      | inr h ↦ rw h (
          subst (Sublistᴰ (chosen (raised stages))) (stages_of-raised stages)
            (chosen-Sublist (raised stages)))
    ]

bool-eq : (a b : Bool) → (a ≡ true → b ≡ true) → (b ≡ true → a ≡ true) → a ≡ b
bool-eq a b f g = ground arith

any-raised :
    (key : String) (stages : List Stage)
    → str_eq key "" ≡ false
    → any (has_key key) stages ≡ true
    → any (has_key key) (chosen (raised stages)) ≡ true
unfolding shown raised
any-raised key stages k h =
    shown-reverse (has_key key) (fill (count (select [] stages)) (reverse (select [] stages)))
    ∙ shown-fill (has_key key) (count (select [] stages)) (reverse (select [] stages))
        (shown-reverse (has_key key) (select [] stages) ∙ shown-select key [] stages k refl h)

any-bounded :
    (key : String) (stages : List Stage)
    → str_eq key "" ≡ false
    → any (has_key key) stages ≡ true
    → any (has_key key) (bounded_operation_stages stages) ≡ true
unfolding bounded_operation_stages raised
any-bounded key stages k h = elim (Bool-cases (leb (length stages) maximum_operation_stages)) [
  | inl e ↦ rw e h
  | inr e ↦ rw e (any-raised key stages k h)
]

pub any_key-bounded_operation_stages :
    (key : String) (stages : List Stage)
    → str_eq key "" ≡ false
    → any (has_key key) (bounded_operation_stages stages) ≡ any (has_key key) stages
any_key-bounded_operation_stages key stages k =
    bool-eq _ _ (any-Sublist (has_key key) (bounded_operation_stages-Sublist stages))
      (any-bounded key stages k)
