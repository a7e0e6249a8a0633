-- ===== src/Operation/Stages/Bounds.antt =====
-- The length of a journal that `boundedOperationStages` of internal/operation/manager.go bounded.
use Prim.Native.Nat.{min}
use geoflow_updater.Prelude.{
  ℕ, suc, ◌+◌, ◌-◌, ◌≤◌, ◌<◌, ◌≡◌, refl, ap, ◌∙◌, inl, inr, String, Bool, true, false, Bool-cases,
  List, [], ◌∷◌, ◌++◌, map, length, length-append, leb, arith, if◌then◌else◌,
}
use mathlib.Core.List.{reverse, reverse-cons}
use geoflow_updater.Operation.Stages.Keys.{count-select}
use geoflow_updater.Update.Journal.{Stage}
use geoflow_updater.Operation.Stages.{
  maximum_operation_stages, evidence_key, is_new, select, count, fill, chosen,
  bounded_operation_stages,
}

abbrev pub Marked : Type 0
Marked = List (Bool × Stage)

count-append : (xs ys : Marked) → count (xs ++ ys) ≡ count xs + count ys
unfolding count
count-append [] ys = omega arith
count-append ((true, s) ∷ xs) ys = omega (arith, count-append xs ys)
count-append ((false, s) ∷ xs) ys = count-append xs ys

count-reverse : (xs : Marked) → count (reverse xs) ≡ count xs
count-reverse [] = refl
count-reverse (x ∷ xs) =
    ap count (reverse-cons x xs)
    ∙ count-append (reverse xs) (x ∷ [])
    ∙ omega (arith, count-reverse xs, count-append (x ∷ []) xs)

length-chosen : (xs : Marked) → length (chosen xs) ≡ count xs
unfolding chosen count
length-chosen [] = refl
length-chosen ((true, s) ∷ xs) = ap suc (length-chosen xs)
length-chosen ((false, s) ∷ xs) = length-chosen xs

count-le-length : (xs : Marked) → count xs ≤ length xs
unfolding count
count-le-length [] = omega arith
count-le-length ((true, s) ∷ xs) = omega (arith, count-le-length xs)
count-le-length ((false, s) ∷ xs) = omega (arith, count-le-length xs)

-- The second loop raises marks until there are enough, or no more.
count-fill :
    (n : ℕ) (xs : Marked)
    → n ≤ maximum_operation_stages
    → count (fill n xs) ≡ min (count xs + (maximum_operation_stages - n)) (length xs)
unfolding fill count
count-fill n [] h = omega arith
count-fill n ((true, s) ∷ xs) h = ground (arith, count-fill n xs, count-le-length xs)
count-fill n ((false, s) ∷ xs) h = ground (arith, count-fill (suc n) xs, count-le-length xs)

length-select :
    (seen : List String) (stages : List Stage) → length (select seen stages) ≡ length stages
unfolding select
length-select seen [] = refl
length-select seen (s ∷ stages) =
    ap suc (length-select (if is_new seen s then evidence_key s ∷ seen else seen) stages)

length-reverse : {A : Type 0} (xs : List A) → length (reverse xs) ≡ length xs
length-reverse [] = refl
length-reverse (x ∷ xs) =
    ap length (reverse-cons x xs)
    ∙ length-append (reverse xs) (x ∷ [])
    ∙ omega (arith, length-reverse xs)

unfoldable pub stages_of : Marked → List Stage
stages_of xs = map (λ x. x.1) xs

-- A bounded journal is as long as the journal, up to the maximum of a hundred stages, exactly.
pub length-bounded_operation_stages :
    (stages : List Stage)
    → length (bounded_operation_stages stages) ≡ min maximum_operation_stages (length stages)
unfolding bounded_operation_stages
length-bounded_operation_stages stages =
    elim (Bool-cases (leb (length stages) maximum_operation_stages)) [
      | inl h ↦ rw h (ground arith)
      | inr h ↦ rw h (
          length-chosen (reverse (fill (count (select [] stages)) (reverse (select [] stages))))
          ∙ count-reverse (fill (count (select [] stages)) (reverse (select [] stages)))
          ∙ count-fill (count (select [] stages)) (reverse (select [] stages))
              (omega (arith, count-select stages))
          ∙ omega (
            arith,
            count-select stages,
            count-reverse (select [] stages),
            length-reverse (select [] stages),
            length-select [] stages,
            over stages h,
          ))
    ]
  where
    over :
        (stages : List Stage)
        → leb (length stages) maximum_operation_stages ≡ false
        → maximum_operation_stages < length stages
    over stages h = ground arith
