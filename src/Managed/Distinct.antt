-- ===== src/Managed/Distinct.antt =====
-- Texts that differ from each other, as the loops of internal/managed/upgrade.go require them.
use geoflow_updater.Prelude.{
  suc, ◌≤◌, ◌≡◌, refl, String, true, false, List, [], ◌∷◌, length, All, str_eq, eq_iff,
  if◌then◌else◌, arith,
}
use geoflow_updater.Managed.Upgrade.{mem_text}

abbrev pub Distinct : List String → Type 0
Distinct [] = Unit
Distinct (x ∷ xs) = (mem_text x xs ≡ false) × Distinct xs

-- The list without its first occurrence of a text.
without : String → List String → List String
without x [] = []
without x (y ∷ ys) = let rest = y ∷ without x ys in if str_eq y x then ys else rest

length-without :
    (x : String) (ys : List String) → mem_text x ys ≡ true → suc (length (without x ys)) ≡ length ys
unfolding without
length-without x [] h = cc
length-without x (y ∷ ys) h = ground (arith, length-without x ys)

mem-without :
    (x z : String) (ys : List String)
    → str_eq x z ≡ false
    → mem_text z ys ≡ true
    → mem_text z (without x ys) ≡ true
unfolding without
mem-without x z [] n h = cc
mem-without x z (y ∷ ys) n h =
    ground (arith, mem-without x z ys, eq_iff y x, eq_iff y z, eq_iff x z)

-- What is left of the list after the first text is taken out holds the others.
All-without :
    (x : String) (xs ys : List String)
    → mem_text x xs ≡ false
    → All (λ z. mem_text z ys ≡ true) xs
    → All (λ z. mem_text z (without x ys) ≡ true) xs
All-without x [] ys n h = tt
All-without x (z ∷ xs) ys n h = (
  mem-without x z ys (ground (arith, eq_iff x z, eq_iff z x)) h.0,
  All-without x xs ys (ground arith) h.1,
)

-- Distinct texts of a list are at most as many as the list has.
pub length-Distinct :
    (xs ys : List String) → Distinct xs → All (λ z. mem_text z ys ≡ true) xs → length xs ≤ length ys
length-Distinct [] ys d h = omega arith
length-Distinct (x ∷ xs) ys d h = omega (
  arith,
  length-without x ys h.0,
  length-Distinct xs (without x ys) d.1 (All-without x xs ys d.0 h.1),
)

-- A loop that refuses what it has seen: nothing seen before is in the list.
abbrev pub IsApart : List String → List String → Type 0
IsApart seen xs = All (λ x. mem_text x seen ≡ false) xs

pub IsApart-cons :
    (x : String) (seen xs : List String)
    → IsApart (x ∷ seen) xs
    → IsApart seen xs × (mem_text x xs ≡ false)
IsApart-cons x seen [] h = (tt, refl)
IsApart-cons x seen (y ∷ xs) h =
    let (a, m) = IsApart-cons x seen xs h.1 in
    ((ground arith, a), ground (arith, eq_iff x y, eq_iff y x))
