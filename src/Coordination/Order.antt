-- ===== src/Coordination/Order.antt =====
-- The order of operations: the latest operation has the greatest sequence number.
use geoflow_updater.Prelude.{
  ℕ, ◌+◌, ◌≤◌, ◌<◌, ◌≡◌, refl, sym, ap, subst, ◌∙◌, Memᴰ, inl, inr, ◌≢◌, String, true, not,
  Bool-cases, ◌⊎◌, List, [], ◌∷◌, ◌++◌, All, arith, ltb, ◌==◌, str_eq, if◌then◌else◌,
}
use geoflow_updater.Prelude.Result.{
  Result, ok, err, ◌>>=◌, require, >>=-eq-ok, bind_assoc, require-eq-ok, ok-injective,
}
use geoflow_updater.Coordination.Records.{Admission, Head}
use geoflow_updater.Coordination.Files.{Failure, not_exist, conflicting_order, Store}
use geoflow_updater.Coordination.Store.{
  admissions, head, start_head, clash, newer, zero_head, head_of, advance, latest, next_sequence,
  sequence_after,
}

-- Every admission is numbered at most `n`.
abbrev pub IsBelow : ℕ → List Admission → Type 0
IsBelow n records = All (λ a. a.sequence ≤ n) records

pub IsBelow-mono :
    (n m : ℕ) (records : List Admission) → n ≤ m → IsBelow n records → IsBelow m records
IsBelow-mono n m [] h b = tt
IsBelow-mono n m (a ∷ records) h b = (omega arith, IsBelow-mono n m records h b.1)

newer_le :
    (id : String) (h : Head) (a : Admission) (f : Head)
    → (newer id h a).sequence ≤ f.sequence
    → h.sequence ≤ f.sequence
newer_le id h a f m = ground arith

newer_above :
    (id : String) (h : Head) (a : Admission) (f : Head)
    → (newer id h a).sequence ≤ f.sequence
    → a.sequence ≤ f.sequence
newer_above id h a f m = ground arith

-- The loop of `Latest` ends at or above where it began, and above all that it passed.
pub advance_max :
    (id : String) (h : Head) (records : List Admission) (f : Head)
    → advance id h records ≡ ok f
    → (h.sequence ≤ f.sequence) × IsBelow f.sequence records
unfolding advance
advance_max id h [] f e = ground arith
advance_max id h (a ∷ records) f e =
    let (_, e') =
      require-eq-ok (not (clash h a)) conflicting_order (advance id (newer id h a) records) e in
    let (m, b) = advance_max id (newer id h a) records f e' in
    (newer_le id h a f m, (newer_above id h a f m, b))

pub advance-append :
    (id : String) (h : Head) (xs ys : List Admission)
    → advance id h (xs ++ ys) ≡ (advance id h xs >>= λ f. advance id f ys)
unfolding advance
advance-append id h [] ys = refl
advance-append id h (a ∷ xs) ys = rw (advance-append id (newer id h a) xs ys) (
    sym (
      bind_assoc (require (not (clash h a)) conflicting_order) (λ _. advance id (newer id h a) xs)
        (λ f. advance id f ys)))

-- The head that `Latest` finds among the records that were read.
abbrev pub tip : Store → List Admission → Result Failure Head
tip s records = start_head (head s "primary") records >>= λ start. advance "primary" start records

pub latest_of_admissions :
    (s : Store) (records : List Admission)
    → admissions s "primary" ≡ ok records
    → latest s "primary"
      ≡ (tip s records >>= λ found. require (not (found.sequence == 0)) not_exist >>= λ _. ok found)
unfolding latest
latest_of_admissions s records e = rw e (
    sym (
      bind_assoc (start_head (head s "primary") records) (λ start. advance "primary" start records)
        (λ found. require (not (found.sequence == 0)) not_exist >>= λ _. ok found)))

start_head-ne :
    (h : Result Failure Head) (records : List Admission) → start_head h records ≢ err not_exist
unfolding start_head
start_head-ne h records e = ground arith

advance-ne :
    (id : String) (h : Head) (records : List Admission) → advance id h records ≢ err not_exist
unfolding advance
advance-ne id h [] e = cc
advance-ne id h (a ∷ records) e = ground (arith, advance-ne id (newer id h a) records)

tip-ne : (s : Store) (records : List Admission) → tip s records ≢ err not_exist
tip-ne s records =
    go (start_head (head s "primary") records) (start_head-ne (head s "primary") records)
  where
    go :
        (r : Result Failure Head)
        → r ≢ err not_exist
        → (r >>= λ start. advance "primary" start records) ≢ err not_exist
    go (ok h) ne = advance-ne "primary" h records
    go (err x) ne = ne

after_tip :
    (t : Result Failure Head) (n : ℕ)
    → t ≢ err not_exist
    → sequence_after
        (t >>= λ found. require (not (found.sequence == 0)) not_exist >>= λ _. ok found)
      ≡ ok n
    → (f : Head) × (t ≡ ok f) × (n ≡ f.sequence + 1)
unfolding sequence_after
after_tip (ok f) n ne h = (f, refl, ground arith)
after_tip (err e) n ne h = absurd (ground arith)

-- A new sequence number follows that of the latest operation.
pub next_sequence-tip :
    (s : Store) (records : List Admission) (n : ℕ)
    → admissions s "primary" ≡ ok records
    → next_sequence s "primary" ≡ ok n
    → (f : Head) × (tip s records ≡ ok f) × (n ≡ f.sequence + 1)
unfolding next_sequence
next_sequence-tip s records n e h =
    after_tip (tip s records) n (tip-ne s records) (rw (← latest_of_admissions s records e) h)

-- The loop of `Latest` ends with what it began with or with one of the admissions.
advance_from :
    (id : String) (h : Head) (records : List Admission) (f : Head)
    → advance id h records ≡ ok f
    → (f ≡ h) ⊎ ((a : Admission) × Memᴰ a records × (f ≡ head_of id a))
unfolding advance
advance_from id h [] f e = inl (ground arith)
advance_from id h (a ∷ records) f e =
    let (_, e') =
      require-eq-ok (not (clash h a)) conflicting_order (advance id (newer id h a) records) e in
    elim (advance_from id (newer id h a) records f e') [
      | inr (b, m, p) ↦ inr (b, Memᴰ.tail m, p)
      | inl p ↦ elim (Bool-cases (ltb h.sequence a.sequence)) [
        | inl yes' ↦ inr (a, Memᴰ.head refl, p ∙ ap (λ b. if b then head_of id a else h) yes')
        | inr no' ↦ inl (p ∙ ap (λ b. if b then head_of id a else h) no')
      ]
    ]

start_head_from :
    (r : Result Failure Head) (records : List Admission) (start : Head)
    → start_head r records ≡ ok start
    → (start ≡ zero_head) ⊎ ((r ≡ ok start) × (str_eq start.origin "legacy" ≡ true))
unfolding start_head
start_head_from (ok h) records start e = elim (Bool-cases (str_eq h.origin "legacy")) [
  | inl legacy ↦ let p : ok h ≡ ok start = rw legacy at e in inr (p, ground arith)
  | inr other ↦ inl (ground arith)
]
start_head_from (err x) records start e = inl (ground arith)

-- Where the latest operation stands: in the head of a start without a request, or in a receipt.
abbrev pub IsRecorded : Store → List Admission → Head → Type 0
IsRecorded s records h =
    ((head s "primary" ≡ ok h) × (str_eq h.origin "legacy" ≡ true))
    ⊎ ((a : Admission) × Memᴰ a records × (h ≡ head_of "primary" a))

origin :
    (s : Store) (records : List Admission) (found start : Head)
    → not (found.sequence == 0) ≡ true
    → (found ≡ start) ⊎ ((a : Admission) × Memᴰ a records × (found ≡ head_of "primary" a))
    → (start ≡ zero_head) ⊎ ((head s "primary" ≡ ok start) × (str_eq start.origin "legacy" ≡ true))
    → IsRecorded s records found
origin s records found start n (inr m) q = inr m
origin s records found start n (inl p) (inl z) =
    absurd (ground (arith, ap (λ (x : Head). x.sequence) (p ∙ z)))
origin s records found start n (inl p) (inr (r, o)) =
    inl (r ∙ ap ok (sym p), ap (λ (x : Head). str_eq x.origin "legacy") p ∙ o)

abbrev pub IsTop : Store → List Admission → Head → Type 0
IsTop s records h = (0 < h.sequence) × IsBelow h.sequence records × IsRecorded s records h

tip-IsTop :
    (s : Store) (records : List Admission) (found : Head)
    → tip s records ≡ ok found
    → not (found.sequence == 0) ≡ true
    → IsTop s records found
tip-IsTop s records found t positive =
    let (start, b, a) =
      >>=-eq-ok (start_head (head s "primary") records) (λ start. advance "primary" start records)
        t in
    (
      ground arith,
      (advance_max "primary" start records found a).1,
      origin s records found start positive (advance_from "primary" start records found a)
          (start_head_from (head s "primary") records start b),
    )

-- When the store's admissions can be read and `Latest` finds an operation, its sequence number is
-- positive and at least that of every admission, and it is the legacy head or one of the admissions.
pub latest_max :
    (s : Store) (records : List Admission) (h : Head)
    → admissions s "primary" ≡ ok records
    → latest s "primary" ≡ ok h
    → IsTop s records h
latest_max s records h e l =
    let (found, t, r) =
      >>=-eq-ok (tip s records)
        (λ found. require (not (found.sequence == 0)) not_exist >>= λ _. ok found)
        (rw (latest_of_admissions s records e) at l) in
    let (positive, same) = require-eq-ok (not (found.sequence == 0)) not_exist (ok found) r in
    subst (IsTop s records) (ok-injective same) (tip-IsTop s records found t positive)
