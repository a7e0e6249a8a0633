-- ===== src/Bootstrap/Threshold.antt =====
-- When `Verify` of internal/bootstrap/manifest.go accepts an envelope, and that it accepts what `Sign`
-- made.
use geoflow_updater.Prelude.{
  ◌≤◌, ◌≡◌, refl, sym, ◌∙◌, String, Bool, true, not, ◌&&◌, ◌||◌, List, [], ◌∷◌, length, any, All,
  str_eq, eq_iff, eq_refl, if◌then◌else◌, arith,
}
use geoflow_updater.Managed.Release.{Bytes}
use geoflow_updater.Managed.Upgrade.{mem_text}
use geoflow_updater.Managed.Distinct.{Distinct, length-Distinct}
use geoflow_updater.Bootstrap.Envelope.{Signature, Role, Signing, accepted, verified}

counted_step :
    (old new : Bool) (seen : List String) (c key_id : String) (more : Bool)
    → mem_text c seen ≡ old
    → (mem_text key_id (if new && not (mem_text c seen) then c ∷ seen else seen) || more)
      ≡ (mem_text key_id seen || ((str_eq c key_id && new) || more))
counted_step old new seen c key_id more e = ground (arith, eq_iff c key_id)

-- Each element of a list is among its elements.
weaker :
    (x : String) (xs ys : List String)
    → All (λ i. mem_text i ys ≡ true) xs
    → All (λ i. mem_text i (x ∷ ys) ≡ true) xs
weaker x [] ys h = tt
weaker x (y ∷ xs) ys h = (ground arith, weaker x xs ys h.1)

all_members : (xs : List String) → All (λ i. mem_text i xs ≡ true) xs
all_members [] = tt
all_members (x ∷ xs) = (ground (arith, eq_refl x), weaker x xs xs (all_members xs))

Distinct-step :
    (new : Bool) (c : String) (seen : List String)
    → Distinct seen
    → Distinct (if new && not (mem_text c seen) then c ∷ seen else seen)
Distinct-step new c seen d = ground arith

module _ (s : Signing) (root : s.Root) (role : Role) (canonical : Bytes) where
  -- Whether a key has a signature that counts.
  abbrev pub is_counted : List Signature → String → Bool
  is_counted signatures key_id =
      any (λ (c : Signature). str_eq c.key_id key_id && accepted s root role canonical c) signatures

  -- The loop counts the keys that it had seen and those with a signature that counts.
  mem-verified :
      (seen : List String) (signatures : List Signature) (key_id : String)
      → mem_text key_id (verified s root role canonical seen signatures)
        ≡ (mem_text key_id seen || is_counted signatures key_id)
  unfolding verified
  mem-verified seen [] key_id = ground arith
  mem-verified seen (c ∷ rest) key_id =
      mem-verified
        (if accepted s root role canonical c && not (mem_text c.key_id seen)
          then c.key_id ∷ seen
          else seen)
        rest key_id
      ∙ counted_step (mem_text c.key_id seen) (accepted s root role canonical c) seen c.key_id
          key_id (is_counted rest key_id) refl

  verified-Distinct :
      (seen : List String) (signatures : List Signature)
      → Distinct seen
      → Distinct (verified s root role canonical seen signatures)
  unfolding verified
  verified-Distinct seen [] d = d
  verified-Distinct seen (c ∷ rest) d =
      verified-Distinct
        (if accepted s root role canonical c && not (mem_text c.key_id seen)
          then c.key_id ∷ seen
          else seen)
        rest (Distinct-step (accepted s root role canonical c) c.key_id seen d)

  -- Distinct keys, as many as the threshold, each authorised and with a valid signature.
  abbrev pub Enough : List Signature → Type 0
  Enough signatures =
      (key_ids : List String) × Distinct key_ids
      × All (λ i. is_counted signatures i ≡ true) key_ids
      × (role.threshold ≤ length key_ids)

  count_all :
      (signatures : List Signature) (key_ids : List String)
      → All (λ i. mem_text i (verified s root role canonical [] signatures) ≡ true) key_ids
      → All (λ i. is_counted signatures i ≡ true) key_ids
  count_all signatures [] h = tt
  count_all signatures (i ∷ is) h =
      (sym (mem-verified [] signatures i) ∙ h.0, count_all signatures is h.1)

  find_all :
      (signatures : List Signature) (key_ids : List String)
      → All (λ i. is_counted signatures i ≡ true) key_ids
      → All (λ i. mem_text i (verified s root role canonical [] signatures) ≡ true) key_ids
  find_all signatures [] h = tt
  find_all signatures (i ∷ is) h = (mem-verified [] signatures i ∙ h.0, find_all signatures is h.1)

  pub Enough-verified :
      (signatures : List Signature)
      → role.threshold ≤ length (verified s root role canonical [] signatures)
      → Enough signatures
  Enough-verified signatures h =
      let ids = verified s root role canonical [] signatures in
      (ids, verified-Distinct [] signatures tt, count_all signatures ids (all_members ids), h)

  pub verified-Enough :
      (signatures : List Signature)
      → Enough signatures
      → role.threshold ≤ length (verified s root role canonical [] signatures)
  verified-Enough signatures (ids, d, h, n) = omega (
    arith,
    n,
    length-Distinct ids (verified s root role canonical [] signatures) d
        (find_all signatures ids h),
  )
