-- ===== src/Bootstrap/Trusted.antt =====
-- When `Verify` of internal/bootstrap/manifest.go accepts an envelope, and that it accepts what `Sign`
-- made.
use geoflow_updater.Prelude.{
  ℕ, ◌+◌, ◌*◌, ◌/◌, ◌%◌, ◌≤◌, ◌<◌, ◌≡◌, ◌↔◌, refl, sym, ap, subst, ◌∙◌, String, true, not, ◌||◌,
  Option, none, some, List, [], ◌∷◌, length, All, leb, leb→le, ltb, ◌==◌, eq_refl, arith,
}
use geoflow_updater.Prelude.Result.{ok, >>=-eq-ok, require-eq-ok, ok-injective}
use geoflow_updater.Managed.Release.{Bytes}
use geoflow_updater.Managed.Upgrade.{mem_text}
use geoflow_updater.Managed.Valid.{required}
use geoflow_updater.Managed.Validate.{version_pattern}
use geoflow_updater.Bootstrap.Manifest.{Manifest, validate_manifest}
use geoflow_updater.Bootstrap.Envelope.{
  Envelope, Role, Signing, hex_encode, hex_decode, hex_value, hex_digit, accepted, verified,
  targets_of, verify_envelope, sign_manifest,
}
use geoflow_updater.Bootstrap.Threshold.{Enough, Enough-verified, verified-Enough}

le→leb : (a b : ℕ) → a ≤ b → leb a b ≡ true
le→leb a b h = ground arith

-- The manifest is valid and has not expired, and distinct keys of the trusted role, as many as its
-- threshold, have each signed it.
pub record IsTrusted (s : Signing) (envelope : Envelope) (trusted_root : Bytes) (now : ℕ)
    : Type 0 where
  pub root : s.Root
  pub role : Role
  pub canonical : Bytes
  pub valid : validate_manifest envelope.signed now ≡ ok tt
  pub read : s.read_root trusted_root ≡ ok root
  pub trusted : s.targets root ≡ some role
  pub positive : 1 ≤ role.threshold
  pub encoded : s.encode_canonical envelope.signed ≡ ok canonical
  pub enough : Enough s root role canonical envelope.signatures

targets_of-eq-ok :
    (s : Signing) (o : Option Role) (role : Role)
    → targets_of s o ≡ ok role
    → (o ≡ some role) × (1 ≤ role.threshold)
targets_of-eq-ok s none role h = absurd (ground arith)
targets_of-eq-ok s (some r) role h = ground arith

module _ (s : Signing) (envelope : Envelope) (trusted_root : Bytes) (now : ℕ) where
  IsTrusted-of :
      verify_envelope s envelope trusted_root now ≡ ok tt → IsTrusted s envelope trusted_root now
  unfolding verify_envelope
  IsTrusted-of h =
      let (_, v, h₁) = >>=-eq-ok (validate_manifest envelope.signed now) _ h in
      let (root, r, h₂) = >>=-eq-ok (s.read_root trusted_root) _ h₁ in
      let (role, t, h₃) = >>=-eq-ok (targets_of s (s.targets root)) _ h₂ in
      let (canonical, e, h₄) = >>=-eq-ok (s.encode_canonical envelope.signed) _ h₃ in
      let (found, positive) = targets_of-eq-ok s (s.targets root) role t in
      let n =
        leb→le role.threshold (length (verified s root role canonical [] envelope.signatures))
          (required _ _ h₄) in
      record {
        root = root;
        role = role;
        canonical = canonical;
        valid = v;
        read = r;
        trusted = found;
        positive = positive;
        encoded = e;
        enough = Enough-verified s root role canonical envelope.signatures n;
      }

  verify_of :
      IsTrusted s envelope trusted_root now → verify_envelope s envelope trusted_root now ≡ ok tt
  unfolding verify_envelope
  verify_of t =
      let n = verified-Enough s t.root t.role t.canonical envelope.signatures t.enough in
      rw (t.valid, t.read)
        (rw t.trusted (
          rw (le→leb 1 t.role.threshold t.positive, t.encoded)
            (rw (le→leb t.role.threshold _ n) refl)))

  -- `Verify` accepts exactly the envelopes whose manifest is valid and has not expired, and which as
  -- many distinct keys of the trusted role as its threshold have signed.
  pub verify_envelope_iff :
      (verify_envelope s envelope trusted_root now ≡ ok tt) ↔ IsTrusted s envelope trusted_root now
  verify_envelope_iff = (IsTrusted-of, verify_of)

-- A digit is read back.
hex_value-hex_digit : (n : ℕ) → n < 16 → hex_value (hex_digit n) ≡ some n
hex_value-hex_digit n h = ground arith

hex_decode-hex_encode :
    (bytes : List ℕ) → All (λ b. b < 256) bytes → hex_decode (hex_encode bytes) ≡ some bytes
unfolding hex_encode hex_decode
hex_decode-hex_encode [] h = refl
hex_decode-hex_encode (b ∷ bytes) h =
    let high = hex_value-hex_digit (b / 16) (omega (arith, h.0)) in
    let low = hex_value-hex_digit (b % 16) (omega arith) in
    let whole : b / 16 * 16 + b % 16 ≡ b = omega arith in
    rw (high, low) (rw (hex_decode-hex_encode bytes h.1) (rw whole refl))

validate_later :
    (m : Manifest) (now : ℕ)
    → validate_manifest m 0 ≡ ok tt
    → now < m.expires
    → validate_manifest m now ≡ ok tt
unfolding validate_manifest
validate_later m now h later =
    let (a, h₁) = require-eq-ok (m.schema_version == 1) _ _ h in
    let (b, h₂) = require-eq-ok (not (m.release_sequence == 0)) _ _ h₁ in
    let (c, h₃) = require-eq-ok (version_pattern m.updater_version) _ _ h₂ in
    let (d, h₄) = require-eq-ok (not (m.expires == 0)) _ _ h₃ in
    let (f, h₅) = require-eq-ok (not (length m.assets == 0)) _ _ h₄ in
    let before : (now == 0 || ltb now m.expires) ≡ true = ground arith in
    simp (a, b, c, d, before, f) h₅

module _ (s : Signing) where
  -- A key that the root trusts on its own.
  pub record IsSigner (private_key : s.PrivateKey) (trusted_root : Bytes) : Type 0 where
    pub root : s.Root
    pub role : Role
    pub key : s.Key
    pub public : s.PublicKey
    pub key_id : String
    pub read : s.read_root trusted_root ≡ ok root
    pub trusted : s.targets root ≡ some role
    pub single : role.threshold ≡ 1
    pub described : s.describe private_key ≡ ok key
    pub named : s.id key ≡ ok key_id
    pub authorized : mem_text key_id role.key_ids ≡ true
    pub held : s.keys root key_id ≡ some key
    pub usable : s.to_public_key key ≡ some public

  signature_accepted :
      (private_key : s.PrivateKey) (trusted_root canonical : Bytes)
      (t : IsSigner private_key trusted_root)
      → accepted s t.root t.role canonical
          (record { key_id = t.key_id; sig = hex_encode (s.sign private_key canonical) })
        ≡ true
  unfolding accepted
  signature_accepted private_key trusted_root canonical t =
      rw (hex_decode-hex_encode (s.sign private_key canonical) (s.sign_bytes private_key canonical))
        (rw (t.authorized, t.held)
          (rw t.usable (s.verify-sign private_key t.key t.public canonical t.described t.usable)))

  -- What `Sign` made with a key that the trusted root accepts on its own passes `Verify` until the
  -- manifest expires.
  pub verify_envelope-sign_manifest :
      (m : Manifest) (private_key : s.PrivateKey) (trusted_root : Bytes) (now : ℕ)
      (envelope : Envelope)
      → sign_manifest s m private_key ≡ ok envelope
      → IsSigner private_key trusted_root
      → now < m.expires
      → verify_envelope s envelope trusted_root now ≡ ok tt
  unfolding sign_manifest
  verify_envelope-sign_manifest m private_key trusted_root now envelope h t later =
      let (_, v, h₁) = >>=-eq-ok (validate_manifest m 0) _ h in
      let (canonical, c, h₂) = >>=-eq-ok (s.encode_canonical m) _ h₁ in
      let (key, d, h₃) = >>=-eq-ok (s.describe private_key) _ h₂ in
      let (key_id, i, h₄) = >>=-eq-ok (s.id key) _ h₃ in
      let same_key : key ≡ t.key = ok-injective (sym d ∙ t.described) in
      let same_id : key_id ≡ t.key_id = ok-injective (sym i ∙ ap s.id same_key ∙ t.named) in
      subst (λ e. verify_envelope s e trusted_root now ≡ ok tt) (ok-injective h₄)
        (subst
          (λ k.
            verify_envelope s
              (record {
                signed = m;
                signatures =
                    record { key_id = k; sig = hex_encode (s.sign private_key canonical) } ∷ [];
              })
              trusted_root now
            ≡ ok tt)
          (sym same_id)
          (verify_of s _ trusted_root now (record {
            root = t.root;
            role = t.role;
            canonical = canonical;
            valid = validate_later m now v later;
            read = t.read;
            trusted = t.trusted;
            positive = omega (arith, t.single);
            encoded = c;
            enough = (
              t.key_id ∷ [],
              (refl, tt),
              (
                rw (eq_refl t.key_id, signature_accepted private_key trusted_root canonical t) refl,
                tt,
              ),
              omega (arith, t.single),
            );
          })))
