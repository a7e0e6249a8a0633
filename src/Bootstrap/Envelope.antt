-- ===== src/Bootstrap/Envelope.antt =====
-- `Sign` and `Verify` of internal/bootstrap/manifest.go. The canonical encoding, the trusted root and
-- the signatures are those of go-securesystemslib, go-tuf and crypto/ed25519. The text of a signature
-- is the list of its code points.
use geoflow_updater.Prelude.{
  ℕ, ◌+◌, ◌-◌, ◌*◌, ◌/◌, ◌%◌, ◌<◌, ◌≡◌, String, Bool, true, false, not, ◌&&◌, Option, none, some,
  List, [], ◌∷◌, length, All, leb, ltb, if◌then◌else◌,
}
use geoflow_updater.Prelude.Result.{ok, err, ◌>>=◌, ◌>>◌, require}
use geoflow_updater.Managed.Release.{Bytes}
use geoflow_updater.Managed.Upgrade.{mem_text}
use geoflow_updater.Bootstrap.Manifest.{Manifest, Checked, validate_manifest}

pub record Signature : Type 0 where
  pub key_id : String
  pub sig : List ℕ

pub record Envelope : Type 0 where
  pub signed : Manifest
  pub signatures : List Signature

-- The role `targets` of a root.
pub record Role : Type 0 where
  pub threshold : ℕ
  pub key_ids : List String

-- What `encoding/hex` makes of a byte and of a text.
abbrev pub hex_digit : ℕ → ℕ
hex_digit n = if ltb n 10 then n + b'0' else n + 87

unfoldable pub hex_encode : List ℕ → List ℕ
hex_encode [] = []
hex_encode (b ∷ bytes) = hex_digit (b / 16) ∷ hex_digit (b % 16) ∷ hex_encode bytes

abbrev pub hex_value : ℕ → Option ℕ
hex_value c =
    if leb b'0' c && leb c b'9'
    then some (c - b'0')
    else if leb b'a' c && leb c b'f'
    then some (c - 87)
    else if leb b'A' c && leb c b'F'
    then some (c - 55)
    else none

abbrev pub hex_byte : Option ℕ → Option ℕ → Option (List ℕ) → Option (List ℕ)
hex_byte (some high) (some low) (some rest) = some ((high * 16 + low) ∷ rest)
hex_byte _ _ _ = none

unfoldable pub hex_decode : List ℕ → Option (List ℕ)
hex_decode [] = some []
hex_decode (c ∷ []) = none
hex_decode (c ∷ d ∷ s) = hex_byte (hex_value c) (hex_value d) (hex_decode s)

-- What the program uses of the libraries.
pub record Signing : Type 1 where
  pub Root : Type 0
  pub Key : Type 0
  pub PublicKey : Type 0
  pub PrivateKey : Type 0
  pub read_root : Bytes → Checked Root  -- `metadata.Root().FromBytes`
  pub targets : Root → Option Role
  pub keys : Root → String → Option Key
  pub encode_canonical : Manifest → Checked Bytes  -- `cjson.EncodeCanonical`
  pub to_public_key : Key → Option PublicKey  -- `ToPublicKey`, where it is an ed25519 key
  pub describe : PrivateKey → Checked Key  -- `metadata.KeyFromPublicKey` of the public key
  pub id : Key → Checked String
  pub sign : PrivateKey → Bytes → Bytes
  pub verify : PublicKey → Bytes → Bytes → Bool
  -- A signature is a list of bytes, and the key that belongs to it accepts it.
  pub sign_bytes : (k : PrivateKey) (m : Bytes) → All (λ b. b < 256) (sign k m)
  pub verify-sign :
      (k : PrivateKey) (key : Key) (public : PublicKey) (m : Bytes)
      → describe k ≡ ok key
      → to_public_key key ≡ some public
      → verify public m (sign k m) ≡ true

module _ (s : Signing) where
  open s use {
    Root, Key, PublicKey, PrivateKey, read_root, targets, keys, encode_canonical, to_public_key,
    describe, id, sign, verify,
  }

  abbrev pub verified_by : Bytes → Option PublicKey → Option (List ℕ) → Bool
  verified_by canonical (some public) (some signature) = verify public canonical signature
  verified_by canonical _ _ = false

  abbrev pub public_of : Option Key → Option PublicKey
  public_of none = none
  public_of (some key) = to_public_key key

  -- Whether the loop of `Verify` counts a candidate.
  unfoldable pub accepted : Root → Role → Bytes → Signature → Bool
  unfolding hex_decode
  accepted root role canonical candidate =
      mem_text candidate.key_id role.key_ids
      && verified_by canonical (public_of (keys root candidate.key_id)) (hex_decode candidate.sig)

  -- The map `verified` after the loop: the distinct keys that were counted.
  unfoldable pub verified : Root → Role → Bytes → List String → List Signature → List String
  unfolding accepted
  verified root role canonical seen [] = seen
  verified root role canonical seen (c ∷ rest) =
      verified root role canonical
        (if accepted root role canonical c && not (mem_text c.key_id seen)
          then c.key_id ∷ seen
          else seen)
        rest

  abbrev pub targets_of : Option Role → Checked Role
  targets_of none = err "trusted root has no targets role"
  targets_of (some role) =
      if leb 1 role.threshold then ok role else err "trusted root has no targets role"

  -- `Verify`.
  unfoldable pub verify_envelope : Envelope → Bytes → ℕ → Checked (Unit {0})
  unfolding validate_manifest verified
  verify_envelope envelope trusted_root now = do
    validate_manifest envelope.signed now
    root ← read_root trusted_root
    role ← targets_of (targets root)
    canonical ← encode_canonical envelope.signed
    require (leb role.threshold (length (verified root role canonical [] envelope.signatures)))
        "bootstrap signature threshold not met"

  -- `Sign`.
  unfoldable pub sign_manifest : Manifest → PrivateKey → Checked Envelope
  unfolding validate_manifest hex_encode
  sign_manifest manifest private_key = do
    validate_manifest manifest 0
    canonical ← encode_canonical manifest
    key ← describe private_key
    key_id ← id key
    ok (record {
      signed = manifest;
      signatures = record { key_id = key_id; sig = hex_encode (sign private_key canonical) } ∷ [];
    })
