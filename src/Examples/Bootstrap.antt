-- ===== src/Examples/Bootstrap.antt =====
-- A manifest with one asset, and a signature that stands for the checksum of a text.
use geoflow_updater.Prelude.{
  ◌%◌, ◌<◌, ◌≡◌, ◌↔◌, refl, String, Bool, true, false, Option, some, [], ◌∷◌, length, All, ◌==◌,
  ==_iff, arith,
}
use geoflow_updater.Prelude.Regex.{is_digit, is_lower, is_upper, is_hex, matches}
use geoflow_updater.Prelude.Result.{Result, ok}
use geoflow_updater.Coordination.Patterns.{hex64}
use geoflow_updater.Managed.Release.{Bytes}
use geoflow_updater.Managed.Validate.{version_pattern}
use geoflow_updater.Bootstrap.Manifest.{Manifest, release_prefix, check_assets, validate_manifest}
use geoflow_updater.Bootstrap.Envelope.{
  Envelope, Signing, hex_encode, sign_manifest, verify_envelope,
}
use geoflow_updater.Bootstrap.Trusted.{
  IsTrusted, verify_envelope_iff, IsSigner, verify_envelope-sign_manifest,
}

abbrev checksum : Bytes → Bytes
checksum m = (length m % 256) ∷ []

abbrev is_checksum : Bytes → Bytes → Bool
is_checksum m (b ∷ []) = b == length m % 256
is_checksum m _ = false

checksum_bytes : (k : Unit {0}) (m : Bytes) → All (λ b. b < 256) (checksum m)
checksum_bytes k m = (omega arith, tt)

checksum-is_checksum :
    (k : Unit {0}) (key : String) (public : Unit {0}) (m : Bytes)
    → ◌≡◌ {A = Result String String} (ok "key-1") (ok key)
    → ◌≡◌ {A = Option (Unit {0})} (some tt) (some public)
    → is_checksum m (checksum m) ≡ true
checksum-is_checksum k key public m d e = (==_iff (length m % 256) (length m % 256)).1 refl

abbrev checksums : Signing
checksums = record {
  Root = Unit;
  Key = String;
  PublicKey = Unit;
  PrivateKey = Unit;
  read_root = λ r. ok tt;
  targets = λ r. some (record { threshold = 1; key_ids = "key-1" ∷ [] });
  keys = λ r k. some "key-1";
  encode_canonical = λ m. ok (1 ∷ 2 ∷ 3 ∷ []);
  to_public_key = λ k. some tt;
  describe = λ k. ok "key-1";
  id = λ k. ok "key-1";
  sign = λ k m. checksum m;
  verify = λ p m s. is_checksum m s;
  sign_bytes = checksum_bytes;
  verify-sign = checksum-is_checksum;
}

abbrev manifest : Manifest
manifest = record {
  schema_version = 1;
  release_sequence = 7;
  updater_version = "1.2.3";
  expires = 1000;
  assets =
      (
        "linux-amd64",
        record {
          url =
              "https://github.com/yaojingang/geoflow-updater/releases/download/v1.2.3/geoflow-updater";
          sha256 = "0123456789abcdef0123456789abcdef0123456789abcdef0123456789abcdef";
          size = 1024;
        },
      )
      ∷ [];
}

abbrev signed_manifest : Envelope
signed_manifest = record {
  signed = manifest;
  signatures = record { key_id = "key-1"; sig = b'0' ∷ b'3' ∷ [] } ∷ [];
}

signed_sample : sign_manifest checksums manifest tt ≡ ok signed_manifest
unfolding sign_manifest validate_manifest check_assets release_prefix version_pattern hex_encode
    hex64 matches is_hex is_digit is_lower is_upper
signed_sample = refl

signer : IsSigner checksums tt []
signer = record {
  root = tt;
  role = record { threshold = 1; key_ids = "key-1" ∷ [] };
  key = "key-1";
  public = tt;
  key_id = "key-1";
  read = refl;
  trusted = refl;
  single = refl;
  described = refl;
  named = refl;
  authorized = refl;
  held = refl;
  usable = refl;
}

verify_envelope-sign_manifest_example : verify_envelope checksums signed_manifest [] 999 ≡ ok tt
verify_envelope-sign_manifest_example =
    verify_envelope-sign_manifest checksums manifest tt [] 999 signed_manifest signed_sample signer
      (omega arith)

verify_envelope_iff_example :
    (verify_envelope checksums signed_manifest [] 999 ≡ ok tt)
    ↔ IsTrusted checksums signed_manifest [] 999
verify_envelope_iff_example = verify_envelope_iff checksums signed_manifest [] 999
