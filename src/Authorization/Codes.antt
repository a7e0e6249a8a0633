-- ===== src/Authorization/Codes.antt =====
-- The secrets and the codes of internal/authorization/service.go. A code is the list of its code
-- points.
use geoflow_updater.Prelude.{
  ℕ, zero, suc, ◌+◌, ◌*◌, ◌/◌, ◌%◌, ◌^◌, String, Bool, ◌&&◌, ◌||◌, Option, none, some, List, [],
  ◌∷◌, ◌++◌, leb, concat, if◌then◌else◌,
}
use geoflow_updater.Prelude.Regex.{Class, codes, is_digit, is_upper, matches}
use geoflow_updater.Prelude.Result.{Result, ok, err, ◌>>=◌, ◌>>◌, require}
use geoflow_updater.Authorization.Attempts.{
  Refusal, invalid, secret_invalid, unconfigured, valid_scope,
}

-- Base 32 and HMAC of Go's standard library, on bytes as numbers.
pub record Crypto : Type 0 where
  pub decode : String → Option (List ℕ)
  pub encode : List ℕ → String
  pub hmac_sha256 : List ℕ → String → List ℕ
  pub hmac_sha1 : List ℕ → List ℕ → List ℕ

unfoldable pub code_pattern : String → Bool
unfolding is_digit matches
code_pattern code = matches ((6, is_digit) ∷ []) (codes code)

is_base32 : Class
unfolding is_upper
is_base32 c = is_upper c || (leb b'2' c && leb c b'7')

unfoldable pub secret_pattern : String → Bool
unfolding is_base32 matches
secret_pattern secret = matches ((32, is_base32) ∷ []) (codes secret)

-- `readSecret` of a file that holds the text, trimmed, where it is private and bounded.
unfoldable pub read_secret : Option (Option String) → Result Refusal String
unfolding secret_pattern
read_secret none = err unconfigured
read_secret (some none) = err secret_invalid
read_secret (some (some secret)) = if secret_pattern secret then ok secret else err secret_invalid

abbrev pub prefix : ℕ → List ℕ → List ℕ
prefix zero bytes = []
prefix (suc n) [] = []
prefix (suc n) (b ∷ bytes) = b ∷ prefix n bytes

-- A byte of a digest. The index is in range, since a SHA-1 digest has twenty bytes.
abbrev pub byte_at : ℕ → List ℕ → ℕ
byte_at n [] = 0
byte_at zero (b ∷ bytes) = b
byte_at (suc n) (b ∷ bytes) = byte_at n bytes

abbrev pub last_byte : List ℕ → ℕ
last_byte [] = 0
last_byte (b ∷ []) = b
last_byte (b ∷ c ∷ bytes) = last_byte (c ∷ bytes)

-- The `n` low bytes of a number, the high one first.
abbrev pub big_endian : ℕ → ℕ → List ℕ
big_endian zero x = []
big_endian (suc n) x = big_endian n (x / 256) ++ x % 256 ∷ []

-- `%0nd`: the `n` low decimal digits, as code points.
abbrev pub padded : ℕ → ℕ → List ℕ
padded zero x = []
padded (suc n) x = padded n (x / 10) ++ (b'0' + x % 10) ∷ []

-- The dynamic truncation of `generateCode`, with the top bit left out.
abbrev pub truncated : List ℕ → ℕ
truncated sum =
    let offset = last_byte sum % 16 in
    byte_at offset sum % 128 * 2 ^ 24
    + byte_at (offset + 1) sum * 2 ^ 16
    + byte_at (offset + 2) sum * 2 ^ 8
    + byte_at (offset + 3) sum

module _ ⦃crypto : Crypto⦄ where
  abbrev pub decoded : String → Result Refusal (List ℕ)
  decoded secret = elim (crypto.decode secret) [ none ↦ err secret_invalid | some bytes ↦ ok bytes ]

  -- `deriveSecret`.
  unfoldable pub derive_secret : String → String → Result Refusal String
  derive_secret master scope = do
    require (valid_scope scope) invalid
    bytes ← decoded master
    ok (
        crypto.encode (
          prefix 20 (crypto.hmac_sha256 bytes (concat ("geoflow-updater-mutation:" ∷ scope ∷ [])))))

  -- The code of a counter, for the bytes of a secret.
  unfoldable pub code_of : List ℕ → ℕ → List ℕ
  code_of bytes counter =
      padded 6 (truncated (crypto.hmac_sha1 bytes (big_endian 8 counter)) % 1000000)

  -- `generateCode`.
  unfoldable pub generate_code : String → ℕ → Result Refusal (List ℕ)
  unfolding code_of
  generate_code secret counter = do bytes ← decoded secret; ok (code_of bytes counter)
