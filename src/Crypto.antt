-- ===== src/Crypto.antt =====
-- What the service takes from the cryptographic and encoding packages. Digests and ciphers are
-- parameters; `encoding/hex` is written out.
use abc_auth_svc.Base.{
  ℕ, ◌+◌, ◌/◌, ◌%◌, ◌<◌, ◌≡◌, Option, some, [], ◌∷◌, arith, ltb, if◌then◌else◌, All, Bytes, Lacks,
}

abbrev pub IsByte : ℕ → Type 0
IsByte c = c < 256

-- encoding/base64: `URLEncoding` (padded) and `RawURLEncoding` (not padded).
pub record Base64 : Type 0 where
  pub encode : Bytes → Bytes
  pub encode_raw : Bytes → Bytes
  pub decode : Bytes → Option Bytes
  pub decode_raw : Bytes → Option Bytes
  pub decode-encode : (s : Bytes) → All IsByte s → decode (encode s) ≡ some s
  pub decode-nil : decode [] ≡ some []

-- crypto/hmac over crypto/sha256, and crypto/sha256: a digest is a byte string.
pub record Digests : Type 0 where
  pub hmac_sha256 : Bytes → Bytes → Bytes
  pub sha256 : Bytes → Bytes
  pub hmac-IsByte : (k m : Bytes) → All IsByte (hmac_sha256 k m)

hex_digit : ℕ → ℕ
hex_digit n = if ltb n 10 then n + 48 else n + 87

-- hex.EncodeToString
unfoldable pub hex_encode : Bytes → Bytes
unfolding hex_digit
hex_encode [] = []
hex_encode (c ∷ s) = hex_digit (c / 16) ∷ hex_digit (c % 16) ∷ hex_encode s

pub hex_encode-Lacks : (s : Bytes) → Lacks b':' (hex_encode s)
unfolding hex_encode
hex_encode-Lacks [] = tt
hex_encode-Lacks (c ∷ s) = (ground arith, (ground arith, hex_encode-Lacks s))

pub hex_encode-IsByte : (s : Bytes) → All IsByte s → All IsByte (hex_encode s)
unfolding hex_encode
hex_encode-IsByte [] h = tt
hex_encode-IsByte (c ∷ s) (b, h) = (ground arith, (ground arith, hex_encode-IsByte s h))

-- sha256Hex (exchange.go)
unfoldable pub sha256_hex : Digests → Bytes → Bytes
sha256_hex digests s = hex_encode (digests.sha256 s)
