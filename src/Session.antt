-- ===== src/Session.antt =====
-- internal/authsvc/session.go: the `abc_session` token, made at login and checked at each request.
pub mod RoundTrip
pub mod Sound
use abc_auth_svc.Base.{
  ℕ, zero, suc, ◌+◌, ◌-◌, ◌*◌, ◌/◌, ◌%◌, ◌^◌, ◌≤◌, ◌<◌, ◌≡◌, refl, sym, ap, ◌∙◌, subst, ◌≡⟨◌⟩◌, ◌∎,
  ◌≢◌, ◌↔◌, ◌⊎◌, inl, inr, Bool, true, false, not, ◌&&◌, ◌||◌, Option, none, some, List, [], ◌∷◌,
  ◌++◌, append-nil, append_assoc, arith, ltb, leb, nat_eq, if◌then◌else◌, nat_eq_iff, nat_eq_refl,
  Bool-cases, Option-cases, length, take, drop, all, length-append, take-append_left,
  drop-append_left, All, All-append, All-append_left, All-append_right, Bytes, codes, ◌==◌,
  eq_of_==, ==_refl, ==_iff, is_empty, Lacks, String, ◌>>=◌,
}
use abc_auth_svc.Text.{last_index_byte}
use abc_auth_svc.Text.Decimal.{decimal, parse_int, exceeds}
use abc_auth_svc.Crypto.{Base64, Digests, hex_encode}

pub record SessionVerifier : Type 0 where
  pub secret : Bytes

unfoldable pub hmac_hex : Digests → Bytes → Bytes → Bytes
hmac_hex digests key msg = hex_encode (digests.hmac_sha256 key msg)

-- `fmt.Sprintf("%s:%d", username, expiry)`
abbrev pub payload : Bytes → Bytes → Bytes
payload username expiry = username ++ b':' ∷ expiry

-- Padded first, then raw.
unfoldable pub decode_b64_url : Base64 → Bytes → Option Bytes
decode_b64_url b64 s = elim (b64.decode s) [ some d ↦ some d | none ↦ b64.decode_raw s ]

module _ (digests : Digests) (b64 : Base64) (v : SessionVerifier) where
  -- `now` is the clock's reading in seconds.
  unfoldable pub make : ℕ → Bytes → ℕ → Bytes
  make now username ttl =
      let p = payload username (decimal (now + ttl)) in
      b64.encode (p ++ b':' ∷ hmac_hex digests v.secret p)

  check_fields : ℕ → Bytes → Bytes → Bytes → Option Bytes
  check_fields now username expiry_str sig = do
    expiry ← parse_int expiry_str
    if exceeds now expiry
        then none
        else if sig == hmac_hex digests v.secret (payload username expiry_str)
        then some username
        else none

  check_token : ℕ → Bytes → Option Bytes
  unfolding check_fields
  check_token now s = do
    i2 ← last_index_byte s b':'
    let sig = drop (suc i2) s
    let rest = take i2 s
    i1 ← last_index_byte rest b':'
    check_fields now (take i1 rest) (drop (suc i1) rest) sig

  unfoldable pub verify : ℕ → Bytes → Option Bytes
  unfolding check_token
  verify now token =
      if is_empty v.secret || is_empty token
      then none
      else (do raw ← decode_b64_url b64 token; check_token now raw)
