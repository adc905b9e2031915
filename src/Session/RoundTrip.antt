-- ===== src/Session/RoundTrip.antt =====
-- A token that the service has made is accepted until it expires.
use abc_auth_svc.Base.{
  ◌<◌, none, ℕ, ◌+◌, ◌≤◌, ◌≡◌, refl, ap, ◌∙◌, ◌≢◌, false, some, [], ◌∷◌, ◌++◌, arith,
  take-append_left, drop_past, All, All-append, Bytes, ==_refl, is_empty, Lacks,
}
use abc_auth_svc.Text.Index.{last_index_byte-append}
use abc_auth_svc.Text.Decimal.{
  decimal, parse_int-decimal, exceeds, max_int64, decimal-digits, Lacks-of_digits, IsDigit,
}
use abc_auth_svc.Crypto.{Base64, Digests, IsByte, hex_encode-Lacks, hex_encode-IsByte}
use abc_auth_svc.Session.{
  SessionVerifier, hmac_hex, payload, decode_b64_url, make, check_fields, check_token, verify,
}

IsByte-of_digits : (s : Bytes) → All IsDigit s → All IsByte s
IsByte-of_digits [] h = tt
IsByte-of_digits (c ∷ s) (d, h) = (omega arith, IsByte-of_digits s h)

module _ (digests : Digests) (b64 : Base64) (v : SessionVerifier) where
  check_fields_fresh :
      (now expiry : ℕ) (u : Bytes)
      → now ≤ expiry
      → expiry ≤ max_int64
      → check_fields digests b64 v now u
          (decimal expiry)
          (hmac_hex digests v.secret (payload u (decimal expiry)))
        ≡ some u
  unfolding check_fields exceeds
  check_fields_fresh now expiry u h k = rw (parse_int-decimal expiry k, ==_refl) (ground arith)

  check_fields_late :
      (now expiry : ℕ) (u : Bytes)
      → expiry < now
      → expiry ≤ max_int64
      → check_fields digests b64 v now u
          (decimal expiry)
          (hmac_hex digests v.secret (payload u (decimal expiry)))
        ≡ none
  unfolding check_fields exceeds
  check_fields_late now expiry u h k = rw (parse_int-decimal expiry k) (ground arith)

  -- The two splits at the last `:` find the three fields again.
  check_token_split :
      (now : ℕ) (u e sig : Bytes)
      → Lacks b':' e
      → Lacks b':' sig
      → check_token digests b64 v now (payload u e ++ b':' ∷ sig)
        ≡ check_fields digests b64 v now u e sig
  unfolding check_token
  check_token_split now u e sig he hs = rw (
    last_index_byte-append (payload u e) sig b':' hs,
    take-append_left (payload u e) _,
    drop_past (payload u e) b':' sig,
    last_index_byte-append u e b':' he,
    take-append_left u _,
    drop_past u b':' e,
  )

  hmac_hex-Lacks : (k m : Bytes) → Lacks b':' (hmac_hex digests k m)
  unfolding hmac_hex
  hmac_hex-Lacks k m = hex_encode-Lacks (digests.hmac_sha256 k m)

  payload-IsByte : (u e : Bytes) → All IsByte u → All IsByte e → All IsByte (payload u e)
  payload-IsByte u e hu he = All-append IsByte u (b':' ∷ e) hu (omega arith, he)

  hmac_hex-IsByte : (k m : Bytes) → All IsByte (hmac_hex digests k m)
  unfolding hmac_hex
  hmac_hex-IsByte k m = hex_encode-IsByte (digests.hmac_sha256 k m) (digests.hmac-IsByte k m)

  encode-ne-nil : (s : Bytes) → All IsByte s → s ≢ [] → b64.encode s ≢ []
  encode-ne-nil s h ne e = ne (cc (b64.decode-encode s h, b64.decode-nil, ap b64.decode e))

  decode-encode : (s : Bytes) → All IsByte s → decode_b64_url b64 (b64.encode s) ≡ some s
  unfolding decode_b64_url
  decode-encode s h = ground (arith, b64.decode-encode s h)

  append-ne-nil : (s t : Bytes) (c : ℕ) → s ++ c ∷ t ≢ []
  append-ne-nil [] t c = cc
  append-ne-nil (x ∷ s) t c = cc

  not-is_empty : (s : Bytes) → s ≢ [] → is_empty s ≡ false
  not-is_empty [] h = absurd (h refl)
  not-is_empty (c ∷ s) h = refl

  -- The verification of a token that was made comes down to the test of its fields.
  verify-make_fields :
      (now later ttl : ℕ) (u : Bytes)
      → v.secret ≢ []
      → All IsByte u
      → verify digests b64 v later (make digests b64 v now u ttl)
        ≡ check_fields digests b64 v later u
            (decimal (now + ttl))
            (hmac_hex digests v.secret (payload u (decimal (now + ttl))))
  unfolding verify make
  verify-make_fields now later ttl u hs hu =
      let d = decimal (now + ttl) in
      let sig = hmac_hex digests v.secret (payload u d) in
      let he = Lacks-of_digits b':' d (omega arith) (decimal-digits (now + ttl)) in
      let bytes : All IsByte (payload u d ++ b':' ∷ sig) =
        All-append IsByte (payload u d) (b':' ∷ sig)
          (payload-IsByte u d hu (IsByte-of_digits d (decimal-digits (now + ttl))))
          (omega arith, hmac_hex-IsByte v.secret (payload u d)) in
      rw
        (
          not-is_empty v.secret hs,
          not-is_empty _ (encode-ne-nil _ bytes (append-ne-nil (payload u d) sig b':')),
          decode-encode _ bytes,
        )
        (check_token_split later u d sig he (hmac_hex-Lacks v.secret (payload u d)))

  -- With a session secret that is not empty, a token made for any user name of bytes (colons
  -- included) is accepted as that user at every moment up to and including its expiry, if that
  -- expiry fits an `int64`.
  pub verify-make :
      (now later ttl : ℕ) (username : Bytes)
      → v.secret ≢ []
      → All IsByte username
      → later ≤ now + ttl
      → now + ttl ≤ max_int64
      → verify digests b64 v later (make digests b64 v now username ttl) ≡ some username
  verify-make now later ttl u hs hu hl hm =
      verify-make_fields now later ttl u hs hu ∙ check_fields_fresh later (now + ttl) u hl hm

  -- From the second after its expiry on the token is refused.
  pub verify-make_expired :
      (now later ttl : ℕ) (username : Bytes)
      → v.secret ≢ []
      → All IsByte username
      → now + ttl < later
      → now + ttl ≤ max_int64
      → verify digests b64 v later (make digests b64 v now username ttl) ≡ none
  verify-make_expired now later ttl u hs hu hl hm =
      verify-make_fields now later ttl u hs hu ∙ check_fields_late later (now + ttl) u hl hm
