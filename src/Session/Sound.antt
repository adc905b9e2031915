-- ===== src/Session/Sound.antt =====
-- What an accepted token proves.
use abc_auth_svc.Base.{
  ℕ, ◌≡◌, ◌≢◌, inl, inr, false, some, [], ◌∷◌, ◌++◌, arith, Option-cases, Bytes, eq_of_==, ◌∙◌,
  take, drop, suc, ap,
}
use abc_auth_svc.Text.Decimal.{Int64, parse_int, exceeds}
use abc_auth_svc.Crypto.{Base64, Digests}
use abc_auth_svc.Session.{
  SessionVerifier, hmac_hex, payload, decode_b64_url, check_fields, verify, check_token,
  last_index_byte,
}
use abc_auth_svc.Text.Index.{last_index_byte-cut}

module _ (digests : Digests) (b64 : Base64) (v : SessionVerifier) where
  -- The token decodes to the user's name, an expiry that has not passed and the digest of both.
  pub record IsGenuine (now : ℕ) (token username : Bytes) : Type 0 where
    pub expiry_str : Bytes
    pub expiry : Int64
    pub keyed : v.secret ≢ []
    pub decodes :
        decode_b64_url b64 token
        ≡ some (
            payload username expiry_str
            ++ b':' ∷ hmac_hex digests v.secret (payload username expiry_str))
    pub parses : parse_int expiry_str ≡ some expiry
    pub unexpired : exceeds now expiry ≡ false

  check_fields_sound :
      (now : ℕ) (u e sig w : Bytes)
      → check_fields digests b64 v now u e sig ≡ some w
      → (x : Int64) × (parse_int e ≡ some x)
        × (exceeds now x ≡ false)
        × (sig ≡ hmac_hex digests v.secret (payload u e))
        × (w ≡ u)
  unfolding check_fields
  check_fields_sound now u e sig w h = elim (Option-cases (parse_int e)) [
    | inl bad ↦ absurd (ground arith)
    | inr (x, p) ↦ (
      x,
      p,
      ground arith,
      ground (arith, eq_of_== sig (hmac_hex digests v.secret (payload u e))),
      ground arith,
    )
  ]

  check_token_sound :
      (now : ℕ) (s u : Bytes)
      → check_token digests b64 v now s ≡ some u
      → (e : Bytes) × (x : Int64) × (parse_int e ≡ some x)
        × (exceeds now x ≡ false)
        × (s ≡ payload u e ++ b':' ∷ hmac_hex digests v.secret (payload u e))
  unfolding check_token
  check_token_sound now s u h = elim (Option-cases (last_index_byte s b':')) [
    | inl e ↦ absurd (ground arith)
    | inr (i2, e2) ↦ elim (Option-cases (last_index_byte (take i2 s) b':')) [
      | inl e ↦ absurd (ground arith)
      | inr (i1, e1) ↦
          let rest = take i2 s in
          let (x, parsed, fresh, sig, same) =
            check_fields_sound now (take i1 rest) (drop (suc i1) rest) (drop (suc i2) s) u
              (ground arith) in
          let (cut2, _) = last_index_byte-cut s b':' i2 e2 in
          let (cut1, _) = last_index_byte-cut rest b':' i1 e1 in
          (drop (suc i1) rest, x, parsed, fresh, cc (cut2, cut1, sig, same))
    ]
  ]

  -- An accepted token decodes to the accepted name, an expiry that parses and has not passed, and
  -- the hexadecimal digest of both under a session secret that is not empty.
  pub verify-IsGenuine :
      (now : ℕ) (token username : Bytes)
      → verify digests b64 v now token ≡ some username
      → IsGenuine now token username
  unfolding verify
  verify-IsGenuine now token u h = elim (Option-cases (decode_b64_url b64 token)) [
    | inl e ↦ absurd (ground arith)
    | inr (s, e) ↦
        let (expiry_str, x, parsed, fresh, same) = check_token_sound now s u (ground arith) in
        record {
          expiry_str = expiry_str;
          expiry = x;
          keyed = λ p. ground arith;
          decodes = e ∙ ap some same;
          parses = parsed;
          unexpired = fresh;
        }
  ]
