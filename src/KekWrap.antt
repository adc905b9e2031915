-- ===== src/KekWrap.antt =====
-- internal/authsvc/kekwrap.go: the envelope that keeps a group's key under the root master key.
pub mod RoundTrip
pub mod Binding
use abc_auth_svc.Base.{
  ℕ, zero, suc, ◌+◌, ◌-◌, ◌*◌, ◌/◌, ◌%◌, ◌^◌, ◌≤◌, ◌<◌, ◌≡◌, refl, sym, ap, ◌∙◌, subst, ◌≡⟨◌⟩◌, ◌∎,
  ◌≢◌, ◌↔◌, ◌⊎◌, inl, inr, Bool, true, false, not, ◌&&◌, ◌||◌, Option, none, some, List, [], ◌∷◌,
  ◌++◌, append-nil, append_assoc, arith, ltb, leb, nat_eq, if◌then◌else◌, nat_eq_iff, nat_eq_refl,
  Bool-cases, Option-cases, length, take, drop, all, length-append, take-append_left,
  drop-append_left, drop_past, All, All-append, All-append_left, All-append_right, Bytes, codes,
  ◌==◌, eq_of_==, ==_refl, ==_iff, is_empty, Lacks, String, ◌>>=◌,
}
use abc_auth_svc.Text.Int.{ℤ, itoa}

-- crypto/hkdf, crypto/aes with crypto/cipher's GCM, and base64.StdEncoding. `open` undoes `seal`
-- under the same key, nonce and additional data, and a sealed text is not empty (its tag has 16
-- bytes).
pub record Aead : Type 0 where
  pub hkdf : Bytes → Bytes → Bytes → Bytes
  pub seal : Bytes → Bytes → Bytes → Bytes → Bytes
  pub open_sealed : Bytes → Bytes → Bytes → Bytes → Option Bytes
  pub std_encode : Bytes → Bytes
  pub std_decode : Bytes → Option Bytes
  pub open-seal :
      (key nonce text aad : Bytes) → open_sealed key nonce (seal key nonce text aad) aad ≡ some text
  pub seal-length : (key nonce text aad : Bytes) → 1 ≤ length (seal key nonce text aad)
  pub std_decode-encode : (s : Bytes) → std_decode (std_encode s) ≡ some s

abbrev pub kek_wrap_alg : Bytes
kek_wrap_alg = codes "aes256-gcm-hkdf-sha256"

abbrev pub mk_len : ℕ
mk_len = 32

abbrev pub wrap_salt_len : ℕ
wrap_salt_len = 16

-- gcm.NonceSize()
abbrev pub nonce_size : ℕ
nonce_size = 12

-- kekWrapAAD
unfoldable pub kek_wrap_aad : Bytes → ℤ → Bytes
kek_wrap_aad kek_id version = codes "abc-kek-wrap-v1|" ++ kek_id ++ b'|' ∷ itoa version

module _ (aead : Aead) where
  -- wrapKEK with the salt and the nonce that were drawn; `none` is an error.
  unfoldable pub wrap_kek : Bytes → Bytes → Bytes → ℤ → Bytes → Bytes → Option Bytes
  unfolding kek_wrap_aad
  wrap_kek salt nonce kek_id version kek mk =
      if not (nat_eq (length mk) mk_len)
      then none
      else if is_empty kek
      then none
      else (let aad = kek_wrap_aad kek_id version in
          let wrap_key = aead.hkdf mk salt aad in
          some (aead.std_encode (salt ++ (nonce ++ aead.seal wrap_key nonce kek aad))))

  open_blob : Bytes → Bytes → Bytes → Option Bytes
  open_blob mk aad blob =
      if ltb (length blob) wrap_salt_len
      then none
      else (let wrap_key = aead.hkdf mk (take wrap_salt_len blob) aad in
          let rest = drop wrap_salt_len blob in
          if ltb (length rest) (nonce_size + 1)
          then none
          else aead.open_sealed wrap_key (take nonce_size rest) (drop nonce_size rest) aad)

  -- unwrapKEK
  unfoldable pub unwrap_kek : Bytes → Bytes → ℤ → Bytes → Option Bytes
  unfolding kek_wrap_aad open_blob
  unwrap_kek mk kek_id version wrapped =
      if not (nat_eq (length mk) mk_len)
      then none
      else (do blob ← aead.std_decode wrapped; open_blob mk (kek_wrap_aad kek_id version) blob)
