-- ===== src/KekWrap/RoundTrip.antt =====
-- A wrapped key is unwrapped under the same master key, id and version.
use abc_auth_svc.Text.Int.{ℤ}
use abc_auth_svc.Base.{
  ℕ, ◌+◌, ◌≡◌, false, some, ◌++◌, arith, ltb, length, take, drop, length-append, take-append_left,
  drop-append_left, Bytes,
}
use abc_auth_svc.KekWrap.{
  Aead, mk_len, wrap_salt_len, nonce_size, kek_wrap_aad, wrap_kek, open_blob, unwrap_kek,
}

module _ (aead : Aead) where
  take-append_of_length : (n : ℕ) (s t : Bytes) → length s ≡ n → take n (s ++ t) ≡ s
  take-append_of_length n s t e = rw (← e) (take-append_left s t)

  drop-append_of_length : (n : ℕ) (s t : Bytes) → length s ≡ n → drop n (s ++ t) ≡ t
  drop-append_of_length n s t e = rw (← e) (drop-append_left s t)

  open_blob-seal :
      (mk aad salt nonce kek : Bytes)
      → length salt ≡ wrap_salt_len
      → length nonce ≡ nonce_size
      → open_blob aead mk aad (salt ++ (nonce ++ aead.seal (aead.hkdf mk salt aad) nonce kek aad))
        ≡ some kek
  unfolding open_blob
  open_blob-seal mk aad salt nonce kek hs hn =
      let key = aead.hkdf mk salt aad in
      let ct = aead.seal key nonce kek aad in
      let long : ltb (length (salt ++ (nonce ++ ct))) wrap_salt_len ≡ false =
        ground (arith, length-append salt (nonce ++ ct)) in
      let rest : ltb (length (nonce ++ ct)) (nonce_size + 1) ≡ false =
        ground (arith, length-append nonce ct, aead.seal-length key nonce kek aad) in
      rw
        (
          long,
          take-append_of_length wrap_salt_len salt (nonce ++ ct) hs,
          drop-append_of_length wrap_salt_len salt (nonce ++ ct) hs,
          rest,
          take-append_of_length nonce_size nonce ct hn,
          drop-append_of_length nonce_size nonce ct hn,
        )
        (aead.open-seal key nonce kek aad)

  -- With a 32-byte master key, what `wrapKEK` stores for a key that is not empty, under any salt
  -- and nonce of the right lengths, `unwrapKEK` gives back for the same key id and version.
  pub unwrap_kek-wrap_kek :
      (mk salt nonce kek_id kek wrapped : Bytes) (version : ℤ)
      → length mk ≡ mk_len
      → length salt ≡ wrap_salt_len
      → length nonce ≡ nonce_size
      → wrap_kek aead salt nonce kek_id version kek mk ≡ some wrapped
      → unwrap_kek aead mk kek_id version wrapped ≡ some kek
  unfolding wrap_kek unwrap_kek
  unwrap_kek-wrap_kek mk salt nonce kek_id kek wrapped version hm hs hn h = ground (
    arith,
    open_blob-seal mk (kek_wrap_aad kek_id version) salt nonce kek hs hn,
    aead.std_decode-encode (
        salt
        ++ (nonce
            ++ aead.seal (aead.hkdf mk salt (kek_wrap_aad kek_id version)) nonce kek
                (kek_wrap_aad kek_id version))),
  )
