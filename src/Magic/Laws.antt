-- ===== src/Magic/Laws.antt =====
-- Who is given a one-time code, and what it is redeemed for.
use abc_auth_svc.Base.{
  ℕ, ◌≤◌, ◌≡◌, refl, sym, ap, ◌∙◌, inl, inr, false, ◌&&◌, Option, none, some, arith, ltb,
  Bool-cases, Option-cases, Bytes, codes, is_empty,
}
use abc_auth_svc.Base.{find}
use abc_auth_svc.Text.{trim_space}
use abc_auth_svc.Crypto.{Base64, Digests}
use abc_auth_svc.Session.{make}
use abc_auth_svc.Forward.{set_session_cookie, verifier}
use abc_auth_svc.Magic.Codes.{redeem, redeem_twice, Codes, unexpired}
use abc_auth_svc.Upstreams.{Env, Server, World, MagicCode}
use abc_auth_svc.Http.{◌>>=◌, pure, done, Request, look, ask}
use abc_auth_svc.Magic.{
  field, minio_login_entry, console_token, handle_auth_minio_login, Redirect, to, with_cookie,
  redeem_code, redeem_entry, handle_auth_redeem,
}

module _ (env : Env) (srv : Server) (digests : Digests) (b64 : Base64) where
  -- The session begins now, for the user of the entry that the store has under the code; the entry
  -- has not expired.
  pub IsRedemption : World → Bytes → Redirect → Type 0
  IsRedemption w code (to location) = Unit
  IsRedemption w code (with_cookie cookie location) =
      (entry : MagicCode) × (find code w.magic ≡ some entry)
      × (env.now w.history ≤ entry.expiry)
      × (cookie
          ≡ set_session_cookie srv
              (make digests b64 (verifier srv) (env.now w.history) entry.username srv.session_ttl))

  redeemed-unexpired :
      (code : Bytes) (now : ℕ) (m : Codes) (entry : MagicCode)
      → (redeem code now m).0 ≡ some entry
      → (find code m ≡ some entry) × (now ≤ entry.expiry)
  unfolding redeem unexpired
  redeemed-unexpired code now m entry e = elim (Option-cases (find code m)) [
    | inl missing ↦ let q = rw missing at e in absurd (ground arith)
    | inr (a, found) ↦ elim (Bool-cases (ltb a.expiry now)) [
      | inl old ↦ let q = rw (found, old) at e in absurd (ground arith)
      | inr young ↦
          let q : some a ≡ some entry = rw (found, young) at e in
          let same : a ≡ entry = ground arith in (found ∙ ap some same, rw (← same) (ground arith))
    ]
  ]

  redeem_entry-IsRedemption :
      (r : Request) (w v : World) (code : Bytes) (o : Option MagicCode) (reply : Redirect)
      → v.history ≡ w.history
      → (redeem code (env.now w.history) w.magic).0 ≡ o
      → (redeem_entry env srv digests b64 r o v).0 ≡ done reply
      → IsRedemption w code reply
  unfolding redeem_entry IsRedemption ◌>>=◌ pure look
  redeem_entry-IsRedemption r w v code none (to location) same e d = tt
  redeem_entry-IsRedemption r w v code none (with_cookie cookie location) same e d =
      absurd (ground arith)
  redeem_entry-IsRedemption r w v code (some entry) (to location) same e d = tt
  redeem_entry-IsRedemption r w v code (some entry) (with_cookie cookie location) same e d =
      let (found, young) = redeemed-unexpired code (env.now w.history) w.magic entry e in
      (entry, found, young, rw (← same) (ground arith))

  redeem_entry_world :
      (r : Request) (o : Option MagicCode) (v : World)
      → (redeem_entry env srv digests b64 r o v).1 ≡ v
  unfolding redeem_entry ◌>>=◌ pure look
  redeem_entry_world r none v = refl
  redeem_entry_world r (some entry) v = refl

  handle_auth_redeem-eq :
      (r : Request) (w : World) (code : Bytes)
      → trim_space (r.query (codes "code")) ≡ code
      → is_empty code ≡ false
      → handle_auth_redeem env srv digests b64 r w
        ≡ redeem_entry env srv digests b64 r
            (redeem code (env.now w.history) w.magic).0
            (record w { magic = (redeem code (env.now w.history) w.magic).1 })
  unfolding handle_auth_redeem redeem_code ◌>>=◌ pure look
  handle_auth_redeem-eq r w code e n = rw (e, n) refl

  -- A redemption, by a code that is not empty, that signs a user in does so with a session that
  -- begins now, for the user that the code was issued for, when the code is in the store and its
  -- expiry has not passed.
  pub handle_auth_redeem-IsRedemption :
      (r : Request) (w : World) (code : Bytes) (reply : Redirect)
      → trim_space (r.query (codes "code")) ≡ code
      → is_empty code ≡ false
      → (handle_auth_redeem env srv digests b64 r w).0 ≡ done reply
      → IsRedemption w code reply
  handle_auth_redeem-IsRedemption r w code reply e n h =
      redeem_entry-IsRedemption r w
        (record w { magic = (redeem code (env.now w.history) w.magic).1 }) code _ reply refl refl
        (sym (ap (λ p. p.0) (handle_auth_redeem-eq r w code e n)) ∙ h)

  -- A code that is not empty signs in once: whatever a first request with the code is answered, a
  -- second one right after it is sent back to the login.
  pub handle_auth_redeem_once :
      (r r' : Request) (w : World) (code : Bytes)
      → trim_space (r.query (codes "code")) ≡ code
      → trim_space (r'.query (codes "code")) ≡ code
      → is_empty code ≡ false
      → (handle_auth_redeem env srv digests b64 r' (handle_auth_redeem env srv digests b64 r w).1).0
        ≡ done (to (codes "/auth/login?error=link_expired"))
  unfolding redeem_entry pure
  handle_auth_redeem_once r r' w code e e' n =
      let later : World = record w { magic = (redeem code (env.now w.history) w.magic).1 } in
      let first : (handle_auth_redeem env srv digests b64 r w).1 ≡ later =
        rw (handle_auth_redeem-eq r w code e n) (redeem_entry_world r _ later) in
      rw
        (
          first,
          handle_auth_redeem-eq r' later code e' n,
          redeem_twice code (env.now w.history) (env.now later.history) w.magic,
        )
        refl

  minio_login_world :
      (o : Option MagicCode) (v : World) → (minio_login_entry env srv o v).1.magic ≡ v.magic
  unfolding minio_login_entry console_token ◌>>=◌ pure ask
  minio_login_world none v = refl
  minio_login_world (some entry) v =
      elim (Bool-cases
        (is_empty (field (codes "minio_token") entry.extra) && srv.has_console_login)) [
          | inl e ↦ rw e refl
          | inr e ↦ rw e refl
        ]

  handle_auth_minio_login-magic :
      (r : Request) (w : World) (code : Bytes)
      → trim_space (r.query (codes "code")) ≡ code
      → is_empty code ≡ false
      → (handle_auth_minio_login env srv r w).1.magic ≡ (redeem code (env.now w.history) w.magic).1
  unfolding handle_auth_minio_login redeem_code ◌>>=◌ pure look
  handle_auth_minio_login-magic r w code e n = rw (e, n) (minio_login_world _ _)

  -- The two endpoints share the codes: a code that is not empty and was used for the MinIO
  -- console, whatever came of it, is not redeemed for a session by the request after it.
  pub handle_auth_minio_login_uses :
      (r r' : Request) (w : World) (code : Bytes)
      → trim_space (r.query (codes "code")) ≡ code
      → trim_space (r'.query (codes "code")) ≡ code
      → is_empty code ≡ false
      → (handle_auth_redeem env srv digests b64 r' (handle_auth_minio_login env srv r w).1).0
        ≡ done (to (codes "/auth/login?error=link_expired"))
  unfolding redeem_entry pure
  handle_auth_minio_login_uses r r' w code e e' n =
      let later : World = (handle_auth_minio_login env srv r w).1 in
      rw
        (
          handle_auth_redeem-eq r' later code e' n,
          handle_auth_minio_login-magic r w code e n,
          redeem_twice code (env.now w.history) (env.now later.history) w.magic,
        )
        refl
