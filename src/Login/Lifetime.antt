-- ===== src/Login/Lifetime.antt =====
-- From the login to the forward-auth checks: how long the session of a login lasts.
use abc_auth_svc.Base.{
  ℕ, ◌+◌, ◌≤◌, ◌≡◌, ◌≢◌, ◌∙◌, refl, ap, inl, inr, Bool, true, false, ◌||◌, Option, none, some, [],
  arith, leb, if◌then◌else◌, Bool-cases, All, Bytes, codes, ◌==◌, is_empty,
}
use abc_auth_svc.Text.{trim_space}
use abc_auth_svc.Text.Decimal.{max_int64}
use abc_auth_svc.Crypto.{Base64, Digests, IsByte}
use abc_auth_svc.Session.{make, verify}
use abc_auth_svc.Session.RoundTrip.{verify-make, verify-make_expired}
use abc_auth_svc.Upstreams.{Env, Server, World, Outcome, ok, err}
use abc_auth_svc.Http.{done, Request, ◌>>=◌, continue, pure, has_store}
use abc_auth_svc.Http.Ends.{Ends, Ends-pure, Ends-look, Ends-bind, Ends-if}
use abc_auth_svc.Forward.{
  Cookie, set_session_cookie, verifier, ValidateVerdict, allow, deny, no_session, is_blocked,
  decide_validate, judge, slot_state,
}
use abc_auth_svc.Login.{
  LoginReply, form, redirect, safe_next, sign_in, admit, check_credential, handle_login_post,
}

module _ (env : Env) (srv : Server) (digests : Digests) (b64 : Base64) where
  -- A redirect carries a session made at the very end of the login.
  IsFresh : Bytes → LoginReply → World → Type 0
  IsFresh username (form next msg) w = Unit
  IsFresh username (redirect cookie next) w =
      cookie
      ≡ set_session_cookie srv
          (make digests b64 (verifier srv) (env.now w.history) username srv.session_ttl)

  form-Ends : (username next msg : Bytes) → Ends (IsFresh username) (pure (form next msg))
  unfolding IsFresh
  form-Ends username next msg = Ends-pure _ (λ w. tt)

  sign_in-Ends :
      (username next : Bytes) → Ends (IsFresh username) (sign_in env srv digests b64 username next)
  unfolding sign_in IsFresh
  sign_in-Ends username next = Ends-look _ _ (λ w. refl)

  admit-Ends :
      (username next : Bytes) (state : Option Bytes)
      → Ends (IsFresh username) (admit env srv digests b64 username next state)
  unfolding admit
  admit-Ends username next none = sign_in-Ends username next
  admit-Ends username next (some state) =
      Ends-if (state == codes "suspended") _ _ (λ _. form-Ends username next _)
        λ _.
          Ends-if (state == codes "expired") _ _ (λ _. form-Ends username next _)
            λ _. sign_in-Ends username next

  check_credential-Ends :
      (username next : Bytes) (o : Outcome Bool)
      → Ends (IsFresh username) (check_credential env srv digests b64 username next o)
  unfolding check_credential
  check_credential-Ends username next (ok true) =
      Ends-bind _ _ λ state. admit-Ends username next state
  check_credential-Ends username next (ok false) = form-Ends username next _
  check_credential-Ends username next err = form-Ends username next _

  handle_login_post-Ends :
      (r : Request)
      → Ends
          (IsFresh (trim_space (r.form (codes "username"))))
          (handle_login_post env srv digests b64 r)
  unfolding handle_login_post
  handle_login_post-Ends r =
      let username = trim_space (r.form (codes "username")) in
      let password = trim_space (r.form (codes "password")) in
      let next = safe_next (r.form (codes "next")) in
      Ends-if (is_empty username || is_empty password) _ _ (λ _. form-Ends username next _)
        λ _. Ends-bind _ _ λ valid. check_credential-Ends username next valid

  -- What the slot's state makes of a user whose session is valid.
  pub verdict_on : World → Bytes → ValidateVerdict
  verdict_on v username =
      let state =
        if has_store srv.store then env.cached_state v.history username else codes "none" in
      if is_blocked state then deny state else allow username

  judged : World → Option Bytes → ValidateVerdict
  judged v none = no_session
  judged v (some username) = verdict_on v username

  judge-eq : (v : World) (o : Option Bytes) → (judge env srv digests b64 o v).0 ≡ done (judged v o)
  unfolding judge slot_state judged verdict_on ◌>>=◌ pure
  judge-eq v none = refl
  judge-eq v (some username) = elim (Bool-cases (has_store srv.store)) [
    | inl e ↦ rw (e, continue) refl
    | inr e ↦ rw (e, continue) refl
  ]

  decide_validate-eq :
      (r : Request) (v : World) (token : Bytes)
      → r.cookie ≡ some token
      → (decide_validate env srv digests b64 r v).0
        ≡ done (judged v (verify digests b64 (verifier srv) (env.now v.history) token))
  unfolding decide_validate ◌>>=◌
  decide_validate-eq r v token sent = rw sent (judge-eq v _)

  -- The second in which the session of a login ends.
  abbrev pub session_end : Request → World → ℕ
  session_end r w = env.now (handle_login_post env srv digests b64 r w).1.history + srv.session_ttl

  -- The session that a login gives is exactly as long as the configured lifetime: with its cookie,
  -- every forward-auth check up to and including that second comes to the verdict on the user who
  -- logged in, by the state of the slot at the time of the check, and every later one to the login.
  -- That is so if the service has a session secret, the user name consists of bytes, and the end
  -- fits an `int64`.
  pub handle_login_post-IsSession :
      (r check : Request) (w v : World) (cookie : Cookie) (next : Bytes)
      → (handle_login_post env srv digests b64 r w).0 ≡ done (redirect cookie next)
      → check.cookie ≡ some cookie.value
      → srv.session_secret ≢ []
      → All IsByte (trim_space (r.form (codes "username")))
      → session_end r w ≤ max_int64
      → (decide_validate env srv digests b64 check v).0
        ≡ done (
            if leb (env.now v.history) (session_end r w)
            then verdict_on v (trim_space (r.form (codes "username")))
            else no_session)
  unfolding judged IsFresh set_session_cookie
  handle_login_post-IsSession r check w v cookie next replied sent secret bytes fits =
      let username = trim_space (r.form (codes "username")) in
      let made = (handle_login_post-Ends r).at w (redirect cookie next) replied in
      let issued = env.now (handle_login_post env srv digests b64 r w).1.history in
      let decided =
        decide_validate-eq check v (make digests b64 (verifier srv) issued username srv.session_ttl)
          (sent ∙ ap some (ap (λ (c : Cookie). c.value) made)) in
      elim (Bool-cases (leb (env.now v.history) (session_end r w))) [
        | inl early ↦ rw early (
            rw
              (verify-make digests b64 (verifier srv) issued (env.now v.history) srv.session_ttl
                username secret bytes (ground arith) fits)
              at decided)
        | inr late ↦ rw late (
            rw
              (verify-make_expired digests b64 (verifier srv) issued (env.now v.history)
                srv.session_ttl username secret bytes (ground arith) fits)
              at decided)
      ]
