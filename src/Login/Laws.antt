-- ===== src/Login/Laws.antt =====
-- Where a login may lead.
use abc_auth_svc.Base.{
  Option, some, none, ◌≢◌, ◌∙◌, arith, ◌⊎◌, ◌≡◌, refl, sym, inl, inr, Bool, true, false, not, ◌||◌,
  [], ◌∷◌, ◌++◌, if◌then◌else◌, Bool-cases, Bytes, codes, ◌==◌, is_empty,
}
use abc_auth_svc.Text.{has_prefix, trim_space}
use abc_auth_svc.Upstreams.{History, Env, Server, Outcome, ok, err, World, Call, Slot}
use abc_auth_svc.Crypto.{Base64, Digests}
use abc_auth_svc.Http.{done, pure, Request, has_store}
use abc_auth_svc.Text.Decimal.{negative}
use abc_auth_svc.Forward.{clear_session_cookie, session_cookie, set_session_cookie, verifier}
use abc_auth_svc.Session.{make}
use abc_auth_svc.Http.Finds.{Finds, Finds-if, Finds-pure, Finds-ask, Finds-look, Finds-then}
use abc_auth_svc.Login.{
  safe_next, LoginReply, form, redirect, handle_login_post, login_state, state_found,
  check_credential, admit, sign_in, handle_login_get, handle_logout,
}
use abc_auth_svc.Base.{subst}
use abc_auth_svc.Base.{==_refl}

-- An absolute path, and no network path.
abbrev pub IsLocalPath : Bytes → Type 0
IsLocalPath u = (has_prefix u (b'/' ∷ []) ≡ true) × (has_prefix u (b'/' ∷ b'/' ∷ []) ≡ false)

local_or_root :
    (u : Bytes)
    → IsLocalPath
        (if not (has_prefix u (b'/' ∷ [])) || has_prefix u (b'/' ∷ b'/' ∷ []) then b'/' ∷ [] else u)
unfolding has_prefix
local_or_root u = elim (Bool-cases (has_prefix u (b'/' ∷ []))) [
  | inl e ↦ elim (Bool-cases (has_prefix u (b'/' ∷ b'/' ∷ []))) [
    | inl f ↦ rw (e, f) (refl, refl)
    | inr f ↦ rw (e, f) (e, f)
  ]
  | inr e ↦ rw e (refl, refl)
]

-- Whatever the `next` parameter holds, encoded or not, the redirect target starts with `/`, and
-- not with `//`.
pub safe_next-IsLocalPath : (raw : Bytes) → IsLocalPath (safe_next raw)
unfolding safe_next
safe_next-IsLocalPath raw = local_or_root _

module _ (env : Env) (srv : Server) (digests : Digests) (b64 : Base64) where
  -- The calls of a login whose credential was found valid.
  abbrev validated : Bytes → Bytes → History → History
  validated username password h = Call.validate_credential username password ∷ h

  abbrev pub by_access_key : Bytes → Bytes
  by_access_key username = codes "minio_access_key='" ++ username ++ codes "'"

  -- No slot that was found is suspended or expired.
  abbrev pub IsOpen : Outcome (Option Slot) → Type 0
  IsOpen (ok (some slot)) = (slot.state ≢ codes "suspended") × (slot.state ≢ codes "expired")
  IsOpen (ok none) = Unit
  IsOpen err = Unit

  -- A good reply has a local path as its target; and a cookie is a session made at the end of the
  -- login, for the user whose credential is valid at its start and whose slot, looked up next, is
  -- open.
  pub IsGoodReply : Bytes → Bytes → History → LoginReply → History → Type 0
  IsGoodReply username password h (form next msg) end = IsLocalPath next
  IsGoodReply username password h (redirect cookie next) end =
      IsLocalPath next
      × (env.valid_credential h username password ≡ ok true)
      × (cookie
          ≡ set_session_cookie srv
              (make digests b64 (verifier srv) (env.now end) username srv.session_ttl))
      × ((has_store srv.store ≡ false)
          ⊎ IsOpen (env.found_slot (validated username password h) (by_access_key username)))

  -- What a state that was looked up says of the slot.
  StateOf : Bytes → Bytes → History → Option Bytes → Type 0
  StateOf username password h state =
      ((has_store srv.store ≡ false) × (state ≡ none))
      ⊎ (state
          ≡ state_found (env.found_slot (validated username password h) (by_access_key username)))

  login_state-StateOf :
      (username password : Bytes) (h : History)
      → Finds
          (validated username password h)
          (λ state _. StateOf username password h state)
          (login_state env srv digests b64 username)
  unfolding login_state StateOf
  login_state-StateOf username password h =
      Finds-if (has_store srv.store) _ _ (λ _. Finds-ask _ _ _ (Finds-pure _ (inr refl)))
        λ e. Finds-pure _ (inl (e, refl))

  found_none-IsOpen : (found : Outcome (Option Slot)) → none ≡ state_found found → IsOpen found
  unfolding state_found
  found_none-IsOpen (ok (some slot)) e = absurd (ground arith)
  found_none-IsOpen (ok none) e = tt
  found_none-IsOpen err e = tt

  ne_of_false : (s t : Bytes) → (s == t) ≡ false → s ≢ t
  ne_of_false s t e p =
      let same : (s == t) ≡ true = subst (λ z. (s == z) ≡ true) p (==_refl s) in
      absurd (ground arith)

  found_some-IsOpen :
      (found : Outcome (Option Slot)) (state : Bytes)
      → some state ≡ state_found found
      → (state == codes "suspended") ≡ false
      → (state == codes "expired") ≡ false
      → IsOpen found
  unfolding state_found
  found_some-IsOpen (ok (some slot)) state e s x =
      let same : state ≡ slot.state = ground arith in
      ((λ p. ne_of_false _ _ s (same ∙ p)), (λ p. ne_of_false _ _ x (same ∙ p)))
  found_some-IsOpen (ok none) state e s x = tt
  found_some-IsOpen err state e s x = tt

  sign_in-IsGoodReply :
      (username password next : Bytes) (h g : History)
      → IsLocalPath next
      → env.valid_credential h username password ≡ ok true
      → (has_store srv.store ≡ false)
        ⊎ IsOpen (env.found_slot (validated username password h) (by_access_key username))
      → Finds g (IsGoodReply username password h) (sign_in env srv digests b64 username next)
  unfolding sign_in IsGoodReply
  sign_in-IsGoodReply username password next h g l v o =
      Finds-look _ _ (Finds-pure _ (l, v, refl, o))

  admit-IsGoodReply :
      (username password next : Bytes) (state : Option Bytes) (h g : History)
      → IsLocalPath next
      → env.valid_credential h username password ≡ ok true
      → StateOf username password h state
      → Finds g (IsGoodReply username password h) (admit env srv digests b64 username next state)
  unfolding admit IsGoodReply StateOf
  admit-IsGoodReply username password next none h g l v s =
      sign_in-IsGoodReply username password next h g l v
        (elim s [ inl p ↦ inl p.0 | inr q ↦ inr (found_none-IsOpen _ q) ])
  admit-IsGoodReply username password next (some state) h g l v s =
      Finds-if (state == codes "suspended") _ _ (λ _. Finds-pure _ l)
        λ e1.
          Finds-if (state == codes "expired") _ _ (λ _. Finds-pure _ l)
            λ e2.
              sign_in-IsGoodReply username password next h g l v
                (elim s [ inl p ↦ inl p.0 | inr q ↦ inr (found_some-IsOpen _ state q e1 e2) ])

  check_credential-IsGoodReply :
      (username password next : Bytes) (h : History) (o : Outcome Bool)
      → IsLocalPath next
      → o ≡ env.valid_credential h username password
      → Finds
          (validated username password h)
          (IsGoodReply username password h)
          (check_credential env srv digests b64 username next o)
  unfolding check_credential IsGoodReply
  check_credential-IsGoodReply username password next h (ok true) l e =
      Finds-then _ _ (login_state-StateOf username password h)
        λ state g s. admit-IsGoodReply username password next state h g l (sym e) s
  check_credential-IsGoodReply username password next h (ok false) l e = Finds-pure _ l
  check_credential-IsGoodReply username password next h err l e = Finds-pure _ l

  handle_login_post-Finds :
      (r : Request) (h : History)
      → Finds h
          (IsGoodReply
            (trim_space (r.form (codes "username")))
            (trim_space (r.form (codes "password")))
            h)
          (handle_login_post env srv digests b64 r)
  unfolding handle_login_post IsGoodReply
  handle_login_post-Finds r h =
      let username = trim_space (r.form (codes "username")) in
      let password = trim_space (r.form (codes "password")) in
      let next = r.form (codes "next") in
      Finds-if (is_empty username || is_empty password) _ _
        (λ _. Finds-pure _ (safe_next-IsLocalPath next))
        λ _. Finds-ask _ _ _ (
          check_credential-IsGoodReply username password (safe_next next) h _
            (safe_next-IsLocalPath next) refl)

  -- Every redirect target of a login's reply starts with `/`, and not with `//`. A reply that
  -- signs the user in does so with a session cookie for the user name of the form, made at the end
  -- of the login, after its password was found valid at the start; and where there is a store, the
  -- slot looked up next under that name is neither suspended nor expired, or the lookup has failed
  -- or found no slot, which lets the user in.
  pub handle_login_post-IsGoodReply :
      (r : Request) (w : World) (reply : LoginReply)
      → (handle_login_post env srv digests b64 r w).0 ≡ done reply
      → IsGoodReply
          (trim_space (r.form (codes "username")))
          (trim_space (r.form (codes "password")))
          w.history
          reply
          (handle_login_post env srv digests b64 r w).1.history
  handle_login_post-IsGoodReply r w reply e =
      (handle_login_post-Finds r w.history).at w refl reply e

  -- The form carries a redirect target that starts with `/` and not with `//`, whatever was asked
  -- for; and a logout leads to the login with a cookie that has no value and expires at once. Both
  -- always succeed, and neither calls or changes anything.
  pub login_form-IsLocalPath :
      (r : Request) (w : World)
      → ((next : Bytes) × IsLocalPath next
          × (handle_login_get env srv digests b64 r w ≡ (done (form next []), w)))
        × (handle_logout env srv digests b64 w
            ≡ (done (redirect (session_cookie srv [] (negative 1)) (codes "/auth/login")), w))
  unfolding handle_login_get handle_logout clear_session_cookie pure
  login_form-IsLocalPath r w =
      ((safe_next (r.query (codes "next")), safe_next-IsLocalPath _, refl), refl)
