-- ===== src/Login.antt =====
-- internal/authsvc/auth.go: the login form, its redirect target, logout and `/auth/me`.
pub mod Laws
pub mod Lifetime
pub mod Calls
use abc_auth_svc.Base.{
  ℕ, zero, suc, ◌+◌, ◌-◌, ◌*◌, ◌/◌, ◌%◌, ◌^◌, ◌≤◌, ◌<◌, ◌≡◌, refl, sym, ap, ◌∙◌, subst, ◌≡⟨◌⟩◌, ◌∎,
  ◌≢◌, ◌↔◌, ◌⊎◌, inl, inr, Bool, true, false, not, ◌&&◌, ◌||◌, Option, none, some, List, [], ◌∷◌,
  ◌++◌, append-nil, append_assoc, arith, ltb, leb, nat_eq, if◌then◌else◌, nat_eq_iff, nat_eq_refl,
  Bool-cases, Option-cases, length, take, drop, all, length-append, take-append_left,
  drop-append_left, drop_past, All, All-append, All-append_left, All-append_right, Bytes, codes,
  ◌==◌, eq_of_==, ==_refl, ==_iff, is_empty, Lacks, String,
}
use abc_auth_svc.Text.{trim_space, has_prefix}
use abc_auth_svc.Text.Query.{query_unescape}
use abc_auth_svc.Crypto.{Base64, Digests}
use abc_auth_svc.Session.{make}
use abc_auth_svc.Forward.{Cookie, set_session_cookie, clear_session_cookie, verifier}
use abc_auth_svc.Identity.{Identity, nomad_identity}
use abc_auth_svc.Identity.Groups.{groups_from_policies}
use abc_auth_svc.Upstreams.{Env, Server, Outcome, ok, err, Slot}
use abc_auth_svc.Http.{
  Handler, ◌>>=◌, ◌>>◌, pure, Request, require, or_fail, present, has_store,
  nomad_token_from_request,
}
use abc_auth_svc.Http.Actions.{find_slot, validate_credential, lookup_token_self, now}

-- safeNext
unfoldable pub safe_next : Bytes → Bytes
safe_next raw =
    let u : Bytes = elim (query_unescape (trim_space raw)) [ some u ↦ u | none ↦ trim_space raw ] in
    if not (has_prefix u (b'/' ∷ [])) || has_prefix u (b'/' ∷ b'/' ∷ []) then b'/' ∷ [] else u

-- The form again, with the redirect target and an error; or the cookie and the redirect.
pub data LoginReply : Type 0 where
  form : Bytes → Bytes → LoginReply
  redirect : Cookie → Bytes → LoginReply

-- The state of the slot that was found; none where the lookup has failed or found no slot.
state_found : Outcome (Option Slot) → Option Bytes
state_found (ok (some slot)) = some slot.state
state_found (ok none) = none
state_found err = none

module _ (env : Env) (srv : Server) (digests : Digests) (b64 : Base64) where
  -- handleLoginGet
  pub handle_login_get : Request → Handler LoginReply
  handle_login_get r = pure (form (safe_next (r.query (codes "next"))) [])

  sign_in : Bytes → Bytes → Handler LoginReply
  sign_in username next = do
    moment ← now env
    pure (
        redirect
          (set_session_cookie srv (make digests b64 (verifier srv) moment username srv.session_ttl))
          next)

  -- The slot's state, looked up without the cache; none without a store.
  login_state : Bytes → Handler (Option Bytes)
  unfolding state_found
  login_state username =
      if has_store srv.store
      then (do
        found ← find_slot env (codes "minio_access_key='" ++ username ++ codes "'")
        pure (state_found found))
      else pure none

  -- No state lets the user in: a lookup that fails does not block a login.
  admit : Bytes → Bytes → Option Bytes → Handler LoginReply
  unfolding sign_in
  admit username next none = sign_in username next
  admit username next (some state) =
      if state == codes "suspended"
      then pure (form next (codes "Account suspended. Contact your administrator."))
      else if state == codes "expired"
      then pure (form next (codes "Account is no longer active."))
      else sign_in username next

  check_credential : Bytes → Bytes → Outcome Bool → Handler LoginReply
  unfolding login_state admit
  check_credential username next (ok true) = do
    state ← login_state username
    admit username next state
  check_credential username next _ = pure (form next (codes "Invalid username or password."))

  -- handleLoginPost
  unfoldable pub handle_login_post : Request → Handler LoginReply
  unfolding check_credential
  handle_login_post r =
      let username = trim_space (r.form (codes "username")) in
      let password = trim_space (r.form (codes "password")) in
      let next = safe_next (r.form (codes "next")) in
      if is_empty username || is_empty password
      then pure (form next (codes "Username and password are required."))
      else (do
        valid ← validate_credential env username password
        check_credential username next valid)

  -- handleLogout
  pub handle_logout : Handler LoginReply
  handle_logout = pure (redirect (clear_session_cookie srv) (codes "/auth/login"))

-- The body of `/auth/me`; `namespace` repeats `primary_group`.
pub record Me : Type 0 where
  pub user : Bytes
  pub groups : List Bytes
  pub primary_group : Bytes
  pub role_based : Bool

abbrev first_or_empty : List Bytes → Bytes
first_or_empty [] = []
first_or_empty (g ∷ gs) = g

module _ (env : Env) where
  -- handleAuthMe
  unfoldable pub handle_auth_me : Request → Handler Me
  handle_auth_me r = do
    let token = nomad_token_from_request r
    require (not (is_empty token)) 401 (codes "missing token")
    looked_up ← lookup_token_self env token
    info_or_nil ← or_fail looked_up 401 (codes "invalid token")
    info ← present info_or_nil 401 (codes "invalid token")
    let id = nomad_identity info
    let groups = groups_from_policies id.policies
    pure (record {
      user = id.user;
      groups = groups;
      primary_group = if is_empty id.namespace then first_or_empty groups else id.namespace;
      role_based = has_prefix id.policies (codes "role:");
    })
