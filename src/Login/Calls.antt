-- ===== src/Login/Calls.antt =====
-- The logins: the calls that are made, by the state that they give a slot.
use abc_auth_svc.Base.{some, none, Option, Bool, true, false, Bytes}
use abc_auth_svc.Crypto.{Base64, Digests}
use abc_auth_svc.Upstreams.{Env, Server, Outcome, ok, err}
use abc_auth_svc.Http.{Request}
use abc_auth_svc.Http.Calls.{OnlyCalls, calls_rules}
use abc_auth_svc.Claim.Race.{KeepsClaims}
use abc_auth_svc.Login.{
  sign_in, login_state, admit, check_credential, handle_login_get, handle_login_post, handle_logout,
  handle_auth_me,
}
use abc_auth_svc.Base.{Option}

module _ (env : Env) (srv : Server) (digests : Digests) (b64 : Base64) where
  admit-KeepsClaims :
      (username next : Bytes) (state : Option Bytes)
      → OnlyCalls KeepsClaims (admit env srv digests b64 username next state)
  unfolding admit sign_in
  admit-KeepsClaims username next none = search calls_rules depth 20
  admit-KeepsClaims username next (some state) = search calls_rules depth 20

  check_credential-KeepsClaims :
      (username next : Bytes) (o : Outcome Bool)
      → OnlyCalls KeepsClaims (check_credential env srv digests b64 username next o)
  unfolding check_credential login_state
  check_credential-KeepsClaims username next (ok true) =
      search (calls_rules, admit-KeepsClaims) depth 20
  check_credential-KeepsClaims username next (ok false) = search calls_rules
  check_credential-KeepsClaims username next err = search calls_rules

  pub handle_login_get-KeepsClaims :
      (r : Request) → OnlyCalls KeepsClaims (handle_login_get env srv digests b64 r)
  unfolding handle_login_get
  handle_login_get-KeepsClaims r = search calls_rules

  pub handle_login_post-KeepsClaims :
      (r : Request) → OnlyCalls KeepsClaims (handle_login_post env srv digests b64 r)
  unfolding handle_login_post
  handle_login_post-KeepsClaims r = search (calls_rules, check_credential-KeepsClaims) depth 20

  pub handle_logout-KeepsClaims : OnlyCalls KeepsClaims (handle_logout env srv digests b64)
  unfolding handle_logout
  handle_logout-KeepsClaims = search calls_rules

pub handle_auth_me-KeepsClaims :
    (env : Env) (r : Request) → OnlyCalls KeepsClaims (handle_auth_me env r)
unfolding handle_auth_me
handle_auth_me-KeepsClaims env r = search calls_rules depth 20
