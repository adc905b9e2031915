-- ===== src/Forward.antt =====
-- internal/authsvc/validate.go: the forward-auth verdict and the replies of `/validate`,
-- `/validate-optional` and `/validate-shadow`; the session cookie of session.go.
pub mod Laws
pub mod Calls
use abc_auth_svc.Base.{
  ℕ, zero, suc, ◌+◌, ◌-◌, ◌*◌, ◌/◌, ◌%◌, ◌^◌, ◌≤◌, ◌<◌, ◌≡◌, refl, sym, ap, ◌∙◌, subst, ◌≡⟨◌⟩◌, ◌∎,
  ◌≢◌, ◌↔◌, ◌⊎◌, inl, inr, Bool, true, false, not, ◌&&◌, ◌||◌, Option, none, some, List, [], ◌∷◌,
  ◌++◌, append-nil, append_assoc, arith, ltb, leb, nat_eq, if◌then◌else◌, nat_eq_iff, nat_eq_refl,
  Bool-cases, Option-cases, length, take, drop, all, length-append, take-append_left,
  drop-append_left, drop_past, All, All-append, All-append_left, All-append_right, Bytes, codes,
  ◌==◌, eq_of_==, ==_refl, ==_iff, is_empty, Lacks, String,
}
use abc_auth_svc.Text.Decimal.{Int64, positive, negative}
use abc_auth_svc.Text.Query.{query_escape}
use abc_auth_svc.Crypto.{Base64, Digests}
use abc_auth_svc.Session.{SessionVerifier, verify}
use abc_auth_svc.Upstreams.{Env, Server}
use abc_auth_svc.Http.{Handler, ◌>>=◌, pure, Request, has_store}
use abc_auth_svc.Http.Actions.{cached_slot_state, now}

-- `abc_session`, HttpOnly and SameSite=Lax on the path "/".
pub record Cookie : Type 0 where
  pub name : Bytes
  pub value : Bytes
  pub max_age : Int64
  pub secure : Bool
  pub domain : Bytes

-- A reply to a browser: `user` is the value of the three identity headers.
pub record Response : Type 0 where
  pub status : ℕ
  pub location : Option Bytes
  pub user : Option Bytes
  pub set_cookie : Option Cookie

abbrev pub session_cookie : Server → Bytes → Int64 → Cookie
session_cookie srv value max_age = record {
  name = codes "abc_session";
  value = value;
  max_age = max_age;
  secure = srv.cookie_secure;
  domain = srv.cookie_domain;
}

-- setSessionCookie and clearSessionCookie
unfoldable pub set_session_cookie : Server → Bytes → Cookie
set_session_cookie srv token = session_cookie srv token (positive srv.session_ttl)

unfoldable pub clear_session_cookie : Server → Cookie
clear_session_cookie srv = session_cookie srv [] (negative 1)

abbrev pub verifier : Server → SessionVerifier
verifier srv = record { secret = srv.session_secret }

-- validateVerdict: allow a user, send to the login, or deny a blocked slot and clear its cookie.
pub data ValidateVerdict : Type 0 where
  allow : Bytes → ValidateVerdict
  no_session : ValidateVerdict
  deny : Bytes → ValidateVerdict

-- The test on a slot's state that closes every door.
unfoldable pub is_blocked : Bytes → Bool
is_blocked state = state == codes "suspended" || state == codes "expired"

module _ (env : Env) (srv : Server) (digests : Digests) (b64 : Base64) where
  -- slotState
  unfoldable pub slot_state : Bytes → Handler Bytes
  slot_state user = if has_store srv.store then cached_slot_state env user else pure (codes "none")

  unfoldable pub judge : Option Bytes → Handler ValidateVerdict
  unfolding slot_state
  judge none = pure no_session
  judge (some username) = do
    state ← slot_state username
    pure (if is_blocked state then deny state else allow username)

  -- decideValidate
  unfoldable pub decide_validate : Request → Handler ValidateVerdict
  unfolding judge
  decide_validate r = do
    moment ← now env
    judge (elim r.cookie [
      | none ↦ none
      | some token ↦ verify digests b64 (verifier srv) moment token
    ])

  validate_response : Request → ValidateVerdict → Response
  validate_response r (allow user) = record {
    status = 200;
    location = none;
    user = some user;
    set_cookie = none;
  }
  validate_response r (deny state) = record {
    status = 302;
    location = some (codes "/auth/login");
    user = none;
    set_cookie = some (clear_session_cookie srv);
  }
  validate_response r no_session =
      let orig = r.header (codes "X-Forwarded-Uri") in
      record {
        status = 302;
        location =
            some (
              codes "/auth/login?next="
              ++ query_escape (if is_empty orig then codes "/" else orig));
        user = none;
        set_cookie = none;
      }

  -- handleValidate
  unfoldable pub handle_validate : Request → Handler Response
  unfolding validate_response
  handle_validate r = do verdict ← decide_validate r; pure (validate_response r verdict)

  abbrev plain : ℕ → Option Bytes → Response
  plain status user = record { status = status; location = none; user = user; set_cookie = none }

  optional_response : ValidateVerdict → Response
  optional_response (allow user) = plain 200 (some user)
  optional_response _ = plain 200 none

  -- handleValidateOptional
  pub handle_validate_optional : Request → Handler Response
  unfolding optional_response
  handle_validate_optional r = do verdict ← decide_validate r; pure (optional_response verdict)

  -- verdictHTTP
  verdict_http : ValidateVerdict → ℕ × Option Bytes
  verdict_http (allow user) = (200, some user)
  verdict_http _ = (302, none)

  -- handleValidateShadow: the answer of the shadow target is only compared and logged.
  pub handle_validate_shadow : Request → Handler Response
  unfolding verdict_http
  handle_validate_shadow r = do
    verdict ← decide_validate r
    pure (plain (verdict_http verdict).0 (verdict_http verdict).1)
