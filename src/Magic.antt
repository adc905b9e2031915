-- ===== src/Magic.antt =====
-- internal/authsvc/magic.go: the store of one-time codes, `POST /auth/cli-token` and
-- `GET /auth/redeem`; minio_sso.go: `GET /auth/minio-login`.
pub mod Codes
pub mod Laws
pub mod Issue
pub mod Calls
use abc_auth_svc.Base.{
  ℕ, zero, suc, ◌+◌, ◌-◌, ◌*◌, ◌/◌, ◌%◌, ◌^◌, ◌≤◌, ◌<◌, ◌≡◌, refl, sym, ap, ◌∙◌, subst, ◌≡⟨◌⟩◌, ◌∎,
  ◌≢◌, ◌↔◌, ◌⊎◌, inl, inr, Bool, true, false, not, ◌&&◌, ◌||◌, Option, none, some, List, [], ◌∷◌,
  ◌++◌, append-nil, append_assoc, arith, ltb, leb, nat_eq, if◌then◌else◌, nat_eq_iff, nat_eq_refl,
  Bool-cases, Option-cases, length, take, drop, all, length-append, take-append_left,
  drop-append_left, drop_past, All, All-append, All-append_left, All-append_right, Bytes, codes,
  ◌==◌, eq_of_==, ==_refl, ==_iff, is_empty, Lacks, String,
}
use abc_auth_svc.Text.{
  trim_space, to_lower, trim_prefix, has_prefix, has_suffix, index_byte, contains,
}
use abc_auth_svc.Text.Decimal.{positive}
use abc_auth_svc.Crypto.{Base64, Digests, hex_encode}
use abc_auth_svc.Session.{make}
use abc_auth_svc.Forward.{Cookie, set_session_cookie, verifier, is_blocked}
use abc_auth_svc.Login.{safe_next}
use abc_auth_svc.Magic.Codes.{issue, redeem}
use abc_auth_svc.Upstreams.{Env, Server, World, Outcome, ok, err, MagicCode}
use abc_auth_svc.Http.{
  Handler, ◌>>=◌, ◌>>◌, pure, done, Request, Body, empty, malformed, decoded, err_json, require,
  or_fail, present, has_store,
}
use abc_auth_svc.Http.Actions.{
  lookup_token_self, cached_slot_state, console_login, random_bytes, now,
}

pub record CliTokenRequest : Type 0 where
  pub nomad_token : Bytes
  pub next : Bytes
  pub portal : Bytes
  pub minio_password : Bytes

pub record CliTokenResponse : Type 0 where
  pub code : Bytes
  pub ttl : ℕ

-- `m[key]` of a string map: "" where it is missing.
unfoldable pub field : Bytes → List (Bytes × Bytes) → Bytes
field k [] = []
field k ((j, v) ∷ m) = if j == k then v else field k m

cli_token_request_of : Body CliTokenRequest → Handler CliTokenRequest
cli_token_request_of empty = err_json 400 (codes "missing request body")
cli_token_request_of malformed = err_json 400 (codes "invalid JSON")
cli_token_request_of (decoded req) = pure req

module _ (env : Env) (srv : Server) where
  -- `magicCodeStore.issue` on the store of the world.
  issue_code : Bytes → Bytes → ℕ → List (Bytes × Bytes) → Handler (Outcome Bytes)
  issue_code username next ttl extra = do
    drawn ← random_bytes env
    moment ← now env
    let entry : MagicCode = record {
      username = username;
      expiry = moment + ttl;
      next_url = next;
      extra = extra;
    }
    elim drawn [
      | err ↦ pure err
      | ok buf ↦ λ w. (
        done (ok (hex_encode buf)),
        record w { magic = issue (hex_encode buf) entry moment w.magic },
      )
    ]

  redeem_code : Bytes → Handler (Option MagicCode)
  redeem_code code = do
    moment ← now env
    λ w. (done (redeem code moment w.magic).0, record w { magic = (redeem code moment w.magic).1 })

  jwt_field : Outcome Bytes → List (Bytes × Bytes)
  jwt_field err = []
  jwt_field (ok jwt) = if is_empty jwt then [] else (codes "minio_token", jwt) ∷ []

  -- The MinIO console token of the minio portal, if the login gives one.
  minio_extra : Bytes → Bytes → Bytes → Bytes → Handler (List (Bytes × Bytes))
  unfolding jwt_field
  minio_extra portal username password token =
      if portal == codes "minio" && srv.has_console_login
      then (do
        login ←
            console_login env username
              (if is_empty (trim_space password) then token else trim_space password)
        pure (jwt_field login))
      else pure []

  -- Suspended and expired slots get no code.
  gate : Bytes → Handler (Unit {0})
  gate username =
      if has_store srv.store
      then (do
        state ← cached_slot_state env username
        require (not (is_blocked state)) 403 (codes "slot is " ++ state))
      else pure tt

  abbrev code_ttl : ℕ
  code_ttl = if ltb 0 srv.cli_token_ttl then srv.cli_token_ttl else 60

  -- handleCLITokenPost
  pub handle_cli_token_post : Body CliTokenRequest → Handler CliTokenResponse
  unfolding cli_token_request_of issue_code minio_extra gate
  handle_cli_token_post sent = do
    req ← cli_token_request_of sent
    let token = trim_space req.nomad_token
    require (not (is_empty token)) 400 (codes "nomad_token required")
    let next = if is_empty (trim_space req.next) then b'/' ∷ [] else trim_space req.next
    let portal = to_lower (trim_space req.portal)
    looked_up ← lookup_token_self env token
    info_or_nil ← or_fail looked_up 401 (codes "invalid or expired Nomad token")
    info ← present info_or_nil 401 (codes "invalid or expired Nomad token")
    let raw_name = trim_space info.name
    require (not (is_empty raw_name)) 401 (codes "could not determine username from token")
    let username = trim_prefix raw_name (codes "pool-")
    gate username
    minio ← minio_extra portal username req.minio_password token
    let extra = (if is_empty portal then [] else (codes "portal", portal) ∷ []) ++ minio
    issued ← issue_code username next code_ttl extra
    code ← or_fail issued 500 (codes "code mint failed")
    pure (record { code = code; ttl = code_ttl })

-- isTrustedRedirect
strip_scheme : Bytes → Bytes
strip_scheme raw =
    if has_prefix raw (codes "https://")
    then drop (length (codes "https://")) raw
    else if has_prefix raw (codes "http://")
    then drop (length (codes "http://")) raw
    else raw

up_to_slash : Bytes → Bytes
up_to_slash rest = elim (index_byte rest b'/') [ none ↦ rest | some i ↦ take i rest ]

unfoldable pub is_trusted_redirect : Bytes → Bool
unfolding strip_scheme up_to_slash
is_trusted_redirect raw =
    (has_prefix raw (codes "http://") || has_prefix raw (codes "https://"))
    && has_suffix (up_to_slash (strip_scheme raw)) (codes ".abc-cluster.cloud")

-- Where a redemption leads: to the login with an error, or to a page with a cookie.
pub data Redirect : Type 0 where
  to : Bytes → Redirect
  with_cookie : Cookie → Bytes → Redirect

module _ (env : Env) (srv : Server) (digests : Digests) (b64 : Base64) where
  redeem_dest : Bytes → MagicCode → Bytes
  redeem_dest host entry =
      if field (codes "portal") entry.extra == codes "grafana" || contains host (codes "grafana.")
      then codes "/login"
      else if not (is_empty entry.next_url) && is_trusted_redirect entry.next_url
      then entry.next_url
      else safe_next entry.next_url

  redeem_entry : Request → Option MagicCode → Handler Redirect
  unfolding redeem_dest
  redeem_entry r none = pure (to (codes "/auth/login?error=link_expired"))
  redeem_entry r (some entry) = do
    moment ← now env
    pure (
        with_cookie
          (set_session_cookie srv
            (make digests b64 (verifier srv) moment entry.username srv.session_ttl))
          (redeem_dest r.host entry))

  -- handleAuthRedeem
  unfoldable pub handle_auth_redeem : Request → Handler Redirect
  unfolding redeem_code redeem_entry
  handle_auth_redeem r =
      let code = trim_space (r.query (codes "code")) in
      if is_empty code
      then pure (to (codes "/auth/login?error=missing_code"))
      else (do entry ← redeem_code env srv code; redeem_entry r entry)

-- The MinIO console cookie.
abbrev console_cookie : Server → Bytes → Cookie
console_cookie srv jwt = record {
  name = codes "token";
  value = jwt;
  max_age = positive 43200;
  secure = srv.cookie_secure;
  domain = [];
}

jwt_or_empty : Outcome Bytes → Bytes
jwt_or_empty (ok jwt) = jwt
jwt_or_empty err = []

module _ (env : Env) (srv : Server) where
  console_token : MagicCode → Handler Bytes
  unfolding jwt_or_empty
  console_token entry =
      if is_empty (field (codes "minio_token") entry.extra) && srv.has_console_login
      then (do login ← console_login env entry.username []; pure (jwt_or_empty login))
      else pure (field (codes "minio_token") entry.extra)

  minio_login_entry : Option MagicCode → Handler Redirect
  unfolding console_token
  minio_login_entry none = pure (to (codes "/?error=link_expired"))
  minio_login_entry (some entry) = do
    jwt ← console_token entry
    pure (if is_empty jwt then to (b'/' ∷ []) else with_cookie (console_cookie srv jwt) (b'/' ∷ []))

  -- handleAuthMinIOLogin
  pub handle_auth_minio_login : Request → Handler Redirect
  unfolding redeem_code minio_login_entry
  handle_auth_minio_login r =
      let code = trim_space (r.query (codes "code")) in
      if is_empty code
      then pure (to (codes "/?error=missing_code"))
      else (do entry ← redeem_code env srv code; minio_login_entry entry)
