-- ===== src/Workbench.antt =====
-- internal/authsvc/workbench.go: minting a JupyterHub token for the caller's user.
pub mod Laws
pub mod Calls
use abc_auth_svc.Base.{
  ℕ, zero, suc, ◌+◌, ◌-◌, ◌*◌, ◌/◌, ◌%◌, ◌^◌, ◌≤◌, ◌<◌, ◌≡◌, refl, sym, ap, ◌∙◌, subst, ◌≡⟨◌⟩◌, ◌∎,
  ◌≢◌, ◌↔◌, ◌⊎◌, inl, inr, Bool, true, false, not, ◌&&◌, ◌||◌, Option, none, some, List, [], ◌∷◌,
  ◌++◌, append-nil, append_assoc, arith, ltb, leb, nat_eq, if◌then◌else◌, nat_eq_iff, nat_eq_refl,
  Bool-cases, Option-cases, length, take, drop, all, length-append, take-append_left,
  drop-append_left, drop_past, All, All-append, All-append_left, All-append_right, Bytes, codes,
  ◌==◌, eq_of_==, ==_refl, ==_iff, is_empty, Lacks, String,
}
use abc_auth_svc.Text.{trim_space, trim_prefix, has_prefix}
use abc_auth_svc.Text.Decimal.{Int64, positive, negative, decimal}
use abc_auth_svc.Forward.{is_blocked}
use abc_auth_svc.Upstreams.{
  Env, Server, Outcome, ok, err, JhToken, HubError, hub_http_error, hub_unreachable, MintResult,
  minted, refused,
}
use abc_auth_svc.Http.{
  Handler, ◌>>=◌, ◌>>◌, pure, Request, Body, empty, malformed, decoded, Json, str, err_json,
  err_object, require, or_fail, present, has_store, nomad_token_from_request,
}
use abc_auth_svc.Http.Actions.{lookup_token_self, cached_slot_state, mint_user_token, user_exists}

abbrev pub default_ttl : ℕ
default_ttl = 604800

abbrev pub max_ttl : ℕ
max_ttl = 2592000

-- The `expires_in` of the body: not sent (or null), not an integer, or an integer.
pub data ExpiresIn : Type 0 where
  absent not_integer : ExpiresIn
  seconds : Int64 → ExpiresIn

pub record MintRequest : Type 0 where
  pub note : Bytes
  pub expires_in : ExpiresIn

pub record MintResponse : Type 0 where
  pub token : Bytes
  pub id : Bytes
  pub expires_at : Bytes
  pub scopes : List Bytes
  pub note : Bytes
  pub slot : Bytes
  pub hub_url : Bytes

-- The JupyterHub user of a token's name: both branches of the source.
unfoldable pub jupyter_user : Bytes → Bytes
jupyter_user raw_name =
    if has_prefix raw_name (codes "pool-") then trim_prefix raw_name (codes "pool-") else raw_name

mint_request_of : Body MintRequest → Handler MintRequest
mint_request_of empty = pure (record { note = []; expires_in = absent })
mint_request_of malformed = err_json 400 (codes "invalid JSON body")
mint_request_of (decoded req) = pure req

unfoldable pub checked_ttl : ExpiresIn → Handler ℕ
checked_ttl absent = pure default_ttl
checked_ttl not_integer = err_json 400 (codes "expires_in must be an integer (seconds)")
checked_ttl (seconds (negative n)) = err_json 400 (codes "expires_in must be positive")
checked_ttl (seconds (positive n)) =
    if nat_eq n 0
    then err_json 400 (codes "expires_in must be positive")
    else if ltb max_ttl n
    then err_json 400 (codes "expires_in cannot exceed 30 days (2592000 seconds)")
    else pure n

-- What the probe says of a refused mint; the empty diagnosis is left out of the reply.
diagnosis : Outcome (Option Bool) → Bytes
diagnosis err = codes "jh-user-probe-failed"
diagnosis (ok none) = []
diagnosis (ok (some false)) = codes "jh-user-not-found"
diagnosis (ok (some true)) = codes "jh-scope-or-token-issue"

module _ (env : Env) (srv : Server) where
  diagnose : Bytes → ℕ → Handler Bytes
  unfolding diagnosis
  diagnose user status =
      if (nat_eq status 403 || nat_eq status 404) && srv.has_user_exister
      then (do probe ← user_exists env user; pure (diagnosis probe))
      else pure []

  hub_failure : Bytes → ℕ → Bytes → List (Bytes × Json)
  hub_failure user status diag =
      (codes "error", str (codes "hub mint failed: HTTP " ++ decimal status))
      ∷ (
        codes "hint",
        str (
            codes "GET /manage/slots/"
            ++ user
            ++ codes "/diag (operator-gated) for a structured readiness report."),
      )
      ∷ (if is_empty diag then [] else (codes "diag", str diag) ∷ [])

  mint_outcome : Bytes → Bytes → MintResult → Handler MintResponse
  unfolding diagnose hub_failure
  mint_outcome user note (minted tok) = pure (record {
    token = tok.token;
    id = tok.id;
    expires_at = tok.expires_at;
    scopes = tok.scopes;
    note = if is_empty tok.note then note else tok.note;
    slot = user;
    hub_url = srv.hub_public_url;
  })
  mint_outcome user note (refused (hub_http_error status)) = do
    diag ← diagnose user status
    err_object 502 (hub_failure user status diag)
  mint_outcome user note (refused hub_unreachable) = err_json 503 (codes "hub unreachable")

  -- Suspended and expired slots mint nothing.
  gate : Bytes → Handler (Unit {0})
  gate user =
      if has_store srv.store
      then (do
        state ← cached_slot_state env user
        require (not (is_blocked state)) 403 (codes "slot is " ++ state))
      else pure tt

  mint_for : Bytes → MintRequest → Handler MintResponse
  unfolding mint_outcome
  mint_for user req = do
    let note =
        if is_empty (trim_space req.note) then codes "abc-cli-" ++ user else trim_space req.note
    ttl ← checked_ttl req.expires_in
    result ← mint_user_token env user note ttl
    mint_outcome user note result

  -- handleWorkbenchToken
  unfoldable pub handle_workbench_token : Request → Body MintRequest → Handler MintResponse
  unfolding mint_request_of gate mint_for
  handle_workbench_token r sent = do
    let token = nomad_token_from_request r
    require (not (is_empty token)) 401
        (codes "missing token (provide X-Nomad-Token or Authorization: Bearer)")
    looked_up ← lookup_token_self env token
    info_or_nil ← or_fail looked_up 401 (codes "invalid or expired token")
    info ← present info_or_nil 401 (codes "invalid or expired token")
    let raw_name = trim_space info.name
    require (not (is_empty raw_name)) 401 (codes "could not determine username from token")
    let user = jupyter_user raw_name
    gate user
    req ← mint_request_of sent
    mint_for user req
