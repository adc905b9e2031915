-- ===== src/Service.antt =====
-- The service as one function of its requests: the handlers of internal/authsvc behind the routes of
-- server.go.
pub mod Guarded
pub mod Chain
pub mod Labelled
pub mod Calls
use abc_auth_svc.Base.{Bool, true, false, List, [], ◌∷◌, ◌&&◌, if◌then◌else◌, Bytes}
use abc_auth_svc.Crypto.{Base64, Digests}
use abc_auth_svc.KekWrap.{Aead}
use abc_auth_svc.Upstreams.{Env, Server}
use abc_auth_svc.Http.{Handler, Request, Body, ◌>>=◌, pure}
use abc_auth_svc.Health.{
  BuildInfo, ReadyResponse, handle_healthz, handle_readyz, handle_version, handle_not_found,
}
use abc_auth_svc.Forward.{
  Response, handle_validate, handle_validate_optional, handle_validate_shadow,
}
use abc_auth_svc.Login.{
  LoginReply, handle_login_get, handle_login_post, handle_logout, Me, handle_auth_me,
}
use abc_auth_svc.Magic.{
  CliTokenRequest, CliTokenResponse, handle_cli_token_post, Redirect, handle_auth_redeem,
  handle_auth_minio_login,
}
use abc_auth_svc.Workbench.{MintRequest, MintResponse, handle_workbench_token}
use abc_auth_svc.Exchange.{CredsBundle, handle_auth_exchange}
use abc_auth_svc.Slots.{ConfigFile, handle_slots_me_config}
use abc_auth_svc.Claim.{ClaimRequest, handle_slots_claim}
use abc_auth_svc.Secrets.{SecretsBody, handle_secrets_put, handle_secrets_get}
use abc_auth_svc.Keys.{ReleasedKey, MintedKey, handle_keys_get, handle_keys_mint}
use abc_auth_svc.Verify.{VerifyReply, handle_verify_nomad}
use abc_auth_svc.Manage.CredSource.{CredSourceResponse, handle_cred_source}
use abc_auth_svc.Manage.Listing.{PublicSlot, handle_manage_list_slots, handle_manage_get_slot}
use abc_auth_svc.Manage.Rotate.{handle_manage_rotate}
use abc_auth_svc.Manage.Lifecycle.{handle_manage_suspend, handle_manage_reactivate}
use abc_auth_svc.LogLevel.{LevelReport, LevelChange, get_log_level, post_log_level}
use abc_auth_svc.Diag.{SlotDiagReport, handle_slot_diag}
use abc_auth_svc.Diag.Host.{Probes}
use abc_auth_svc.Routes.{
  Verb, get_verb, Segment, literal, slot_name, Endpoint, Route, accepts, matches, routes,
  endpoint_of, not_found_endpoint, healthz_endpoint, readyz_endpoint, version_endpoint,
  validate_endpoint, validate_optional_endpoint, validate_shadow_endpoint, login_get_endpoint,
  login_post_endpoint, logout_endpoint, auth_me_endpoint, workbench_token_endpoint,
  auth_exchange_endpoint, slots_me_config_endpoint, cred_source_endpoint, slot_diag_endpoint,
  cli_token_post_endpoint, auth_redeem_endpoint, auth_minio_login_endpoint, verify_nomad_endpoint,
  manage_list_slots_endpoint, manage_get_slot_endpoint, secrets_put_endpoint, secrets_get_endpoint,
  keys_get_endpoint, keys_mint_endpoint, slots_claim_endpoint, manage_suspend_endpoint,
  manage_reactivate_endpoint, manage_rotate_endpoint, log_level_endpoint,
}

-- The body of the request, as each handler that reads it decodes it.
pub record Sent : Type 0 where
  pub cli_token : Body CliTokenRequest
  pub mint : Body MintRequest
  pub claim : Body ClaimRequest
  pub secrets : Body SecretsBody
  pub field : Body Bytes

-- The success of a handler.
pub data Payload : Type 0 where
  text : Bytes → Payload
  ready : ReadyResponse → Payload
  build : BuildInfo → Payload
  page : Response → Payload
  login : LoginReply → Payload
  me : Me → Payload
  mint : MintResponse → Payload
  bundle : CredsBundle → Payload
  config : ConfigFile → Payload
  cred_source : CredSourceResponse → Payload
  diag : SlotDiagReport → Payload
  cli_token : CliTokenResponse → Payload
  redirect : Redirect → Payload
  identity : VerifyReply → Payload
  slots : List PublicSlot → Payload
  slot : PublicSlot → Payload
  secret : Bytes → Payload
  key : ReleasedKey → Payload
  new_key : MintedKey → Payload
  level : LevelReport → Payload
  level_change : LevelChange → Payload
  is_ok : Payload

unfoldable pub into : {A : Type 0} → (A → Payload) → Handler A → Handler Payload
into f m = m >>= λ a. pure (f a)

-- What the handlers share: the server, what it calls, and what it was built from.
pub record Service : Type 0 where
  pub env : Env
  pub srv : Server
  pub digests : Digests
  pub b64 : Base64
  pub aead : Aead
  pub probes : Probes
  pub build : BuildInfo
  pub mock_upstreams : Bool

-- `r.PathValue("slot")`
unfoldable pub path_value : List Segment → List Bytes → Bytes
path_value (slot_name ∷ ps) (s ∷ path) = s
path_value (literal name ∷ ps) (s ∷ path) = path_value ps path
path_value _ _ = []

unfoldable pub path_slot_of : List Route → Verb → List Bytes → Bytes
path_slot_of [] verb path = []
path_slot_of (r ∷ rs) verb path =
    let rest = path_slot_of rs verb path in
    if matches r.pattern path && accepts r.verb verb then path_value r.pattern path else rest

module _ (s : Service) where
  open s use {env, srv, digests, b64, aead, probes}

  -- handleLogLevel: every verb but GET counts as POST, also the HEAD that the route for GET takes.
  unfoldable pub handle_log_level : Verb → Request → Body Bytes → Handler Payload
  handle_log_level get_verb r sent = into level (get_log_level srv r)
  handle_log_level verb r sent = into level_change (post_log_level srv r sent)

  -- The handler that NewServer registers for an endpoint.
  unfoldable pub handle : Endpoint → Verb → Request → Sent → Handler Payload
  unfolding handle_log_level
  handle not_found_endpoint verb r sent = handle_not_found
  handle healthz_endpoint verb r sent = into text handle_healthz
  handle readyz_endpoint verb r sent = into ready (handle_readyz s.build s.mock_upstreams)
  handle version_endpoint verb r sent = into build (handle_version s.build)
  handle validate_endpoint verb r sent = into page (handle_validate env srv digests b64 r)
  handle validate_optional_endpoint verb r sent =
      into page (handle_validate_optional env srv digests b64 r)
  handle validate_shadow_endpoint verb r sent =
      into page (handle_validate_shadow env srv digests b64 r)
  handle login_get_endpoint verb r sent = into login (handle_login_get env srv digests b64 r)
  handle login_post_endpoint verb r sent = into login (handle_login_post env srv digests b64 r)
  handle logout_endpoint verb r sent = into login (handle_logout env srv digests b64)
  handle auth_me_endpoint verb r sent = into me (handle_auth_me env r)
  handle workbench_token_endpoint verb r sent =
      into mint (handle_workbench_token env srv r sent.mint)
  handle auth_exchange_endpoint verb r sent = into bundle (handle_auth_exchange env srv digests r)
  handle slots_me_config_endpoint verb r sent = into config (handle_slots_me_config env srv r)
  handle cred_source_endpoint verb r sent =
      into cred_source (handle_cred_source env srv digests b64 r sent.field)
  handle slot_diag_endpoint verb r sent = into diag (handle_slot_diag env srv probes r)
  handle cli_token_post_endpoint verb r sent =
      into cli_token (handle_cli_token_post env srv sent.cli_token)
  handle auth_redeem_endpoint verb r sent = into redirect (handle_auth_redeem env srv digests b64 r)
  handle auth_minio_login_endpoint verb r sent = into redirect (handle_auth_minio_login env srv r)
  handle verify_nomad_endpoint verb r sent = into identity (handle_verify_nomad env r)
  handle manage_list_slots_endpoint verb r sent = into slots (handle_manage_list_slots env srv r)
  handle manage_get_slot_endpoint verb r sent = into slot (handle_manage_get_slot env srv r)
  handle secrets_put_endpoint verb r sent =
      into (λ _. is_ok) (handle_secrets_put env srv digests r sent.secrets)
  handle secrets_get_endpoint verb r sent =
      into secret (handle_secrets_get env srv digests r sent.secrets)
  handle keys_get_endpoint verb r sent =
      into key (handle_keys_get env srv digests aead r sent.field)
  handle keys_mint_endpoint verb r sent =
      into new_key (handle_keys_mint env srv digests aead r sent.field)
  handle slots_claim_endpoint verb r sent =
      into config (handle_slots_claim env srv digests b64 sent.claim)
  handle manage_suspend_endpoint verb r sent = into (λ _. is_ok) (handle_manage_suspend env srv r)
  handle manage_reactivate_endpoint verb r sent =
      into (λ _. is_ok) (handle_manage_reactivate env srv r)
  handle manage_rotate_endpoint verb r sent = into (λ _. is_ok) (handle_manage_rotate env srv r)
  handle log_level_endpoint verb r sent = handle_log_level verb r sent.field

  -- The mux of NewServer.
  unfoldable pub serve : Verb → List Bytes → Request → Sent → Handler Payload
  unfolding handle
  serve verb path r sent =
      handle (endpoint_of verb path) verb (record r { path_slot = path_slot_of routes verb path })
        sent
