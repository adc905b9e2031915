-- ===== src/Wiring.antt =====
-- internal/authsvc/upstreams.go and the struct of server.go: the server that a configuration gives,
-- and the mocks of --mock-upstreams (those of minio.go and minio_admin.go included).
pub mod Mocks
pub mod Works
use abc_auth_svc.Base.{
  ◌>>=◌, ℕ, ◌/◌, Bool, not, true, false, Option, none, some, Bytes, if◌then◌else◌,
}
use abc_auth_svc.Text.Decimal.{Int64, positive, negative}
use abc_auth_svc.Upstreams.{Server, manager, ClusterInfo}
use abc_auth_svc.Config.{Config}

-- `int(d.Seconds())` of a duration in nanoseconds, where it is not negative.
unfoldable pub lifetime : Int64 → Option ℕ
lifetime (positive ns) = some (ns / 1000000000)
lifetime (negative ns) = none

-- NewServer around what BuildUpstreams gives: the fields that the handlers read. A mock has fewer
-- of the optional interfaces than a client.
unfoldable pub server_with : Config → ℕ → ℕ → Server
server_with cfg session_ttl cli_token_ttl =
    let is_real = not cfg.mock_upstreams in
    record {
      store = manager;
      is_key_store = is_real;
      is_pb_client = is_real;
      has_nomad_admin = true;
      has_minio_admin = true;
      is_hub_client = is_real;
      has_user_exister = is_real;
      has_console_login = true;
      operator_token = cfg.operator_token;
      root_mk_b64 = cfg.root_mk_b64;
      session_secret = cfg.session_secret;
      session_ttl = session_ttl;
      cookie_secure = cfg.cookie_secure;
      cookie_domain = cfg.cookie_domain;
      cli_token_ttl = cli_token_ttl;
      hub_public_url = cfg.hub_public_url;
      hub_api_url = cfg.jupyterhub_api_url;
      hub_admin_token = cfg.jupyterhub_admin_token;
      cluster = cfg.cluster;
      log_level = cfg.log_level;
    }

-- `none` for a configuration with a lifetime that has wrapped around to a negative one.
unfoldable pub build_server : Config → Option Server
unfolding lifetime server_with
build_server cfg = do
  session_ttl ← lifetime cfg.session_ttl
  cli_token_ttl ← lifetime cfg.cli_token_ttl
  some (server_with cfg session_ttl cli_token_ttl)
