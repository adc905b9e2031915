-- ===== src/Config.antt =====
-- internal/authsvc/config.go: the configuration, from the environment and the command line.
pub mod Flags
pub mod Laws
use abc_auth_svc.Base.{
  mem, ℕ, zero, suc, ◌+◌, ◌-◌, ◌*◌, ◌/◌, ◌%◌, ◌^◌, ◌≤◌, ◌<◌, ◌≡◌, refl, sym, ap, ◌∙◌, subst, ◌≡⟨◌⟩◌,
  ◌∎, ◌≢◌, ◌↔◌, ◌⊎◌, inl, inr, Bool, true, false, not, ◌&&◌, ◌||◌, Option, none, some, List, [],
  ◌∷◌, ◌++◌, append-nil, append_assoc, arith, ltb, leb, nat_eq, if◌then◌else◌, nat_eq_iff,
  nat_eq_refl, Bool-cases, Option-cases, length, take, drop, all, length-append, take-append_left,
  drop-append_left, drop_past, All, All-append, All-append_left, All-append_right, Bytes, codes,
  ◌==◌, eq_of_==, ==_refl, ==_iff, is_empty, Lacks, String,
}
use abc_auth_svc.Text.{trim_space, to_lower}
use abc_auth_svc.Text.Decimal.{Int64, positive, negative, parse_int}
use abc_auth_svc.LogLevel.{l1, parse_level, level_string}
use abc_auth_svc.Upstreams.{Outcome, ok, err, ClusterInfo}
use abc_auth_svc.Config.Flags.{FlagValues, parse_flags}

-- Config, without the four timeouts of the HTTP server, which are constants.
pub record Config : Type 0 where
  pub listen_addr : Bytes
  pub log_level : Int64
  pub mock_upstreams : Bool
  pub show_version : Bool
  pub nomad_addr : Bytes
  pub nomad_admin_token : Bytes
  pub jupyterhub_api_url : Bytes
  pub jupyterhub_admin_token : Bytes
  pub hub_public_url : Bytes
  pub mcli_binary : Bytes
  pub mcli_alias : Bytes
  pub pocketbase_url : Bytes
  pub pb_admin_email : Bytes
  pub pb_admin_password : Bytes
  pub cluster : ClusterInfo
  pub minio_console_url : Bytes
  pub operator_token : Bytes
  pub root_mk_b64 : Bytes
  pub session_secret : Bytes
  pub session_ttl : Int64
  pub cookie_secure : Bool
  pub cookie_domain : Bytes
  pub shadow_validate_url : Bytes
  pub cli_token_ttl : Int64
  pub scrub_secrets : List Bytes

-- `v := strings.TrimSpace(...); if v == "" { v = def }`
abbrev pub or_default : Bytes → Bytes → Bytes
or_default v def = if is_empty v then def else v

-- isTruthy
unfoldable pub is_truthy : Bytes → Bool
is_truthy s =
    mem (to_lower (trim_space s)) (codes "1" ∷ codes "true" ∷ codes "yes" ∷ codes "on" ∷ [])

-- `time.Duration(n) * time.Second`: nanoseconds in an int64, which wraps around.
unfoldable pub seconds : ℕ → Int64
seconds n =
    let ns = n * 1000000000 % 2 ^ 64 in
    if ltb ns (2 ^ 63) then positive ns else negative (2 ^ 64 - ns)

-- The environment's number of seconds if it is a positive int, or else the default.
ttl_of : Option Int64 → ℕ → Int64
unfolding seconds
ttl_of none def = seconds def
ttl_of (some (negative n)) def = seconds def
ttl_of (some (positive n)) def = if nat_eq n 0 then seconds def else seconds n

-- The six secrets, in the order in which LoadConfig collects them.
abbrev pub secrets_of : Config → List Bytes
secrets_of cfg =
    cfg.jupyterhub_admin_token ∷ cfg.pb_admin_password ∷ cfg.operator_token ∷ cfg.root_mk_b64
    ∷ cfg.session_secret ∷ cfg.nomad_admin_token ∷ []

unfoldable pub nonempty : List Bytes → List Bytes
nonempty [] = []
nonempty (s ∷ ss) = let rest = nonempty ss in if is_empty s then rest else s ∷ rest

module _ (getenv : Bytes → Bytes) where
  -- `strings.TrimSpace(getenv(key))`
  abbrev trimmed : String → Bytes
  trimmed key = trim_space (getenv (codes key))

  -- getenvOr
  unfoldable pub getenv_or : String → Bytes → Bytes
  getenv_or key def = or_default (trimmed key) def

  unfoldable pub ttl : String → ℕ → Int64
  unfolding ttl_of
  ttl key def = ttl_of (parse_int (trimmed key)) def

  cluster_info : ClusterInfo
  unfolding getenv_or
  cluster_info = record {
    name = getenv_or "CLUSTER_NAME" (codes "seedling");
    nomad_endpoint =
        getenv_or "CLUSTER_NOMAD_ENDPOINT" (codes "https://nomad.seedling.abc-cluster.cloud");
    minio_endpoint =
        getenv_or "CLUSTER_MINIO_ENDPOINT" (codes "https://s3.seedling.abc-cluster.cloud");
    upload_endpoint =
        getenv_or "CLUSTER_UPLOAD_ENDPOINT"
          (codes "https://upload.seedling.abc-cluster.cloud/files/");
    auth_endpoint =
        getenv_or "CLUSTER_AUTH_ENDPOINT" (codes "https://workbench.seedling.abc-cluster.cloud");
    datacenter = getenv_or "CLUSTER_DATACENTER" (codes "seedling-prod");
    head_pool = getenv_or "CLUSTER_HEAD_POOL" (codes "platform");
    worker_pool = getenv_or "CLUSTER_WORKER_POOL" (codes "compute");
  }

  -- The level of the environment.
  env_level : Outcome Int64
  env_level =
      if is_empty (trimmed "ABC_AUTH_LOG_LEVEL")
      then ok l1
      else parse_level (trimmed "ABC_AUTH_LOG_LEVEL")

  -- The defaults of the flags: the environment, or the constants.
  flag_defaults : Int64 → FlagValues
  unfolding getenv_or
  flag_defaults level = record {
    listen = getenv_or "ABC_AUTH_LISTEN" (codes "127.0.0.1:4182");
    log_level = level_string level;
    mock_upstreams = is_truthy (getenv (codes "ABC_AUTH_MOCK_UPSTREAMS"));
    version = false;
    nomad_addr = getenv_or "NOMAD_ADDR" (codes "http://127.0.0.1:4646");
    jupyterhub_api_url = getenv_or "JUPYTERHUB_API_URL" (codes "http://127.0.0.1:15001/hub/api");
    hub_public_url =
        getenv_or "HUB_PUBLIC_URL" (codes "https://workbench.seedling.abc-cluster.cloud");
  }

  -- The configuration from the flags, the level that they name, and the environment; the session
  -- secret alone is not trimmed.
  unfoldable pub config_of : FlagValues → Int64 → Config
  unfolding ttl getenv_or cluster_info
  config_of f level =
      let cfg : Config = record {
        listen_addr = f.listen;
        log_level = level;
        mock_upstreams = f.mock_upstreams;
        show_version = f.version;
        nomad_addr = f.nomad_addr;
        nomad_admin_token = trimmed "NOMAD_TOKEN";
        jupyterhub_api_url = f.jupyterhub_api_url;
        jupyterhub_admin_token = trimmed "JUPYTERHUB_API_TOKEN";
        hub_public_url = f.hub_public_url;
        mcli_binary = getenv_or "MCLI_BIN" (codes "/usr/local/bin/mcli");
        mcli_alias = getenv_or "MCLI_ALIAS" (codes "sdroot");
        pocketbase_url = getenv_or "POCKETBASE_URL" (codes "http://127.0.0.1:8091");
        pb_admin_email = getenv_or "PB_ADMIN_EMAIL" (codes "abc-auth@internal");
        pb_admin_password = trimmed "PB_ADMIN_PASSWORD";
        cluster = cluster_info;
        minio_console_url = getenv_or "MINIO_CONSOLE_URL" (codes "http://localhost:9001");
        operator_token = trimmed "OPERATOR_TOKEN";
        root_mk_b64 = trimmed "ABC_AUTH_ROOT_MK";
        session_secret = getenv (codes "SESSION_SECRET");
        session_ttl = ttl "SESSION_TTL_SECONDS" 604800;
        cookie_secure =
            if is_empty (trimmed "COOKIE_SECURE")
            then true
            else is_truthy (trimmed "COOKIE_SECURE");
        cookie_domain = trimmed "COOKIE_DOMAIN";
        shadow_validate_url = trimmed "SHADOW_VALIDATE_URL";
        cli_token_ttl = ttl "CLI_TOKEN_TTL" 60;
        scrub_secrets = [];
      } in
      record cfg { scrub_secrets = nonempty (secrets_of cfg) }

  with_flags : Outcome FlagValues → Outcome Config
  unfolding config_of
  with_flags err = err
  with_flags (ok f) = elim (parse_level f.log_level) [
    | err ↦ err
    | ok level ↦ ok (config_of f level)
  ]

  -- LoadConfig
  unfoldable pub load_config : List Bytes → Outcome Config
  unfolding env_level flag_defaults with_flags
  load_config args = elim env_level [
    | err ↦ err
    | ok level ↦ with_flags (parse_flags none args (flag_defaults level))
  ]
