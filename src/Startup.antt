-- ===== src/Startup.antt =====
-- src/main.go and the start-up banner of internal/authsvc/server.go: from the command line to the
-- server that listens, and what is logged on the way. The calls of the operating system, the
-- signals and the shutdown are not part of it.
pub mod Laws
use abc_auth_svc.Base.{
  Bool, Option, none, some, List, [], ◌∷◌, ◌++◌, leb, if◌then◌else◌, length, take, Bytes, codes,
  is_empty,
}
use abc_auth_svc.Text.{contains}
use abc_auth_svc.Text.Decimal.{decimal}
use abc_auth_svc.Upstreams.{Outcome, ok, err, Server}
use abc_auth_svc.Redact.{text, other, Attrs, nil, cons, LogRecord}
use abc_auth_svc.Health.{BuildInfo}
use abc_auth_svc.Config.{Config, load_config}
use abc_auth_svc.Wiring.{build_server}

abbrev pub replace_with : Bytes
replace_with = codes "REPLACE_WITH"

-- tokenShape: the state, and the prefix.
unfoldable pub token_shape : Bytes → Bytes × Bytes
token_shape tok =
    if is_empty tok
    then (codes "unset", codes "(empty)")
    else if contains tok replace_with
    then (codes "placeholder", tok)
    else if leb 8 (length tok)
    then (codes "set", take 8 tok)
    else (codes "set", tok)

attrs_of : List (Bytes × Bytes) → Attrs → Attrs
attrs_of [] rest = rest
attrs_of ((k, v) ∷ fields) rest = let after = attrs_of fields rest in cons (text k v) after

-- The record `server.startup.config`.
unfoldable pub startup_config : Config → LogRecord
unfolding attrs_of
startup_config cfg =
    let (state, prefix) = token_shape cfg.jupyterhub_admin_token in
    record {
      message = codes "server.startup.config";
      attrs =
          attrs_of
            ((codes "listen", cfg.listen_addr)
              ∷ (codes "jupyterhub_api_url", cfg.jupyterhub_api_url)
              ∷ (codes "jupyterhub_admin_token", state)
              ∷ (codes "jupyterhub_admin_token_prefix", prefix)
              ∷ [])
            (cons
              (other (codes "jupyterhub_admin_token_len")
                (decimal (length cfg.jupyterhub_admin_token)))
              (attrs_of
                ((codes "nomad_addr", cfg.nomad_addr)
                  ∷ (codes "pocketbase_url", cfg.pocketbase_url)
                  ∷ (codes "minio_console_url", cfg.minio_console_url)
                  ∷ [])
                nil));
    }

abbrev pub probe_name : Bytes
probe_name = codes "__diag_probe__"

-- The record `server.startup.jupyterhub_probe`; `none` is the text of no error.
probe_record : Option Bytes → LogRecord
unfolding attrs_of
probe_record none = record {
  message = codes "server.startup.jupyterhub_probe";
  attrs = attrs_of ((codes "status", codes "reachable") ∷ []) nil;
}
probe_record (some message) = record {
  message = codes "server.startup.jupyterhub_probe";
  attrs =
      attrs_of
        ((codes "status", codes "unreachable_or_unauthorized") ∷ (codes "error", message) ∷ []) nil;
}

-- logStartupBanner, where `user_error` is the error of UserExists for a user, if there is one.
unfoldable pub startup_banner : Config → Bool → (Bytes → Option Bytes) → List LogRecord
unfolding startup_config probe_record
startup_banner cfg has_user_exister user_error =
    startup_config cfg
    ∷ (if has_user_exister then probe_record (user_error probe_name) ∷ [] else [])

-- What Run logs before it listens.
listening : Config → BuildInfo → LogRecord
unfolding attrs_of
listening cfg build = record {
  message = codes "server.listening";
  attrs =
      attrs_of
        ((codes "addr", cfg.listen_addr)
          ∷ (codes "version", build.version)
          ∷ (codes "commit", build.git_commit)
          ∷ [])
        nil;
}

-- What `run` of main.go comes to: an error, the text of -version, or a server with the records
-- that it has logged.
pub data Started : Type 0 where
  refused : Started
  shown : Bytes → Started
  serving : Config → Server → List LogRecord → Started

version_text : BuildInfo → Bytes
version_text build =
    codes "abc-auth-svc "
    ++ build.version
    ++ codes " (commit "
    ++ build.git_commit
    ++ codes ", built "
    ++ build.build_time
    ++ codes ")"
    ++ 10 ∷ []

module _ (build : BuildInfo) (user_error : Bytes → Option Bytes) where
  -- `none` is a configuration with a lifetime that has wrapped around.
  started : Config → Option Server → Option Started
  unfolding startup_banner listening
  started cfg none = none
  started cfg (some srv) = some (
      serving cfg srv
        (startup_banner cfg srv.has_user_exister user_error ++ listening cfg build ∷ []))

  run_with : Outcome Config → Option Started
  unfolding version_text started
  run_with err = some refused
  run_with (ok cfg) =
      if cfg.show_version then some (shown (version_text build)) else started cfg (build_server cfg)

  -- run
  unfoldable pub run : (Bytes → Bytes) → List Bytes → Option Started
  unfolding run_with
  run getenv args = run_with (load_config getenv args)
