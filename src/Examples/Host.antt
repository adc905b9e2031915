-- ===== src/Examples/Host.antt =====
-- The theorems on the report, the log, the configuration and the clients, applied in the small
-- network.
use abc_auth_svc.Base.{
  Lacks, ◌<◌, ◌==◌, ℕ, ◌≡◌, refl, ◌↔◌, true, false, some, [], ◌∷◌, arith, if◌then◌else◌, Bytes,
  codes, mem,
}
use abc_auth_svc.Text.{trim_space, contains}
use abc_auth_svc.Text.Replace.{IsClean}
use abc_auth_svc.Upstreams.{ok}
use abc_auth_svc.Diag.{SlotDiagReport, diagnose}
use abc_auth_svc.Diag.Laws.{IsReady, diagnose-IsReady}
use abc_auth_svc.Redact.{LogRecord, text, group, cons, nil, inner_text, scrub_record, scrub_secrets}
use abc_auth_svc.Redact.Logger.{
  Logger, bound, bind_attrs, Derived, IsRedactedLine, log_attrs, log_attrs-AreRedacted,
}
use abc_auth_svc.Redact.Scrub.{AreScrubbed}
use abc_auth_svc.LogLevel.{l1, l2}
use abc_auth_svc.Config.Flags.{FlagValues}
use abc_auth_svc.Config.{Config, config_of, load_config, secrets_of}
use abc_auth_svc.Config.Laws.{load_config-IsScrubbed}
use abc_auth_svc.Clients.Nomad.Variables.{var_path-injective}
use abc_auth_svc.Scenario.{env, srv, slot, ann}
use abc_auth_svc.Scenario.Network.{probes}
use abc_auth_svc.Base.{All}

diagnose-IsReady_example :
    ((diagnose env srv probes ann slot (some (ok (some true)))).verdict ≡ codes "ready")
    ↔ IsReady srv probes ann slot (some (ok (some true)))
diagnose-IsReady_example = diagnose-IsReady env srv probes ann slot (some (ok (some true)))

abbrev report : SlotDiagReport
report = diagnose env srv probes ann slot (some (ok (some true)))

-- A password, and a group with a message that holds a secret.
abbrev line : LogRecord
line = record {
  message = codes "got secret-1";
  attrs =
      cons (text (codes "Password") (codes "pw"))
        (cons (group (codes "req") (cons (text (codes "q") (codes "x secret-1 y")) nil)) nil);
}

abbrev child : Logger
child =
    bind_attrs [] (codes "secret-1" ∷ []) (cons (text (codes "token") (codes "x")) nil) (bound [])

log_attrs-AreRedacted_example :
    All IsRedactedLine (log_attrs [] (codes "secret-1" ∷ []) l2 child l1 line)
log_attrs-AreRedacted_example =
    log_attrs-AreRedacted [] (codes "secret-1" ∷ []) l2 l1 child line (
      Derived.more_attrs (cons (text (codes "token") (codes "x")) nil) (bound [])
        Derived.new_logger)

-- An environment in which every variable but the log level has one value.
abbrev getenv : Bytes → Bytes
getenv key = if key == codes "ABC_AUTH_LOG_LEVEL" then codes "debug" else codes "secret-1"

abbrev flags : FlagValues
flags = record {
  listen = codes "here";
  log_level = codes "debug";
  mock_upstreams = false;
  version = false;
  nomad_addr = codes "secret-1";
  jupyterhub_api_url = codes "secret-1";
  hub_public_url = codes "secret-1";
}

abbrev config : Config
config = config_of getenv flags l2

secret-Lacks : (c : ℕ) → 90 < c × c < 94 → Lacks c (codes "secret-1")
unfolding codes
secret-Lacks c h = (
  ground arith,
  (
    ground arith,
    (
      ground arith,
      (ground arith, (ground arith, (ground arith, (ground arith, (ground arith, tt))))),
    ),
  ),
)

secret_clean : IsClean inner_text (codes "secret-1")
unfolding contains codes
secret_clean = record {
  no_open = secret-Lacks b'[' (ground arith);
  no_close = secret-Lacks b']' (ground arith);
  not_inside = refl;
}

load_config-IsScrubbed_example :
    (contains (scrub_record (scrub_secrets config.scrub_secrets) line).message (codes "secret-1")
      ≡ false)
    × AreScrubbed
        (codes "secret-1")
        secret_clean
        (scrub_record (scrub_secrets config.scrub_secrets) line).attrs
unfolding load_config trim_space ◌==◌ codes abc_auth_svc.LogLevel.parse_level
    abc_auth_svc.Text.to_lower abc_auth_svc.Config.Flags.parse_flags
    abc_auth_svc.Config.Flags.argument_of abc_auth_svc.Text.index_byte
    abc_auth_svc.Config.Flags.set_flag abc_auth_svc.LogLevel.level_string
    abc_auth_svc.Config.is_truthy mem
load_config-IsScrubbed_example =
    load_config-IsScrubbed getenv (codes "--listen" ∷ codes "here" ∷ []) config (codes "secret-1")
      line refl refl (ground arith) secret_clean

-- A variable with a `/` in its path.
var_path-injective_example : (codes "ns" ≡ codes "ns") × (codes "a/b" ≡ codes "a/b")
var_path-injective_example =
    var_path-injective (codes "ns") (codes "ns") (codes "a/b") (codes "a/b") refl
