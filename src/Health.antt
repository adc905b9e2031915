-- ===== src/Health.antt =====
-- internal/authsvc/health.go: the probes, the build identity, and the reply to unknown paths.
use abc_auth_svc.Base.{Bool, true, false, List, [], ◌∷◌, ◌++◌, Bytes, codes}
use abc_auth_svc.Http.{Handler, pure, err_json}

pub record BuildInfo : Type 0 where
  pub version : Bytes
  pub build_time : Bytes
  pub git_commit : Bytes

-- readyResponse
pub record ReadyResponse : Type 0 where
  pub status : Bytes
  pub version : Bytes
  pub checks : List (Bytes × Bytes)

-- handleHealthz: "ok" and a line feed.
unfoldable pub handle_healthz : Handler Bytes
handle_healthz = pure (codes "ok" ++ 10 ∷ [])

mode_check : Bool → List (Bytes × Bytes)
mode_check true = (codes "mode", codes "mock-upstreams") ∷ []
mode_check false = []

-- handleReadyz: the upstreams are not asked.
unfoldable pub handle_readyz : BuildInfo → Bool → Handler ReadyResponse
unfolding mode_check
handle_readyz build mock_upstreams =
    pure (record {
      status = codes "ready";
      version = build.version;
      checks = mode_check mock_upstreams;
    })

-- handleVersion
unfoldable pub handle_version : BuildInfo → Handler BuildInfo
handle_version build = pure build

-- handleNotFound
unfoldable pub handle_not_found : {A : Type 0} → Handler A
handle_not_found = err_json 404 (codes "not found")
