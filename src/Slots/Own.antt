-- ===== src/Slots/Own.antt =====
-- Whose config `GET /slots/me/config` answers with.
use abc_auth_svc.Base.{◌⊎◌, ◌≡◌, some, [], ◌++◌, codes}
use abc_auth_svc.Text.{trim_space, trim_prefix}
use abc_auth_svc.Upstreams.{Env, Server, History, ok, Slot, NomadTokenSelf}
use abc_auth_svc.Http.{Request, nomad_token_from_request}
use abc_auth_svc.Http.Yields.{Yields}
use abc_auth_svc.Slots.{ConfigFile}

module _ (env : Env) (srv : Server) (r : Request) where
  -- The slot carries the name that the request's Nomad token has, and is claimed.
  pub record IsOwnConfig (file : ConfigFile) : Type 0 where
    pub info : NomadTokenSelf
    pub slot : Slot
    pub introspected : History
    pub asked : History
    pub token : env.token_self introspected (nomad_token_from_request r) ≡ ok (some info)
    pub found :
        env.found_slot asked (
          codes "slot_name='"
          ++ trim_space (trim_prefix (trim_space info.name) (codes "pool-"))
          ++ codes "'")
        ≡ ok (some slot)
    pub active : slot.state ≡ codes "claimed"
    pub stored : (slot.config_yaml ≡ []) ⊎ (file.blob ≡ slot.config_yaml)
