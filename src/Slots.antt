-- ===== src/Slots.antt =====
-- internal/authsvc/slots.go: rendering a slot's config into the store, and `GET /slots/me/config`.
pub mod Calls
pub mod Keeps
pub mod Own
pub mod Persisted
use abc_auth_svc.Base.{not, ◌&&◌, [], ◌∷◌, ◌++◌, if◌then◌else◌, Bytes, codes, ◌==◌, is_empty}
use abc_auth_svc.Text.{trim_space, trim_prefix}
use abc_auth_svc.Render.{normalized, seedling, render_config_yaml}
use abc_auth_svc.Upstreams.{Env, Server, Outcome, ok, err, ClusterInfo, Slot}
use abc_auth_svc.Http.{
  Handler, ◌>>=◌, ◌>>◌, pure, Request, require, or_fail, present, is_manager, has_store,
  nomad_token_from_request,
}
use abc_auth_svc.Http.Actions.{
  get_slot, group_name, timestamp, patch_slot, lookup_token_self, find_slot,
}

module _ (env : Env) (cluster : ClusterInfo) where
  persist_rendered : Bytes → Outcome Bytes → Handler (Outcome Bytes)
  persist_rendered slot_id err = pure err
  persist_rendered slot_id (ok yaml) = do
    at ← timestamp env
    written ← patch_slot env slot_id (
        (codes "config_yaml", yaml)
        ∷ (codes "config_yaml_at", at)
        ∷ (codes "config_yaml_renderer", codes "abc-auth-svc/v3.0")
        ∷ [])
    pure (elim written [ ok _ ↦ ok yaml | err ↦ err ])

  persist_loaded : Bytes → Bytes → Outcome Slot → Handler (Outcome Bytes)
  unfolding persist_rendered
  persist_loaded slot_id opaque err = pure err
  persist_loaded slot_id opaque (ok slot) =
      let cs = normalized slot.cred_source in
      if cs == seedling && is_empty opaque then pure (ok slot.config_yaml) else do
        group ← group_name env slot
        persist_rendered slot_id (
            render_config_yaml cluster slot.slot_name group slot.nomad_token_secret
              slot.minio_access_key slot.minio_secret_key cs opaque)

  -- persistSlotConfig
  unfoldable pub persist_slot_config : Bytes → Bytes → Handler (Outcome Bytes)
  unfolding persist_loaded
  persist_slot_config slot_id opaque = do
    slot ← get_slot env slot_id
    persist_loaded slot_id opaque slot

-- The body, and the file name of its attachment.
pub record ConfigFile : Type 0 where
  pub blob : Bytes
  pub filename : Bytes

module _ (env : Env) (srv : Server) where
  config_blob : Slot → Handler Bytes
  config_blob slot =
      if is_empty slot.config_yaml
      then (do
        require (is_manager srv.store) 500 (codes "config_render_failed")
        rendered ← persist_slot_config env srv.cluster slot.id []
        or_fail rendered 500 (codes "config_render_failed"))
      else pure slot.config_yaml

  -- handleSlotsMeConfig
  unfoldable pub handle_slots_me_config : Request → Handler ConfigFile
  unfolding config_blob
  handle_slots_me_config r = do
    let token = nomad_token_from_request r
    require (not (is_empty token)) 401 (codes "missing_token")
    looked_up ← lookup_token_self env token
    info ← or_fail looked_up 401 (codes "invalid_or_expired_token")
    self ← present info 401 (codes "invalid_or_expired_token")
    let slot_name = trim_space (trim_prefix (trim_space self.name) (codes "pool-"))
    require (not (is_empty slot_name)) 401 (codes "could_not_determine_slot")
    require (has_store srv.store) 500 (codes "internal_error")
    found ← find_slot env (codes "slot_name='" ++ slot_name ++ codes "'")
    slot_or_nil ← or_fail found 500 (codes "internal_error")
    slot ← present slot_or_nil 404 (codes "slot_not_found")
    require (slot.state == codes "claimed") 403
        (codes "slot_" ++ (if is_empty slot.state then codes "unknown" else slot.state))
    blob ← config_blob slot
    pure (record { blob = blob; filename = codes "abc-config-" ++ slot_name ++ codes ".yaml" })
