-- ===== src/Slots/Calls.antt =====
-- The calls of persisting a config and of `GET /slots/me/config`: what is done about their errors,
-- and the state that they give a slot.
use abc_auth_svc.Base.{arith, Bytes, codes, ◌==◌}
use abc_auth_svc.Claim.Race.{KeepsClaims}
use abc_auth_svc.Slots.Keeps.{config_fields}
use abc_auth_svc.Http.Calls.{OnlyCalls, calls_rules}
use abc_auth_svc.Http.{Request}
use abc_auth_svc.Slots.{config_blob, handle_slots_me_config}
use abc_auth_svc.Upstreams.{Server, Call, Env, Outcome, ok, err, ClusterInfo, Slot}
use abc_auth_svc.Http.Calls.{Succeeds, success_rules}
use abc_auth_svc.Slots.{persist_rendered, persist_loaded, persist_slot_config}
use abc_auth_svc.Base.{find}

module _ (env : Env) (cluster : ClusterInfo) where
  persist_rendered-Succeeds :
      (id : Bytes) (o : Outcome Bytes) → Succeeds (persist_rendered env cluster id o)
  unfolding persist_rendered
  persist_rendered-Succeeds id err = search success_rules
  persist_rendered-Succeeds id (ok yaml) = search success_rules

  persist_loaded-Succeeds :
      (id opaque : Bytes) (o : Outcome Slot) → Succeeds (persist_loaded env cluster id opaque o)
  unfolding persist_loaded
  persist_loaded-Succeeds id opaque err = search success_rules
  persist_loaded-Succeeds id opaque (ok slot) = search (success_rules, persist_rendered-Succeeds)

  pub persist_slot_config-Succeeds :
      (id opaque : Bytes) → Succeeds (persist_slot_config env cluster id opaque)
  unfolding persist_slot_config
  persist_slot_config-Succeeds id opaque = search (success_rules, persist_loaded-Succeeds)

config-KeepsClaims : (id yaml at : Bytes) → KeepsClaims (Call.patch_slot id (config_fields yaml at))
unfolding find codes ◌==◌
config-KeepsClaims id yaml at = λ k. ground arith

module _ (env : Env) (cluster : ClusterInfo) where
  persist_rendered-KeepsClaims :
      (id : Bytes) (o : Outcome Bytes) → OnlyCalls KeepsClaims (persist_rendered env cluster id o)
  unfolding persist_rendered
  persist_rendered-KeepsClaims id err = search calls_rules
  persist_rendered-KeepsClaims id (ok yaml) = search (calls_rules, config-KeepsClaims) depth 20

  persist_loaded-KeepsClaims :
      (id opaque : Bytes) (o : Outcome Slot)
      → OnlyCalls KeepsClaims (persist_loaded env cluster id opaque o)
  unfolding persist_loaded
  persist_loaded-KeepsClaims id opaque err = search calls_rules
  persist_loaded-KeepsClaims id opaque (ok slot) =
      search (calls_rules, persist_rendered-KeepsClaims) depth 20

  pub persist_slot_config-KeepsClaims :
      (id opaque : Bytes) → OnlyCalls KeepsClaims (persist_slot_config env cluster id opaque)
  unfolding persist_slot_config
  persist_slot_config-KeepsClaims id opaque =
      search (calls_rules, persist_loaded-KeepsClaims) depth 20

module _ (env : Env) (srv : Server) where
  config_blob-KeepsClaims : (slot : Slot) → OnlyCalls KeepsClaims (config_blob env srv slot)
  unfolding config_blob
  config_blob-KeepsClaims slot = search (calls_rules, persist_slot_config-KeepsClaims) depth 20

  pub handle_slots_me_config-KeepsClaims :
      (r : Request) → OnlyCalls KeepsClaims (handle_slots_me_config env srv r)
  unfolding handle_slots_me_config
  handle_slots_me_config-KeepsClaims r = search (calls_rules, config_blob-KeepsClaims) depth 60
