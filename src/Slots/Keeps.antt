-- ===== src/Slots/Keeps.antt =====
-- What persisting a config keeps, by the three kinds of calls that it makes.
use abc_auth_svc.Base.{[], ◌∷◌, Bytes, codes}
use abc_auth_svc.Upstreams.{Env, Outcome, ok, err, ClusterInfo, Slot, History, Call, Fields}
use abc_auth_svc.Http.Triple.{Keeps, Keeps-pure, keeps_rules}
use abc_auth_svc.Slots.{persist_rendered, persist_loaded, persist_slot_config}

-- The fields of the PATCH that stores a rendered config.
abbrev pub config_fields : Bytes → Bytes → Fields
config_fields yaml at =
    (codes "config_yaml", yaml)
    ∷ (codes "config_yaml_at", at)
    ∷ (codes "config_yaml_renderer", codes "abc-auth-svc/v3.0")
    ∷ []

module _ (env : Env) (cluster : ClusterInfo) {F I : History → Type 0}
    (got : (id : Bytes) (h : History) → I h → I (Call.get_slot id ∷ h))
    (named : (slot : Slot) (h : History) → I h → I (Call.group_name slot ∷ h))
    (stored : (id yaml at : Bytes) (h : History)
      → I h
      → I (Call.patch_slot id (config_fields yaml at) ∷ h)) where
  persist_rendered-Keeps :
      (id : Bytes) (o : Outcome Bytes) → Keeps F I (persist_rendered env cluster id o)
  unfolding persist_rendered
  persist_rendered-Keeps id err = Keeps-pure err
  persist_rendered-Keeps id (ok yaml) = search (keeps_rules, stored)

  persist_loaded-Keeps :
      (id opaque : Bytes) (o : Outcome Slot) → Keeps F I (persist_loaded env cluster id opaque o)
  unfolding persist_loaded
  persist_loaded-Keeps id opaque err = Keeps-pure err
  persist_loaded-Keeps id opaque (ok slot) = search (keeps_rules, named, persist_rendered-Keeps)

  pub persist_slot_config-Keeps :
      (id opaque : Bytes) → Keeps F I (persist_slot_config env cluster id opaque)
  unfolding persist_slot_config
  persist_slot_config-Keeps id opaque = search (keeps_rules, got, persist_loaded-Keeps)
