-- ===== src/Manage/Listing.antt =====
-- internal/authsvc/manage_list.go: the operator's view of slots, without their secrets.
use mathlib.Core.List.{map}
use abc_auth_svc.Base.{not, List, [], Bytes, codes, is_empty}
use abc_auth_svc.Upstreams.{Env, Server, Slot}
use abc_auth_svc.Http.{
  Handler, ◌>>=◌, ◌>>◌, pure, look, Request, require, or_fail, present, is_manager, has_store,
  require_operator,
}
use abc_auth_svc.Http.Actions.{find_slot, list_slots}
use abc_auth_svc.Manage.{by_slot_name}

pub record PublicSlot : Type 0 where
  pub id : Bytes
  pub slot_name : Bytes
  pub group : Bytes
  pub group_name : Bytes
  pub state : Bytes
  pub cred_source : Bytes
  pub minio_access_key : Bytes
  pub config_yaml_at : Bytes
  pub opaque_token_hash : Bytes

pub to_public_slot : Slot → PublicSlot
to_public_slot s = record {
  id = s.id;
  slot_name = s.slot_name;
  group = s.group;
  group_name = s.group_name;
  state = s.state;
  cred_source = s.cred_source;
  minio_access_key = s.minio_access_key;
  config_yaml_at = [];
  opaque_token_hash = s.opaque_token_hash;
}

module _ (env : Env) (srv : Server) where
  -- handleManageListSlots; its 500 carries the text of the store's error.
  unfoldable pub handle_manage_list_slots : Request → Handler (List PublicSlot)
  unfolding to_public_slot
  handle_manage_list_slots r = do
    require_operator srv r
    require (is_manager srv.store) 500 (codes "store_not_writable")
    listed ← list_slots env [] 500
    error ← look env.slots_error
    slots ← or_fail listed 500 error
    pure (map to_public_slot slots)

  -- handleManageGetSlot
  unfoldable pub handle_manage_get_slot : Request → Handler PublicSlot
  unfolding to_public_slot
  handle_manage_get_slot r = do
    require_operator srv r
    require (not (is_empty r.path_slot)) 400 (codes "missing_slot")
    require (has_store srv.store) 500 (codes "store_not_configured")
    found ← find_slot env (by_slot_name r.path_slot)
    slot_or_nil ← or_fail found 500 (codes "internal_error")
    slot ← present slot_or_nil 404 (codes "not_found")
    pure (to_public_slot slot)
