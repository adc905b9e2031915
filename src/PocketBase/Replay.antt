-- ===== src/PocketBase/Replay.antt =====
-- The PocketBase client behind the handlers: the calls of a history, made by one client in their
-- order, and the environment in which this client answers.
use abc_auth_svc.Base.{ℕ, ◌+◌, [], ◌∷◌}
use abc_auth_svc.KekWrap.{kek_wrap_alg}
use abc_auth_svc.Upstreams.{Call, Env, History}
use abc_auth_svc.PocketBase.{Net, PbConfig, PbClient, new_pb_client}
use abc_auth_svc.PocketBase.Records.{
  list_slots, find_slot, get_slot, patch_slot, group_name, group_default, group_key_record,
  put_group_key,
}
use abc_auth_svc.PocketBase.Cache.{cached_slot_state, invalidate_slot_state}

-- The network, the client's settings, and the time that passes after each call.
pub record Site : Type 0 where
  pub net : Net
  pub cfg : PbConfig
  pub pause : History → ℕ

unfoldable pub wait : ℕ → PbClient → PbClient
wait n c = record c { clock = c.clock + n }

module _ (site : Site) where
  -- A call that is not PocketBase's leaves the client alone.
  unfoldable pub perform : Call → PbClient → PbClient
  perform (Call.find_slot filter) c = (find_slot site.net site.cfg filter c).1
  perform (Call.get_slot id) c = (get_slot site.net site.cfg id c).1
  perform (Call.list_slots filter n) c = (list_slots site.net site.cfg filter n c).1
  perform (Call.patch_slot id fields) c = (patch_slot site.net site.cfg id fields c).1
  perform (Call.group_name slot) c = (group_name site.net site.cfg slot c).1
  perform (Call.group_default id) c = (group_default site.net site.cfg id c).1
  perform (Call.group_key id) c = (group_key_record site.net site.cfg id c).1
  perform (Call.put_group_key id recipient wrapped version) c =
      (put_group_key site.net site.cfg id recipient wrapped version kek_wrap_alg c).1
  perform (Call.slot_state user) c = (cached_slot_state site.net site.cfg user c).1
  perform (Call.invalidate user) c = invalidate_slot_state user c
  perform _ c = c

  unfoldable pub replay : History → PbClient
  replay [] = new_pb_client
  replay (call ∷ h) = wait (site.pause (call ∷ h)) (perform call (replay h))

  -- `env`, with this client as its store.
  unfoldable pub with_client : Env → Env
  with_client env = record env {
    found_slot = λ h filter. (find_slot site.net site.cfg filter (replay h)).0;
    slot_by_id = λ h id. (get_slot site.net site.cfg id (replay h)).0;
    slots = λ h filter n. (list_slots site.net site.cfg filter n (replay h)).0;
    group_key_put = λ h id recipient wrapped version.
        (put_group_key site.net site.cfg id recipient wrapped version kek_wrap_alg (replay h)).0;
    patched = λ h id fields. (patch_slot site.net site.cfg id fields (replay h)).0;
    name_of_group = λ h slot. (group_name site.net site.cfg slot (replay h)).0;
    cached_state = λ h user. (cached_slot_state site.net site.cfg user (replay h)).0;
    default_of_group = λ h id. (group_default site.net site.cfg id (replay h)).0;
    group_key_record = λ h id. (group_key_record site.net site.cfg id (replay h)).0;
    now = λ h. (replay h).clock;
  }
