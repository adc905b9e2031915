-- ===== src/Manage/CredSource.antt =====
-- internal/authsvc/manage.go: flipping a slot between `local` and `seedling/v1` credentials.
pub mod Calls
use abc_auth_svc.Base.{
  Bool, true, false, not, ◌||◌, [], ◌∷◌, if◌then◌else◌, Bytes, codes, ◌==◌, is_empty,
}
use abc_auth_svc.Crypto.{Base64, Digests, sha256_hex}
use abc_auth_svc.Render.{normalized, local, seedling, mint_opaque}
use abc_auth_svc.Slots.{persist_slot_config}
use abc_auth_svc.Upstreams.{Env, Server, Slot, Call}
use abc_auth_svc.Http.{
  Handler, ◌>>=◌, ◌>>◌, pure, Request, Body, empty, malformed, decoded, err_json, require, or_fail,
  present, is_manager, minio_user, tell, require_operator,
}
use abc_auth_svc.Http.Actions.{find_slot, patch_slot}
use abc_auth_svc.Manage.{claimed, by_slot_name}

-- credSourceResponse; the opaque token is empty where the JSON leaves it out.
pub record CredSourceResponse : Type 0 where
  pub cred_source : Bytes
  pub changed : Bool
  pub previous_cred_source : Bytes
  pub opaque_token : Bytes

-- The `cred_source` field of the body; no body is the zero value.
cred_source_of : Body Bytes → Handler Bytes
cred_source_of empty = pure []
cred_source_of malformed = err_json 400 (codes "bad_json_body")
cred_source_of (decoded cs) = pure cs

-- `current == ""` reads as `local`.
abbrev current_cred_source : Slot → Bytes
current_cred_source slot =
    if is_empty (normalized slot.cred_source) then local else normalized slot.cred_source

module _ (env : Env) (srv : Server) (digests : Digests) (b64 : Base64) where
  flip_to_seedling : Slot → Handler Bytes
  flip_to_seedling slot = do
    minted ← mint_opaque env b64
    opaque ← or_fail minted 500 (codes "mint_failed")
    patched ← patch_slot env slot.id (
        (codes "cred_source", seedling)
        ∷ (codes "opaque_token_hash", sha256_hex digests opaque)
        ∷ [])
    or_fail patched 500 (codes "patch_failed")
    rendered ← persist_slot_config env srv.cluster slot.id opaque
    yaml ← or_fail rendered 500 (codes "render_failed")
    pure opaque

  flip_to_local : Slot → Handler Bytes
  flip_to_local slot = do
    patched ←
        patch_slot env slot.id ((codes "cred_source", []) ∷ (codes "opaque_token_hash", []) ∷ [])
    or_fail patched 500 (codes "patch_failed")
    rendered ← persist_slot_config env srv.cluster slot.id []
    yaml ← or_fail rendered 500 (codes "render_failed")
    pure []

  flip_slot : Bytes → Bytes → Slot → Handler CredSourceResponse
  unfolding flip_to_seedling flip_to_local
  flip_slot slot_name want slot = do
    opaque ← if want == seedling then flip_to_seedling slot else flip_to_local slot
    tell (Call.invalidate (minio_user slot slot_name))
    pure (record {
      cred_source = want;
      changed = true;
      previous_cred_source = current_cred_source slot;
      opaque_token = opaque;
    })

  -- handleCredSource
  unfoldable pub handle_cred_source : Request → Body Bytes → Handler CredSourceResponse
  unfolding cred_source_of flip_slot
  handle_cred_source r body = do
    require_operator srv r
    require (not (is_empty r.path_slot)) 400 (codes "missing_slot")
    sent ← cred_source_of body
    let want = normalized sent
    require (want == local || want == seedling) 400 (codes "invalid_cred_source")
    require (is_manager srv.store) 500 (codes "store_not_writable")
    found ← find_slot env (by_slot_name r.path_slot)
    slot_or_nil ← or_fail found 500 (codes "internal_error")
    slot ← present slot_or_nil 404 (codes "not_found")
    require (slot.state == claimed) 400 (codes "slot_not_claimed")
    if want == current_cred_source slot
        then pure (record {
          cred_source = want;
          changed = false;
          previous_cred_source = [];
          opaque_token = [];
        })
        else flip_slot r.path_slot want slot
