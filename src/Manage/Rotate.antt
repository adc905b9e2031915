-- ===== src/Manage/Rotate.antt =====
-- internal/authsvc/manage_rotate.go: fresh MinIO and Nomad credentials for a slot.
pub mod Order
pub mod Calls
use abc_auth_svc.Base.{not, ◌&&◌, ◌||◌, [], ◌∷◌, ◌++◌, Bytes, codes, ◌==◌, is_empty}
use abc_auth_svc.Upstreams.{Env, Server, Outcome, ok, err, Slot, Call}
use abc_auth_svc.Http.{
  Handler, ◌>>=◌, ◌>>◌, pure, Request, require, or_fail, minio_user, tell, when,
}
use abc_auth_svc.Http.Actions.{group_name, get_role_id, rotate_secret, create_token, patch_slot}
use abc_auth_svc.Slots.{persist_slot_config}
use abc_auth_svc.Manage.{claimed, suspended, operator_slot}

-- `roleID, _ := ...`
abbrev pub or_empty : Outcome Bytes → Bytes
or_empty (ok b) = b
or_empty err = []

module _ (env : Env) (srv : Server) where
  -- Steps 5 to 9, after the new credentials are stored. All are best-effort.
  write_rendered : Bytes → Outcome Bytes → Handler (Unit {0})
  write_rendered slot_name (ok blob) = tell (Call.write_config slot_name blob)
  write_rendered slot_name err = pure tt

  after_commit : Bytes → Slot → Bytes → Handler (Unit {0})
  unfolding write_rendered
  after_commit slot_name slot new_secret = do
    when (not (is_empty slot.nomad_token_accessor))
        (tell (Call.delete_token slot.nomad_token_accessor))
    tell (
        Call.write_creds slot_name (minio_user slot slot_name) new_secret
          srv.cluster.minio_endpoint)
    rendered ← persist_slot_config env srv.cluster slot.id []
    write_rendered slot_name rendered
    tell (Call.invalidate (minio_user slot slot_name))
    when srv.is_hub_client (tell (Call.stop_server slot_name))

  -- Steps 2 to 4: the new credentials, stored in one PATCH.
  commit_credentials : Bytes → Slot → Handler Bytes
  commit_credentials slot_name slot = do
    group ← group_name env slot
    require (srv.has_nomad_admin && srv.has_minio_admin) 500 (codes "admin_clients_not_configured")
    role ← get_role_id env (codes "r-su-" ++ group ++ codes "-pool")
    rotated ← rotate_secret env (minio_user slot slot_name)
    new_secret ← or_fail rotated 500 (codes "minio_rotate_failed")
    created ← create_token env slot_name (or_empty role)
    new ← or_fail created 500 (codes "nomad_token_create_failed")
    patched ← patch_slot env slot.id (
        (codes "minio_secret_key", new_secret)
        ∷ (codes "nomad_token_accessor", new.0)
        ∷ (codes "nomad_token_secret", new.1)
        ∷ [])
    or_fail patched 500 (codes "patch_failed")
    pure new_secret

  -- handleManageRotate
  unfoldable pub handle_manage_rotate : Request → Handler (Unit {0})
  unfolding after_commit commit_credentials
  handle_manage_rotate r = do
    slot ← operator_slot env srv r (λ s. s == claimed || s == suspended) (codes "slot_not_active")
    new_secret ← commit_credentials r.path_slot slot
    after_commit r.path_slot slot new_secret
