-- ===== src/Manage/Lifecycle.antt =====
-- internal/authsvc/manage_lifecycle.go: suspending and reactivating a slot.
pub mod Suspend
pub mod Reactivate
pub mod Calls
use abc_auth_svc.Base.{
  ℕ, zero, suc, ◌+◌, ◌-◌, ◌*◌, ◌/◌, ◌%◌, ◌^◌, ◌≤◌, ◌<◌, ◌≡◌, refl, sym, ap, ◌∙◌, subst, ◌≡⟨◌⟩◌, ◌∎,
  ◌≢◌, ◌↔◌, ◌⊎◌, inl, inr, Bool, true, false, not, ◌&&◌, ◌||◌, Option, none, some, List, [], ◌∷◌,
  ◌++◌, append-nil, append_assoc, arith, ltb, leb, nat_eq, if◌then◌else◌, nat_eq_iff, nat_eq_refl,
  Bool-cases, Option-cases, length, take, drop, all, length-append, take-append_left,
  drop-append_left, drop_past, All, All-append, All-append_left, All-append_right, Bytes, codes,
  ◌==◌, eq_of_==, ==_refl, ==_iff, is_empty, Lacks, String,
}
use abc_auth_svc.Upstreams.{Env, Server, Outcome, ok, err, Slot, Call}
use abc_auth_svc.Http.{
  Handler, ◌>>=◌, ◌>>◌, pure, Request, require, or_fail, minio_user, tell, when,
}
use abc_auth_svc.Http.Actions.{group_name, get_role_id, rotate_secret, create_token, patch_slot}
use abc_auth_svc.Manage.{claimed, suspended, operator_slot}
use abc_auth_svc.Manage.Rotate.{or_empty}

module _ (env : Env) (srv : Server) where
  -- handleManageSuspend, after the checks. The errors of steps 1 to 3 and 6 are only logged.
  unfoldable pub suspend_slot : Bytes → Slot → Handler (Unit {0})
  suspend_slot slot_name slot = do
    when srv.has_minio_admin (tell (Call.set_enabled (minio_user slot slot_name) false))
    when (not (is_empty slot.nomad_token_accessor) && srv.has_nomad_admin)
        (tell (Call.delete_token slot.nomad_token_accessor))
    tell (Call.remove_creds slot_name)
    patched ← patch_slot env slot.id ((codes "state", suspended) ∷ [])
    or_fail patched 500 (codes "patch_failed")
    tell (Call.invalidate (minio_user slot slot_name))
    when srv.is_hub_client (tell (Call.stop_server slot_name))

  unfoldable pub handle_manage_suspend : Request → Handler (Unit {0})
  handle_manage_suspend r = do
    slot ← operator_slot env srv r (λ s. s == claimed) (codes "slot_not_claimed")
    suspend_slot r.path_slot slot

  -- handleManageReactivate, after the checks.
  pub reactivate_slot : Bytes → Slot → Handler (Unit {0})
  reactivate_slot slot_name slot = do
    group ← group_name env slot
    require (srv.has_nomad_admin && srv.has_minio_admin) 500 (codes "admin_clients_not_configured")
    role ← get_role_id env (codes "r-su-" ++ group ++ codes "-pool")
    tell (Call.set_enabled (minio_user slot slot_name) true)
    rotated ← rotate_secret env (minio_user slot slot_name)
    new_secret ← or_fail rotated 500 (codes "minio_rotate_failed")
    created ← create_token env slot_name (or_empty role)
    new ← or_fail created 500 (codes "nomad_token_create_failed")
    patched ← patch_slot env slot.id (
        (codes "state", claimed)
        ∷ (codes "minio_secret_key", new_secret)
        ∷ (codes "nomad_token_accessor", new.0)
        ∷ (codes "nomad_token_secret", new.1)
        ∷ [])
    or_fail patched 500 (codes "patch_failed")
    tell (
        Call.write_creds slot_name (minio_user slot slot_name) new_secret
          srv.cluster.minio_endpoint)
    tell (Call.invalidate (minio_user slot slot_name))

  unfoldable pub handle_manage_reactivate : Request → Handler (Unit {0})
  handle_manage_reactivate r = do
    slot ← operator_slot env srv r (λ s. s == suspended) (codes "slot_not_suspended")
    reactivate_slot r.path_slot slot
