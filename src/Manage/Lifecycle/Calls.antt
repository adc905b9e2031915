-- ===== src/Manage/Lifecycle/Calls.antt =====
-- Suspending and reactivating: the calls that are made, by the state that they give a slot.
use abc_auth_svc.Base.{[], ◌∷◌, arith, Bytes, codes, ◌==◌}
use abc_auth_svc.Upstreams.{Env, Server, Slot, Call}
use abc_auth_svc.Http.{Request}
use abc_auth_svc.Http.Calls.{OnlyCalls, calls_rules}
use abc_auth_svc.Claim.Race.{KeepsClaims}
use abc_auth_svc.Manage.{claimed, suspended}
use abc_auth_svc.Manage.Calls.{operator_slot-KeepsClaims}
use abc_auth_svc.Manage.Lifecycle.{
  suspend_slot, handle_manage_suspend, reactivate_slot, handle_manage_reactivate,
}
use abc_auth_svc.Base.{find}

suspended-KeepsClaims :
    (id : Bytes) → KeepsClaims (Call.patch_slot id ((codes "state", suspended) ∷ []))
unfolding find codes ◌==◌
suspended-KeepsClaims id = λ k. ground arith

reactivated-KeepsClaims :
    (id secret accessor token : Bytes)
    → KeepsClaims (
        Call.patch_slot id (
          (codes "state", claimed)
          ∷ (codes "minio_secret_key", secret)
          ∷ (codes "nomad_token_accessor", accessor)
          ∷ (codes "nomad_token_secret", token)
          ∷ []))
unfolding find codes ◌==◌
reactivated-KeepsClaims id secret accessor token = λ k. ground arith

module _ (env : Env) (srv : Server) where
  suspend_slot-KeepsClaims :
      (name : Bytes) (slot : Slot) → OnlyCalls KeepsClaims (suspend_slot env srv name slot)
  unfolding suspend_slot
  suspend_slot-KeepsClaims name slot = search (calls_rules, suspended-KeepsClaims) depth 40

  pub handle_manage_suspend-KeepsClaims :
      (r : Request) → OnlyCalls KeepsClaims (handle_manage_suspend env srv r)
  unfolding handle_manage_suspend
  handle_manage_suspend-KeepsClaims r =
      search (calls_rules, operator_slot-KeepsClaims, suspend_slot-KeepsClaims) depth 20

  reactivate_slot-KeepsClaims :
      (name : Bytes) (slot : Slot) → OnlyCalls KeepsClaims (reactivate_slot env srv name slot)
  unfolding reactivate_slot
  reactivate_slot-KeepsClaims name slot = search (calls_rules, reactivated-KeepsClaims) depth 40

  pub handle_manage_reactivate-KeepsClaims :
      (r : Request) → OnlyCalls KeepsClaims (handle_manage_reactivate env srv r)
  unfolding handle_manage_reactivate
  handle_manage_reactivate-KeepsClaims r =
      search (calls_rules, operator_slot-KeepsClaims, reactivate_slot-KeepsClaims) depth 20
