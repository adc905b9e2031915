-- ===== src/Manage/Rotate/Calls.antt =====
-- The rotation: the calls that are made, by the state that they give a slot.
use abc_auth_svc.Base.{[], ◌∷◌, arith, Bytes, codes, ◌==◌}
use abc_auth_svc.Upstreams.{Env, Server, Slot, Outcome, ok, err, Call}
use abc_auth_svc.Http.{Request}
use abc_auth_svc.Http.Calls.{OnlyCalls, calls_rules}
use abc_auth_svc.Claim.Race.{KeepsClaims}
use abc_auth_svc.Slots.Calls.{persist_slot_config-KeepsClaims}
use abc_auth_svc.Manage.Calls.{operator_slot-KeepsClaims}
use abc_auth_svc.Manage.Rotate.{
  write_rendered, after_commit, commit_credentials, handle_manage_rotate,
}
use abc_auth_svc.Base.{find}

stored-KeepsClaims :
    (id secret accessor token : Bytes)
    → KeepsClaims (
        Call.patch_slot id (
          (codes "minio_secret_key", secret)
          ∷ (codes "nomad_token_accessor", accessor)
          ∷ (codes "nomad_token_secret", token)
          ∷ []))
unfolding find codes ◌==◌
stored-KeepsClaims id secret accessor token = λ k. ground arith

module _ (env : Env) (srv : Server) where
  write_rendered-KeepsClaims :
      (name : Bytes) (o : Outcome Bytes) → OnlyCalls KeepsClaims (write_rendered env srv name o)
  unfolding write_rendered
  write_rendered-KeepsClaims name (ok blob) = search calls_rules
  write_rendered-KeepsClaims name err = search calls_rules

  after_commit-KeepsClaims :
      (name : Bytes) (slot : Slot) (secret : Bytes)
      → OnlyCalls KeepsClaims (after_commit env srv name slot secret)
  unfolding after_commit
  after_commit-KeepsClaims name slot secret =
      search (calls_rules, write_rendered-KeepsClaims, persist_slot_config-KeepsClaims) depth 40

  commit_credentials-KeepsClaims :
      (name : Bytes) (slot : Slot) → OnlyCalls KeepsClaims (commit_credentials env srv name slot)
  unfolding commit_credentials
  commit_credentials-KeepsClaims name slot = search (calls_rules, stored-KeepsClaims) depth 40

  pub handle_manage_rotate-KeepsClaims :
      (r : Request) → OnlyCalls KeepsClaims (handle_manage_rotate env srv r)
  unfolding handle_manage_rotate
  handle_manage_rotate-KeepsClaims r =
      search
        (
          calls_rules, operator_slot-KeepsClaims, commit_credentials-KeepsClaims,
          after_commit-KeepsClaims,
        )
        depth 20
