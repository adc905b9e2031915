-- ===== src/Manage/Rotate/Order.antt =====
-- The old credentials outlive a rotation that fails.
use abc_auth_svc.Base.{Bool, All, Bytes}
use abc_auth_svc.Upstreams.{Env, Server, Outcome, ok, err, Slot, Call, World}
use abc_auth_svc.Http.{Request, require_operator}
use abc_auth_svc.Http.Calls.{
  OnlyCalls, calls_rules, Succeeds, success_rules, IsFailure, FailsOnly-bind, FailsOnly-of_Succeeds,
}
use abc_auth_svc.Slots.Calls.{persist_slot_config-Succeeds}
use abc_auth_svc.Manage.{operator_slot}
use abc_auth_svc.Manage.Rotate.{
  write_rendered, after_commit, commit_credentials, handle_manage_rotate,
}

-- Neither revokes a Nomad token nor writes or removes a file of a slot.
abbrev pub KeepsOld : Call → Type 0
KeepsOld (Call.delete_token a) = ⊥
KeepsOld (Call.write_creds slot key secret endpoint) = ⊥
KeepsOld (Call.write_config slot blob) = ⊥
KeepsOld (Call.remove_creds slot) = ⊥
KeepsOld _ = Unit

module _ (env : Env) (srv : Server) where
  operator_slot-KeepsOld :
      (r : Request) (accepts : Bytes → Bool) (refusal : Bytes)
      → OnlyCalls KeepsOld (operator_slot env srv r accepts refusal)
  unfolding operator_slot require_operator
  operator_slot-KeepsOld r accepts refusal = search calls_rules depth 20

  commit_credentials-KeepsOld :
      (name : Bytes) (slot : Slot) → OnlyCalls KeepsOld (commit_credentials env srv name slot)
  unfolding commit_credentials
  commit_credentials-KeepsOld name slot = search calls_rules depth 30

  write_rendered-Succeeds :
      (name : Bytes) (o : Outcome Bytes) → Succeeds (write_rendered env srv name o)
  unfolding write_rendered
  write_rendered-Succeeds name (ok blob) = search success_rules
  write_rendered-Succeeds name err = search success_rules

  after_commit-Succeeds :
      (name : Bytes) (slot : Slot) (secret : Bytes)
      → Succeeds (after_commit env srv name slot secret)
  unfolding after_commit
  after_commit-Succeeds name slot secret =
      search (success_rules, persist_slot_config-Succeeds, write_rendered-Succeeds) depth 20

  -- A rotation that fails, at whatever step, has revoked no Nomad token and has neither written
  -- nor removed a file of a slot.
  pub handle_manage_rotate-KeepsOld :
      (r : Request) (w : World)
      → All KeepsOld w.history
      → IsFailure (handle_manage_rotate env srv r w).0
      → All KeepsOld (handle_manage_rotate env srv r w).1.history
  unfolding handle_manage_rotate
  handle_manage_rotate-KeepsOld r w =
      (FailsOnly-bind _ _ (operator_slot-KeepsOld r _ _) λ slot.
          FailsOnly-bind _ _ (commit_credentials-KeepsOld r.path_slot slot)
            λ secret. FailsOnly-of_Succeeds _ (after_commit-Succeeds r.path_slot slot secret)).at
        w
