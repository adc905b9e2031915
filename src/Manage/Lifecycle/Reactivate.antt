-- ===== src/Manage/Lifecycle/Reactivate.antt =====
-- When a reactivation hands out its new credentials.
use abc_auth_svc.Base.{Bool, All, Bytes}
use abc_auth_svc.Upstreams.{Env, Server, Slot, Call, World}
use abc_auth_svc.Http.{Request, require_operator}
use abc_auth_svc.Http.Calls.{
  OnlyCalls, calls_rules, success_rules, IsFailure, FailsOnly, FailsOnly-bind,
  FailsOnly-of_Succeeds,
}
use abc_auth_svc.Manage.{operator_slot}
use abc_auth_svc.Manage.Lifecycle.{reactivate_slot, handle_manage_reactivate}

-- Neither hands credentials to the host nor has a slot's cached state read again, nor revokes.
abbrev pub Withholds : Call → Type 0
Withholds (Call.write_creds slot key secret endpoint) = ⊥
Withholds (Call.invalidate user) = ⊥
Withholds (Call.delete_token accessor) = ⊥
Withholds (Call.remove_creds slot) = ⊥
Withholds _ = Unit

module _ (env : Env) (srv : Server) where
  operator_slot-Withholds :
      (r : Request) (accepts : Bytes → Bool) (refusal : Bytes)
      → OnlyCalls Withholds (operator_slot env srv r accepts refusal)
  unfolding operator_slot require_operator
  operator_slot-Withholds r accepts refusal = search calls_rules depth 20

  reactivate_slot_fails :
      (name : Bytes) (slot : Slot) → FailsOnly Withholds (reactivate_slot env srv name slot)
  unfolding reactivate_slot
  reactivate_slot_fails name slot =
      search (calls_rules, success_rules, FailsOnly-bind, FailsOnly-of_Succeeds) depth 40

  handle_manage_reactivate_fails :
      (r : Request) → FailsOnly Withholds (handle_manage_reactivate env srv r)
  unfolding handle_manage_reactivate
  handle_manage_reactivate_fails r =
      FailsOnly-bind _ _ (operator_slot-Withholds r _ _)
        λ slot. reactivate_slot_fails r.path_slot slot

  -- A reactivation that fails, at whatever step, has written no credential files for the slot, has
  -- not had its cached state read again, and has revoked and removed nothing.
  pub handle_manage_reactivate-Withholds :
      (r : Request) (w : World)
      → All Withholds w.history
      → IsFailure (handle_manage_reactivate env srv r w).0
      → All Withholds (handle_manage_reactivate env srv r w).1.history
  handle_manage_reactivate-Withholds r w = (handle_manage_reactivate_fails r).at w
