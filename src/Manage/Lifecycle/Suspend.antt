-- ===== src/Manage/Lifecycle/Suspend.antt =====
-- What a suspension and a reactivation call.
use abc_auth_svc.Base.{◌≡◌, Bool, false, [], ◌∷◌, All, Bytes, codes}
use abc_auth_svc.Upstreams.{Env, Server, Slot, Call, World}
use abc_auth_svc.Http.{Request, require_operator}
use abc_auth_svc.Http.Calls.{all_calls, OnlyCalls, calls_rules}
use abc_auth_svc.Manage.{operator_slot, suspended}
use abc_auth_svc.Manage.Lifecycle.{suspend_slot, handle_manage_suspend}

-- Gives no access: no new credential, no user enabled, and a slot only ever set to `suspended`.
pub GivesNothing : Call → Type 0
GivesNothing (Call.create_token slot role) = ⊥
GivesNothing (Call.rotate_secret user) = ⊥
GivesNothing (Call.set_enabled user enabled) = enabled ≡ false
GivesNothing (Call.write_creds slot key secret endpoint) = ⊥
GivesNothing (Call.write_config slot blob) = ⊥
GivesNothing (Call.put_group_key id recipient wrapped version) = ⊥
GivesNothing (Call.var_put ns key v) = ⊥
GivesNothing (Call.mint_user_token user note ttl) = ⊥
GivesNothing (Call.patch_slot id fields) = fields ≡ (codes "state", suspended) ∷ []
GivesNothing _ = Unit

module _ (env : Env) (srv : Server) where
  operator_slot-GivesNothing :
      (r : Request) (accepts : Bytes → Bool) (refusal : Bytes)
      → OnlyCalls GivesNothing (operator_slot env srv r accepts refusal)
  unfolding operator_slot require_operator GivesNothing
  operator_slot-GivesNothing r accepts refusal = search calls_rules depth 20

  suspend_slot-GivesNothing :
      (name : Bytes) (slot : Slot) → OnlyCalls GivesNothing (suspend_slot env srv name slot)
  unfolding suspend_slot GivesNothing
  suspend_slot-GivesNothing name slot = search calls_rules depth 20

  handle_manage_suspend_calls :
      (r : Request) → OnlyCalls GivesNothing (handle_manage_suspend env srv r)
  unfolding handle_manage_suspend
  handle_manage_suspend_calls r =
      search (calls_rules, operator_slot-GivesNothing, suspend_slot-GivesNothing)

  -- Whether it succeeds or fails, and at whatever step, a suspension creates, rotates, writes and
  -- enables no credential, and sets no field of a slot but its state, to `suspended`.
  pub handle_manage_suspend-GivesNothing :
      (r : Request) (w : World)
      → All GivesNothing w.history
      → All GivesNothing (handle_manage_suspend env srv r w).1.history
  handle_manage_suspend-GivesNothing r w = all_calls (handle_manage_suspend_calls r) w
