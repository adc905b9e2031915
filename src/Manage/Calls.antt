-- ===== src/Manage/Calls.antt =====
-- The handlers of the operators: the calls that are made, by the state that they give a slot.
use abc_auth_svc.Base.{Bool, Bytes}
use abc_auth_svc.Upstreams.{Env, Server}
use abc_auth_svc.Http.{Request, require_operator}
use abc_auth_svc.Http.Calls.{OnlyCalls, calls_rules}
use abc_auth_svc.Claim.Race.{KeepsClaims}
use abc_auth_svc.Manage.{operator_slot}
use abc_auth_svc.Manage.Listing.{handle_manage_list_slots, handle_manage_get_slot}

module _ (env : Env) (srv : Server) where
  pub operator_slot-KeepsClaims :
      (r : Request) (accepts : Bytes → Bool) (refusal : Bytes)
      → OnlyCalls KeepsClaims (operator_slot env srv r accepts refusal)
  unfolding operator_slot require_operator
  operator_slot-KeepsClaims r accepts refusal = search calls_rules depth 40

  pub handle_manage_list_slots-KeepsClaims :
      (r : Request) → OnlyCalls KeepsClaims (handle_manage_list_slots env srv r)
  unfolding handle_manage_list_slots require_operator
  handle_manage_list_slots-KeepsClaims r = search calls_rules depth 40

  pub handle_manage_get_slot-KeepsClaims :
      (r : Request) → OnlyCalls KeepsClaims (handle_manage_get_slot env srv r)
  unfolding handle_manage_get_slot require_operator
  handle_manage_get_slot-KeepsClaims r = search calls_rules depth 40
