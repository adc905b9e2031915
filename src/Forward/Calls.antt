-- ===== src/Forward/Calls.antt =====
-- Forward authentication: the calls that are made, by the state that they give a slot.
use abc_auth_svc.Base.{Option, none, some, Bytes}
use abc_auth_svc.Crypto.{Base64, Digests}
use abc_auth_svc.Upstreams.{Env, Server}
use abc_auth_svc.Http.{Request}
use abc_auth_svc.Http.Calls.{OnlyCalls, calls_rules}
use abc_auth_svc.Claim.Race.{KeepsClaims}
use abc_auth_svc.Forward.{
  judge, decide_validate, handle_validate, handle_validate_optional, handle_validate_shadow,
  slot_state,
}

module _ (env : Env) (srv : Server) (digests : Digests) (b64 : Base64) where
  judge-KeepsClaims : (user : Option Bytes) → OnlyCalls KeepsClaims (judge env srv digests b64 user)
  unfolding judge slot_state
  judge-KeepsClaims none = search calls_rules
  judge-KeepsClaims (some user) = search calls_rules depth 20

  decide_validate-KeepsClaims :
      (r : Request) → OnlyCalls KeepsClaims (decide_validate env srv digests b64 r)
  unfolding decide_validate
  decide_validate-KeepsClaims r = search (calls_rules, judge-KeepsClaims) depth 20

  pub handle_validate-KeepsClaims :
      (r : Request) → OnlyCalls KeepsClaims (handle_validate env srv digests b64 r)
  unfolding handle_validate
  handle_validate-KeepsClaims r = search (calls_rules, decide_validate-KeepsClaims) depth 20

  pub handle_validate_optional-KeepsClaims :
      (r : Request) → OnlyCalls KeepsClaims (handle_validate_optional env srv digests b64 r)
  unfolding handle_validate_optional
  handle_validate_optional-KeepsClaims r =
      search (calls_rules, decide_validate-KeepsClaims) depth 20

  pub handle_validate_shadow-KeepsClaims :
      (r : Request) → OnlyCalls KeepsClaims (handle_validate_shadow env srv digests b64 r)
  unfolding handle_validate_shadow
  handle_validate_shadow-KeepsClaims r = search (calls_rules, decide_validate-KeepsClaims) depth 20
