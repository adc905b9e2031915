-- ===== src/Workbench/Calls.antt =====
-- The workbench tokens: the calls that are made, by the state that they give a slot.
use abc_auth_svc.Base.{ℕ, Bytes}
use abc_auth_svc.Upstreams.{
  Env, Server, MintResult, minted, refused, hub_http_error, hub_unreachable,
}
use abc_auth_svc.Http.{Request, Body, empty, malformed, decoded}
use abc_auth_svc.Http.Calls.{OnlyCalls, calls_rules}
use abc_auth_svc.Claim.Race.{KeepsClaims}
use abc_auth_svc.Text.Decimal.{positive, negative}
use abc_auth_svc.Workbench.{
  MintRequest, ExpiresIn, absent, not_integer, seconds, mint_request_of, checked_ttl, diagnose,
  mint_outcome, gate, mint_for, handle_workbench_token,
}

mint_request_of-KeepsClaims :
    (sent : Body MintRequest) → OnlyCalls KeepsClaims (mint_request_of sent)
unfolding mint_request_of
mint_request_of-KeepsClaims empty = search calls_rules
mint_request_of-KeepsClaims malformed = search calls_rules
mint_request_of-KeepsClaims (decoded req) = search calls_rules

checked_ttl-KeepsClaims : (e : ExpiresIn) → OnlyCalls KeepsClaims (checked_ttl e)
unfolding checked_ttl
checked_ttl-KeepsClaims absent = search calls_rules
checked_ttl-KeepsClaims not_integer = search calls_rules
checked_ttl-KeepsClaims (seconds (negative n)) = search calls_rules
checked_ttl-KeepsClaims (seconds (positive n)) = search calls_rules depth 20

module _ (env : Env) (srv : Server) where
  diagnose-KeepsClaims :
      (user : Bytes) (status : ℕ) → OnlyCalls KeepsClaims (diagnose env srv user status)
  unfolding diagnose
  diagnose-KeepsClaims user status = search calls_rules depth 20

  mint_outcome-KeepsClaims :
      (user note : Bytes) (m : MintResult)
      → OnlyCalls KeepsClaims (mint_outcome env srv user note m)
  unfolding mint_outcome
  mint_outcome-KeepsClaims user note (minted tok) = search calls_rules
  mint_outcome-KeepsClaims user note (refused (hub_http_error status)) =
      search (calls_rules, diagnose-KeepsClaims) depth 20
  mint_outcome-KeepsClaims user note (refused hub_unreachable) = search calls_rules

  gate-KeepsClaims : (user : Bytes) → OnlyCalls KeepsClaims (gate env srv user)
  unfolding gate
  gate-KeepsClaims user = search calls_rules depth 20

  mint_for-KeepsClaims :
      (user : Bytes) (req : MintRequest) → OnlyCalls KeepsClaims (mint_for env srv user req)
  unfolding mint_for
  mint_for-KeepsClaims user req =
      search (calls_rules, checked_ttl-KeepsClaims, mint_outcome-KeepsClaims) depth 20

  pub handle_workbench_token-KeepsClaims :
      (r : Request) (sent : Body MintRequest)
      → OnlyCalls KeepsClaims (handle_workbench_token env srv r sent)
  unfolding handle_workbench_token
  handle_workbench_token-KeepsClaims r sent =
      search (calls_rules, mint_request_of-KeepsClaims, gate-KeepsClaims, mint_for-KeepsClaims)
        depth 40
