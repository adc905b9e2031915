-- ===== src/Verify/Calls.antt =====
-- `/verify`: the calls that are made, by the state that they give a slot.
use abc_auth_svc.Upstreams.{Env}
use abc_auth_svc.Http.{Request}
use abc_auth_svc.Http.Calls.{OnlyCalls, calls_rules}
use abc_auth_svc.Claim.Race.{KeepsClaims}
use abc_auth_svc.Verify.{handle_verify_nomad}

pub handle_verify_nomad-KeepsClaims :
    (env : Env) (r : Request) → OnlyCalls KeepsClaims (handle_verify_nomad env r)
unfolding handle_verify_nomad
handle_verify_nomad-KeepsClaims env r = search calls_rules depth 20
