-- ===== src/Exchange/Calls.antt =====
-- The credential exchange: the calls that are made, by the state that they give a slot.
use abc_auth_svc.Crypto.{Digests}
use abc_auth_svc.Upstreams.{Env, Server}
use abc_auth_svc.Http.{Request}
use abc_auth_svc.Http.Calls.{OnlyCalls, calls_rules}
use abc_auth_svc.Claim.Race.{KeepsClaims}
use abc_auth_svc.Exchange.{handle_auth_exchange}

pub handle_auth_exchange-KeepsClaims :
    (env : Env) (srv : Server) (digests : Digests) (r : Request)
    → OnlyCalls KeepsClaims (handle_auth_exchange env srv digests r)
unfolding handle_auth_exchange
handle_auth_exchange-KeepsClaims env srv digests r = search calls_rules depth 40
