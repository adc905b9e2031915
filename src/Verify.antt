-- ===== src/Verify.antt =====
-- internal/authsvc/verify.go: the introspection probe of a Nomad token.
pub mod SameIdentity
pub mod Calls
use abc_auth_svc.Base.{Option, some}
use abc_auth_svc.Identity.{IdentityHeaders, nomad_identity_headers}
use abc_auth_svc.Upstreams.{Env, Outcome, ok, NomadTokenSelf}
use abc_auth_svc.Http.{Handler, ◌>>=◌, pure, Request, nomad_token_from_request}
use abc_auth_svc.Http.Actions.{lookup_token_self}

-- The identity headers of a 200, or a 401 with a text body.
pub data VerifyReply : Type 0 where
  verified : IdentityHeaders → VerifyReply
  unauthorized : VerifyReply

unfoldable pub verify_reply : Outcome (Option NomadTokenSelf) → VerifyReply
verify_reply (ok (some info)) = verified (nomad_identity_headers info)
verify_reply _ = unauthorized

module _ (env : Env) where
  -- handleVerifyNomad; an empty token is looked up too.
  unfoldable pub handle_verify_nomad : Request → Handler VerifyReply
  unfolding verify_reply
  handle_verify_nomad r = do
    looked_up ← lookup_token_self env (nomad_token_from_request r)
    pure (verify_reply looked_up)
