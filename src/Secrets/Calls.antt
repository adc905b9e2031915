-- ===== src/Secrets/Calls.antt =====
-- The secrets broker: the calls that are made, by the state that they give a slot.
use abc_auth_svc.Base.{Bytes}
use abc_auth_svc.Crypto.{Digests}
use abc_auth_svc.Upstreams.{Env, Server, Slot, VarResult, value, not_found, failed}
use abc_auth_svc.Http.{Request, Body, empty, malformed, decoded}
use abc_auth_svc.Http.Calls.{OnlyCalls, calls_rules}
use abc_auth_svc.Claim.Race.{KeepsClaims}
use abc_auth_svc.Secrets.{
  SecretsBody, secrets_auth_slot, secrets_body, secrets_namespace, handle_secrets_put,
  read_variable, handle_secrets_get,
}

pub secrets_body-KeepsClaims :
    {A : Type 0} (sent : Body A) (fallback : A) → OnlyCalls KeepsClaims (secrets_body sent fallback)
unfolding secrets_body
secrets_body-KeepsClaims empty fallback = search calls_rules
secrets_body-KeepsClaims malformed fallback = search calls_rules
secrets_body-KeepsClaims (decoded a) fallback = search calls_rules

module _ (env : Env) (srv : Server) (digests : Digests) where
  pub secrets_auth_slot-KeepsClaims :
      (r : Request) → OnlyCalls KeepsClaims (secrets_auth_slot env srv digests r)
  unfolding secrets_auth_slot
  secrets_auth_slot-KeepsClaims r = search calls_rules depth 30

  secrets_namespace-KeepsClaims :
      (slot : Slot) (group : Bytes)
      → OnlyCalls KeepsClaims (secrets_namespace env srv digests slot group)
  unfolding secrets_namespace
  secrets_namespace-KeepsClaims slot group = search calls_rules depth 20

  read_variable-KeepsClaims :
      (v : VarResult) → OnlyCalls KeepsClaims (read_variable env srv digests v)
  unfolding read_variable
  read_variable-KeepsClaims (value v) = search calls_rules
  read_variable-KeepsClaims not_found = search calls_rules
  read_variable-KeepsClaims failed = search calls_rules

  pub handle_secrets_put-KeepsClaims :
      (r : Request) (sent : Body SecretsBody)
      → OnlyCalls KeepsClaims (handle_secrets_put env srv digests r sent)
  unfolding handle_secrets_put
  handle_secrets_put-KeepsClaims r sent =
      search
        (
          calls_rules, secrets_body-KeepsClaims, secrets_auth_slot-KeepsClaims,
          secrets_namespace-KeepsClaims,
        )
        depth 40

  pub handle_secrets_get-KeepsClaims :
      (r : Request) (sent : Body SecretsBody)
      → OnlyCalls KeepsClaims (handle_secrets_get env srv digests r sent)
  unfolding handle_secrets_get
  handle_secrets_get-KeepsClaims r sent =
      search
        (
          calls_rules, secrets_body-KeepsClaims, secrets_auth_slot-KeepsClaims,
          secrets_namespace-KeepsClaims, read_variable-KeepsClaims,
        )
        depth 40
