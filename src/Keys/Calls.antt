-- ===== src/Keys/Calls.antt =====
-- The group keys: the calls that are made, by the state that they give a slot.
use abc_auth_svc.Base.{Bytes}
use abc_auth_svc.Crypto.{Digests}
use abc_auth_svc.Upstreams.{Env, Server, GroupKey}
use abc_auth_svc.Http.{Request, Body, require_operator}
use abc_auth_svc.Http.Calls.{OnlyCalls, calls_rules}
use abc_auth_svc.Claim.Race.{KeepsClaims}
use abc_auth_svc.KekWrap.{Aead}
use abc_auth_svc.Secrets.Calls.{secrets_body-KeepsClaims, secrets_auth_slot-KeepsClaims}
use abc_auth_svc.Keys.{keys_prereqs, release, handle_keys_get, mint_key, handle_keys_mint}

module _ (env : Env) (srv : Server) (digests : Digests) (aead : Aead) where
  keys_prereqs-KeepsClaims : OnlyCalls KeepsClaims (keys_prereqs env srv digests aead)
  unfolding keys_prereqs
  keys_prereqs-KeepsClaims = search calls_rules depth 20

  release-KeepsClaims :
      (mk wanted : Bytes) (key : GroupKey)
      → OnlyCalls KeepsClaims (release env srv digests aead mk wanted key)
  unfolding release
  release-KeepsClaims mk wanted key = search calls_rules depth 20

  pub handle_keys_get-KeepsClaims :
      (r : Request) (sent : Body Bytes)
      → OnlyCalls KeepsClaims (handle_keys_get env srv digests aead r sent)
  unfolding handle_keys_get
  handle_keys_get-KeepsClaims r sent =
      search
        (
          calls_rules, keys_prereqs-KeepsClaims, release-KeepsClaims, secrets_body-KeepsClaims,
          secrets_auth_slot-KeepsClaims,
        )
        depth 40

  mint_key-KeepsClaims :
      (mk group_id : Bytes) (key : GroupKey)
      → OnlyCalls KeepsClaims (mint_key env srv digests aead mk group_id key)
  unfolding mint_key
  mint_key-KeepsClaims mk group_id key = search calls_rules depth 40

  pub handle_keys_mint-KeepsClaims :
      (r : Request) (sent : Body Bytes)
      → OnlyCalls KeepsClaims (handle_keys_mint env srv digests aead r sent)
  unfolding handle_keys_mint require_operator
  handle_keys_mint-KeepsClaims r sent =
      search (calls_rules, keys_prereqs-KeepsClaims, mint_key-KeepsClaims, secrets_body-KeepsClaims)
        depth 40
