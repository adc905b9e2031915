-- ===== src/Wiring/Mocks.antt =====
-- The mocks of --mock-upstreams: fixed answers, whatever was called before.
use abc_auth_svc.Base.{
  Bool, not, ◌&&◌, ◌||◌, Option, none, some, [], ◌∷◌, ◌++◌, if◌then◌else◌, Bytes, codes, ◌==◌,
  is_empty,
}
use abc_auth_svc.Text.{contains}
use abc_auth_svc.Upstreams.{Env, Outcome, ok, err, Slot, NomadTokenSelf, JhToken, minted, not_found}

-- mockSlot
unfoldable pub mock_slot : Slot
mock_slot = record {
  id = codes "mock";
  slot_name = codes "slot-calm_dassie";
  group = [];
  group_name = codes "mbhg-hostgen";
  nomad_token_secret = codes "mock-nomad-token-secret";
  nomad_token_accessor = [];
  minio_access_key = codes "calm_dassie";
  minio_secret_key = codes "mock-minio-secret-key";
  state = codes "claimed";
  cred_source = codes "seedling/v1";
  opaque_token_hash = [];
  config_yaml = [];
  claim_code = [];
  claimed_by_name = [];
  claimed_by_email = [];
  claimed_at = [];
}

-- mockStore.FindSlot
unfoldable pub mock_find_slot : Bytes → Outcome (Option Slot)
mock_find_slot filter = ok (
    if contains filter (codes "opaque_token_hash=") || contains filter (codes "slot_name=")
    then some mock_slot
    else none)

-- mockNomad.LookupTokenSelf
unfoldable pub mock_token_self : Bytes → Outcome (Option NomadTokenSelf)
mock_token_self token =
    if is_empty token || token == codes "invalid"
    then err
    else ok (
        some (record {
          name = codes "pool-calm_dassie";
          type = codes "client";
          namespace = codes "su-mbhg-hostgen";
          policies = [];
          roles = [];
        }))

-- mockHub.MintUserToken
unfoldable pub mock_user_token : Bytes → Bytes → JhToken
mock_user_token user note = record {
  token = codes "mock-jh-token-for-" ++ user;
  id = codes "mock-1";
  expires_at = codes "2026-06-11T00:00:00Z";
  scopes = (codes "access:servers!user=" ++ user) ∷ [];
  note = note;
}

unfoldable pub mock_login_fails : Bytes → Bytes → Bool
mock_login_fails key secret = is_empty key || is_empty secret || secret == codes "wrong"

-- mockMinio.ValidateCredential
unfoldable pub mock_credential : Bytes → Bytes → Outcome Bool
mock_credential key secret =
    ok (not (is_empty key) && not (is_empty secret) && not (secret == codes "wrong"))

-- mockMinio.ConsoleLogin
unfoldable pub mock_console_login : Bytes → Bytes → Outcome Bytes
unfolding mock_login_fails
mock_console_login key secret =
    ok (if mock_login_fails key secret then [] else codes "mock-jwt-" ++ key)

-- The upstreams of BuildUpstreams with --mock-upstreams. What has no mock (the clock, the random
-- source) is that of `env`.
unfoldable pub mocked : Env → Env
unfolding mock_find_slot mock_token_self mock_user_token mock_credential mock_console_login
mocked env = record env {
  found_slot = λ h filter. mock_find_slot filter;
  slot_by_id = λ h id. ok mock_slot;
  slots = λ h filter n. ok (mock_slot ∷ []);
  patched = λ h id fields. ok tt;
  name_of_group = λ h slot. slot.group_name;
  cached_state = λ h user. codes "none";
  token_self = λ h token. mock_token_self token;
  variable = λ h namespace path. not_found;
  variable_put = λ h namespace path v. ok tt;
  created_token = λ h slot role. ok (codes "mock-accessor-" ++ slot, codes "mock-secret-" ++ slot);
  role = λ h name. ok (codes "mock-role");
  minted_token = λ h user note ttl. minted (mock_user_token user note);
  valid_credential = λ h key secret. mock_credential key secret;
  console_jwt = λ h key secret. mock_console_login key secret;
  rotated_secret = λ h user. ok (codes "mock-secret-for-" ++ user);
}
