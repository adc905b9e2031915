-- ===== src/Http/Actions.antt =====
-- One action for each call of an upstream.
use abc_auth_svc.Text.Int.{ℤ}
use abc_auth_svc.Base.{ℕ, Bool, Option, List, Bytes}
use abc_auth_svc.Upstreams.{
  Call, Env, Outcome, Slot, NomadTokenSelf, MintResult, VarResult, GroupKey, Fields,
}
use abc_auth_svc.Http.{Handler, ask, look}

module _ (env : Env) where
  abbrev pub now : Handler ℕ
  now = look env.now

  abbrev pub timestamp : Handler Bytes
  timestamp = look env.timestamp

  abbrev pub find_slot : Bytes → Handler (Outcome (Option Slot))
  find_slot filter = ask (Call.find_slot filter) (λ h. env.found_slot h filter)

  abbrev pub get_slot : Bytes → Handler (Outcome Slot)
  get_slot id = ask (Call.get_slot id) (λ h. env.slot_by_id h id)

  abbrev pub list_slots : Bytes → ℕ → Handler (Outcome (List Slot))
  list_slots filter n = ask (Call.list_slots filter n) (λ h. env.slots h filter n)

  abbrev pub patch_slot : Bytes → Fields → Handler (Outcome (Unit {0}))
  patch_slot id fields = ask (Call.patch_slot id fields) (λ h. env.patched h id fields)

  abbrev pub group_name : Slot → Handler Bytes
  group_name slot = ask (Call.group_name slot) (λ h. env.name_of_group h slot)

  abbrev pub cached_slot_state : Bytes → Handler Bytes
  cached_slot_state user = ask (Call.slot_state user) (λ h. env.cached_state h user)

  abbrev pub group_default : Bytes → Handler Bytes
  group_default id = ask (Call.group_default id) (λ h. env.default_of_group h id)

  abbrev pub group_key_record : Bytes → Handler (Outcome GroupKey)
  group_key_record id = ask (Call.group_key id) (λ h. env.group_key_record h id)

  abbrev pub put_group_key : Bytes → Bytes → Bytes → ℤ → Handler (Outcome (Unit {0}))
  put_group_key id recipient wrapped version =
      ask (Call.put_group_key id recipient wrapped version)
        (λ h. env.group_key_put h id recipient wrapped version)

  abbrev pub lookup_token_self : Bytes → Handler (Outcome (Option NomadTokenSelf))
  lookup_token_self token = ask (Call.lookup_token token) (λ h. env.token_self h token)

  abbrev pub var_get : Bytes → Bytes → Handler VarResult
  var_get ns key = ask (Call.var_get ns key) (λ h. env.variable h ns key)

  abbrev pub var_put : Bytes → Bytes → Bytes → Handler (Outcome (Unit {0}))
  var_put ns key v = ask (Call.var_put ns key v) (λ h. env.variable_put h ns key v)

  abbrev pub create_token : Bytes → Bytes → Handler (Outcome (Bytes × Bytes))
  create_token slot role = ask (Call.create_token slot role) (λ h. env.created_token h slot role)

  abbrev pub get_role_id : Bytes → Handler (Outcome Bytes)
  get_role_id name = ask (Call.role_id name) (λ h. env.role h name)

  abbrev pub mint_user_token : Bytes → Bytes → ℕ → Handler MintResult
  mint_user_token user note ttl =
      ask (Call.mint_user_token user note ttl) (λ h. env.minted_token h user note ttl)

  abbrev pub user_exists : Bytes → Handler (Outcome (Option Bool))
  user_exists user = ask (Call.user_exists user) (λ h. env.existing_user h user)

  abbrev pub validate_credential : Bytes → Bytes → Handler (Outcome Bool)
  validate_credential key secret =
      ask (Call.validate_credential key secret) (λ h. env.valid_credential h key secret)

  abbrev pub console_login : Bytes → Bytes → Handler (Outcome Bytes)
  console_login key secret = ask (Call.console_login key secret) (λ h. env.console_jwt h key secret)

  abbrev pub rotate_secret : Bytes → Handler (Outcome Bytes)
  rotate_secret user = ask (Call.rotate_secret user) (λ h. env.rotated_secret h user)

  abbrev pub random_bytes : Handler (Outcome Bytes)
  random_bytes = ask Call.random (λ h. env.random_bytes h)

  abbrev pub generate_keypair : Handler (Outcome (Bytes × Bytes))
  generate_keypair = ask Call.keypair (λ h. env.generated_keypair h)
