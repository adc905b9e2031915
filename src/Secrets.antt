-- ===== src/Secrets.antt =====
-- internal/authsvc/secrets.go: a slot's secrets in the Nomad variables of its group's namespace.
pub mod Laws
pub mod Calls
use abc_auth_svc.Base.{
  ℕ, zero, suc, ◌+◌, ◌-◌, ◌*◌, ◌/◌, ◌%◌, ◌^◌, ◌≤◌, ◌<◌, ◌≡◌, refl, sym, ap, ◌∙◌, subst, ◌≡⟨◌⟩◌, ◌∎,
  ◌≢◌, ◌↔◌, ◌⊎◌, inl, inr, Bool, true, false, not, ◌&&◌, ◌||◌, Option, none, some, List, [], ◌∷◌,
  ◌++◌, append-nil, append_assoc, arith, ltb, leb, nat_eq, if◌then◌else◌, nat_eq_iff, nat_eq_refl,
  Bool-cases, Option-cases, length, take, drop, all, length-append, take-append_left,
  drop-append_left, drop_past, All, All-append, All-append_left, All-append_right, Bytes, codes,
  ◌==◌, eq_of_==, ==_refl, ==_iff, is_empty, Lacks, String,
}
use abc_auth_svc.Text.{trim_space}
use abc_auth_svc.Naming.{namespace_for_group}
use abc_auth_svc.Crypto.{Digests}
use abc_auth_svc.Exchange.{by_opaque}
use abc_auth_svc.Upstreams.{Env, Server, Slot, VarResult, value, not_found, failed}
use abc_auth_svc.Http.{
  Handler, ◌>>=◌, ◌>>◌, pure, Request, Body, empty, malformed, decoded, err_json, require, or_fail,
  present, has_store, bearer,
}
use abc_auth_svc.Http.Actions.{find_slot, group_name, var_get, var_put}

module _ (env : Env) (srv : Server) (digests : Digests) where
  -- secretsAuthSlot
  unfoldable pub secrets_auth_slot : Request → Handler Slot
  secrets_auth_slot r = do
    opaque ← present (bearer (r.header (codes "Authorization"))) 401 (codes "missing_bearer_token")
    require (not (is_empty opaque)) 401 (codes "empty_bearer_token")
    require (has_store srv.store) 500 (codes "store_not_configured")
    found ← find_slot env (by_opaque digests opaque)
    slot_or_nil ← or_fail found 500 (codes "internal_error")
    present slot_or_nil 401 (codes "invalid_or_inactive_token")

-- secretsBody, with the zero value for no body.
unfoldable pub secrets_body : {A : Type 0} → Body A → A → Handler A
secrets_body empty fallback = pure fallback
secrets_body malformed fallback = err_json 400 (codes "bad_json")
secrets_body (decoded a) fallback = pure a

abbrev pub user_path : Bytes → Bytes → Bytes
user_path slot_name key = codes "abc/users/" ++ slot_name ++ codes "/" ++ key

-- The string fields of the body (`""` where one is missing or no string), and `stringify` of the
-- value, if there is one.
pub record SecretsBody : Type 0 where
  pub key : Bytes
  pub group : Bytes
  pub value : Option Bytes

abbrev pub no_body : SecretsBody
no_body = record { key = []; group = []; value = none }

module _ (env : Env) (srv : Server) (digests : Digests) where
  -- secretsNamespaceAndPath, the namespace.
  unfoldable pub secrets_namespace : Slot → Bytes → Handler Bytes
  secrets_namespace slot group_override = do
    group ←
        if is_empty (trim_space group_override) && has_store srv.store
        then group_name env slot
        else pure (trim_space group_override)
    pure (if is_empty group then codes "default" else namespace_for_group group)

  -- handleSecretsPut
  pub handle_secrets_put : Request → Body SecretsBody → Handler (Unit {0})
  handle_secrets_put r sent = do
    slot ← secrets_auth_slot env srv digests r
    body ← secrets_body sent no_body
    let key = trim_space body.key
    require (not (is_empty key)) 400 (codes "key_and_value_required")
    v ← present body.value 400 (codes "key_and_value_required")
    require srv.has_nomad_admin 500 (codes "nomad_admin_not_configured")
    ns ← secrets_namespace slot body.group
    stored ← var_put env ns (user_path slot.slot_name key) v
    or_fail stored 500 (codes "store_failed")

  read_variable : VarResult → Handler Bytes
  read_variable (value v) = pure v
  read_variable not_found = err_json 404 (codes "not_found")
  read_variable failed = err_json 500 (codes "read_failed")

  -- handleSecretsGet
  pub handle_secrets_get : Request → Body SecretsBody → Handler Bytes
  unfolding read_variable
  handle_secrets_get r sent = do
    slot ← secrets_auth_slot env srv digests r
    body ← secrets_body sent no_body
    let key = trim_space body.key
    require (not (is_empty key)) 400 (codes "key_required")
    require srv.has_nomad_admin 500 (codes "nomad_admin_not_configured")
    ns ← secrets_namespace slot []
    found ← var_get env ns (user_path slot.slot_name key)
    read_variable found
