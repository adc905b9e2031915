-- ===== src/Routes.antt =====
-- The routes of internal/authsvc/server.go: which handler NewServer registers for which request.
-- A path is the list of its segments.
pub mod Laws
use abc_auth_svc.Base.{
  List, [], ◌∷◌, Bool, true, false, not, ◌&&◌, if◌then◌else◌, Bytes, codes, ◌==◌, is_empty, String,
}

pub data Verb : Type 0 where
  get_verb head_verb post_verb other_verb : Verb

pub data Segment : Type 0 where
  literal : Bytes → Segment
  slot_name : Segment

-- An endpoint is named for its handler: `validate_endpoint` is handleValidate.
pub data Endpoint : Type 0 where
  not_found_endpoint healthz_endpoint readyz_endpoint version_endpoint validate_endpoint
        validate_optional_endpoint validate_shadow_endpoint login_get_endpoint login_post_endpoint
        logout_endpoint auth_me_endpoint workbench_token_endpoint auth_exchange_endpoint
        slots_me_config_endpoint cred_source_endpoint slot_diag_endpoint cli_token_post_endpoint
        auth_redeem_endpoint auth_minio_login_endpoint verify_nomad_endpoint
        manage_list_slots_endpoint manage_get_slot_endpoint secrets_put_endpoint
        secrets_get_endpoint keys_get_endpoint keys_mint_endpoint slots_claim_endpoint
        manage_suspend_endpoint manage_reactivate_endpoint manage_rotate_endpoint
        log_level_endpoint :
      Endpoint

pub record Route : Type 0 where
  pub verb : Verb
  pub pattern : List Segment
  pub endpoint : Endpoint

-- A pattern for GET also takes HEAD.
unfoldable pub accepts : Verb → Verb → Bool
accepts get_verb get_verb = true
accepts get_verb head_verb = true
accepts head_verb head_verb = true
accepts post_verb post_verb = true
accepts other_verb other_verb = true
accepts _ _ = false

unfoldable pub fits : Segment → Bytes → Bool
fits (literal name) s = name == s
fits slot_name s = not (is_empty s)

unfoldable pub matches : List Segment → List Bytes → Bool
matches [] [] = true
matches [] (s ∷ path) = false
matches (p ∷ ps) [] = false
matches (p ∷ ps) (s ∷ path) = fits p s && matches ps path

-- The choice of the ServeMux: no two patterns below fit the same request, but for `/`, which fits
-- every request and counts last.
unfoldable pub choose : List Route → Verb → List Bytes → Endpoint
choose [] verb path = not_found_endpoint
choose (r ∷ rs) verb path =
    let rest = choose rs verb path in
    if matches r.pattern path && accepts r.verb verb then r.endpoint else rest

abbrev at : String → Segment
at name = literal (codes name)

abbrev get : List Segment → Endpoint → Route
get pattern endpoint = record { verb = get_verb; pattern = pattern; endpoint = endpoint }

abbrev post : List Segment → Endpoint → Route
post pattern endpoint = record { verb = post_verb; pattern = pattern; endpoint = endpoint }

unfoldable pub routes : List Route
routes =
    get (at "healthz" ∷ []) healthz_endpoint
    ∷ get (at "readyz" ∷ []) readyz_endpoint
    ∷ get (at "version" ∷ []) version_endpoint
    ∷ get (at "validate" ∷ []) validate_endpoint
    ∷ get (at "validate-optional" ∷ []) validate_optional_endpoint
    ∷ get (at "validate-shadow" ∷ []) validate_shadow_endpoint
    ∷ get (at "auth" ∷ at "login" ∷ []) login_get_endpoint
    ∷ post (at "auth" ∷ at "login" ∷ []) login_post_endpoint
    ∷ get (at "auth" ∷ at "logout" ∷ []) logout_endpoint
    ∷ get (at "auth" ∷ at "me" ∷ []) auth_me_endpoint
    ∷ post (at "workbench" ∷ at "token" ∷ []) workbench_token_endpoint
    ∷ post (at "auth" ∷ at "workbench" ∷ at "token" ∷ []) workbench_token_endpoint
    ∷ post (at "auth" ∷ at "exchange" ∷ []) auth_exchange_endpoint
    ∷ post (at "exchange" ∷ []) auth_exchange_endpoint
    ∷ get (at "slots" ∷ at "me" ∷ at "config" ∷ []) slots_me_config_endpoint
    ∷ get (at "auth" ∷ at "slots" ∷ at "me" ∷ at "config" ∷ []) slots_me_config_endpoint
    ∷ post (at "manage" ∷ at "slots" ∷ slot_name ∷ at "cred-source" ∷ []) cred_source_endpoint
    ∷ post (at "auth" ∷ at "manage" ∷ at "slots" ∷ slot_name ∷ at "cred-source" ∷ [])
        cred_source_endpoint
    ∷ get (at "manage" ∷ at "slots" ∷ slot_name ∷ at "diag" ∷ []) slot_diag_endpoint
    ∷ get (at "auth" ∷ at "manage" ∷ at "slots" ∷ slot_name ∷ at "diag" ∷ []) slot_diag_endpoint
    ∷ post (at "auth" ∷ at "cli-token" ∷ []) cli_token_post_endpoint
    ∷ post (at "cli-token" ∷ []) cli_token_post_endpoint
    ∷ get (at "auth" ∷ at "redeem" ∷ []) auth_redeem_endpoint
    ∷ get (at "redeem" ∷ []) auth_redeem_endpoint
    ∷ get (at "auth" ∷ at "minio-login" ∷ []) auth_minio_login_endpoint
    ∷ get (at "minio-login" ∷ []) auth_minio_login_endpoint
    ∷ get (at "verify" ∷ []) verify_nomad_endpoint
    ∷ post (at "verify" ∷ []) verify_nomad_endpoint
    ∷ get (at "verify-namespace" ∷ []) verify_nomad_endpoint
    ∷ post (at "verify-namespace" ∷ []) verify_nomad_endpoint
    ∷ get (at "manage" ∷ at "slots" ∷ []) manage_list_slots_endpoint
    ∷ get (at "auth" ∷ at "manage" ∷ at "slots" ∷ []) manage_list_slots_endpoint
    ∷ get (at "manage" ∷ at "slots" ∷ slot_name ∷ []) manage_get_slot_endpoint
    ∷ get (at "auth" ∷ at "manage" ∷ at "slots" ∷ slot_name ∷ []) manage_get_slot_endpoint
    ∷ get (at "auth" ∷ at "health" ∷ []) healthz_endpoint
    ∷ post (at "auth" ∷ at "secrets" ∷ at "put" ∷ []) secrets_put_endpoint
    ∷ post (at "secrets" ∷ at "put" ∷ []) secrets_put_endpoint
    ∷ post (at "auth" ∷ at "secrets" ∷ at "get" ∷ []) secrets_get_endpoint
    ∷ post (at "secrets" ∷ at "get" ∷ []) secrets_get_endpoint
    ∷ post (at "auth" ∷ at "keys" ∷ at "get" ∷ []) keys_get_endpoint
    ∷ post (at "keys" ∷ at "get" ∷ []) keys_get_endpoint
    ∷ post (at "auth" ∷ at "keys" ∷ at "mint" ∷ []) keys_mint_endpoint
    ∷ post (at "keys" ∷ at "mint" ∷ []) keys_mint_endpoint
    ∷ post (at "slots" ∷ at "claim" ∷ []) slots_claim_endpoint
    ∷ post (at "auth" ∷ at "slots" ∷ at "claim" ∷ []) slots_claim_endpoint
    ∷ post (at "manage" ∷ at "slots" ∷ slot_name ∷ at "suspend" ∷ []) manage_suspend_endpoint
    ∷ post (at "auth" ∷ at "manage" ∷ at "slots" ∷ slot_name ∷ at "suspend" ∷ [])
        manage_suspend_endpoint
    ∷ post (at "manage" ∷ at "slots" ∷ slot_name ∷ at "reactivate" ∷ []) manage_reactivate_endpoint
    ∷ post (at "auth" ∷ at "manage" ∷ at "slots" ∷ slot_name ∷ at "reactivate" ∷ [])
        manage_reactivate_endpoint
    ∷ post (at "manage" ∷ at "slots" ∷ slot_name ∷ at "rotate" ∷ []) manage_rotate_endpoint
    ∷ post (at "auth" ∷ at "manage" ∷ at "slots" ∷ slot_name ∷ at "rotate" ∷ [])
        manage_rotate_endpoint
    ∷ get (at "manage" ∷ at "log-level" ∷ []) log_level_endpoint
    ∷ post (at "manage" ∷ at "log-level" ∷ []) log_level_endpoint
    ∷ get (at "auth" ∷ at "manage" ∷ at "log-level" ∷ []) log_level_endpoint
    ∷ post (at "auth" ∷ at "manage" ∷ at "log-level" ∷ []) log_level_endpoint
    ∷ []

-- The endpoint that serves a request.
unfoldable pub endpoint_of : Verb → List Bytes → Endpoint
endpoint_of verb path = choose routes verb path
