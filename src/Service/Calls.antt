-- ===== src/Service/Calls.antt =====
-- The service as a whole: the calls that are made, by the state that they give a slot.
use abc_auth_svc.Base.{Bool, List, All, Bytes}
use abc_auth_svc.Http.{Handler, Request, Body}
use abc_auth_svc.Http.Calls.{all_calls, OnlyCalls, calls_rules, OnlyCalls-bind, OnlyCalls-pure}
use abc_auth_svc.Claim.Race.{KeepsClaims, Visit, Reached}
use abc_auth_svc.Forward.Calls.{
  handle_validate-KeepsClaims, handle_validate_optional-KeepsClaims,
  handle_validate_shadow-KeepsClaims,
}
use abc_auth_svc.Login.Calls.{
  handle_login_get-KeepsClaims, handle_login_post-KeepsClaims, handle_logout-KeepsClaims,
  handle_auth_me-KeepsClaims,
}
use abc_auth_svc.Workbench.Calls.{handle_workbench_token-KeepsClaims}
use abc_auth_svc.Exchange.Calls.{handle_auth_exchange-KeepsClaims}
use abc_auth_svc.Slots.Calls.{handle_slots_me_config-KeepsClaims}
use abc_auth_svc.Manage.CredSource.Calls.{handle_cred_source-KeepsClaims}
use abc_auth_svc.Diag.Calls.{handle_slot_diag-KeepsClaims}
use abc_auth_svc.Magic.Calls.{
  handle_cli_token_post-KeepsClaims, handle_auth_redeem-KeepsClaims,
  handle_auth_minio_login-KeepsClaims,
}
use abc_auth_svc.Verify.Calls.{handle_verify_nomad-KeepsClaims}
use abc_auth_svc.Manage.Calls.{
  handle_manage_list_slots-KeepsClaims, handle_manage_get_slot-KeepsClaims,
}
use abc_auth_svc.Secrets.Calls.{handle_secrets_put-KeepsClaims, handle_secrets_get-KeepsClaims}
use abc_auth_svc.Keys.Calls.{handle_keys_get-KeepsClaims, handle_keys_mint-KeepsClaims}
use abc_auth_svc.Claim.Calls.{handle_slots_claim-KeepsClaims}
use abc_auth_svc.Manage.Lifecycle.Calls.{
  handle_manage_suspend-KeepsClaims, handle_manage_reactivate-KeepsClaims,
}
use abc_auth_svc.Manage.Rotate.Calls.{handle_manage_rotate-KeepsClaims}
use abc_auth_svc.LogLevel.Calls.{get_log_level-KeepsClaims, post_log_level-KeepsClaims}
use abc_auth_svc.Routes.{
  Verb, get_verb, Endpoint, routes, endpoint_of, not_found_endpoint, healthz_endpoint,
  readyz_endpoint, version_endpoint, log_level_endpoint, validate_endpoint,
  validate_optional_endpoint, validate_shadow_endpoint, login_get_endpoint, login_post_endpoint,
  logout_endpoint, auth_me_endpoint, workbench_token_endpoint, auth_exchange_endpoint,
  slots_me_config_endpoint, cred_source_endpoint, slot_diag_endpoint, cli_token_post_endpoint,
  auth_redeem_endpoint, auth_minio_login_endpoint, verify_nomad_endpoint,
  manage_list_slots_endpoint, manage_get_slot_endpoint, secrets_put_endpoint, secrets_get_endpoint,
  keys_get_endpoint, keys_mint_endpoint, slots_claim_endpoint, manage_suspend_endpoint,
  manage_reactivate_endpoint, manage_rotate_endpoint,
}
use abc_auth_svc.Health.{handle_not_found, handle_healthz, handle_readyz, handle_version}
use abc_auth_svc.Service.{
  Service, Sent, Payload, into, handle, handle_log_level, serve, path_slot_of,
}
use abc_auth_svc.Upstreams.{World}

into-KeepsClaims :
    {A : Type 0} (f : A → Payload) (m : Handler A)
    → OnlyCalls KeepsClaims m
    → OnlyCalls KeepsClaims (into f m)
unfolding into
into-KeepsClaims f m k = OnlyCalls-bind m _ k λ a. OnlyCalls-pure (f a)

module _ (s : Service) where
  open s use {env, srv, digests, b64, aead, probes}

  handle_log_level-KeepsClaims :
      (verb : Verb) (r : Request) (sent : Body Bytes)
      → OnlyCalls KeepsClaims (handle_log_level s verb r sent)
  unfolding handle_log_level
  handle_log_level-KeepsClaims get_verb r sent =
      into-KeepsClaims _ _ (get_log_level-KeepsClaims srv r)
  handle_log_level-KeepsClaims verb r sent =
      into-KeepsClaims _ _ (post_log_level-KeepsClaims srv r sent)

  handle-KeepsClaims :
      (e : Endpoint) (verb : Verb) (r : Request) (sent : Sent)
      → OnlyCalls KeepsClaims (handle s e verb r sent)
  unfolding handle handle_not_found handle_healthz handle_readyz handle_version
  handle-KeepsClaims not_found_endpoint verb r sent = search calls_rules
  handle-KeepsClaims healthz_endpoint verb r sent = into-KeepsClaims _ _ (OnlyCalls-pure _)
  handle-KeepsClaims readyz_endpoint verb r sent = into-KeepsClaims _ _ (OnlyCalls-pure _)
  handle-KeepsClaims version_endpoint verb r sent = into-KeepsClaims _ _ (OnlyCalls-pure _)
  handle-KeepsClaims log_level_endpoint verb r sent = handle_log_level-KeepsClaims verb r sent.field
  handle-KeepsClaims validate_endpoint verb r sent =
      into-KeepsClaims _ _ (handle_validate-KeepsClaims env srv digests b64 r)
  handle-KeepsClaims validate_optional_endpoint verb r sent =
      into-KeepsClaims _ _ (handle_validate_optional-KeepsClaims env srv digests b64 r)
  handle-KeepsClaims validate_shadow_endpoint verb r sent =
      into-KeepsClaims _ _ (handle_validate_shadow-KeepsClaims env srv digests b64 r)
  handle-KeepsClaims login_get_endpoint verb r sent =
      into-KeepsClaims _ _ (handle_login_get-KeepsClaims env srv digests b64 r)
  handle-KeepsClaims login_post_endpoint verb r sent =
      into-KeepsClaims _ _ (handle_login_post-KeepsClaims env srv digests b64 r)
  handle-KeepsClaims logout_endpoint verb r sent =
      into-KeepsClaims _ _ (handle_logout-KeepsClaims env srv digests b64)
  handle-KeepsClaims auth_me_endpoint verb r sent =
      into-KeepsClaims _ _ (handle_auth_me-KeepsClaims env r)
  handle-KeepsClaims workbench_token_endpoint verb r sent =
      into-KeepsClaims _ _ (handle_workbench_token-KeepsClaims env srv r sent.mint)
  handle-KeepsClaims auth_exchange_endpoint verb r sent =
      into-KeepsClaims _ _ (handle_auth_exchange-KeepsClaims env srv digests r)
  handle-KeepsClaims slots_me_config_endpoint verb r sent =
      into-KeepsClaims _ _ (handle_slots_me_config-KeepsClaims env srv r)
  handle-KeepsClaims cred_source_endpoint verb r sent =
      into-KeepsClaims _ _ (handle_cred_source-KeepsClaims env srv digests b64 r sent.field)
  handle-KeepsClaims slot_diag_endpoint verb r sent =
      into-KeepsClaims _ _ (handle_slot_diag-KeepsClaims env srv probes r)
  handle-KeepsClaims cli_token_post_endpoint verb r sent =
      into-KeepsClaims _ _ (handle_cli_token_post-KeepsClaims env srv sent.cli_token)
  handle-KeepsClaims auth_redeem_endpoint verb r sent =
      into-KeepsClaims _ _ (handle_auth_redeem-KeepsClaims env srv digests b64 r)
  handle-KeepsClaims auth_minio_login_endpoint verb r sent =
      into-KeepsClaims _ _ (handle_auth_minio_login-KeepsClaims env srv r)
  handle-KeepsClaims verify_nomad_endpoint verb r sent =
      into-KeepsClaims _ _ (handle_verify_nomad-KeepsClaims env r)
  handle-KeepsClaims manage_list_slots_endpoint verb r sent =
      into-KeepsClaims _ _ (handle_manage_list_slots-KeepsClaims env srv r)
  handle-KeepsClaims manage_get_slot_endpoint verb r sent =
      into-KeepsClaims _ _ (handle_manage_get_slot-KeepsClaims env srv r)
  handle-KeepsClaims secrets_put_endpoint verb r sent =
      into-KeepsClaims _ _ (handle_secrets_put-KeepsClaims env srv digests r sent.secrets)
  handle-KeepsClaims secrets_get_endpoint verb r sent =
      into-KeepsClaims _ _ (handle_secrets_get-KeepsClaims env srv digests r sent.secrets)
  handle-KeepsClaims keys_get_endpoint verb r sent =
      into-KeepsClaims _ _ (handle_keys_get-KeepsClaims env srv digests aead r sent.field)
  handle-KeepsClaims keys_mint_endpoint verb r sent =
      into-KeepsClaims _ _ (handle_keys_mint-KeepsClaims env srv digests aead r sent.field)
  handle-KeepsClaims slots_claim_endpoint verb r sent =
      into-KeepsClaims _ _ (handle_slots_claim-KeepsClaims env srv digests b64 sent.claim)
  handle-KeepsClaims manage_suspend_endpoint verb r sent =
      into-KeepsClaims _ _ (handle_manage_suspend-KeepsClaims env srv r)
  handle-KeepsClaims manage_reactivate_endpoint verb r sent =
      into-KeepsClaims _ _ (handle_manage_reactivate-KeepsClaims env srv r)
  handle-KeepsClaims manage_rotate_endpoint verb r sent =
      into-KeepsClaims _ _ (handle_manage_rotate-KeepsClaims env srv r)

  pub serve_calls :
      (verb : Verb) (path : List Bytes) (r : Request) (sent : Sent)
      → OnlyCalls KeepsClaims (serve s verb path r sent)
  unfolding serve
  serve_calls verb path r sent =
      handle-KeepsClaims (endpoint_of verb path) verb
        (record r { path_slot = path_slot_of routes verb path }) sent

  -- No request takes a slot back to `unclaimed`: if none of the calls before it set the state of a
  -- slot to `unclaimed`, then, whatever its method, path and body, none of the calls after it has.
  pub serve-KeepsClaims :
      (verb : Verb) (path : List Bytes) (r : Request) (sent : Sent) (w : World)
      → All KeepsClaims w.history
      → All KeepsClaims (serve s verb path r sent w).1.history
  serve-KeepsClaims verb path r sent w = all_calls (serve_calls verb path r sent) w

  -- What several claims have reached together stays reached while another request is served,
  -- whatever its method, path and body: it is a sequence of calls between their steps. A request
  -- that claims a slot counts here for its calls only.
  pub serve-Reached :
      (has_lock : Bool) (p : List Visit) (won : List Bytes) (verb : Verb) (path : List Bytes)
      (r : Request) (sent : Sent) (w : World)
      → Reached env srv digests b64 has_lock p won w.history
      → Reached env srv digests b64 has_lock p won (serve s verb path r sent w).1.history
  serve-Reached has_lock p won verb path r sent =
      (serve_calls verb path r sent).at (Reached env srv digests b64 has_lock p won)
        λ c h k reached. Reached.calls c p won h k reached
