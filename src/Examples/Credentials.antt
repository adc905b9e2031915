-- ===== src/Examples/Credentials.antt =====
-- The theorems on credentials, keys and slots, applied in the small world.
use abc_auth_svc.Text.Int.{pos}
use abc_auth_svc.Base.{◌≡◌, refl, some, [], ◌∷◌, ◌++◌, All, Bytes, codes, ◌==◌}
use abc_auth_svc.Text.{has_prefix, trim_space}
use abc_auth_svc.KekWrap.{unwrap_kek, wrap_kek}
use abc_auth_svc.KekWrap.RoundTrip.{unwrap_kek-wrap_kek}
use abc_auth_svc.KekWrap.Binding.{kek_wrap_aad-injective}
use abc_auth_svc.Http.{Reply, done, fail, Body, decoded, empty, Request, has_store}
use abc_auth_svc.Exchange.{CredsBundle, handle_auth_exchange, build_creds_bundle}
use abc_auth_svc.Exchange.Laws.{IsOwnBundle, handle_auth_exchange-IsOwnBundle}
use abc_auth_svc.Secrets.{SecretsBody}
use abc_auth_svc.Keys.{ReleasedKey, handle_keys_get}
use abc_auth_svc.Keys.Laws.{IsMembersKey, handle_keys_get-IsMembersKey}
use abc_auth_svc.Claim.{ClaimRequest, handle_slots_claim}
use abc_auth_svc.Claim.Laws.{IsClaimed, handle_slots_claim-IsClaimed}
use abc_auth_svc.Slots.{ConfigFile}
use abc_auth_svc.Workbench.{MintRequest, absent, handle_workbench_token}
use abc_auth_svc.Workbench.Laws.{IsPermitted, handle_workbench_token-IsPermitted}
use abc_auth_svc.Render.{
  normalized, seedling, render_config_yaml, render_opaque, render_config_yaml-seedling,
}
use abc_auth_svc.Scenario.{
  ann, plain, short_digests, tagged, slot, mk, salt, nonce, env, srv, world, request,
}

abbrev wrapped : Bytes
wrapped = salt ++ (nonce ++ (0 ∷ codes "sk"))

unwrap_kek-wrap_kek_example :
    unwrap_kek tagged mk (codes "group:lab") (pos 3) wrapped ≡ some (codes "sk")
unfolding codes wrap_kek
unwrap_kek-wrap_kek_example =
    unwrap_kek-wrap_kek tagged mk salt nonce (codes "group:lab") (codes "sk") wrapped (pos 3) refl
      refl refl refl

kek_wrap_aad-injective_example : (codes "group:lab" ≡ codes "group:lab") × (pos 3 ≡ pos 3)
kek_wrap_aad-injective_example =
    kek_wrap_aad-injective (codes "group:lab") (codes "group:lab") (pos 3) (pos 3) refl

abbrev bundle : CredsBundle
bundle = build_creds_bundle srv.cluster slot (codes "lab")

handle_auth_exchange-IsOwnBundle_example : IsOwnBundle env srv short_digests request world bundle
unfolding handle_auth_exchange abc_auth_svc.Http.◌>>=◌ abc_auth_svc.Http.bearer ◌==◌ codes
    abc_auth_svc.Text.equal_fold trim_space
handle_auth_exchange-IsOwnBundle_example =
    handle_auth_exchange-IsOwnBundle env srv short_digests request world bundle refl

abbrev secret_request : Body SecretsBody
secret_request = decoded (record { key = codes "k"; group = []; value = some (codes "v") })

abbrev released : ReleasedKey
released = record {
  kek_id = codes "group:lab";
  version = pos 3;
  recipient = codes "age1";
  identity = codes "sk";
}

handle_keys_get-IsMembersKey_example :
    IsMembersKey env srv short_digests tagged request (decoded (codes "group:lab")) [] released
unfolding handle_keys_get abc_auth_svc.Http.◌>>=◌ abc_auth_svc.Keys.root_mk trim_space codes
    abc_auth_svc.Secrets.secrets_auth_slot abc_auth_svc.Http.bearer ◌==◌
    abc_auth_svc.Text.equal_fold abc_auth_svc.Secrets.secrets_body unwrap_kek
handle_keys_get-IsMembersKey_example =
    handle_keys_get-IsMembersKey env srv short_digests tagged request (decoded (codes "group:lab"))
      world released refl

abbrev claim_yaml : Bytes
claim_yaml = render_opaque srv.cluster ann (codes "abco_0123456789abcdef0123456789abcdef")

abbrev claim : Body ClaimRequest
claim = decoded (record {
  claim_code = codes "cc";
  name = codes "Ann";
  email = [];
  cred_source = codes "seedling/v1";
})

abbrev claim_file : ConfigFile
claim_file = record { blob = claim_yaml; filename = codes "abc-config-ann.yaml" }

handle_slots_claim-IsClaimed_example : IsClaimed env srv short_digests plain claim [] claim_file
unfolding handle_slots_claim abc_auth_svc.Http.◌>>=◌ trim_space codes normalized
    abc_auth_svc.Text.to_lower ◌==◌ abc_auth_svc.Render.mint_opaque
    abc_auth_svc.Slots.persist_slot_config render_config_yaml
handle_slots_claim-IsClaimed_example =
    handle_slots_claim-IsClaimed env srv short_digests plain claim world claim_file refl

abbrev file : ConfigFile
file = record { blob = slot.config_yaml; filename = codes "abc-config-ann.yaml" }

abbrev mint_body : Body MintRequest
mint_body = decoded (record { note = []; expires_in = absent })

handle_workbench_token-IsPermitted_example :
    All
      (IsPermitted env srv request)
      (handle_workbench_token env srv request mint_body world).1.history
handle_workbench_token-IsPermitted_example =
    handle_workbench_token-IsPermitted env srv request mint_body world tt
