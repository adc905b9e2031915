-- ===== src/Exchange/Laws.antt =====
-- Who gets which credentials from the broker.
use abc_auth_svc.Base.{
  ◌≡◌, refl, ap, ◌∙◌, true, not, some, [], ◌∷◌, ◌++◌, if◌then◌else◌, All, Bytes, codes, ◌==◌,
  is_empty,
}
use abc_auth_svc.Text.{trim_space}
use abc_auth_svc.Crypto.{Digests, sha256_hex}
use abc_auth_svc.Naming.{namespace_for_group}
use abc_auth_svc.Http.Finds.{
  Finds, Finds-require, Finds-present, Finds-ask, Finds-or_fail, Finds-pure,
}
use abc_auth_svc.Upstreams.{World, Call, Env, Server, ok, Slot}
use abc_auth_svc.Http.{done, Request, bearer}
use abc_auth_svc.Http.Calls.{all_calls, OnlyCalls, calls_rules}
use abc_auth_svc.Exchange.{CredsBundle, build_creds_bundle, by_opaque, handle_auth_exchange}

module _ (env : Env) (srv : Server) (digests : Digests) (r : Request) where
  -- The filter for a claimed slot with the digest of the token.
  abbrev pub opaque_filter : Bytes → Bytes
  opaque_filter opaque =
      codes "opaque_token_hash='" ++ sha256_hex digests opaque ++ codes "' && state='claimed'"

  abbrev pub namespace_of : Bytes → Bytes
  namespace_of group = if is_empty group then [] else namespace_for_group group

  -- The bundle has the secrets of the claimed slot that the store has, at the time of the request,
  -- under the hash of the bearer token, and the addresses of the cluster.
  pub record IsOwnBundle (w : World) (bundle : CredsBundle) : Type 0 where
    pub opaque : Bytes
    pub slot : Slot
    pub sent : bearer (r.header (codes "Authorization")) ≡ some opaque
    pub nonempty : not (is_empty opaque) ≡ true
    pub found : env.found_slot w.history (opaque_filter opaque) ≡ ok (some slot)
    pub brokered : (trim_space slot.cred_source == codes "seedling/v1") ≡ true
    pub whoami : bundle.whoami ≡ slot.slot_name
    pub nomad_token : bundle.nomad.token ≡ slot.nomad_token_secret
    pub access_key : bundle.minio.access_key ≡ slot.minio_access_key
    pub secret_key : bundle.minio.secret_key ≡ slot.minio_secret_key
    pub nomad_addr : bundle.nomad.addr ≡ srv.cluster.nomad_endpoint
    pub minio_endpoint : bundle.minio.endpoint ≡ srv.cluster.minio_endpoint
    pub namespace :
        bundle.nomad.namespace
        ≡ namespace_of (env.name_of_group (Call.find_slot (opaque_filter opaque) ∷ w.history) slot)

  handle_auth_exchange-Finds :
      (w : World)
      → Finds w.history (λ bundle _. IsOwnBundle w bundle) (handle_auth_exchange env srv digests r)
  unfolding handle_auth_exchange by_opaque build_creds_bundle
  handle_auth_exchange-Finds w = Finds-require _ _ _ _ λ _. Finds-present _ _ _ _ λ opaque sent.
      Finds-require _ _ _ _ λ nonempty. Finds-ask _ _ _ (
        Finds-or_fail _ _ _ _ λ slot_or_nil found. Finds-present _ _ _ _ λ slot is_slot.
          Finds-require _ _ _ _ λ brokered. Finds-ask _ _ _ (
            Finds-pure _ (record {
              opaque = opaque;
              slot = slot;
              sent = sent;
              nonempty = nonempty;
              found = found ∙ ap ok is_slot;
              brokered = brokered;
              whoami = refl;
              nomad_token = refl;
              access_key = refl;
              secret_key = refl;
              nomad_addr = refl;
              minio_endpoint = refl;
              namespace = refl;
            })))

  -- A bundle that is given out holds the name and the secrets of the slot which the store finds
  -- claimed, at the time of the request, under the SHA-256 digest of the request's bearer token,
  -- with the addresses of the cluster and the namespace of the slot's group; and that slot is on
  -- `seedling/v1`.
  pub handle_auth_exchange-IsOwnBundle :
      (w : World) (bundle : CredsBundle)
      → (handle_auth_exchange env srv digests r w).0 ≡ done bundle
      → IsOwnBundle w bundle
  handle_auth_exchange-IsOwnBundle w bundle e = (handle_auth_exchange-Finds w).at w refl bundle e

-- Looks at the store and changes nothing, and asks for slots by nothing but a digest and a state.
pub IsLookup : Digests → Call → Type 0
IsLookup digests (Call.find_slot filter) = (opaque : Bytes) × (filter ≡ by_opaque digests opaque)
IsLookup digests (Call.group_name id) = Unit
IsLookup digests _ = ⊥

IsLookup-by_opaque :
    (digests : Digests) (opaque : Bytes)
    → IsLookup digests (Call.find_slot (by_opaque digests opaque))
unfolding IsLookup
IsLookup-by_opaque digests opaque = (opaque, refl)

handle_auth_exchange_calls :
    (env : Env) (srv : Server) (digests : Digests) (r : Request)
    → OnlyCalls (IsLookup digests) (handle_auth_exchange env srv digests r)
unfolding handle_auth_exchange IsLookup
handle_auth_exchange_calls env srv digests r = search (calls_rules, IsLookup-by_opaque) depth 30

-- The broker only reads, and the bearer token reaches the store only as its SHA-256 digest: so no
-- token can change the filter.
pub handle_auth_exchange-IsLookup :
    (env : Env) (srv : Server) (digests : Digests) (r : Request) (w : World)
    → All (IsLookup digests) w.history
    → All (IsLookup digests) (handle_auth_exchange env srv digests r w).1.history
handle_auth_exchange-IsLookup env srv digests r w =
    all_calls (handle_auth_exchange_calls env srv digests r) w
