-- ===== src/Exchange.antt =====
-- internal/authsvc/exchange.go: the broker that trades an opaque token for a slot's credentials.
pub mod Laws
pub mod Calls
use abc_auth_svc.Base.{
  ℕ, zero, suc, ◌+◌, ◌-◌, ◌*◌, ◌/◌, ◌%◌, ◌^◌, ◌≤◌, ◌<◌, ◌≡◌, refl, sym, ap, ◌∙◌, subst, ◌≡⟨◌⟩◌, ◌∎,
  ◌≢◌, ◌↔◌, ◌⊎◌, inl, inr, Bool, true, false, not, ◌&&◌, ◌||◌, Option, none, some, List, [], ◌∷◌,
  ◌++◌, append-nil, append_assoc, arith, ltb, leb, nat_eq, if◌then◌else◌, nat_eq_iff, nat_eq_refl,
  Bool-cases, Option-cases, length, take, drop, all, length-append, take-append_left,
  drop-append_left, drop_past, All, All-append, All-append_left, All-append_right, Bytes, codes,
  ◌==◌, eq_of_==, ==_refl, ==_iff, is_empty, Lacks, String,
}
use abc_auth_svc.Text.{trim_space}
use abc_auth_svc.Naming.{namespace_for_group}
use abc_auth_svc.Crypto.{Digests, sha256_hex}
use abc_auth_svc.Render.{seedling}
use abc_auth_svc.Upstreams.{Env, Server, ClusterInfo, Slot}
use abc_auth_svc.Http.{
  Handler, ◌>>=◌, ◌>>◌, pure, Request, require, or_fail, present, has_store, bearer,
}
use abc_auth_svc.Http.Actions.{find_slot, group_name}

pub record BundleNomad : Type 0 where
  pub addr : Bytes
  pub token : Bytes
  pub namespace : Bytes
  pub datacenters : List Bytes
  pub head_pool : Bytes
  pub worker_pool : Bytes

pub record BundleMinio : Type 0 where
  pub endpoint : Bytes
  pub access_key : Bytes
  pub secret_key : Bytes

pub record CredsBundle : Type 0 where
  pub whoami : Bytes
  pub source : Bytes
  pub nomad : BundleNomad
  pub minio : BundleMinio

unfoldable pub build_creds_bundle : ClusterInfo → Slot → Bytes → CredsBundle
build_creds_bundle c slot group = record {
  whoami = slot.slot_name;
  source = seedling;
  nomad = record {
    addr = c.nomad_endpoint;
    token = slot.nomad_token_secret;
    namespace = if is_empty group then [] else namespace_for_group group;
    datacenters = c.datacenter ∷ [];
    head_pool = c.head_pool;
    worker_pool = c.worker_pool;
  };
  minio = record {
    endpoint = c.minio_endpoint;
    access_key = slot.minio_access_key;
    secret_key = slot.minio_secret_key;
  };
}

-- The filter by which an opaque token finds its slot: the token itself is not in it.
unfoldable pub by_opaque : Digests → Bytes → Bytes
by_opaque digests opaque =
    codes "opaque_token_hash='" ++ sha256_hex digests opaque ++ codes "' && state='claimed'"

module _ (env : Env) (srv : Server) (digests : Digests) where
  -- handleAuthExchange
  unfoldable pub handle_auth_exchange : Request → Handler CredsBundle
  handle_auth_exchange r = do
    require (has_store srv.store) 500 (codes "internal_error")
    opaque ← present (bearer (r.header (codes "Authorization"))) 401 (codes "missing_bearer_token")
    require (not (is_empty opaque)) 401 (codes "empty_bearer_token")
    found ← find_slot env (by_opaque digests opaque)
    slot_or_nil ← or_fail found 500 (codes "internal_error")
    slot ← present slot_or_nil 401 (codes "invalid_or_inactive_token")
    require (trim_space slot.cred_source == seedling) 409 (codes "slot_not_on_seedling_v1")
    group ← group_name env slot
    pure (build_creds_bundle srv.cluster slot group)
