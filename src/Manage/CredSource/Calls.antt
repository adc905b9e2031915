-- ===== src/Manage/CredSource/Calls.antt =====
-- Changing the credential source: the calls that are made, by the state that they give a slot.
use abc_auth_svc.Base.{[], ◌∷◌, arith, Bytes, codes, ◌==◌}
use abc_auth_svc.Crypto.{Base64, Digests}
use abc_auth_svc.Upstreams.{Env, Server, Slot, Call}
use abc_auth_svc.Http.{Request, Body, empty, malformed, decoded, require_operator}
use abc_auth_svc.Http.Calls.{OnlyCalls, calls_rules}
use abc_auth_svc.Claim.Race.{KeepsClaims}
use abc_auth_svc.Render.{mint_opaque}
use abc_auth_svc.Slots.Calls.{persist_slot_config-KeepsClaims}
use abc_auth_svc.Manage.CredSource.{
  cred_source_of, flip_to_seedling, flip_to_local, flip_slot, handle_cred_source,
}
use abc_auth_svc.Base.{find}

flipped-KeepsClaims :
    (id cs hash : Bytes)
    → KeepsClaims
        (Call.patch_slot id ((codes "cred_source", cs) ∷ (codes "opaque_token_hash", hash) ∷ []))
unfolding find codes ◌==◌
flipped-KeepsClaims id cs hash = λ k. ground arith

cred_source_of-KeepsClaims : (body : Body Bytes) → OnlyCalls KeepsClaims (cred_source_of body)
unfolding cred_source_of
cred_source_of-KeepsClaims empty = search calls_rules
cred_source_of-KeepsClaims malformed = search calls_rules
cred_source_of-KeepsClaims (decoded cs) = search calls_rules

module _ (env : Env) (srv : Server) (digests : Digests) (b64 : Base64) where
  mint_opaque-KeepsClaims : OnlyCalls KeepsClaims (mint_opaque env b64)
  unfolding mint_opaque
  mint_opaque-KeepsClaims = search calls_rules

  flip_to_seedling-KeepsClaims :
      (slot : Slot) → OnlyCalls KeepsClaims (flip_to_seedling env srv digests b64 slot)
  unfolding flip_to_seedling
  flip_to_seedling-KeepsClaims slot =
      search
        (calls_rules, flipped-KeepsClaims, mint_opaque-KeepsClaims, persist_slot_config-KeepsClaims)
        depth 40

  flip_to_local-KeepsClaims :
      (slot : Slot) → OnlyCalls KeepsClaims (flip_to_local env srv digests b64 slot)
  unfolding flip_to_local
  flip_to_local-KeepsClaims slot =
      search (calls_rules, flipped-KeepsClaims, persist_slot_config-KeepsClaims) depth 40

  flip_slot-KeepsClaims :
      (name want : Bytes) (slot : Slot)
      → OnlyCalls KeepsClaims (flip_slot env srv digests b64 name want slot)
  unfolding flip_slot
  flip_slot-KeepsClaims name want slot =
      search (calls_rules, flip_to_seedling-KeepsClaims, flip_to_local-KeepsClaims) depth 20

  pub handle_cred_source-KeepsClaims :
      (r : Request) (body : Body Bytes)
      → OnlyCalls KeepsClaims (handle_cred_source env srv digests b64 r body)
  unfolding handle_cred_source require_operator
  handle_cred_source-KeepsClaims r body =
      search (calls_rules, cred_source_of-KeepsClaims, flip_slot-KeepsClaims) depth 40
