-- ===== src/Claim/Calls.antt =====
-- The claim: the calls that are made, by the state that they give a slot.
use abc_auth_svc.Base.{Bytes}
use abc_auth_svc.Crypto.{Base64, Digests}
use abc_auth_svc.Upstreams.{Env, Server, Slot, Call}
use abc_auth_svc.Http.{Body, empty, malformed, decoded}
use abc_auth_svc.Http.Calls.{OnlyCalls, calls_rules}
use abc_auth_svc.Claim.Race.{KeepsClaims}
use abc_auth_svc.Render.{mint_opaque}
use abc_auth_svc.Slots.Calls.{persist_slot_config-KeepsClaims}
use abc_auth_svc.Claim.Race.Once.{claim_patch-claims, claimed-KeepsClaims}
use abc_auth_svc.Claim.{
  ClaimRequest, claim_patch, claim_slot, handle_slots_claim, effective_cred_source, opaque_for,
  claim_request_of, require_cred_source, lookup_group_cred_source_default,
}

claim_request_of-KeepsClaims :
    (sent : Body ClaimRequest) → OnlyCalls KeepsClaims (claim_request_of sent)
unfolding claim_request_of
claim_request_of-KeepsClaims empty = search calls_rules
claim_request_of-KeepsClaims malformed = search calls_rules
claim_request_of-KeepsClaims (decoded req) = search calls_rules

require_cred_source-KeepsClaims : (cs : Bytes) → OnlyCalls KeepsClaims (require_cred_source cs)
unfolding require_cred_source
require_cred_source-KeepsClaims cs = search calls_rules

module _ (env : Env) (srv : Server) (digests : Digests) (b64 : Base64) where
  effective_cred_source-KeepsClaims :
      (requested : Bytes) (slot : Slot)
      → OnlyCalls KeepsClaims (effective_cred_source env srv digests b64 requested slot)
  unfolding effective_cred_source lookup_group_cred_source_default
  effective_cred_source-KeepsClaims requested slot = search calls_rules depth 20

  opaque_for-KeepsClaims : (cs : Bytes) → OnlyCalls KeepsClaims (opaque_for env srv digests b64 cs)
  unfolding opaque_for mint_opaque
  opaque_for-KeepsClaims cs = search calls_rules depth 20

  patch-KeepsClaims :
      (id : Bytes) (req : ClaimRequest) (at cs opaque : Bytes)
      → KeepsClaims (Call.patch_slot id (claim_patch env srv digests b64 req at cs opaque))
  patch-KeepsClaims id req at cs opaque =
      claimed-KeepsClaims env srv digests b64 id (claim_patch env srv digests b64 req at cs opaque)
        (claim_patch-claims env srv digests b64 req at cs opaque)

  claim_slot-KeepsClaims :
      (req : ClaimRequest) (requested : Bytes) (slot : Slot)
      → OnlyCalls KeepsClaims (claim_slot env srv digests b64 req requested slot)
  unfolding claim_slot
  claim_slot-KeepsClaims req requested slot =
      search
        (
          calls_rules, effective_cred_source-KeepsClaims, opaque_for-KeepsClaims, patch-KeepsClaims,
          persist_slot_config-KeepsClaims,
        )
        depth 40

  pub handle_slots_claim-KeepsClaims :
      (sent : Body ClaimRequest)
      → OnlyCalls KeepsClaims (handle_slots_claim env srv digests b64 sent)
  unfolding handle_slots_claim
  handle_slots_claim-KeepsClaims sent =
      search
        (
          calls_rules, claim_request_of-KeepsClaims, require_cred_source-KeepsClaims,
          claim_slot-KeepsClaims,
        )
        depth 40
