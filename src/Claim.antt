-- ===== src/Claim.antt =====
-- internal/authsvc/claim.go: claiming a slot by its code.
pub mod Laws
pub mod Race
pub mod Calls
use abc_auth_svc.Base.{
  ℕ, zero, suc, ◌+◌, ◌-◌, ◌*◌, ◌/◌, ◌%◌, ◌^◌, ◌≤◌, ◌<◌, ◌≡◌, refl, sym, ap, ◌∙◌, subst, ◌≡⟨◌⟩◌, ◌∎,
  ◌≢◌, ◌↔◌, ◌⊎◌, inl, inr, Bool, true, false, not, ◌&&◌, ◌||◌, Option, none, some, List, [], ◌∷◌,
  ◌++◌, append-nil, append_assoc, arith, ltb, leb, nat_eq, if◌then◌else◌, nat_eq_iff, nat_eq_refl,
  Bool-cases, Option-cases, length, take, drop, all, length-append, take-append_left,
  drop-append_left, drop_past, All, All-append, All-append_left, All-append_right, Bytes, codes,
  ◌==◌, eq_of_==, ==_refl, ==_iff, is_empty, Lacks, String,
}
use abc_auth_svc.Text.{trim_space}
use abc_auth_svc.Crypto.{Base64, Digests, sha256_hex}
use abc_auth_svc.Render.{normalized, local, seedling, mint_opaque}
use abc_auth_svc.Slots.{ConfigFile, persist_slot_config}
use abc_auth_svc.Upstreams.{Env, Server, Outcome, ok, err, Slot, Fields}
use abc_auth_svc.Http.{
  Handler, ◌>>=◌, ◌>>◌, pure, Request, Body, empty, malformed, decoded, Json, str, strs, err_json,
  err_object, require, or_fail, present, is_manager,
}
use abc_auth_svc.Http.Actions.{find_slot, group_default, patch_slot, timestamp}

pub record ClaimRequest : Type 0 where
  pub claim_code : Bytes
  pub name : Bytes
  pub email : Bytes
  pub cred_source : Bytes

claim_request_of : Body ClaimRequest → Handler ClaimRequest
claim_request_of empty = pure (record { claim_code = []; name = []; email = []; cred_source = [] })
claim_request_of malformed = err_json 400 (codes "invalid_json")
claim_request_of (decoded req) = pure req

abbrev pub by_claim_code : Bytes → Bytes
by_claim_code code = codes "claim_code='" ++ code ++ codes "' && state='unclaimed'"

require_cred_source : Bytes → Handler (Unit {0})
require_cred_source cs =
    if is_empty cs || cs == local || cs == seedling
    then pure tt
    else err_object 400 (
        (codes "error", str (codes "invalid_cred_source"))
        ∷ (codes "requested", str cs)
        ∷ (codes "allowed", strs (local ∷ seedling ∷ []))
        ∷ [])

module _ (env : Env) (srv : Server) (digests : Digests) (b64 : Base64) where
  -- lookupGroupCredSourceDefault
  lookup_group_cred_source_default : Bytes → Handler Bytes
  lookup_group_cred_source_default group =
      if is_empty group || not srv.is_pb_client
      then pure []
      else (do found ← group_default env group; pure (normalized found))

  -- The request, then the group's default, then `local`.
  effective_cred_source : Bytes → Slot → Handler Bytes
  unfolding lookup_group_cred_source_default
  effective_cred_source requested slot = do
    cs ← if is_empty requested then lookup_group_cred_source_default slot.group else pure requested
    pure (if is_empty cs then local else cs)

  -- The opaque token for `seedling/v1`, and no token otherwise.
  opaque_for : Bytes → Handler Bytes
  opaque_for cs =
      if cs == seedling
      then (do minted ← mint_opaque env b64; or_fail minted 500 (codes "opaque_mint_failed"))
      else pure []

  pub claim_patch : ClaimRequest → Bytes → Bytes → Bytes → Fields
  claim_patch req at cs opaque =
      (codes "state", codes "claimed")
      ∷ (codes "claimed_by_name", trim_space req.name)
      ∷ (codes "claimed_by_email", trim_space req.email)
      ∷ (codes "claimed_at", at)
      ∷ (if cs == seedling
          then (codes "cred_source", seedling)
            ∷ (codes "opaque_token_hash", sha256_hex digests opaque)
            ∷ []
          else [])

  claim_slot : ClaimRequest → Bytes → Slot → Handler ConfigFile
  unfolding effective_cred_source opaque_for claim_patch
  claim_slot req requested slot = do
    cs ← effective_cred_source requested slot
    at ← timestamp env
    opaque ← opaque_for cs
    patched ← patch_slot env slot.id (claim_patch req at cs opaque)
    or_fail patched 500 (codes "internal_error")
    rendered ← persist_slot_config env srv.cluster slot.id opaque
    blob ← or_fail rendered 500 (codes "config_render_failed")
    pure (record { blob = blob; filename = codes "abc-config-" ++ slot.slot_name ++ codes ".yaml" })

  -- handleSlotsClaim. The part from the lookup on runs under `claimLock`.
  unfoldable pub handle_slots_claim : Body ClaimRequest → Handler ConfigFile
  unfolding claim_request_of require_cred_source claim_slot
  handle_slots_claim sent = do
    req ← claim_request_of sent
    let code = trim_space req.claim_code
    require (not (is_empty code)) 400 (codes "claim_code_required")
    let requested = normalized req.cred_source
    require_cred_source requested
    require (is_manager srv.store) 500 (codes "store_not_writable")
    found ← find_slot env (by_claim_code code)
    slot_or_nil ← or_fail found 500 (codes "internal_error")
    slot ← present slot_or_nil 404 (codes "code_invalid_or_used")
    claim_slot req requested slot
