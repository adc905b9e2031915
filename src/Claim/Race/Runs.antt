-- ===== src/Claim/Race/Runs.antt =====
-- handleSlotsClaim as one of the overlapping claims: the steps of a run of it.
use abc_auth_svc.Base.{
  ◌≡◌, refl, ap, ◌∙◌, ◌≢◌, true, some, List, [], ◌∷◌, arith, All, Bytes, codes, ◌==◌, Lacks,
}
use abc_auth_svc.Crypto.{Base64, Digests}
use abc_auth_svc.Upstreams.{History, World, Call, Env, Server, Slot, ok}
use abc_auth_svc.Text.{trim_space}
use abc_auth_svc.Http.{Handler, done, decoded}
use abc_auth_svc.Http.Triple.{
  Triple, Keeps, Triple-pure, Triple-or_fail, Triple-present, Triple-ask, Triple-require,
  Triple-bind, Triple-value, Triple-given, Triple-done, keeps_rules, Keeps-look, Keeps-or_fail,
}
use abc_auth_svc.Claim.Laws.{IsClaimed, handle_slots_claim-IsClaimed}
use abc_auth_svc.Render.{normalized}
use abc_auth_svc.Http.{◌>>=◌, or_fail, present}
use abc_auth_svc.Base.{◌⊎◌, inl, inr, sym, subst, Option}
use abc_auth_svc.Upstreams.{Outcome}
use abc_auth_svc.Slots.{ConfigFile, persist_slot_config}
use abc_auth_svc.Slots.Keeps.{config_fields, persist_slot_config-Keeps}
use abc_auth_svc.Claim.{
  ClaimRequest, by_claim_code, claim_patch, claim_slot, handle_slots_claim, effective_cred_source,
  opaque_for, claim_request_of, require_cred_source, lookup_group_cred_source_default,
}
use abc_auth_svc.Render.{mint_opaque}
use abc_auth_svc.Claim.Race.{
  Visit, searching, holding, winning, KeepsClaims, quote, ReadsWrites, Reached,
}
use abc_auth_svc.Claim.Race.Once.{Reached-AreDistinct, claim_patch-claims, claimed-KeepsClaims}
use abc_auth_svc.Base.{find}

module _ (env : Env) (srv : Server) (digests : Digests) (b64 : Base64) where
  -- The claims under way, and the slots claimed.
  abbrev At : List Visit → List Bytes → History → Type 0
  At p won h = Reached env srv digests b64 true p won h

  -- The claim has returned, after the claims before it, and has taken at most one slot itself.
  pub Returned : List Bytes → History → Type 0
  Returned won h = At [] won h ⊎ ((id : Bytes) × At [] (id ∷ won) h)

  freed : (v : Visit) (won : List Bytes) (h : History) → At (v ∷ []) won h → Returned won h
  unfolding Returned
  freed v won h r = inl (Reached.returns v [] [] won h r)

  taken :
      (v : Visit) (id : Bytes) (won : List Bytes) (h : History)
      → At (v ∷ []) (id ∷ won) h
      → Returned won h
  unfolding Returned
  taken v id won h r = inr (id, Reached.returns v [] [] (id ∷ won) h r)

  quiet :
      (c : Call) (p : List Visit) (won : List Bytes)
      → KeepsClaims c
      → (h : History) → At p won h
      → At p won (c ∷ h)
  quiet c p won k h r = Reached.calls c p won h k r

  -- A part of the handler that stores no claim, while `v` is under way.
  abbrev Quiet : {A : Type 0} → List Bytes → Visit → List Bytes → Handler A → Type 0
  Quiet earlier v won m = Keeps (Returned earlier) (At (v ∷ []) won) m

  config-KeepsClaims :
      (id yaml at : Bytes) → KeepsClaims (Call.patch_slot id (config_fields yaml at))
  unfolding find codes ◌==◌
  config-KeepsClaims id yaml at = λ k. ground arith

  persist_slot_config-Quiet :
      (earlier : List Bytes) (v : Visit) (won : List Bytes) (id opaque : Bytes)
      → Quiet earlier v won (persist_slot_config env srv.cluster id opaque)
  persist_slot_config-Quiet earlier v won id opaque =
      persist_slot_config-Keeps env srv.cluster (λ i h. quiet (Call.get_slot i) (v ∷ []) won tt h)
        (λ s h. quiet (Call.group_name s) (v ∷ []) won tt h)
        (λ i yaml at h.
          quiet (Call.patch_slot i (config_fields yaml at)) (v ∷ []) won
            (config-KeepsClaims i yaml at) h)
        id opaque

  effective_cred_source-Quiet :
      (v : Visit) (won : List Bytes) (requested : Bytes) (slot : Slot)
      → Quiet won v won (effective_cred_source env srv digests b64 requested slot)
  unfolding effective_cred_source lookup_group_cred_source_default
  effective_cred_source-Quiet v won requested slot = search (keeps_rules, quiet) depth 9

  opaque_for-Quiet :
      (v : Visit) (won : List Bytes) (cs : Bytes)
      → Quiet won v won (opaque_for env srv digests b64 cs)
  unfolding opaque_for mint_opaque
  opaque_for-Quiet v won cs = search (keeps_rules, quiet, freed) depth 9

  -- The slot that is found at first has been taken.
  IsTaken : Bytes → History → List Bytes → ConfigFile → History → Type 0
  IsTaken code first won file h =
      (slot : Slot) × (env.found_slot first (by_claim_code code) ≡ ok (some slot))
      × At [] (slot.id ∷ won) h

  patch-Returned :
      (req : ClaimRequest) (at cs opaque : Bytes) (slot : Slot) (won : List Bytes) (h : History)
      → At (holding slot ∷ []) won h
      → Returned won
          (Call.patch_slot slot.id (claim_patch env srv digests b64 req at cs opaque) ∷ h)
  patch-Returned req at cs opaque slot won h r =
      let fields = claim_patch env srv digests b64 req at cs opaque in
      let kept =
        claimed-KeepsClaims env srv digests b64 slot.id fields
          (claim_patch-claims env srv digests b64 req at cs opaque) in
      freed (holding slot) won (Call.patch_slot slot.id fields ∷ h)
        (quiet (Call.patch_slot slot.id fields) (holding slot ∷ []) won kept h r)

  claim_slot-Takes :
      (req : ClaimRequest) (requested code : Bytes) (first : History) (slot : Slot)
      (won : List Bytes)
      → env.found_slot first (by_claim_code code) ≡ ok (some slot)
      → Triple
          (Returned won)
          (At (holding slot ∷ []) won)
          (IsTaken code first won)
          (claim_slot env srv digests b64 req requested slot)
  unfolding claim_slot IsTaken
  claim_slot-Takes req requested code first slot won found =
      let under = taken winning slot.id won in
      Triple-bind _ _ _ (effective_cred_source-Quiet (holding slot) won requested slot) λ cs.
        Triple-bind _ _ _ (Keeps-look _) λ at.
          Triple-bind _ _ _ (opaque_for-Quiet (holding slot) won cs) λ opaque.
            Triple-bind
              (λ patched h.
                (patched ≡ ok tt → At (winning ∷ []) (slot.id ∷ won) h) × Returned won h)
              _ _
              (Triple-ask _ _ λ h r. (
                λ e. Reached.stores req at cs opaque slot [] [] won h e r,
                patch-Returned req at cs opaque slot won h r,
              ))
              λ patched.
                Triple-bind (λ _. At (winning ∷ []) (slot.id ∷ won)) _ _
                  (Triple-or_fail _ _ _ (λ h i. i.1) (λ a h e i. i.0 e))
                  λ _.
                    Triple-bind _ _ _
                      (persist_slot_config-Quiet won winning (slot.id ∷ won) slot.id opaque)
                      λ rendered. Triple-bind _ _ _ (Keeps-or_fail _ _ _ under) λ blob.
                        Triple-pure _
                          λ h r. (slot, found, Reached.returns winning [] [] (slot.id ∷ won) h r)

  -- The slot that a lookup has found may be taken next; a lookup that fails gives the lock back.
  IsTakeable : Bytes → History → (Slot → Type 0) → List Bytes → History → Type 0
  IsTakeable code first IsFound won h =
      ((slot : Slot)
        → IsFound slot
        → (env.found_slot first (by_claim_code code) ≡ ok (some slot))
          × At (holding slot ∷ []) won h)
      × Returned won h

  found-IsTakeable :
      (code : Bytes) (won : List Bytes) (first h : History)
      → Lacks quote code
      → At (searching code ∷ []) won h
      → h ≡ first
      → IsTakeable code first
          (λ slot. env.found_slot h (by_claim_code code) ≡ ok (some slot))
          won
          (Call.find_slot (by_claim_code code) ∷ h)
  unfolding IsTakeable
  found-IsTakeable code won first h plain r same =
      let lookup = Call.find_slot (by_claim_code code) in
      (
        λ slot e. (
          ap (λ g. env.found_slot g (by_claim_code code)) (sym same) ∙ e,
          Reached.finds code slot [] [] won h plain e r,
        ),
        freed (searching code) won (lookup ∷ h) (quiet lookup (searching code ∷ []) won tt h r),
      )

  -- A request with a plain code, at first, when no claim is under way.
  IsPlain : Bytes → List Bytes → History → History → Type 0
  IsPlain code won first h = Lacks quote code × At [] won h × (h ≡ first)

  plain-Returned :
      (code : Bytes) (won : List Bytes) (first h : History)
      → IsPlain code won first h
      → Returned won h
  unfolding IsPlain Returned
  plain-Returned code won first h (plain, r, same) = inl r

  require_cred_source-Keeps :
      (code : Bytes) (won : List Bytes) (first : History) (cs : Bytes)
      → Keeps (Returned won) (IsPlain code won first) (require_cred_source cs)
  unfolding require_cred_source
  require_cred_source-Keeps code won first cs = search (keeps_rules, plain-Returned)

  -- From the answer of the lookup on.
  claim_rest :
      (req : ClaimRequest) (won : List Bytes) (first : History) (found : Outcome (Option Slot))
      → Triple
          (Returned won)
          (IsTakeable (trim_space req.claim_code) first (λ slot. found ≡ ok (some slot)) won)
          (IsTaken (trim_space req.claim_code) first won)
          (do
            one ← or_fail found 500 (codes "internal_error")
            slot ← present one 404 (codes "code_invalid_or_used")
            claim_slot env srv digests b64 req (normalized req.cred_source) slot)
  unfolding IsTakeable
  claim_rest req won first found =
      let code = trim_space req.claim_code in
      Triple-bind (λ one. IsTakeable code first (λ slot. one ≡ some slot) won) _ _
        (Triple-or_fail _ _ _ (λ h i. i.1)
          λ one h e i. (λ slot same. i.0 slot (e ∙ ap ok same), i.1))
        λ one.
          Triple-bind
            (λ slot h.
              (env.found_slot first (by_claim_code code) ≡ ok (some slot))
              × At (holding slot ∷ []) won h)
            _ _ (Triple-present _ _ _ (λ h i. i.1) λ slot h e i. i.0 slot e)
            λ slot. Triple-given λ known. claim_slot-Takes req _ code first slot won known

  handle_slots_claim-Takes :
      (req : ClaimRequest) (won : List Bytes) (first : History)
      → Triple
          (Returned won)
          (IsPlain (trim_space req.claim_code) won first)
          (IsTaken (trim_space req.claim_code) first won)
          (handle_slots_claim env srv digests b64 (decoded req))
  unfolding handle_slots_claim claim_request_of IsTakeable IsPlain
  handle_slots_claim-Takes req won first =
      let code = trim_space req.claim_code in
      let returned = plain-Returned code won first in
      Triple-value req _ (
        Triple-bind (λ _. IsPlain code won first) _ _ (Triple-require _ _ _ returned λ h e i. i)
          λ _. Triple-bind _ _ _ (require_cred_source-Keeps code won first _) λ _.
            Triple-bind (λ _ h. Lacks quote code × At (searching code ∷ []) won h × (h ≡ first)) _ _
              (Triple-require _ _ _ returned λ h e (plain, r, same).
                (plain, Reached.enters code [] won h (λ _. refl) plain r, same))
              λ _.
                Triple-bind (λ found. IsTakeable code first (λ slot. found ≡ ok (some slot)) won) _
                  _
                  (Triple-ask _ _
                    λ h (plain, r, same). found-IsTakeable code won first h plain r same)
                  λ found. claim_rest req won first found)

  -- A claimed config is that of a slot which none of the earlier claims has taken.
  pub IsNew : ClaimRequest → History → List Bytes → ConfigFile → History → Type 0
  IsNew req first won file h =
      (c : IsClaimed env srv digests b64 (decoded req) first file) × All (λ id. id ≢ c.slot.id) won
      × At [] (c.slot.id ∷ won) h

  same_slot : (o : Outcome (Option Slot)) (s t : Slot) → o ≡ ok (some s) → o ≡ ok (some t) → s ≡ t
  same_slot o s t p q = let e : ok (some s) ≡ ok (some t) = sym p ∙ q in ground arith

  same_request : (a b : ClaimRequest) → decoded a ≡ decoded b → b ≡ a
  same_request a b e = ground arith

  taken-IsNew :
      (req : ClaimRequest) (file : ConfigFile) (first h : History) (won : List Bytes)
      → ReadsWrites env
      → IsClaimed env srv digests b64 (decoded req) first file
      → IsTaken (trim_space req.claim_code) first won file h
      → IsNew req first won file h
  unfolding IsTaken IsNew
  taken-IsNew req file first h won reads c (slot, found, r) =
      let sent : c.req ≡ req = same_request req c.req c.is_sent in
      let there =
        subst
          (λ (x : ClaimRequest).
            env.found_slot first (by_claim_code (trim_space x.claim_code)) ≡ ok (some c.slot))
          sent c.found in
      let own =
        subst (λ (x : Slot). At [] (x.id ∷ won) h) (same_slot _ slot c.slot found there) r in
      (c, (Reached-AreDistinct env srv digests b64 [] (c.slot.id ∷ won) h reads own).0, own)

  -- A run of handleSlotsClaim, after any claims that have returned, and other calls, that succeeds:
  -- it answers with the name and the config of a slot which is found unclaimed under the code that
  -- was sent, which it has claimed itself, and which none of the claims before took; and the next
  -- claim can follow, with this slot among those taken. This holds if PocketBase does not find a
  -- slot as unclaimed after a PATCH has claimed it, and the code holds no quote.
  pub handle_slots_claim-IsNew :
      (req : ClaimRequest) (won : List Bytes) (w : World) (file : ConfigFile)
      → ReadsWrites env
      → Lacks quote (trim_space req.claim_code)
      → At [] won w.history
      → (handle_slots_claim env srv digests b64 (decoded req) w).0 ≡ done file
      → IsNew req w.history won file
          (handle_slots_claim env srv digests b64 (decoded req) w).1.history
  unfolding IsPlain
  handle_slots_claim-IsNew req won w file reads plain r e =
      let h = (handle_slots_claim env srv digests b64 (decoded req) w).1.history in
      taken-IsNew req file w.history h won reads
        (handle_slots_claim-IsClaimed env srv digests b64 (decoded req) w file e)
        (Triple-done (handle_slots_claim-Takes req won w.history) w file (plain, r, refl) e)
