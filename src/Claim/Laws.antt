-- ===== src/Claim/Laws.antt =====
-- What a claim stores, and when it calls nothing.
use abc_auth_svc.Base.{
  ◌⊎◌, ◌≡◌, refl, sym, ap, ◌∙◌, some, [], ◌++◌, arith, Bytes, codes, ◌==◌, eq_of_==, is_empty, inl,
  inr,
}
use abc_auth_svc.Text.{trim_space}
use abc_auth_svc.Crypto.{Base64, Digests}
use abc_auth_svc.Render.{local, seedling}
use abc_auth_svc.Slots.{ConfigFile}
use abc_auth_svc.Upstreams.{History, Env, Server, ok, Slot, World}
use abc_auth_svc.Http.{Body, done}
use abc_auth_svc.Http.Yields.{
  Yields, Yields-pure, Yields-or_fail, Yields-ask, Yields-any, Yields-bind, Yields-weaken,
  Yields-if, not-true,
}
use abc_auth_svc.Crypto.{sha256_hex}
use abc_auth_svc.Render.{normalized}
use abc_auth_svc.Upstreams.{Fields}
use abc_auth_svc.Slots.Persisted.{IsPersisted, persist_slot_config-IsPersisted}
use abc_auth_svc.Http.Actions.{find_slot}
use abc_auth_svc.Http.{
  ◌>>=◌, ◌>>◌, require, or_fail, present, is_manager, empty, malformed, decoded,
}
use abc_auth_svc.Http.Finds.{
  Finds, Finds-if, Finds-pure, Finds-ask, Finds-require, Finds-or_fail, Finds-present, Finds-value,
  Finds-then, Finds-Yields, Finds-err_json, Finds-err_object,
}
use abc_auth_svc.Base.{find, false, ◌||◌}
use abc_auth_svc.Claim.{
  require_cred_source, claim_request_of, ClaimRequest, by_claim_code, opaque_for, claim_patch,
  claim_slot, handle_slots_claim,
}

module _ (env : Env) (srv : Server) (digests : Digests) (b64 : Base64) where
  -- The PATCH that claims the slot, by the fields that it sets.
  pub record Claims (req : ClaimRequest) (opaque : Bytes) (fields : Fields) : Type 0 where
    pub state : find (codes "state") fields ≡ some (codes "claimed")
    pub name : find (codes "claimed_by_name") fields ≡ some (trim_space req.name)
    pub email : find (codes "claimed_by_email") fields ≡ some (trim_space req.email)
    pub hashed :
        (opaque ≡ []) ⊎ (find (codes "opaque_token_hash") fields ≡ some (sha256_hex digests opaque))

  -- What is answered to the request that was sent: the config of the slot that is found unclaimed
  -- under its code, which a PATCH then claims, and whose config is then rendered and stored.
  pub record IsClaimed (sent : Body ClaimRequest) (h : History) (file : ConfigFile) : Type 0 where
    pub req : ClaimRequest
    pub slot : Slot
    pub opaque : Bytes
    pub fields : Fields
    pub written : History
    pub is_sent : sent ≡ decoded req
    pub coded : is_empty (trim_space req.claim_code) ≡ false
    pub found :
        env.found_slot h
          (codes "claim_code='" ++ trim_space req.claim_code ++ codes "' && state='unclaimed'")
        ≡ ok (some slot)
    pub patched : env.patched written slot.id fields ≡ ok tt
    pub claims : Claims req opaque fields
    pub named : file.filename ≡ codes "abc-config-" ++ slot.slot_name ++ codes ".yaml"
    pub persisted : IsPersisted env srv.cluster slot.id opaque file.blob

  opaque_for-seedling :
      (cs : Bytes)
      → Yields (λ opaque. (cs ≡ seedling) ⊎ (opaque ≡ [])) (opaque_for env srv digests b64 cs)
  unfolding opaque_for
  opaque_for-seedling cs =
      Yields-if (cs == seedling) _ _
        (λ e. Yields-weaken _ (Yields-any _) λ _ _. inl (eq_of_== cs seedling e))
        λ _. Yields-pure [] (inr refl)

  claim_patch-Claims :
      (req : ClaimRequest) (at cs opaque : Bytes)
      → (cs ≡ seedling) ⊎ (opaque ≡ [])
      → Claims req opaque (claim_patch env srv digests b64 req at cs opaque)
  unfolding claim_patch find codes ◌==◌
  claim_patch-Claims req at cs opaque drawn = record {
    state = refl;
    name = refl;
    email = refl;
    hashed = elim drawn [ inl p ↦ inr (rw p refl) | inr q ↦ inl q ];
  }

  claim_slot-IsClaimed :
      (req : ClaimRequest) (requested : Bytes) (slot : Slot) (h : History)
      → is_empty (trim_space req.claim_code) ≡ false
      → env.found_slot h (by_claim_code (trim_space req.claim_code)) ≡ ok (some slot)
      → Yields (IsClaimed (decoded req) h) (claim_slot env srv digests b64 req requested slot)
  unfolding claim_slot
  claim_slot-IsClaimed req requested slot h coded found = Yields-bind _ _ (Yields-any _) λ cs _.
      Yields-bind _ _ (Yields-any _) λ at _. Yields-bind _ _ (opaque_for-seedling cs) λ opaque o.
        Yields-bind _ _ (Yields-ask _ _) λ patched (g, e1).
          Yields-bind _ _ (Yields-or_fail _ _ _) λ _ e2.
            Yields-bind _ _ (persist_slot_config-IsPersisted env srv.cluster slot.id opaque)
              λ rendered persisted. Yields-bind _ _ (Yields-or_fail _ _ _) λ blob e3.
                Yields-pure _ (record {
                  req = req;
                  slot = slot;
                  opaque = opaque;
                  fields = claim_patch env srv digests b64 req at cs opaque;
                  written = g;
                  is_sent = refl;
                  coded = coded;
                  found = found;
                  patched = sym e1 ∙ e2;
                  claims = claim_patch-Claims req at cs opaque o;
                  named = refl;
                  persisted = persisted blob e3;
                })

  require_cred_source-quiet :
      (cs : Bytes) (h : History) → Finds h (λ _ g. g ≡ h) (require_cred_source cs)
  unfolding require_cred_source
  require_cred_source-quiet cs h =
      Finds-if (is_empty cs || cs == local || cs == seedling) _ _ (λ _. Finds-pure tt refl)
        λ _. Finds-err_object _ _

  after_code :
      (req : ClaimRequest) (h : History)
      → is_empty (trim_space req.claim_code) ≡ false
      → (g : History) → g ≡ h
      → Finds g
          (λ file _. IsClaimed (decoded req) h file)
          (do
            require (is_manager srv.store) 500 (codes "store_not_writable")
            found ← find_slot env (by_claim_code (trim_space req.claim_code))
            slot_or_nil ← or_fail found 500 (codes "internal_error")
            slot ← present slot_or_nil 404 (codes "code_invalid_or_used")
            claim_slot env srv digests b64 req (normalized req.cred_source) slot)
  after_code req h coded g same = Finds-require _ _ _ _ λ _. Finds-ask _ _ _ (
      Finds-or_fail _ _ _ _ λ slot_or_nil e1. Finds-present _ _ _ _ λ slot e2. Finds-Yields _ (
        claim_slot-IsClaimed req _ slot h coded (
          ap (λ x. env.found_slot x (by_claim_code (trim_space req.claim_code))) (sym same)
          ∙ e1
          ∙ ap ok e2)))

  handle_slots_claim-Finds :
      (sent : Body ClaimRequest) (h : History)
      → Finds h (λ file _. IsClaimed sent h file) (handle_slots_claim env srv digests b64 sent)
  unfolding handle_slots_claim claim_request_of trim_space
  handle_slots_claim-Finds empty h =
      Finds-value _ _ (Finds-require _ _ _ _ λ coded. absurd (ground arith))
  handle_slots_claim-Finds malformed h =
      Finds-then {R = λ _ _. ⊥} _ _ (Finds-err_json _ _) λ _ _ no. absurd no
  handle_slots_claim-Finds (decoded req) h = Finds-value _ _ (
      Finds-require _ _ _ _ λ coded.
        Finds-then _ _ (require_cred_source-quiet _ h) λ _ g same.
          after_code req h (not-true (is_empty (trim_space req.claim_code)) coded) g same)

  -- A claim that succeeds answers with a config of the slot that the store finds unclaimed, at the
  -- time of the request, under the code which was sent and is not blank; with the slot's name in
  -- the file name; and only after a PATCH of that slot has succeeded that puts it in the state
  -- `claimed`, for the name and the email which were sent, with the SHA-256 digest of the opaque
  -- token, if there is one. The config is the one rendered from the slot's fields with that token,
  -- and stored in the slot by a PATCH; or, on `seedling/v1` without a token, the stored one.
  pub handle_slots_claim-IsClaimed :
      (sent : Body ClaimRequest) (w : World) (file : ConfigFile)
      → (handle_slots_claim env srv digests b64 sent w).0 ≡ done file
      → IsClaimed sent w.history file
  handle_slots_claim-IsClaimed sent w file e =
      (handle_slots_claim-Finds sent w.history).at w refl file e
