-- ===== src/Claim/Race/Once.antt =====
-- The invariant of the claims that overlap, under `claimLock`.
use abc_auth_svc.Base.{
  ◌≡◌, refl, ap, subst, ◌≢◌, true, some, List, [], ◌∷◌, ◌++◌, arith, All, All-append_right, Bytes,
  codes, ◌==◌, Lacks,
}
use abc_auth_svc.Crypto.{Base64, Digests}
use abc_auth_svc.Upstreams.{History, Call, Env, Server, ok, Slot, Fields}
use abc_auth_svc.Claim.{ClaimRequest, by_claim_code, claim_patch}
use abc_auth_svc.Claim.Race.{
  Visit, searching, holding, winning, KeepsClaims, quote, AreDistinct, IsStored, ReadsWrites,
  Reached,
}
use abc_auth_svc.Base.{find}

-- A slot that has been found is none of those already claimed.
abbrev pub IsFresh : List Bytes → Visit → Type 0
IsFresh won (holding slot) = All (λ id. id ≢ slot.id) won
IsFresh won _ = Unit

abbrev pub IsAlone : List Visit → Type 0
IsAlone [] = Unit
IsAlone (v ∷ p) = p ≡ []

module _ (env : Env) where
  pub record IsOnce (p : List Visit) (won : List Bytes) (h : History) : Type 0 where
    pub alone : IsAlone p
    pub fresh : All (IsFresh won) p
    pub stored : All (IsStored env h) won
    pub distinct : AreDistinct won

  IsAlone-append : (p q : List Visit) (v : Visit) → IsAlone (p ++ v ∷ q) → (p ≡ []) × (q ≡ [])
  IsAlone-append [] q v alone = (refl, alone)
  IsAlone-append (x ∷ []) q v alone = absurd (ground arith)
  IsAlone-append (x ∷ y ∷ p) q v alone = absurd (ground arith)

  IsStored-later :
      (c : Call) (h : History) (id : Bytes)
      → KeepsClaims c
      → IsStored env h id
      → IsStored env (c ∷ h) id
  IsStored-later c h id k s = record {
    later = c ∷ s.later;
    earlier = s.earlier;
    fields = s.fields;
    split = ap (λ g. c ∷ g) s.split;
    patched = s.patched;
    claimed = s.claimed;
    kept = (k, s.kept);
  }

  all_stored_later :
      (c : Call) (h : History) (ids : List Bytes)
      → KeepsClaims c
      → All (IsStored env h) ids
      → All (IsStored env (c ∷ h)) ids
  all_stored_later c h [] k s = tt
  all_stored_later c h (id ∷ ids) k (s, ss) =
      (IsStored-later c h id k s, all_stored_later c h ids k ss)

  all_fresh :
      (code : Bytes) (slot : Slot) (h : History) (ids : List Bytes)
      → ReadsWrites env
      → Lacks quote code
      → env.found_slot h (by_claim_code code) ≡ ok (some slot)
      → All (IsStored env h) ids
      → All (λ id. id ≢ slot.id) ids
  unfolding ReadsWrites
  all_fresh code slot h [] reads plain found s = tt
  all_fresh code slot h (id ∷ ids) reads plain found (s, ss) = (
    λ e. reads code slot h plain (subst (IsStored env h) e s) found,
    all_fresh code slot h ids reads plain found ss,
  )

module _ (env : Env) (srv : Server) (digests : Digests) (b64 : Base64) where
  pub claim_patch-claims :
      (req : ClaimRequest) (at cs opaque : Bytes)
      → find (codes "state") (claim_patch env srv digests b64 req at cs opaque)
        ≡ some (codes "claimed")
  unfolding find claim_patch codes ◌==◌
  claim_patch-claims req at cs opaque = refl

  pub claimed-KeepsClaims :
      (id : Bytes) (fields : Fields)
      → find (codes "state") fields ≡ some (codes "claimed")
      → KeepsClaims (Call.patch_slot id fields)
  unfolding codes
  claimed-KeepsClaims id fields e = λ k. ground arith

  IsStored-now :
      (id : Bytes) (fields : Fields) (h : History)
      → env.patched h id fields ≡ ok tt
      → find (codes "state") fields ≡ some (codes "claimed")
      → IsStored env (Call.patch_slot id fields ∷ h) id
  IsStored-now id fields h patched claimed = record {
    later = [];
    earlier = h;
    fields = fields;
    split = refl;
    patched = patched;
    claimed = claimed;
    kept = tt;
  }

  finds-IsOnce :
      (code : Bytes) (slot : Slot) (p q : List Visit) (won : List Bytes) (h : History)
      → ReadsWrites env
      → Lacks quote code
      → env.found_slot h (by_claim_code code) ≡ ok (some slot)
      → IsOnce env (p ++ searching code ∷ q) won h
      → IsOnce env (p ++ holding slot ∷ q) won (Call.find_slot (by_claim_code code) ∷ h)
  finds-IsOnce code slot p q won h reads plain found i =
      let (no_p, no_q) = IsAlone-append env p q (searching code) i.alone in
      record {
        alone = rw (no_p, no_q) refl;
        fresh = rw (no_p, no_q) (all_fresh env code slot h won reads plain found i.stored, tt);
        stored = all_stored_later env (Call.find_slot (by_claim_code code)) h won tt i.stored;
        distinct = i.distinct;
      }

  stores-IsOnce :
      (req : ClaimRequest) (at cs opaque : Bytes) (slot : Slot) (p q : List Visit)
      (won : List Bytes) (h : History)
      → env.patched h slot.id (claim_patch env srv digests b64 req at cs opaque) ≡ ok tt
      → IsOnce env (p ++ holding slot ∷ q) won h
      → IsOnce env
          (p ++ winning ∷ q)
          (slot.id ∷ won)
          (Call.patch_slot slot.id (claim_patch env srv digests b64 req at cs opaque) ∷ h)
  stores-IsOnce req at cs opaque slot p q won h patched i =
      let fields = claim_patch env srv digests b64 req at cs opaque in
      let claimed = claim_patch-claims req at cs opaque in
      let (no_p, no_q) = IsAlone-append env p q (holding slot) i.alone in
      let (fresh, _) = All-append_right (IsFresh won) p (holding slot ∷ q) i.fresh in
      record {
        alone = rw (no_p, no_q) refl;
        fresh = rw (no_p, no_q) (tt, tt);
        stored = (
          IsStored-now slot.id fields h patched claimed,
          all_stored_later env (Call.patch_slot slot.id fields) h won
              (claimed-KeepsClaims slot.id fields claimed) i.stored,
        );
        distinct = (fresh, i.distinct);
      }

  returns-IsOnce :
      (v : Visit) (p q : List Visit) (won : List Bytes) (h : History)
      → IsOnce env (p ++ v ∷ q) won h
      → IsOnce env (p ++ q) won h
  returns-IsOnce v p q won h i =
      let (no_p, no_q) = IsAlone-append env p q v i.alone in
      record {
        alone = rw (no_p, no_q) tt;
        fresh = rw (no_p, no_q) tt;
        stored = i.stored;
        distinct = i.distinct;
      }

  Reached-IsOnce :
      (p : List Visit) (won : List Bytes) (h : History)
      → ReadsWrites env
      → Reached env srv digests b64 true p won h
      → IsOnce env p won h
  Reached-IsOnce p won h reads (Reached.start _) = record {
    alone = tt;
    fresh = tt;
    stored = tt;
    distinct = tt;
  }
  Reached-IsOnce p won h reads (Reached.enters code q _ _ free plain r) =
      let i = Reached-IsOnce q won h reads r in
      record { alone = free refl; fresh = (tt, i.fresh); stored = i.stored; distinct = i.distinct }
  Reached-IsOnce p won h reads (Reached.finds code slot q q' _ g plain found r) =
      finds-IsOnce code slot q q' won g reads plain found (Reached-IsOnce _ won g reads r)
  Reached-IsOnce p won h reads (Reached.stores req at cs opaque slot q q' ids g patched r) =
      stores-IsOnce req at cs opaque slot q q' ids g patched (Reached-IsOnce _ ids g reads r)
  Reached-IsOnce p won h reads (Reached.returns v q q' _ _ r) =
      returns-IsOnce v q q' won h (Reached-IsOnce _ won h reads r)
  Reached-IsOnce p won h reads (Reached.calls c _ _ g k r) =
      let i = Reached-IsOnce p won g reads r in
      record {
        alone = i.alone;
        fresh = i.fresh;
        stored = all_stored_later env c g won k i.stored;
        distinct = i.distinct;
      }

  -- However several calls of /slots/claim, and other calls that take no slot back to `unclaimed`,
  -- are interleaved: with `claimLock`, no slot is claimed twice, if PocketBase does not find a
  -- slot as unclaimed after a PATCH has claimed it, and the codes hold no quote.
  pub Reached-AreDistinct :
      (p : List Visit) (won : List Bytes) (h : History)
      → ReadsWrites env
      → Reached env srv digests b64 true p won h
      → AreDistinct won
  Reached-AreDistinct p won h reads r = (Reached-IsOnce p won h reads r).distinct
