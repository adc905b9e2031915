-- ===== src/Claim/Race.antt =====
-- Several calls of /slots/claim at once (internal/authsvc/claim.go), with the calls that other
-- handlers make between theirs. `claimLock` is held from the lookup until the handler returns.
pub mod Once
pub mod Runs
use abc_auth_svc.Base.{
  ℕ, ◌≡◌, refl, ap, subst, ◌≢◌, Bool, true, some, List, [], ◌∷◌, ◌++◌, arith, All, All-append_right,
  Bytes, codes, ◌==◌, Lacks,
}
use abc_auth_svc.Crypto.{Base64, Digests}
use abc_auth_svc.Upstreams.{History, Call, Env, Server, ok, Slot, Fields}
use abc_auth_svc.Claim.{ClaimRequest, by_claim_code, claim_patch}
use abc_auth_svc.Base.{find}

-- A claim that holds the lock: it looks for the code, has found a slot, or has stored its PATCH.
pub data Visit : Type 0 where
  searching : Bytes → Visit
  holding : Slot → Visit
  winning : Visit

-- A call that does not take a slot back to `unclaimed`.
abbrev pub KeepsClaims : Call → Type 0
KeepsClaims (Call.patch_slot id fields) = find (codes "state") fields ≢ some (codes "unclaimed")
KeepsClaims _ = Unit

abbrev pub quote : ℕ
quote = 39

-- No two entries are the same.
abbrev pub AreDistinct : List Bytes → Type 0
AreDistinct [] = Unit
AreDistinct (id ∷ ids) = All (λ other. other ≢ id) ids × AreDistinct ids

module _ (env : Env) where
  -- The slot was claimed by a PATCH that succeeded, and has not been set back since.
  pub record IsStored (h : History) (id : Bytes) : Type 0 where
    pub later : History
    pub earlier : History
    pub fields : Fields
    pub split : h ≡ later ++ Call.patch_slot id fields ∷ earlier
    pub patched : env.patched earlier id fields ≡ ok tt
    pub claimed : find (codes "state") fields ≡ some (codes "claimed")
    pub kept : All KeepsClaims later

  -- What the service relies on PocketBase for: a lookup by a code, which holds no quote, does not
  -- find a slot as unclaimed after a PATCH has claimed it.
  unfoldable pub ReadsWrites : Type 0
  ReadsWrites =
      (code : Bytes) (slot : Slot) (h : History)
      → Lacks quote code
      → IsStored h slot.id
      → env.found_slot h (by_claim_code code) ≢ ok (some slot)

module _ (env : Env) (srv : Server) (digests : Digests) (b64 : Base64) (has_lock : Bool) where
  -- What the callers can reach together: the claims under way, the slots whose claim was stored,
  -- and the calls made. With the lock, a claim enters only when no other one is under way.
  pub data Reached : List Visit → List Bytes → History → Type 0 where
    start : (h : History) → Reached [] [] h
    enters :
        (code : Bytes) (p : List Visit) (won : List Bytes) (h : History)
        → (has_lock ≡ true → p ≡ [])
        → Lacks quote code
        → Reached p won h
        → Reached (searching code ∷ p) won h
    finds :
        (code : Bytes) (slot : Slot) (p q : List Visit) (won : List Bytes) (h : History)
        → Lacks quote code
        → env.found_slot h (by_claim_code code) ≡ ok (some slot)
        → Reached (p ++ searching code ∷ q) won h
        → Reached (p ++ holding slot ∷ q) won (Call.find_slot (by_claim_code code) ∷ h)
    stores :
        (req : ClaimRequest) (at cs opaque : Bytes) (slot : Slot) (p q : List Visit)
        (won : List Bytes) (h : History)
        → env.patched h slot.id (claim_patch env srv digests b64 req at cs opaque) ≡ ok tt
        → Reached (p ++ holding slot ∷ q) won h
        → Reached
            (p ++ winning ∷ q)
            (slot.id ∷ won)
            (Call.patch_slot slot.id (claim_patch env srv digests b64 req at cs opaque) ∷ h)
    returns :
        (v : Visit) (p q : List Visit) (won : List Bytes) (h : History)
        → Reached (p ++ v ∷ q) won h
        → Reached (p ++ q) won h
    calls :
        (c : Call) (p : List Visit) (won : List Bytes) (h : History)
        → KeepsClaims c
        → Reached p won h
        → Reached p won (c ∷ h)
