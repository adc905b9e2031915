-- ===== src/Examples/Race.antt =====
-- Two claims of one code, with and without the lock, at a PocketBase that finds a slot as unclaimed
-- until a PATCH claims it.
use abc_auth_svc.Base.{
  ◌≡◌, refl, Bool, true, false, ◌||◌, none, some, List, [], ◌∷◌, ◌++◌, arith, if◌then◌else◌, Bytes,
  codes, ◌==◌, Lacks,
}
use abc_auth_svc.Upstreams.{History, Call, World, Env, ok, Fields}
use abc_auth_svc.Http.{decoded}
use abc_auth_svc.Text.{trim_space}
use abc_auth_svc.Claim.{ClaimRequest, by_claim_code, handle_slots_claim, claim_patch}
use abc_auth_svc.Claim.Race.{
  Visit, searching, holding, winning, Reached, AreDistinct, ReadsWrites, IsStored, quote,
}
use abc_auth_svc.Slots.{ConfigFile}
use abc_auth_svc.Render.{render_opaque}
use abc_auth_svc.Scenario.{ann}
use abc_auth_svc.Claim.Race.Once.{Reached-AreDistinct}
use abc_auth_svc.Claim.Race.Runs.{IsNew, handle_slots_claim-IsNew}
use abc_auth_svc.Scenario.{plain, short_digests, slot, env, srv}
use abc_auth_svc.Base.{find}

abbrev is_claim : Call → Bool
is_claim (Call.patch_slot id fields) = elim (find (codes "state") fields) [
  | none ↦ false
  | some state ↦ state == codes "claimed"
]
is_claim _ = false

abbrev is_claimed : History → Bool
is_claimed [] = false
is_claimed (c ∷ h) = is_claim c || is_claimed h

abbrev one_slot : Env
one_slot = record env { found_slot = λ h filter. if is_claimed h then ok none else ok (some slot) }

is_claimed-append :
    (later h : History) (c : Call) → is_claim c ≡ true → is_claimed (later ++ c ∷ h) ≡ true
is_claimed-append [] h c e = ground arith
is_claimed-append (d ∷ later) h c e = ground (arith, is_claimed-append later h c e)

IsStored-is_claimed : (h : History) (id : Bytes) → IsStored one_slot h id → is_claimed h ≡ true
unfolding codes ◌==◌
IsStored-is_claimed h id s = rw s.split (
    is_claimed-append s.later s.earlier (Call.patch_slot id s.fields)
      (rw (is_claim, s.claimed) refl))

one_slot-ReadsWrites : ReadsWrites one_slot
unfolding ReadsWrites
one_slot-ReadsWrites code s h no_quote stored =
    λ found. ground (arith, found, IsStored-is_claimed h s.id stored)

abbrev req : ClaimRequest
req = record {
  claim_code = codes "cc";
  name = codes "Ann";
  email = [];
  cred_source = codes "seedling/v1";
}

-- The patch that claims the slot, and the history after it.
abbrev claiming : Fields
claiming = claim_patch one_slot srv short_digests plain req (codes "now") (codes "local") []

abbrev code : Bytes
code = codes "cc"

abbrev look_up : Call
look_up = Call.find_slot (by_claim_code code)

abbrev claim : Call
claim = Call.patch_slot slot.id claiming

code-plain : Lacks quote code
unfolding codes
code-plain = ((λ e. absurd (omega arith)), ((λ e. absurd (omega arith)), tt))

-- What claims of `code` reach.
abbrev Claims : Bool → List Visit → List Bytes → History → Type 0
Claims has_lock = Reached one_slot srv short_digests plain has_lock

-- One claim, with the lock.
one_claim : Claims true (winning ∷ []) (slot.id ∷ []) (claim ∷ look_up ∷ [])
one_claim = Reached.stores req (codes "now") (codes "local") [] slot [] [] [] (look_up ∷ []) refl (
    Reached.finds code slot [] [] [] [] code-plain refl
      (Reached.enters code [] [] [] (λ _. refl) code-plain (Reached.start [])))

Reached-AreDistinct_example : AreDistinct (slot.id ∷ [])
Reached-AreDistinct_example =
    Reached-AreDistinct one_slot srv short_digests plain (winning ∷ []) (slot.id ∷ [])
      (claim ∷ look_up ∷ []) one_slot-ReadsWrites one_claim

-- Two claims, without the lock: both look the code up before either stores its PATCH.
two_searches : Claims false (searching code ∷ searching code ∷ []) [] []
two_searches =
    Reached.enters code (searching code ∷ []) [] [] (λ no. absurd (ground arith)) code-plain
      (Reached.enters code [] [] [] (λ _. refl) code-plain (Reached.start []))

two_slots : Claims false (holding slot ∷ holding slot ∷ []) [] (look_up ∷ look_up ∷ [])
two_slots =
    Reached.finds code slot (holding slot ∷ []) [] [] (look_up ∷ []) code-plain refl
      (Reached.finds code slot [] (searching code ∷ []) [] [] code-plain refl two_searches)

claimed_twice :
    Claims false
      (winning ∷ winning ∷ [])
      (slot.id ∷ slot.id ∷ [])
      (claim ∷ claim ∷ look_up ∷ look_up ∷ [])
claimed_twice =
    Reached.stores req (codes "now") (codes "local") [] slot (winning ∷ []) [] (slot.id ∷ [])
      (claim ∷ look_up ∷ look_up ∷ []) refl
      (Reached.stores req (codes "now") (codes "local") [] slot [] (holding slot ∷ []) []
        (look_up ∷ look_up ∷ []) refl two_slots)

not_distinct : ¬ AreDistinct (slot.id ∷ slot.id ∷ [])
not_distinct = λ d. d.0.0 refl

abbrev start : World
start = record { history = []; magic = []; level = none }

abbrev claimed_file : ConfigFile
claimed_file = record {
  blob = render_opaque srv.cluster ann (codes "abco_0123456789abcdef0123456789abcdef");
  filename = codes "abc-config-ann.yaml";
}

handle_slots_claim-IsNew_example :
    IsNew one_slot srv short_digests plain req [] [] claimed_file
      (handle_slots_claim one_slot srv short_digests plain (decoded req) start).1.history
unfolding trim_space codes handle_slots_claim abc_auth_svc.Http.◌>>=◌ abc_auth_svc.Render.normalized
    abc_auth_svc.Text.to_lower ◌==◌ abc_auth_svc.Render.mint_opaque
    abc_auth_svc.Slots.persist_slot_config abc_auth_svc.Render.render_config_yaml
handle_slots_claim-IsNew_example =
    handle_slots_claim-IsNew one_slot srv short_digests plain req [] start claimed_file
      one_slot-ReadsWrites code-plain (Reached.start []) refl
