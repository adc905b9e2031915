-- ===== src/Manage.antt =====
-- The operator's handlers on slots (internal/authsvc/manage*.go).
pub mod Rotate
pub mod Lifecycle
pub mod CredSource
pub mod Listing
pub mod Guard
pub mod Calls
use abc_auth_svc.Base.{
  ℕ, zero, suc, ◌+◌, ◌-◌, ◌*◌, ◌/◌, ◌%◌, ◌^◌, ◌≤◌, ◌<◌, ◌≡◌, refl, sym, ap, ◌∙◌, subst, ◌≡⟨◌⟩◌, ◌∎,
  ◌≢◌, ◌↔◌, ◌⊎◌, inl, inr, Bool, true, false, not, ◌&&◌, ◌||◌, Option, none, some, List, [], ◌∷◌,
  ◌++◌, append-nil, append_assoc, arith, ltb, leb, nat_eq, if◌then◌else◌, nat_eq_iff, nat_eq_refl,
  Bool-cases, Option-cases, length, take, drop, all, length-append, take-append_left,
  drop-append_left, drop_past, All, All-append, All-append_left, All-append_right, Bytes, codes,
  ◌==◌, eq_of_==, ==_refl, ==_iff, is_empty, Lacks, String,
}
use abc_auth_svc.Upstreams.{Env, Server, Outcome, ok, err, Slot}
use abc_auth_svc.Http.{
  Handler, ◌>>=◌, ◌>>◌, pure, Request, require, or_fail, present, is_manager, require_operator,
}
use abc_auth_svc.Http.Actions.{find_slot}

abbrev pub claimed : Bytes
claimed = codes "claimed"

abbrev pub suspended : Bytes
suspended = codes "suspended"

abbrev pub by_slot_name : Bytes → Bytes
by_slot_name name = codes "slot_name='" ++ name ++ codes "'"

module _ (env : Env) (srv : Server) where
  -- The lines that rotate, suspend and reactivate begin with: the slot of the path, if its state
  -- passes the test.
  unfoldable pub operator_slot : Request → (Bytes → Bool) → Bytes → Handler Slot
  operator_slot r accepts refusal = do
    require_operator srv r
    require (not (is_empty r.path_slot)) 400 (codes "missing_slot")
    require (is_manager srv.store) 500 (codes "store_not_writable")
    found ← find_slot env (by_slot_name r.path_slot)
    slot_or_nil ← or_fail found 500 (codes "internal_error")
    slot ← present slot_or_nil 404 (codes "not_found")
    require (accepts slot.state) 400 refusal
    pure slot
