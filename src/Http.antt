-- ===== src/Http.antt =====
-- Requests and replies, and the handlers as functions of the world: a handler returns early with an
-- error reply, as the source does by `errJSON(...); return`, or returns the body of its success.
pub mod Actions
pub mod Calls
pub mod Yields
pub mod Ends
pub mod Triple
pub mod Finds
pub mod Codes
use abc_auth_svc.Base.{
  ℕ, zero, suc, ◌+◌, ◌-◌, ◌*◌, ◌/◌, ◌%◌, ◌^◌, ◌≤◌, ◌<◌, ◌≡◌, refl, sym, ap, ◌∙◌, subst, ◌≡⟨◌⟩◌, ◌∎,
  ◌≢◌, ◌↔◌, ◌⊎◌, inl, inr, Bool, true, false, not, ◌&&◌, ◌||◌, Option, none, some, List, [], ◌∷◌,
  ◌++◌, append-nil, append_assoc, arith, ltb, leb, nat_eq, if◌then◌else◌, nat_eq_iff, nat_eq_refl,
  Bool-cases, Option-cases, length, take, drop, all, length-append, take-append_left,
  drop-append_left, drop_past, All, All-append, All-append_left, All-append_right, Bytes, codes,
  ◌==◌, eq_of_==, ==_refl, ==_iff, is_empty, Lacks, String,
}
use abc_auth_svc.Text.{trim_space, equal_fold}
use abc_auth_svc.Upstreams.{
  World, History, Call, Env, Outcome, ok, err, Server, Slot, no_store, manager, StoreKind,
}

pub record Request : Type 0 where
  pub header : Bytes → Bytes
  pub cookie : Option Bytes
  pub path_slot : Bytes
  pub query : Bytes → Bytes
  pub form : Bytes → Bytes
  pub host : Bytes

-- What `io.ReadAll` and `json.Unmarshal` make of the body: nothing sent, no JSON of the handler's
-- shape, or a value.
pub data Body (A : Type 0) : Type 0 where
  empty malformed : Body A
  decoded : A → Body A

pub data Json : Type 0 where
  str : Bytes → Json
  strs : List Bytes → Json
  num : ℕ → Json
  bool : Bool → Json
  null : Json

-- `done` is the success of a handler; `fail` is a status with a JSON object.
pub data Reply (A : Type 0) : Type 0 where
  done : A → Reply A
  fail : ℕ → List (Bytes × Json) → Reply A

abbrev pub Handler : Type 0 → Type 0
Handler A = World → Reply A × World

abbrev pub continue : {A B : Type 0} → Reply A → (A → Handler B) → Handler B
continue (done a) f w = f a w
continue (fail status body) f w = (fail status body, w)

unfoldable pub pure : {A : Type 0} → A → Handler A
pure a w = (done a, w)

-- errJSON
unfoldable pub err_json : {A : Type 0} → ℕ → Bytes → Handler A
err_json status msg w = (fail status ((codes "error", str msg) ∷ []), w)

-- writeJSON with an error status
unfoldable pub err_object : {A : Type 0} → ℕ → List (Bytes × Json) → Handler A
err_object status body w = (fail status body, w)

-- `if !test { errJSON(...); return }`
unfoldable pub require : Bool → ℕ → Bytes → Handler (Unit {0})
unfolding pure err_json
require true status msg = pure tt
require false status msg = err_json status msg

-- `if err != nil { errJSON(...); return }`
unfoldable pub or_fail : {A : Type 0} → Outcome A → ℕ → Bytes → Handler A
unfolding pure err_json
or_fail (ok a) status msg = pure a
or_fail err status msg = err_json status msg

-- `if p == nil { errJSON(...); return }`
unfoldable pub present : {A : Type 0} → Option A → ℕ → Bytes → Handler A
unfolding pure err_json
present (some a) status msg = pure a
present none status msg = err_json status msg

-- One call, with its answer at the calls before it.
unfoldable pub ask : {A : Type 0} → Call → (History → A) → Handler A
ask c answer w = (done (answer w.history), record w { history = c ∷ w.history })

-- A call that only acts, or whose error is only logged.
abbrev pub tell : Call → Handler (Unit {0})
tell c = ask c (λ _. tt)

-- What no call changes: a clock or a formatted time.
unfoldable pub look : {A : Type 0} → (History → A) → Handler A
look answer w = (done (answer w.history), w)

unfoldable pub when : Bool → Handler (Unit {0}) → Handler (Unit {0})
unfolding pure
when true m = m
when false m = pure tt

-- Opening the bind opens all of these.
infixl 5 ◌>>=◌ ◌>>◌
unfoldable pub ◌>>=◌ : {A B : Type 0} → Handler A → (A → Handler B) → Handler B
unfolding require or_fail present ask look when err_object
◌>>=◌ m f w = continue (m w).0 f (m w).1

abbrev pub ◌>>◌ : {B : Type 0} → Handler (Unit {0}) → Handler B → Handler B
m >> n = m >>= λ _. n

abbrev pub is_manager : StoreKind → Bool
is_manager manager = true
is_manager _ = false

abbrev pub has_store : StoreKind → Bool
has_store no_store = false
has_store _ = true

-- `len(a) >= 7 && strings.EqualFold(a[:7], "bearer ")`, and then `strings.TrimSpace(a[7:])`
unfoldable pub bearer : Bytes → Option Bytes
bearer a =
    if leb 7 (length a) && equal_fold (take 7 a) (codes "bearer ")
    then some (trim_space (drop 7 a))
    else none

-- nomadTokenFromRequest (auth.go); the other handlers repeat its lines.
unfoldable pub nomad_token_from_request : Request → Bytes
unfolding bearer
nomad_token_from_request r =
    let t = trim_space (r.header (codes "X-Nomad-Token")) in
    if is_empty t
    then elim (bearer (r.header (codes "Authorization"))) [ none ↦ [] | some b ↦ b ]
    else t

-- `if muser == "" { muser = "slot-" + slotName }`
abbrev pub minio_user : Slot → Bytes → Bytes
minio_user slot slot_name =
    if is_empty slot.minio_access_key then codes "slot-" ++ slot_name else slot.minio_access_key

-- requireOperator (manage.go). hmac.Equal is equality, in constant time.
unfoldable pub require_operator : Server → Request → Handler (Unit {0})
require_operator srv r =
    require
      (not (is_empty srv.operator_token)
        && r.header (codes "X-Operator-Token") == srv.operator_token)
      401 (codes "unauthorized")
