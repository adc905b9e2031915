-- ===== src/PocketBase.antt =====
-- internal/authsvc/pocketbase.go: the PocketBase client, with its superuser token and its cache of
-- slot states. The network and the JSON of a body are a parameter, `Net`.
pub mod Records
pub mod Cache
pub mod Replay
pub mod Budget
pub mod Steps
pub mod Token
pub mod Traffic
pub mod Suspended
use abc_auth_svc.Text.Int.{ℤ}
use abc_auth_svc.Base.{
  ℕ, zero, suc, ◌+◌, ◌-◌, ◌*◌, ◌/◌, ◌%◌, ◌^◌, ◌≤◌, ◌<◌, ◌≡◌, refl, sym, ap, ◌∙◌, subst, ◌≡⟨◌⟩◌, ◌∎,
  ◌≢◌, ◌↔◌, ◌⊎◌, inl, inr, Bool, true, false, not, ◌&&◌, ◌||◌, Option, none, some, List, [], ◌∷◌,
  ◌++◌, append-nil, append_assoc, arith, ltb, leb, nat_eq, if◌then◌else◌, nat_eq_iff, nat_eq_refl,
  Bool-cases, Option-cases, length, take, drop, all, length-append, take-append_left,
  drop-append_left, drop_past, All, All-append, All-append_left, All-append_right, Bytes, codes,
  ◌==◌, eq_of_==, ==_refl, ==_iff, is_empty, Lacks, String,
}
use abc_auth_svc.Upstreams.{Outcome, ok, err, Slot, Fields}

pub data Method : Type 0 where
  get_method patch_method post_method : Method

pub record HttpRequest : Type 0 where
  pub method : Method
  pub url : Bytes
  pub bearer : Bytes
  pub body : Option Bytes

pub record HttpResponse : Type 0 where
  pub status : ℕ
  pub body : Bytes

-- The fields of a `groups` record that the service reads.
pub record GroupRecord : Type 0 where
  pub name : Bytes
  pub age_recipient : Bytes
  pub age_sk_wrapped : Bytes
  pub age_key_version : ℤ
  pub cred_source_default : Bytes

-- What net/http and encoding/json do. An answer and the time it takes depend on all the requests
-- before it, the newest first; `err` is a transport error or JSON of another shape.
pub record Net : Type 0 where
  pub is_url : Bytes → Bool
  pub answer : List HttpRequest → HttpRequest → Outcome HttpResponse
  pub latency : List HttpRequest → HttpRequest → ℕ
  pub credentials_json : Bytes → Bytes → Bytes
  pub fields_json : Fields → Outcome Bytes
  pub key_json : Bytes → Bytes → ℤ → Bytes → Outcome Bytes
  pub token_of : Bytes → Outcome Bytes
  pub items_of : Bytes → Outcome (List Slot)
  pub slot_of : Bytes → Outcome Slot
  pub group_of : Bytes → Outcome GroupRecord

pub record SlotStateEntry : Type 0 where
  pub state : Bytes
  pub ts : ℕ

-- The fields of PBClient that do not change; NewPBClient trims the slashes from the URL.
pub record PbConfig : Type 0 where
  pub url : Bytes
  pub admin_email : Bytes
  pub admin_password : Bytes

-- PBClient, with the time (in seconds) and the requests sent so far, the newest first.
pub record PbClient : Type 0 where
  pub token : Bytes
  pub token_exp : ℕ
  pub state_data : List (Bytes × SlotStateEntry)
  pub clock : ℕ
  pub sent : List HttpRequest

-- NewPBClient
abbrev pub new_pb_client : PbClient
new_pb_client = record { token = []; token_exp = 0; state_data = []; clock = 0; sent = [] }

abbrev pub Op : Type 0 → Type 0
Op A = PbClient → Outcome A × PbClient

abbrev pub next : {A B : Type 0} → Outcome A → (A → Op B) → Op B
next (ok a) f = f a
next err f = λ c. (err, c)

-- `return a, nil`, `if err != nil { return err }` and a test before an error.
abbrev pub pure : {A : Type 0} → A → Op A
pure a c = (ok a, c)

abbrev pub lift : {A : Type 0} → Outcome A → Op A
lift o c = (o, c)

abbrev pub test : Bool → Op (Unit {0})
test b = lift (if b then ok tt else err)

infixl 5 ◌>>=◌ ◌>>◌
unfoldable pub ◌>>=◌ : {A B : Type 0} → Op A → (A → Op B) → Op B
◌>>=◌ m f c = next (m c).0 f (m c).1

abbrev pub ◌>>◌ : {B : Type 0} → Op (Unit {0}) → Op B → Op B
m >> n = m >>= λ _. n

abbrev pub token_margin : ℕ
token_margin = 60

-- Six days.
abbrev pub token_ttl : ℕ
token_ttl = 518400

-- The io.LimitReader of a reply.
abbrev pub body_limit : ℕ
body_limit = 4194304

-- clearToken
unfoldable pub clear_token : Op (Unit {0})
clear_token c = (ok tt, record c { token = []; token_exp = 0 })

-- The end of authToken.
unfoldable pub keep_token : Bytes → Op Bytes
keep_token tok c = (ok tok, record c { token = tok; token_exp = c.clock + token_ttl })

module _ (net : Net) (cfg : PbConfig) where
  -- `c.HTTP.Do(req)`
  unfoldable pub send : HttpRequest → Op HttpResponse
  send req c = (
    net.answer c.sent req,
    record c { sent = req ∷ c.sent; clock = c.clock + net.latency c.sent req },
  )

  abbrev pub auth_request : HttpRequest
  auth_request = record {
    method = post_method;
    url = cfg.url ++ codes "/api/collections/_superusers/auth-with-password";
    bearer = [];
    body = some (net.credentials_json cfg.admin_email cfg.admin_password);
  }

  abbrev pub api_request : Method → Bytes → Option Bytes → Bytes → HttpRequest
  api_request method path body tok = record {
    method = method;
    url = cfg.url ++ path;
    bearer = tok;
    body = body;
  }

  -- authToken, when no token is kept or the one that is kept is near its expiry.
  unfoldable pub authenticate : Op Bytes
  authenticate = do
    test (net.is_url auth_request.url)
    resp ← send auth_request
    test (nat_eq resp.status 200)
    tok ← lift (net.token_of resp.body)
    test (not (is_empty tok))
    keep_token tok

  -- authToken
  unfoldable pub auth_token : Op Bytes
  auth_token c =
      if not (is_empty c.token) && ltb (c.clock + token_margin) c.token_exp
      then (ok c.token, c)
      else authenticate c

  -- do, up to the reply.
  unfoldable pub attempt : Method → Bytes → Option Bytes → Op HttpResponse
  attempt method path body = do
    tok ← auth_token
    test (net.is_url (cfg.url ++ path))
    send (api_request method path body tok)

  -- do, from the test of the status on.
  unfoldable pub checked : HttpResponse → Op Bytes
  checked resp = do
    test (leb 200 resp.status && ltb resp.status 300)
    pure (take body_limit resp.body)

  -- do with `retry` false
  unfoldable pub do_last : Method → Bytes → Option Bytes → Op Bytes
  do_last method path body = do resp ← attempt method path body; checked resp

  -- do with `retry` true, as every caller calls it
  unfoldable pub do_request : Method → Bytes → Option Bytes → Op Bytes
  do_request method path body = do
    resp ← attempt method path body
    if nat_eq resp.status 401 then (do clear_token; do_last method path body) else checked resp
