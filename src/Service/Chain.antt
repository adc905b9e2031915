-- ===== src/Service/Chain.antt =====
-- The middleware of internal/authsvc/middleware.go around a handler, in the order of NewServer.
use abc_auth_svc.Base.{ℕ, Bool, false, List, [], ◌∷◌, ◌++◌, if◌then◌else◌, Bytes, codes, is_empty}
use abc_auth_svc.Crypto.{hex_encode}
use abc_auth_svc.Upstreams.{Outcome, ok, err, World}
use abc_auth_svc.Http.{Request, Reply, done, fail, str}
use abc_auth_svc.Login.{redirect}
use abc_auth_svc.Verify.{unauthorized}
use abc_auth_svc.Middleware.{sanitize_request_id}
use abc_auth_svc.Routes.{Verb}
use abc_auth_svc.Service.{Service, Sent, Payload, serve}

-- A request on its way in. `rid` is the id in the context, and `random` what crypto/rand gives when
-- twelve bytes are asked for.
pub record Inbound : Type 0 where
  pub verb : Verb
  pub path : List Bytes
  pub request : Request
  pub sent : Sent
  pub rid : Bytes
  pub random : Outcome Bytes

-- The record of AccessLog, without the bytes and the time, and that of Recoverer.
pub data LogEntry : Type 0 where
  access : Bytes → Verb → List Bytes → ℕ → Bytes → Bytes → LogEntry
  panic : Bytes → Verb → List Bytes → LogEntry

-- The headers of the ResponseWriter that the middleware sets; an empty one is not set.
pub record Headers : Type 0 where
  pub version : Bytes
  pub request_id : Bytes

abbrev pub no_headers : Headers
no_headers = record { version = []; request_id = [] }

-- What a handler has done when it returns, or when it panics before it has written anything. The
-- headers are those at the moment of writing: what is set after it does not reach the client.
pub record Outbound : Type 0 where
  pub headers : Headers
  pub reply : Reply Payload
  pub panics : Bool
  pub logs : List LogEntry

-- A handler, with the headers that are set when it is called.
abbrev pub Responder : Type 0
Responder = Inbound → Headers → World → Outbound × World

-- The status line of a success.
unfoldable pub payload_status : Payload → ℕ
payload_status (Payload.page r) = r.status
payload_status (Payload.login (redirect cookie target)) = 302
payload_status (Payload.redirect r) = 302
payload_status (Payload.identity unauthorized) = 401
payload_status _ = 200

unfoldable pub reply_status : Reply Payload → ℕ
unfolding payload_status
reply_status (done p) = payload_status p
reply_status (fail status body) = status

-- VersionHeader, with APIVersion of config.go.
unfoldable pub version_header : Responder → Responder
version_header next i hs w = next i (record hs { version = codes "v1" }) w

-- newRequestID
unfoldable pub new_request_id : Outcome Bytes → Bytes
new_request_id (ok b) = hex_encode b
new_request_id err = codes "rid-unknown"

unfoldable pub rid_of : Inbound → Bytes
unfolding new_request_id
rid_of i =
    let sent = sanitize_request_id (i.request.header (codes "X-Request-Id")) in
    if is_empty sent then new_request_id i.random else sent

-- RequestID
unfoldable pub request_id_header : Responder → Responder
unfolding rid_of
request_id_header next i hs w =
    next (record i { rid = rid_of i }) (record hs { request_id = rid_of i }) w

abbrev pub access_entry : Inbound → ℕ → LogEntry
access_entry i status =
    access i.rid i.verb i.path status (i.request.header (codes "Remote-User"))
      (i.request.header (codes "X-Forwarded-For"))

-- AccessLog: the deferred record is made whether or not the handler panics.
unfoldable pub access_logged : Responder → Responder
unfolding reply_status
access_logged next i hs w =
    let (o, w') = next i hs w in
    (record o { logs = o.logs ++ access_entry i (reply_status o.reply) ∷ [] }, w')

abbrev pub panic_reply : Reply Payload
panic_reply = fail 500 ((codes "error", str (codes "internal error")) ∷ [])

-- Recoverer: the 500 is written with the headers that are set by then.
unfoldable pub recovered : Responder → Responder
recovered next i hs w =
    let (o, w') = next i hs w in
    (
      if o.panics
          then record o {
            panics = false;
            reply = panic_reply;
            logs = o.logs ++ panic i.rid i.verb i.path ∷ [];
          }
          else o,
      w',
    )

-- chain: the first listed runs outermost.
unfoldable pub chain : Responder → List (Responder → Responder) → Responder
chain h [] = h
chain h (m ∷ ms) = m (chain h ms)

-- The handler of NewServer around a mux; withBaseLogger, which is the outermost, only hands on the
-- logger.
unfoldable pub handler_of : Responder → Responder
unfolding chain version_header request_id_header access_logged recovered
handler_of mux = chain mux (version_header ∷ request_id_header ∷ access_logged ∷ recovered ∷ [])

-- The mux with the handlers of the service, none of which panics or sets one of these headers.
unfoldable pub mux_of : Service → Responder
mux_of s i hs w =
    let (reply, w') = serve s i.verb i.path i.request i.sent w in
    (record { headers = hs; reply = reply; panics = false; logs = [] }, w')

-- `Handler()`
unfoldable pub respond : Service → Inbound → World → Outbound × World
unfolding handler_of mux_of
respond s i w = handler_of (mux_of s) i no_headers w
