-- ===== src/Service/Labelled.antt =====
-- What the middleware adds to every reply.
use abc_auth_svc.Base.{
  append-nil, ◌*◌, ◌≡◌, ◌≢◌, ap, ◌⊎◌, inl, inr, refl, true, false, [], ◌∷◌, ◌++◌, arith,
  if◌then◌else◌, Bool-cases, length, all, All, Bytes, codes, is_empty,
}
use abc_auth_svc.Crypto.{IsByte, hex_encode}
use abc_auth_svc.Upstreams.{Outcome, ok, err, World}
use abc_auth_svc.Middleware.{
  sanitize_request_id, sanitize_request_id-IsRequestId, IsRequestId, is_id_byte,
}
use abc_auth_svc.Service.Chain.{
  Inbound, Outbound, Responder, panic, access_entry, rid_of, new_request_id, reply_status,
  panic_reply, handler_of, mux_of, Headers,
}
use abc_auth_svc.Service.{Service}

-- crypto/rand fills the twelve bytes or fails.
abbrev pub IsEntropy : Outcome Bytes → Type 0
IsEntropy (ok b) = (length b ≡ 12) × All IsByte b
IsEntropy err = Unit

hex_encode-length : (s : Bytes) → length (hex_encode s) ≡ 2 * length s
unfolding hex_encode
hex_encode-length [] = omega arith
hex_encode-length (c ∷ s) = omega (arith, hex_encode-length s)

hex_encode-AreIdBytes : (s : Bytes) → All IsByte s → all is_id_byte (hex_encode s) ≡ true
unfolding hex_encode is_id_byte
hex_encode-AreIdBytes [] h = refl
hex_encode-AreIdBytes (c ∷ s) (b, h) = ground (arith, hex_encode-AreIdBytes s h)

-- A request id that is not empty.
abbrev IsFullId : Bytes → Type 0
IsFullId s = IsRequestId s × (s ≢ [])

new_request_id-IsFullId :
    (random : Outcome Bytes) → IsEntropy random → IsFullId (new_request_id random)
unfolding new_request_id is_id_byte codes
new_request_id-IsFullId (ok b) (n, h) = (
  (omega (arith, hex_encode-length b), hex_encode-AreIdBytes b h),
  λ p. absurd (omega (arith, ap length p, hex_encode-length b)),
)
new_request_id-IsFullId err h = ((omega arith, refl), λ p. absurd (ground arith))

abbrev sent_id : Inbound → Bytes
sent_id i = i.request.header (codes "X-Request-Id")

rid_of-IsFullId : (i : Inbound) → IsEntropy i.random → IsFullId (rid_of i)
unfolding rid_of
rid_of-IsFullId i h =
    let (checked, same) = sanitize_request_id-IsRequestId (sent_id i) in
    elim (Bool-cases (is_empty (sanitize_request_id (sent_id i)))) [
      | inl e ↦ rw e (new_request_id-IsFullId i.random h)
      | inr e ↦ rw e (checked, λ p. absurd (ground arith))
    ]

-- The client's id is kept, unless it is none.
rid_of-kept :
    (i : Inbound) → (rid_of i ≡ sent_id i) ⊎ (¬ IsRequestId (sent_id i) ⊎ (sent_id i ≡ []))
unfolding rid_of
rid_of-kept i =
    let (checked, same) = sanitize_request_id-IsRequestId (sent_id i) in
    elim same [
      | inl kept ↦ elim (Bool-cases (is_empty (sanitize_request_id (sent_id i)))) [
        | inl e ↦ inr (inr (ground arith))
        | inr e ↦ inl (rw e kept)
      ]
      | inr (gone, wrong) ↦ inr (inl wrong)
    ]

-- The inbound request as the handler sees it.
abbrev pub labelled : Inbound → Inbound
labelled i = record i { rid = rid_of i }

-- The headers that the handler finds set.
abbrev pub label : Inbound → Headers → Headers
label i hs = record hs { version = codes "v1"; request_id = rid_of i }

-- What the client and the log have of the run `inner` of a handler.
pub record IsLabelled (i : Inbound) (inner o : Outbound) : Type 0 where
  pub version : o.headers.version ≡ codes "v1"
  pub is_id : IsRequestId o.headers.request_id
  pub is_full : o.headers.request_id ≢ []
  pub kept : (o.headers.request_id ≡ sent_id i) ⊎ (¬ IsRequestId (sent_id i) ⊎ (sent_id i ≡ []))
  pub calm : o.panics ≡ false
  pub reply : o.reply ≡ (if inner.panics then panic_reply else inner.reply)
  pub logs :
      o.logs
      ≡ inner.logs
        ++ (if inner.panics then panic o.headers.request_id i.verb i.path ∷ [] else [])
        ++ access_entry (record i { rid = o.headers.request_id }) (reply_status o.reply) ∷ []

-- The mux leaves the headers of the middleware as it finds them, whatever it does or if it panics.
pub LeavesHeaders : Responder → Type 0
LeavesHeaders mux = (i : Inbound) (hs : Headers) (w : World) → (mux i hs w).0.headers ≡ hs

-- The handlers of the service leave these headers alone.
pub mux_of-LeavesHeaders : (s : Service) → LeavesHeaders (mux_of s)
unfolding LeavesHeaders mux_of
mux_of-LeavesHeaders s i hs w = refl

-- Whatever else a handler does that leaves the headers of the middleware alone, also if it panics
-- before it writes: the reply is written with the version header and a request id of 1 to 64
-- harmless bytes, which is the client's if that is one; no panic gets out, and the client has a 500
-- for it; and exactly one access record follows what the handler has logged, with the status that
-- was sent and the same request id, which the handler has been given too.
pub handler_of-IsLabelled :
    (mux : Responder) (i : Inbound) (hs : Headers) (w : World)
    → LeavesHeaders mux
    → IsEntropy i.random
    → IsLabelled i (mux (labelled i) (label i hs) w).0 (handler_of mux i hs w).0
      × ((handler_of mux i hs w).1 ≡ (mux (labelled i) (label i hs) w).1)
unfolding handler_of LeavesHeaders
handler_of-IsLabelled mux i hs w leaves h =
    let (is_id, is_full) = rid_of-IsFullId i h in
    let inner = (mux (labelled i) (label i hs) w).0 in
    let same : inner.headers ≡ label i hs = leaves (labelled i) (label i hs) w in
    (
      elim (Bool-cases inner.panics) [
        | inl e ↦ record {
          version = rw (e, same) refl;
          is_id = rw (e, same) is_id;
          is_full = rw (e, same) is_full;
          kept = rw (e, same) (rid_of-kept i);
          calm = rw e refl;
          reply = rw e refl;
          logs = rw (e, same) refl;
        }
        | inr e ↦ record {
          version = rw (e, same) refl;
          is_id = rw (e, same) is_id;
          is_full = rw (e, same) is_full;
          kept = rw (e, same) (rid_of-kept i);
          calm = ground arith;
          reply = rw e refl;
          logs = rw (e, append-nil, same) refl;
        }
      ],
      refl,
    )
