-- ===== src/Tracer.antt =====
-- internal/authsvc/debug.go: the transport that logs each call of an upstream. The transport that
-- it wraps is a parameter; it gives its answer, and the milliseconds that it took.
use abc_auth_svc.Base.{
  ℕ, ◌≡◌, refl, true, false, Option, none, some, List, [], ◌∷◌, All, Bytes, codes,
}
use abc_auth_svc.Text.Decimal.{Int64, decimal}
use abc_auth_svc.LogLevel.{l3}
use abc_auth_svc.Redact.{
  Attr, text, other, nil, cons, LogRecord, Patterns, logged, redact_attrs, scrub_attrs,
  scrub_secrets,
}
use abc_auth_svc.Redact.Logger.{
  Logger, discard_logger, discarding, bound, Line, from_context, log_attrs, at_least, Derived,
  IsRedactedLine, log_attrs-AreRedacted, request_context, base_context, with_logger, bind_attrs,
  with_attrs, redacting_with_attrs,
}
use abc_auth_svc.Redact.Logger.{request_context}
use abc_auth_svc.Redact.Logger.{base_context}
use abc_auth_svc.Redact.Logger.{with_logger}
use abc_auth_svc.Redact.Logger.{bind_attrs}
use abc_auth_svc.Redact.Logger.{redacting_with_attrs}
use abc_auth_svc.Base.{true}

-- An http.Request, with the logger in its context.
pub record TracedRequest : Type 0 where
  pub method : Bytes
  pub host : Bytes
  pub path : Bytes
  pub query : Bytes
  pub header : List (Bytes × Bytes)
  pub body : Bytes
  pub context : Option Logger

pub data Answer : Type 0 where
  answered : ℕ → Bytes → Answer
  broken : Bytes → Answer

abbrev pub Transport : Type 0
Transport = TracedRequest → Answer × ℕ

-- The attribute of the error, or of the status.
outcome_attr : Answer → Attr
outcome_attr (answered status body) = other (codes "status") (decimal status)
outcome_attr (broken message) = text (codes "error") message

unfoldable pub call_entry : TracedRequest → Answer → ℕ → LogRecord
unfolding outcome_attr
call_entry req answer ms = record {
  message = codes "upstream.call";
  attrs = cons (text (codes "method") req.method) (
      cons (text (codes "host") req.host) (
        cons (text (codes "path") req.path)
          (cons (outcome_attr answer) (cons (other (codes "ms") (decimal ms)) nil))));
}

-- The logger found in the context, or else the fallback.
or_fallback : Logger → Logger → Logger
or_fallback fallback discard_logger = fallback
or_fallback fallback l = l

unfoldable pub tracer_logger : Logger → TracedRequest → Logger
unfolding or_fallback
tracer_logger fallback req = or_fallback fallback (from_context req.context)

-- withDebugTransport: the client's transport, or the default one.
unfoldable pub traced_base : Transport → Option Transport → Transport
traced_base default_transport none = default_transport
traced_base default_transport (some t) = t

module _ (ps : Patterns) (secrets : List Bytes) (min : Int64) (base : Transport)
    (log : Logger) where
  -- RoundTrip, with the lines that it writes.
  unfoldable pub round_trip : TracedRequest → (Answer × ℕ) × List Line
  unfolding tracer_logger call_entry
  round_trip req =
      let (answer, ms) = base req in
      ((answer, ms), log_attrs ps secrets min (tracer_logger log req) l3 (call_entry req answer ms))

  -- The same call, to the eyes of the log.
  pub record LooksSame (a b : TracedRequest) : Type 0 where
    pub method : a.method ≡ b.method
    pub host : a.host ≡ b.host
    pub path : a.path ≡ b.path
    pub context : a.context ≡ b.context
    pub answer : base a ≡ base b

  log_attrs-below :
      (level : Int64) (l : Logger) (r : LogRecord)
      → at_least level min ≡ false
      → log_attrs ps secrets min l level r ≡ []
  unfolding log_attrs
  log_attrs-below level discard_logger r e = refl
  log_attrs-below level discarding r e = refl
  log_attrs-below level (bound h) r e = rw e refl

  round_trip-quiet : (req : TracedRequest) → at_least l3 min ≡ false → (round_trip req).1 ≡ []
  unfolding round_trip
  round_trip-quiet req e =
      log_attrs-below l3 (tracer_logger log req) (call_entry req (base req).0 (base req).1) e

  round_trip_same : (a b : TracedRequest) → LooksSame a b → (round_trip a).1 ≡ (round_trip b).1
  unfolding round_trip tracer_logger call_entry
  round_trip_same a b s = rw (s.answer, s.method, s.host, s.path, s.context) refl

  or_fallback-Derived :
      (l : Logger)
      → Derived ps secrets log
      → Derived ps secrets l
      → Derived ps secrets (or_fallback log l)
  unfolding or_fallback
  or_fallback-Derived discard_logger d c = d
  or_fallback-Derived discarding d c = c
  or_fallback-Derived (bound h) d c = c

  tracer_logger-Derived :
      (req : TracedRequest)
      → Derived ps secrets log
      → Derived ps secrets (from_context req.context)
      → Derived ps secrets (tracer_logger log req)
  unfolding tracer_logger
  tracer_logger-Derived req d c = or_fallback-Derived (from_context req.context) d c

  -- The tracer passes the answer of the wrapped transport on as it is, and writes nothing unless
  -- the level is trace. What it writes depends neither on the query, nor on the headers, nor on the
  -- body of the request, and in no line has a sensitive key a value other than the placeholder.
  pub round_trip-IsTraced :
      (a b : TracedRequest)
      → LooksSame a b
      → Derived ps secrets log
      → Derived ps secrets (from_context a.context)
      → ((round_trip a).0 ≡ base a)
        × (at_least l3 min ≡ false → (round_trip a).1 ≡ [])
        × ((round_trip a).1 ≡ (round_trip b).1)
        × All IsRedactedLine (round_trip a).1
  unfolding round_trip
  round_trip-IsTraced a b s d c = (
    refl,
    round_trip-quiet a,
    round_trip_same a b s,
    log_attrs-AreRedacted ps secrets min l3 (tracer_logger log a)
        (call_entry a (base a).0 (base a).1) (tracer_logger-Derived a d c),
  )

-- With the level at trace, a call made for a request is logged in one line, with the logger that
-- RequestID has bound the id of the request to.
round_trip-HasRid :
    (ps : Patterns) (secrets : List Bytes) (min : Int64) (base : Transport) (log : Logger)
    (req : TracedRequest) (ctx : Option Logger) (rid : Bytes)
    → at_least l3 min ≡ true
    → req.context ≡ request_context ps secrets (base_context ps secrets ctx) rid
    → (round_trip ps secrets min base log req).1
      ≡ record {
        bindings =
            with_attrs (
              redact_attrs ps
                (scrub_attrs (scrub_secrets secrets) (cons (text (codes "rid") rid) nil)))
            ∷ [];
        entry = logged ps secrets (call_entry req (base req).0 (base req).1);
      }
        ∷ []
unfolding round_trip tracer_logger or_fallback from_context request_context base_context with_logger
    bind_attrs redacting_with_attrs log_attrs
round_trip-HasRid ps secrets min base log req ctx rid e c = rw (c, e) refl
