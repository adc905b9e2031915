-- ===== src/Redact/Logger.antt =====
-- The loggers of internal/authsvc/log.go and redact.go: a logger with bound attributes and groups,
-- the one that a context carries, and what reaches the JSON handler of log/slog.
use abc_auth_svc.Base.{
  inl, inr, Bool, true, ◌&&◌, Option, none, some, List, [], ◌∷◌, leb, nat_eq, if◌then◌else◌,
  Bool-cases, All, Bytes,
}
use abc_auth_svc.Text.Decimal.{Int64, positive, negative}
use abc_auth_svc.Redact.{
  Attrs, LogRecord, Patterns, redact_attrs, scrub_attrs, scrub_secrets, logged,
}
use abc_auth_svc.Redact.Keys.{AreRedacted, logged-AreRedacted, redact_attrs-AreRedacted}
use abc_auth_svc.Redact.{cons}
use abc_auth_svc.Redact.{text}
use abc_auth_svc.Base.{codes}
use abc_auth_svc.Redact.{nil}

-- A call of WithAttrs or of WithGroup on the JSON handler.
pub data Binding : Type 0 where
  with_attrs : Attrs → Binding
  with_group : Bytes → Binding

-- A logger of NewLeveledLogger with its bindings, the newest first, or discardLogger, or a child of
-- the latter, which discards as well.
pub data Logger : Type 0 where
  discard_logger discarding : Logger
  bound : List Binding → Logger

-- What the JSON handler writes.
pub record Line : Type 0 where
  pub bindings : List Binding
  pub entry : LogRecord

-- `level >= min`
unfoldable pub at_least : Int64 → Int64 → Bool
at_least (positive l) (positive m) = leb m l
at_least (positive l) (negative m) = true
at_least (negative l) (positive m) = nat_eq l 0 && nat_eq m 0
at_least (negative l) (negative m) = leb l m

-- WithLogger, and FromContext.
unfoldable pub with_logger : Option Logger → Logger → Option Logger
with_logger ctx l = some l

unfoldable pub from_context : Option Logger → Logger
from_context (some l) = l
from_context none = discard_logger

module _ (ps : Patterns) (secrets : List Bytes) where
  -- RedactingHandler.WithAttrs and WithGroup.
  unfoldable pub redacting_with_attrs : Attrs → List Binding → List Binding
  redacting_with_attrs attrs h = with_attrs (redact_attrs ps attrs) ∷ h

  unfoldable pub redacting_with_group : Bytes → List Binding → List Binding
  redacting_with_group name h = with_group name ∷ h

  -- Logger.With, by scrubHandler.WithAttrs; without attributes it is the same logger.
  unfoldable pub bind_attrs : Attrs → Logger → Logger
  unfolding redacting_with_attrs
  bind_attrs nil l = l
  bind_attrs (cons a sub) discard_logger = discarding
  bind_attrs (cons a sub) discarding = discarding
  bind_attrs (cons a sub) (bound h) =
      bound (redacting_with_attrs (scrub_attrs (scrub_secrets secrets) (cons a sub)) h)

  -- Logger.WithGroup, by scrubHandler.WithGroup; without a name it is the same logger.
  unfoldable pub bind_group : Bytes → Logger → Logger
  unfolding redacting_with_group
  bind_group [] l = l
  bind_group (c ∷ name) discard_logger = discarding
  bind_group (c ∷ name) discarding = discarding
  bind_group (c ∷ name) (bound h) = bound (redacting_with_group (c ∷ name) h)

  -- Logger.LogAttrs, where `min` is the level in the LevelVar.
  unfoldable pub log_attrs : Int64 → Logger → Int64 → LogRecord → List Line
  log_attrs min discard_logger level r = []
  log_attrs min discarding level r = []
  log_attrs min (bound h) level r =
      if at_least level min then record { bindings = h; entry = logged ps secrets r } ∷ [] else []

  -- withBaseLogger, and then RequestID: the context of a request with the id `rid`.
  unfoldable pub base_context : Option Logger → Option Logger
  base_context ctx = with_logger ctx (bound [])

  unfoldable pub request_context : Option Logger → Bytes → Option Logger
  unfolding from_context bind_attrs with_logger
  request_context ctx rid =
      with_logger ctx (bind_attrs (cons (text (codes "rid") rid) nil) (from_context ctx))

  -- The loggers of the service: the one of NewLeveledLogger, and those made from it.
  pub data Derived : Logger → Type 0 where
    new_logger : Derived (bound [])
    none_bound : Derived discard_logger
    more_attrs : (attrs : Attrs) (l : Logger) → Derived l → Derived (bind_attrs attrs l)
    more_groups : (name : Bytes) (l : Logger) → Derived l → Derived (bind_group name l)

-- No sensitive key has a value other than the placeholder.
pub IsRedactedBinding : Binding → Type 0
IsRedactedBinding (with_attrs attrs) = AreRedacted attrs
IsRedactedBinding (with_group name) = Unit

pub record IsRedactedLine (line : Line) : Type 0 where
  pub bound_first : All IsRedactedBinding line.bindings
  pub then_logged : AreRedacted line.entry.attrs

IsRedactedLogger : Logger → Type 0
IsRedactedLogger discard_logger = Unit
IsRedactedLogger discarding = Unit
IsRedactedLogger (bound h) = All IsRedactedBinding h

module _ (ps : Patterns) (secrets : List Bytes) where
  bind_attrs-IsRedactedLogger :
      (attrs : Attrs) (l : Logger)
      → IsRedactedLogger l
      → IsRedactedLogger (bind_attrs ps secrets attrs l)
  unfolding IsRedactedLogger bind_attrs IsRedactedBinding
  bind_attrs-IsRedactedLogger nil l i = i
  bind_attrs-IsRedactedLogger (cons a sub) discard_logger i = tt
  bind_attrs-IsRedactedLogger (cons a sub) discarding i = tt
  bind_attrs-IsRedactedLogger (cons a sub) (bound h) i =
      (redact_attrs-AreRedacted ps (scrub_attrs (scrub_secrets secrets) (cons a sub)), i)

  bind_group-IsRedactedLogger :
      (name : Bytes) (l : Logger)
      → IsRedactedLogger l
      → IsRedactedLogger (bind_group ps secrets name l)
  unfolding IsRedactedLogger bind_group IsRedactedBinding
  bind_group-IsRedactedLogger [] l i = i
  bind_group-IsRedactedLogger (c ∷ name) discard_logger i = tt
  bind_group-IsRedactedLogger (c ∷ name) discarding i = tt
  bind_group-IsRedactedLogger (c ∷ name) (bound h) i = (tt, i)

  Derived-IsRedactedLogger : (l : Logger) → Derived ps secrets l → IsRedactedLogger l
  unfolding IsRedactedLogger
  Derived-IsRedactedLogger l Derived.new_logger = tt
  Derived-IsRedactedLogger l Derived.none_bound = tt
  Derived-IsRedactedLogger l (Derived.more_attrs attrs k d) =
      bind_attrs-IsRedactedLogger attrs k (Derived-IsRedactedLogger k d)
  Derived-IsRedactedLogger l (Derived.more_groups name k d) =
      bind_group-IsRedactedLogger name k (Derived-IsRedactedLogger k d)

  logs_redacted :
      (min level : Int64) (l : Logger) (r : LogRecord)
      → IsRedactedLogger l
      → All IsRedactedLine (log_attrs ps secrets min l level r)
  unfolding log_attrs IsRedactedLogger
  logs_redacted min level discard_logger r i = tt
  logs_redacted min level discarding r i = tt
  logs_redacted min level (bound h) r i = elim (Bool-cases (at_least level min)) [
    | inl e ↦ rw e (record { bound_first = i; then_logged = logged-AreRedacted ps secrets r }, tt)
    | inr e ↦ rw e tt
  ]

  -- Whatever attributes and groups were bound to a logger of the service, and whatever is logged
  -- with it at any level: in each line that the JSON handler is given, neither the bound attributes
  -- nor those of the record have, at any depth of groups, a sensitive key (in any case of its
  -- letters) with a value other than the placeholder.
  pub log_attrs-AreRedacted :
      (min level : Int64) (l : Logger) (r : LogRecord)
      → Derived ps secrets l
      → All IsRedactedLine (log_attrs ps secrets min l level r)
  log_attrs-AreRedacted min level l r d = logs_redacted min level l r (Derived-IsRedactedLogger l d)
