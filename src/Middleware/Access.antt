-- ===== src/Middleware/Access.antt =====
-- AccessLog around Recoverer: what is logged of a handler that may panic.
use abc_auth_svc.Base.{
  ℕ, ◌+◌, ◌≡◌, refl, inl, inr, Bool, true, false, List, [], ◌∷◌, ◌++◌, arith, if◌then◌else◌,
  Bool-cases, length, Bytes, codes,
}
use abc_auth_svc.Middleware.{
  WriterCall, header, body, run_calls, fresh_writer, first_status, written_bytes, run_calls-eq,
}

-- What a handler writes, and whether it then panics.
pub record HandlerRun : Type 0 where
  pub calls : List WriterCall
  pub panics : Bool

-- The fields of a log record that depend on the run.
pub data LogEvent : Type 0 where
  http_panic : LogEvent
  http_access : ℕ → ℕ → LogEvent

-- `{"error":"internal error"}`
abbrev pub internal_error : Bytes
internal_error =
    b'{' ∷ b'"' ∷ codes "error" ++ b'"' ∷ b':' ∷ b'"' ∷ codes "internal error" ++ b'"' ∷ b'}' ∷ []

-- Recoverer: the calls on the writer that it was given.
unfoldable pub recoverer : HandlerRun → List WriterCall
recoverer run =
    if run.panics then run.calls ++ header 500 ∷ body (length internal_error) ∷ [] else run.calls

-- AccessLog around Recoverer: the log records, in their order. The deferred record is made whether
-- or not the handler panics.
unfoldable pub access_log : HandlerRun → List LogEvent
unfolding recoverer
access_log run =
    let w = run_calls fresh_writer (recoverer run) in
    (if run.panics then http_panic ∷ [] else []) ++ http_access w.status w.bytes ∷ []

-- The status that the client sees: the first that is written, or 500 if a panic comes before.
unfoldable pub status_of : Bool → List WriterCall → ℕ
status_of true [] = 500
status_of panics calls = first_status calls

abbrev panic_bytes : Bool → ℕ
panic_bytes panics = if panics then length internal_error else 0

pub access_records : List LogEvent → List (ℕ × ℕ)
access_records [] = []
access_records (http_panic ∷ es) = access_records es
access_records (http_access status bytes ∷ es) = (status, bytes) ∷ access_records es

written_bytes-append :
    (cs ds : List WriterCall) → written_bytes (cs ++ ds) ≡ written_bytes cs + written_bytes ds
unfolding written_bytes
written_bytes-append [] ds = omega arith
written_bytes-append (header code ∷ cs) ds = written_bytes-append cs ds
written_bytes-append (body n ∷ cs) ds = omega (arith, written_bytes-append cs ds)

recoverer-bytes :
    (run : HandlerRun)
    → written_bytes (recoverer run) ≡ written_bytes run.calls + panic_bytes run.panics
unfolding recoverer written_bytes
recoverer-bytes run = elim (Bool-cases run.panics) [
  | inl e ↦ rw e (
      omega
        (arith, written_bytes-append run.calls (header 500 ∷ body (length internal_error) ∷ [])))
  | inr e ↦ rw e (omega arith)
]

first_status-recovered :
    (cs : List WriterCall) (n : ℕ)
    → first_status (cs ++ header 500 ∷ body n ∷ []) ≡ status_of true cs
unfolding first_status status_of
first_status-recovered [] n = refl
first_status-recovered (header code ∷ cs) n = refl
first_status-recovered (body m ∷ cs) n = refl

recoverer-status :
    (run : HandlerRun) → first_status (recoverer run) ≡ status_of run.panics run.calls
unfolding recoverer status_of
recoverer-status run = elim (Bool-cases run.panics) [
  | inl e ↦ rw e (first_status-recovered run.calls (length internal_error))
  | inr e ↦ rw e refl
]

access_records_panic :
    (panics : Bool) (es : List LogEvent)
    → access_records ((if panics then http_panic ∷ [] else []) ++ es) ≡ access_records es
unfolding access_records
access_records_panic true es = refl
access_records_panic false es = refl

-- Whatever a handler writes, and whether or not it panics afterwards, exactly one access record is
-- logged: with the first status that was written (200 where a body came first or nothing was
-- written), which is 500 for a panic before any write and only then, and with all the bytes written,
-- those of the error reply to a panic included.
pub access_log-eq :
    (run : HandlerRun)
    → access_records (access_log run)
      ≡ (
        status_of run.panics run.calls,
        written_bytes run.calls + (if run.panics then length internal_error else 0),
      )
        ∷ []
unfolding access_log access_records
access_log-eq run =
    let (status, bytes) = run_calls-eq (recoverer run) in
    let w = run_calls fresh_writer (recoverer run) in
    rw
      (
        access_records_panic run.panics (http_access w.status w.bytes ∷ []),
        status,
        bytes,
        recoverer-status run,
        recoverer-bytes run,
      )
      refl
