-- ===== src/Middleware.antt =====
-- internal/authsvc/middleware.go: request ids, the status writer and the order of the middleware.
pub mod Access
use abc_auth_svc.Base.{
  ◌⊎◌, ◌≤◌, ℕ, ◌+◌, ◌≡◌, Bool, true, false, ◌&&◌, ◌||◌, List, [], ◌∷◌, arith, ltb, leb, nat_eq,
  if◌then◌else◌, length, all, Bytes, is_empty,
}

unfoldable pub is_id_byte : ℕ → Bool
is_id_byte c =
    leb b'a' c && leb c b'z'
    || leb b'A' c && leb c b'Z'
    || leb b'0' c && leb c b'9'
    || nat_eq c b'-'
    || nat_eq c b'_'

-- sanitizeRequestID; a byte of a multi-byte rune is rejected as the rune is.
pub sanitize_request_id : Bytes → Bytes
unfolding is_id_byte
sanitize_request_id s =
    if is_empty s || ltb 64 (length s) then [] else if all is_id_byte s then s else []

-- At most 64 bytes, each a letter, a digit, `-` or `_`.
abbrev pub IsRequestId : Bytes → Type 0
IsRequestId s = (length s ≤ 64) × (all is_id_byte s ≡ true)

-- Whatever a client sends as its request id, what is logged and passed on is a request id (maybe an
-- empty one, for which a new one is made), and a request id that is sent is kept as it is.
pub sanitize_request_id-IsRequestId :
    (s : Bytes)
    → IsRequestId (sanitize_request_id s)
      × ((sanitize_request_id s ≡ s) ⊎ ((sanitize_request_id s ≡ []) × ¬ IsRequestId s))
unfolding sanitize_request_id
sanitize_request_id-IsRequestId [] = ground arith
sanitize_request_id-IsRequestId (c ∷ s) = ground arith

-- statusWriter, without the wrapped writer.
pub record StatusWriter : Type 0 where
  pub status : ℕ
  pub bytes : ℕ
  pub wrote : Bool

pub write_header : StatusWriter → ℕ → StatusWriter
write_header w code = if w.wrote then w else record w { status = code; wrote = true }

-- Write, where the wrapped writer takes `n` bytes.
pub write : StatusWriter → ℕ → StatusWriter
unfolding write_header
write w n = record (if w.wrote then w else record w { status = 200; wrote = true }) {
  bytes = w.bytes + n;
}

-- What AccessLog starts from.
abbrev pub fresh_writer : StatusWriter
fresh_writer = record { status = 200; bytes = 0; wrote = false }

pub data WriterCall : Type 0 where
  header : ℕ → WriterCall
  body : ℕ → WriterCall

pub run_calls : StatusWriter → List WriterCall → StatusWriter
unfolding write_header write
run_calls w [] = w
run_calls w (header code ∷ cs) = run_calls (write_header w code) cs
run_calls w (body n ∷ cs) = run_calls (write w n) cs

-- The status of the first call counts, and 200 if there is none or it writes the body.
unfoldable pub first_status : List WriterCall → ℕ
first_status [] = 200
first_status (header code ∷ cs) = code
first_status (body n ∷ cs) = 200

unfoldable pub written_bytes : List WriterCall → ℕ
written_bytes [] = 0
written_bytes (header code ∷ cs) = written_bytes cs
written_bytes (body n ∷ cs) = n + written_bytes cs

run_calls_wrote :
    (w : StatusWriter) (cs : List WriterCall)
    → w.wrote ≡ true
    → run_calls w cs ≡ record w { bytes = w.bytes + written_bytes cs }
unfolding run_calls written_bytes
run_calls_wrote w [] h = ground arith
run_calls_wrote w (header code ∷ cs) h = ground (arith, run_calls_wrote w cs)
run_calls_wrote w (body n ∷ cs) h =
    ground (arith, run_calls_wrote (record w { bytes = w.bytes + n }) cs)

-- Whatever a handler calls and in whatever order, the access log has the status of its first call
-- (200 where that is a write, or there is none) and the sum of the bytes that it has written.
pub run_calls-eq :
    (cs : List WriterCall)
    → ((run_calls fresh_writer cs).status ≡ first_status cs)
      × ((run_calls fresh_writer cs).bytes ≡ written_bytes cs)
unfolding run_calls first_status written_bytes
run_calls-eq [] = ground arith
run_calls-eq (header code ∷ cs) =
    ground (arith, run_calls_wrote (record { status = code; bytes = 0; wrote = true }) cs)
run_calls-eq (body n ∷ cs) =
    ground (arith, run_calls_wrote (record { status = 200; bytes = n; wrote = true }) cs)
