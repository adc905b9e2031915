-- ===== src/Text/Query.antt =====
-- net/url's QueryEscape, PathEscape and QueryUnescape.
pub mod Injective
use abc_auth_svc.Base.{
  ℕ, ◌+◌, ◌-◌, ◌*◌, ◌/◌, ◌%◌, Bool, true, false, ◌&&◌, ◌||◌, Option, none, some, [], ◌∷◌, ◌++◌, ltb,
  leb, nat_eq, if◌then◌else◌, Bytes, ◌>>=◌,
}

is_unreserved : ℕ → Bool
is_unreserved c =
    leb b'a' c && leb c b'z'
    || leb b'A' c && leb c b'Z'
    || leb b'0' c && leb c b'9'
    || nat_eq c b'-'
    || nat_eq c b'_'
    || nat_eq c b'.'
    || nat_eq c b'~'

upper_hex : ℕ → ℕ
upper_hex n = if ltb n 10 then n + 48 else n + 55

escape_byte : ℕ → Bytes
unfolding is_unreserved upper_hex
escape_byte c =
    if nat_eq c 32
    then b'+' ∷ []
    else if is_unreserved c
    then c ∷ []
    else b'%' ∷ upper_hex (c / 16) ∷ upper_hex (c % 16) ∷ []

unfoldable pub query_escape : Bytes → Bytes
unfolding escape_byte
query_escape [] = []
query_escape (c ∷ s) = escape_byte c ++ query_escape s

is_segment_byte : ℕ → Bool
unfolding is_unreserved
is_segment_byte c =
    is_unreserved c
    || nat_eq c b'$'
    || nat_eq c b'&'
    || nat_eq c b'+'
    || nat_eq c b':'
    || nat_eq c b'='
    || nat_eq c b'@'

unfoldable pub path_escape : Bytes → Bytes
unfolding is_segment_byte upper_hex
path_escape [] = []
path_escape (c ∷ s) =
    let rest = path_escape s in
    if is_segment_byte c then c ∷ rest else b'%' ∷ upper_hex (c / 16) ∷ upper_hex (c % 16) ∷ rest

unhex : ℕ → Option ℕ
unhex c =
    if leb b'0' c && leb c b'9'
    then some (c - 48)
    else if leb b'a' c && leb c b'f'
    then some (c - 87)
    else if leb b'A' c && leb c b'F'
    then some (c - 55)
    else none

abbrev unplus : ℕ → ℕ
unplus c = if nat_eq c b'+' then 32 else c

-- What `%` and two digits stand for.
hex_pair : ℕ → ℕ → Option ℕ
unfolding unhex
hex_pair d e = do h ← unhex d; l ← unhex e; some (h * 16 + l)

-- `none` is the error on a malformed escape.
unfoldable pub query_unescape : Bytes → Option Bytes
unfolding hex_pair
query_unescape [] = some []
query_unescape (c ∷ []) = if nat_eq c b'%' then none else some (unplus c ∷ [])
query_unescape (c ∷ d ∷ []) =
    if nat_eq c b'%' || nat_eq d b'%' then none else some (unplus c ∷ unplus d ∷ [])
query_unescape (c ∷ d ∷ e ∷ s) = elim (nat_eq c b'%') [
  | true ↦ (do x ← hex_pair d e; t ← query_unescape s; some (x ∷ t))
  | false ↦ (do t ← query_unescape (d ∷ e ∷ s); some (unplus c ∷ t))
]
