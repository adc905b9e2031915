-- ===== src/Redact.antt =====
-- internal/authsvc/redact.go and log.go: what the two handlers in front of the JSON handler do to a
-- log record. The regular expressions of `valuePatterns` are a parameter.
pub mod Keys
pub mod Scrub
pub mod Logger
use abc_auth_svc.Base.{
  ℕ, zero, suc, ◌+◌, ◌-◌, ◌*◌, ◌/◌, ◌%◌, ◌^◌, ◌≤◌, ◌<◌, ◌≡◌, refl, sym, ap, ◌∙◌, subst, ◌≡⟨◌⟩◌, ◌∎,
  ◌≢◌, ◌↔◌, ◌⊎◌, inl, inr, Bool, true, false, not, ◌&&◌, ◌||◌, Option, none, some, List, [], ◌∷◌,
  ◌++◌, append-nil, append_assoc, arith, ltb, leb, nat_eq, if◌then◌else◌, nat_eq_iff, nat_eq_refl,
  Bool-cases, Option-cases, length, take, drop, all, length-append, take-append_left,
  drop-append_left, drop_past, All, All-append, All-append_left, All-append_right, Bytes, codes,
  ◌==◌, eq_of_==, ==_refl, ==_iff, is_empty, Lacks, String, mem,
}
use abc_auth_svc.Text.{trim_space, to_lower}
use abc_auth_svc.Text.Replace.{replace_all}

-- An slog.Attr: a string, a value of another kind (with its text), or a group.
mutual
  pub data Attr : Type 0 where
    text : Bytes → Bytes → Attr
    other : Bytes → Bytes → Attr
    group : Bytes → Attrs → Attr

  pub data Attrs : Type 0 where
    nil : Attrs
    cons : Attr → Attrs → Attrs

-- The message and the attributes of an slog.Record.
pub record LogRecord : Type 0 where
  pub message : Bytes
  pub attrs : Attrs

-- sensitiveKeys
unfoldable pub sensitive_keys : List Bytes
sensitive_keys =
    codes "password"
    ∷ codes "pass"
    ∷ codes "passwd"
    ∷ codes "private_key"
    ∷ codes "pem"
    ∷ codes "secret"
    ∷ codes "secret_key"
    ∷ codes "access_token"
    ∷ codes "upload_token"
    ∷ codes "token"
    ∷ codes "bearer_token"
    ∷ codes "auth_key"
    ∷ codes "tailscale_auth_key"
    ∷ codes "ts_authkey"
    ∷ codes "credential"
    ∷ codes "credentials"
    ∷ codes "session_secret"
    ∷ codes "nomad_token"
    ∷ codes "claim_code"
    ∷ codes "opaque_token"
    ∷ codes "cookie"
    ∷ codes "authorization"
    ∷ []

unfoldable pub is_sensitive : Bytes → Bool
is_sensitive key = mem (to_lower key) sensitive_keys

abbrev pub redacted : Bytes
redacted = codes "[REDACTED]"

-- What `ReplaceAllString` of each pattern does, in their order.
abbrev pub Patterns : Type 0
Patterns = List (Bytes → Bytes)

-- redactValue
unfoldable pub redact_value : Patterns → Bytes → Bytes
redact_value [] s = s
redact_value (p ∷ ps) s = redact_value ps (p s)

-- scrubAttr of RedactingHandler, on an attribute and on the members of a group.
unfoldable mutual
  unfolding is_sensitive redact_value

  pub redact_attr : Patterns → Attr → Attr
  redact_attr ps (text k v) = if is_sensitive k then text k redacted else text k (redact_value ps v)
  redact_attr ps (other k v) = if is_sensitive k then text k redacted else other k v
  redact_attr ps (group k sub) =
      let members = redact_attrs ps sub in
      if is_sensitive k then text k redacted else group k members

  pub redact_attrs : Patterns → Attrs → Attrs
  redact_attrs ps nil = nil
  redact_attrs ps (cons a sub) = cons (redact_attr ps a) (redact_attrs ps sub)

-- RedactingHandler.Handle: the message is passed on as it is.
unfoldable pub redact_record : Patterns → LogRecord → LogRecord
redact_record ps r = record r { attrs = redact_attrs ps r.attrs }

abbrev pub inner_text : Bytes
inner_text = codes "REDACTED:secret"

-- `"[REDACTED:secret]"`
abbrev pub secret_placeholder : Bytes
secret_placeholder = b'[' ∷ inner_text ++ b']' ∷ []

abbrev pub min_secret_len : ℕ
min_secret_len = 6

-- One turn of the loop of wrapScrub.
unfoldable pub keep_secret : List Bytes → Bytes → List Bytes
keep_secret keep raw =
    let s = trim_space raw in
    if leb min_secret_len (length s) && not (mem s keep) then keep ++ s ∷ [] else keep

-- The loop of wrapScrub, with the secrets kept so far, the newest last; `seen` holds the same.
unfoldable pub keep_secrets : List Bytes → List Bytes → List Bytes
keep_secrets keep [] = keep
keep_secrets keep (raw ∷ rest) = keep_secrets (keep_secret keep raw) rest

-- sort.SliceStable by length, longest first, by insertion: a secret stays before the later ones of
-- its length.
unfoldable pub insert_longest : Bytes → List Bytes → List Bytes
insert_longest s [] = s ∷ []
insert_longest s (t ∷ ts) =
    let rest = insert_longest s ts in if ltb (length s) (length t) then t ∷ rest else s ∷ t ∷ ts

unfoldable pub longest_first : List Bytes → List Bytes
longest_first [] = []
longest_first (s ∷ ss) = insert_longest s (longest_first ss)

-- The secrets of wrapScrub; with none of them it returns the inner handler.
unfoldable pub scrub_secrets : List Bytes → List Bytes
scrub_secrets secrets = longest_first (keep_secrets [] secrets)

-- scrub
unfoldable pub scrub : List Bytes → Bytes → Bytes
scrub [] s = s
scrub (sec ∷ secrets) s = scrub secrets (replace_all s sec secret_placeholder)

-- scrubAttr of scrubHandler.
unfoldable mutual
  unfolding scrub

  pub scrub_attr : List Bytes → Attr → Attr
  scrub_attr secrets (text k v) = text k (scrub secrets v)
  scrub_attr secrets (other k v) = other k v
  scrub_attr secrets (group k sub) = group k (scrub_attrs secrets sub)

  pub scrub_attrs : List Bytes → Attrs → Attrs
  scrub_attrs secrets nil = nil
  scrub_attrs secrets (cons a sub) = cons (scrub_attr secrets a) (scrub_attrs secrets sub)

-- scrubHandler.Handle
unfoldable pub scrub_record : List Bytes → LogRecord → LogRecord
unfolding scrub
scrub_record secrets r = record {
  message = scrub secrets r.message;
  attrs = scrub_attrs secrets r.attrs;
}

-- NewLeveledLogger: the record that reaches the JSON handler.
unfoldable pub logged : Patterns → List Bytes → LogRecord → LogRecord
logged ps secrets r = redact_record ps (scrub_record (scrub_secrets secrets) r)
