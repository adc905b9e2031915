-- ===== src/Redact/Scrub.antt =====
-- The service's own secrets in what it logs.
use abc_auth_svc.Base.{
  mem-append, eq_of_==, ==_refl, ◌≤◌, ◌≡◌, refl, ◌∙◌, inl, inr, true, false, ◌||◌, List, [], ◌∷◌,
  arith, Bool-cases, length, Bytes, ◌==◌, mem,
}
use abc_auth_svc.Text.{trim_space, contains}
use abc_auth_svc.Text.Replace.{replace_all, IsClean}
use abc_auth_svc.Text.Replace.Absent.{absent-replace_all, contains-replace_all}
use abc_auth_svc.Redact.{
  Attr, text, other, group, Attrs, nil, cons, LogRecord, inner_text, secret_placeholder,
  min_secret_len, keep_secret, keep_secrets, insert_longest, longest_first, scrub_secrets, scrub,
  scrub_attr, scrub_attrs, scrub_record,
}

mem-keep_secret :
    (s : Bytes) (keep : List Bytes) (raw : Bytes)
    → mem s keep ≡ true
    → mem s (keep_secret keep raw) ≡ true
unfolding keep_secret
mem-keep_secret s keep raw h = ground (arith, mem-append s (trim_space raw) keep)

keep_secret-long :
    (keep : List Bytes) (raw : Bytes)
    → min_secret_len ≤ length (trim_space raw)
    → mem (trim_space raw) (keep_secret keep raw) ≡ true
unfolding keep_secret
keep_secret-long keep raw long =
    ground (arith, mem-append (trim_space raw) (trim_space raw) keep, ==_refl (trim_space raw))

mem_kept :
    (s : Bytes) (secrets keep : List Bytes)
    → mem s keep ≡ true
    → mem s (keep_secrets keep secrets) ≡ true
unfolding keep_secrets
mem_kept s [] keep h = h
mem_kept s (raw ∷ rest) keep h =
    mem_kept s rest (keep_secret keep raw) (mem-keep_secret s keep raw h)

mem-keep_secrets :
    (s : Bytes) (secrets keep : List Bytes)
    → mem s secrets ≡ true
    → min_secret_len ≤ length (trim_space s)
    → mem (trim_space s) (keep_secrets keep secrets) ≡ true
unfolding keep_secrets mem
mem-keep_secrets s [] keep h long = absurd (ground arith)
mem-keep_secrets s (raw ∷ rest) keep h long = elim (Bool-cases (s == raw)) [
  | inl e ↦
      let p : s ≡ raw = eq_of_== s raw e in
      let kept = keep_secret-long keep raw (rw (← p) long) in
      mem_kept (trim_space s) rest (keep_secret keep raw) (rw p kept)
  | inr e ↦ mem-keep_secrets s rest (keep_secret keep raw) (ground arith) long
]

mem-insert_longest :
    (s t : Bytes) (ts : List Bytes) → mem s (insert_longest t ts) ≡ (s == t || mem s ts)
unfolding mem insert_longest
mem-insert_longest s t [] = ground arith
mem-insert_longest s t (u ∷ us) = ground (arith, mem-insert_longest s t us)

mem-longest_first : (s : Bytes) (ss : List Bytes) → mem s (longest_first ss) ≡ mem s ss
unfolding mem longest_first
mem-longest_first s [] = refl
mem-longest_first s (t ∷ ts) =
    ground (arith, mem-insert_longest s t (longest_first ts), mem-longest_first s ts)

-- A configured secret that is long enough is scrubbed for.
pub mem-scrub_secrets :
    (s : Bytes) (secrets : List Bytes)
    → mem s secrets ≡ true
    → min_secret_len ≤ length (trim_space s)
    → mem (trim_space s) (scrub_secrets secrets) ≡ true
unfolding scrub_secrets
mem-scrub_secrets s secrets h long =
    mem-longest_first (trim_space s) (keep_secrets [] secrets)
    ∙ mem-keep_secrets s secrets [] h long

module _ (sec : Bytes) (clean : IsClean inner_text sec) where
  -- Scrubbing for other secrets does not bring it back.
  scrub_keeps :
      (secrets : List Bytes) (s : Bytes)
      → contains s sec ≡ false
      → contains (scrub secrets s) sec ≡ false
  unfolding scrub
  scrub_keeps [] s h = h
  scrub_keeps (t ∷ ts) s h =
      scrub_keeps ts (replace_all s t secret_placeholder)
        (ground (arith, contains-replace_all t inner_text sec clean s))

  scrub_absent :
      (secrets : List Bytes) (s : Bytes)
      → mem sec secrets ≡ true
      → contains (scrub secrets s) sec ≡ false
  unfolding scrub mem
  scrub_absent [] s h = absurd (ground arith)
  scrub_absent (t ∷ ts) s h = elim (Bool-cases (sec == t)) [
    | inl e ↦
        let p : sec ≡ t = eq_of_== sec t e in
        scrub_keeps ts (replace_all s t secret_placeholder)
          (rw (← p) (absent-replace_all sec inner_text clean s))
    | inr e ↦ scrub_absent ts (replace_all s t secret_placeholder) (ground arith)
  ]

  -- No string value holds the secret; a key and a value of another kind may.
  mutual
    pub IsScrubbed : Attr → Type 0
    IsScrubbed (text k v) = contains v sec ≡ false
    IsScrubbed (other k v) = Unit
    IsScrubbed (group k sub) = AreScrubbed sub

    pub AreScrubbed : Attrs → Type 0
    AreScrubbed nil = Unit
    AreScrubbed (cons a sub) = IsScrubbed a × AreScrubbed sub

  module _ (secrets : List Bytes) (known : mem sec secrets ≡ true) where
    mutual
      unfolding scrub_attr scrub_attrs IsScrubbed AreScrubbed

      scrub_attr-IsScrubbed : (a : Attr) → IsScrubbed (scrub_attr secrets a)
      scrub_attr-IsScrubbed (text k v) = scrub_absent secrets v known
      scrub_attr-IsScrubbed (other k v) = tt
      scrub_attr-IsScrubbed (group k sub) = scrub_attrs-AreScrubbed sub

      scrub_attrs-AreScrubbed : (sub : Attrs) → AreScrubbed (scrub_attrs secrets sub)
      scrub_attrs-AreScrubbed nil = tt
      scrub_attrs-AreScrubbed (cons a sub) = (scrub_attr-IsScrubbed a, scrub_attrs-AreScrubbed sub)

-- Of a configured secret with at least six bytes, white space around it apart, and without brackets
-- and not a part of the placeholder's own text: whatever is logged, neither the message nor any
-- string value, at any depth of groups, holds it when the record leaves the scrubbing handler.
pub scrub_record-IsScrubbed :
    (s : Bytes) (secrets : List Bytes) (r : LogRecord)
    → mem s secrets ≡ true
    → min_secret_len ≤ length (trim_space s)
    → (clean : IsClean inner_text (trim_space s))
    → (contains (scrub_record (scrub_secrets secrets) r).message (trim_space s) ≡ false)
      × AreScrubbed (trim_space s) clean (scrub_record (scrub_secrets secrets) r).attrs
unfolding scrub_record
scrub_record-IsScrubbed s secrets r h long clean =
    let known = mem-scrub_secrets s secrets h long in
    (
      scrub_absent (trim_space s) clean (scrub_secrets secrets) r.message known,
      scrub_attrs-AreScrubbed (trim_space s) clean (scrub_secrets secrets) known r.attrs,
    )
