-- ===== src/Redact/Keys.antt =====
-- Attributes with sensitive keys, at any depth.
use abc_auth_svc.Base.{◌≡◌, refl, ◌⊎◌, inl, inr, false, List, Bool-cases, Bytes}
use abc_auth_svc.Redact.{
  Attr, text, other, group, Attrs, nil, cons, LogRecord, Patterns, is_sensitive, redacted,
  redact_attr, redact_attrs, redact_record, logged,
}

-- A value under a sensitive key is the placeholder, and no group and no value of another kind is
-- under one.
mutual
  pub IsRedacted : Attr → Type 0
  IsRedacted (text k v) = (is_sensitive k ≡ false) ⊎ (v ≡ redacted)
  IsRedacted (other k v) = is_sensitive k ≡ false
  IsRedacted (group k sub) = (is_sensitive k ≡ false) × AreRedacted sub

  pub AreRedacted : Attrs → Type 0
  AreRedacted nil = Unit
  AreRedacted (cons a sub) = IsRedacted a × AreRedacted sub

mutual
  unfolding redact_attr redact_attrs IsRedacted AreRedacted

  redact_attr-IsRedacted : (ps : Patterns) (a : Attr) → IsRedacted (redact_attr ps a)
  redact_attr-IsRedacted ps (text k v) = elim (Bool-cases (is_sensitive k)) [
    | inl e ↦ rw e (inr refl)
    | inr e ↦ rw e (inl e)
  ]
  redact_attr-IsRedacted ps (other k v) = elim (Bool-cases (is_sensitive k)) [
    | inl e ↦ rw e (inr refl)
    | inr e ↦ rw e e
  ]
  redact_attr-IsRedacted ps (group k sub) =
      let members = redact_attrs-AreRedacted ps sub in
      elim (Bool-cases (is_sensitive k)) [ inl e ↦ rw e (inr refl) | inr e ↦ rw e (e, members) ]

  pub redact_attrs-AreRedacted : (ps : Patterns) (sub : Attrs) → AreRedacted (redact_attrs ps sub)
  redact_attrs-AreRedacted ps nil = tt
  redact_attrs-AreRedacted ps (cons a sub) =
      (redact_attr-IsRedacted ps a, redact_attrs-AreRedacted ps sub)

-- Whatever is logged, whatever the patterns are and whatever secrets the service has: no attribute
-- of the record that is written, at any depth of groups, has a sensitive key (in any case of its
-- letters) with a value other than the placeholder.
pub logged-AreRedacted :
    (ps : Patterns) (secrets : List Bytes) (r : LogRecord) → AreRedacted (logged ps secrets r).attrs
unfolding logged redact_record
logged-AreRedacted ps secrets r = redact_attrs-AreRedacted ps _
