-- ===== src/Text/Query/Injective.antt =====
-- The escapes of a URL tell all byte strings apart, and a path segment holds no `?`.
use abc_auth_svc.Base.{
  ℕ, ◌/◌, ◌%◌, ◌≡◌, refl, sym, ◌∙◌, ◌≢◌, inl, inr, Bool, true, false, ◌||◌, [], ◌∷◌, arith, nat_eq,
  if◌then◌else◌, Bool-cases, Bytes, Lacks,
}
use abc_auth_svc.Text.Query.{
  is_unreserved, is_segment_byte, upper_hex, escape_byte, query_escape, path_escape,
}

upper_hex-injective : (m n : ℕ) → upper_hex m ≡ upper_hex n → m ≡ n
unfolding upper_hex
upper_hex-injective m n p = ground arith

-- Two bytes with the same two digits are equal.
eq_of_digits :
    (c d : ℕ)
    → upper_hex (c / 16) ≡ upper_hex (d / 16)
    → upper_hex (c % 16) ≡ upper_hex (d % 16)
    → c ≡ d
eq_of_digits c d p q =
    let h = upper_hex-injective (c / 16) (d / 16) p in
    let l = upper_hex-injective (c % 16) (d % 16) q in omega arith

segment-ne_percent : (c : ℕ) → is_segment_byte c ≡ true → (c ≢ b'%') × (c ≢ b'?')
unfolding is_segment_byte is_unreserved
segment-ne_percent c h = (ground arith, ground arith)

upper_hex-ne_question : (n : ℕ) → upper_hex n ≢ b'?'
unfolding upper_hex
upper_hex-ne_question n = ground arith

pub path_escape-Lacks : (s : Bytes) → Lacks b'?' (path_escape s)
unfolding path_escape
path_escape-Lacks [] = tt
path_escape-Lacks (c ∷ s) = elim (Bool-cases (is_segment_byte c)) [
  | inl e ↦ rw e ((segment-ne_percent c e).1, path_escape-Lacks s)
  | inr e ↦ rw e (
    ground arith,
    (upper_hex-ne_question (c / 16), (upper_hex-ne_question (c % 16), path_escape-Lacks s)),
  )
]

-- The escape of one byte, for a test of the bytes that stay.
abbrev escaped : ℕ → Bytes → Bytes
escaped c rest = b'%' ∷ upper_hex (c / 16) ∷ upper_hex (c % 16) ∷ rest

escaped-injective : (c d : ℕ) (x y : Bytes) → escaped c x ≡ escaped d y → (c ≡ d) × (x ≡ y)
escaped-injective c d x y p = (eq_of_digits c d (ground arith) (ground arith), ground arith)

pub path_escape-injective : (s t : Bytes) → path_escape s ≡ path_escape t → s ≡ t
unfolding path_escape
path_escape-injective [] [] p = refl
path_escape-injective [] (d ∷ t) p = elim (Bool-cases (is_segment_byte d)) [
  | inl e ↦ let q = rw (path_escape, e) at p in absurd (ground arith)
  | inr e ↦ let q = rw (path_escape, e) at p in absurd (ground arith)
]
path_escape-injective (c ∷ s) [] p = elim (Bool-cases (is_segment_byte c)) [
  | inl e ↦ let q = rw (path_escape, e) at p in absurd (ground arith)
  | inr e ↦ let q = rw (path_escape, e) at p in absurd (ground arith)
]
path_escape-injective (c ∷ s) (d ∷ t) p = elim (Bool-cases (is_segment_byte c)) [
  | inl e ↦ elim (Bool-cases (is_segment_byte d)) [
    | inl f ↦ let q = rw (path_escape, e, f) at p in ground (arith, path_escape-injective s t)
    | inr f ↦ let q = rw (path_escape, e, f) at p in absurd (ground (arith, segment-ne_percent c e))
  ]
  | inr e ↦ elim (Bool-cases (is_segment_byte d)) [
    | inl f ↦ let q = rw (path_escape, e, f) at p in absurd (ground (arith, segment-ne_percent d f))
    | inr f ↦
        let q = rw (path_escape, e, f) at p in
        let (same, rest) = escaped-injective c d (path_escape s) (path_escape t) q in
        ground (arith, path_escape-injective s t)
  ]
]

-- A byte that is kept, and what is written for it: `+` for a space, or itself.
abbrev is_kept : ℕ → Bool
is_kept c = nat_eq c 32 || is_unreserved c

abbrev kept : ℕ → ℕ
kept c = if nat_eq c 32 then b'+' else c

kept-injective : (c d : ℕ) → is_kept c ≡ true → is_kept d ≡ true → kept c ≡ kept d → c ≡ d
unfolding is_unreserved
kept-injective c d hc hd p = ground arith

kept-ne_percent : (c : ℕ) → is_kept c ≡ true → kept c ≢ b'%'
unfolding is_unreserved
kept-ne_percent c h = ground arith

query_escape_kept :
    (c : ℕ) (s : Bytes) → is_kept c ≡ true → query_escape (c ∷ s) ≡ kept c ∷ query_escape s
unfolding query_escape escape_byte
query_escape_kept c s h = elim (Bool-cases (nat_eq c 32)) [
  | inl e ↦ rw e refl
  | inr e ↦ let f : is_unreserved c ≡ true = ground arith in rw (e, f) refl
]

query_escape-escaped :
    (c : ℕ) (s : Bytes) → is_kept c ≡ false → query_escape (c ∷ s) ≡ escaped c (query_escape s)
unfolding query_escape escape_byte
query_escape-escaped c s h =
    let e : nat_eq c 32 ≡ false = ground arith in
    let f : is_unreserved c ≡ false = ground arith in rw (e, f) refl

query_escape-ne_nil : (c : ℕ) (s : Bytes) → query_escape (c ∷ s) ≢ query_escape []
unfolding query_escape
query_escape-ne_nil c s p = elim (Bool-cases (is_kept c)) [
  | inl e ↦ let q = sym (query_escape_kept c s e) ∙ p in ground arith
  | inr e ↦ let q = sym (query_escape-escaped c s e) ∙ p in ground arith
]

pub query_escape-injective : (s t : Bytes) → query_escape s ≡ query_escape t → s ≡ t
query_escape-injective [] [] p = refl
query_escape-injective [] (d ∷ t) p = absurd (query_escape-ne_nil d t (sym p))
query_escape-injective (c ∷ s) [] p = absurd (query_escape-ne_nil c s p)
query_escape-injective (c ∷ s) (d ∷ t) p = elim (Bool-cases (is_kept c)) [
  | inl e ↦ elim (Bool-cases (is_kept d)) [
    | inl f ↦
        let q = sym (query_escape_kept c s e) ∙ p ∙ query_escape_kept d t f in
        let same = kept-injective c d e f (ground arith) in
        ground (arith, query_escape-injective s t)
    | inr f ↦
        let q = sym (query_escape_kept c s e) ∙ p ∙ query_escape-escaped d t f in
        absurd (kept-ne_percent c e (ground arith))
  ]
  | inr e ↦ elim (Bool-cases (is_kept d)) [
    | inl f ↦
        let q = sym (query_escape-escaped c s e) ∙ p ∙ query_escape_kept d t f in
        absurd (kept-ne_percent d f (ground arith))
    | inr f ↦
        let q = sym (query_escape-escaped c s e) ∙ p ∙ query_escape-escaped d t f in
        let (same, rest) = escaped-injective c d (query_escape s) (query_escape t) q in
        ground (arith, query_escape-injective s t)
  ]
]
