-- ===== src/Text/Replace.antt =====
-- strings.ReplaceAll, for a nonempty text to replace.
pub mod Absent
use abc_auth_svc.Base.{
  ℕ, zero, suc, ◌-◌, ◌≡◌, refl, ◌≢◌, ◌⊎◌, inl, inr, true, false, [], ◌∷◌, ◌++◌, arith,
  if◌then◌else◌, Bool-cases, length, Bytes, codes, Lacks,
}
use abc_auth_svc.Text.{has_prefix, contains}

-- The first argument counts the bytes of a match that are still to be passed over.
replace_from : ℕ → Bytes → Bytes → Bytes → Bytes
replace_from n [] old new = []
replace_from (suc n) (c ∷ s) old new = replace_from n s old new
replace_from zero (c ∷ s) old new =
    let copied = replace_from zero s old new in
    let passed = replace_from (length old - 1) s old new in
    if has_prefix (c ∷ s) old then new ++ passed else c ∷ copied

unfoldable pub replace_all : Bytes → Bytes → Bytes → Bytes
unfolding replace_from
replace_all s old new = replace_from 0 s old new

replace_all_runs : replace_all (codes "aXXXb") (codes "XX") (codes "-") ≡ codes "a-Xb"
unfolding replace_all has_prefix codes
replace_all_runs = refl

-- A text that holds no byte of the borders `b'['` and `b']'` of a placeholder, and is not in it.
pub record IsClean (inner p : Bytes) : Type 0 where
  pub no_open : Lacks b'[' p
  pub no_close : Lacks b']' p
  pub not_inside : contains (b'[' ∷ inner) p ≡ false

pub has_prefix-append_close :
    (u o p : Bytes) → Lacks b']' p → has_prefix (u ++ b']' ∷ o) p ≡ true → has_prefix u p ≡ true
unfolding has_prefix
has_prefix-append_close [] o [] l h = refl
has_prefix-append_close [] o (d ∷ p) (ne, l) h = absurd (ground arith)
has_prefix-append_close (c ∷ u) o [] l h = refl
has_prefix-append_close (c ∷ u) o (d ∷ p) (ne, l) h =
    ground (arith, has_prefix-append_close u o p l)

-- An occurrence around a `]` is before it or after it.
pub contains-append_close :
    (u o p : Bytes)
    → p ≢ []
    → Lacks b']' p
    → contains (u ++ b']' ∷ o) p ≡ true
    → (contains u p ≡ true) ⊎ (contains o p ≡ true)
unfolding contains has_prefix
contains-append_close u o [] ne l h = absurd (ne refl)
contains-append_close [] o (d ∷ p) ne (nd, l) h = inr (ground arith)
contains-append_close (c ∷ u) o (d ∷ p) ne l h =
    elim (Bool-cases (has_prefix (c ∷ u ++ b']' ∷ o) (d ∷ p))) [
      | inl e ↦ inl (ground (arith, has_prefix-append_close (c ∷ u) o (d ∷ p) l e))
      | inr e ↦ elim (contains-append_close u o (d ∷ p) ne l (ground arith)) [
        | inl i ↦ inl (ground arith)
        | inr i ↦ inr i
      ]
    ]
