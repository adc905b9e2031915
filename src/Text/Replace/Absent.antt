-- ===== src/Text/Replace/Absent.antt =====
-- After a replacement by a placeholder in brackets, the replaced text is gone, and no other text is
-- put together.
use abc_auth_svc.Base.{
  ℕ, zero, suc, ◌-◌, ◌≡◌, refl, subst, ◌≢◌, inl, inr, Bool, true, false, [], ◌∷◌, ◌++◌,
  append_assoc, arith, Bool-cases, length, Bytes, Lacks,
}
use abc_auth_svc.Text.{has_prefix, contains}
use abc_auth_svc.Text.Replace.{replace_from, replace_all, IsClean, contains-append_close}

nil_of_prefix : (p : Bytes) → has_prefix [] p ≡ true → p ≡ []
unfolding has_prefix
nil_of_prefix [] h = refl
nil_of_prefix (d ∷ p) h = absurd (ground arith)

not-true_of : {b : Bool} → ¬ (b ≡ true) → b ≡ false
not-true_of {b} h = elim (Bool-cases b) [ inl e ↦ absurd (h e) | inr e ↦ e ]

module _ (old inner : Bytes) where
  abbrev placeholder : Bytes
  placeholder = b'[' ∷ inner ++ b']' ∷ []

  -- A prefix of the result that lacks `[` was there before.
  has_prefix-replace :
      (s p : Bytes)
      → Lacks b'[' p
      → has_prefix (replace_from 0 s old placeholder) p ≡ true
      → has_prefix s p ≡ true
  unfolding has_prefix replace_from
  has_prefix-replace s [] l h = refl
  has_prefix-replace [] (d ∷ p) l h = h
  has_prefix-replace (c ∷ s) (d ∷ p) (nd, l) h = elim (Bool-cases (has_prefix (c ∷ s) old)) [
    | inl e ↦ let h' = rw e at h in absurd (ground arith)
    | inr e ↦ let h' = rw e at h in ground (arith, has_prefix-replace s p l)
  ]

  replace_from_copy :
      (c : ℕ) (s : Bytes)
      → has_prefix (c ∷ s) old ≡ false
      → replace_from 0 (c ∷ s) old placeholder ≡ c ∷ replace_from 0 s old placeholder
  unfolding replace_from
  replace_from_copy c s e = rw e refl

  replace_from_match :
      (c : ℕ) (s : Bytes)
      → has_prefix (c ∷ s) old ≡ true
      → replace_from 0 (c ∷ s) old placeholder
        ≡ placeholder ++ replace_from (length old - 1) s old placeholder
  unfolding replace_from
  replace_from_match c s e = rw e refl

  module _ (p : Bytes) (clean : IsClean inner p) where
    clean-nonempty : p ≢ []
    unfolding contains has_prefix
    clean-nonempty e = let q = rw e at clean.not_inside in absurd (ground arith)

    -- What follows the placeholder holds an occurrence that is seen with the placeholder.
    contains-after : (o : Bytes) → contains (placeholder ++ o) p ≡ true → contains o p ≡ true
    contains-after o h =
        let h' : contains ((b'[' ∷ inner) ++ b']' ∷ o) p ≡ true =
          subst (λ x. contains x p ≡ true) (append_assoc (b'[' ∷ inner) (b']' ∷ []) o) h in
        elim (contains-append_close (b'[' ∷ inner) o p clean-nonempty clean.no_close h') [
          | inl i ↦ absurd (ground (arith, clean.not_inside))
          | inr i ↦ i
        ]

    contains-replace_from :
        (n : ℕ) (s : Bytes)
        → contains (replace_from n s old placeholder) p ≡ true
        → contains s p ≡ true
    unfolding contains replace_from
    contains-replace_from n [] h = h
    contains-replace_from (suc n) (c ∷ s) h = ground (arith, contains-replace_from n s h)
    contains-replace_from zero (c ∷ s) h = elim (Bool-cases (has_prefix (c ∷ s) old)) [
      | inl e ↦
          let i = contains-after (replace_from (length old - 1) s old placeholder) (rw e at h) in
          ground (arith, contains-replace_from (length old - 1) s i)
      | inr e ↦
          let copied = replace_from 0 s old placeholder in
          let h' : contains (c ∷ copied) p ≡ true = rw (replace_from_copy c s e) at h in
          elim (Bool-cases (has_prefix (c ∷ copied) p)) [
            | inl f ↦
                let q : has_prefix (replace_from 0 (c ∷ s) old placeholder) p ≡ true =
                  rw (replace_from_copy c s e) f in
                ground (arith, has_prefix-replace (c ∷ s) p clean.no_open q)
            | inr f ↦ ground (arith, contains-replace_from 0 s)
          ]
    ]

    -- A replacement puts no clean text together that was not there.
    pub contains-replace_all :
        (s : Bytes) → contains (replace_all s old placeholder) p ≡ true → contains s p ≡ true
    unfolding replace_all
    contains-replace_all s h = contains-replace_from 0 s h

  module _ (clean : IsClean inner old) where
    absent-replace_from :
        (n : ℕ) (s : Bytes) → contains (replace_from n s old placeholder) old ≡ false
    unfolding contains replace_from has_prefix
    absent-replace_from n [] = elim (Bool-cases (has_prefix [] old)) [
      | inl e ↦ absurd (clean-nonempty old clean (nil_of_prefix old e))
      | inr e ↦ e
    ]
    absent-replace_from (suc n) (c ∷ s) = absent-replace_from n s
    absent-replace_from zero (c ∷ s) = elim (Bool-cases (has_prefix (c ∷ s) old)) [
      | inl e ↦
          let rest = replace_from (length old - 1) s old placeholder in
          rw (replace_from_match c s e) (
            not-true_of λ h.
              ground
                (arith, contains-after old clean rest h, absent-replace_from (length old - 1) s))
      | inr e ↦
          let copied = replace_from 0 s old placeholder in
          rw (replace_from_copy c s e) (
            not-true_of λ h. elim (Bool-cases (has_prefix (c ∷ copied) old)) [
              | inl f ↦
                  let q : has_prefix (replace_from 0 (c ∷ s) old placeholder) old ≡ true =
                    rw (replace_from_copy c s e) f in
                  ground (arith, has_prefix-replace (c ∷ s) old clean.no_open q)
              | inr f ↦ ground (arith, absent-replace_from 0 s)
            ])
    ]

    -- The replaced text is gone.
    pub absent-replace_all : (s : Bytes) → contains (replace_all s old placeholder) old ≡ false
    unfolding replace_all
    absent-replace_all s = absent-replace_from 0 s
