-- ===== src/Text/Int.antt =====
-- Go's `int` of 64 bits, and strconv.Itoa.
use abc_auth_svc.Base.{
  ◌≤◌, ℕ, zero, suc, ◌+◌, ◌<◌, ◌≡◌, sym, ap, ◌∙◌, subst, ◌≢◌, ◌⊎◌, inl, inr, some, ◌∷◌, arith, leb,
  if◌then◌else◌, Bool-cases, drop, All, Bytes, Lacks,
}
use abc_auth_svc.Text.Decimal.{
  decimal, max_int64, IsDigit, digits_value, digits_value-decimal, decimal-digits, Lacks-of_digits,
}

-- `pos n` is n, and `negsuc n` is -(n + 1).
pub data ℤ : Type 0 where
  pos negsuc : ℕ → ℤ

-- v + 1, which wraps to the smallest int after the largest.
unfoldable pub next_int : ℤ → ℤ
next_int (pos n) = if leb max_int64 n then negsuc max_int64 else pos (n + 1)
next_int (negsuc zero) = pos 0
next_int (negsuc (suc n)) = negsuc n

unfoldable pub itoa : ℤ → Bytes
itoa (pos n) = decimal n
itoa (negsuc n) = b'-' ∷ decimal (suc n)

abbrev pub Below : ℤ → ℤ → Type 0
Below (pos m) (pos n) = m < n
Below (pos m) (negsuc n) = ⊥
Below (negsuc m) (pos n) = Unit
Below (negsuc m) (negsuc n) = n < m

-- No int is above it.
abbrev pub IsLargest : ℤ → Type 0
IsLargest (pos n) = max_int64 ≤ n
IsLargest (negsuc n) = ⊥

-- One more is above, but for the largest int.
pub next_int-Below : (v : ℤ) → Below v (next_int v) ⊎ IsLargest v
unfolding next_int
next_int-Below (pos n) = elim (Bool-cases (leb max_int64 n)) [
  | inl e ↦ inr (ground arith)
  | inr e ↦ inl (rw e (omega arith))
]
next_int-Below (negsuc zero) = inl tt
next_int-Below (negsuc (suc n)) = inl (omega arith)

decimal-injective : (m n : ℕ) → decimal m ≡ decimal n → m ≡ n
decimal-injective m n e =
    let q : some m ≡ some n =
      sym (digits_value-decimal m) ∙ ap (digits_value 0) e ∙ digits_value-decimal n in
    ground arith

no_sign : (m n : ℕ) → decimal m ≢ b'-' ∷ decimal n
no_sign m n e = let (low, _) = subst (All IsDigit) e (decimal-digits m) in absurd (ground arith)

-- What is printed determines the number.
pub itoa-injective : (v v' : ℤ) → itoa v ≡ itoa v' → v ≡ v'
unfolding itoa
itoa-injective (pos m) (pos n) e = ap pos (decimal-injective m n e)
itoa-injective (pos m) (negsuc n) e = absurd (no_sign m (suc n) e)
itoa-injective (negsuc m) (pos n) e = absurd (no_sign n (suc m) (sym e))
itoa-injective (negsuc m) (negsuc n) e =
    let q = decimal-injective (suc m) (suc n) (ap (drop 1) e) in
    let same : m ≡ n = ground arith in ap negsuc same

-- Signs and digits are below any later byte.
pub itoa-Lacks : (c : ℕ) (v : ℤ) → 57 < c → Lacks c (itoa v)
unfolding itoa
itoa-Lacks c (pos n) h = Lacks-of_digits c (decimal n) h (decimal-digits n)
itoa-Lacks c (negsuc n) h =
    (ground arith, Lacks-of_digits c (decimal (suc n)) h (decimal-digits (suc n)))
