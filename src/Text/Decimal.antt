-- ===== src/Text/Decimal.antt =====
-- strconv.FormatInt of a count that is not negative, and strconv.ParseInt(s, 10, 64).
use abc_auth_svc.Base.{
  ℕ, zero, suc, ◌+◌, ◌-◌, ◌*◌, ◌/◌, ◌%◌, ◌≤◌, ◌<◌, ◌≡◌, refl, ◌∙◌, ◌≢◌, Bool, true, false, ◌&&◌,
  Option, none, some, [], ◌∷◌, arith, ltb, leb, nat_eq, if◌then◌else◌, All, Bytes, Lacks,
}

-- `negative n` is -n.
pub data Int64 : Type 0 where
  positive negative : ℕ → Int64

abbrev pub max_int64 : ℕ
max_int64 = 9223372036854775807

-- With fuel for each digit.
decimal_from : ℕ → ℕ → Bytes → Bytes
decimal_from zero n out = out
decimal_from (suc f) n out = elim (ltb n 10) [
  | true ↦ (48 + n) ∷ out
  | false ↦ decimal_from f (n / 10) ((48 + n % 10) ∷ out)
]

unfoldable pub decimal : ℕ → Bytes
unfolding decimal_from
decimal n = decimal_from (suc n) n []

abbrev pub IsDigit : ℕ → Type 0
IsDigit c = (48 ≤ c) × (c ≤ 57)

unfoldable pub is_digit : ℕ → Bool
is_digit c = leb 48 c && leb c 57

-- The value of a run of digits, read after the digits of `acc`.
unfoldable pub digits_value : ℕ → Bytes → Option ℕ
unfolding is_digit
digits_value acc [] = some acc
digits_value acc (c ∷ s) = elim (is_digit c) [
  | true ↦ digits_value (acc * 10 + (c - 48)) s
  | false ↦ none
]

-- At least one digit.
unfoldable pub unsigned : Bytes → Option ℕ
unfolding digits_value
unsigned [] = none
unsigned (c ∷ s) = digits_value 0 (c ∷ s)

up_to : ℕ → (ℕ → Int64) → Option ℕ → Option Int64
up_to bound sign none = none
up_to bound sign (some n) = if leb n bound then some (sign n) else none

-- A sign, then digits, in the range of an int64; `none` is the error.
unfoldable pub parse_int : Bytes → Option Int64
unfolding unsigned up_to
parse_int [] = none
parse_int (c ∷ s) =
    if nat_eq c b'-'
    then up_to (max_int64 + 1) negative (unsigned s)
    else if nat_eq c b'+'
    then up_to max_int64 positive (unsigned s)
    else up_to max_int64 positive (unsigned (c ∷ s))

-- `a > b` between a time that is not negative and a parsed number.
unfoldable pub exceeds : ℕ → Int64 → Bool
exceeds a (positive n) = ltb n a
exceeds a (negative zero) = ltb 0 a
exceeds a (negative (suc n)) = true

decimal_from-value :
    (f n : ℕ) (out : Bytes) → n < f → digits_value 0 (decimal_from f n out) ≡ digits_value n out
unfolding decimal_from digits_value
decimal_from-value zero n out h = elim h [ ]
decimal_from-value (suc f) n out h =
    ground (arith, decimal_from-value f (n / 10) ((48 + n % 10) ∷ out))

pub digits_value-decimal : (n : ℕ) → digits_value 0 (decimal n) ≡ some n
unfolding decimal
digits_value-decimal n =
    decimal_from-value (suc n) n [] (omega arith) ∙ (unfold digits_value in refl)

decimal_from-digits : (f n : ℕ) (out : Bytes) → All IsDigit out → All IsDigit (decimal_from f n out)
unfolding decimal_from
decimal_from-digits zero n out h = h
decimal_from-digits (suc f) n out h =
    let d : IsDigit (48 + n % 10) = omega arith in
    let ih = decimal_from-digits f (n / 10) ((48 + n % 10) ∷ out) (d, h) in ground arith

pub decimal-digits : (n : ℕ) → All IsDigit (decimal n)
unfolding decimal
decimal-digits n = decimal_from-digits (suc n) n [] tt

pub Lacks-of_digits : (c : ℕ) (s : Bytes) → 57 < c → All IsDigit s → Lacks c s
Lacks-of_digits c [] h d = tt
Lacks-of_digits c (x ∷ s) h (d, ds) = (ground arith, Lacks-of_digits c s h ds)

parse_int_of_digits :
    (s : Bytes) (n : ℕ)
    → All IsDigit s
    → digits_value 0 s ≡ some n
    → s ≢ []
    → n ≤ max_int64
    → parse_int s ≡ some (positive n)
unfolding parse_int
parse_int_of_digits [] n d v ne h = absurd (ne refl)
parse_int_of_digits (c ∷ s) n d v ne h = ground arith

decimal_from-ne-nil : (f n c : ℕ) (out : Bytes) → decimal_from f n (c ∷ out) ≢ []
unfolding decimal_from
decimal_from-ne-nil zero n c out = cc
decimal_from-ne-nil (suc f) n c out =
    ground (arith, decimal_from-ne-nil f (n / 10) (48 + n % 10) (c ∷ out))

decimal-ne-nil : (n : ℕ) → decimal n ≢ []
unfolding decimal decimal_from
decimal-ne-nil n = ground (arith, decimal_from-ne-nil n (n / 10) (48 + n % 10) [])

-- What is printed is read back.
pub parse_int-decimal : (n : ℕ) → n ≤ max_int64 → parse_int (decimal n) ≡ some (positive n)
parse_int-decimal n h =
    parse_int_of_digits (decimal n) n (decimal-digits n) (digits_value-decimal n) (decimal-ne-nil n)
      h
