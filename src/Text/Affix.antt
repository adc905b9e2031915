-- ===== src/Text/Affix.antt =====
-- Laws of prefixes and suffixes.
use abc_auth_svc.Base.{
  ◌-◌, ◌≡◌, refl, true, [], ◌∷◌, ◌++◌, arith, length, drop, length-append, take-append_left,
  drop-append_left, Bytes, ==_refl,
}
use abc_auth_svc.Text.{has_prefix, trim_prefix, has_suffix, cut_end, trim_suffix}

pub has_prefix-append : (p s : Bytes) → has_prefix (p ++ s) p ≡ true
unfolding has_prefix
has_prefix-append [] s = refl
has_prefix-append (c ∷ p) s = ground (arith, has_prefix-append p s)

-- A string with the prefix `p` is `p` followed by what `TrimPrefix` leaves.
pub eq-append_of_has_prefix : (s p : Bytes) → has_prefix s p ≡ true → s ≡ p ++ drop (length p) s
unfolding has_prefix
eq-append_of_has_prefix s [] h = refl
eq-append_of_has_prefix [] (c ∷ p) h = cc
eq-append_of_has_prefix (d ∷ s) (c ∷ p) h = ground (arith, eq-append_of_has_prefix s p)

pub trim_prefix-append : (p s : Bytes) → trim_prefix (p ++ s) p ≡ s
unfolding trim_prefix
trim_prefix-append p s = rw (has_prefix-append p s) (drop-append_left p s)

pub has_suffix-append : (s p : Bytes) → has_suffix (s ++ p) p ≡ true
unfolding has_suffix
has_suffix-append s p =
    let e : length (s ++ p) - length p ≡ length s = omega (arith, length-append s p) in
    rw (e, drop-append_left s p, ==_refl p) (ground (arith, length-append s p))

pub trim_suffix-append : (s p : Bytes) → trim_suffix (s ++ p) p ≡ s
unfolding trim_suffix
trim_suffix-append s p =
    let e : length (s ++ p) - length p ≡ length s = omega (arith, length-append s p) in
    rw (has_suffix-append s p, cut_end, e) (take-append_left s p)
