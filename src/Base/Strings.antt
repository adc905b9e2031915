-- ===== src/Base/Strings.antt =====
-- A Go string is the list of its bytes. `codes` is shut, so that a literal stays short in proofs.
use Prim.Native.Nat.{ℕ}
use Prim.Native.Char.{code}
use Prim.Native.String.{String}
use mathlib.Core.Path.{◌≡◌, refl, subst}
use mathlib.Core.Logic.{◌↔◌, ◌≢◌}
use mathlib.Core.Bool.{Bool, true, false, ◌&&◌, ◌||◌}
use mathlib.Core.List.{List, [], ◌∷◌, ◌++◌}
use native.Mathlib.Omega.{arith}
use abc_auth_svc.Base.Tests.{nat_eq}

abbrev pub Bytes : Type 0
Bytes = List ℕ

-- The bytes of a literal, which is ASCII everywhere in the source.
unfoldable pub codes : String → Bytes
codes String.[] = []
codes (String.◌∷◌ c s) = code c ∷ codes s

-- The `==` of Go on strings.
infix 50 ◌==◌
unfoldable pub ◌==◌ : Bytes → Bytes → Bool
[] == [] = true
[] == (y ∷ ys) = false
(x ∷ xs) == [] = false
(x ∷ xs) == (y ∷ ys) = nat_eq x y && xs == ys

pub eq_of_== : (a b : Bytes) → (a == b) ≡ true → a ≡ b
unfolding ◌==◌
eq_of_== [] [] h = refl
eq_of_== [] (y ∷ ys) h = cc
eq_of_== (x ∷ xs) [] h = cc
eq_of_== (x ∷ xs) (y ∷ ys) h = ground (arith, eq_of_== xs ys)

pub ==_refl : (a : Bytes) → (a == a) ≡ true
unfolding ◌==◌
==_refl [] = refl
==_refl (x ∷ xs) = ground (arith, ==_refl xs)

pub ==_iff : (a b : Bytes) → ((a == b) ≡ true) ↔ (a ≡ b)
==_iff a b = (eq_of_== a b, λ p. subst (λ c. (a == c) ≡ true) p (==_refl a))

-- `s == ""`
abbrev pub is_empty : Bytes → Bool
is_empty [] = true
is_empty (x ∷ xs) = false

-- No byte `c`.
abbrev pub Lacks : ℕ → Bytes → Type 0
Lacks c [] = Unit
Lacks c (x ∷ xs) = (x ≢ c) × Lacks c xs

-- A search in a slice, or a look in a set.
unfoldable pub mem : Bytes → List Bytes → Bool
mem g [] = false
mem g (h ∷ hs) = g == h || mem g hs

pub ==_sym : (s t : Bytes) → (s == t) ≡ (t == s)
==_sym s t = ground (arith, ==_iff s t, ==_iff t s)

pub mem-append : (g h : Bytes) (gs : List Bytes) → mem g (gs ++ h ∷ []) ≡ (mem g gs || g == h)
unfolding mem
mem-append g h [] = ground arith
mem-append g h (k ∷ gs) = ground (arith, mem-append g h gs)
