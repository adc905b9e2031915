-- ===== src/Text.antt =====
-- The functions of Go's `strings` and `strconv` packages that the service calls, over byte strings.
-- `TrimSpace`, `ToLower` and `EqualFold` are given for ASCII white space and letters.
pub mod Affix
pub mod Index
pub mod Decimal
pub mod Int
pub mod Query
pub mod Replace
use mathlib.Core.List.{map, reverse}
use abc_auth_svc.Base.{
  ℕ, zero, suc, ◌+◌, ◌-◌, ◌≡◌, refl, Bool, true, false, ◌&&◌, ◌||◌, List, [], ◌∷◌, ◌++◌, Option,
  none, some, leb, nat_eq, ◌>>=◌, if◌then◌else◌, length, take, drop, Bytes, codes, ◌==◌,
}

unfoldable pub is_space : ℕ → Bool
is_space c = leb 9 c && leb c 13 || nat_eq c 32

unfoldable pub skip_space : Bytes → Bytes
skip_space [] = []
skip_space (c ∷ s) = if is_space c then skip_space s else c ∷ s

-- strings.TrimSpace
unfoldable pub trim_space : Bytes → Bytes
unfolding skip_space is_space
trim_space s = reverse (skip_space (reverse (skip_space s)))

unfoldable pub lower : ℕ → ℕ
lower c = if leb b'A' c && leb c b'Z' then c + 32 else c

-- strings.ToLower
unfoldable pub to_lower : Bytes → Bytes
unfolding lower
to_lower = map lower

-- strings.EqualFold
unfoldable pub equal_fold : Bytes → Bytes → Bool
unfolding to_lower ◌==◌
equal_fold a b = to_lower a == to_lower b

-- strings.HasPrefix
unfoldable pub has_prefix : Bytes → Bytes → Bool
has_prefix s [] = true
has_prefix [] (p ∷ ps) = false
has_prefix (c ∷ s) (p ∷ ps) = nat_eq c p && has_prefix s ps

-- strings.TrimPrefix
unfoldable pub trim_prefix : Bytes → Bytes → Bytes
unfolding has_prefix
trim_prefix s p = if has_prefix s p then drop (length p) s else s

-- strings.HasSuffix
unfoldable pub has_suffix : Bytes → Bytes → Bool
unfolding ◌==◌
has_suffix s p = leb (length p) (length s) && drop (length s - length p) s == p

-- s[:len(s)-len(p)]
unfoldable pub cut_end : Bytes → Bytes → Bytes
cut_end s p = take (length s - length p) s

-- strings.TrimSuffix
unfoldable pub trim_suffix : Bytes → Bytes → Bytes
unfolding has_suffix cut_end
trim_suffix s p = if has_suffix s p then cut_end s p else s

-- strings.LastIndexByte; `none` is -1
unfoldable pub last_index_byte : Bytes → ℕ → Option ℕ
last_index_byte [] c = none
last_index_byte (x ∷ s) c = elim (last_index_byte s c) [
  | some i ↦ some (suc i)
  | none ↦ if nat_eq x c then some 0 else none
]

-- strings.IndexByte
unfoldable pub index_byte : Bytes → ℕ → Option ℕ
index_byte [] c = none
index_byte (x ∷ s) c = if nat_eq x c then some 0 else (do i ← index_byte s c; some (suc i))

-- strings.Contains
unfoldable pub contains : Bytes → Bytes → Bool
unfolding has_prefix
contains [] p = has_prefix [] p
contains (c ∷ s) p = has_prefix (c ∷ s) p || contains s p

split_from : ℕ → Bytes → Bytes → List Bytes
split_from sep cur [] = cur ∷ []
split_from sep cur (c ∷ s) = elim (nat_eq c sep) [
  | true ↦ cur ∷ split_from sep [] s
  | false ↦ split_from sep (cur ++ c ∷ []) s
]

-- strings.Split at a one-byte separator
unfoldable pub split : Bytes → ℕ → List Bytes
unfolding split_from
split s sep = split_from sep [] s

-- strings.Join
unfoldable pub join : List Bytes → Bytes → Bytes
join [] sep = []
join (p ∷ []) sep = p
join (p ∷ q ∷ ps) sep = p ++ sep ++ join (q ∷ ps) sep

trim_space_runs : trim_space (codes " \t ab c\n") ≡ codes "ab c"
unfolding trim_space codes
trim_space_runs = refl

split_runs : split (codes "a,,bc") b',' ≡ codes "a" ∷ [] ∷ codes "bc" ∷ []
unfolding split codes
split_runs = refl
