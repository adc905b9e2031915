-- ===== src/Text/Index.antt =====
-- Where a byte stands last.
use abc_auth_svc.Base.{
  ℕ, suc, ◌≡◌, refl, ap, [], ◌∷◌, ◌++◌, none, some, Option-cases, inl, inr, zero, arith, length,
  nat_eq_refl, Bytes, Lacks, take, drop,
}
use abc_auth_svc.Text.{last_index_byte}

pub last_index_byte_of_Lacks : (s : Bytes) (c : ℕ) → Lacks c s → last_index_byte s c ≡ none
unfolding last_index_byte
last_index_byte_of_Lacks [] c h = refl
last_index_byte_of_Lacks (x ∷ s) c (ne, h) = ground (arith, last_index_byte_of_Lacks s c h)

pub last_index_byte-append :
    (s t : Bytes) (c : ℕ) → Lacks c t → last_index_byte (s ++ c ∷ t) c ≡ some (length s)
unfolding last_index_byte
last_index_byte-append [] t c h = rw (last_index_byte_of_Lacks t c h) (rw (nat_eq_refl c))
last_index_byte-append (x ∷ s) t c h = rw (last_index_byte-append s t c h)

pub Lacks-of_last_index_byte : (s : Bytes) (c : ℕ) → last_index_byte s c ≡ none → Lacks c s
unfolding last_index_byte
Lacks-of_last_index_byte [] c h = tt
Lacks-of_last_index_byte (x ∷ s) c h = elim (Option-cases (last_index_byte s c)) [
  | inl e ↦ (ground arith, Lacks-of_last_index_byte s c e)
  | inr (i, e) ↦ absurd (ground arith)
]

-- What `LastIndexByte` finds cuts the string in two, with no such byte in the second part.
pub last_index_byte-cut :
    (s : Bytes) (c i : ℕ)
    → last_index_byte s c ≡ some i
    → (s ≡ take i s ++ c ∷ drop (suc i) s) × Lacks c (drop (suc i) s)
unfolding last_index_byte
last_index_byte-cut [] c i h = absurd (ground arith)
last_index_byte-cut (x ∷ s) c zero h = (ground arith, Lacks-of_last_index_byte s c (ground arith))
last_index_byte-cut (x ∷ s) c (suc i) h =
    let (e, l) = last_index_byte-cut s c i (ground arith) in (ap (λ t. x ∷ t) e, l)

-- A split at the first byte `c` is the only one.
pub cut_first :
    (c : ℕ) (u v x y : Bytes) → Lacks c u → Lacks c v → u ++ c ∷ x ≡ v ++ c ∷ y → (u ≡ v) × (x ≡ y)
cut_first c [] [] x y hu hv p = (refl, ground arith)
cut_first c [] (b ∷ v) x y hu (nb, hv) p = absurd (ground arith)
cut_first c (a ∷ u) [] x y (na, hu) hv p = absurd (ground arith)
cut_first c (a ∷ u) (b ∷ v) x y (na, hu) (nb, hv) p =
    let (same, rest) = cut_first c u v x y hu hv (ground arith) in (ground arith, rest)
