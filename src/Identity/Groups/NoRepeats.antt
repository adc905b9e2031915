-- ===== src/Identity/Groups/NoRepeats.antt =====
-- The groups of a policy string are named once each.
use abc_auth_svc.Base.{
  mem, mem-append, ==_sym, ◌≡◌, refl, ◌∙◌, inl, inr, Bool, true, false, ◌||◌, List, [], ◌∷◌, ◌++◌,
  arith, if◌then◌else◌, Bool-cases, Bytes, codes, ◌==◌,
}
use abc_auth_svc.Text.{trim_space, split}
use abc_auth_svc.Identity.Groups.{
  insert, sort_strings, collect, group_of_policy, groups_from_policies, less,
}

pub NoRepeats : List Bytes → Type 0
NoRepeats [] = Unit
NoRepeats (g ∷ gs) = (mem g gs ≡ false) × NoRepeats gs

NoRepeats-append :
    (g : Bytes) (gs : List Bytes) → mem g gs ≡ false → NoRepeats gs → NoRepeats (gs ++ g ∷ [])
unfolding mem NoRepeats
NoRepeats-append g [] m n = (refl, tt)
NoRepeats-append g (h ∷ gs) m (e, n) =
    (ground (arith, mem-append h g gs, ==_sym g h), NoRepeats-append g gs (ground arith) n)

mem-insert : (g h : Bytes) (gs : List Bytes) → mem g (insert h gs) ≡ (g == h || mem g gs)
unfolding mem insert
mem-insert g h [] = ground arith
mem-insert g h (k ∷ gs) = ground (arith, mem-insert g h gs)

mem-sort_strings : (g : Bytes) (gs : List Bytes) → mem g (sort_strings gs) ≡ mem g gs
unfolding mem sort_strings
mem-sort_strings g [] = refl
mem-sort_strings g (h ∷ gs) =
    ground (arith, mem-insert g h (sort_strings gs), mem-sort_strings g gs)

NoRepeats-insert :
    (g : Bytes) (gs : List Bytes) → mem g gs ≡ false → NoRepeats gs → NoRepeats (insert g gs)
unfolding mem insert NoRepeats
NoRepeats-insert g [] m n = (refl, tt)
NoRepeats-insert g (h ∷ gs) m (e, n) = elim (Bool-cases (less h g)) [
  | inl l ↦
      rw l (ground (arith, mem-insert h g gs, ==_sym g h), NoRepeats-insert g gs (ground arith) n)
  | inr l ↦ rw l (m, (e, n))
]

NoRepeats-sort_strings : (gs : List Bytes) → NoRepeats gs → NoRepeats (sort_strings gs)
unfolding sort_strings NoRepeats
NoRepeats-sort_strings [] n = tt
NoRepeats-sort_strings (g ∷ gs) (m, n) =
    NoRepeats-insert g (sort_strings gs) (mem-sort_strings g gs ∙ m) (NoRepeats-sort_strings gs n)

NoRepeats-step :
    (g : Bytes) (skip : Bool) (gs : List Bytes)
    → NoRepeats gs
    → NoRepeats (if skip || mem g gs then gs else gs ++ g ∷ [])
NoRepeats-step g true gs n = n
NoRepeats-step g false gs n = elim (Bool-cases (mem g gs)) [
  | inl e ↦ rw e n
  | inr e ↦ rw e (NoRepeats-append g gs e n)
]

NoRepeats-collect : (rest gs : List Bytes) → NoRepeats gs → NoRepeats (collect gs rest)
unfolding collect
NoRepeats-collect [] gs n = n
NoRepeats-collect (raw ∷ rest) gs n =
    NoRepeats-collect rest _ (NoRepeats-step (group_of_policy (trim_space raw)) _ gs n)

-- Whatever the policy string, no group is reported twice, neither for a policy that is repeated nor
-- for two policies of one group.
pub groups_from_policies-NoRepeats : (policies : Bytes) → NoRepeats (groups_from_policies policies)
unfolding groups_from_policies NoRepeats mem
groups_from_policies-NoRepeats policies = elim (Bool-cases (policies == codes "management")) [
  | inl e ↦ rw e (refl, tt)
  | inr e ↦ rw e (NoRepeats-sort_strings _ (NoRepeats-collect (split policies b',') [] tt))
]
