-- ===== src/Identity/Groups.antt =====
-- groupsFromPolicies (identity.go): the sorted group names of a policy string.
pub mod NoRepeats
use abc_auth_svc.Base.{
  mem, Bool, true, false, ◌&&◌, ◌||◌, List, [], ◌∷◌, ◌++◌, ltb, nat_eq, if◌then◌else◌, Bytes, codes,
  ◌==◌, is_empty,
}
use abc_auth_svc.Text.{trim_space, has_prefix, trim_prefix, has_suffix, cut_end, split}
use abc_auth_svc.Naming.{ns_prefix}

-- `s < t` of Go on strings, byte by byte.
unfoldable pub less : Bytes → Bytes → Bool
less s [] = false
less [] (d ∷ t) = true
less (c ∷ s) (d ∷ t) = ltb c d || nat_eq c d && less s t

-- sort.Strings, by insertion.
insert : Bytes → List Bytes → List Bytes
insert g [] = g ∷ []
insert g (h ∷ hs) = if less h g then h ∷ insert g hs else g ∷ h ∷ hs

sort_strings : List Bytes → List Bytes
unfolding insert
sort_strings [] = []
sort_strings (g ∷ gs) = insert g (sort_strings gs)

-- The first of the three suffixes that fits is cut off.
cut_suffix : Bytes → Bytes
cut_suffix inner =
    if has_suffix inner (codes "-pool")
    then cut_end inner (codes "-pool")
    else if has_suffix inner (codes "-admin")
    then cut_end inner (codes "-admin")
    else if has_suffix inner (codes "-member")
    then cut_end inner (codes "-member")
    else inner

unfoldable pub group_of_policy : Bytes → Bytes
unfolding cut_suffix
group_of_policy p =
    let g = trim_prefix p (codes "member-") in
    if has_prefix g ns_prefix then cut_suffix (trim_prefix g ns_prefix) else g

-- The loop, with the groups so far, the newest last; `seen` holds the same names.
collect : List Bytes → List Bytes → List Bytes
collect groups [] = groups
collect groups (raw ∷ rest) =
    let p = trim_space raw in
    let g = group_of_policy p in
    collect
      (if is_empty p || has_prefix p (codes "role:") || is_empty g || mem g groups
        then groups
        else groups ++ g ∷ [])
      rest

unfoldable pub groups_from_policies : Bytes → List Bytes
unfolding collect sort_strings
groups_from_policies policy_str =
    if policy_str == codes "management"
    then codes "*" ∷ []
    else sort_strings (collect [] (split policy_str b','))
