-- ===== src/Diag/Host/Laws.antt =====
-- When the host's checks pass.
use abc_auth_svc.Base.{
  ℕ, ◌≡◌, refl, ap, ◌↔◌, ◌⊎◌, inl, inr, true, none, some, ◌++◌, arith, nat_eq, nat_eq_refl,
  Bool-cases, All, Bytes, codes, String,
}
use abc_auth_svc.Diag.Host.{
  UserLookup, HomeStat, Probes, DiagCheck, found_user, unknown_user, lookup_error, no_directory,
  directory, home_path, sys_user, user_found, home_found, user_part, home_part, file_part,
  owner_checks, passed, failed_with,
}

abbrev pub IsOk : DiagCheck → Type 0
IsOk c = c.ok ≡ true

-- The system user is there, and the home directory belongs to it, as far as the owner is known.
abbrev pub IsHoused : UserLookup → HomeStat → Type 0
IsHoused l st =
    (uid : ℕ) × (l ≡ found_user uid) × ((st ≡ directory none) ⊎ (st ≡ directory (some uid)))

owner_checks-IsOk : (owner uid : ℕ) → All IsOk (owner_checks owner (some uid)) → owner ≡ uid
unfolding owner_checks passed failed_with
owner_checks-IsOk owner uid h = elim (Bool-cases (nat_eq owner uid)) [
  | inl e ↦ ground arith
  | inr e ↦ let q = rw e at h in absurd (ground arith)
]

owner_checks_refl : (uid : ℕ) → All IsOk (owner_checks uid (some uid))
unfolding owner_checks passed failed_with
owner_checks_refl uid = rw (nat_eq_refl uid) (refl, tt)

housed :
    (name : Bytes) (l : UserLookup) (st : HomeStat)
    → IsOk (user_found name l).0.check
    → All IsOk (home_found name (user_found name l).1 st).1
    → IsHoused l st
unfolding user_found home_found failed_with
housed name (found_user uid) no_directory u (h, _) = absurd (ground arith)
housed name (found_user uid) (directory none) u h = (uid, refl, inl refl)
housed name (found_user uid) (directory (some owner)) u (_, h) =
    (uid, refl, inr (ap (λ o. directory (some o)) (owner_checks-IsOk owner uid h)))
housed name unknown_user st u h = absurd (ground arith)
housed name (lookup_error text) st u h = absurd (ground arith)

pub IsHoused-of_checks :
    (probes : Probes) (name : Bytes)
    → IsOk (user_part probes name).0.check
    → All IsOk (home_part probes name (user_part probes name).1).1
    → IsHoused (probes.user_lookup (sys_user name)) (probes.home_stat (home_path name))
unfolding user_part home_part
IsHoused-of_checks probes name u h = housed name _ _ u h

pub user_part-IsOk :
    (probes : Probes) (name : Bytes)
    → IsHoused (probes.user_lookup (sys_user name)) (probes.home_stat (home_path name))
    → IsOk (user_part probes name).0.check
unfolding user_part user_found passed
user_part-IsOk probes name (uid, l, st) = rw (user_part, l) refl

pub home_part-IsOk :
    (probes : Probes) (name : Bytes)
    → IsHoused (probes.user_lookup (sys_user name)) (probes.home_stat (home_path name))
    → All IsOk (home_part probes name (user_part probes name).1).1
unfolding user_part home_part user_found home_found passed
home_part-IsOk probes name (uid, l, inl st) = rw (l, st) (refl, tt)
home_part-IsOk probes name (uid, l, inr st) = rw (l, st) (refl, owner_checks_refl uid)

pub file_part-IsOk :
    (probes : Probes) (label folder : String) (name : Bytes)
    → IsOk (file_part probes label folder name).check
      ↔ (probes.is_file (codes folder ++ name) ≡ true)
unfolding file_part
file_part-IsOk probes label folder name =
    elim (Bool-cases (probes.is_file (codes folder ++ name))) [
      | inl e ↦ (λ _. e, λ _. rw e refl)
      | inr e ↦ (λ h. let q = rw e at h in absurd (ground arith), λ h. absurd (ground arith))
    ]
