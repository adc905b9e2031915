-- ===== src/Diag/Host.antt =====
-- The host's part of the readiness report: the system user, the home directory and the two files.
pub mod Laws
use abc_auth_svc.Base.{
  ℕ, zero, suc, ◌+◌, ◌-◌, ◌*◌, ◌/◌, ◌%◌, ◌^◌, ◌≤◌, ◌<◌, ◌≡◌, refl, sym, ap, ◌∙◌, subst, ◌≡⟨◌⟩◌, ◌∎,
  ◌≢◌, ◌↔◌, ◌⊎◌, inl, inr, Bool, true, false, not, ◌&&◌, ◌||◌, Option, none, some, List, [], ◌∷◌,
  ◌++◌, append-nil, append_assoc, arith, ltb, leb, nat_eq, if◌then◌else◌, nat_eq_iff, nat_eq_refl,
  Bool-cases, Option-cases, length, take, drop, all, length-append, take-append_left,
  drop-append_left, drop_past, All, All-append, All-append_left, All-append_right, Bytes, codes,
  ◌==◌, eq_of_==, ==_refl, ==_iff, is_empty, Lacks, String,
}
use abc_auth_svc.Text.Decimal.{decimal}
use abc_auth_svc.Http.{Json, str, num, bool, null}

-- user.Lookup: found with its uid, an UnknownUserError, or another error with its text.
pub data UserLookup : Type 0 where
  found_user : ℕ → UserLookup
  unknown_user : UserLookup
  lookup_error : Bytes → UserLookup

-- os.Stat of the home: no directory, or one with the owner that tryStatOwnerUID finds.
pub data HomeStat : Type 0 where
  no_directory : HomeStat
  directory : Option ℕ → HomeStat

-- What the host answers, and the texts of the store's and the hub's errors.
pub record Probes : Type 0 where
  pub user_lookup : Bytes → UserLookup
  pub home_stat : Bytes → HomeStat
  pub is_file : Bytes → Bool
  pub store_error : Bytes
  pub hub_error : Bytes

pub record DiagCheck : Type 0 where
  pub check : Bytes
  pub ok : Bool
  pub detail : Bytes

-- A check, with what it adds to `host`.
pub record Part : Type 0 where
  pub fields : List (Bytes × Json)
  pub check : DiagCheck

-- `chk(name, true, "")` and `chk(name, false, detail)`
unfoldable pub passed : String → DiagCheck
passed name = record { check = codes name; ok = true; detail = [] }

unfoldable pub failed_with : String → Bytes → DiagCheck
failed_with name detail = record { check = codes name; ok = false; detail = detail }

abbrev pub sys_user : Bytes → Bytes
sys_user name = codes "jupyter-" ++ name

abbrev pub home_path : Bytes → Bytes
home_path name = codes "/data/workbench/" ++ name ++ codes "/home"

user_fields : Bytes → Bool → List (Bytes × Json) → List (Bytes × Json)
user_fields name exists rest =
    (codes "name", str (sys_user name)) ∷ (codes "exists", bool exists) ∷ rest

user_found : Bytes → UserLookup → Part × Option ℕ
unfolding user_fields passed failed_with
user_found name (found_user uid) = (
  record {
    fields = user_fields name true ((codes "uid", num uid) ∷ []);
    check = passed "unix_user_present";
  },
  some uid,
)
user_found name unknown_user = (
  record {
    fields = user_fields name false [];
    check =
        failed_with "unix_user_present"
          (codes "no system user " ++ sys_user name ++ codes " on this host");
  },
  none,
)
user_found name (lookup_error text) = (
  record {
    fields = user_fields name false ((codes "error", str text) ∷ []);
    check = failed_with "unix_user_present" (codes "lookup error: " ++ text);
  },
  none,
)

-- The system user of the slot, and its uid; `none` is the -1 of the source.
unfoldable pub user_part : Probes → Bytes → Part × Option ℕ
unfolding user_found
user_part probes name = user_found name (probes.user_lookup (sys_user name))

home_fields : Bytes → Bool → List (Bytes × Json) → List (Bytes × Json)
home_fields name exists rest =
    (codes "path", str (home_path name)) ∷ (codes "exists", bool exists) ∷ rest

-- The check that the home belongs to the user is made when both are known.
owner_checks : ℕ → Option ℕ → List DiagCheck
unfolding passed failed_with
owner_checks owner none = []
owner_checks owner (some uid) =
    (if nat_eq owner uid
      then passed "workbench_home_owned_by_user"
      else failed_with "workbench_home_owned_by_user"
          (codes "owner uid " ++ decimal owner ++ codes " != " ++ decimal uid))
    ∷ []

owner_matches : ℕ → Option ℕ → Bool
owner_matches owner none = false
owner_matches owner (some uid) = nat_eq owner uid

home_found : Bytes → Option ℕ → HomeStat → List (Bytes × Json) × List DiagCheck
unfolding home_fields owner_checks owner_matches passed failed_with
home_found name uid no_directory = (
  home_fields name false [],
  failed_with "workbench_home_present" (codes "missing: " ++ home_path name) ∷ [],
)
home_found name uid (directory none) =
    (home_fields name true ((codes "owner_uid", null) ∷ []), passed "workbench_home_present" ∷ [])
home_found name uid (directory (some owner)) = (
  home_fields name true (
      (codes "owner_uid", num owner)
      ∷ (codes "owner_matches", bool (owner_matches owner uid))
      ∷ []),
  passed "workbench_home_present" ∷ owner_checks owner uid,
)

-- The home directory of the slot.
unfoldable pub home_part : Probes → Bytes → Option ℕ → List (Bytes × Json) × List DiagCheck
unfolding home_found
home_part probes name uid = home_found name uid (probes.home_stat (home_path name))

-- One of the two files.
unfoldable pub file_part : Probes → String → String → Bytes → Part
unfolding failed_with
file_part probes label folder name =
    let path = codes folder ++ name in
    let present = probes.is_file path in
    let check = codes label ++ codes "_present" in
    record {
      fields = (codes "path", str path) ∷ (codes "exists", bool present) ∷ [];
      check =
          if present
          then record { check = check; ok = true; detail = [] }
          else record { check = check; ok = false; detail = codes "missing: " ++ path };
    }
