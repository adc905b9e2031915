-- ===== src/Diag.antt =====
-- internal/authsvc/diag.go: the readiness report of a slot. What the host answers is a parameter.
pub mod Host
pub mod Laws
pub mod Endpoint
pub mod Calls
use abc_auth_svc.Base.{
  ℕ, zero, suc, ◌+◌, ◌-◌, ◌*◌, ◌/◌, ◌%◌, ◌^◌, ◌≤◌, ◌<◌, ◌≡◌, refl, sym, ap, ◌∙◌, subst, ◌≡⟨◌⟩◌, ◌∎,
  ◌≢◌, ◌↔◌, ◌⊎◌, inl, inr, Bool, true, false, not, ◌&&◌, ◌||◌, Option, none, some, List, [], ◌∷◌,
  ◌++◌, append-nil, append_assoc, arith, ltb, leb, nat_eq, if◌then◌else◌, nat_eq_iff, nat_eq_refl,
  Bool-cases, Option-cases, length, take, drop, all, length-append, take-append_left,
  drop-append_left, drop_past, All, All-append, All-append_left, All-append_right, Bytes, codes,
  ◌==◌, eq_of_==, ==_refl, ==_iff, is_empty, Lacks, String,
}
use abc_auth_svc.Text.{contains, join}
use abc_auth_svc.Upstreams.{Env, Server, Outcome, ok, err, Slot}
use abc_auth_svc.Http.{
  Handler, ◌>>=◌, ◌>>◌, pure, Request, Json, str, num, bool, null, require, require_operator,
  has_store,
}
use abc_auth_svc.Http.Actions.{find_slot, user_exists}
use abc_auth_svc.Manage.{claimed, by_slot_name}
use abc_auth_svc.Diag.Host.{
  DiagCheck, Part, Probes, home_path, sys_user, passed, failed_with, user_part, home_part,
  file_part,
}

pub record SlotDiagReport : Type 0 where
  pub slot : Bytes
  pub pb : List (Bytes × Json)
  pub jh : List (Bytes × Json)
  pub host : List (Bytes × List (Bytes × Json))
  pub checks : List DiagCheck
  pub verdict : Bytes
  pub remediation_hints : List Bytes

-- The report of a slot whose record could not be read.
unfoldable pub blocked : Bytes → Bytes → SlotDiagReport
unfolding failed_with
blocked name detail = record {
  slot = name;
  pb = [];
  jh = [];
  host = [];
  checks = failed_with "pb_row_present" detail ∷ [];
  verdict = codes "blocked_at: pb_row_present";
  remediation_hints = [];
}

-- The admin token of the hub: its length, the start of it, and its check.
unfoldable pub token_part : Bytes → List (Bytes × Json) × DiagCheck
unfolding passed failed_with
token_part tok =
    if is_empty tok
    then (
      (codes "admin_token_len", num 0) ∷ (codes "admin_token_prefix", str (codes "(unset)")) ∷ [],
      failed_with "jh_admin_token_real" (codes "JUPYTERHUB_API_TOKEN unset"),
    )
    else (
      (codes "admin_token_len", num (length tok))
          ∷ (codes "admin_token_prefix", str (take 8 tok))
          ∷ [],
      if contains tok (codes "REPLACE_WITH")
          then failed_with "jh_admin_token_real"
              (codes "placeholder value (install-auth-svc.sh did not substitute)")
          else if ltb (length tok) 32
          then failed_with "jh_admin_token_real" (codes "suspiciously short")
          else passed "jh_admin_token_real",
    )

abbrev pub arrow : Bytes
arrow = 226 ∷ 134 ∷ 146 ∷ []

abbrev pub ellipsis : Bytes
ellipsis = 226 ∷ 128 ∷ 166 ∷ []

abbrev pub em_dash : Bytes
em_dash = 226 ∷ 128 ∷ 148 ∷ []

-- What the hub says of the user; `none` when the client cannot be asked.
unfoldable pub hub_user_part : Probes → Bytes → Option (Outcome (Option Bool)) → Json × DiagCheck
unfolding passed failed_with
hub_user_part probes name none =
    (null, failed_with "jh_user_present" (codes "hub minter does not implement HubUserExister"))
hub_user_part probes name (some err) =
    (null, failed_with "jh_user_present" (codes "probe failed: " ++ probes.hub_error))
hub_user_part probes name (some (ok none)) =
    (null, failed_with "jh_user_present" (codes "probe inconclusive"))
hub_user_part probes name (some (ok (some true))) = (bool true, passed "jh_user_present")
hub_user_part probes name (some (ok (some false))) = (
  bool false,
  failed_with "jh_user_present" (codes "GET /users/" ++ name ++ codes " " ++ arrow ++ codes " 404"),
)

-- The names of the checks that failed, in their order.
unfoldable pub failed_checks : List DiagCheck → List Bytes
failed_checks [] = []
failed_checks (c ∷ cs) = let rest = failed_checks cs in if c.ok then rest else c.check ∷ rest

unfoldable pub verdict_of : List Bytes → Bytes
verdict_of [] = codes "ready"
verdict_of (f ∷ fs) = codes "blocked_at: " ++ join (f ∷ fs) (codes ", ")

-- `failedSet`
unfoldable pub is_failed : List Bytes → Bytes → Bool
is_failed [] name = false
is_failed (f ∷ fs) name = f == name || is_failed fs name

abbrev hint_if : Bool → Bytes → List Bytes
hint_if b hint = if b then hint ∷ [] else []

unfoldable pub hints_of : Server → Bytes → Slot → List Bytes → List Bytes
unfolding is_failed
hints_of srv name slot failed =
    let miss : String → Bool = λ check. is_failed failed (codes check) in
    let home = home_path name in
    let user = sys_user name in
    let chown = codes "chown -R " ++ user ++ b':' ∷ user ++ b' ' ∷ home in
    (if miss "workbench_home_present"
      then (codes "mkdir -p " ++ home ++ codes " && " ++ chown ++ codes " && chmod 750 " ++ home)
        ∷ []
      else hint_if (miss "workbench_home_owned_by_user") chown)
    ++ hint_if (miss "jh_user_present") (
        codes "User auto-creates on first browser login at https://workbench"
        ++ ellipsis
        ++ codes "/ (Caddy injects Remote-User="
        ++ name
        ++ codes "); OR pre-create: curl -X POST -H 'Authorization: token <admin>' "
        ++ srv.hub_api_url
        ++ codes "/users/"
        ++ name)
    ++ hint_if (miss "minio_creds_file_present" || miss "abc_config_file_present") (
        codes "bash provision-pool-user.sh "
        ++ name
        ++ codes " <minio_secret_key>  # OR POST /manage/slots/"
        ++ name
        ++ codes "/rotate to re-mint creds")
    ++ hint_if (miss "jh_admin_token_real") (
        codes "Re-run install-auth-svc.sh to substitute the JUPYTERHUB_API_TOKEN placeholder, "
        ++ codes "then alloc-restart auth-svc")
    ++ hint_if (miss "pb_state_claimed" && slot.state == codes "unclaimed") (
        codes "Slot '"
        ++ name
        ++ codes "' is unclaimed in PocketBase "
        ++ em_dash
        ++ codes " flow it through POST /slots/claim with a claim_code, "
        ++ codes "or manually update the PB record to state='claimed'")

module _ (env : Env) (srv : Server) (probes : Probes) where
  unfoldable pub checks_of : Bytes → Slot → Option (Outcome (Option Bool)) → List DiagCheck
  unfolding passed token_part hub_user_part user_part home_part file_part
  checks_of name slot probe =
      let (user, uid) = user_part probes name in
      passed "pb_row_present"
        ∷ record {
          check = codes "pb_state_claimed";
          ok = slot.state == claimed;
          detail = codes "state='" ++ slot.state ++ codes "'";
        }
        ∷ (token_part srv.hub_admin_token).1
        ∷ (hub_user_part probes name probe).1
        ∷ user.check
        ∷ (home_part probes name uid).1
      ++ (file_part probes "minio_creds_file" "/etc/jupyterhub/minio-creds/" name).check
        ∷ (file_part probes "abc_config_file" "/etc/jupyterhub/abc-configs/" name).check
        ∷ []

  -- handleSlotDiag, from line 86 on.
  unfoldable pub diagnose : Bytes → Slot → Option (Outcome (Option Bool)) → SlotDiagReport
  unfolding checks_of failed_checks verdict_of hints_of
  diagnose name slot probe =
      let checks = checks_of name slot probe in
      let failed = failed_checks checks in
      let (user, uid) = user_part probes name in
      record {
        slot = name;
        pb =
            (codes "state", str slot.state)
            ∷ (codes "minio_access_key", str slot.minio_access_key)
            ∷ (codes "group", str slot.group)
            ∷ (codes "cred_source", str slot.cred_source)
            ∷ [];
        jh =
            (codes "api_url", str srv.hub_api_url) ∷ (token_part srv.hub_admin_token).0
            ++ (codes "user_name_checked", str name)
              ∷ (codes "user_exists", (hub_user_part probes name probe).0)
              ∷ [];
        host =
            (codes "unix_user", user.fields)
            ∷ (codes "workbench_home", (home_part probes name uid).0)
            ∷ (
              codes "minio_creds_file",
              (file_part probes "minio_creds_file" "/etc/jupyterhub/minio-creds/" name).fields,
            )
            ∷ (
              codes "abc_config_file",
              (file_part probes "abc_config_file" "/etc/jupyterhub/abc-configs/" name).fields,
            )
            ∷ [];
        checks = checks;
        verdict = verdict_of failed;
        remediation_hints = hints_of srv name slot failed;
      }

  unfoldable pub probe_user : Bytes → Handler (Option (Outcome (Option Bool)))
  probe_user name =
      if srv.has_user_exister then (do o ← user_exists env name; pure (some o)) else pure none

  unfoldable pub report_on : Bytes → Outcome (Option Slot) → Handler SlotDiagReport
  unfolding probe_user blocked diagnose
  report_on name err = pure (blocked name (codes "lookup error: " ++ probes.store_error))
  report_on name (ok none) = pure (blocked name (codes "no record"))
  report_on name (ok (some slot)) = do probe ← probe_user name; pure (diagnose name slot probe)

  -- handleSlotDiag
  unfoldable pub handle_slot_diag : Request → Handler SlotDiagReport
  unfolding report_on blocked
  handle_slot_diag r = do
    require_operator srv r
    require (not (is_empty r.path_slot)) 400 (codes "missing_slot")
    if has_store srv.store
        then (do found ← find_slot env (by_slot_name r.path_slot); report_on r.path_slot found)
        else pure (blocked r.path_slot (codes "store not configured"))
