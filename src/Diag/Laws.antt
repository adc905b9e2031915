-- ===== src/Diag/Laws.antt =====
-- What the verdict of the readiness report says.
use abc_auth_svc.Base.{
  eq_of_==, ==_iff, All-append_right, All-append_left, All-append, ltb, ◌≤◌, ◌≡◌, refl, ◌↔◌, inl,
  inr, Bool, true, false, Option, none, some, List, [], ◌∷◌, ◌++◌, arith, Bool-cases, length, All,
  Bytes, codes,
}
use abc_auth_svc.Text.{contains}
use abc_auth_svc.Upstreams.{Env, Server, Outcome, ok, err, Slot}
use abc_auth_svc.Manage.{claimed}
use abc_auth_svc.Diag.{token_part, hub_user_part, failed_checks, verdict_of, checks_of, diagnose}
use abc_auth_svc.Diag.Host.{
  DiagCheck, Probes, home_path, sys_user, passed, failed_with, user_part, home_part,
}
use abc_auth_svc.Diag.Host.Laws.{
  IsOk, IsHoused, IsHoused-of_checks, user_part-IsOk, home_part-IsOk, file_part-IsOk,
}

-- A token of at least 32 bytes that is not the placeholder of the installer.
abbrev pub IsReal : Bytes → Type 0
IsReal tok = (32 ≤ length tok) × (contains tok (codes "REPLACE_WITH") ≡ false)

-- Everything that the slot's user needs.
pub record IsReady (srv : Server) (probes : Probes) (name : Bytes) (slot : Slot)
    (probe : Option (Outcome (Option Bool))) : Type 0 where
  pub is_claimed : slot.state ≡ claimed
  pub real_token : IsReal srv.hub_admin_token
  pub in_hub : probe ≡ some (ok (some true))
  pub housed : IsHoused (probes.user_lookup (sys_user name)) (probes.home_stat (home_path name))
  pub has_creds : probes.is_file (codes "/etc/jupyterhub/minio-creds/" ++ name) ≡ true
  pub has_config : probes.is_file (codes "/etc/jupyterhub/abc-configs/" ++ name) ≡ true

token_part-IsOk : (tok : Bytes) → IsOk (token_part tok).1 ↔ IsReal tok
unfolding token_part passed failed_with
token_part-IsOk [] = (λ h. absurd (ground arith), λ h. absurd (ground arith))
token_part-IsOk (c ∷ s) = elim (Bool-cases (contains (c ∷ s) (codes "REPLACE_WITH"))) [
  | inl e ↦ (λ h. let q = rw e at h in absurd (ground arith), λ h. absurd (ground arith))
  | inr e ↦ elim (Bool-cases (ltb (length (c ∷ s)) 32)) [
    | inl l ↦ (λ h. let q = rw (e, l) at h in absurd (ground arith), λ h. absurd (ground arith))
    | inr l ↦ (λ h. (ground arith, e), λ h. rw (e, l) refl)
  ]
]

hub_user_part-IsOk :
    (probes : Probes) (name : Bytes) (probe : Option (Outcome (Option Bool)))
    → IsOk (hub_user_part probes name probe).1 ↔ (probe ≡ some (ok (some true)))
unfolding hub_user_part passed failed_with
hub_user_part-IsOk probes name none = (λ h. absurd (ground arith), λ h. absurd (ground arith))
hub_user_part-IsOk probes name (some err) = (λ h. absurd (ground arith), λ h. absurd (ground arith))
hub_user_part-IsOk probes name (some (ok none)) =
    (λ h. absurd (ground arith), λ h. absurd (ground arith))
hub_user_part-IsOk probes name (some (ok (some true))) = (λ h. refl, λ h. refl)
hub_user_part-IsOk probes name (some (ok (some false))) =
    (λ h. absurd (ground arith), λ h. absurd (ground arith))

verdict_of-IsReady : (failed : List Bytes) → (verdict_of failed ≡ codes "ready") ↔ (failed ≡ [])
unfolding verdict_of codes
verdict_of-IsReady [] = (λ h. refl, λ h. refl)
verdict_of-IsReady (f ∷ fs) = (λ h. absurd (ground arith), λ h. absurd (ground arith))

failed_checks_nil : (cs : List DiagCheck) → (failed_checks cs ≡ []) ↔ All IsOk cs
unfolding failed_checks
failed_checks_nil [] = (λ h. tt, λ h. refl)
failed_checks_nil (c ∷ cs) = elim (Bool-cases c.ok) [
  | inl e ↦ (
    λ h. (e, (failed_checks_nil cs).0 (rw e at h)),
    λ (_, hs). rw e ((failed_checks_nil cs).1 hs),
  )
  | inr e ↦ (λ h. let q = rw e at h in absurd (ground arith), λ (h, _). absurd (ground arith))
]

module _ (env : Env) (srv : Server) (probes : Probes) (name : Bytes) (slot : Slot)
    (probe : Option (Outcome (Option Bool))) where
  checks_of-IsReady :
      All IsOk (checks_of env srv probes name slot probe) ↔ IsReady srv probes name slot probe
  unfolding checks_of passed
  checks_of-IsReady =
      let home = (home_part probes name (user_part probes name).1).1 in
      let creds = file_part-IsOk probes "minio_creds_file" "/etc/jupyterhub/minio-creds/" name in
      let config = file_part-IsOk probes "abc_config_file" "/etc/jupyterhub/abc-configs/" name in
      (
        λ (_, (s, (t, (hub, (user, rest))))).
            let files = All-append_right IsOk home _ rest in
            record {
              is_claimed = eq_of_== slot.state claimed s;
              real_token = (token_part-IsOk srv.hub_admin_token).0 t;
              in_hub = (hub_user_part-IsOk probes name probe).0 hub;
              housed = IsHoused-of_checks probes name user (All-append_left IsOk home _ rest);
              has_creds = creds.0 files.0;
              has_config = config.0 files.1.0;
            },
        λ r. (
          refl,
          (
            (==_iff slot.state claimed).1 r.is_claimed,
            (
              (token_part-IsOk srv.hub_admin_token).1 r.real_token,
              (
                (hub_user_part-IsOk probes name probe).1 r.in_hub,
                (
                  user_part-IsOk probes name r.housed,
                  All-append IsOk home _ (home_part-IsOk probes name r.housed)
                      (creds.1 r.has_creds, (config.1 r.has_config, tt)),
                ),
              ),
            ),
          ),
        ),
      )

  -- The verdict is `ready` exactly when the slot is claimed, the hub's admin token is real, the hub
  -- knows the user, the system user is there with a home directory that is not known to belong to
  -- another, and both files of the slot are there.
  pub diagnose-IsReady :
      ((diagnose env srv probes name slot probe).verdict ≡ codes "ready")
      ↔ IsReady srv probes name slot probe
  unfolding diagnose
  diagnose-IsReady =
      let failed = failed_checks (checks_of env srv probes name slot probe) in
      let checks = failed_checks_nil (checks_of env srv probes name slot probe) in
      (
        λ h. checks_of-IsReady.0 (checks.0 ((verdict_of-IsReady failed).0 h)),
        λ r. (verdict_of-IsReady failed).1 (checks.1 (checks_of-IsReady.1 r)),
      )
