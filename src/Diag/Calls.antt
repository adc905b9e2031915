-- ===== src/Diag/Calls.antt =====
-- The readiness report: the calls that are made, by the state that they give a slot.
use abc_auth_svc.Base.{Option, none, some, Bytes}
use abc_auth_svc.Upstreams.{Env, Server, Slot, Outcome, ok, err}
use abc_auth_svc.Http.{Request, require_operator}
use abc_auth_svc.Http.Calls.{OnlyCalls, calls_rules}
use abc_auth_svc.Claim.Race.{KeepsClaims}
use abc_auth_svc.Diag.Host.{Probes}
use abc_auth_svc.Diag.{report_on, probe_user, handle_slot_diag}

module _ (env : Env) (srv : Server) (probes : Probes) where
  report_on-KeepsClaims :
      (name : Bytes) (o : Outcome (Option Slot))
      → OnlyCalls KeepsClaims (report_on env srv probes name o)
  unfolding report_on probe_user
  report_on-KeepsClaims name err = search calls_rules depth 20
  report_on-KeepsClaims name (ok none) = search calls_rules depth 20
  report_on-KeepsClaims name (ok (some slot)) = search calls_rules depth 20

  pub handle_slot_diag-KeepsClaims :
      (r : Request) → OnlyCalls KeepsClaims (handle_slot_diag env srv probes r)
  unfolding handle_slot_diag require_operator
  handle_slot_diag-KeepsClaims r = search (calls_rules, report_on-KeepsClaims) depth 20
