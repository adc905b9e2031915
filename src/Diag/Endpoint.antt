-- ===== src/Diag/Endpoint.antt =====
-- The endpoint of the readiness report: what it calls, and what `ready` has found out.
use abc_auth_svc.Base.{◌≡◌, sym, Bool, Option, none, some, ◌++◌, arith, All, Bytes, codes, eq_of_==}
use abc_auth_svc.Upstreams.{Env, Server, Outcome, ok, err, Slot, World, History, Call}
use abc_auth_svc.Http.{Request, done, require_operator, has_store}
use abc_auth_svc.Http.Calls.{all_calls, OnlyCalls, calls_rules}
use abc_auth_svc.Http.Yields.{
  Yields, Yields-pure, Yields-bind, Yields-if, Yields-ask, Yields-any, Yields-require,
}
use abc_auth_svc.Manage.{by_slot_name}
use abc_auth_svc.Diag.{SlotDiagReport, blocked, probe_user, report_on, handle_slot_diag}
use abc_auth_svc.Diag.Host.{Probes}
use abc_auth_svc.Diag.Laws.{IsReady, diagnose-IsReady}

-- Reads a slot or asks the hub for a user.
pub IsRead : Call → Type 0
IsRead (Call.find_slot filter) = Unit
IsRead (Call.user_exists user) = Unit
IsRead _ = ⊥

module _ (env : Env) (srv : Server) (probes : Probes) where
  report_on-IsRead :
      (name : Bytes) (o : Outcome (Option Slot))
      → OnlyCalls IsRead (report_on env srv probes name o)
  unfolding report_on probe_user IsRead
  report_on-IsRead name err = search calls_rules depth 20
  report_on-IsRead name (ok none) = search calls_rules depth 20
  report_on-IsRead name (ok (some slot)) = search calls_rules depth 20

  handle_slot_diag_calls : (r : Request) → OnlyCalls IsRead (handle_slot_diag env srv probes r)
  unfolding handle_slot_diag require_operator IsRead
  handle_slot_diag_calls r = search (calls_rules, report_on-IsRead) depth 20

  -- The report changes nothing: whatever the store, the hub and the host answer, its only calls look
  -- up a slot and ask the hub for a user.
  pub handle_slot_diag-IsRead :
      (r : Request) (w : World)
      → All IsRead w.history
      → All IsRead (handle_slot_diag env srv probes r w).1.history
  handle_slot_diag-IsRead r w = all_calls (handle_slot_diag_calls r) w

  module _ (r : Request) where
    -- The store has a record of the slot, and everything that its user needs was found.
    pub record IsFoundReady : Type 0 where
      pub slot : Slot
      pub probe : Option (Outcome (Option Bool))
      pub asked : History
      pub is_operator : r.header (codes "X-Operator-Token") ≡ srv.operator_token
      pub lookup : env.found_slot asked (by_slot_name r.path_slot) ≡ ok (some slot)
      pub ready : IsReady srv probes r.path_slot slot probe

    abbrev Justified : SlotDiagReport → Type 0
    Justified report = report.verdict ≡ codes "ready" → IsFoundReady

    blocked-Justified : (detail : Bytes) → Justified (blocked r.path_slot detail)
    unfolding blocked codes
    blocked-Justified detail h = absurd (ground arith)

    report_on-Justified :
        (o : Outcome (Option Slot)) (asked : History)
        → r.header (codes "X-Operator-Token") ≡ srv.operator_token
        → o ≡ env.found_slot asked (by_slot_name r.path_slot)
        → Yields Justified (report_on env srv probes r.path_slot o)
    unfolding report_on
    report_on-Justified err asked op e =
        Yields-pure _ (blocked-Justified (codes "lookup error: " ++ probes.store_error))
    report_on-Justified (ok none) asked op e = Yields-pure _ (blocked-Justified (codes "no record"))
    report_on-Justified (ok (some slot)) asked op e = Yields-bind _ _ (Yields-any _) λ probe _.
        Yields-pure _ λ h. record {
          slot = slot;
          probe = probe;
          asked = asked;
          is_operator = op;
          lookup = sym e;
          ready = (diagnose-IsReady env srv probes r.path_slot slot probe).0 h;
        }

    handle_slot_diag-Justified : Yields Justified (handle_slot_diag env srv probes r)
    unfolding handle_slot_diag require_operator
    handle_slot_diag-Justified = Yields-bind _ _ (Yields-require _ _ _) λ _ op.
        Yields-bind _ _ (Yields-any _) λ _ _.
          Yields-if (has_store srv.store) _ _
            (λ _. Yields-bind _ _ (Yields-ask _ _) λ o (h, e).
              report_on-Justified o h
                (ground (arith, eq_of_== (r.header (codes "X-Operator-Token")) srv.operator_token))
                e)
            λ _. Yields-pure _ (blocked-Justified (codes "store not configured"))

    -- A report says `ready` only to the operator, only of a slot that the store has a record of, and
    -- only if this record, the hub's token, the hub and the host have all that the user needs.
    pub handle_slot_diag-IsFoundReady :
        (w : World) (report : SlotDiagReport)
        → (handle_slot_diag env srv probes r w).0 ≡ done report
        → report.verdict ≡ codes "ready"
        → IsFoundReady
    handle_slot_diag-IsFoundReady w report e h = handle_slot_diag-Justified.at w report e h
