-- ===== src/Secrets/Laws.antt =====
-- Which Nomad variables a slot reaches.
use abc_auth_svc.Base.{◌≡◌, sym, ap, ◌∙◌, some, Bytes}
use abc_auth_svc.Crypto.{Digests}
use abc_auth_svc.Exchange.{by_opaque}
use abc_auth_svc.Upstreams.{History, Call, Env, Server, ok, Slot}
use abc_auth_svc.Http.{Request}
use abc_auth_svc.Http.Yields.{
  Yields, Yields-or_fail, Yields-present, Yields-ask, Yields-any, Yields-bind, Yields-weaken,
}
use abc_auth_svc.Secrets.{secrets_auth_slot, user_path}

module _ (env : Env) (digests : Digests) where
  -- The store has found the slot under the digest of some bearer token.
  pub IsAuthenticated : Slot → Type 0
  IsAuthenticated slot =
      (h : History) × (opaque : Bytes) × (env.found_slot h (by_opaque digests opaque)
        ≡ ok (some slot))

  -- Whatever variable is touched is under the path of a slot that has authenticated, and nothing
  -- else is written.
  pub IsOwnPath : Call → Type 0
  unfolding IsAuthenticated
  IsOwnPath (Call.var_get ns path) =
      (slot : Slot) × (key : Bytes) × IsAuthenticated slot × (path ≡ user_path slot.slot_name key)
  IsOwnPath (Call.var_put ns path v) =
      (slot : Slot) × (key : Bytes) × IsAuthenticated slot × (path ≡ user_path slot.slot_name key)
  IsOwnPath (Call.find_slot filter) = Unit
  IsOwnPath (Call.group_name id) = Unit
  IsOwnPath _ = ⊥

  module _ (srv : Server) where
    pub secrets_auth_slot-IsAuthenticated :
        (r : Request) → Yields IsAuthenticated (secrets_auth_slot env srv digests r)
    unfolding secrets_auth_slot IsAuthenticated
    secrets_auth_slot-IsAuthenticated r = Yields-bind _ _ (Yields-any _) λ opaque _.
        Yields-bind _ _ (Yields-any _) λ _ _. Yields-bind _ _ (Yields-any _) λ _ _.
          Yields-bind _ _ (Yields-ask _ _) λ found (h, e1).
            Yields-bind _ _ (Yields-or_fail _ _ _) λ slot_or_nil e2.
              Yields-weaken _ (Yields-present _ _ _) λ slot e3. (h, opaque, sym e1 ∙ e2 ∙ ap ok e3)
