-- ===== src/Manage/Guard.antt =====
-- What the operator's handlers do for anyone else.
use abc_auth_svc.Base.{
  ◌≡◌, refl, ◌≢◌, inl, inr, Bool, false, not, ◌&&◌, [], ◌∷◌, arith, Bool-cases, Bytes, codes, ◌==◌,
  eq_of_==, is_empty,
}
use abc_auth_svc.Crypto.{Digests, Base64}
use abc_auth_svc.KekWrap.{Aead}
use abc_auth_svc.Upstreams.{Env, Server, World, Slot}
use abc_auth_svc.Http.{
  Request, fail, str, require, require_operator, Handler, ◌>>=◌, ◌>>◌, Body, err_json,
}
use abc_auth_svc.Manage.{operator_slot}
use abc_auth_svc.Manage.CredSource.{handle_cred_source}
use abc_auth_svc.Manage.Listing.{handle_manage_list_slots, handle_manage_get_slot}
use abc_auth_svc.Manage.Rotate.{handle_manage_rotate}
use abc_auth_svc.Manage.Lifecycle.{handle_manage_suspend, handle_manage_reactivate}
use abc_auth_svc.Keys.{handle_keys_mint}
use abc_auth_svc.Diag.{handle_slot_diag}
use abc_auth_svc.Diag.Host.{Probes}
use abc_auth_svc.LogLevel.{get_log_level, post_log_level}

-- The token of the request is the server's, and that one is not empty.
abbrev pub IsOperator : Server → Request → Type 0
IsOperator srv r =
    (srv.operator_token ≢ []) × (r.header (codes "X-Operator-Token") ≡ srv.operator_token)

-- A 401, and nothing has been called or changed.
abbrev pub Refuses : {A : Type 0} → Handler A → Type 0
Refuses {A} m = (w : World) → m w ≡ (fail 401 ((codes "error", str (codes "unauthorized")) ∷ []), w)

-- An empty token of the server admits nobody, whatever is sent.
operator_test : (t h : Bytes) → ¬ ((t ≢ []) × (h ≡ t)) → (not (is_empty t) && h == t) ≡ false
operator_test [] h n = refl
operator_test (c ∷ t) h n = elim (Bool-cases (h == (c ∷ t))) [
  | inl e ↦ absurd (n (λ p. ground arith, eq_of_== h (c ∷ t) e))
  | inr e ↦ e
]

module _ (srv : Server) (r : Request) where
  require_operator-Refuses :
      {A : Type 0} (m : Handler A) → ¬ IsOperator srv r → Refuses (require_operator srv r >> m)
  unfolding require_operator ◌>>=◌ require err_json
  require_operator-Refuses m h w =
      rw (operator_test srv.operator_token (r.header (codes "X-Operator-Token")) h) refl

  module _ (env : Env) where
    operator_slot-Refuses :
        {A : Type 0} (accepts : Bytes → Bool) (refusal : Bytes) (f : Slot → Handler A)
        → ¬ IsOperator srv r
        → Refuses (operator_slot env srv r accepts refusal >>= f)
    unfolding operator_slot require_operator ◌>>=◌ require err_json
    operator_slot-Refuses accepts refusal f h w =
        rw (operator_test srv.operator_token (r.header (codes "X-Operator-Token")) h) refl

    -- Without the operator's token, and for every token while the server has none, each of these ten
    -- handlers replies 401 `unauthorized`, calls nothing and changes nothing.
    pub operator_handlers-Refuse :
        (digests : Digests) (b64 : Base64) (aead : Aead) (sent : Body Bytes) (probes : Probes)
        → ¬ IsOperator srv r
        → Refuses (handle_manage_rotate env srv r)
          × Refuses (handle_manage_suspend env srv r)
          × Refuses (handle_manage_reactivate env srv r)
          × Refuses (handle_cred_source env srv digests b64 r sent)
          × Refuses (handle_manage_list_slots env srv r)
          × Refuses (handle_manage_get_slot env srv r)
          × Refuses (handle_keys_mint env srv digests aead r sent)
          × Refuses (get_log_level srv r)
          × Refuses (post_log_level srv r sent)
          × Refuses (handle_slot_diag env srv probes r)
    unfolding handle_manage_rotate handle_manage_suspend handle_manage_reactivate handle_cred_source
        handle_manage_list_slots handle_manage_get_slot handle_keys_mint get_log_level
        post_log_level handle_slot_diag
    operator_handlers-Refuse digests b64 aead sent probes h = (
      operator_slot-Refuses _ _ _ h,
      operator_slot-Refuses _ _ _ h,
      operator_slot-Refuses _ _ _ h,
      require_operator-Refuses _ h,
      require_operator-Refuses _ h,
      require_operator-Refuses _ h,
      require_operator-Refuses _ h,
      require_operator-Refuses _ h,
      require_operator-Refuses _ h,
      require_operator-Refuses _ h,
    )
