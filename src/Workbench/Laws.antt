-- ===== src/Workbench/Laws.antt =====
-- Which hub tokens are minted, for whom and for how long.
use abc_auth_svc.Base.{
  ◌⊎◌, ℕ, ◌≤◌, ◌≡◌, refl, sym, ap, ◌∙◌, false, not, some, arith, ltb, nat_eq, All, Bytes, inr, inl,
}
use abc_auth_svc.Text.{trim_space}
use abc_auth_svc.Text.Decimal.{positive, negative}
use abc_auth_svc.Upstreams.{
  World, History, Call, Env, Server, ok, NomadTokenSelf, hub_http_error, hub_unreachable,
  MintResult, minted, refused,
}
use abc_auth_svc.Http.{
  Request, Body, empty, malformed, decoded, has_store, nomad_token_from_request,
}
use abc_auth_svc.Http.Calls.{all_calls, OnlyCalls, OnlyCalls-ask, OnlyCalls-bind, calls_rules}
use abc_auth_svc.Http.Yields.{
  Yields, Yields-pure, Yields-err_json, Yields-if, Yields-or_fail, Yields-present, Yields-ask,
  Yields-require, Yields-bind, Yields-weaken, not-true, OnlyCalls-then,
}
use abc_auth_svc.Forward.{is_blocked}
use abc_auth_svc.Workbench.{
  max_ttl, ExpiresIn, absent, not_integer, seconds, MintRequest, jupyter_user, mint_request_of,
  checked_ttl, diagnose, mint_outcome, gate, mint_for, handle_workbench_token,
}

InBounds : ℕ → Type 0
InBounds ttl = (1 ≤ ttl) × (ttl ≤ max_ttl)

checked_ttl-InBounds : (e : ExpiresIn) → Yields InBounds (checked_ttl e)
unfolding checked_ttl InBounds
checked_ttl-InBounds absent = Yields-pure _ (omega arith, omega arith)
checked_ttl-InBounds not_integer = Yields-err_json _ _
checked_ttl-InBounds (seconds (negative n)) = Yields-err_json _ _
checked_ttl-InBounds (seconds (positive n)) =
    Yields-if (nat_eq n 0) _ _ (λ _. Yields-err_json _ _)
      λ p.
        Yields-if (ltb max_ttl n) _ _ (λ _. Yields-err_json _ _)
          λ q. Yields-pure n (ground arith, ground arith)

module _ (env : Env) (srv : Server) (r : Request) where
  -- The caller's token was found to be that of the user, whose slot is open if there is a store.
  pub record IsCaller (user : Bytes) : Type 0 where
    pub asked : History
    pub info : NomadTokenSelf
    pub own : env.token_self asked (nomad_token_from_request r) ≡ ok (some info)
    pub named : user ≡ jupyter_user (trim_space info.name)
    pub is_open :
        (has_store srv.store ≡ false)
        ⊎ ((h : History) × (is_blocked (env.cached_state h user) ≡ false))

  -- A mint is for the caller, and for at least a second and at most 30 days.
  pub IsPermitted : Call → Type 0
  unfolding InBounds
  IsPermitted (Call.mint_user_token user note ttl) = IsCaller user × InBounds ttl
  IsPermitted _ = Unit

  abbrev Unblocked : Bytes → Type 0
  Unblocked user =
      (has_store srv.store ≡ false)
      ⊎ ((h : History) × (is_blocked (env.cached_state h user) ≡ false))

  gate-Unblocked : (user : Bytes) → Yields (λ _. Unblocked user) (gate env srv user)
  unfolding gate
  gate-Unblocked user =
      Yields-if (has_store srv.store) _ _
        (λ _. Yields-bind _ _ (Yields-ask _ _) λ state (h, e).
          Yields-weaken _ (Yields-require (not (is_blocked state)) _ _)
            λ _ passed. inr (h, rw (← e) (not-true (is_blocked state) passed)))
        (λ e. Yields-pure tt (inl e))

  gate_calls : (user : Bytes) → OnlyCalls IsPermitted (gate env srv user)
  unfolding gate IsPermitted
  gate_calls user = search calls_rules depth 20

  diagnose_calls :
      (user : Bytes) (status : ℕ) → OnlyCalls IsPermitted (diagnose env srv user status)
  unfolding diagnose IsPermitted
  diagnose_calls user status = search calls_rules depth 20

  mint_outcome_calls :
      (user note : Bytes) (m : MintResult)
      → OnlyCalls IsPermitted (mint_outcome env srv user note m)
  unfolding mint_outcome
  mint_outcome_calls user note (minted tok) = search calls_rules
  mint_outcome_calls user note (refused (hub_http_error status)) =
      search (calls_rules, diagnose_calls) depth 20
  mint_outcome_calls user note (refused hub_unreachable) = search calls_rules

  checked_ttl_calls : (e : ExpiresIn) → OnlyCalls IsPermitted (checked_ttl e)
  unfolding checked_ttl
  checked_ttl_calls absent = search calls_rules
  checked_ttl_calls not_integer = search calls_rules
  checked_ttl_calls (seconds (negative n)) = search calls_rules
  checked_ttl_calls (seconds (positive n)) = search calls_rules depth 20

  mint_for_calls :
      (user : Bytes) (req : MintRequest)
      → IsCaller user
      → OnlyCalls IsPermitted (mint_for env srv user req)
  unfolding mint_for IsPermitted
  mint_for_calls user req caller =
      OnlyCalls-then _ _ (checked_ttl_calls req.expires_in) (checked_ttl-InBounds req.expires_in)
        λ ttl bounds.
          OnlyCalls-bind _ _ (OnlyCalls-ask _ _ (caller, bounds)) λ m. mint_outcome_calls user _ m

  mint_request_of_calls : (sent : Body MintRequest) → OnlyCalls IsPermitted (mint_request_of sent)
  unfolding mint_request_of
  mint_request_of_calls empty = search calls_rules
  mint_request_of_calls malformed = search calls_rules
  mint_request_of_calls (decoded req) = search calls_rules

  handle_workbench_token_calls :
      (sent : Body MintRequest) → OnlyCalls IsPermitted (handle_workbench_token env srv r sent)
  unfolding handle_workbench_token IsPermitted
  handle_workbench_token_calls sent = OnlyCalls-bind _ _ (search calls_rules) λ _.
      OnlyCalls-then _ _ (search calls_rules) (Yields-ask _ _) λ looked_up (h, e1).
        OnlyCalls-then _ _ (search calls_rules) (Yields-or_fail _ _ _) λ info_or_nil e2.
          OnlyCalls-then _ _ (search calls_rules) (Yields-present _ _ _) λ info e3.
            OnlyCalls-bind _ _ (search calls_rules) λ _.
              OnlyCalls-then _ _ (gate_calls _) (gate-Unblocked _) λ _ o.
                OnlyCalls-bind _ _ (mint_request_of_calls sent) λ req.
                  mint_for_calls _ req (record {
                    asked = h;
                    info = info;
                    own = sym e1 ∙ e2 ∙ ap ok e3;
                    named = refl;
                    is_open = o;
                  })

  -- Every hub token that is asked for, whether or not the request succeeds, is for the user that
  -- the caller's Nomad token names, is valid for 1 to 2592000 seconds, and was asked for after that
  -- user's slot was found neither suspended nor expired (where there is a store).
  pub handle_workbench_token-IsPermitted :
      (sent : Body MintRequest) (w : World)
      → All IsPermitted w.history
      → All IsPermitted (handle_workbench_token env srv r sent w).1.history
  handle_workbench_token-IsPermitted sent w = all_calls (handle_workbench_token_calls sent) w
