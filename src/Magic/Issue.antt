-- ===== src/Magic/Issue.antt =====
-- For whom `POST /auth/cli-token` stores a code.
use abc_auth_svc.Base.{
  ℕ, ◌+◌, ◌≡◌, refl, sym, ap, ◌∙◌, ◌⊎◌, inl, inr, false, not, some, List, ◌∷◌, Bytes, codes,
}
use abc_auth_svc.Text.{trim_space, trim_prefix}
use abc_auth_svc.Crypto.{hex_encode}
use abc_auth_svc.Forward.{is_blocked}
use abc_auth_svc.Upstreams.{
  Env, Server, World, History, Call, Outcome, ok, err, MagicCode, NomadTokenSelf,
}
use abc_auth_svc.Http.{◌>>=◌, pure, Body, empty, malformed, decoded, has_store, ask, look}
use abc_auth_svc.Http.Yields.{
  Yields, Yields-pure, Yields-ask, Yields-any, Yields-bind, Yields-if, Yields-or_fail,
  Yields-present, Yields-require, Yields-weaken, not-true,
}
use abc_auth_svc.Http.Codes.{
  KeepsCodes, codes_rules, StoresOnly, StoresOnly-then, StoresOnly-before, IsStored,
}
use abc_auth_svc.Base.{is_empty, ltb, if◌then◌else◌}
use abc_auth_svc.Http.Yields.{Yields-err_json}
use abc_auth_svc.Http.{or_fail, err_json}
use abc_auth_svc.Magic.{
  CliTokenResponse, code_ttl, CliTokenRequest, cli_token_request_of, issue_code, minio_extra, gate,
  handle_cli_token_post,
}

module _ (env : Env) (srv : Server) where
  -- The entry is for the user that the posted token names, whose slot is open if there is a store,
  -- and it lasts from `now` for the configured time, or for a minute where none is configured.
  pub record IsIntrospected (sent : Body CliTokenRequest) (now : ℕ) (entry : MagicCode)
      : Type 0 where
    pub req : CliTokenRequest
    pub asked : History
    pub info : NomadTokenSelf
    pub is_sent : sent ≡ decoded req
    pub nonempty : is_empty (trim_space req.nomad_token) ≡ false
    pub known : env.token_self asked (trim_space req.nomad_token) ≡ ok (some info)
    pub named : entry.username ≡ trim_prefix (trim_space info.name) (codes "pool-")
    pub lasting : entry.expiry ≡ now + (if ltb 0 srv.cli_token_ttl then srv.cli_token_ttl else 60)
    pub is_open :
        (has_store srv.store ≡ false)
        ⊎ ((h : History) × (is_blocked (env.cached_state h entry.username) ≡ false))

  request_of-sent :
      (sent : Body CliTokenRequest) → Yields (λ req. sent ≡ decoded req) (cli_token_request_of sent)
  unfolding cli_token_request_of
  request_of-sent empty = Yields-err_json _ _
  request_of-sent malformed = Yields-err_json _ _
  request_of-sent (decoded req) = Yields-pure _ refl

  abbrev Unblocked : Bytes → Type 0
  Unblocked user =
      (has_store srv.store ≡ false)
      ⊎ ((h : History) × (is_blocked (env.cached_state h user) ≡ false))

  gate-Unblocked : (user : Bytes) → Yields (λ _. Unblocked user) (gate env srv user)
  unfolding gate
  gate-Unblocked user =
      Yields-if (has_store srv.store) _ _
        (λ _. Yields-bind _ _ (Yields-ask _ _) λ state (h, e).
          Yields-weaken _ (Yields-require (not (is_blocked state)) _ _)
            λ _ passed. inr (h, rw (← e) (not-true (is_blocked state) passed)))
        (λ e. Yields-pure tt (inl e))

  gate-KeepsCodes : (user : Bytes) → KeepsCodes (gate env srv user)
  unfolding gate
  gate-KeepsCodes user = search codes_rules depth 20

  minio_extra-KeepsCodes :
      (portal user password token : Bytes)
      → KeepsCodes (minio_extra env srv portal user password token)
  unfolding minio_extra
  minio_extra-KeepsCodes portal user password token = search codes_rules depth 20

  request_of-KeepsCodes : (sent : Body CliTokenRequest) → KeepsCodes (cli_token_request_of sent)
  unfolding cli_token_request_of
  request_of-KeepsCodes empty = search codes_rules
  request_of-KeepsCodes malformed = search codes_rules
  request_of-KeepsCodes (decoded req) = search codes_rules

  Outcome-cases : {A : Type 0} (o : Outcome A) → (o ≡ err) ⊎ ((a : A) × (o ≡ ok a))
  Outcome-cases err = inl refl
  Outcome-cases (ok a) = inr (a, refl)

  issue_code-StoresOnly :
      (Q : ℕ → MagicCode → Type 0) (user next : Bytes) (ttl : ℕ) (extra : List (Bytes × Bytes))
      → ((now : ℕ)
          → Q now (record { username = user; expiry = now + ttl; next_url = next; extra = extra }))
      → StoresOnly env.now Q (issue_code env srv user next ttl extra)
  unfolding issue_code ◌>>=◌ ask look pure
  issue_code-StoresOnly Q user next ttl extra q = record {
    at = λ w.
        let moment = env.now (Call.random ∷ w.history) in
        elim (Outcome-cases (env.random_bytes w.history)) [
          | inl e ↦ inl (rw e refl)
          | inr (buf, e) ↦ inr (
            hex_encode buf,
            record { username = user; expiry = moment + ttl; next_url = next; extra = extra },
            rw e refl,
            rw e (q moment),
          )
        ];
  }

  answer-still :
      (issued : Outcome Bytes) (w : World)
      → ((or_fail issued 500 (codes "code mint failed") >>= λ code.
            pure {A = CliTokenResponse} (record { code = code; ttl = code_ttl env srv }))
          w).1
        ≡ w
  unfolding ◌>>=◌ or_fail pure err_json
  answer-still (ok code) w = refl
  answer-still err w = refl

  cli_token_stores :
      (sent : Body CliTokenRequest)
      → StoresOnly env.now (IsIntrospected sent) (handle_cli_token_post env srv sent)
  unfolding handle_cli_token_post
  cli_token_stores sent =
      StoresOnly-then _ _ (request_of-KeepsCodes sent) (request_of-sent sent) λ req posted.
        StoresOnly-then _ _ (search codes_rules) (Yields-require _ _ _) λ _ nonempty.
          StoresOnly-then _ _ (search codes_rules) (Yields-ask _ _) λ looked_up (h, e1).
            StoresOnly-then _ _ (search codes_rules) (Yields-or_fail _ _ _) λ info_or_nil e2.
              StoresOnly-then _ _ (search codes_rules) (Yields-present _ _ _) λ info e3.
                StoresOnly-then _ _ (search codes_rules) (Yields-any _) λ _ _.
                  StoresOnly-then _ _ (gate-KeepsCodes _) (gate-Unblocked _) λ _ o.
                    StoresOnly-then _ _ (minio_extra-KeepsCodes _ _ _ _) (Yields-any _) λ minio _.
                      StoresOnly-before _ _
                        (issue_code-StoresOnly _ _ _ _ _ λ now. record {
                          req = req;
                          asked = h;
                          info = info;
                          is_sent = posted;
                          nonempty = not-true (is_empty (trim_space req.nomad_token)) nonempty;
                          known = sym e1 ∙ e2 ∙ ap ok e3;
                          named = refl;
                          lasting = refl;
                          is_open = o;
                        })
                        answer-still

  -- Whatever is posted, and whether or not it succeeds, the codes that have not expired at the end
  -- are as they were but for at most one that is issued then: for the user whom an answer about
  -- the posted Nomad token names, found neither suspended nor expired (where there is a store), and
  -- for the configured time, or for a minute where none is configured.
  pub handle_cli_token_post-IsStored :
      (sent : Body CliTokenRequest) (w : World)
      → IsStored env.now
          (IsIntrospected sent)
          w.magic
          (handle_cli_token_post env srv sent w).1.magic
          (handle_cli_token_post env srv sent w).1.history
  handle_cli_token_post-IsStored sent w = (cli_token_stores sent).at w
