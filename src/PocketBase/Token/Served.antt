-- ===== src/PocketBase/Token/Served.antt =====
-- What a reply of `do` stands for.
use abc_auth_svc.Base.{
  ◌≤◌, ◌<◌, ◌+◌, ◌&&◌, Bool-cases, take, ltb, leb, Option, not, ◌≡◌, refl, ◌⊎◌, inl, inr, Bool,
  true, false, List, [], ◌∷◌, arith, nat_eq, if◌then◌else◌, nat_eq_iff, Bytes, is_empty,
}
use abc_auth_svc.Http.Yields.{not-true}
use abc_auth_svc.Upstreams.{Outcome-cases, ok, err}
use abc_auth_svc.PocketBase.{
  attempt, checked, do_last, do_request, Method, auth_token, api_request, token_margin, body_limit,
  Net, PbConfig, PbClient, clear_token, keep_token, send, HttpRequest, HttpResponse, authenticate,
  auth_request,
}
use abc_auth_svc.PocketBase.Token.{
  IsIssued, IsIssued-later, Bearers, IsAuthorised, Triple, Triple-bind, Triple-pick, Triple-if,
  Triple-pure, Triple-weaken, Triple-post, Triple-IsAuthorised, IsAnswer,
}

of_test : (b : Bool) (u : Unit {0}) → (if b then ok tt else err) ≡ ok u → b ≡ true
of_test true u h = refl
of_test false u h = absurd (ground arith)

module _ (net : Net) (cfg : PbConfig) where
  abbrev MaySend : HttpRequest → PbClient → Type 0
  MaySend req c =
      IsAuthorised net cfg c × ((req ≡ auth_request net cfg) ⊎ IsIssued net cfg c.sent req.bearer)

  kept-later :
      {sent : List HttpRequest} {tok : Bytes} (req : HttpRequest)
      → (tok ≡ []) ⊎ IsIssued net cfg sent tok
      → (tok ≡ []) ⊎ IsIssued net cfg (req ∷ sent) tok
  kept-later req (inl e) = inl e
  kept-later req (inr i) = inr (IsIssued-later net cfg req i)

  send-IsAuthorised :
      (req : HttpRequest) (c : PbClient)
      → MaySend req c
      → IsAuthorised net cfg (send net cfg req c).1
  unfolding send Bearers
  send-IsAuthorised req c (a, j) = record { bearers = (j, a.bearers); kept = kept-later req a.kept }

  send-Triple :
      (req : HttpRequest) → Triple net cfg (MaySend req) (send net cfg req) (IsAnswer net cfg req)
  unfolding send
  send-Triple req = record {
    at = λ c p. elim (Outcome-cases (net.answer c.sent req)) [
      | inl e ↦ rw e (send-IsAuthorised req c p)
      | inr (resp, e) ↦ rw e (record {
        earlier = c.sent;
        split = refl;
        reply = e;
        known = p.1;
        authorised = send-IsAuthorised req c p;
      })
    ];
  }

  -- A token in hand.
  abbrev HasToken : Bytes → PbClient → Type 0
  HasToken tok c = IsAuthorised net cfg c × IsIssued net cfg c.sent tok

  keep_token-Triple : (tok : Bytes) → Triple net cfg (HasToken tok) (keep_token tok) HasToken
  unfolding keep_token
  keep_token-Triple tok = record {
    at = λ c (a, i). (record { bearers = a.bearers; kept = inr i }, i);
  }

  clear_token-Triple : Triple net cfg (IsAuthorised net cfg) clear_token (λ _. IsAuthorised net cfg)
  unfolding clear_token
  clear_token-Triple = record { at = λ c a. record { bearers = a.bearers; kept = inl refl } }

  login-Triple :
      (resp : HttpResponse) (tok : Bytes)
      → resp.status ≡ 200
      → net.token_of resp.body ≡ ok tok
      → is_empty tok ≡ false
      → Triple net cfg (IsAnswer net cfg (auth_request net cfg) resp) (keep_token tok) HasToken
  login-Triple resp tok status given nonempty = record {
    at = λ c a. (keep_token-Triple tok).at c (
      a.authorised,
      record {
        later = [];
        earlier = a.earlier;
        resp = resp;
        split = a.split;
        reply = a.reply;
        accepted = status;
        given = given;
        nonempty = nonempty;
      },
    );
  }

  authenticate-Triple : Triple net cfg (IsAuthorised net cfg) (authenticate net cfg) HasToken
  unfolding authenticate
  authenticate-Triple =
      Triple-pick net cfg _ _ (λ c a. a)
        λ _ _.
          Triple-bind net cfg (IsAnswer net cfg (auth_request net cfg)) _ _
            (Triple-weaken net cfg _ (λ c a. (a, inl refl)) (send-Triple _))
            λ resp.
              Triple-pick net cfg _ _ (λ c a. a.authorised)
                λ u status.
                  Triple-pick net cfg _ _ (λ c a. a.authorised)
                    λ tok given.
                      Triple-pick net cfg _ _ (λ c a. a.authorised)
                        λ v nonempty.
                          login-Triple resp tok ((nat_eq_iff _ _).0 (of_test _ u status)) given
                            (not-true _ (of_test _ v nonempty))

  auth_token-Triple : Triple net cfg (IsAuthorised net cfg) (auth_token net cfg) HasToken
  unfolding auth_token
  auth_token-Triple = record {
    at = λ c a.
        elim (Bool-cases (not (is_empty c.token) && ltb (c.clock + token_margin) c.token_exp)) [
          | inl e ↦ elim a.kept [ inl nil ↦ absurd (ground arith) | inr i ↦ rw e (a, i) ]
          | inr e ↦ rw e (authenticate-Triple.at c a)
        ];
  }

  module _ (method : Method) (path : Bytes) (body : Option Bytes) where
    -- The answer to this request, with a token that was issued.
    abbrev pub IsReply : HttpResponse → PbClient → Type 0
    IsReply resp c =
        (tok : Bytes) × IsAnswer net cfg (api_request net cfg method path body tok) resp c

    -- The newest request is this one, PocketBase answered it with a status of the 200s, and the
    -- value is the body of that answer.
    pub record IsServed (b : Bytes) (c : PbClient) : Type 0 where
      pub tok : Bytes
      pub resp : HttpResponse
      pub answer : IsAnswer net cfg (api_request net cfg method path body tok) resp c
      pub status_bounds : (200 ≤ resp.status) × (resp.status < 300)
      pub value : b ≡ take body_limit resp.body

    attempt-Triple :
        Triple net cfg (IsAuthorised net cfg) (attempt net cfg method path body) IsReply
    unfolding attempt
    attempt-Triple = Triple-bind net cfg HasToken _ _ auth_token-Triple λ tok.
        Triple-pick net cfg _ _ (λ c (a, i). a)
          λ _ _.
            Triple-post net cfg (IsAnswer net cfg (api_request net cfg method path body tok)) _
              (λ resp c x. (tok, x))
              (Triple-weaken net cfg _ (λ c (a, i). (a, inr i)) (send-Triple _))

    checked-Triple :
        (resp : HttpResponse) → Triple net cfg (IsReply resp) (checked net cfg resp) IsServed
    unfolding checked
    checked-Triple resp =
        Triple-pick net cfg _ _ (λ c (tok, a). a.authorised)
          λ u good.
            let in_range = of_test (leb 200 resp.status && ltb resp.status 300) u good in
            Triple-pure net cfg _ λ c (tok, a). record {
              tok = tok;
              resp = resp;
              answer = a;
              status_bounds = ground arith;
              value = refl;
            }

    do_last-Triple :
        Triple net cfg (IsAuthorised net cfg) (do_last net cfg method path body) IsServed
    unfolding do_last
    do_last-Triple = Triple-bind net cfg IsReply _ _ attempt-Triple checked-Triple

    do_request-Triple :
        Triple net cfg (IsAuthorised net cfg) (do_request net cfg method path body) IsServed
    unfolding do_request
    do_request-Triple = Triple-bind net cfg IsReply _ _ attempt-Triple λ resp.
        Triple-if net cfg (nat_eq resp.status 401)
          (Triple-bind net cfg (λ _. IsAuthorised net cfg) _ _
            (Triple-weaken net cfg _ (λ c (tok, a). a.authorised) clear_token-Triple)
            (λ _. do_last-Triple))
          (checked-Triple resp)

    pub do_request-IsAuthorised :
        (c : PbClient)
        → IsAuthorised net cfg c
        → IsAuthorised net cfg (do_request net cfg method path body c).1
    do_request-IsAuthorised =
        Triple-IsAuthorised net cfg IsServed _ (λ b c s. s.answer.authorised) do_request-Triple

    -- What `do` returns is the body of a reply in the 200s to the very request that it was asked
    -- for, the newest one sent, which carried a token that PocketBase had issued.
    pub do_request-IsServed :
        (c c' : PbClient) (b : Bytes)
        → IsAuthorised net cfg c
        → do_request net cfg method path body c ≡ (ok b, c')
        → IsServed b c'
    do_request-IsServed c c' b a e = rw e at (do_request-Triple.at c a)
