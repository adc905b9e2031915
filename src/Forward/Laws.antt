-- ===== src/Forward/Laws.antt =====
-- Who passes the forward-auth check.
use abc_auth_svc.Base.{
  ◌⊎◌, ◌≡◌, refl, subst, inl, inr, false, Option, none, some, arith, if◌then◌else◌, Bool-cases,
  Option-cases, Bytes,
}
use abc_auth_svc.Crypto.{Base64, Digests}
use abc_auth_svc.Session.Sound.{IsGenuine, verify-IsGenuine}
use abc_auth_svc.Upstreams.{Env, Server, History, World}
use abc_auth_svc.Http.{Request, has_store, done}
use abc_auth_svc.Http.Yields.{
  Yields, Yields-pure, Yields-if, Yields-ask, Yields-look, Yields-weaken, Yields-bind,
}
use abc_auth_svc.Forward.{
  verifier, ValidateVerdict, allow, no_session, deny, is_blocked, slot_state, judge,
  decide_validate, handle_validate, handle_validate_optional, handle_validate_shadow,
  validate_response, optional_response, verdict_http, Response,
}

module _ (env : Env) (srv : Server) (digests : Digests) (b64 : Base64) (r : Request) where
  -- The request has a cookie with a genuine token of the user, whose slot is open.
  pub record IsAdmitted (user : Bytes) : Type 0 where
    pub token : Bytes
    pub asked : History
    pub sent : r.cookie ≡ some token
    pub genuine : IsGenuine digests b64 (verifier srv) (env.now asked) token user
    pub is_open :
        (has_store srv.store ≡ false)
        ⊎ ((h : History) × (is_blocked (env.cached_state h user) ≡ false))

  abbrev Unblocked : Bytes → Bytes → Type 0
  Unblocked user state =
      (has_store srv.store ≡ false) ⊎ ((h : History) × (state ≡ env.cached_state h user))

  slot_state-Unblocked :
      (user : Bytes) → Yields (Unblocked user) (slot_state env srv digests b64 user)
  unfolding slot_state
  slot_state-Unblocked user =
      Yields-if (has_store srv.store) _ _ (λ _. Yields-weaken _ (Yields-ask _ _) (λ _ k. inr k))
        λ e. Yields-pure _ (inl e)

  -- A verdict that admits a user, has a reason.
  Justified : ValidateVerdict → Type 0
  Justified (allow user) = IsAdmitted user
  Justified _ = Unit

  verdict-Justified :
      (user state : Bytes)
      → (is_blocked state ≡ false → IsAdmitted user)
      → Justified (if is_blocked state then deny state else allow user)
  unfolding Justified
  verdict-Justified user state h = elim (Bool-cases (is_blocked state)) [
    | inl e ↦ rw e tt
    | inr e ↦ rw e (h e)
  ]

  judge-Justified :
      (o : Option Bytes)
      → ((user : Bytes)
          → o ≡ some user
          → (has_store srv.store ≡ false)
            ⊎ ((h : History) × (is_blocked (env.cached_state h user) ≡ false))
          → IsAdmitted user)
      → Yields Justified (judge env srv digests b64 o)
  unfolding judge Justified
  judge-Justified none k = Yields-pure no_session tt
  judge-Justified (some user) k = Yields-bind _ _ (slot_state-Unblocked user) λ state u.
      Yields-pure _ (
        verdict-Justified user state
          λ e. k user refl (elim u [ inl p ↦ inl p | inr (h, q) ↦ inr (h, rw (← q) e) ]))

  decide_validate-Justified : Yields Justified (decide_validate env srv digests b64 r)
  unfolding decide_validate
  decide_validate-Justified = Yields-bind _ _ (Yields-look _) λ moment (h, e).
      judge-Justified _ λ user v o. elim (Option-cases r.cookie) [
        | inl none_sent ↦ absurd (ground arith)
        | inr (token, sent) ↦ record {
          token = token;
          asked = h;
          sent = sent;
          genuine =
              verify-IsGenuine digests b64 (verifier srv) _ token user (rw (← e) (ground arith));
          is_open = o;
        }
      ]

  abbrev pub NamesAdmitted : Response → Type 0
  NamesAdmitted reply = (user : Bytes) → reply.user ≡ some user → IsAdmitted user

  validate_response-NamesAdmitted :
      (v : ValidateVerdict)
      → Justified v
      → NamesAdmitted (validate_response env srv digests b64 r v)
  unfolding validate_response Justified
  validate_response-NamesAdmitted (allow u) j user e = subst IsAdmitted (ground arith) j
  validate_response-NamesAdmitted no_session j user e = absurd (ground arith)
  validate_response-NamesAdmitted (deny s) j user e = absurd (ground arith)

  optional_response-NamesAdmitted :
      (v : ValidateVerdict) → Justified v → NamesAdmitted (optional_response env srv digests b64 v)
  unfolding optional_response Justified
  optional_response-NamesAdmitted (allow u) j user e = subst IsAdmitted (ground arith) j
  optional_response-NamesAdmitted no_session j user e = absurd (ground arith)
  optional_response-NamesAdmitted (deny s) j user e = absurd (ground arith)

  verdict_http-NamesAdmitted :
      (v : ValidateVerdict)
      → Justified v
      → (user : Bytes) → (verdict_http env srv digests b64 v).1 ≡ some user
      → IsAdmitted user
  unfolding verdict_http Justified
  verdict_http-NamesAdmitted (allow u) j user e = subst IsAdmitted (ground arith) j
  verdict_http-NamesAdmitted no_session j user e = absurd (ground arith)
  verdict_http-NamesAdmitted (deny s) j user e = absurd (ground arith)

  handle_validate-Yields :
      Yields NamesAdmitted (handle_validate env srv digests b64 r)
      × Yields NamesAdmitted (handle_validate_optional env srv digests b64 r)
      × Yields NamesAdmitted (handle_validate_shadow env srv digests b64 r)
  unfolding handle_validate handle_validate_optional handle_validate_shadow
  handle_validate-Yields = (
    Yields-bind _ _ decide_validate-Justified
        λ v j. Yields-pure _ (validate_response-NamesAdmitted v j),
    Yields-bind _ _ decide_validate-Justified
        λ v j. Yields-pure _ (optional_response-NamesAdmitted v j),
    Yields-bind _ _ decide_validate-Justified λ v j. Yields-pure _ (verdict_http-NamesAdmitted v j),
  )

  -- When one of the three endpoints replies with a user, to the proxy and so to what it protects,
  -- the cookie holds a genuine token of that user, whose slot was found neither suspended nor
  -- expired (where there is a store).
  pub handle_validate-IsAdmitted :
      (w : World) (reply : Response) (user : Bytes)
      → ((handle_validate env srv digests b64 r w).0 ≡ done reply)
        ⊎ (((handle_validate_optional env srv digests b64 r w).0 ≡ done reply)
            ⊎ ((handle_validate_shadow env srv digests b64 r w).0 ≡ done reply))
      → reply.user ≡ some user
      → IsAdmitted user
  handle_validate-IsAdmitted w reply user (inl e) = handle_validate-Yields.0.at w reply e user
  handle_validate-IsAdmitted w reply user (inr (inl e)) = handle_validate-Yields.1.at w reply e user
  handle_validate-IsAdmitted w reply user (inr (inr e)) = handle_validate-Yields.2.at w reply e user
