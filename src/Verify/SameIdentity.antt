-- ===== src/Verify/SameIdentity.antt =====
-- What `/auth/me` and `/verify` say of one token.
use abc_auth_svc.Base.{
  ◌⊎◌, ◌≡◌, refl, sym, ap, ◌∙◌, Option, none, some, arith, inl, inr, ◌≢◌, [], ◌∷◌, List, Bytes,
}
use abc_auth_svc.Upstreams.{Env, History, Outcome, ok, err, NomadTokenSelf, NomadRole, World}
use abc_auth_svc.Http.{Request, nomad_token_from_request, done}
use abc_auth_svc.Http.Yields.{
  Yields, Yields-pure, Yields-or_fail, Yields-present, Yields-ask, Yields-any, Yields-bind,
}
use abc_auth_svc.Identity.{IdentityHeaders, nomad_identity, nomad_identity_headers}
use abc_auth_svc.Identity.Agreement.{FirstRoleIsNamed, forget_type, nomad_identity_agree}
use abc_auth_svc.Verify.{verified, verify_reply, handle_verify_nomad}
use abc_auth_svc.Login.{handle_auth_me, Me}

named_role : (name : Bytes) → (name ≢ []) ⊎ ¬ (name ≢ [])
named_role [] = inr λ h. h refl
named_role (c ∷ s) = inl λ p. ground arith

module _ (env : Env) (r : Request) where
  -- The lookup of the request's token has answered with this information.
  pub IsCallersInfo : NomadTokenSelf → Type 0
  IsCallersInfo info =
      (h : History) × (env.token_self h (nomad_token_from_request r) ≡ ok (some info))

  headers_of :
      (o : Outcome (Option NomadTokenSelf)) (h : IdentityHeaders)
      → verify_reply o ≡ verified h
      → (info : NomadTokenSelf) × (o ≡ ok (some info)) × (h ≡ nomad_identity_headers info)
  unfolding verify_reply
  headers_of (ok (some info)) h e = (info, refl, ground arith)
  headers_of (ok none) h e = absurd (ground arith)
  headers_of err h e = absurd (ground arith)

  named_or_not : (roles : List NomadRole) → FirstRoleIsNamed roles ⊎ ¬ FirstRoleIsNamed roles
  named_or_not [] = inl tt
  named_or_not (role ∷ roles) = named_role role.name

  -- What `/auth/me` says of the user, and what the headers of `/verify` say of everything.
  handle_auth_me-Yields :
      Yields
        (λ me.
          (info : NomadTokenSelf) × IsCallersInfo info × (me.user ≡ (nomad_identity info).user))
        (handle_auth_me env r)
  unfolding handle_auth_me IsCallersInfo
  handle_auth_me-Yields = Yields-bind _ _ (Yields-any _) λ _ _.
      Yields-bind _ _ (Yields-ask _ _) λ looked_up (h, e1).
        Yields-bind _ _ (Yields-or_fail _ _ _) λ info_or_nil e2.
          Yields-bind _ _ (Yields-present _ _ _)
            λ info e3. Yields-pure _ (info, (h, sym e1 ∙ e2 ∙ ap ok e3), refl)

  handle_verify_nomad-Yields :
      Yields
        (λ reply.
          (o : Outcome (Option NomadTokenSelf)) × (reply ≡ verify_reply o)
          × ((h : History) × (o ≡ env.token_self h (nomad_token_from_request r))))
        (handle_verify_nomad env r)
  unfolding handle_verify_nomad
  handle_verify_nomad-Yields =
      Yields-bind _ _ (Yields-ask _ _) λ looked_up k. Yields-pure _ (looked_up, refl, k)

  -- If `/auth/me` succeeds, it names the user of an answer about the request's Nomad token. If
  -- `/verify` accepts the token, its headers come from such an answer too, and say, but for the
  -- token's type, what `/auth/me` derives from it, unless the token's first role has no name.
  pub handle_verify_nomad-agrees :
      (w : World) (me : Me) (headers : IdentityHeaders)
      → (handle_auth_me env r w).0 ≡ done me
      → (handle_verify_nomad env r w).0 ≡ done (verified headers)
      → ((info : NomadTokenSelf) × IsCallersInfo info × (me.user ≡ (nomad_identity info).user))
        × ((info : NomadTokenSelf) × IsCallersInfo info
            × ((forget_type headers ≡ nomad_identity info) ⊎ ¬ FirstRoleIsNamed info.roles))
  unfolding IsCallersInfo
  handle_verify_nomad-agrees w me headers e e' =
      let (o, e1, (h, e2)) = handle_verify_nomad-Yields.at w (verified headers) e' in
      let (info, e3, e4) = headers_of o headers (sym e1) in
      (
        handle_auth_me-Yields.at w me e,
        (
          info,
          (h, sym e2 ∙ e3),
          elim (named_or_not info.roles) [
            | inl n ↦ inl (ap forget_type e4 ∙ nomad_identity_agree info n)
            | inr n ↦ inr n
          ],
        ),
      )
