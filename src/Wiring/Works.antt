-- ===== src/Wiring/Works.antt =====
-- With the mocks the flows of the service work from end to end.
use abc_auth_svc.Base.{
  ◌≡◌, refl, false, ◌||◌, [], ◌∷◌, ◌++◌, if◌then◌else◌, Bytes, codes, ◌==◌, is_empty, Bool-cases,
  inl, inr,
}
use abc_auth_svc.Text.{trim_space, contains}
use abc_auth_svc.Crypto.{Base64, Digests}
use abc_auth_svc.Session.{make}
use abc_auth_svc.Upstreams.{Env, Server, World}
use abc_auth_svc.Http.{done, Request, ◌>>=◌, pure, has_store, nomad_token_from_request}
use abc_auth_svc.Forward.{set_session_cookie, verifier, is_blocked}
use abc_auth_svc.Login.{form, redirect, safe_next, handle_login_post}
use abc_auth_svc.Text.{has_prefix, trim_prefix}
use abc_auth_svc.Http.{empty}
use abc_auth_svc.Workbench.{handle_workbench_token, checked_ttl, jupyter_user}
use abc_auth_svc.Wiring.Mocks.{mocked, mock_slot}

module _ (env : Env) (srv : Server) (digests : Digests) (b64 : Base64) where
  abbrev by_user : Request → Bytes
  by_user r = codes "minio_access_key='" ++ trim_space (r.form (codes "username")) ++ codes "'"

  -- With the mocks every login succeeds, for whatever user name and password that are not blank,
  -- unless the password is `wrong`; and it fails with `wrong`.
  pub mocked-IsLoggedIn :
      (r : Request) (w : World)
      → is_empty (trim_space (r.form (codes "username"))) ≡ false
      → is_empty (trim_space (r.form (codes "password"))) ≡ false
      → (handle_login_post (mocked env) srv digests b64 r w).0
        ≡ done (
            if trim_space (r.form (codes "password")) == codes "wrong"
            then form (safe_next (r.form (codes "next"))) (codes "Invalid username or password.")
            else redirect
                (set_session_cookie srv (
                  make digests b64
                    (verifier srv)
                    (env.now (handle_login_post (mocked env) srv digests b64 r w).1.history)
                    (trim_space (r.form (codes "username")))
                    srv.session_ttl))
                (safe_next (r.form (codes "next"))))
  unfolding handle_login_post ◌>>=◌ pure mocked mock_slot ◌==◌ codes
  mocked-IsLoggedIn r w named given =
      elim (Bool-cases (trim_space (r.form (codes "password")) == codes "wrong")) [
        | inl wrong ↦ rw (named, given, wrong) refl
        | inr right ↦ elim (Bool-cases (has_store srv.store)) [
          | inr none_there ↦ rw (named, given, right, none_there) refl
          | inl store ↦
              elim (Bool-cases (
                contains (by_user r) (codes "opaque_token_hash=")
                || contains (by_user r) (codes "slot_name="))) [
                  | inl found ↦ rw (named, given, right, store, found) refl
                  | inr missing ↦ rw (named, given, right, store, missing) refl
                ]
        ]
      ]

module _ (env : Env) (srv : Server) where
  abbrev mock_user : Bytes
  mock_user = codes "calm_dassie"

  -- `abc workbench connect` with the mocks: every Nomad token but `invalid` gets the hub token of
  -- the one slot, with no body sent.
  pub mocked-IsMinted :
      (r : Request) (w : World)
      → is_empty (nomad_token_from_request r) ≡ false
      → (nomad_token_from_request r == codes "invalid") ≡ false
      → (handle_workbench_token (mocked env) srv r empty w).0
        ≡ done (record {
          token = codes "mock-jh-token-for-calm_dassie";
          id = codes "mock-1";
          expires_at = codes "2026-06-11T00:00:00Z";
          scopes = codes "access:servers!user=calm_dassie" ∷ [];
          note = codes "abc-cli-calm_dassie";
          slot = mock_user;
          hub_url = srv.hub_public_url;
        })
  unfolding handle_workbench_token ◌>>=◌ pure mocked ◌==◌ codes is_blocked checked_ttl jupyter_user
      trim_space has_prefix trim_prefix
  mocked-IsMinted r w given valid = elim (Bool-cases (has_store srv.store)) [
    | inl store ↦ rw (given, valid, store) refl
    | inr none_there ↦ rw (given, valid, none_there) refl
  ]
