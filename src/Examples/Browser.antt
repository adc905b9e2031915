-- ===== src/Examples/Browser.antt =====
-- The theorems on sessions, logins and codes, applied in the small world.
use abc_auth_svc.Routes.{
  endpoint_of, routes, choose, matches, fits, accepts, post_verb, manage_suspend_endpoint,
}
use abc_auth_svc.Routes.Laws.{shared_roots, shared_roots-AreShared}
use abc_auth_svc.Base.{
  ◌<◌, ◌≡◌, refl, ◌⊎◌, inl, none, some, [], ◌∷◌, arith, ltb, if◌then◌else◌, All, Bytes, codes, ◌==◌,
}
use abc_auth_svc.Text.{has_prefix, trim_space}
use abc_auth_svc.Text.Decimal.{max_int64, positive, negative}
use abc_auth_svc.Crypto.{Base64, Digests}
use abc_auth_svc.Session.{SessionVerifier, make, verify}
use abc_auth_svc.Session.RoundTrip.{verify-make}
use abc_auth_svc.Session.Sound.{IsGenuine, verify-IsGenuine}
use abc_auth_svc.Upstreams.{MagicCode, World}
use abc_auth_svc.Http.{Reply, done, fail, Body, decoded, empty, Request, has_store}
use abc_auth_svc.Http.Codes.{IsStored}
use abc_auth_svc.Forward.{Response, handle_validate, verifier, set_session_cookie, session_cookie}
use abc_auth_svc.Forward.Laws.{IsAdmitted, handle_validate-IsAdmitted}
use abc_auth_svc.Login.{safe_next, handle_login_post, LoginReply, redirect}
use abc_auth_svc.Login.Laws.{IsGoodReply, handle_login_post-IsGoodReply}
use abc_auth_svc.Magic.{
  CliTokenRequest, handle_cli_token_post, handle_auth_redeem, handle_auth_minio_login, Redirect, to,
  with_cookie,
}
use abc_auth_svc.Magic.Codes.{redeem, issue}
use abc_auth_svc.Magic.Issue.{IsIntrospected, handle_cli_token_post-IsStored}
use abc_auth_svc.Magic.Laws.{IsRedemption, handle_auth_redeem-IsRedemption, handle_auth_redeem_once}
use abc_auth_svc.Scenario.{ann, key, token, plain, short_digests, env, srv, world, request}
use abc_auth_svc.Base.{true}
use abc_auth_svc.Base.{List}

ann-IsByte : All (λ c. c < 256) ann
unfolding codes
ann-IsByte = (omega arith, (omega arith, (omega arith, tt)))

verify-make_example :
    verify short_digests plain key 4600 (make short_digests plain key 1000 ann 3600) ≡ some ann
unfolding codes
verify-make_example =
    verify-make short_digests plain key 1000 4600 3600 ann (λ p. ground arith) ann-IsByte
      (omega arith) (omega arith)

token_verifies : verify short_digests plain key 4600 token ≡ some ann
unfolding codes
token_verifies =
    verify-make short_digests plain key 1000 4600 3600 ann (λ p. ground arith) ann-IsByte
      (omega arith) (omega arith)

verify-IsGenuine_example : IsGenuine short_digests plain key 4600 token ann
verify-IsGenuine_example = verify-IsGenuine short_digests plain key 4600 token ann token_verifies

abbrev signed_in : Request
signed_in = record request { cookie = some token }

abbrev welcome : Response
welcome = record { status = 200; location = none; user = some ann; set_cookie = none }

handle_validate-IsAdmitted_example : IsAdmitted env srv short_digests plain signed_in ann
unfolding handle_validate abc_auth_svc.Http.◌>>=◌ abc_auth_svc.Forward.decide_validate verify codes
    make abc_auth_svc.Session.decode_b64_url abc_auth_svc.Text.last_index_byte
    abc_auth_svc.Text.Decimal.decimal abc_auth_svc.Session.hmac_hex abc_auth_svc.Crypto.hex_encode
    abc_auth_svc.Text.Decimal.parse_int abc_auth_svc.Text.Decimal.exceeds ◌==◌
    abc_auth_svc.Forward.is_blocked
handle_validate-IsAdmitted_example =
    handle_validate-IsAdmitted env srv short_digests plain signed_in world welcome ann (inl refl)
      refl

abbrev welcomed : LoginReply
welcomed =
    redirect (set_session_cookie srv (make short_digests plain (verifier srv) 1000 ann 3600))
      (codes "/")

handle_login_post-IsGoodReply_example :
    IsGoodReply env srv short_digests plain
      (trim_space ann)
      (trim_space ann)
      []
      welcomed
      (handle_login_post env srv short_digests plain request world).1.history
unfolding handle_login_post trim_space codes abc_auth_svc.Http.◌>>=◌ ◌==◌ safe_next has_prefix
    abc_auth_svc.Text.Query.query_unescape
handle_login_post-IsGoodReply_example =
    handle_login_post-IsGoodReply env srv short_digests plain request world welcomed refl

abbrev entry : MagicCode
entry = record { username = ann; expiry = 2000; next_url = codes "/x"; extra = [] }

abbrev issued : World
issued = record world { magic = issue (codes "c1") entry 900 [] }

abbrev sent_code : Body CliTokenRequest
sent_code = decoded (record {
  nomad_token = codes "t";
  next = codes "/x";
  portal = codes "minio";
  minio_password = [];
})

handle_cli_token_post-IsStored_example :
    IsStored env.now
      (IsIntrospected env srv sent_code)
      []
      (handle_cli_token_post env srv sent_code world).1.magic
      (handle_cli_token_post env srv sent_code world).1.history
handle_cli_token_post-IsStored_example = handle_cli_token_post-IsStored env srv sent_code world

handle_auth_redeem-IsRedemption_example :
    IsRedemption env srv short_digests plain issued (codes "c1") (
      with_cookie
        (set_session_cookie srv (make short_digests plain (verifier srv) 1000 ann 3600))
        (codes "/x"))
unfolding codes trim_space handle_auth_redeem abc_auth_svc.Http.◌>>=◌ redeem
    abc_auth_svc.Base.Assoc.find issue ◌==◌ abc_auth_svc.Magic.field abc_auth_svc.Text.contains
    abc_auth_svc.Magic.is_trusted_redirect safe_next abc_auth_svc.Text.Query.query_unescape
handle_auth_redeem-IsRedemption_example =
    handle_auth_redeem-IsRedemption env srv short_digests plain request issued (codes "c1")
      (with_cookie (set_session_cookie srv (make short_digests plain (verifier srv) 1000 ann 3600))
        (codes "/x"))
      refl refl refl

handle_auth_redeem_once_example :
    (handle_auth_redeem env srv short_digests plain request
      (handle_auth_redeem env srv short_digests plain request issued).1).0
    ≡ done (to (codes "/auth/login?error=link_expired"))
unfolding codes trim_space
handle_auth_redeem_once_example =
    handle_auth_redeem_once env srv short_digests plain request request issued (codes "c1") refl
      refl refl

-- The rest of the path of a suspension.
abbrev suspension : List Bytes
suspension = codes "slots" ∷ ann ∷ codes "suspend" ∷ []

shared_roots-AreShared_example :
    All
      (λ root.
        endpoint_of post_verb (codes "auth" ∷ root ∷ suspension)
        ≡ endpoint_of post_verb (root ∷ suspension))
      shared_roots
shared_roots-AreShared_example = shared_roots-AreShared post_verb suspension

suspension_route : endpoint_of post_verb (codes "manage" ∷ suspension) ≡ manage_suspend_endpoint
unfolding endpoint_of routes choose matches fits accepts codes ◌==◌
suspension_route = refl
