-- ===== src/Magic/Calls.antt =====
-- The one-time codes: the calls that are made, by the state that they give a slot.
use abc_auth_svc.Base.{ℕ, inl, inr, Option, none, some, List, Bytes}
use abc_auth_svc.Crypto.{Base64, Digests}
use abc_auth_svc.Upstreams.{Env, Server, MagicCode}
use abc_auth_svc.Http.{Request, Body, empty, malformed, decoded}
use abc_auth_svc.Http.Calls.{OnlyCalls, calls_rules, OnlyCalls-bind, OnlyCalls-pure}
use abc_auth_svc.Claim.Race.{KeepsClaims}
use abc_auth_svc.Magic.{
  CliTokenRequest, cli_token_request_of, issue_code, redeem_code, minio_extra, gate,
  handle_cli_token_post, redeem_entry, handle_auth_redeem, console_token, minio_login_entry,
  handle_auth_minio_login,
}
use abc_auth_svc.Upstreams.{Outcome-cases}

cli_token_request_of-KeepsClaims :
    (sent : Body CliTokenRequest) → OnlyCalls KeepsClaims (cli_token_request_of sent)
unfolding cli_token_request_of
cli_token_request_of-KeepsClaims empty = search calls_rules
cli_token_request_of-KeepsClaims malformed = search calls_rules
cli_token_request_of-KeepsClaims (decoded req) = search calls_rules

module _ (env : Env) (srv : Server) where
  redeem_code-KeepsClaims : (code : Bytes) → OnlyCalls KeepsClaims (redeem_code env srv code)
  unfolding redeem_code
  redeem_code-KeepsClaims code =
      OnlyCalls-bind _ _ (search calls_rules) λ moment. record { at = λ I closed w i. i }

  issue_code-KeepsClaims :
      (username next : Bytes) (ttl : ℕ) (extra : List (Bytes × Bytes))
      → OnlyCalls KeepsClaims (issue_code env srv username next ttl extra)
  unfolding issue_code
  issue_code-KeepsClaims username next ttl extra = OnlyCalls-bind _ _ (search calls_rules) λ drawn.
      OnlyCalls-bind _ _ (search calls_rules) λ moment. elim (Outcome-cases drawn) [
        | inl e ↦ rw e (OnlyCalls-pure _)
        | inr (buf, e) ↦ rw e (record { at = λ I closed w i. i })
      ]

  minio_extra-KeepsClaims :
      (portal username password token : Bytes)
      → OnlyCalls KeepsClaims (minio_extra env srv portal username password token)
  unfolding minio_extra
  minio_extra-KeepsClaims portal username password token = search calls_rules depth 20

  gate-KeepsClaims : (username : Bytes) → OnlyCalls KeepsClaims (gate env srv username)
  unfolding gate
  gate-KeepsClaims username = search calls_rules depth 20

  pub handle_cli_token_post-KeepsClaims :
      (sent : Body CliTokenRequest) → OnlyCalls KeepsClaims (handle_cli_token_post env srv sent)
  unfolding handle_cli_token_post
  handle_cli_token_post-KeepsClaims sent =
      search
        (
          calls_rules, cli_token_request_of-KeepsClaims, issue_code-KeepsClaims,
          minio_extra-KeepsClaims, gate-KeepsClaims,
        )
        depth 40

  console_token-KeepsClaims :
      (entry : MagicCode) → OnlyCalls KeepsClaims (console_token env srv entry)
  unfolding console_token
  console_token-KeepsClaims entry = search calls_rules depth 20

  minio_login_entry-KeepsClaims :
      (o : Option MagicCode) → OnlyCalls KeepsClaims (minio_login_entry env srv o)
  unfolding minio_login_entry
  minio_login_entry-KeepsClaims none = search calls_rules
  minio_login_entry-KeepsClaims (some entry) =
      search (calls_rules, console_token-KeepsClaims) depth 20

  pub handle_auth_minio_login-KeepsClaims :
      (r : Request) → OnlyCalls KeepsClaims (handle_auth_minio_login env srv r)
  unfolding handle_auth_minio_login
  handle_auth_minio_login-KeepsClaims r =
      search (calls_rules, redeem_code-KeepsClaims, minio_login_entry-KeepsClaims) depth 20

  module _ (digests : Digests) (b64 : Base64) where
    redeem_entry-KeepsClaims :
        (r : Request) (o : Option MagicCode)
        → OnlyCalls KeepsClaims (redeem_entry env srv digests b64 r o)
    unfolding redeem_entry
    redeem_entry-KeepsClaims r none = search calls_rules
    redeem_entry-KeepsClaims r (some entry) = search calls_rules depth 20

    pub handle_auth_redeem-KeepsClaims :
        (r : Request) → OnlyCalls KeepsClaims (handle_auth_redeem env srv digests b64 r)
    unfolding handle_auth_redeem
    handle_auth_redeem-KeepsClaims r =
        search (calls_rules, redeem_code-KeepsClaims, redeem_entry-KeepsClaims) depth 20
