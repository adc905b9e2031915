-- ===== src/Clients/Hub.antt =====
-- HubClient (jupyterhub.go).
use abc_auth_svc.Base.{
  ℕ, Bool, true, false, not, ◌||◌, Option, none, some, List, [], ◌∷◌, ◌++◌, nat_eq, if◌then◌else◌,
  take, Bytes, codes, is_empty,
}
use abc_auth_svc.Text.{trim_space}
use abc_auth_svc.Text.Query.{path_escape}
use abc_auth_svc.Http.{Json, str, num}
use abc_auth_svc.Upstreams.{
  Outcome, ok, err, JhToken, MintResult, minted, refused, hub_http_error, hub_unreachable,
}
use abc_auth_svc.Clients.{
  ClientRequest, ClientResponse, Send, is_success, trim_right_slashes, read_limit, ◌>>=◌, ◌>>◌,
  test,
}

pub record HubJson : Type 0 where
  pub payload_json : List (Bytes × Json) → Outcome Bytes
  pub token_of : Bytes → Outcome JhToken

pub record HubClient : Type 0 where
  pub api_url : Bytes
  pub admin_token : Bytes

abbrev pub hub_request : HubClient → Bytes → Bytes → Option Bytes → ClientRequest
hub_request c method path body = record {
  method = method;
  url = trim_right_slashes c.api_url ++ path;
  auth = some (codes "Authorization", codes "token " ++ c.admin_token);
  body = body;
}

abbrev pub user_path : Bytes → Bytes
user_path user = codes "/users/" ++ path_escape user

-- `payload` of MintUserToken: an empty note and a time of zero are left out.
unfoldable pub mint_payload : Bytes → ℕ → List (Bytes × Json)
mint_payload note expires_in =
    (if is_empty note then [] else (codes "note", str note) ∷ [])
    ++ (if nat_eq expires_in 0 then [] else (codes "expires_in", num expires_in) ∷ [])

module _ (json : HubJson) (send : Send) (c : HubClient) where
  -- The reply of MintUserToken; an error that is no HubError is handled as an unreachable hub is.
  unfoldable pub mint_reply : Outcome ClientResponse → MintResult
  mint_reply err = refused hub_unreachable
  mint_reply (ok resp) =
      if is_success resp.status
      then elim (json.token_of (take read_limit resp.body)) [
        | err ↦ refused hub_unreachable
        | ok t ↦ minted t
      ]
      else refused (hub_http_error resp.status)

  -- MintUserToken
  unfoldable pub mint_user_token : Bytes → Bytes → ℕ → MintResult
  unfolding mint_reply mint_payload
  mint_user_token user note expires_in =
      if is_empty (trim_space c.admin_token)
      then refused hub_unreachable
      else elim (json.payload_json (mint_payload note expires_in)) [
        | err ↦ refused hub_unreachable
        | ok body ↦
            mint_reply
              (send (hub_request c (codes "POST") (user_path user ++ codes "/tokens") (some body)))
      ]

  -- StopServer: stopped, stopping, or not running.
  unfoldable pub stop_server : Bytes → Outcome (Unit {0})
  stop_server user = do
    test (not (is_empty (trim_space c.admin_token)))
    resp ← send (hub_request c (codes "DELETE") (user_path user ++ codes "/server") none)
    test (
        nat_eq resp.status 200
        || nat_eq resp.status 202
        || nat_eq resp.status 204
        || nat_eq resp.status 404)

  -- UserExists
  unfoldable pub user_exists : Bytes → Outcome Bool
  user_exists user = do
    test (not (is_empty (trim_space c.admin_token)))
    resp ← send (hub_request c (codes "GET") (user_path user) none)
    if nat_eq resp.status 200 then ok true else if nat_eq resp.status 404 then ok false else err
