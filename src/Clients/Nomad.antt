-- ===== src/Clients/Nomad.antt =====
-- NomadClient (nomad.go) and AdminClient (nomad_admin.go).
pub mod Variables
use abc_auth_svc.Base.{
  ℕ, zero, suc, ◌+◌, ◌-◌, ◌*◌, ◌/◌, ◌%◌, ◌^◌, ◌≤◌, ◌<◌, ◌≡◌, refl, sym, ap, ◌∙◌, subst, ◌≡⟨◌⟩◌, ◌∎,
  ◌≢◌, ◌↔◌, ◌⊎◌, inl, inr, Bool, true, false, not, ◌&&◌, ◌||◌, Option, none, some, List, [], ◌∷◌,
  ◌++◌, append-nil, append_assoc, arith, ltb, leb, nat_eq, if◌then◌else◌, nat_eq_iff, nat_eq_refl,
  Bool-cases, Option-cases, length, take, drop, all, length-append, take-append_left,
  drop-append_left, drop_past, All, All-append, All-append_left, All-append_right, Bytes, codes,
  ◌==◌, eq_of_==, ==_refl, ==_iff, is_empty, Lacks, String, find,
}
use abc_auth_svc.Text.{trim_space}
use abc_auth_svc.Text.Query.{query_escape, path_escape}
use abc_auth_svc.Upstreams.{
  Outcome, ok, err, NomadTokenSelf, NomadRole, VarResult, value, not_found, failed,
}
use abc_auth_svc.Clients.{
  ClientRequest, ClientResponse, Send, is_success, trim_right_slashes, read_limit, ◌>>=◌, ◌>>◌,
  test,
}

-- The JSON that the client writes and reads.
pub record NomadJson : Type 0 where
  pub var_json : Bytes → Bytes → Bytes → Outcome Bytes
  pub items_of : Bytes → Outcome (List (Bytes × Bytes))
  pub new_token_json : Bytes → List Bytes → Outcome Bytes
  pub new_token_of : Bytes → Outcome (Bytes × Bytes)
  pub roles_of : Bytes → Outcome (List NomadRole)
  pub self_of : Bytes → Outcome NomadTokenSelf

pub record AdminClient : Type 0 where
  pub addr : Bytes
  pub admin_token : Bytes

-- The request of `do`.
abbrev pub admin_request : AdminClient → Bytes → Bytes → Option Bytes → ClientRequest
admin_request c method path body = record {
  method = method;
  url = trim_right_slashes c.addr ++ path;
  auth = some (codes "X-Nomad-Token", c.admin_token);
  body = body;
}

-- `/v1/var/<path>?namespace=<namespace>`
unfoldable pub var_path : Bytes → Bytes → Bytes
var_path namespace path =
    codes "/v1/var/" ++ path_escape path ++ (b'?' ∷ codes "namespace=" ++ query_escape namespace)

-- The result of VarGet, from the decoded items on.
unfoldable pub var_of : Outcome (List (Bytes × Bytes)) → VarResult
var_of err = failed
var_of (ok items) = elim (find (codes "value") items) [ none ↦ not_found | some v ↦ value v ]

unfoldable pub role_named : Bytes → List NomadRole → Bytes
role_named name [] = []
role_named name (r ∷ rs) = if r.name == name then r.id else role_named name rs

module _ (json : NomadJson) (send : Send) (c : AdminClient) where
  -- LookupTokenSelf; every failure is a 401 of the handler.
  unfoldable pub lookup_token_self : Bytes → Outcome NomadTokenSelf
  lookup_token_self token = do
    test (not (is_empty (trim_space token)))
    resp ← send (record {
      method = codes "GET";
      url = trim_right_slashes c.addr ++ codes "/v1/acl/token/self";
      auth = some (codes "X-Nomad-Token", token);
      body = none;
    })
    test (nat_eq resp.status 200)
    json.self_of resp.body

  -- do: the body of the reply, and its status.
  unfoldable pub do_admin : Bytes → Bytes → Option Bytes → Outcome (Bytes × ℕ)
  do_admin method path body = do
    resp ← send (admin_request c method path body)
    ok (take read_limit resp.body, resp.status)

  unfoldable pub var_reply : Bytes × ℕ → VarResult
  unfolding var_of
  var_reply (rb, status) =
      if nat_eq status 404
      then not_found
      else if is_success status
      then var_of (json.items_of rb)
      else failed

  -- VarGet
  unfoldable pub var_get : Bytes → Bytes → VarResult
  unfolding var_reply
  var_get namespace path = elim (do_admin (codes "GET") (var_path namespace path) none) [
    | err ↦ failed
    | ok reply ↦ var_reply reply
  ]

  -- VarPut
  unfoldable pub var_put : Bytes → Bytes → Bytes → Outcome (Unit {0})
  var_put namespace path v = do
    body ← json.var_json path namespace v
    reply ← do_admin (codes "PUT") (var_path namespace path) (some body)
    test (is_success reply.1)

  -- CreateToken: the accessor and the secret.
  unfoldable pub create_token : Bytes → Bytes → Outcome (Bytes × Bytes)
  create_token slot_name role_id = do
    body ←
        json.new_token_json (codes "pool-" ++ slot_name)
          (if is_empty role_id then [] else role_id ∷ [])
    reply ← do_admin (codes "POST") (codes "/v1/acl/token") (some body)
    test (is_success reply.1)
    json.new_token_of reply.0

  -- DeleteToken
  unfoldable pub delete_token : Bytes → Outcome (Unit {0})
  delete_token accessor = if is_empty accessor then ok tt else (do
    reply ← do_admin (codes "DELETE") (codes "/v1/acl/token/" ++ path_escape accessor) none
    test (is_success reply.1))

  -- GetRoleID
  unfoldable pub get_role_id : Bytes → Outcome Bytes
  unfolding role_named
  get_role_id name = do
    reply ← do_admin (codes "GET") (codes "/v1/acl/roles") none
    test (is_success reply.1)
    roles ← json.roles_of reply.0
    ok (role_named name roles)
