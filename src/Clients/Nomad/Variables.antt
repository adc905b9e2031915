-- ===== src/Clients/Nomad/Variables.antt =====
-- The URLs of the variables of Nomad.
use abc_auth_svc.Base.{◌≡◌, Bytes, codes}
use abc_auth_svc.Text.Index.{cut_first}
use abc_auth_svc.Text.Query.{path_escape}
use abc_auth_svc.Text.Query.Injective.{
  path_escape-Lacks, path_escape-injective, query_escape-injective,
}
use abc_auth_svc.Clients.Nomad.{var_path}
use mathlib.Core.List.{append_cancel_left}

-- Two variables have the same URL only if they have the same namespace and the same path, whatever
-- bytes these hold: `/`, `?`, `&` and `%` too.
pub var_path-injective :
    (namespace namespace' path path' : Bytes)
    → var_path namespace path ≡ var_path namespace' path'
    → (namespace ≡ namespace') × (path ≡ path')
unfolding var_path codes
var_path-injective namespace namespace' path path' p =
    let q = append_cancel_left (codes "/v1/var/") _ _ p in
    let (same, rest) =
      cut_first b'?' (path_escape path) (path_escape path') _ _ (path_escape-Lacks path)
        (path_escape-Lacks path') q in
    (
      query_escape-injective namespace namespace'
          (append_cancel_left (codes "namespace=") _ _ rest),
      path_escape-injective path path' same,
    )
