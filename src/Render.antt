-- ===== src/Render.antt =====
-- internal/authsvc/render.go: the config.yaml of a slot, and fresh opaque tokens.
use abc_auth_svc.Base.{
  ◌≡◌, ◌||◌, [], ◌∷◌, ◌++◌, if◌then◌else◌, Bytes, codes, ◌==◌, is_empty, String,
}
use abc_auth_svc.Text.{trim_space, to_lower}
use abc_auth_svc.Naming.{namespace_for_group}
use abc_auth_svc.Crypto.{Base64}
use abc_auth_svc.Upstreams.{Env, Outcome, ok, err, ClusterInfo}
use abc_auth_svc.Http.{Handler, ◌>>=◌, pure}
use abc_auth_svc.Http.Actions.{random_bytes}

-- `strings.ToLower(strings.TrimSpace(cs))`
unfoldable pub normalized : Bytes → Bytes
normalized cs = to_lower (trim_space cs)

abbrev pub local : Bytes
local = codes "local"

abbrev pub seedling : Bytes
seedling = codes "seedling/v1"

-- `<indent><key>: <value>` and a line break.
line : String → Bytes → Bytes
line key value = codes key ++ value ++ 10 ∷ []

render_local : ClusterInfo → Bytes → Bytes → Bytes → Bytes → Bytes → Bytes
unfolding line
render_local c slot namespace nomad_token access_key secret_key =
    line "version: 1.0" []
    ++ line "active_context: " c.name
    ++ line "contexts:" []
    ++ line "    " (c.name ++ codes ":")
    ++ line "        access_token: " nomad_token
    ++ line "        admin:" []
    ++ line "            id: pool-" slot
    ++ line "            services:" []
    ++ line "                minio:" []
    ++ line "                    access_key: " access_key
    ++ line "                    endpoint: " c.minio_endpoint
    ++ line "                    secret_key: " secret_key
    ++ line "                nomad:" []
    ++ line "                    addr: " c.nomad_endpoint
    ++ line "                    datacenters:" []
    ++ line "                        - " c.datacenter
    ++ line "                    head_pool: " c.head_pool
    ++ line "                    namespace: " namespace
    ++ line "                    token: " nomad_token
    ++ line "                    worker_pool: " c.worker_pool
    ++ line "                tools:" []
    ++ line "                    endpoint: " c.minio_endpoint
    ++ line "        auth:" []
    ++ line "            whoami: " slot
    ++ line "        cluster_type: abc-cluster" []
    ++ line "        endpoint: " c.nomad_endpoint
    ++ line "        upload_endpoint: " c.upload_endpoint

pub render_opaque : ClusterInfo → Bytes → Bytes → Bytes
unfolding line
render_opaque c slot opaque_token =
    line "version: 1.0" []
    ++ line "active_context: " c.name
    ++ line "contexts:" []
    ++ line "    " (c.name ++ codes ":")
    ++ line "        cred_source: seedling/v1" []
    ++ line "        access_token: " opaque_token
    ++ line "        auth:" []
    ++ line "            whoami: " slot
    ++ line "        auth_endpoint: " c.auth_endpoint
    ++ line "        cluster_type: abc-cluster" []
    ++ line "        endpoint: " c.nomad_endpoint
    ++ line "        upload_endpoint: " c.upload_endpoint

-- The arguments after the group: Nomad token, MinIO access and secret key, credential source, and
-- the bare opaque token.
unfoldable pub render_config_yaml :
    ClusterInfo → Bytes → Bytes → Bytes → Bytes → Bytes → Bytes → Bytes → Outcome Bytes
unfolding render_local render_opaque normalized
render_config_yaml c slot group nomad_token access_key secret_key cred_source opaque_token =
    let cs = normalized cred_source in
    if is_empty cs || cs == local
    then ok (render_local c slot (namespace_for_group group) nomad_token access_key secret_key)
    else if cs == seedling
    then (if is_empty opaque_token then err else ok (render_opaque c slot opaque_token))
    else err

-- For a `seedling/v1` slot the rendered config depends on no credential but the opaque token: it
-- is the same whatever the Nomad token, the MinIO access key and secret key and the group are.
pub render_config_yaml-seedling :
    (c : ClusterInfo)
    (slot group group' token token' access access' secret secret' cs opaque : Bytes)
    → normalized cs ≡ seedling
    → render_config_yaml c slot group token access secret cs opaque
      ≡ render_config_yaml c slot group' token' access' secret' cs opaque
unfolding render_config_yaml codes ◌==◌
render_config_yaml-seedling c slot g g' t t' a a' s s' cs opaque h = rw h

module _ (env : Env) (b64 : Base64) where
  -- mintOpaque
  unfoldable pub mint_opaque : Handler (Outcome Bytes)
  mint_opaque = do
    r ← random_bytes env
    pure (elim r [ ok b ↦ ok (codes "abco_" ++ b64.encode_raw b) | err ↦ err ])
