-- ===== src/Upstreams.antt =====
-- What the handlers call and what they keep: the records of internal/authsvc/pocketbase.go,
-- nomad.go and jupyterhub.go, the upstreams of upstreams.go, and the server of server.go.
use abc_auth_svc.Text.Int.{ℤ}
use abc_auth_svc.Base.{◌≡◌, refl, ◌⊎◌, inl, inr, ℕ, Bool, Option, List, Bytes}
use abc_auth_svc.Text.Decimal.{Int64}

-- `(value, nil)` or `(zero, err)`; the text of an error goes only to the log.
pub data Outcome (A : Type 0) : Type 0 where
  ok : A → Outcome A
  err : Outcome A

pub Outcome-cases : {A : Type 0} (o : Outcome A) → (o ≡ err) ⊎ ((a : A) × (o ≡ ok a))
Outcome-cases (ok a) = inr (a, refl)
Outcome-cases err = inl refl

-- A record of the `slots` collection.
pub record Slot : Type 0 where
  pub id : Bytes
  pub slot_name : Bytes
  pub group : Bytes
  pub group_name : Bytes
  pub nomad_token_secret : Bytes
  pub nomad_token_accessor : Bytes
  pub minio_access_key : Bytes
  pub minio_secret_key : Bytes
  pub state : Bytes
  pub cred_source : Bytes
  pub opaque_token_hash : Bytes
  pub config_yaml : Bytes
  pub claim_code : Bytes
  pub claimed_by_name : Bytes
  pub claimed_by_email : Bytes
  pub claimed_at : Bytes

pub record NomadRole : Type 0 where
  pub id : Bytes
  pub name : Bytes

pub record NomadTokenSelf : Type 0 where
  pub name : Bytes
  pub type : Bytes
  pub namespace : Bytes
  pub policies : List Bytes
  pub roles : List NomadRole

pub record JhToken : Type 0 where
  pub token : Bytes
  pub id : Bytes
  pub expires_at : Bytes
  pub scopes : List Bytes
  pub note : Bytes

-- A failed mint: the hub answered with a status, or could not be reached.
pub data HubError : Type 0 where
  hub_http_error : ℕ → HubError
  hub_unreachable : HubError

pub data MintResult : Type 0 where
  minted : JhToken → MintResult
  refused : HubError → MintResult

pub data VarResult : Type 0 where
  value : Bytes → VarResult
  not_found : VarResult
  failed : VarResult

-- What `GroupKeyRecord` returns; `has_key` is false while no key is provisioned.
pub record GroupKey : Type 0 where
  pub name : Bytes
  pub recipient : Bytes
  pub sk_wrapped : Bytes
  pub version : ℤ
  pub has_key : Bool

pub record ClusterInfo : Type 0 where
  pub name : Bytes
  pub nomad_endpoint : Bytes
  pub minio_endpoint : Bytes
  pub upload_endpoint : Bytes
  pub auth_endpoint : Bytes
  pub datacenter : Bytes
  pub head_pool : Bytes
  pub worker_pool : Bytes

pub record MagicCode : Type 0 where
  pub username : Bytes
  pub expiry : ℕ
  pub next_url : Bytes
  pub extra : List (Bytes × Bytes)

-- The fields of a PATCH.
abbrev pub Fields : Type 0
Fields = List (Bytes × Bytes)

-- A call to an upstream, to the host's files or to the random source.
pub data Call : Type 0 where
  find_slot get_slot slot_state invalidate group_default : Bytes → Call
  list_slots : Bytes → ℕ → Call
  patch_slot : Bytes → Fields → Call
  group_name : Slot → Call
  group_key : Bytes → Call
  put_group_key : Bytes → Bytes → Bytes → ℤ → Call
  lookup_token delete_token role_id : Bytes → Call
  create_token : Bytes → Bytes → Call
  var_get : Bytes → Bytes → Call
  var_put : Bytes → Bytes → Bytes → Call
  mint_user_token : Bytes → Bytes → ℕ → Call
  user_exists stop_server : Bytes → Call
  validate_credential console_login : Bytes → Bytes → Call
  rotate_secret : Bytes → Call
  set_enabled : Bytes → Bool → Call
  write_creds : Bytes → Bytes → Bytes → Bytes → Call
  write_config : Bytes → Bytes → Call
  remove_creds : Bytes → Call
  random keypair : Call

-- The newest call first.
abbrev pub History : Type 0
History = List Call

-- The environment: what each call answers, which may depend on all the calls before it. So an
-- answer can reflect earlier writes, other clients and failures of every kind.
pub record Env : Type 0 where
  pub now : History → ℕ
  pub timestamp : History → Bytes
  pub found_slot : History → Bytes → Outcome (Option Slot)
  pub slot_by_id : History → Bytes → Outcome Slot
  pub slots : History → Bytes → ℕ → Outcome (List Slot)
  pub slots_error : History → Bytes
  pub patched : History → Bytes → Fields → Outcome (Unit {0})
  pub name_of_group : History → Slot → Bytes
  pub cached_state : History → Bytes → Bytes
  pub default_of_group : History → Bytes → Bytes
  pub group_key_record : History → Bytes → Outcome GroupKey
  pub group_key_put : History → Bytes → Bytes → Bytes → ℤ → Outcome (Unit {0})
  pub token_self : History → Bytes → Outcome (Option NomadTokenSelf)
  pub variable : History → Bytes → Bytes → VarResult
  pub variable_put : History → Bytes → Bytes → Bytes → Outcome (Unit {0})
  pub created_token : History → Bytes → Bytes → Outcome (Bytes × Bytes)
  pub role : History → Bytes → Outcome Bytes
  pub minted_token : History → Bytes → Bytes → ℕ → MintResult
  pub existing_user : History → Bytes → Outcome (Option Bool)
  pub valid_credential : History → Bytes → Bytes → Outcome Bool
  pub console_jwt : History → Bytes → Bytes → Outcome Bytes
  pub rotated_secret : History → Bytes → Outcome Bytes
  pub random_bytes : History → Outcome Bytes
  pub generated_keypair : History → Outcome (Bytes × Bytes)

-- What the type assertions on `s.up.Store` find: nil, a `SlotStore`, or a `SlotManager`.
pub data StoreKind : Type 0 where
  no_store read_only manager : StoreKind

-- The configuration and the wiring that the handlers read. Each Boolean says that an upstream is
-- there, or that it has the optional interface.
pub record Server : Type 0 where
  pub store : StoreKind
  pub is_key_store : Bool
  pub is_pb_client : Bool
  pub has_nomad_admin : Bool
  pub has_minio_admin : Bool
  pub is_hub_client : Bool
  pub has_user_exister : Bool
  pub has_console_login : Bool
  pub operator_token : Bytes
  pub root_mk_b64 : Bytes
  pub session_secret : Bytes
  pub session_ttl : ℕ
  pub cookie_secure : Bool
  pub cookie_domain : Bytes
  pub cli_token_ttl : ℕ
  pub hub_public_url : Bytes
  pub hub_api_url : Bytes
  pub hub_admin_token : Bytes
  pub cluster : ClusterInfo
  pub log_level : Int64

-- What changes while the server runs: the calls made so far, the magic codes, and the level
-- variable (`none` is a nil `levelVar`).
pub record World : Type 0 where
  pub history : History
  pub magic : List (Bytes × MagicCode)
  pub level : Option Int64
