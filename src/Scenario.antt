-- ===== src/Scenario.antt =====
-- One small world for the examples: a server with everything wired, a store with one slot, and
-- codecs, digests and a cipher that stand in for the packages of the parameters.
pub mod Network
use abc_auth_svc.Text.Int.{ℤ, pos}
use abc_auth_svc.Base.{
  if◌then◌else◌, ◌==◌, ◌+◌, ◌%◌, refl, true, none, some, [], ◌∷◌, ◌++◌, arith, length, drop, All,
  Bytes, codes,
}
use abc_auth_svc.Text.Decimal.{positive}
use abc_auth_svc.Crypto.{IsByte, Base64, Digests}
use abc_auth_svc.Session.{SessionVerifier, make}
use abc_auth_svc.KekWrap.{Aead}
use abc_auth_svc.Upstreams.{
  ok, err, Slot, NomadTokenSelf, minted, value, GroupKey, Env, manager, Server, World,
}
use abc_auth_svc.Http.{Request}

-- The identity codec.
abbrev pub plain : Base64
plain = record {
  encode = λ s. s;
  encode_raw = λ s. s;
  decode = λ s. some s;
  decode_raw = λ s. some s;
  decode-encode = λ s h. refl;
  decode-nil = refl;
}

pub short_digest-IsByte : (k m : Bytes) → All IsByte (((length k + length m) % 256) ∷ [])
short_digest-IsByte k m = (omega arith, tt)

abbrev pub short_digests : Digests
short_digests = record {
  hmac_sha256 = λ k m. ((length k + length m) % 256) ∷ [];
  sha256 = λ m. (length m % 256) ∷ [];
  hmac-IsByte = short_digest-IsByte;
}

-- A tag of one byte before the text.
abbrev pub tagged : Aead
tagged = record {
  hkdf = λ key salt info. salt;
  seal = λ key nonce text aad. 0 ∷ text;
  open_sealed = λ key nonce text aad. some (drop 1 text);
  std_encode = λ s. s;
  std_decode = λ s. some s;
  open-seal = λ key nonce text aad. refl;
  seal-length = λ key nonce text aad. ground arith;
  std_decode-encode = λ s. refl;
}

abbrev pub slot : Slot
slot = record {
  id = codes "s1";
  slot_name = codes "ann";
  group = codes "g1";
  group_name = codes "lab";
  nomad_token_secret = codes "nt";
  nomad_token_accessor = codes "na";
  minio_access_key = codes "ann";
  minio_secret_key = codes "ms";
  state = codes "claimed";
  cred_source = codes "seedling/v1";
  opaque_token_hash = codes "00";
  config_yaml = codes "version: 1.0";
  claim_code = codes "cc";
  claimed_by_name = [];
  claimed_by_email = [];
  claimed_at = [];
}

abbrev pub info : NomadTokenSelf
info = record {
  name = codes "pool-ann";
  type = codes "client";
  namespace = [];
  policies = codes "su-lab-pool" ∷ [];
  roles = [];
}

-- A master key of 32 bytes.
abbrev pub mk : Bytes
mk = codes "0123456789abcdef0123456789abcdef"

abbrev pub salt : Bytes
salt = codes "0123456789abcdef"

abbrev pub nonce : Bytes
nonce = codes "0123456789ab"

abbrev pub group_key : GroupKey
group_key = record {
  name = codes "lab";
  recipient = codes "age1";
  sk_wrapped = salt ++ nonce ++ (0 ∷ codes "sk");
  version = pos 3;
  has_key = true;
}

abbrev pub env : Env
env = record {
  now = λ h. 1000;
  timestamp = λ h. codes "now";
  found_slot = λ h filter. ok (some slot);
  slot_by_id = λ h id. ok slot;
  slots = λ h filter n. ok (slot ∷ []);
  slots_error = λ h. [];
  patched = λ h id fields. ok tt;
  name_of_group = λ h s. codes "lab";
  cached_state = λ h user. codes "claimed";
  default_of_group = λ h id. [];
  group_key_record = λ h id. ok group_key;
  group_key_put = λ h id recipient wrapped version. ok tt;
  token_self = λ h token. ok (some info);
  variable = λ h ns key. value (codes "v");
  variable_put = λ h ns key v. ok tt;
  created_token = λ h name role. ok (codes "na2", codes "nt2");
  role = λ h name. ok (codes "role");
  minted_token = λ h user note ttl.
      minted
        (record { token = codes "jh"; id = codes "1"; expires_at = []; scopes = []; note = [] });
  existing_user = λ h user. ok (some true);
  valid_credential = λ h key secret. ok true;
  console_jwt = λ h key secret. ok (codes "jwt");
  rotated_secret = λ h user. ok (codes "ms2");
  random_bytes = λ h. ok (codes "0123456789abcdef0123456789abcdef");
  generated_keypair = λ h. ok (codes "age1", codes "sk");
}

-- The MinIO server that rotates nothing: a rotation fails.
abbrev pub broken : Env
broken = record env { rotated_secret = λ h user. err }

abbrev pub srv : Server
srv = record {
  store = manager;
  is_key_store = true;
  is_pb_client = true;
  has_nomad_admin = true;
  has_minio_admin = true;
  is_hub_client = true;
  has_user_exister = true;
  has_console_login = true;
  operator_token = codes "op";
  root_mk_b64 = mk;
  session_secret = codes "secret";
  session_ttl = 3600;
  cookie_secure = true;
  cookie_domain = [];
  cli_token_ttl = 60;
  hub_public_url = codes "hub";
  hub_api_url = codes "hub/api";
  hub_admin_token = codes "0123456789abcdef0123456789abcdef";
  cluster = record {
    name = codes "seedling";
    nomad_endpoint = codes "nomad";
    minio_endpoint = codes "minio";
    upload_endpoint = codes "upload";
    auth_endpoint = codes "auth";
    datacenter = codes "dc";
    head_pool = codes "head";
    worker_pool = codes "worker";
  };
  log_level = positive 0;
}

abbrev pub world : World
world = record { history = []; magic = []; level = some (positive 0) }

-- A request with the operator's token, and one with none.
abbrev pub request : Request
request = record {
  header = λ name. if name == codes "Authorization" then codes "Bearer tok" else codes "op";
  cookie = none;
  path_slot = codes "ann";
  query = λ name. codes "c1";
  form = λ name. codes "ann";
  host = codes "host";
}

abbrev pub stranger : Request
stranger = record request { header = λ name. [] }

abbrev pub key : SessionVerifier
key = record { secret = codes "secret" }

abbrev pub ann : Bytes
ann = codes "ann"

abbrev pub token : Bytes
token = make short_digests plain key 1000 ann 3600
