-- ===== src/Clients/Minio.antt =====
-- ConsoleValidator (minio.go) and MCAdmin (minio_admin.go).
use abc_auth_svc.Base.{
  ℕ, Bool, true, false, not, ◌&&◌, ◌||◌, none, some, List, [], ◌∷◌, ◌++◌, nat_eq, if◌then◌else◌,
  Bytes, codes, ◌==◌, is_empty,
}
use abc_auth_svc.Crypto.{Base64}
use abc_auth_svc.Upstreams.{Outcome, ok, err}
use abc_auth_svc.Clients.{ClientRequest, Send, trim_right_slashes, ◌>>=◌, ◌>>◌, test}

-- The first nonempty cookie named `token`.
unfoldable pub token_cookie : List (Bytes × Bytes) → Outcome Bytes
token_cookie [] = err
token_cookie ((name, v) ∷ rest) =
    let later = token_cookie rest in
    if name == codes "token" && not (is_empty v) then ok v else later

module _ (credential_json : Bytes → Bytes → Bytes) (send : Send) (console_url : Bytes) where
  abbrev login_request : Bytes → Bytes → ClientRequest
  login_request key secret = record {
    method = codes "POST";
    url = trim_right_slashes console_url ++ codes "/api/v1/login";
    auth = none;
    body = some (credential_json key secret);
  }

  abbrev is_accepted : ℕ → Bool
  is_accepted status = nat_eq status 200 || nat_eq status 204

  abbrev is_rejected : ℕ → Bool
  is_rejected status = nat_eq status 401 || nat_eq status 403

  -- ValidateCredential
  unfoldable pub validate_credential : Bytes → Bytes → Outcome Bool
  validate_credential key secret = do
    resp ← send (login_request key secret)
    if is_accepted resp.status then ok true else if is_rejected resp.status then ok false else err

  -- ConsoleLogin: the token of the console, or an empty one if it says no.
  unfoldable pub console_login : Bytes → Bytes → Outcome Bytes
  unfolding token_cookie
  console_login key secret = do
    resp ← send (login_request key secret)
    if is_accepted resp.status
        then token_cookie resp.cookies
        else if is_rejected resp.status
        then ok []
        else err

-- An argument list of a command, and whether it exits with 0.
abbrev pub Run : Type 0
Run = List Bytes → Bool

abbrev pub or_name : Bytes → Bytes → Bytes
or_name s def = if is_empty s then def else s

pub record McAdmin : Type 0 where
  pub binary : Bytes
  pub alias_name : Bytes

abbrev pub mcli_user : McAdmin → Bytes → List Bytes → List Bytes
mcli_user m action rest =
    or_name m.binary (codes "mcli")
    ∷ codes "admin"
    ∷ codes "user"
    ∷ action
    ∷ or_name m.alias_name (codes "sdroot")
    ∷ rest

module _ (b64 : Base64) (run : Run) (m : McAdmin) where
  -- RotateSecret, with the 32 random bytes of genSecret.
  unfoldable pub rotate_secret : Outcome Bytes → Bytes → Outcome Bytes
  rotate_secret random user = do
    bytes ← random
    test (run (mcli_user m (codes "add") (user ∷ b64.encode_raw bytes ∷ [])))
    ok (b64.encode_raw bytes)

  -- SetEnabled
  unfoldable pub set_enabled : Bytes → Bool → Outcome (Unit {0})
  set_enabled user enabled =
      test (run (mcli_user m (if enabled then codes "enable" else codes "disable") (user ∷ [])))
