-- ===== src/Clients.antt =====
-- The HTTP clients of Nomad, JupyterHub and the MinIO console, and the MinIO command line: how a
-- call becomes a request, and a reply a result. The exchange of one request is a parameter.
pub mod Nomad
pub mod Hub
pub mod Minio
use mathlib.Core.List.{reverse}
use abc_auth_svc.Base.{
  ℕ, zero, suc, ◌+◌, ◌-◌, ◌*◌, ◌/◌, ◌%◌, ◌^◌, ◌≤◌, ◌<◌, ◌≡◌, refl, sym, ap, ◌∙◌, subst, ◌≡⟨◌⟩◌, ◌∎,
  ◌≢◌, ◌↔◌, ◌⊎◌, inl, inr, Bool, true, false, not, ◌&&◌, ◌||◌, Option, none, some, List, [], ◌∷◌,
  ◌++◌, append-nil, append_assoc, arith, ltb, leb, nat_eq, if◌then◌else◌, nat_eq_iff, nat_eq_refl,
  Bool-cases, Option-cases, length, take, drop, all, length-append, take-append_left,
  drop-append_left, drop_past, All, All-append, All-append_left, All-append_right, Bytes, codes,
  ◌==◌, eq_of_==, ==_refl, ==_iff, is_empty, Lacks, String,
}
use abc_auth_svc.Upstreams.{Outcome, ok, err}

-- A request, with its authentication header (`none` if it has none).
pub record ClientRequest : Type 0 where
  pub method : Bytes
  pub url : Bytes
  pub auth : Option (Bytes × Bytes)
  pub body : Option Bytes

pub record ClientResponse : Type 0 where
  pub status : ℕ
  pub body : Bytes
  pub cookies : List (Bytes × Bytes)

-- `http.NewRequestWithContext` and `c.HTTP.Do`: an answer, or an error.
abbrev pub Send : Type 0
Send = ClientRequest → Outcome ClientResponse

-- `status >= 200 && status < 300`
abbrev pub is_success : ℕ → Bool
is_success status = leb 200 status && ltb status 300

skip_slashes : Bytes → Bytes
skip_slashes [] = []
skip_slashes (c ∷ s) = if nat_eq c b'/' then skip_slashes s else c ∷ s

-- `strings.TrimRight(s, "/")`
unfoldable pub trim_right_slashes : Bytes → Bytes
unfolding skip_slashes
trim_right_slashes s = reverse (skip_slashes (reverse s))

abbrev pub read_limit : ℕ
read_limit = 1048576

infixl 5 ◌>>=◌ ◌>>◌
abbrev pub ◌>>=◌ : {A B : Type 0} → Outcome A → (A → Outcome B) → Outcome B
ok a >>= f = f a
err >>= f = err

-- A test before an error.
abbrev pub test : Bool → Outcome (Unit {0})
test b = if b then ok tt else err

abbrev pub ◌>>◌ : {B : Type 0} → Outcome (Unit {0}) → Outcome B → Outcome B
o >> r = o >>= λ _. r
