-- ===== src/Startup/Laws.antt =====
-- What the start-up says of the hub's token, and which server it comes to.
use abc_auth_svc.Base.{
  ◌≤◌, ◌≡◌, refl, sym, ap, ◌∙◌, ◌⊎◌, inl, inr, Bool, true, false, Option, none, some, List, [], ◌∷◌,
  arith, leb, if◌then◌else◌, Bool-cases, length, take, Bytes, codes,
}
use abc_auth_svc.Text.{contains}
use abc_auth_svc.Upstreams.{Outcome, ok, err, Server}
use abc_auth_svc.Redact.{LogRecord}
use abc_auth_svc.Health.{BuildInfo}
use abc_auth_svc.Config.{Config, load_config}
use abc_auth_svc.Wiring.{build_server}
use abc_auth_svc.Diag.Laws.{IsReal}
use abc_auth_svc.Startup.{
  replace_with, token_shape, Started, shown, serving, started, run_with, run,
}
use abc_auth_svc.Base.{length-take_bound}

-- What is logged of the hub's token is at most eight bytes, unless the token has the installer's
-- placeholder in it, which it is then said to be; a token that the readiness report takes for a real
-- one is said to be set, with its first eight bytes.
pub token_shape-IsShort :
    (tok : Bytes)
    → ((length (token_shape tok).1 ≤ 8)
        ⊎ ((contains tok replace_with ≡ true) × ((token_shape tok).0 ≡ codes "placeholder")))
      × (IsReal tok → token_shape tok ≡ (codes "set", take 8 tok))
unfolding token_shape codes
token_shape-IsShort [] = (inl (omega arith), λ real. absurd (ground arith))
token_shape-IsShort (c ∷ s) = elim (Bool-cases (contains (c ∷ s) replace_with)) [
  | inl e ↦ (inr (e, rw e refl), λ real. absurd (ground arith))
  | inr e ↦ elim (Bool-cases (leb 8 (length (c ∷ s)))) [
    | inl l ↦ (inl (rw (e, l) (length-take_bound 8 (c ∷ s))), λ real. rw (e, l) refl)
    | inr l ↦ (inl (rw (e, l) (ground arith)), λ real. absurd (ground arith))
  ]
]

module _ (build : BuildInfo) (user_error : Bytes → Option Bytes) where
  -- The server that serves is the one of the configuration that was loaded.
  pub record IsServing (getenv : Bytes → Bytes) (args : List Bytes) (cfg : Config) (srv : Server)
      : Type 0 where
    pub loaded : load_config getenv args ≡ ok cfg
    pub no_version : cfg.show_version ≡ false
    pub built : build_server cfg ≡ some srv

  started-IsServing :
      (c cfg : Config) (o : Option Server) (srv : Server) (lines : List LogRecord)
      → started build user_error c o ≡ some (serving cfg srv lines)
      → (c ≡ cfg) × (o ≡ some srv)
  unfolding started
  started-IsServing c cfg none srv lines e = absurd (ground arith)
  started-IsServing c cfg (some s) srv lines e = (ground arith, ground arith)

  not_shown :
      (b : Bool) (t : Bytes) (cfg : Config) (srv : Server) (lines : List LogRecord)
      (o : Option Started)
      → (if b then some (shown t) else o) ≡ some (serving cfg srv lines)
      → (b ≡ false) × (o ≡ some (serving cfg srv lines))
  not_shown true t cfg srv lines o e = absurd (ground arith)
  not_shown false t cfg srv lines o e = (refl, e)

  run_with-IsServing :
      (getenv : Bytes → Bytes) (args : List Bytes) (o : Outcome Config) (cfg : Config)
      (srv : Server) (lines : List LogRecord)
      → load_config getenv args ≡ o
      → run_with build user_error o ≡ some (serving cfg srv lines)
      → IsServing getenv args cfg srv
  unfolding run_with
  run_with-IsServing getenv args err cfg srv lines l e = absurd (ground arith)
  run_with-IsServing getenv args (ok c) cfg srv lines l e =
      let (v, rest) = not_shown c.show_version _ cfg srv lines _ e in
      let (same, built) = started-IsServing c cfg (build_server c) srv lines rest in
      record {
        loaded = l ∙ ap ok same;
        no_version = ap (λ k. k.show_version) (sym same) ∙ v;
        built = ap build_server (sym same) ∙ built;
      }

  -- The process serves only with the server of a configuration that LoadConfig has accepted, and
  -- not when it was asked for its version.
  pub run-IsServing :
      (getenv : Bytes → Bytes) (args : List Bytes) (cfg : Config) (srv : Server)
      (lines : List LogRecord)
      → run build user_error getenv args ≡ some (serving cfg srv lines)
      → IsServing getenv args cfg srv
  unfolding run
  run-IsServing getenv args cfg srv lines e =
      run_with-IsServing getenv args (load_config getenv args) cfg srv lines refl e
