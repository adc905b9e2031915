-- ===== src/Config/Laws.antt =====
-- Where the secrets of the configuration come from, and that the logger knows them.
use abc_auth_svc.Base.{
  ℕ, ◌*◌, ◌%◌, ◌^◌, ◌≤◌, ◌≡◌, refl, inl, inr, true, false, none, some, List, [], ◌∷◌, arith, nat_eq,
  if◌then◌else◌, Bool-cases, length, Bytes, codes, ◌==◌, eq_of_==, is_empty, String, mem,
}
use abc_auth_svc.Text.{trim_space, contains}
use abc_auth_svc.Text.Decimal.{Int64, positive, negative, parse_int}
use abc_auth_svc.Text.Replace.{IsClean}
use abc_auth_svc.LogLevel.{parse_level}
use abc_auth_svc.Upstreams.{Outcome, ok, err, Outcome-cases}
use abc_auth_svc.Redact.{LogRecord, inner_text, min_secret_len, scrub_secrets, scrub_record}
use abc_auth_svc.Redact.Scrub.{AreScrubbed, scrub_record-IsScrubbed}
use abc_auth_svc.Config.Flags.{FlagValues, parse_flags}
use abc_auth_svc.Config.{
  Config, secrets_of, nonempty, seconds, ttl, ttl_of, config_of, with_flags, env_level,
  flag_defaults, load_config,
}

-- The longest time in seconds whose nanoseconds fit an int64.
abbrev pub max_seconds : ℕ
max_seconds = 9223372036

seconds-positive : (n : ℕ) → n ≤ max_seconds → seconds n ≡ positive (n * 1000000000)
unfolding seconds
seconds-positive n h =
    let e : n * 1000000000 % 2 ^ 64 ≡ n * 1000000000 = omega arith in rw (seconds, e) (ground arith)

mem-tail :
    (s t : Bytes) (ts : List Bytes)
    → is_empty t ≡ true
    → is_empty s ≡ false
    → mem s (t ∷ ts) ≡ true
    → mem s ts ≡ true
unfolding mem
mem-tail s t ts e ne h = elim (Bool-cases (s == t)) [
  | inl p ↦ let q = rw (eq_of_== s t p) at ne in absurd (ground arith)
  | inr p ↦ ground arith
]

mem-nonempty :
    (s : Bytes) (ss : List Bytes)
    → mem s ss ≡ true
    → is_empty s ≡ false
    → mem s (nonempty ss) ≡ true
unfolding mem nonempty
mem-nonempty s [] h ne = h
mem-nonempty s (t ∷ ts) h ne = elim (Bool-cases (is_empty t)) [
  | inl e ↦ rw (nonempty, e) (mem-nonempty s ts (mem-tail s t ts e ne h) ne)
  | inr e ↦ rw (nonempty, e) (ground (arith, mem-nonempty s ts))
]

trim_space_nonempty : (s : Bytes) → min_secret_len ≤ length (trim_space s) → is_empty s ≡ false
unfolding trim_space
trim_space_nonempty [] h = absurd (ground arith)
trim_space_nonempty (c ∷ s) h = refl

module _ (getenv : Bytes → Bytes) where
  abbrev IsConfigOf : Config → Type 0
  IsConfigOf cfg = (f : FlagValues) × (level : Int64) × (cfg ≡ config_of getenv f level)

  with_flags-IsConfigOf :
      (o : Outcome FlagValues) (cfg : Config) → with_flags getenv o ≡ ok cfg → IsConfigOf cfg
  unfolding with_flags
  with_flags-IsConfigOf err cfg h = absurd (ground arith)
  with_flags-IsConfigOf (ok f) cfg h = elim (Outcome-cases (parse_level f.log_level)) [
    | inl e ↦ let q = rw (with_flags, e) at h in absurd (ground arith)
    | inr (level, e) ↦ let q = rw (with_flags, e) at h in (f, level, ground arith)
  ]

  load_config-IsConfigOf :
      (args : List Bytes) (cfg : Config) → load_config getenv args ≡ ok cfg → IsConfigOf cfg
  unfolding load_config
  load_config-IsConfigOf args cfg h = elim (Outcome-cases (env_level getenv)) [
    | inl e ↦ let q = rw (load_config, e) at h in absurd (ground arith)
    | inr (level, e) ↦
        with_flags-IsConfigOf (parse_flags none args (flag_defaults getenv level)) cfg
          (rw (load_config, e) at h)
  ]

  scrub_secrets_eq : (cfg : Config) → IsConfigOf cfg → cfg.scrub_secrets ≡ nonempty (secrets_of cfg)
  unfolding config_of
  scrub_secrets_eq cfg (f, level, e) = rw e refl

  -- No flag sets a secret: with one environment, every two command lines that are accepted give the
  -- same six secrets and the same list of secrets to scrub.
  pub load_config_same_secrets :
      (args args' : List Bytes) (cfg cfg' : Config)
      → load_config getenv args ≡ ok cfg
      → load_config getenv args' ≡ ok cfg'
      → (secrets_of cfg ≡ secrets_of cfg') × (cfg.scrub_secrets ≡ cfg'.scrub_secrets)
  unfolding config_of
  load_config_same_secrets args args' cfg cfg' h h' =
      let (f, level, e) = load_config-IsConfigOf args cfg h in
      let (f', level', e') = load_config-IsConfigOf args' cfg' h' in
      (rw (e, e') refl, rw (e, e') refl)

  -- The secrets that the environment gives the service.
  abbrev pub secret_values : List Bytes
  secret_values =
      trim_space (getenv (codes "JUPYTERHUB_API_TOKEN"))
      ∷ trim_space (getenv (codes "PB_ADMIN_PASSWORD"))
      ∷ trim_space (getenv (codes "OPERATOR_TOKEN"))
      ∷ trim_space (getenv (codes "ABC_AUTH_ROOT_MK"))
      ∷ getenv (codes "SESSION_SECRET")
      ∷ trim_space (getenv (codes "NOMAD_TOKEN"))
      ∷ []

  secrets_of-values : (cfg : Config) → IsConfigOf cfg → secrets_of cfg ≡ secret_values
  unfolding config_of
  secrets_of-values cfg (f, level, e) = rw e refl

  -- With the logger that the configuration makes, no secret of the environment is logged, which are
  -- the values of JUPYTERHUB_API_TOKEN, PB_ADMIN_PASSWORD, OPERATOR_TOKEN, ABC_AUTH_ROOT_MK,
  -- SESSION_SECRET and NOMAD_TOKEN: of a secret with at least six bytes, white space around it
  -- apart, without brackets and not a part of the placeholder's text, neither the message nor a
  -- string value of any record that leaves the scrubbing handler holds a copy.
  pub load_config-IsScrubbed :
      (args : List Bytes) (cfg : Config) (s : Bytes) (r : LogRecord)
      → load_config getenv args ≡ ok cfg
      → mem s secret_values ≡ true
      → min_secret_len ≤ length (trim_space s)
      → (clean : IsClean inner_text (trim_space s))
      → (contains (scrub_record (scrub_secrets cfg.scrub_secrets) r).message (trim_space s) ≡ false)
        × AreScrubbed (trim_space s) clean (scrub_record (scrub_secrets cfg.scrub_secrets) r).attrs
  load_config-IsScrubbed args cfg s r h known long clean =
      let its = load_config-IsConfigOf args cfg h in
      let all = scrub_secrets_eq cfg its in
      let listed =
        mem-nonempty s (secrets_of cfg) (rw (secrets_of-values cfg its) known)
          (trim_space_nonempty s long) in
      scrub_record-IsScrubbed s cfg.scrub_secrets r (rw all listed) long clean

  -- A number of seconds in the environment, if its nanoseconds fit, is taken as it is, and 0 is
  -- replaced by the default: the time is that many whole seconds.
  pub ttl-positive :
      (key : String) (def n : ℕ)
      → def ≤ max_seconds
      → n ≤ max_seconds
      → parse_int (trim_space (getenv (codes key))) ≡ some (positive n)
      → ttl getenv key def ≡ positive ((if nat_eq n 0 then def else n) * 1000000000)
  unfolding ttl ttl_of
  ttl-positive key def n hd hn e = elim (Bool-cases (nat_eq n 0)) [
    | inl z ↦ rw (e, z) (seconds-positive def hd)
    | inr z ↦ rw (e, z) (seconds-positive n hn)
  ]

-- A larger number wraps around: the sessions are then over before they begin.
seconds_wrap : seconds 9223372037 ≡ negative 9223372036709551616
unfolding seconds
seconds_wrap = refl
