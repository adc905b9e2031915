-- ===== src/Config/Flags.antt =====
-- The command line of the service: what the `flag` package makes of the arguments, for the seven
-- flags that LoadConfig declares.
use abc_auth_svc.Base.{
  mem, ℕ, ◌+◌, Bool, true, false, not, ◌||◌, Option, none, some, List, [], ◌∷◌, nat_eq,
  if◌then◌else◌, take, drop, Bytes, codes, ◌==◌, is_empty,
}
use abc_auth_svc.Text.{index_byte}
use abc_auth_svc.Upstreams.{Outcome, ok, err}

-- The values that LoadConfig reads after `fs.Parse`.
pub record FlagValues : Type 0 where
  pub listen : Bytes
  pub log_level : Bytes
  pub mock_upstreams : Bool
  pub version : Bool
  pub nomad_addr : Bytes
  pub jupyterhub_api_url : Bytes
  pub hub_public_url : Bytes

pub data FlagName : Type 0 where
  listen_flag log_level_flag mock_flag version_flag nomad_flag hub_api_flag hub_public_flag :
      FlagName

-- strconv.ParseBool
unfoldable pub parse_bool : Bytes → Option Bool
parse_bool s =
    if mem s (codes "1" ∷ codes "t" ∷ codes "T" ∷ codes "true" ∷ codes "TRUE" ∷ codes "True" ∷ [])
    then some true
    else if mem s
        (codes "0" ∷ codes "f" ∷ codes "F" ∷ codes "false" ∷ codes "FALSE" ∷ codes "False" ∷ [])
    then some false
    else none

unfoldable pub flag_of : Bytes → Option FlagName
flag_of name =
    if name == codes "listen"
    then some listen_flag
    else if name == codes "log-level"
    then some log_level_flag
    else if name == codes "mock-upstreams"
    then some mock_flag
    else if name == codes "version"
    then some version_flag
    else if name == codes "nomad-addr"
    then some nomad_flag
    else if name == codes "jupyterhub-api-url"
    then some hub_api_flag
    else if name == codes "hub-public-url"
    then some hub_public_flag
    else none

abbrev pub is_bool_flag : FlagName → Bool
is_bool_flag mock_flag = true
is_bool_flag version_flag = true
is_bool_flag _ = false

set_bool : Option Bool → (Bool → FlagValues) → Outcome FlagValues
set_bool none f = err
set_bool (some b) f = ok (f b)

-- `Set` of one flag.
unfoldable pub set_flag : FlagName → Bytes → FlagValues → Outcome FlagValues
unfolding set_bool
set_flag listen_flag v f = ok (record f { listen = v })
set_flag log_level_flag v f = ok (record f { log_level = v })
set_flag mock_flag v f = set_bool (parse_bool v) λ b. record f { mock_upstreams = b }
set_flag version_flag v f = set_bool (parse_bool v) λ b. record f { version = b }
set_flag nomad_flag v f = ok (record f { nomad_addr = v })
set_flag hub_api_flag v f = ok (record f { jupyterhub_api_url = v })
set_flag hub_public_flag v f = ok (record f { hub_public_url = v })

-- One argument: the end of the flags, an error, a flag with its value, or one whose value is the
-- next argument.
pub data Argument : Type 0 where
  stop malformed : Argument
  with_value : FlagName → Bytes → Argument
  needs_value : FlagName → Argument

without_value : FlagName → Argument
without_value f = if is_bool_flag f then with_value f (codes "true") else needs_value f

named : Bytes → Option ℕ → Argument
unfolding flag_of without_value
named name none = elim (flag_of name) [ none ↦ malformed | some f ↦ without_value f ]
named name (some i) = elim (flag_of (take i name)) [
  | none ↦ malformed
  | some f ↦ with_value f (drop (i + 1) name)
]

-- The name after the minus signs: not empty, and not starting with `-` or `=`.
named_argument : Bytes → Argument
unfolding named
named_argument [] = malformed
named_argument (c ∷ name) =
    if nat_eq c b'-' || nat_eq c b'='
    then malformed
    else named (c ∷ name) (index_byte (c ∷ name) b'=')

unfoldable pub argument_of : Bytes → Argument
unfolding named_argument
argument_of [] = stop
argument_of (c ∷ []) = stop
argument_of (c ∷ d ∷ s) =
    if not (nat_eq c b'-')
    then stop
    else if nat_eq d b'-'
    then (if is_empty s then stop else named_argument s)
    else named_argument (d ∷ s)

-- `fs.Parse`, while the flag of the first argument waits for its value. What follows the flags is
-- not read.
unfoldable pub parse_flags : Option FlagName → List Bytes → FlagValues → Outcome FlagValues
parse_flags none [] f = ok f
parse_flags (some name) [] f = err
parse_flags (some name) (v ∷ args) f = elim (set_flag name v f) [
  | err ↦ err
  | ok g ↦ parse_flags none args g
]
parse_flags none (a ∷ args) f = elim (argument_of a) [
  | stop ↦ ok f
  | malformed ↦ err
  | needs_value name ↦ parse_flags (some name) args f
  | with_value name v ↦ elim (set_flag name v f) [ err ↦ err | ok g ↦ parse_flags none args g ]
]
