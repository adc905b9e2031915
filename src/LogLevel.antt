-- ===== src/LogLevel.antt =====
-- internal/authsvc/loglevel.go, and the levels of config.go: changing the log level at run time.
pub mod Laws
pub mod Calls
use abc_auth_svc.Base.{
  ℕ, zero, suc, ◌+◌, ◌-◌, ◌*◌, ◌/◌, ◌%◌, ◌^◌, ◌≤◌, ◌<◌, ◌≡◌, refl, sym, ap, ◌∙◌, subst, ◌≡⟨◌⟩◌, ◌∎,
  ◌≢◌, ◌↔◌, ◌⊎◌, inl, inr, Bool, true, false, not, ◌&&◌, ◌||◌, Option, none, some, List, [], ◌∷◌,
  ◌++◌, append-nil, append_assoc, arith, ltb, leb, nat_eq, if◌then◌else◌, nat_eq_iff, nat_eq_refl,
  Bool-cases, Option-cases, length, take, drop, all, length-append, take-append_left,
  drop-append_left, drop_past, All, All-append, All-append_left, All-append_right, Bytes, codes,
  ◌==◌, eq_of_==, ==_refl, ==_iff, is_empty, Lacks, String,
}
use abc_auth_svc.Text.{trim_space, to_lower}
use abc_auth_svc.Text.Decimal.{Int64, positive, negative}
use abc_auth_svc.Upstreams.{Server, World, Outcome, ok, err}
use abc_auth_svc.Http.{
  Handler, ◌>>=◌, ◌>>◌, pure, done, Request, Body, empty, malformed, decoded, Json, str, strs,
  err_json, err_object, require, require_operator,
}

-- slog's levels: L1 is 0, L2 is -4 and L3 is -8.
abbrev pub l1 : Int64
l1 = positive 0

abbrev pub l2 : Int64
l2 = negative 4

abbrev pub l3 : Int64
l3 = negative 8

-- parseLevel
unfoldable pub parse_level : Bytes → Outcome Int64
parse_level s =
    let t = to_lower (trim_space s) in
    if t == codes "info" || t == codes "1" || t == codes "l1"
    then ok l1
    else if t == codes "debug" || t == codes "2" || t == codes "l2"
    then ok l2
    else if t == codes "trace" || t == codes "3" || t == codes "l3"
    then ok l3
    else err

-- `l <= -n`
abbrev at_most : Int64 → ℕ → Bool
at_most (positive m) n = nat_eq m 0 && nat_eq n 0
at_most (negative m) n = leb n m

-- levelString
unfoldable pub level_string : Int64 → Bytes
level_string l =
    if at_most l 8 then codes "trace" else if at_most l 4 then codes "debug" else codes "info"

-- currentLevelString
unfoldable pub current_level_string : Option Int64 → Int64 → Bytes
unfolding level_string
current_level_string none static = level_string static
current_level_string (some l) static = level_string l

-- The JSON of a GET, and of a POST.
pub record LevelReport : Type 0 where
  pub level : Bytes
  pub mutable : Bool

pub record LevelChange : Type 0 where
  pub level : Bytes
  pub previous : Bytes

is_some : Option Int64 → Bool
is_some none = false
is_some (some l) = true

module _ (srv : Server) where
  -- handleLogLevel, GET
  unfoldable pub get_log_level : Request → Handler LevelReport
  unfolding is_some
  get_log_level r = do
    require_operator srv r
    λ w. (
      done (record {
        level = current_level_string w.level srv.log_level;
        mutable = is_some w.level;
      }),
      w,
    )

  level_of : Body Bytes → Handler Bytes
  level_of empty = pure []
  level_of malformed = err_json 400 (codes "invalid_json")
  level_of (decoded l) = pure l

  parsed : Outcome Int64 → Handler Int64
  parsed (ok l) = pure l
  parsed err = err_object 400 (
      (codes "error", str (codes "invalid_level"))
      ∷ (codes "allowed", strs (codes "info" ∷ codes "debug" ∷ codes "trace" ∷ []))
      ∷ [])

  set_level : Int64 → Option Int64 → Handler LevelChange
  set_level l none = err_json 409 (codes "level_not_mutable")
  set_level l (some old) = λ w. (
    done (record { level = level_string l; previous = level_string old }),
    record w { level = some l },
  )

  -- handleLogLevel, POST
  unfoldable pub post_log_level : Request → Body Bytes → Handler LevelChange
  unfolding level_of parsed set_level
  post_log_level r sent = do
    require_operator srv r
    body ← level_of sent
    require (not (is_empty (trim_space body))) 400 (codes "level_required")
    l ← parsed (parse_level (trim_space body))
    λ w. set_level l w.level w
