-- ===== src/LogLevel/Calls.antt =====
-- The log level: the calls that are made, by the state that they give a slot.
use abc_auth_svc.Base.{Option, none, some, Bytes}
use abc_auth_svc.Upstreams.{Server, Outcome, ok, err}
use abc_auth_svc.Http.{Request, Body, empty, malformed, decoded, require_operator}
use abc_auth_svc.Http.Calls.{OnlyCalls, calls_rules, OnlyCalls-bind}
use abc_auth_svc.Claim.Race.{KeepsClaims}
use abc_auth_svc.Text.Decimal.{Int64}
use abc_auth_svc.LogLevel.{get_log_level, post_log_level, level_of, parsed, set_level}

module _ (srv : Server) where
  pub get_log_level-KeepsClaims : (r : Request) → OnlyCalls KeepsClaims (get_log_level srv r)
  unfolding get_log_level require_operator
  get_log_level-KeepsClaims r =
      OnlyCalls-bind _ _ (search calls_rules) λ _. record { at = λ I closed w i. i }

  level_of-KeepsClaims : (sent : Body Bytes) → OnlyCalls KeepsClaims (level_of srv sent)
  unfolding level_of
  level_of-KeepsClaims empty = search calls_rules
  level_of-KeepsClaims malformed = search calls_rules
  level_of-KeepsClaims (decoded l) = search calls_rules

  parsed-KeepsClaims : (o : Outcome Int64) → OnlyCalls KeepsClaims (parsed srv o)
  unfolding parsed
  parsed-KeepsClaims (ok l) = search calls_rules
  parsed-KeepsClaims err = search calls_rules

  set_level-KeepsClaims : (l : Int64) (o : Option Int64) → OnlyCalls KeepsClaims (set_level srv l o)
  unfolding set_level
  set_level-KeepsClaims l none = search calls_rules
  set_level-KeepsClaims l (some old) = record { at = λ I closed w i. i }

  set_now-KeepsClaims : (l : Int64) → OnlyCalls KeepsClaims (λ w. set_level srv l w.level w)
  set_now-KeepsClaims l = record {
    at = λ I closed w. (set_level-KeepsClaims l w.level).at I closed w;
  }

  pub post_log_level-KeepsClaims :
      (r : Request) (sent : Body Bytes) → OnlyCalls KeepsClaims (post_log_level srv r sent)
  unfolding post_log_level require_operator
  post_log_level-KeepsClaims r sent =
      search (calls_rules, level_of-KeepsClaims, parsed-KeepsClaims, set_now-KeepsClaims) depth 20
