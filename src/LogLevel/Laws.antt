-- ===== src/LogLevel/Laws.antt =====
-- Changing the level, and what an operator's token guards.
use abc_auth_svc.Base.{
  ℕ, ◌≡◌, refl, ◌⊎◌, inl, inr, Bool, true, false, Option, none, some, [], Bytes, codes, ◌==◌,
}
use abc_auth_svc.Text.{to_lower, trim_space}
use abc_auth_svc.Text.Decimal.{Int64}
use abc_auth_svc.Upstreams.{Server, World, Outcome, ok, err}
use abc_auth_svc.Http.{
  Handler, ◌>>=◌, ◌>>◌, require, pure, err_json, Request, Reply, done, Body, empty, malformed,
  decoded, require_operator,
}
use abc_auth_svc.Http.Calls.{IsFailure}
use abc_auth_svc.LogLevel.{
  l1, l2, l3, parse_level, level_string, post_log_level, level_of, parsed, set_level, LevelChange,
}

-- The three levels of the service.
abbrev pub IsLevel : Int64 → Type 0
IsLevel l = (l ≡ l1) ⊎ ((l ≡ l2) ⊎ (l ≡ l3))

-- What each of the service's three levels is reported as, parses as that level again.
pub parse_level-level_string : (l : Int64) → IsLevel l → parse_level (level_string l) ≡ ok l
unfolding parse_level level_string ◌==◌ to_lower trim_space codes
parse_level-level_string l (inl e) = rw e refl
parse_level-level_string l (inr (inl e)) = rw e refl
parse_level-level_string l (inr (inr e)) = rw e refl

pub text_of : Body Bytes → Bytes
text_of (decoded l) = l
text_of _ = []

-- Either a failure that changes nothing, or the level of the text is set and both are reported.
pub IsChange : Bytes → World → Reply LevelChange × World → Type 0
IsChange text w (reply, w') =
    (IsFailure reply × (w' ≡ w))
    ⊎ ((l : Int64) × (old : Int64) × (parse_level (trim_space text) ≡ ok l)
        × (w.level ≡ some old)
        × (reply ≡ done (record { level = level_string l; previous = level_string old }))
        × (w' ≡ record w { level = some l }))

module _ (srv : Server) where
  set_level-IsChange :
      (text : Bytes) (l : Int64) (o : Option Int64) (w : World)
      → parse_level (trim_space text) ≡ ok l
      → w.level ≡ o
      → IsChange text w (set_level srv l o w)
  unfolding set_level IsChange err_json
  set_level-IsChange text l none w p e = inl (tt, refl)
  set_level-IsChange text l (some old) w p e = inr (l, old, p, e, refl, refl)

  parsed-IsChange :
      (text : Bytes) (o : Outcome Int64) (w : World)
      → parse_level (trim_space text) ≡ o
      → IsChange text w ((parsed srv o >>= λ l. λ w. set_level srv l w.level w) w)
  unfolding parsed ◌>>=◌ IsChange pure
  parsed-IsChange text (ok l) w p = set_level-IsChange text l w.level w p refl
  parsed-IsChange text err w p = inl (tt, refl)

  require-IsChange :
      (text : Bytes) (b : Bool) (status : ℕ) (msg : Bytes) (m : Handler LevelChange) (w : World)
      → IsChange text w (m w)
      → IsChange text w ((require b status msg >> m) w)
  unfolding ◌>>=◌ IsChange pure err_json require
  require-IsChange text true status msg m w h = h
  require-IsChange text false status msg m w h = inl (tt, refl)

  level_of-IsChange :
      (sent : Body Bytes) (m : Bytes → Handler LevelChange) (w : World)
      → ((text : Bytes) → text ≡ text_of sent → IsChange (text_of sent) w (m text w))
      → IsChange (text_of sent) w ((level_of srv sent >>= m) w)
  unfolding level_of ◌>>=◌ IsChange pure text_of err_json
  level_of-IsChange empty m w h = h [] refl
  level_of-IsChange malformed m w h = inl (tt, refl)
  level_of-IsChange (decoded l) m w h = h l refl

  -- A change of the level that succeeds sets the level that the text of the body names, where the
  -- level can be changed, and reports that level and the one before; one that fails changes nothing.
  pub post_log_level-IsChange :
      (r : Request) (sent : Body Bytes) (w : World)
      → IsChange (text_of sent) w (post_log_level srv r sent w)
  unfolding post_log_level require_operator
  post_log_level-IsChange r sent w = require-IsChange (text_of sent) _ 401 _ _ w (
      level_of-IsChange sent _ w λ text e.
        require-IsChange (text_of sent) _ 400 _ _ w
          (parsed-IsChange (text_of sent) (parse_level (trim_space text)) w (rw e refl)))
