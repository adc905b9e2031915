-- ===== src/Magic/Codes.antt =====
-- magicCodeStore (magic.go): codes are used once and until their expiry.
pub mod Refinement
use abc_auth_svc.Base.{
  find, delete, find-delete, ℕ, ◌≡◌, ◌≢◌, Option, none, some, List, [], ◌∷◌, arith, ltb,
  if◌then◌else◌, Bytes, ◌==◌, ==_refl, ==_iff,
}
use abc_auth_svc.Upstreams.{MagicCode}

abbrev pub Codes : Type 0
Codes = List (Bytes × MagicCode)

-- The sweep: entries with `Expiry.Before(now)` go.
unfoldable pub sweep : ℕ → Codes → Codes
sweep now [] = []
sweep now ((k, e) ∷ m) = let rest = sweep now m in if ltb e.expiry now then rest else (k, e) ∷ rest

-- issue, for the code that was drawn.
unfoldable pub issue : Bytes → MagicCode → ℕ → Codes → Codes
issue code entry now m = (code, entry) ∷ delete code (sweep now m)

unfoldable pub unexpired : ℕ → Option MagicCode → Option MagicCode
unexpired now none = none
unexpired now (some e) = if ltb e.expiry now then none else some e

-- redeem: the entry leaves the store, and is returned if it has not expired.
unfoldable pub redeem : Bytes → ℕ → Codes → Option MagicCode × Codes
unfolding unexpired
redeem code now m = (unexpired now (find code m), delete code m)

-- A code is redeemed at most once: after a redemption of `code`, successful or not, a second one
-- returns nothing at any later time.
pub redeem_twice :
    (code : Bytes) (now later : ℕ) (m : Codes) → (redeem code later (redeem code now m).1).0 ≡ none
unfolding redeem
redeem_twice code now later m = rw (find-delete code code m, ==_refl code)

-- Redeeming one code leaves what every other code redeems.
pub redeem_other :
    (code other : Bytes) (now later : ℕ) (m : Codes)
    → code ≢ other
    → (redeem other later (redeem code now m).1).0 ≡ (redeem other later m).0
unfolding redeem
redeem_other code other now later m ne = ground (arith, find-delete other code m, ==_iff code other)

-- A fresh code is redeemed for its entry until its expiry has passed, and for nothing afterwards.
pub redeem-issue :
    (code : Bytes) (entry : MagicCode) (now later : ℕ) (m : Codes)
    → (redeem code later (issue code entry now m)).0
      ≡ (if ltb entry.expiry later then none else some entry)
unfolding redeem issue find
redeem-issue code entry now later m = rw (==_refl code)
