-- ===== src/Base/Assoc.antt =====
-- A Go map from strings, as an association list.
use mathlib.Core.Path.{◌≡◌}
use mathlib.Core.Option.{Option, none, some}
use mathlib.Core.List.{List, [], ◌∷◌}
use native.Mathlib.Omega.{arith}
use abc_auth_svc.Base.Tests.{if◌then◌else◌}
use abc_auth_svc.Base.Strings.{Bytes, ◌==◌, ==_iff}

module _ {ℓ} {A : Type ℓ} where
  -- `m[key]`
  unfoldable pub find : Bytes → List (Bytes × A) → Option A
  find key [] = none
  find key ((k, e) ∷ m) = if k == key then some e else find key m

  -- `delete(m, key)`
  unfoldable pub delete : Bytes → List (Bytes × A) → List (Bytes × A)
  delete key [] = []
  delete key ((k, e) ∷ m) = let rest = delete key m in if k == key then rest else (k, e) ∷ rest

  pub find-delete :
      (c k : Bytes) (m : List (Bytes × A))
      → find c (delete k m) ≡ (if k == c then none else find c m)
  unfolding find delete
  find-delete c k [] = ground arith
  find-delete c k ((j, e) ∷ m) =
      ground (arith, find-delete c k m, ==_iff k c, ==_iff j c, ==_iff j k)
