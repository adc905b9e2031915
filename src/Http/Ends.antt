-- ===== src/Http/Ends.antt =====
-- What holds of the value and of the world when a handler succeeds: a rule for the last step counts,
-- the steps before it only have to succeed.
use abc_auth_svc.Base.{◌≡◌, Bool, true, false, if◌then◌else◌, arith, refl}
use abc_auth_svc.Upstreams.{World, History}
use abc_auth_svc.Http.{Handler, Reply, done, fail, continue, ◌>>=◌}
use abc_auth_svc.Http.{pure}
use abc_auth_svc.Http.{look}
use abc_auth_svc.Base.{subst}

-- If `m` succeeds, its value and the world after it satisfy `R`.
pub record Ends {A : Type 0} (R : A → World → Type 0) (m : Handler A) : Type 0 where
  pub at : (w : World) (a : A) → (m w).0 ≡ done a → R a (m w).1

module _ {A : Type 0} where
  done-injective : (a b : A) → (done a ≡ done b) → a ≡ b
  done-injective a b e = ground arith

module _ {A : Type 0} {R : A → World → Type 0} where
  continue-Ends :
      {B : Type 0} (o : Reply B) (f : B → Handler A)
      → ((b : B) → Ends R (f b))
      → (w : World) (a : A) → (continue o f w).0 ≡ done a
      → R a (continue o f w).1
  continue-Ends (done b) f h w a e = (h b).at w a e
  continue-Ends (fail status body) f h w a e = absurd (ground arith)

  pub Ends-bind :
      {B : Type 0} (m : Handler B) (f : B → Handler A) → ((b : B) → Ends R (f b)) → Ends R (m >>= f)
  unfolding ◌>>=◌
  Ends-bind m f h = record { at = λ w a e. continue-Ends (m w).0 f h (m w).1 a e }

  pub Ends-if :
      (b : Bool) (m n : Handler A)
      → (b ≡ true → Ends R m)
      → (b ≡ false → Ends R n)
      → Ends R (if b then m else n)
  Ends-if true m n hm hn = hm refl
  Ends-if false m n hm hn = hn refl

  pub Ends-pure : (a : A) → ((w : World) → R a w) → Ends R (pure a)
  unfolding pure
  Ends-pure a h = record { at = λ w b e. subst (λ c. R c w) (done-injective a b e) (h w) }

  -- A look at the clock, and a value made from it.
  pub Ends-look :
      {B : Type 0} (f : History → B) (g : B → A)
      → ((w : World) → R (g (f w.history)) w)
      → Ends R (look f >>= λ b. pure (g b))
  unfolding ◌>>=◌ look pure
  Ends-look f g h = record { at = λ w b e. subst (λ c. R c w) (done-injective _ b e) (h w) }
