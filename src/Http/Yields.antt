-- ===== src/Http/Yields.antt =====
-- What a handler that succeeds has found out: one rule for each way to build a handler.
use abc_auth_svc.Base.{
  ℕ, ◌≡◌, refl, sym, ap, subst, Bool, true, false, Option, none, some, List, arith, if◌then◌else◌,
  Bytes, not,
}
use abc_auth_svc.Upstreams.{World, History, Call, Outcome, ok, err}
use abc_auth_svc.Http.{
  Handler, Reply, done, fail, Json, continue, pure, err_json, err_object, require, or_fail, present,
  ask, look, ◌>>=◌,
}
use abc_auth_svc.Http.Calls.{OnlyCalls, IsClosed}

-- If `m` succeeds, its value satisfies `R`.
pub record Yields {A : Type 0} (R : A → Type 0) (m : Handler A) : Type 0 where
  pub at : (w : World) (a : A) → (m w).0 ≡ done a → R a

module _ {A : Type 0} where
  pub done-injective : (a b : A) → (done a ≡ done b) → a ≡ b
  done-injective a b e = ground arith

module _ {A : Type 0} {R : A → Type 0} where
  pub Yields-pure : (a : A) → R a → Yields R (pure a)
  unfolding pure
  Yields-pure a r = record { at = λ w b e. subst R (done-injective a b e) r }

  pub Yields-err_json : (status : ℕ) (msg : Bytes) → Yields R (err_json status msg)
  unfolding err_json
  Yields-err_json status msg = record { at = λ w b e. absurd (ground arith) }

  pub Yields-err_object :
      (status : ℕ) (body : List (Bytes × Json)) → Yields R (err_object status body)
  unfolding err_object
  Yields-err_object status body = record { at = λ w b e. absurd (ground arith) }

  pub Yields-if :
      (b : Bool) (m n : Handler A)
      → (b ≡ true → Yields R m)
      → (b ≡ false → Yields R n)
      → Yields R (if b then m else n)
  Yields-if true m n hm hn = hm refl
  Yields-if false m n hm hn = hn refl

module _ {A : Type 0} where
  pub Yields-or_fail :
      (r : Outcome A) (status : ℕ) (msg : Bytes) → Yields (λ a. r ≡ ok a) (or_fail r status msg)
  unfolding or_fail pure err_json
  Yields-or_fail (ok x) status msg = record { at = λ w a e. ap ok (done-injective x a e) }
  Yields-or_fail err status msg = record { at = λ w a e. absurd (ground arith) }

  pub Yields-present :
      (o : Option A) (status : ℕ) (msg : Bytes) → Yields (λ a. o ≡ some a) (present o status msg)
  unfolding present pure err_json
  Yields-present (some x) status msg = record { at = λ w a e. ap some (done-injective x a e) }
  Yields-present none status msg = record { at = λ w a e. absurd (ground arith) }

  pub Yields-ask : (c : Call) (f : History → A) → Yields (λ a. (h : History) × (a ≡ f h)) (ask c f)
  unfolding ask
  Yields-ask c f = record { at = λ w a e. (w.history, sym (done-injective _ a e)) }

  pub Yields-look : (f : History → A) → Yields (λ a. (h : History) × (a ≡ f h)) (look f)
  unfolding look
  Yields-look f = record { at = λ w a e. (w.history, sym (done-injective _ a e)) }

  pub Yields-any : (m : Handler A) → Yields (λ a. Unit {0}) m
  Yields-any m = record { at = λ w a e. tt }

-- What a guard with a negation has tested.
pub not-true : (b : Bool) → not b ≡ true → b ≡ false
not-true b h = ground arith

module _ {A : Type 0} {R S : A → Type 0} where
  pub Yields-weaken : (m : Handler A) → Yields R m → ((a : A) → R a → S a) → Yields S m
  Yields-weaken m h f = record { at = λ w a e. f a (h.at w a e) }

pub Yields-require :
    (b : Bool) (status : ℕ) (msg : Bytes) → Yields (λ a. b ≡ true) (require b status msg)
unfolding require err_json
Yields-require true status msg = record { at = λ w a e. refl }
Yields-require false status msg = record { at = λ w a e. absurd (ground arith) }

module _ {A B : Type 0} {R : A → Type 0} {S : B → Type 0} where
  Yields-continue :
      (r : Reply A) (f : A → Handler B) (w : World)
      → ((a : A) → r ≡ done a → R a)
      → ((a : A) → R a → Yields S (f a))
      → (b : B) → (continue r f w).0 ≡ done b
      → S b
  Yields-continue (done a) f w hr hf b e = (hf a (hr a refl)).at w b e
  Yields-continue (fail status body) f w hr hf b e = absurd (ground arith)

  pub Yields-bind :
      (m : Handler A) (f : A → Handler B)
      → Yields R m
      → ((a : A) → R a → Yields S (f a))
      → Yields S (m >>= f)
  unfolding ◌>>=◌
  Yields-bind m f hm hf = record {
    at = λ w b e. Yields-continue (m w).0 f (m w).1 (hm.at w) hf b e;
  }

module _ {A B : Type 0} {R : A → Type 0} {Q : Call → Type 0} where
  OnlyCalls-after :
      (I : History → Type 0) (r : Reply A) (f : A → Handler B) (w : World)
      → IsClosed Q I
      → ((a : A) → r ≡ done a → R a)
      → ((a : A) → R a → OnlyCalls Q (f a))
      → I w.history
      → I (continue r f w).1.history
  OnlyCalls-after I (done a) f w closed hr hf i = (hf a (hr a refl)).at I closed w i
  OnlyCalls-after I (fail status body) f w closed hr hf i = i

  -- The calls of the rest may depend on what the first part has found out.
  pub OnlyCalls-then :
      (m : Handler A) (f : A → Handler B)
      → OnlyCalls Q m
      → Yields R m
      → ((a : A) → R a → OnlyCalls Q (f a))
      → OnlyCalls Q (m >>= f)
  unfolding ◌>>=◌
  OnlyCalls-then m f hm hr hf = record {
    at = λ I closed w i.
        OnlyCalls-after I (m w).0 f (m w).1 closed (hr.at w) hf (hm.at I closed w i);
  }
