-- ===== src/Http/Triple.antt =====
-- What a run of a handler does to the history of the calls: from a history that satisfies the first
-- predicate, a success leaves one that satisfies the second, and a failure one that satisfies the
-- third. One rule for each way to build a handler.
use abc_auth_svc.Base.{
  ℕ, ◌≡◌, refl, Bool, true, false, Option, none, some, List, ◌∷◌, if◌then◌else◌, Bytes,
}
use abc_auth_svc.Base.{subst}
use abc_auth_svc.Http.Yields.{Yields}
use abc_auth_svc.Upstreams.{World, History, Call, Outcome, ok, err}
use abc_auth_svc.Http.{
  Handler, Reply, done, fail, Json, continue, pure, err_json, err_object, require, or_fail, present,
  ask, look, ◌>>=◌,
}

abbrev pub EndsIn :
    {A : Type 0} → (History → Type 0) → (A → History → Type 0) → Reply A → History → Type 0
EndsIn F R (done a) h = R a h
EndsIn F R (fail status body) h = F h

pub record Triple {A : Type 0} (F P : History → Type 0) (R : A → History → Type 0) (m : Handler A)
    : Type 0 where
  pub at : (w : World) → P w.history → EndsIn F R (m w).0 (m w).1.history

-- A success of `m` keeps the predicate.
abbrev pub Keeps : {A : Type 0} → (History → Type 0) → (History → Type 0) → Handler A → Type 0
Keeps F I m = Triple F I (λ a. I) m

module _ {A : Type 0} {F P : History → Type 0} {R : A → History → Type 0} where
  pub Triple-pure : (a : A) → ((h : History) → P h → R a h) → Triple F P R (pure a)
  unfolding pure
  Triple-pure a k = record { at = λ w. k w.history }

  pub Triple-err_json :
      (status : ℕ) (msg : Bytes) → ((h : History) → P h → F h) → Triple F P R (err_json status msg)
  unfolding err_json
  Triple-err_json status msg k = record { at = λ w. k w.history }

  pub Triple-err_object :
      (status : ℕ) (body : List (Bytes × Json))
      → ((h : History) → P h → F h)
      → Triple F P R (err_object status body)
  unfolding err_object
  Triple-err_object status body k = record { at = λ w. k w.history }

  pub Triple-or_fail :
      (r : Outcome A) (status : ℕ) (msg : Bytes)
      → ((h : History) → P h → F h)
      → ((a : A) (h : History) → r ≡ ok a → P h → R a h)
      → Triple F P R (or_fail r status msg)
  unfolding or_fail
  Triple-or_fail (ok a) status msg kf kr = record { at = λ w. kr a w.history refl }
  Triple-or_fail err status msg kf kr = record { at = λ w. kf w.history }

  pub Triple-present :
      (o : Option A) (status : ℕ) (msg : Bytes)
      → ((h : History) → P h → F h)
      → ((a : A) (h : History) → o ≡ some a → P h → R a h)
      → Triple F P R (present o status msg)
  unfolding present
  Triple-present (some a) status msg kf kr = record { at = λ w. kr a w.history refl }
  Triple-present none status msg kf kr = record { at = λ w. kf w.history }

  pub Triple-ask :
      (c : Call) (f : History → A)
      → ((h : History) → P h → R (f h) (c ∷ h))
      → Triple F P R (ask c f)
  unfolding ask
  Triple-ask c f k = record { at = λ w. k w.history }

  pub Triple-look : (f : History → A) → ((h : History) → P h → R (f h) h) → Triple F P R (look f)
  unfolding look
  Triple-look f k = record { at = λ w. k w.history }

  pub Triple-if :
      (b : Bool) (m n : Handler A)
      → Triple F P R m
      → Triple F P R n
      → Triple F P R (if b then m else n)
  Triple-if true m n hm hn = hm
  Triple-if false m n hm hn = hn

module _ {F P : History → Type 0} {R : Unit {0} → History → Type 0} where
  pub Triple-require :
      (b : Bool) (status : ℕ) (msg : Bytes)
      → ((h : History) → P h → F h)
      → ((h : History) → b ≡ true → P h → R tt h)
      → Triple F P R (require b status msg)
  unfolding require
  Triple-require true status msg kf kr = record { at = λ w. kr w.history refl }
  Triple-require false status msg kf kr = record { at = λ w. kf w.history }

module _ {A B : Type 0} {F : History → Type 0} {S : B → History → Type 0} where
  continue-EndsIn :
      (R : A → History → Type 0) (r : Reply A) (f : A → Handler B) (w : World)
      → ((a : A) → Triple F (R a) S (f a))
      → EndsIn F R r w.history
      → EndsIn F S (continue r f w).0 (continue r f w).1.history
  continue-EndsIn R (done a) f w k e = (k a).at w e
  continue-EndsIn R (fail status body) f w k e = e

module _ {A B : Type 0} {F P : History → Type 0} {S : B → History → Type 0} where
  pub Triple-bind :
      (R : A → History → Type 0) (m : Handler A) (f : A → Handler B)
      → Triple F P R m
      → ((a : A) → Triple F (R a) S (f a))
      → Triple F P S (m >>= f)
  unfolding ◌>>=◌
  Triple-bind R m f t k = record { at = λ w p. continue-EndsIn R (m w).0 f (m w).1 k (t.at w p) }

  pub Triple-value : (a : A) (f : A → Handler B) → Triple F P S (f a) → Triple F P S (pure a >>= f)
  unfolding ◌>>=◌ pure
  Triple-value a f t = record { at = t.at }

module _ {A : Type 0} {F P : History → Type 0} {R : A → History → Type 0} {m : Handler A} where
  -- A fact that is known beside the predicate.
  pub Triple-given : {X : Type 0} → (X → Triple F P R m) → Triple F (λ h. X × P h) R m
  Triple-given k = record { at = λ w (x, p). (k x).at w p }

  -- What a success has found out.
  pub Triple-done :
      Triple F P R m → (w : World) (a : A) → P w.history → (m w).0 ≡ done a → R a (m w).1.history
  Triple-done t w a p e = subst (λ r. EndsIn F R r (m w).1.history) e (t.at w p)

  -- What is found out of the value alone.
  pub Triple-and :
      {S : A → Type 0} → Triple F P R m → Yields S m → Triple F P (λ a h. R a h × S a) m
  Triple-and {S} t y = record { at = λ w p. both (m w).0 (m w).1.history (t.at w p) (y.at w) }
    where
      both :
          (r : Reply A) (h : History)
          → EndsIn F R r h
          → ((a : A) → r ≡ done a → S a)
          → EndsIn F (λ a h. R a h × S a) r h
      both (done a) h i k = (i, k a refl)
      both (fail status body) h i k = i

-- What fails leaves what it kept to the failure.
module _ {A : Type 0} {F I : History → Type 0} where
  pub Keeps-pure : (a : A) → Keeps F I (pure a)
  Keeps-pure a = Triple-pure a λ h i. i

  pub Keeps-err_json :
      (status : ℕ) (msg : Bytes)
      → ((h : History) → I h → F h)
      → Keeps F I (err_json {A = A} status msg)
  Keeps-err_json status msg k = Triple-err_json status msg k

  pub Keeps-err_object :
      (status : ℕ) (body : List (Bytes × Json))
      → ((h : History) → I h → F h)
      → Keeps F I (err_object {A = A} status body)
  Keeps-err_object status body k = Triple-err_object status body k

  pub Keeps-or_fail :
      (r : Outcome A) (status : ℕ) (msg : Bytes)
      → ((h : History) → I h → F h)
      → Keeps F I (or_fail r status msg)
  Keeps-or_fail r status msg k = Triple-or_fail r status msg k λ a h e i. i

  pub Keeps-ask :
      (c : Call) (f : History → A) → ((h : History) → I h → I (c ∷ h)) → Keeps F I (ask c f)
  Keeps-ask c f k = Triple-ask c f k

  pub Keeps-look : (f : History → A) → Keeps F I (look f)
  Keeps-look f = Triple-look f λ h i. i

  pub Keeps-if :
      (b : Bool) (m n : Handler A) → Keeps F I m → Keeps F I n → Keeps F I (if b then m else n)
  Keeps-if b m n km kn = Triple-if b m n km kn

module _ {A B : Type 0} {F I : History → Type 0} where
  pub Keeps-bind :
      (m : Handler A) (f : A → Handler B)
      → Keeps F I m
      → ((a : A) → Keeps F I (f a))
      → Keeps F I (m >>= f)
  Keeps-bind m f km kf = Triple-bind (λ a. I) m f km kf

pub ruleset keeps_rules = (
  Keeps-pure, Keeps-err_json, Keeps-err_object, Keeps-or_fail, Keeps-ask, Keeps-look, Keeps-if,
  Keeps-bind, tt,
)
