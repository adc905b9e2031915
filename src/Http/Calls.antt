-- ===== src/Http/Calls.antt =====
-- Which calls a handler makes, and which handlers cannot fail: one rule for each way to build a
-- handler, for `search`.
use abc_auth_svc.Base.{
  ◌∷◌, ℕ, ◌≡◌, refl, subst, Bool, true, false, Option, none, some, List, if◌then◌else◌, All, Bytes,
}
use abc_auth_svc.Upstreams.{World, History, Call, Outcome, ok, err}
use abc_auth_svc.Http.{
  Handler, Reply, done, fail, Json, continue, pure, err_json, err_object, require, or_fail, present,
  ask, look, when, ◌>>=◌,
}

-- What a call that satisfies `Q` does not break.
abbrev pub IsClosed : (Call → Type 0) → (History → Type 0) → Type 0
IsClosed Q I = (c : Call) (h : History) → Q c → I h → I (c ∷ h)

-- Whether `m` succeeds or fails, every call that it makes satisfies `Q`: what such calls do not
-- break, it keeps.
pub record OnlyCalls {A : Type 0} (Q : Call → Type 0) (m : Handler A) : Type 1 where
  pub at : (I : History → Type 0) → IsClosed Q I → (w : World) → I w.history → I (m w).1.history

-- If all calls before `m` satisfy `Q`, so do all calls after it.
pub all_calls :
    {A : Type 0} {Q : Call → Type 0} {m : Handler A}
    → OnlyCalls Q m
    → (w : World) → All Q w.history
    → All Q (m w).1.history
all_calls {Q = Q} k w h = k.at (All Q) (λ c g q i. (q, i)) w h

module _ {A : Type 0} {Q : Call → Type 0} where
  pub OnlyCalls-pure : (a : A) → OnlyCalls Q (pure a)
  unfolding pure
  OnlyCalls-pure a = record { at = λ I closed w i. i }

  pub OnlyCalls-err_json : (status : ℕ) (msg : Bytes) → OnlyCalls Q (err_json {A = A} status msg)
  unfolding err_json
  OnlyCalls-err_json status msg = record { at = λ I closed w i. i }

  pub OnlyCalls-err_object :
      (status : ℕ) (body : List (Bytes × Json)) → OnlyCalls Q (err_object {A = A} status body)
  unfolding err_object
  OnlyCalls-err_object status body = record { at = λ I closed w i. i }

  pub OnlyCalls-or_fail :
      (r : Outcome A) (status : ℕ) (msg : Bytes) → OnlyCalls Q (or_fail r status msg)
  unfolding or_fail
  OnlyCalls-or_fail (ok a) status msg = record { at = λ I closed w i. i }
  OnlyCalls-or_fail err status msg = record { at = λ I closed w i. i }

  pub OnlyCalls-present :
      (o : Option A) (status : ℕ) (msg : Bytes) → OnlyCalls Q (present o status msg)
  unfolding present
  OnlyCalls-present (some a) status msg = record { at = λ I closed w i. i }
  OnlyCalls-present none status msg = record { at = λ I closed w i. i }

  pub OnlyCalls-ask : (c : Call) (f : History → A) → Q c → OnlyCalls Q (ask c f)
  unfolding ask
  OnlyCalls-ask c f q = record { at = λ I closed w i. closed c w.history q i }

  pub OnlyCalls-look : (f : History → A) → OnlyCalls Q (look f)
  unfolding look
  OnlyCalls-look f = record { at = λ I closed w i. i }

  pub OnlyCalls-if :
      (b : Bool) (m n : Handler A)
      → OnlyCalls Q m
      → OnlyCalls Q n
      → OnlyCalls Q (if b then m else n)
  OnlyCalls-if true m n hm hn = hm
  OnlyCalls-if false m n hm hn = hn

module _ {Q : Call → Type 0} where
  pub OnlyCalls-require : (b : Bool) (status : ℕ) (msg : Bytes) → OnlyCalls Q (require b status msg)
  unfolding require
  OnlyCalls-require true status msg = record { at = λ I closed w i. i }
  OnlyCalls-require false status msg = record { at = λ I closed w i. i }

  pub OnlyCalls-when : (b : Bool) (m : Handler (Unit {0})) → OnlyCalls Q m → OnlyCalls Q (when b m)
  unfolding when
  OnlyCalls-when true m h = h
  OnlyCalls-when false m h = record { at = λ I closed w i. i }

module _ {A B : Type 0} {Q : Call → Type 0} where
  OnlyCalls-continue :
      (r : Reply A) (f : A → Handler B)
      → ((a : A) → OnlyCalls Q (f a))
      → OnlyCalls Q (λ w. continue r f w)
  OnlyCalls-continue (done a) f h = record { at = (h a).at }
  OnlyCalls-continue (fail status body) f h = record { at = λ I closed w i. i }

  pub OnlyCalls-bind :
      (m : Handler A) (f : A → Handler B)
      → OnlyCalls Q m
      → ((a : A) → OnlyCalls Q (f a))
      → OnlyCalls Q (m >>= f)
  unfolding ◌>>=◌
  OnlyCalls-bind m f hm hf = record {
    at = λ I closed w i. (OnlyCalls-continue (m w).0 f hf).at I closed (m w).1 (hm.at I closed w i);
  }

pub ruleset calls_rules = (
  OnlyCalls-pure, OnlyCalls-err_json, OnlyCalls-err_object, OnlyCalls-or_fail, OnlyCalls-present,
  OnlyCalls-ask, OnlyCalls-look, OnlyCalls-if, OnlyCalls-require, OnlyCalls-when, OnlyCalls-bind,
  tt,
)

-- `m` always succeeds.
pub record Succeeds {A : Type 0} (m : Handler A) : Type 0 where
  pub at : (w : World) → (a : A) × ((m w).0 ≡ done a)

module _ {A : Type 0} where
  pub Succeeds-pure : (a : A) → Succeeds (pure a)
  unfolding pure
  Succeeds-pure a = record { at = λ w. (a, refl) }

  pub Succeeds-ask : (c : Call) (f : History → A) → Succeeds (ask c f)
  unfolding ask
  Succeeds-ask c f = record { at = λ w. (f w.history, refl) }

  pub Succeeds-look : (f : History → A) → Succeeds (look f)
  unfolding look
  Succeeds-look f = record { at = λ w. (f w.history, refl) }

  pub Succeeds-if :
      (b : Bool) (m n : Handler A) → Succeeds m → Succeeds n → Succeeds (if b then m else n)
  Succeeds-if true m n hm hn = hm
  Succeeds-if false m n hm hn = hn

pub Succeeds-when : (b : Bool) (m : Handler (Unit {0})) → Succeeds m → Succeeds (when b m)
unfolding when
Succeeds-when true m h = h
Succeeds-when false m h = Succeeds-pure tt

module _ {A B : Type 0} where
  pub Succeeds-bind :
      (m : Handler A) (f : A → Handler B)
      → Succeeds m
      → ((a : A) → Succeeds (f a))
      → Succeeds (m >>= f)
  unfolding ◌>>=◌
  Succeeds-bind m f hm hf = record {
    at = λ w. let (a, e) = hm.at w in rw (e, continue) ((hf a).at (m w).1);
  }

pub ruleset success_rules =
    (Succeeds-pure, Succeeds-ask, Succeeds-look, Succeeds-if, Succeeds-when, Succeeds-bind)

abbrev pub IsFailure : {A : Type 0} → Reply A → Type 0
IsFailure (done a) = ⊥
IsFailure (fail status body) = Unit

-- If `m` fails, every call that it has made satisfies `Q`.
pub record FailsOnly {A : Type 0} (Q : Call → Type 0) (m : Handler A) : Type 0 where
  pub at : (w : World) → All Q w.history → IsFailure (m w).0 → All Q (m w).1.history

module _ {A : Type 0} {Q : Call → Type 0} where
  pub FailsOnly-of_OnlyCalls : (m : Handler A) → OnlyCalls Q m → FailsOnly Q m
  FailsOnly-of_OnlyCalls m h = record { at = λ w k _. all_calls h w k }

  pub FailsOnly-of_Succeeds : (m : Handler A) → Succeeds m → FailsOnly Q m
  FailsOnly-of_Succeeds m h = record {
    at = λ w k e. let (a, p) = h.at w in absurd (subst IsFailure p e);
  }

module _ {A B : Type 0} {Q : Call → Type 0} where
  FailsOnly-continue :
      (r : Reply A) (f : A → Handler B)
      → ((a : A) → FailsOnly Q (f a))
      → FailsOnly Q (λ w. continue r f w)
  FailsOnly-continue (done a) f h = record { at = (h a).at }
  FailsOnly-continue (fail status body) f h = record { at = λ w k _. k }

  pub FailsOnly-bind :
      (m : Handler A) (f : A → Handler B)
      → OnlyCalls Q m
      → ((a : A) → FailsOnly Q (f a))
      → FailsOnly Q (m >>= f)
  unfolding ◌>>=◌
  FailsOnly-bind m f hm hf = record {
    at = λ w h. (FailsOnly-continue (m w).0 f hf).at (m w).1 (all_calls hm w h);
  }
