-- ===== src/Http/Codes.antt =====
-- Which one-time codes a handler stores: one rule for each way to build a handler.
use abc_auth_svc.Base.{
  ℕ, ◌≡◌, refl, sym, ◌∙◌, subst, ◌⊎◌, inl, Bool, true, false, Option, none, some, if◌then◌else◌,
  Bytes,
}
use abc_auth_svc.Magic.Codes.{Codes, issue}
use abc_auth_svc.Upstreams.{World, History, Call, Outcome, ok, err, MagicCode}
use abc_auth_svc.Http.{
  Handler, Reply, done, fail, continue, pure, err_json, require, or_fail, present, ask, ◌>>=◌,
}
use abc_auth_svc.Http.Yields.{Yields}

-- `m` leaves the codes as they are.
pub record KeepsCodes {A : Type 0} (m : Handler A) : Type 0 where
  pub at : (w : World) → (m w).1.magic ≡ w.magic

module _ {A : Type 0} where
  pub KeepsCodes-pure : (a : A) → KeepsCodes (pure a)
  unfolding pure
  KeepsCodes-pure a = record { at = λ w. refl }

  pub KeepsCodes-err_json : (status : ℕ) (msg : Bytes) → KeepsCodes (err_json {A = A} status msg)
  unfolding err_json
  KeepsCodes-err_json status msg = record { at = λ w. refl }

  pub KeepsCodes-or_fail :
      (r : Outcome A) (status : ℕ) (msg : Bytes) → KeepsCodes (or_fail r status msg)
  unfolding or_fail
  KeepsCodes-or_fail (ok a) status msg = record { at = λ w. refl }
  KeepsCodes-or_fail err status msg = record { at = λ w. refl }

  pub KeepsCodes-present :
      (o : Option A) (status : ℕ) (msg : Bytes) → KeepsCodes (present o status msg)
  unfolding present
  KeepsCodes-present (some a) status msg = record { at = λ w. refl }
  KeepsCodes-present none status msg = record { at = λ w. refl }

  pub KeepsCodes-ask : (c : Call) (f : History → A) → KeepsCodes (ask c f)
  unfolding ask
  KeepsCodes-ask c f = record { at = λ w. refl }

  pub KeepsCodes-if :
      (b : Bool) (m n : Handler A) → KeepsCodes m → KeepsCodes n → KeepsCodes (if b then m else n)
  KeepsCodes-if true m n hm hn = hm
  KeepsCodes-if false m n hm hn = hn

pub KeepsCodes-require : (b : Bool) (status : ℕ) (msg : Bytes) → KeepsCodes (require b status msg)
unfolding require
KeepsCodes-require true status msg = record { at = λ w. refl }
KeepsCodes-require false status msg = record { at = λ w. refl }

module _ {A B : Type 0} where
  KeepsCodes-continue :
      (r : Reply A) (f : A → Handler B) (w : World)
      → ((a : A) → KeepsCodes (f a))
      → (continue r f w).1.magic ≡ w.magic
  KeepsCodes-continue (done a) f w h = (h a).at w
  KeepsCodes-continue (fail status body) f w h = refl

  pub KeepsCodes-bind :
      (m : Handler A) (f : A → Handler B)
      → KeepsCodes m
      → ((a : A) → KeepsCodes (f a))
      → KeepsCodes (m >>= f)
  unfolding ◌>>=◌
  KeepsCodes-bind m f hm hf = record {
    at = λ w. KeepsCodes-continue (m w).0 f (m w).1 hf ∙ hm.at w;
  }

pub ruleset codes_rules = (
  KeepsCodes-pure, KeepsCodes-err_json, KeepsCodes-or_fail, KeepsCodes-present, KeepsCodes-ask,
  KeepsCodes-if, KeepsCodes-require, KeepsCodes-bind,
)

-- The codes are as before, or one entry was issued at the time `now` of the calls at the end, for
-- which `Q` holds.
abbrev pub IsStored : (History → ℕ) → (ℕ → MagicCode → Type 0) → Codes → Codes → History → Type 0
IsStored now Q m m' end =
    (m' ≡ m)
    ⊎ ((code : Bytes) × (entry : MagicCode) × (m' ≡ issue code entry (now end) m)
        × Q (now end) entry)

pub record StoresOnly {A : Type 0} (now : History → ℕ) (Q : ℕ → MagicCode → Type 0) (m : Handler A)
    : Type 0 where
  pub at : (w : World) → IsStored now Q w.magic (m w).1.magic (m w).1.history

module _ {A B : Type 0} where
  still :
      (r : Reply A) (f : A → Handler B) (w : World)
      → ((a : A) → (f a w).1 ≡ w)
      → (continue r f w).1 ≡ w
  still (done a) f w k = k a
  still (fail status body) f w k = refl

module _ {A B : Type 0} {now : History → ℕ} {Q : ℕ → MagicCode → Type 0} where
  StoresOnly-continue :
      (r : Reply A) (f : A → Handler B) (w : World) {R : A → Type 0}
      → ((a : A) → r ≡ done a → R a)
      → ((a : A) → R a → StoresOnly now Q (f a))
      → IsStored now Q w.magic (continue r f w).1.magic (continue r f w).1.history
  StoresOnly-continue (done a) f w hr h = (h a (hr a refl)).at w
  StoresOnly-continue (fail status body) f w hr h = inl refl

  -- First what keeps the codes, and then what stores one.
  pub StoresOnly-then :
      {R : A → Type 0} (m : Handler A) (f : A → Handler B)
      → KeepsCodes m
      → Yields R m
      → ((a : A) → R a → StoresOnly now Q (f a))
      → StoresOnly now Q (m >>= f)
  unfolding ◌>>=◌
  StoresOnly-then m f hm hr hf = record {
    at = λ w.
        subst
          (λ c.
            IsStored now Q c (continue (m w).0 f (m w).1).1.magic
              (continue (m w).0 f (m w).1).1.history)
          (hm.at w) (StoresOnly-continue (m w).0 f (m w).1 (hr.at w) hf);
  }

  -- First what stores a code, and then what changes nothing.
  pub StoresOnly-before :
      (m : Handler A) (f : A → Handler B)
      → StoresOnly now Q m
      → ((a : A) (w : World) → (f a w).1 ≡ w)
      → StoresOnly now Q (m >>= f)
  unfolding ◌>>=◌
  StoresOnly-before m f hm hf = record {
    at = λ w.
        subst (λ v. IsStored now Q w.magic v.magic v.history)
          (sym (still (m w).0 f (m w).1 (λ a. hf a (m w).1))) (hm.at w);
  }
