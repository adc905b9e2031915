-- ===== src/Http/Finds.antt =====
-- What a success says of the moment of the request: the handler is read call by call, and each
-- answer is the one at the calls made so far; the predicate is on the value and the calls at the
-- end. One rule for each first step of a handler.
use abc_auth_svc.Base.{
  ◌∙◌, ℕ, ◌≡◌, refl, ap, subst, Bool, true, false, Option, none, some, ◌∷◌, arith, if◌then◌else◌,
  Bytes,
}
use abc_auth_svc.Upstreams.{World, History, Call, Outcome, ok, err}
use abc_auth_svc.Http.Yields.{Yields, done-injective}
use abc_auth_svc.Http.{
  Json, err_object, Handler, Reply, done, fail, continue, pure, require, or_fail, present, ask,
  look, err_json, ◌>>=◌, ◌>>◌,
}
use abc_auth_svc.Base.{sym}
use abc_auth_svc.Base.{List}

-- If `m` succeeds after the calls `h`, its value and the calls at its end satisfy `S`.
pub record Finds {A : Type 0} (h : History) (S : A → History → Type 0) (m : Handler A)
    : Type 0 where
  pub at : (w : World) → w.history ≡ h → (a : A) → (m w).0 ≡ done a → S a (m w).1.history

module _ {A : Type 0} {h : History} {S : A → History → Type 0} where
  pub Finds-pure : (a : A) → S a h → Finds h S (pure a)
  unfolding pure
  Finds-pure a s = record { at = λ w p b e. rw p (subst (λ x. S x h) (done-injective a b e) s) }

  pub Finds-if :
      (b : Bool) (m n : Handler A)
      → (b ≡ true → Finds h S m)
      → (b ≡ false → Finds h S n)
      → Finds h S (if b then m else n)
  Finds-if true m n hm hn = hm refl
  Finds-if false m n hm hn = hn refl

  pub Finds-require :
      (b : Bool) (status : ℕ) (msg : Bytes) (n : Handler A)
      → (b ≡ true → Finds h S n)
      → Finds h S (require b status msg >> n)
  unfolding ◌>>=◌ require pure err_json
  Finds-require true status msg n k = record { at = (k refl).at }
  Finds-require false status msg n k = record { at = λ w p a e. absurd (ground arith) }

pub Finds-at :
    {A : Type 0} {g h : History} {S : A → History → Type 0} (m : Handler A)
    → g ≡ h
    → Finds h S m
    → Finds g S m
Finds-at m same f = record { at = λ w p. f.at w (p ∙ same) }

module _ {A B : Type 0} {S : B → History → Type 0} where
  finds_after :
      (r : Reply A) (k : A → Handler B) (w : World) (b : B)
      → ((a : A) → r ≡ done a → Finds w.history S (k a))
      → (continue r k w).0 ≡ done b
      → S b (continue r k w).1.history
  finds_after (done a) k w b m e = (m a refl).at w refl b e
  finds_after (fail status body) k w b m e = absurd (ground arith)

module _ {A B : Type 0} {h : History} {S : B → History → Type 0} where
  pub Finds-ask :
      (c : Call) (f : History → A) (k : A → Handler B)
      → Finds (c ∷ h) S (k (f h))
      → Finds h S (ask c f >>= k)
  unfolding ◌>>=◌ ask
  Finds-ask c f k m = record {
    at = λ w p b.
        let v : World = record w { history = c ∷ w.history } in
        subst (λ g. (k (f g) v).0 ≡ done b → S b (k (f g) v).1.history) (sym p)
          (m.at v (ap (λ g. c ∷ g) p) b);
  }

  pub Finds-look :
      (f : History → A) (k : A → Handler B) → Finds h S (k (f h)) → Finds h S (look f >>= k)
  unfolding ◌>>=◌ look
  Finds-look f k m = record {
    at = λ w p b.
        subst (λ g. (k (f g) w).0 ≡ done b → S b (k (f g) w).1.history) (sym p) (m.at w p b);
  }

  pub Finds-present :
      (o : Option A) (status : ℕ) (msg : Bytes) (k : A → Handler B)
      → ((a : A) → o ≡ some a → Finds h S (k a))
      → Finds h S (present o status msg >>= k)
  unfolding ◌>>=◌ present pure err_json
  Finds-present (some a) status msg k m = record { at = (m a refl).at }
  Finds-present none status msg k m = record { at = λ w p b e. absurd (ground arith) }

  pub Finds-or_fail :
      (o : Outcome A) (status : ℕ) (msg : Bytes) (k : A → Handler B)
      → ((a : A) → o ≡ ok a → Finds h S (k a))
      → Finds h S (or_fail o status msg >>= k)
  unfolding ◌>>=◌ or_fail pure err_json
  Finds-or_fail (ok a) status msg k m = record { at = (m a refl).at }
  Finds-or_fail err status msg k m = record { at = λ w p b e. absurd (ground arith) }

  pub Finds-value : (a : A) (k : A → Handler B) → Finds h S (k a) → Finds h S (pure a >>= k)
  unfolding ◌>>=◌ pure
  Finds-value a k m = record { at = m.at }

  -- Any first step, whose calls are then not followed.
  pub Finds-any :
      (n : Handler A) (k : A → Handler B)
      → ((a : A) (g : History) → Finds g S (k a))
      → Finds h S (n >>= k)
  unfolding ◌>>=◌
  Finds-any n k m = record {
    at = λ w p b e. finds_after (n w).0 k (n w).1 b (λ a _. m a (n w).1.history) e;
  }

  -- A first step of which something is known.
  pub Finds-then :
      {R : A → History → Type 0} (n : Handler A) (k : A → Handler B)
      → Finds h R n
      → ((a : A) (g : History) → R a g → Finds g S (k a))
      → Finds h S (n >>= k)
  unfolding ◌>>=◌
  Finds-then n k f m = record {
    at = λ w p b e. finds_after (n w).0 k (n w).1 b (λ a d. m a (n w).1.history (f.at w p a d)) e;
  }

module _ {A : Type 0} {h : History} where
  -- What holds of every success holds of one from `h`.
  pub Finds-Yields : {R : A → Type 0} (m : Handler A) → Yields R m → Finds h (λ a _. R a) m
  Finds-Yields m y = record { at = λ w p a e. y.at w a e }

  pub Finds-err_json :
      {S : A → History → Type 0} (status : ℕ) (msg : Bytes) → Finds h S (err_json status msg)
  unfolding err_json
  Finds-err_json status msg = record { at = λ w p a e. absurd (ground arith) }

  pub Finds-err_object :
      {S : A → History → Type 0} (status : ℕ) (body : List (Bytes × Json))
      → Finds h S (err_object status body)
  unfolding err_object
  Finds-err_object status body = record { at = λ w p a e. absurd (ground arith) }

  -- An answer that must be there, as the last step.
  pub Finds-some :
      {S : A → History → Type 0} (o : Option A) (status : ℕ) (msg : Bytes)
      → ((a : A) → o ≡ some a → S a h)
      → Finds h S (present o status msg)
  unfolding present
  Finds-some (some a) status msg k = Finds-pure a (k a refl)
  Finds-some none status msg k = Finds-err_json status msg
