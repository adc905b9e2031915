-- ===== src/Magic/Codes/Refinement.antt =====
-- The code store against a store that is a function of the code, keeps each entry until it is
-- redeemed and never sweeps.
use abc_auth_svc.Base.{
  ℕ, ◌≤◌, ◌≡◌, refl, ◌∙◌, inl, inr, Option, none, some, List, [], ◌∷◌, arith, ltb, if◌then◌else◌,
  Bool-cases, Bytes, ◌==◌, ==_refl, ==_iff, find, delete, find-delete,
}
use abc_auth_svc.Upstreams.{MagicCode}
use abc_auth_svc.Magic.Codes.{Codes, sweep, issue, unexpired, redeem}

abbrev pub Store : Type 0
Store = Bytes → Option MagicCode

abbrev pub no_codes : Store
no_codes k = none

abbrev pub remember : Bytes → Option MagicCode → Store → Store
remember code o store k = if code == k then o else store k

-- An operation, with its time.
pub data CodeOp : Type 0 where
  issues : Bytes → MagicCode → ℕ → CodeOp
  redeems : Bytes → ℕ → CodeOp

-- The answers of the redemptions, in their order.
pub answers : List CodeOp → Codes → List (Option MagicCode)
answers [] m = []
answers (issues code entry now ∷ ops) m = answers ops (issue code entry now m)
answers (redeems code now ∷ ops) m = (redeem code now m).0 ∷ answers ops (redeem code now m).1

pub store_answers : List CodeOp → Store → List (Option MagicCode)
store_answers [] s = []
store_answers (issues code entry now ∷ ops) s = store_answers ops (remember code (some entry) s)
store_answers (redeems code now ∷ ops) s =
    unexpired now (s code) ∷ store_answers ops (remember code none s)

-- The times do not go back, from `t` on.
unfoldable pub IsTimed : ℕ → List CodeOp → Type 0
IsTimed t [] = Unit
IsTimed t (issues code entry now ∷ ops) = (t ≤ now) × IsTimed now ops
IsTimed t (redeems code now ∷ ops) = (t ≤ now) × IsTimed now ops

-- Each code stands for one entry.
abbrev IsUnique : Codes → Type 0
IsUnique [] = Unit
IsUnique ((k, e) ∷ m) = (find k m ≡ none) × IsUnique m

find-delete-none : (k code : Bytes) (m : Codes) → find k m ≡ none → find k (delete code m) ≡ none
find-delete-none k code m h = ground (arith, find-delete k code m)

delete-IsUnique : (code : Bytes) (m : Codes) → IsUnique m → IsUnique (delete code m)
unfolding delete
delete-IsUnique code [] u = tt
delete-IsUnique code ((k, e) ∷ m) (absent, u) = elim (Bool-cases (k == code)) [
  | inl p ↦ rw p (delete-IsUnique code m u)
  | inr p ↦ rw p (find-delete-none k code m absent, delete-IsUnique code m u)
]

find-sweep-none : (k : Bytes) (now : ℕ) (m : Codes) → find k m ≡ none → find k (sweep now m) ≡ none
unfolding find sweep
find-sweep-none k now [] h = refl
find-sweep-none k now ((j, e) ∷ m) h = ground (arith, find-sweep-none k now m)

sweep-IsUnique : (now : ℕ) (m : Codes) → IsUnique m → IsUnique (sweep now m)
unfolding sweep
sweep-IsUnique now [] u = tt
sweep-IsUnique now ((k, e) ∷ m) (absent, u) = elim (Bool-cases (ltb e.expiry now)) [
  | inl p ↦ rw p (sweep-IsUnique now m u)
  | inr p ↦ rw p (find-sweep-none k now m absent, sweep-IsUnique now m u)
]

-- What is swept has expired, and is no answer at any later time.
unexpired-sweep :
    (k : Bytes) (now later : ℕ) (m : Codes)
    → now ≤ later
    → IsUnique m
    → unexpired later (find k (sweep now m)) ≡ unexpired later (find k m)
unfolding find sweep unexpired
unexpired-sweep k now later [] le u = refl
unexpired-sweep k now later ((j, e) ∷ m) le (absent, u) =
    ground (arith, unexpired-sweep k now later m, find-sweep-none j now m absent, ==_iff j k)

-- From the time `t` on, the two stores answer alike.
record Agrees (t : ℕ) (m : Codes) (s : Store) : Type 0 where
  unique : IsUnique m
  same : (k : Bytes) (now : ℕ) → t ≤ now → unexpired now (find k m) ≡ unexpired now (s k)

Agrees-delete :
    {t now : ℕ} {m : Codes} {s : Store} (code : Bytes)
    → t ≤ now
    → Agrees t m s
    → Agrees now (delete code m) (remember code none s)
Agrees-delete {m = m} {s} code le a = record {
  unique = delete-IsUnique code m a.unique;
  same = λ k later le'.
      let same = a.same k later (omega arith) in
      elim (Bool-cases (code == k)) [
        | inl p ↦ rw (find-delete k code m, p) refl
        | inr p ↦ rw (find-delete k code m, p) same
      ];
}

Agrees-issue :
    {t now : ℕ} {m : Codes} {s : Store} (code : Bytes) (entry : MagicCode)
    → t ≤ now
    → Agrees t m s
    → Agrees now (issue code entry now m) (remember code (some entry) s)
unfolding issue find
Agrees-issue {now = now} {m} {s} code entry le a = record {
  unique = (
    rw (find-delete code code (sweep now m), ==_refl code) refl,
    delete-IsUnique code (sweep now m) (sweep-IsUnique now m a.unique),
  );
  same = λ k later le'.
      let same = unexpired-sweep k now later m le' a.unique ∙ a.same k later (omega arith) in
      elim (Bool-cases (code == k)) [
        | inl p ↦ rw p refl
        | inr p ↦ rw (p, find-delete k code (sweep now m), p) same
      ];
}

answers-Agrees :
    (ops : List CodeOp) {t : ℕ} {m : Codes} {s : Store}
    → IsTimed t ops
    → Agrees t m s
    → answers ops m ≡ store_answers ops s
unfolding answers store_answers redeem IsTimed
answers-Agrees [] h a = refl
answers-Agrees (issues code entry now ∷ ops) (le, h) a =
    answers-Agrees ops h (Agrees-issue code entry le a)
answers-Agrees (redeems code now ∷ ops) (le, h) a =
    rw (a.same code now le, answers-Agrees ops h (Agrees-delete code le a)) refl

-- The code store implements the plain one: over any sequence of issues and redemptions whose times
-- do not go back, every redemption answers as if each code stood for its newest entry until it is
-- redeemed, is refused from then on and after its expiry, and no entry were ever swept.
pub answers-eq : (ops : List CodeOp) → IsTimed 0 ops → answers ops [] ≡ store_answers ops no_codes
unfolding find
answers-eq ops h = answers-Agrees ops h (record { unique = tt; same = λ k now le. refl })
