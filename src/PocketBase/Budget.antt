-- ===== src/PocketBase/Budget.antt =====
-- How many requests an operation of the PocketBase client may send, and what it leaves alone.
use abc_auth_svc.Base.{
  ℕ, ◌+◌, ◌≤◌, ◌≡◌, refl, ◌∙◌, inl, inr, Bool, true, false, not, ◌&&◌, Option, arith, ltb, nat_eq,
  if◌then◌else◌, Bool-cases, length, Bytes, is_empty,
}
use abc_auth_svc.Upstreams.{Outcome, ok, err}
use abc_auth_svc.PocketBase.{
  Net, PbConfig, PbClient, Op, ◌>>=◌, next, lift, clear_token, keep_token, send, HttpRequest,
  HttpResponse, authenticate, auth_token, attempt, checked, do_last, do_request, Method,
  token_margin,
}

-- At most `n` requests more; the time does not go back, and the slot states are kept.
pub record Within (n : ℕ) (c c' : PbClient) : Type 0 where
  pub sent_bound : length c'.sent ≤ length c.sent + n
  pub clock_bound : c.clock ≤ c'.clock
  pub same_states : c'.state_data ≡ c.state_data

pub Within-trans : {a b : ℕ} {c d e : PbClient} → Within a c d → Within b d e → Within (a + b) c e
Within-trans h k = record {
  sent_bound = omega (arith, h.sent_bound, k.sent_bound);
  clock_bound = omega (arith, h.clock_bound, k.clock_bound);
  same_states = k.same_states ∙ h.same_states;
}

pub Within-mono : {a b : ℕ} {c d : PbClient} → a ≤ b → Within a c d → Within b c d
Within-mono le h = record {
  sent_bound = omega (arith, h.sent_bound);
  clock_bound = h.clock_bound;
  same_states = h.same_states;
}

pub Within-self : (n : ℕ) (c : PbClient) → Within n c c
Within-self n c = record { sent_bound = omega arith; clock_bound = omega arith; same_states = refl }

pub record Sends {A : Type 0} (n : ℕ) (m : Op A) : Type 0 where
  pub at : (c : PbClient) → Within n c (m c).1

pub Sends-lift : {A : Type 0} (n : ℕ) (o : Outcome A) → Sends n (lift o)
Sends-lift n o = record { at = λ c. Within-self n c }

Sends-mono : {A : Type 0} {a b : ℕ} {m : Op A} → a ≤ b → Sends a m → Sends b m
Sends-mono le h = record { at = λ c. Within-mono le (h.at c) }

Sends-if :
    {A : Type 0} {n : ℕ} (b : Bool) {m k : Op A}
    → Sends n m
    → Sends n k
    → Sends n (if b then m else k)
Sends-if true hm hk = hm
Sends-if false hm hk = hk

next-Sends :
    {A B : Type 0} {b : ℕ} {f : A → Op B} (o : Outcome A)
    → ((x : A) → Sends b (f x))
    → (c : PbClient) → Within b c (next o f c).1
next-Sends (ok a) h c = (h a).at c
next-Sends err h c = Within-self _ c

pub Sends-bind :
    {A B : Type 0} {a b : ℕ} {m : Op A} {f : A → Op B}
    → Sends a m
    → ((x : A) → Sends b (f x))
    → Sends (a + b) (m >>= f)
unfolding ◌>>=◌
Sends-bind {m = m} hm hf = record {
  at = λ c. Within-trans (hm.at c) (next-Sends (m c).0 hf (m c).1);
}

module _ (net : Net) (cfg : PbConfig) where
  Sends-send : (req : HttpRequest) → Sends 1 (send net cfg req)
  unfolding send
  Sends-send req = record {
    at = λ c. record { sent_bound = omega arith; clock_bound = omega arith; same_states = refl };
  }

  Sends-keep_token : (tok : Bytes) → Sends 0 (keep_token tok)
  unfolding keep_token
  Sends-keep_token tok = record {
    at = λ c. record { sent_bound = omega arith; clock_bound = omega arith; same_states = refl };
  }

  Sends-clear_token : Sends 0 clear_token
  unfolding clear_token
  Sends-clear_token = record {
    at = λ c. record { sent_bound = omega arith; clock_bound = omega arith; same_states = refl };
  }

  Sends-authenticate : Sends 1 (authenticate net cfg)
  unfolding authenticate
  Sends-authenticate = Sends-bind (Sends-lift 0 _) λ _. Sends-bind (Sends-send _) λ resp.
      Sends-bind (Sends-lift 0 _) λ _.
        Sends-bind (Sends-lift 0 _) λ tok. Sends-bind (Sends-lift 0 _) λ _. Sends-keep_token tok

  Sends-auth_token : Sends 1 (auth_token net cfg)
  unfolding auth_token
  Sends-auth_token = record {
    at = λ c.
        elim (Bool-cases (not (is_empty c.token) && ltb (c.clock + token_margin) c.token_exp)) [
          | inl e ↦ rw e (Within-self 1 c)
          | inr e ↦ rw e (Sends-authenticate.at c)
        ];
  }

  Sends-attempt :
      (method : Method) (path : Bytes) (body : Option Bytes)
      → Sends 2 (attempt net cfg method path body)
  unfolding attempt
  Sends-attempt method path body =
      Sends-bind Sends-auth_token λ tok. Sends-bind (Sends-lift 0 _) λ _. Sends-send _

  Sends-checked : (resp : HttpResponse) → Sends 0 (checked net cfg resp)
  unfolding checked
  Sends-checked resp = Sends-bind (Sends-lift 0 _) λ _. Sends-lift 0 _

  Sends-do_last :
      (method : Method) (path : Bytes) (body : Option Bytes)
      → Sends 2 (do_last net cfg method path body)
  unfolding do_last
  Sends-do_last method path body = Sends-bind (Sends-attempt method path body) Sends-checked

  pub Sends-do_request :
      (method : Method) (path : Bytes) (body : Option Bytes)
      → Sends 4 (do_request net cfg method path body)
  unfolding do_request
  Sends-do_request method path body = Sends-bind (Sends-attempt method path body) λ resp.
      Sends-if (nat_eq resp.status 401)
        (Sends-bind Sends-clear_token λ _. Sends-do_last method path body)
        (Sends-mono {b = 2} (omega arith) (Sends-checked resp))

  -- Whatever PocketBase answers, and however often it says 401, `do` sends at most four requests,
  -- the clock does not go back, and the cached slot states stay.
  pub do_request-Within :
      (method : Method) (path : Bytes) (body : Option Bytes) (c : PbClient)
      → Within 4 c (do_request net cfg method path body c).1
  do_request-Within method path body c = (Sends-do_request method path body).at c
