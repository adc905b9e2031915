-- ===== src/PocketBase/Token.antt =====
-- The superuser token: which requests carry one, and where it comes from.
pub mod Served
use abc_auth_svc.Base.{
  Bool, true, false, if◌then◌else◌, ◌≡◌, refl, ap, ◌⊎◌, List, [], ◌∷◌, ◌++◌, Bytes, is_empty,
}
use abc_auth_svc.Upstreams.{Outcome, ok, err}
use abc_auth_svc.PocketBase.{
  pure, Net, PbConfig, PbClient, Op, ◌>>=◌, next, lift, HttpRequest, HttpResponse, auth_request,
}

module _ (net : Net) (cfg : PbConfig) where
  -- PocketBase gave the token, in a reply of status 200 to a login among the requests.
  pub record IsIssued (sent : List HttpRequest) (tok : Bytes) : Type 0 where
    pub later : List HttpRequest
    pub earlier : List HttpRequest
    pub resp : HttpResponse
    pub split : sent ≡ later ++ auth_request net cfg ∷ earlier
    pub reply : net.answer earlier (auth_request net cfg) ≡ ok resp
    pub accepted : resp.status ≡ 200
    pub given : net.token_of resp.body ≡ ok tok
    pub nonempty : is_empty tok ≡ false

  pub IsIssued-later :
      {sent : List HttpRequest} {tok : Bytes} (req : HttpRequest)
      → IsIssued sent tok
      → IsIssued (req ∷ sent) tok
  IsIssued-later req i = record {
    later = req ∷ i.later;
    earlier = i.earlier;
    resp = i.resp;
    split = ap (λ s. req ∷ s) i.split;
    reply = i.reply;
    accepted = i.accepted;
    given = i.given;
    nonempty = i.nonempty;
  }

  -- Each request is a login, or carries a token that was issued before it.
  unfoldable pub Bearers : List HttpRequest → Type 0
  Bearers [] = Unit
  Bearers (req ∷ sent) = ((req ≡ auth_request net cfg) ⊎ IsIssued sent req.bearer) × Bearers sent

  -- The kept token was issued, too.
  pub record IsAuthorised (c : PbClient) : Type 0 where
    pub bearers : Bearers c.sent
    pub kept : (c.token ≡ []) ⊎ IsIssued c.sent c.token

  -- From `P`, a success ends in `Q` of its value, and an error leaves the client authorised.
  abbrev pub Ends : {A : Type 0} → (A → PbClient → Type 0) → Outcome A → PbClient → Type 0
  Ends Q (ok a) c = Q a c
  Ends Q err c = IsAuthorised c

  pub record Triple {A : Type 0} (P : PbClient → Type 0) (m : Op A) (Q : A → PbClient → Type 0)
      : Type 0 where
    pub at : (c : PbClient) → P c → Ends Q (m c).0 (m c).1

  next-Triple :
      {A B : Type 0} {Q : A → PbClient → Type 0} (R : B → PbClient → Type 0) (f : A → Op B)
      (o : Outcome A) (c : PbClient)
      → ((a : A) → Triple (Q a) (f a) R)
      → Ends Q o c
      → Ends R (next o f c).0 (next o f c).1
  next-Triple R f (ok a) c h e = (h a).at c e
  next-Triple R f err c h e = e

  pub Triple-bind :
      {A B : Type 0} {P : PbClient → Type 0} (Q : A → PbClient → Type 0) {R : B → PbClient → Type 0}
      (m : Op A) (f : A → Op B)
      → Triple P m Q
      → ((a : A) → Triple (Q a) (f a) R)
      → Triple P (m >>= f) R
  unfolding ◌>>=◌
  Triple-bind Q {R} m f hm hf = record {
    at = λ c p. next-Triple {Q = Q} R f (m c).0 (m c).1 hf (hm.at c p);
  }

  next-pick :
      {A B : Type 0} {P : PbClient → Type 0} (R : B → PbClient → Type 0) (f : A → Op B)
      (o : Outcome A)
      → ((c : PbClient) → P c → IsAuthorised c)
      → ((a : A) → o ≡ ok a → Triple P (f a) R)
      → (c : PbClient) → P c
      → Ends R (next o f c).0 (next o f c).1
  next-pick R f (ok a) safe h c p = (h a refl).at c p
  next-pick R f err safe h c p = safe c p

  pub Triple-weaken :
      {A : Type 0} {P P' : PbClient → Type 0} {Q : A → PbClient → Type 0} (m : Op A)
      → ((c : PbClient) → P' c → P c)
      → Triple P m Q
      → Triple P' m Q
  Triple-weaken m k h = record { at = λ c p. h.at c (k c p) }

  next-Ends :
      {A : Type 0} (Q Q' : A → PbClient → Type 0) (o : Outcome A) (c : PbClient)
      → ((a : A) → Q a c → Q' a c)
      → Ends Q o c
      → Ends Q' o c
  next-Ends Q Q' (ok a) c k e = k a e
  next-Ends Q Q' err c k e = e

  pub Triple-post :
      {A : Type 0} {P : PbClient → Type 0} (Q : A → PbClient → Type 0) {Q' : A → PbClient → Type 0}
      (m : Op A)
      → ((a : A) (c : PbClient) → Q a c → Q' a c)
      → Triple P m Q
      → Triple P m Q'
  Triple-post Q {Q'} m k h = record {
    at = λ c p. next-Ends Q Q' (m c).0 (m c).1 (λ a. k a (m c).1) (h.at c p);
  }

  Ends-IsAuthorised :
      {A : Type 0} (Q : A → PbClient → Type 0) (o : Outcome A) (c : PbClient)
      → ((a : A) → Q a c → IsAuthorised c)
      → Ends Q o c
      → IsAuthorised c
  Ends-IsAuthorised Q (ok a) c k e = k a e
  Ends-IsAuthorised Q err c k e = e

  -- A triple that keeps the client authorised at a success does so at all.
  pub Triple-IsAuthorised :
      {A : Type 0} {P : PbClient → Type 0} (Q : A → PbClient → Type 0) (m : Op A)
      → ((a : A) (c : PbClient) → Q a c → IsAuthorised c)
      → Triple P m Q
      → (c : PbClient) → P c
      → IsAuthorised (m c).1
  Triple-IsAuthorised Q m k h c p =
      Ends-IsAuthorised Q (m c).0 (m c).1 (λ a. k a (m c).1) (h.at c p)

  pub Triple-if :
      {A : Type 0} {P : PbClient → Type 0} {Q : A → PbClient → Type 0} (b : Bool) {m n : Op A}
      → Triple P m Q
      → Triple P n Q
      → Triple P (if b then m else n) Q
  Triple-if true hm hn = hm
  Triple-if false hm hn = hn

  pub Triple-pure :
      {A : Type 0} {P : PbClient → Type 0} {Q : A → PbClient → Type 0} (a : A)
      → ((c : PbClient) → P c → Q a c)
      → Triple P (pure a) Q
  Triple-pure a h = record { at = h }

  -- A test or a decoding before the rest.
  pub Triple-pick :
      {A B : Type 0} {P : PbClient → Type 0} {R : B → PbClient → Type 0} (f : A → Op B)
      (o : Outcome A)
      → ((c : PbClient) → P c → IsAuthorised c)
      → ((a : A) → o ≡ ok a → Triple P (f a) R)
      → Triple P (lift o >>= f) R
  unfolding ◌>>=◌
  Triple-pick {R = R} f o safe h = record { at = λ c p. next-pick R f o safe h c p }

  -- The newest request is `req`, with a token that was issued unless it is a login, and `resp` is
  -- its answer.
  pub record IsAnswer (req : HttpRequest) (resp : HttpResponse) (c : PbClient) : Type 0 where
    pub earlier : List HttpRequest
    pub split : c.sent ≡ req ∷ earlier
    pub reply : net.answer earlier req ≡ ok resp
    pub known : (req ≡ auth_request net cfg) ⊎ IsIssued earlier req.bearer
    pub authorised : IsAuthorised c
