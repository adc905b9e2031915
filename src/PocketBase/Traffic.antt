-- ===== src/PocketBase/Traffic.antt =====
-- The requests that the service sends to PocketBase in the course of its calls.
use abc_auth_svc.Base.{◌*◌, ◌≤◌, ◌≡◌, refl, inl, inr, [], ◌∷◌, arith, Option-cases, length, Bytes}
use abc_auth_svc.Upstreams.{Call, History}
use abc_auth_svc.PocketBase.{PbClient}
use abc_auth_svc.PocketBase.Cache.{
  fresh_entry, store_entry, look_up_state, cached_slot_state, invalidate_slot_state, state_filter,
}
use abc_auth_svc.PocketBase.Records.{find_slot}
use abc_auth_svc.PocketBase.Replay.{Site, perform, replay, wait}
use abc_auth_svc.PocketBase.Steps.{call-View, Once, Once-Within, AsksOnce-find_slot}
use abc_auth_svc.PocketBase.Token.{IsAuthorised, Bearers}
use abc_auth_svc.PocketBase.Token.Served.{do_request-IsAuthorised}

module _ (site : Site) where
  -- Nothing sent, and the token kept.
  abbrev Idle : PbClient → PbClient → Type 0
  Idle c d = (d.sent ≡ c.sent) × (d.token ≡ c.token)

  -- What a call does, up to what is sent and the token.
  abbrev Moves : PbClient → PbClient → Type 0
  Moves c d = (m : PbClient) × Once site.net site.cfg c m × Idle m d

  read-Moves :
      (user : Bytes) (c : PbClient) → Moves c (cached_slot_state site.net site.cfg user c).1
  unfolding cached_slot_state look_up_state store_entry
  read-Moves user c = elim (Option-cases (fresh_entry user c)) [
    | inl e ↦
        rw (cached_slot_state, e)
          (
            (find_slot site.net site.cfg (state_filter user) c).1,
            (AsksOnce-find_slot site.net site.cfg (state_filter user)).at c,
            (refl, refl),
          )
    | inr (a, e) ↦ rw (cached_slot_state, e) (c, inl refl, (refl, refl))
  ]

  perform-Moves : (call : Call) (c : PbClient) → Moves c (perform site call c)
  unfolding perform invalidate_slot_state
  perform-Moves call c = elim (call-View site call) [
    | inl (v, e) ↦ rw e (read-Moves v c)
    | inr (inl (v, e)) ↦ rw e (c, inl refl, (refl, refl))
    | inr (inr (s, once)) ↦ (perform site call c, once c, (refl, refl))
  ]

  Once-IsAuthorised :
      (c d : PbClient)
      → Once site.net site.cfg c d
      → IsAuthorised site.net site.cfg c
      → IsAuthorised site.net site.cfg d
  Once-IsAuthorised c d (inl e) a = rw e a
  Once-IsAuthorised c d (inr (method, path, body, e)) a =
      rw e (do_request-IsAuthorised site.net site.cfg method path body c a)

  Idle-IsAuthorised :
      (c d : PbClient)
      → Idle c d
      → IsAuthorised site.net site.cfg c
      → IsAuthorised site.net site.cfg d
  Idle-IsAuthorised c d (sent, tok) a = record {
    bearers = rw sent a.bearers;
    kept = rw (sent, tok) a.kept;
  }

  -- Whatever the handlers call: each request that the service has sent to PocketBase is a login or
  -- carries a token that PocketBase gave in a 200 reply to a login before it, and the token that the
  -- client keeps, if any, was given so, too.
  pub replay-IsAuthorised : (h : History) → IsAuthorised site.net site.cfg (replay site h)
  unfolding replay wait Bearers
  replay-IsAuthorised [] = record { bearers = tt; kept = inl refl }
  replay-IsAuthorised (call ∷ h) =
      let (m, once, idle) = perform-Moves call (replay site h) in
      let a = Once-IsAuthorised (replay site h) m once (replay-IsAuthorised h) in
      Idle-IsAuthorised m (replay site (call ∷ h)) idle a

  -- Retries end: whatever PocketBase answers, refused tokens and failures included, the calls `h` of
  -- the handlers send it at most four requests each.
  pub replay_sent_bound : (h : History) → length (replay site h).sent ≤ 4 * length h
  unfolding replay wait
  replay_sent_bound [] = omega arith
  replay_sent_bound (call ∷ h) =
      let (m, once, (sent, _)) = perform-Moves call (replay site h) in
      let b = (Once-Within site.net site.cfg (replay site h) m once).sent_bound in
      rw sent (omega (arith, replay_sent_bound h, b))
