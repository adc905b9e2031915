-- ===== src/PocketBase/Cache/Forgotten.antt =====
-- After an invalidation, the next read of the user's state asks PocketBase.
use abc_auth_svc.Base.{
  ◌≡◌, refl, ◌≢◌, inl, inr, none, [], ◌∷◌, ◌++◌, arith, Option-cases, All, Bytes, ==_refl, ==_iff,
  find-delete, find,
}
use abc_auth_svc.Upstreams.{Call, History}
use abc_auth_svc.PocketBase.{PbClient}
use abc_auth_svc.PocketBase.Cache.{
  fresh_entry, state_filter, store_entry, look_up_state, cached_slot_state, invalidate_slot_state,
}
use abc_auth_svc.PocketBase.Cache.Recent.{asked_state}
use abc_auth_svc.PocketBase.Records.{find_slot}
use abc_auth_svc.PocketBase.Replay.{Site, perform, replay, wait}
use abc_auth_svc.PocketBase.Steps.{call-View, find_slot-Within, Once-Within}

-- The call is not a read of the state of `user`.
unfoldable pub IsUnread : Bytes → Call → Type 0
IsUnread user (Call.slot_state v) = v ≢ user
IsUnread user _ = Unit

module _ (site : Site) (user : Bytes) where
  abbrev IsForgotten : PbClient → Type 0
  IsForgotten c = find user c.state_data ≡ none

  invalidate-IsForgotten :
      (v : Bytes) (c : PbClient) → IsForgotten c → IsForgotten (invalidate_slot_state v c)
  unfolding invalidate_slot_state
  invalidate-IsForgotten v c f = ground (arith, find-delete user v c.state_data)

  invalidated-IsForgotten : (c : PbClient) → IsForgotten (invalidate_slot_state user c)
  unfolding invalidate_slot_state
  invalidated-IsForgotten c = rw (find-delete user user c.state_data, ==_refl user) refl

  read-IsForgotten :
      (v : Bytes) (c : PbClient)
      → v ≢ user
      → IsForgotten c
      → IsForgotten (cached_slot_state site.net site.cfg v c).1
  unfolding cached_slot_state look_up_state store_entry find
  read-IsForgotten v c ne f =
      let d = (find_slot site.net site.cfg (state_filter v) c).1 in
      let same = (find_slot-Within site.net site.cfg (state_filter v) c).same_states in
      elim (Option-cases (fresh_entry v c)) [
        | inl e ↦
            rw (cached_slot_state, e)
              (ground (arith, find-delete user v d.state_data, ==_iff v user, same))
        | inr (a, e) ↦ rw (cached_slot_state, e) f
      ]

  perform-IsForgotten :
      (call : Call) (c : PbClient)
      → IsUnread user call
      → IsForgotten c
      → IsForgotten (perform site call c)
  unfolding perform IsUnread
  perform-IsForgotten call c u f = elim (call-View site call) [
    | inl (v, e) ↦ rw e (read-IsForgotten v c (rw e at u) f)
    | inr (inl (v, e)) ↦ rw e (invalidate-IsForgotten v c f)
    | inr (inr (s, once)) ↦ rw ((Once-Within site.net site.cfg _ _ (once c)).same_states) f
  ]

  replay-IsForgotten :
      (later earlier : History)
      → All (IsUnread user) later
      → IsForgotten (replay site (later ++ Call.invalidate user ∷ earlier))
  unfolding replay wait perform
  replay-IsForgotten [] earlier u = invalidated-IsForgotten (replay site earlier)
  replay-IsForgotten (call ∷ later) earlier (u, us) =
      perform-IsForgotten call (replay site (later ++ Call.invalidate user ∷ earlier)) u
        (replay-IsForgotten later earlier us)

  -- After an invalidation of a user, and until the state of the user is read again, a read answers
  -- what PocketBase says at that moment, whatever was cached before.
  pub cached_slot_state-IsAsked :
      (later earlier : History)
      → All (IsUnread user) later
      → (cached_slot_state site.net site.cfg user
          (replay site (later ++ Call.invalidate user ∷ earlier))).0
        ≡ asked_state site user (later ++ Call.invalidate user ∷ earlier)
  unfolding cached_slot_state fresh_entry look_up_state asked_state
  cached_slot_state-IsAsked later earlier u =
      rw (cached_slot_state, fresh_entry, replay-IsForgotten later earlier u) refl
