-- ===== src/PocketBase/Cache/Recent.antt =====
-- What an answer of the state cache stands for: a lookup less than a minute ago that no
-- invalidation came after.
use abc_auth_svc.Base.{
  ◌<◌, ◌⊎◌, inl, inr, ◌+◌, ◌≡◌, refl, ap, some, [], ◌∷◌, ◌++◌, arith, ltb, Bool-cases, Option-cases,
  All, Bytes, ◌==◌, eq_of_==, ==_iff, find, find-delete,
}
use abc_auth_svc.Upstreams.{Call, History}
use abc_auth_svc.PocketBase.{PbClient, SlotStateEntry}
use abc_auth_svc.PocketBase.Cache.{
  state_ttl, state_found, fresh_entry, state_filter, store_entry, look_up_state, cached_slot_state,
  invalidate_slot_state,
}
use abc_auth_svc.PocketBase.Records.{find_slot}
use abc_auth_svc.PocketBase.Replay.{Site, perform, replay, wait}
use abc_auth_svc.PocketBase.Steps.{Spares, call-View, find_slot-Within, Once-Within}

module _ (site : Site) (user : Bytes) where
  -- What PocketBase says of the user's slot when it is asked after the calls `h`.
  unfoldable pub asked_state : History → Bytes
  asked_state h = state_found (find_slot site.net site.cfg (state_filter user) (replay site h)).0

  -- The entry is what a read of the user's state found after the calls `earlier`, and no call since
  -- is an invalidation of the user.
  pub record IsLookup (h : History) (e : SlotStateEntry) : Type 0 where
    pub earlier : History
    pub later : History
    pub split : h ≡ later ++ Call.slot_state user ∷ earlier
    pub spared : All (Spares user) later
    pub state : e.state ≡ asked_state earlier
    pub time : e.ts ≡ (replay site earlier).clock

  abbrev pub Entries : History → PbClient → Type 0
  Entries h c = (e : SlotStateEntry) → find user c.state_data ≡ some e → IsLookup h e

  IsLookup-later :
      {h : History} {e : SlotStateEntry} (call : Call)
      → Spares user call
      → IsLookup h e
      → IsLookup (call ∷ h) e
  IsLookup-later call s l = record {
    earlier = l.earlier;
    later = call ∷ l.later;
    split = ap (λ r. call ∷ r) l.split;
    spared = (s, l.spared);
    state = l.state;
    time = l.time;
  }

  abbrev now_entry : History → SlotStateEntry
  now_entry h = record { state = asked_state h; ts = (replay site h).clock }

  IsLookup-now : (h : History) → IsLookup (Call.slot_state user ∷ h) (now_entry h)
  IsLookup-now h = record {
    earlier = h;
    later = [];
    split = refl;
    spared = tt;
    state = refl;
    time = refl;
  }

  Entries-same :
      {h : History} (c d : PbClient) (call : Call)
      → Spares user call
      → d.state_data ≡ c.state_data
      → Entries h c
      → Entries (call ∷ h) d
  Entries-same c d call s same hs e found = IsLookup-later call s (hs e (rw same at found))

  Entries-invalidate :
      (v : Bytes) {h : History} (c : PbClient)
      → Entries h c
      → Entries (Call.invalidate v ∷ h) (invalidate_slot_state v c)
  unfolding invalidate_slot_state Spares
  Entries-invalidate v c hs e found = elim (Bool-cases (v == user)) [
    | inl p ↦ absurd (ground (arith, find-delete user v c.state_data))
    | inr p ↦
        IsLookup-later (Call.invalidate v) (ground (arith, ==_iff v user))
          (hs e (ground (arith, find-delete user v c.state_data)))
  ]

  Entries-look_up :
      (v : Bytes) (h : History)
      → Entries h (replay site h)
      → Entries (Call.slot_state v ∷ h) (look_up_state site.net site.cfg v (replay site h)).1
  unfolding look_up_state store_entry Spares asked_state find
  Entries-look_up v h hs e found =
      let c = (find_slot site.net site.cfg (state_filter v) (replay site h)).1 in
      let same =
        (find_slot-Within site.net site.cfg (state_filter v) (replay site h)).same_states in
      elim (Bool-cases (v == user)) [
        | inl p ↦
            let q = eq_of_== v user p in
            let r : now_entry h ≡ e = ground arith in rw (q, ← r) (IsLookup-now h)
        | inr p ↦
            IsLookup-later (Call.slot_state v) tt
              (hs e (ground (arith, find-delete user v c.state_data, same)))
      ]

  Entries-read :
      (v : Bytes) (h : History)
      → Entries h (replay site h)
      → Entries (Call.slot_state v ∷ h) (cached_slot_state site.net site.cfg v (replay site h)).1
  unfolding cached_slot_state Spares
  Entries-read v h hs = elim (Option-cases (fresh_entry v (replay site h))) [
    | inl e ↦ rw (cached_slot_state, e) (Entries-look_up v h hs)
    | inr (a, e) ↦
        rw (cached_slot_state, e)
          (Entries-same (replay site h) (replay site h) (Call.slot_state v) tt refl hs)
  ]

  Entries-perform :
      (call : Call) (h : History)
      → Entries h (replay site h)
      → Entries (call ∷ h) (perform site call (replay site h))
  unfolding perform
  Entries-perform call h hs = elim (call-View site call) [
    | inl (v, e) ↦ rw e (Entries-read v h hs)
    | inr (inl (v, e)) ↦ rw e (Entries-invalidate v _ hs)
    | inr (inr (s, once)) ↦
        Entries-same (replay site h) (perform site call (replay site h)) call (s user)
          (Once-Within site.net site.cfg _ _ (once (replay site h))).same_states hs
  ]

  pub Entries-replay : (h : History) → Entries h (replay site h)
  unfolding replay wait find
  Entries-replay [] e found = absurd (ground arith)
  Entries-replay (call ∷ h) e found = Entries-perform call h (Entries-replay h) e found

  -- The answer is that of an earlier read, less than a minute old.
  abbrev pub IsRecent : History → Type 0
  IsRecent h =
      (e : SlotStateEntry) × IsLookup h e
      × ((replay site h).clock < e.ts + state_ttl)
      × (cached_slot_state site.net site.cfg user (replay site h) ≡ (e.state, replay site h))

  -- After any calls of the handlers, the state that the client gives for a user is what PocketBase
  -- says now, or what it said to an earlier read that began less than 60 seconds ago and that no
  -- invalidation of this user came after; in that case nothing is sent.
  pub cached_slot_state-IsRecent :
      (h : History)
      → ((cached_slot_state site.net site.cfg user (replay site h)).0 ≡ asked_state h) ⊎ IsRecent h
  unfolding cached_slot_state asked_state look_up_state fresh_entry
  cached_slot_state-IsRecent h = elim (Option-cases (find user (replay site h).state_data)) [
    | inl none_found ↦ inl (rw (cached_slot_state, fresh_entry, none_found) refl)
    | inr (e, found) ↦ elim (Bool-cases (ltb (replay site h).clock (e.ts + state_ttl))) [
      | inl young ↦ inr (
        e,
        Entries-replay h e found,
        ground arith,
        rw (cached_slot_state, fresh_entry, found, young) refl,
      )
      | inr old ↦ inl (rw (cached_slot_state, fresh_entry, found, old) refl)
    ]
  ]
