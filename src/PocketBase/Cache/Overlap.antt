-- ===== src/PocketBase/Cache/Overlap.antt =====
-- The state cache when calls overlap: CachedSlotState begins a lookup without the lock and stores
-- what it found later, in whatever order with other lookups and invalidations.
use abc_auth_svc.Base.{
  ℕ, ◌+◌, ◌≤◌, ◌<◌, ◌≡◌, ◌∙◌, ◌⊎◌, inl, inr, none, some, List, [], ◌∷◌, ◌++◌, arith, ltb,
  Bool-cases, Option-cases, Bytes, codes, ◌==◌, eq_of_==, find, find-delete,
}
use abc_auth_svc.PocketBase.Records.{find_slot}
use abc_auth_svc.PocketBase.Steps.{find_slot-Within}
use abc_auth_svc.PocketBase.{Net, PbConfig, PbClient, SlotStateEntry, new_pb_client}
use abc_auth_svc.PocketBase.Cache.{
  state_found, state_filter, look_up_state, cached_slot_state, fresh_entry, store_entry,
  invalidate_slot_state, state_ttl,
}

-- The lookups that have begun, with their users and the times at which they did.
abbrev pub Lookups : Type 0
Lookups = List (Bytes × ℕ)

-- `truth user t` is the state that PocketBase has for the user's slot at the time `t`.
module _ (truth : Bytes → ℕ → Bytes) where
  -- One step of one of the callers. A lookup that ends has failed, or found the state of a moment
  -- since it began.
  pub data Step : PbClient → Lookups → PbClient → Lookups → Type 0 where
    begins :
        (user : Bytes) (c : PbClient) (p : Lookups)
        → fresh_entry user c ≡ none
        → Step c p c ((user, c.clock) ∷ p)
    ends :
        (user : Bytes) (ts seen : ℕ) (state : Bytes) (c : PbClient) (p q : Lookups)
        → ts ≤ seen
        → seen ≤ c.clock
        → (state ≡ codes "error") ⊎ (state ≡ truth user seen)
        → Step c
            (p ++ (user, ts) ∷ q)
            (store_entry user (record { state = state; ts = ts }) c)
            (p ++ q)
    invalidates :
        (user : Bytes) (c : PbClient) (p : Lookups) → Step c p (invalidate_slot_state user c) p
    works :
        (c c' : PbClient) (p : Lookups)
        → c'.state_data ≡ c.state_data
        → c.clock ≤ c'.clock
        → Step c p c' p

  -- What the callers can reach together from a new client.
  pub data Reached : PbClient → Lookups → Type 0 where
    start : Reached new_pb_client []
    after : (c c' : PbClient) (p p' : Lookups) → Reached c p → Step c p c' p' → Reached c' p'

  -- The entry holds a failure, or the state of a moment that is not before its time.
  IsSeen : Bytes → SlotStateEntry → ℕ → Type 0
  IsSeen user e clock =
      (e.state ≡ codes "error")
      ⊎ ((seen : ℕ) × (e.ts ≤ seen) × (seen ≤ clock) × (e.state ≡ truth user seen))

  IsHonest : PbClient → Type 0
  IsHonest c =
      (user : Bytes) (e : SlotStateEntry) → find user c.state_data ≡ some e → IsSeen user e c.clock

  IsSeen-later :
      (user : Bytes) (e : SlotStateEntry) (t t' : ℕ) → t ≤ t' → IsSeen user e t → IsSeen user e t'
  unfolding IsSeen
  IsSeen-later user e t t' le (inl failed) = inl failed
  IsSeen-later user e t t' le (inr (seen, begun, before, found)) =
      inr (seen, begun, omega arith, found)

  ended-IsSeen :
      (user : Bytes) (ts seen : ℕ) (state : Bytes) (clock : ℕ)
      → ts ≤ seen
      → seen ≤ clock
      → (state ≡ codes "error") ⊎ (state ≡ truth user seen)
      → IsSeen user (record { state = state; ts = ts }) clock
  unfolding IsSeen
  ended-IsSeen user ts seen state clock begun before (inl failed) = inl failed
  ended-IsSeen user ts seen state clock begun before (inr found) = inr (seen, begun, before, found)

  found_after_store :
      (user v : Bytes) (e e' : SlotStateEntry) (c : PbClient)
      → find user (store_entry v e c).state_data ≡ some e'
      → ((v ≡ user) × (e ≡ e')) ⊎ (find user c.state_data ≡ some e')
  unfolding store_entry find
  found_after_store user v e e' c h = elim (Bool-cases (v == user)) [
    | inl p ↦ inl (eq_of_== v user p, ground arith)
    | inr p ↦ inr (ground (arith, find-delete user v c.state_data))
  ]

  Step-IsHonest : (c c' : PbClient) (p p' : Lookups) → Step c p c' p' → IsHonest c → IsHonest c'
  unfolding IsHonest IsSeen store_entry invalidate_slot_state
  Step-IsHonest c c' p p' (Step.begins user _ _ stale) hs = hs
  Step-IsHonest c c' p p' (Step.ends user ts seen state _ _ _ begun before found) hs = λ u e h.
      elim (found_after_store u user (record { state = state; ts = ts }) e c h) [
        | inl (p, q) ↦ rw (← p, ← q) (ended-IsSeen user ts seen state c.clock begun before found)
        | inr k ↦ hs u e k
      ]
  Step-IsHonest c c' p p' (Step.invalidates user _ _) hs =
      λ u e h. hs u e (ground (arith, find-delete u user c.state_data))
  Step-IsHonest c c' p p' (Step.works _ _ _ same later) hs =
      λ u e h. IsSeen-later u e c.clock c'.clock later (hs u e (rw same at h))

  Reached-IsHonest : (c : PbClient) (p : Lookups) → Reached c p → IsHonest c
  unfolding IsHonest find
  Reached-IsHonest c p Reached.start = λ u e h. absurd (ground arith)
  Reached-IsHonest c p (Reached.after b _ q _ r step) =
      Step-IsHonest b c q p step (Reached-IsHonest b q r)

  fresh_entry-found :
      (user : Bytes) (c : PbClient) (e : SlotStateEntry)
      → fresh_entry user c ≡ some e
      → (find user c.state_data ≡ some e) × (c.clock < e.ts + state_ttl)
  unfolding fresh_entry
  fresh_entry-found user c e h = elim (Option-cases (find user c.state_data)) [
    | inl missing ↦ absurd (ground arith)
    | inr (a, found) ↦ elim (Bool-cases (ltb c.clock (a.ts + state_ttl))) [
      | inl young ↦ (ground arith, ground arith)
      | inr old ↦ absurd (ground arith)
    ]
  ]

  -- A cached answer that is not a failure shows the state of the last 60 seconds.
  fresh_entry-IsCurrent :
      (c : PbClient) (p : Lookups) (user state : Bytes) (e : SlotStateEntry) (since : ℕ)
      → Reached c p
      → fresh_entry user c ≡ some e
      → ((t : ℕ) → since ≤ t → truth user t ≡ state)
      → since + state_ttl ≤ c.clock
      → (e.state ≡ state) ⊎ (e.state ≡ codes "error")
  unfolding IsHonest IsSeen
  fresh_entry-IsCurrent c p user state e since r h stays old =
      let (found, young) = fresh_entry-found user c e h in
      elim (Reached-IsHonest c p r user e found) [
        | inl failed ↦ inr failed
        | inr (seen, begun, before, is_state) ↦ inl (is_state ∙ stays seen (omega arith))
      ]

  module _ (net : Net) (cfg : PbConfig) where
    -- The lookup that begins at `c` fails, or finds the state of a moment before it ends.
    pub IsAnswered : Bytes → PbClient → Type 0
    IsAnswered user c =
        let (found, c') = find_slot net cfg (state_filter user) c in
        (state_found found ≡ codes "error")
        ⊎ ((seen : ℕ) × (c.clock ≤ seen)
            × (seen ≤ c'.clock)
            × (state_found found ≡ truth user seen))

    look_up_state-Reached :
        (user : Bytes) (c : PbClient) (p : Lookups)
        → Reached c p
        → fresh_entry user c ≡ none
        → IsAnswered user c
        → Reached (look_up_state net cfg user c).1 p
    unfolding IsAnswered look_up_state
    look_up_state-Reached user c p r stale answered =
        let (found, c') = find_slot net cfg (state_filter user) c in
        let w = find_slot-Within net cfg (state_filter user) c in
        let begun = Reached.after _ _ _ _ r (Step.begins user c p stale) in
        let worked =
          Reached.after _ _ _ _ begun
            (Step.works c c' ((user, c.clock) ∷ p) w.same_states w.clock_bound) in
        elim answered [
          | inl failed ↦ Reached.after _ _ _ _ worked (
              Step.ends user c.clock c.clock (state_found found) c' [] p (omega arith) w.clock_bound
                (inl failed))
          | inr (seen, after_start, before, is_state) ↦ Reached.after _ _ _ _ worked (
              Step.ends user c.clock seen (state_found found) c' [] p after_start before
                (inr is_state))
        ]

    look_up_state-IsCurrent :
        (user state : Bytes) (c : PbClient) (since : ℕ)
        → IsAnswered user c
        → ((t : ℕ) → since ≤ t → truth user t ≡ state)
        → since ≤ c.clock
        → ((look_up_state net cfg user c).0 ≡ state)
          ⊎ ((look_up_state net cfg user c).0 ≡ codes "error")
    unfolding IsAnswered look_up_state
    look_up_state-IsCurrent user state c since answered stays old = elim answered [
      | inl failed ↦ inr failed
      | inr (seen, after_start, before, is_state) ↦ inl (is_state ∙ stays seen (omega arith))
    ]

    -- A call of CachedSlotState that no other call overlaps is such a sequence of steps.
    pub cached_slot_state-Reached :
        (user : Bytes) (c : PbClient) (p : Lookups)
        → Reached c p
        → (fresh_entry user c ≡ none → IsAnswered user c)
        → Reached (cached_slot_state net cfg user c).1 p
    unfolding cached_slot_state
    cached_slot_state-Reached user c p r answered = elim (Option-cases (fresh_entry user c)) [
      | inl stale ↦
          rw (cached_slot_state, stale) (look_up_state-Reached user c p r stale (answered stale))
      | inr (e, fresh) ↦ rw (cached_slot_state, fresh) r
    ]

    -- However the lookups and invalidations of several callers have overlapped before: if a user's
    -- slot has had one state in PocketBase since the time `since`, then at least 60 seconds later
    -- CachedSlotState answers with this state, or with `error`. The lookup that it makes when no
    -- entry counts fails or finds the state of a moment before it ends.
    pub cached_slot_state-IsCurrent :
        (c : PbClient) (p : Lookups) (user state : Bytes) (since : ℕ)
        → Reached c p
        → (fresh_entry user c ≡ none → IsAnswered user c)
        → ((t : ℕ) → since ≤ t → truth user t ≡ state)
        → since + state_ttl ≤ c.clock
        → ((cached_slot_state net cfg user c).0 ≡ state)
          ⊎ ((cached_slot_state net cfg user c).0 ≡ codes "error")
    unfolding cached_slot_state
    cached_slot_state-IsCurrent c p user state since r answered stays old =
        elim (Option-cases (fresh_entry user c)) [
          | inl stale ↦
              rw (cached_slot_state, stale)
                (look_up_state-IsCurrent user state c since (answered stale) stays (omega arith))
          | inr (e, fresh) ↦
              rw (cached_slot_state, fresh)
                (fresh_entry-IsCurrent c p user state e since r fresh stays old)
        ]
