-- ===== src/PocketBase/Cache.antt =====
-- The cache of slot states: CachedSlotState and InvalidateSlotState of pocketbase.go.
pub mod Recent
pub mod Forgotten
pub mod Overlap
use abc_auth_svc.Base.{
  find, delete, ℕ, ◌+◌, Option, none, some, ◌∷◌, ◌++◌, ltb, if◌then◌else◌, Bytes, codes,
}
use abc_auth_svc.Upstreams.{Outcome, ok, err, Slot}
use abc_auth_svc.PocketBase.{Net, PbConfig, PbClient, SlotStateEntry}
use abc_auth_svc.PocketBase.Records.{find_slot}

-- In seconds.
abbrev pub state_ttl : ℕ
state_ttl = 60

-- InvalidateSlotState
unfoldable pub invalidate_slot_state : Bytes → PbClient → PbClient
invalidate_slot_state user c = record c { state_data = delete user c.state_data }

-- What the caller is told of a lookup.
unfoldable pub state_found : Outcome (Option Slot) → Bytes
state_found err = codes "error"
state_found (ok none) = codes "none"
state_found (ok (some s)) = s.state

-- The entry that still counts.
unfoldable pub fresh_entry : Bytes → PbClient → Option SlotStateEntry
fresh_entry user c = elim (find user c.state_data) [
  | none ↦ none
  | some e ↦ if ltb c.clock (e.ts + state_ttl) then some e else none
]

abbrev pub state_filter : Bytes → Bytes
state_filter user = codes "minio_access_key='" ++ user ++ codes "'"

unfoldable pub store_entry : Bytes → SlotStateEntry → PbClient → PbClient
store_entry user e c = record c { state_data = (user, e) ∷ delete user c.state_data }

module _ (net : Net) (cfg : PbConfig) where
  -- CachedSlotState, when no entry counts: `ts` is the time before the lookup.
  unfoldable pub look_up_state : Bytes → PbClient → Bytes × PbClient
  look_up_state user c =
      let (found, c') = find_slot net cfg (state_filter user) c in
      let state = state_found found in
      (state, store_entry user (record { state = state; ts = c.clock }) c')

  -- CachedSlotState
  unfoldable pub cached_slot_state : Bytes → PbClient → Bytes × PbClient
  cached_slot_state user c = elim (fresh_entry user c) [
    | some e ↦ (e.state, c)
    | none ↦ look_up_state user c
  ]
