-- ===== src/PocketBase/Records.antt =====
-- The operations of PBClient on records: pocketbase.go and pocketbase_kek.go, and the read of a
-- group's default in claim.go.
use abc_auth_svc.Text.Int.{ℤ}
use abc_auth_svc.Base.{
  ℕ, not, ◌&&◌, Option, none, some, List, [], ◌∷◌, ◌++◌, nat_eq, if◌then◌else◌, Bytes, codes,
  is_empty,
}
use abc_auth_svc.Text.{trim_space}
use abc_auth_svc.Text.Decimal.{decimal}
use abc_auth_svc.Text.Query.{query_escape, path_escape}
use abc_auth_svc.Upstreams.{Outcome, ok, err, Slot, Fields, GroupKey}
use abc_auth_svc.PocketBase.{
  Net, PbConfig, PbClient, Op, ◌>>=◌, lift, pure, do_request, get_method, patch_method,
}

abbrev pub slot_path : Bytes → Bytes
slot_path id = codes "/api/collections/slots/records/" ++ path_escape id

abbrev pub group_path : Bytes → Bytes
group_path id = codes "/api/collections/groups/records/" ++ path_escape id

-- `q` of ListSlots
abbrev pub list_query : Bytes → ℕ → Bytes
list_query filter per_page =
    let n = if nat_eq per_page 0 then 500 else per_page in
    codes "perPage="
    ++ decimal n
    ++ codes "&skipTotal=1"
    ++ (if is_empty filter then [] else codes "&filter=" ++ query_escape filter)

-- The first item, if there is one.
abbrev pub first : List Slot → Option Slot
first [] = none
first (s ∷ _) = some s

-- A value, or the one that stands for an error.
abbrev pub or_else : {A : Type 0} → A → Outcome A × PbClient → A × PbClient
or_else a (ok b, c) = (b, c)
or_else a (err, c) = (a, c)

module _ (net : Net) (cfg : PbConfig) where
  -- ListSlots
  unfoldable pub list_slots : Bytes → ℕ → Op (List Slot)
  list_slots filter per_page = do
    rb ←
        do_request net cfg get_method
          (codes "/api/collections/slots/records?" ++ list_query filter per_page) none
    lift (net.items_of rb)

  -- FindSlot
  unfoldable pub find_slot : Bytes → Op (Option Slot)
  find_slot filter = do
    rb ←
        do_request net cfg get_method
          (codes "/api/collections/slots/records?perPage=1&skipTotal=1&filter="
            ++ query_escape filter)
          none
    items ← lift (net.items_of rb)
    pure (first items)

  -- GetSlot
  unfoldable pub get_slot : Bytes → Op Slot
  get_slot id = do rb ← do_request net cfg get_method (slot_path id) none; lift (net.slot_of rb)

  -- PatchSlot
  unfoldable pub patch_slot : Bytes → Fields → Op (Unit {0})
  patch_slot id fields = do
    body ← lift (net.fields_json fields)
    rb ← do_request net cfg patch_method (slot_path id) (some body)
    pure tt

  unfoldable pub group_field : Bytes → Op Bytes
  group_field path = do
    rb ← do_request net cfg get_method path none
    g ← lift (net.group_of rb)
    pure g.name

  -- GroupName, of a slot that is there: the name on the record, else the group's.
  unfoldable pub group_name : Slot → PbClient → Bytes × PbClient
  unfolding group_field
  group_name slot c =
      let n = trim_space slot.group_name in
      if not (is_empty n)
      then (n, c)
      else if is_empty slot.group
      then ([], c)
      else or_else [] (group_field (group_path slot.group) c)

  -- lookupGroupCredSourceDefault, whose path is not escaped; its caller normalises the value.
  unfoldable pub group_default : Bytes → PbClient → Bytes × PbClient
  group_default id c = or_else [] (
      (do
        rb ← do_request net cfg get_method (codes "/api/collections/groups/records/" ++ id) none
        g ← lift (net.group_of rb)
        pure g.cred_source_default)
        c)

  -- GroupKeyRecord
  unfoldable pub group_key_record : Bytes → Op GroupKey
  group_key_record id = do
    rb ← do_request net cfg get_method (group_path id) none
    g ← lift (net.group_of rb)
    pure (record {
      name = g.name;
      recipient = g.age_recipient;
      sk_wrapped = g.age_sk_wrapped;
      version = g.age_key_version;
      has_key = not (is_empty g.age_recipient) && not (is_empty g.age_sk_wrapped);
    })

  -- PutGroupKey
  unfoldable pub put_group_key : Bytes → Bytes → Bytes → ℤ → Bytes → Op (Unit {0})
  put_group_key id recipient wrapped version alg = do
    body ← lift (net.key_json recipient wrapped version alg)
    rb ← do_request net cfg patch_method (group_path id) (some body)
    pure tt
