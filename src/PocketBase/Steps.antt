-- ===== src/PocketBase/Steps.antt =====
-- What one call does to the PocketBase client behind the handlers.
use abc_auth_svc.Text.Int.{ℤ}
use abc_auth_svc.Base.{
  Option, none, ℕ, ◌≡◌, refl, ◌≢◌, ◌⊎◌, inl, inr, not, [], Bool-cases, Bytes, is_empty,
}
use abc_auth_svc.Text.{trim_space}
use abc_auth_svc.KekWrap.{kek_wrap_alg}
use abc_auth_svc.Upstreams.{Call, Outcome, ok, err, Slot, Fields}
use abc_auth_svc.PocketBase.{
  Method, get_method, do_request, next, lift, Net, PbConfig, PbClient, Op, ◌>>=◌,
}
use abc_auth_svc.PocketBase.Budget.{Within, Within-self, do_request-Within}
use abc_auth_svc.PocketBase.Records.{
  list_slots, find_slot, get_slot, patch_slot, group_name, group_default, group_key_record,
  put_group_key, group_field, group_path, or_else,
}
use abc_auth_svc.PocketBase.Replay.{Site, perform}

-- The call is not an invalidation of `user`.
unfoldable pub Spares : Bytes → Call → Type 0
Spares user (Call.invalidate v) = v ≢ user
Spares user _ = Unit

module _ (net : Net) (cfg : PbConfig) where
  -- From `c` to `c'` by one `do`, or by none.
  abbrev pub Once : PbClient → PbClient → Type 0
  Once c c' =
      (c' ≡ c)
      ⊎ ((method : Method) × (path : Bytes) × (body : Option Bytes) × (c'
            ≡ (do_request net cfg method path body c).1))

  pub Once-Within : (c c' : PbClient) → Once c c' → Within 4 c c'
  Once-Within c c' (inl e) = rw e (Within-self 4 c)
  Once-Within c c' (inr (method, path, body, e)) =
      rw e (do_request-Within net cfg method path body c)

  pub record AsksOnce {A : Type 0} (m : Op A) : Type 0 where
    pub at : (c : PbClient) → Once c (m c).1

  abbrev Still : {A : Type 0} → Op A → Type 0
  Still m = (c : PbClient) → (m c).1 ≡ c

  next-Still :
      {A B : Type 0} (f : A → Op B) (o : Outcome A)
      → ((a : A) → Still (f a))
      → (c : PbClient) → (next o f c).1 ≡ c
  next-Still f (ok a) h c = h a c
  next-Still f err h c = refl

  Still-lift :
      {A B : Type 0} (f : A → Op B) (o : Outcome A) → ((a : A) → Still (f a)) → Still (lift o >>= f)
  unfolding ◌>>=◌
  Still-lift f o h c = next-Still f o h c

  next-AsksOnce :
      {A B : Type 0} (f : A → Op B) (o : Outcome A)
      → ((a : A) → AsksOnce (f a))
      → (c : PbClient) → Once c (next o f c).1
  next-AsksOnce f (ok a) h c = (h a).at c
  next-AsksOnce f err h c = inl refl

  AsksOnce-lift :
      {A B : Type 0} (f : A → Op B) (o : Outcome A)
      → ((a : A) → AsksOnce (f a))
      → AsksOnce (lift o >>= f)
  unfolding ◌>>=◌
  AsksOnce-lift f o h = record { at = next-AsksOnce f o h }

  AsksOnce-request :
      {B : Type 0} (f : Bytes → Op B) (method : Method) (path : Bytes) (body : Option Bytes)
      → ((a : Bytes) → Still (f a))
      → AsksOnce (do_request net cfg method path body >>= f)
  unfolding ◌>>=◌
  AsksOnce-request f method path body h = record {
    at = λ c.
        let out = do_request net cfg method path body c in
        inr (method, path, body, next-Still f out.0 h out.1);
  }

  pub AsksOnce-find_slot : (filter : Bytes) → AsksOnce (find_slot net cfg filter)
  unfolding find_slot
  AsksOnce-find_slot filter =
      AsksOnce-request _ _ _ _ λ rb. Still-lift _ (net.items_of rb) λ items c. refl

  pub find_slot-Within : (filter : Bytes) (c : PbClient) → Within 4 c (find_slot net cfg filter c).1
  find_slot-Within filter c = Once-Within c _ ((AsksOnce-find_slot filter).at c)

  AsksOnce-list_slots : (filter : Bytes) (n : ℕ) → AsksOnce (list_slots net cfg filter n)
  unfolding list_slots
  AsksOnce-list_slots filter n = AsksOnce-request _ _ _ _ λ rb c. refl

  AsksOnce-get_slot : (id : Bytes) → AsksOnce (get_slot net cfg id)
  unfolding get_slot
  AsksOnce-get_slot id = AsksOnce-request _ _ _ _ λ rb c. refl

  AsksOnce-patch_slot : (id : Bytes) (fields : Fields) → AsksOnce (patch_slot net cfg id fields)
  unfolding patch_slot
  AsksOnce-patch_slot id fields =
      AsksOnce-lift _ (net.fields_json fields) λ body. AsksOnce-request _ _ _ _ λ rb c. refl

  AsksOnce-group_key_record : (id : Bytes) → AsksOnce (group_key_record net cfg id)
  unfolding group_key_record
  AsksOnce-group_key_record id =
      AsksOnce-request _ _ _ _ λ rb. Still-lift _ (net.group_of rb) λ g c. refl

  AsksOnce-put_group_key :
      (id recipient wrapped : Bytes) (version : ℤ) (alg : Bytes)
      → AsksOnce (put_group_key net cfg id recipient wrapped version alg)
  unfolding put_group_key
  AsksOnce-put_group_key id recipient wrapped version alg =
      AsksOnce-lift _ (net.key_json recipient wrapped version alg)
        λ body. AsksOnce-request _ _ _ _ λ rb c. refl

  or_else-Once :
      {A : Type 0} {c : PbClient} (a : A) (r : Outcome A × PbClient)
      → Once c r.1
      → Once c (or_else a r).1
  or_else-Once a (ok b, c') h = h
  or_else-Once a (err, c') h = h

  group_name-Once : (slot : Slot) (c : PbClient) → Once c (group_name net cfg slot c).1
  unfolding group_name group_field
  group_name-Once slot c =
      let asked = or_else-Once [] _ (
        (AsksOnce-request _ get_method (group_path slot.group) none
            λ rb. Still-lift _ (net.group_of rb) λ g c. refl).at
          c) in
      elim (Bool-cases (not (is_empty (trim_space slot.group_name)))) [
        | inl e ↦ rw e (inl refl)
        | inr e ↦ elim (Bool-cases (is_empty slot.group)) [
          | inl f ↦ rw (e, f) (inl refl)
          | inr f ↦ rw (e, f) asked
        ]
      ]

  group_default-Once : (id : Bytes) (c : PbClient) → Once c (group_default net cfg id c).1
  unfolding group_default
  group_default-Once id c =
      or_else-Once [] _
        ((AsksOnce-request _ _ _ _ λ rb. Still-lift _ (net.group_of rb) λ g c. refl).at c)

-- A call that neither reads a cached state nor invalidates one.
abbrev pub IsPlain : Site → Call → Type 0
IsPlain site call =
    ((user : Bytes) → Spares user call)
    × ((c : PbClient) → Once site.net site.cfg c (perform site call c))

abbrev pub View : Site → Call → Type 0
View site call =
    ((user : Bytes) × (call ≡ Call.slot_state user))
    ⊎ (((user : Bytes) × (call ≡ Call.invalidate user)) ⊎ IsPlain site call)

pub call-View : (site : Site) (call : Call) → View site call
unfolding perform Spares
call-View site (Call.slot_state user) = inl (user, refl)
call-View site (Call.invalidate user) = inr (inl (user, refl))
call-View site (Call.find_slot filter) =
    inr (inr (λ u. tt, (AsksOnce-find_slot site.net site.cfg filter).at))
call-View site (Call.get_slot id) = inr (inr (λ u. tt, (AsksOnce-get_slot site.net site.cfg id).at))
call-View site (Call.list_slots filter n) =
    inr (inr (λ u. tt, (AsksOnce-list_slots site.net site.cfg filter n).at))
call-View site (Call.patch_slot id fields) =
    inr (inr (λ u. tt, (AsksOnce-patch_slot site.net site.cfg id fields).at))
call-View site (Call.group_name slot) = inr (inr (λ u. tt, group_name-Once site.net site.cfg slot))
call-View site (Call.group_default id) =
    inr (inr (λ u. tt, group_default-Once site.net site.cfg id))
call-View site (Call.group_key id) =
    inr (inr (λ u. tt, (AsksOnce-group_key_record site.net site.cfg id).at))
call-View site (Call.put_group_key id recipient wrapped version) = inr (
    inr (
      λ u. tt,
      (AsksOnce-put_group_key site.net site.cfg id recipient wrapped version kek_wrap_alg).at,
    ))
call-View site _ = inr (inr (λ u. tt, λ c. inl refl))
