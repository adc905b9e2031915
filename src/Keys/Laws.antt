-- ===== src/Keys/Laws.antt =====
-- Whose key is released, and under which version a key is minted.
use abc_auth_svc.Base.{
  ◌⊎◌, ◌≡◌, refl, sym, ◌∙◌, subst, true, ◌||◌, some, [], Bytes, ◌==◌, is_empty, false,
}
use abc_auth_svc.Text.{trim_space}
use abc_auth_svc.Crypto.{Digests}
use abc_auth_svc.KekWrap.{Aead, unwrap_kek}
use abc_auth_svc.Secrets.{secrets_body}
use abc_auth_svc.Upstreams.{World, History, Call, Env, Server, ok, Slot, GroupKey}
use abc_auth_svc.Http.{done, Request, Body, empty, malformed, decoded}
use abc_auth_svc.Http.Yields.{
  Yields, Yields-pure, Yields-present, Yields-any, Yields-require, Yields-bind, Yields-weaken,
}
use abc_auth_svc.Exchange.{by_opaque}
use abc_auth_svc.Crypto.{sha256_hex}
use abc_auth_svc.Base.{ap, not, ◌++◌, codes, ◌∷◌}
use abc_auth_svc.Secrets.{secrets_auth_slot}
use abc_auth_svc.Http.Actions.{group_key_record}
use abc_auth_svc.Http.{◌>>=◌, ◌>>◌, require, or_fail, bearer}
use abc_auth_svc.Http.Yields.{not-true}
use abc_auth_svc.Http.Finds.{
  Finds, Finds-at, Finds-pure, Finds-ask, Finds-require, Finds-or_fail, Finds-present, Finds-some,
  Finds-then, Finds-Yields, Finds-err_json,
}
use abc_auth_svc.Text.Int.{ℤ, pos, Below, IsLargest}
use abc_auth_svc.Keys.{kek_id_of, root_mk, ReleasedKey, keys_prereqs, release, handle_keys_get}

-- The text of a body; none is blank.
abbrev pub text_of : Body Bytes → Bytes
text_of (decoded text) = text
text_of _ = []

-- The text is blank, or is the key id but for space around it.
abbrev pub Names : Bytes → Bytes → Type 0
Names text kek_id = (is_empty (trim_space text) || trim_space text == kek_id) ≡ true

module _ (env : Env) (srv : Server) (digests : Digests) (aead : Aead) where
  -- The filter for a claimed slot with the digest of the token.
  abbrev pub token_filter : Bytes → Bytes
  token_filter opaque =
      codes "opaque_token_hash='" ++ sha256_hex digests opaque ++ codes "' && state='claimed'"

  -- The identity is the unwrapped key of the group of the slot that is found claimed under the
  -- request's bearer token.
  pub record IsMembersKey (r : Request) (wanted : Body Bytes) (h : History) (key : ReleasedKey)
      : Type 0 where
    pub opaque : Bytes
    pub slot : Slot
    pub group_key : GroupKey
    pub mk : Bytes
    pub sent : bearer (r.header (codes "Authorization")) ≡ some opaque
    pub nonempty : is_empty opaque ≡ false
    pub found : env.found_slot h (token_filter opaque) ≡ ok (some slot)
    pub keyed : root_mk aead srv ≡ some mk
    pub read :
        env.group_key_record (Call.find_slot (token_filter opaque) ∷ h) slot.group ≡ ok group_key
    pub named : key.kek_id ≡ codes "group:" ++ group_key.name
    pub versioned : key.version ≡ group_key.version
    pub unwrapped :
        unwrap_kek aead mk key.kek_id key.version group_key.sk_wrapped ≡ some key.identity
    pub requested : Names (text_of wanted) key.kek_id

  -- What the authentication says of the slot and of the calls made.
  record IsBearers (r : Request) (h : History) (slot : Slot) (g : History) : Type 0 where
    opaque : Bytes
    sent : bearer (r.header (codes "Authorization")) ≡ some opaque
    nonempty : is_empty opaque ≡ false
    found : env.found_slot h (token_filter opaque) ≡ ok (some slot)
    called : g ≡ Call.find_slot (token_filter opaque) ∷ h

  secrets_auth_slot-IsBearers :
      (r : Request) (h : History) → Finds h (IsBearers r h) (secrets_auth_slot env srv digests r)
  unfolding secrets_auth_slot by_opaque
  secrets_auth_slot-IsBearers r h = Finds-present _ _ _ _ λ opaque sent.
      Finds-require _ _ _ _ λ nonempty. Finds-require _ _ _ _ λ _. Finds-ask _ _ _ (
        Finds-or_fail _ _ _ _ λ slot_or_nil e1. Finds-some _ _ _ λ slot e2. record {
          opaque = opaque;
          sent = sent;
          nonempty = not-true (is_empty opaque) nonempty;
          found = e1 ∙ ap ok e2;
          called = refl;
        })

  IsReleaseOf : Bytes → Bytes → GroupKey → ReleasedKey → Type 0
  IsReleaseOf mk wanted group_key key =
      Names wanted key.kek_id
      × (key.kek_id ≡ kek_id_of group_key.name)
      × (key.version ≡ group_key.version)
      × (unwrap_kek aead mk key.kek_id key.version group_key.sk_wrapped ≡ some key.identity)

  secrets_body-decoded :
      (sent : Body Bytes) (h : History)
      → Finds h (λ a g. (a ≡ text_of sent) × (g ≡ h)) (secrets_body sent [])
  unfolding secrets_body
  secrets_body-decoded empty h = Finds-pure [] (refl, refl)
  secrets_body-decoded malformed h = Finds-err_json _ _
  secrets_body-decoded (decoded a) h = Finds-pure a (refl, refl)

  release-IsReleaseOf :
      (mk wanted : Bytes) (key : GroupKey)
      → Yields (IsReleaseOf mk wanted key) (release env srv digests aead mk wanted key)
  unfolding release IsReleaseOf
  release-IsReleaseOf mk wanted key = Yields-bind _ _ (Yields-require _ _ _) λ _ named.
      Yields-bind _ _ (Yields-any _)
        λ _ _. Yields-bind _ _ (Yields-present _ _ _) λ sk e. Yields-pure _ (named, refl, refl, e)

  keys_prereqs-keyed :
      (h : History)
      → Finds h (λ mk g. (root_mk aead srv ≡ some mk) × (g ≡ h)) (keys_prereqs env srv digests aead)
  unfolding keys_prereqs
  keys_prereqs-keyed h =
      Finds-present _ _ _ _ λ mk e. Finds-require _ _ _ _ λ _. Finds-pure mk (e, refl)

  -- The group's key, read and released.
  released-IsMembersKey :
      (r : Request) (sent : Body Bytes) (mk wanted : Bytes) (slot : Slot) (h g k : History)
      → root_mk aead srv ≡ some mk
      → IsBearers r h slot g
      → wanted ≡ text_of sent
      → k ≡ g
      → Finds k
          (λ key _. IsMembersKey r sent h key)
          (do
            read ← group_key_record env slot.group
            key ← or_fail read 500 (codes "key_read_failed")
            require (not (is_empty key.name)) 409 (codes "slot_has_no_group")
            release env srv digests aead mk wanted key)
  unfolding IsReleaseOf
  released-IsMembersKey r sent mk wanted slot h g k keyed member is_text same = Finds-ask _ _ _ (
      Finds-or_fail _ _ _ _ λ group_key e. Finds-require _ _ _ _ λ _. Finds-Yields _ (
        Yields-weaken _ (release-IsReleaseOf mk wanted group_key)
          λ key (names, named, versioned, unwrapped). record {
            opaque = member.opaque;
            slot = slot;
            group_key = group_key;
            mk = mk;
            sent = member.sent;
            nonempty = member.nonempty;
            found = member.found;
            keyed = keyed;
            read = ap (λ x. env.group_key_record x slot.group) (sym (same ∙ member.called)) ∙ e;
            named = named;
            versioned = versioned;
            unwrapped = unwrapped;
            requested = subst (λ x. Names x key.kek_id) is_text names;
          }))

  handle_keys_get-Finds :
      (r : Request) (sent : Body Bytes) (h : History)
      → Finds h (λ key _. IsMembersKey r sent h key) (handle_keys_get env srv digests aead r sent)
  unfolding handle_keys_get
  handle_keys_get-Finds r sent h = Finds-then _ _ (keys_prereqs-keyed h) λ mk h' (keyed, same).
      Finds-at _ same (
        Finds-then _ _ (secrets_auth_slot-IsBearers r h) λ slot g member. Finds-require _ _ _ _ λ _.
          Finds-then _ _ (secrets_body-decoded sent g) λ wanted k (is_text, later).
            released-IsMembersKey r sent mk wanted slot h g k keyed member is_text later)

  -- A key that is released is the one stored for the group of the slot which the store finds
  -- claimed, at the time of the request, under the SHA-256 digest of the request's bearer token,
  -- which is not empty. It is read right after that, and unwrapped under the root master key, that
  -- group's key id and the stored version; and a key id in the body, unless it is blank, is that
  -- one.
  pub handle_keys_get-IsMembersKey :
      (r : Request) (sent : Body Bytes) (w : World) (key : ReleasedKey)
      → (handle_keys_get env srv digests aead r sent w).0 ≡ done key
      → IsMembersKey r sent w.history key
  handle_keys_get-IsMembersKey r sent w key e =
      (handle_keys_get-Finds r sent w.history).at w refl key e

  -- The first version is 1, and a later one is above the one before, unless that is the largest
  -- int.
  abbrev pub IsVersionAfter : GroupKey → ℤ → Type 0
  IsVersionAfter old version =
      ((old.has_key ≡ false) × (version ≡ pos 1))
      ⊎ (Below old.version version ⊎ IsLargest old.version)

  -- A key is only written in place of a record that was read, under a later version.
  pub IsNewVersion : Call → Type 0
  IsNewVersion (Call.put_group_key id recipient wrapped version) =
      (h : History) × (old : GroupKey) × (env.group_key_record h id ≡ ok old)
      × IsVersionAfter old version
  IsNewVersion (Call.group_key id) = Unit
  IsNewVersion Call.random = Unit
  IsNewVersion Call.keypair = Unit
  IsNewVersion _ = ⊥
