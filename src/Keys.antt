-- ===== src/Keys.antt =====
-- internal/authsvc/keys.go: releasing a group's key to its members, and minting it.
pub mod Laws
pub mod Calls
use abc_auth_svc.Text.Int.{ℤ, pos, next_int}
use abc_auth_svc.Base.{
  ℕ, zero, suc, ◌+◌, ◌-◌, ◌*◌, ◌/◌, ◌%◌, ◌^◌, ◌≤◌, ◌<◌, ◌≡◌, refl, sym, ap, ◌∙◌, subst, ◌≡⟨◌⟩◌, ◌∎,
  ◌≢◌, ◌↔◌, ◌⊎◌, inl, inr, Bool, true, false, not, ◌&&◌, ◌||◌, Option, none, some, List, [], ◌∷◌,
  ◌++◌, append-nil, append_assoc, arith, ltb, leb, nat_eq, if◌then◌else◌, nat_eq_iff, nat_eq_refl,
  Bool-cases, Option-cases, length, take, drop, all, length-append, take-append_left,
  drop-append_left, drop_past, All, All-append, All-append_left, All-append_right, Bytes, codes,
  ◌==◌, eq_of_==, ==_refl, ==_iff, is_empty, Lacks, String,
}
use abc_auth_svc.Text.{trim_space}
use abc_auth_svc.Crypto.{Digests}
use abc_auth_svc.KekWrap.{Aead, mk_len, wrap_salt_len, nonce_size, wrap_kek, unwrap_kek}
use abc_auth_svc.Secrets.{secrets_auth_slot, secrets_body}
use abc_auth_svc.Upstreams.{Env, Server, Outcome, ok, err, Slot, GroupKey}
use abc_auth_svc.Http.{
  Handler, ◌>>=◌, ◌>>◌, pure, Request, Body, require, or_fail, present, require_operator,
}
use abc_auth_svc.Http.Actions.{group_key_record, put_group_key, random_bytes, generate_keypair}

abbrev pub kek_id_of : Bytes → Bytes
kek_id_of name = codes "group:" ++ name

-- rootMK
unfoldable pub root_mk : Aead → Server → Option Bytes
root_mk aead srv =
    let raw = trim_space srv.root_mk_b64 in
    if is_empty raw then none else elim (aead.std_decode raw) [
      | none ↦ none
      | some mk ↦ if nat_eq (length mk) mk_len then some mk else none
    ]

-- What `/keys/get` and `/keys/mint` return; a mint has no identity in it.
pub record ReleasedKey : Type 0 where
  pub kek_id : Bytes
  pub version : ℤ
  pub recipient : Bytes
  pub identity : Bytes

pub record MintedKey : Type 0 where
  pub kek_id : Bytes
  pub version : ℤ
  pub recipient : Bytes

module _ (env : Env) (srv : Server) (digests : Digests) (aead : Aead) where
  -- keysPrereqs
  keys_prereqs : Handler Bytes
  keys_prereqs = do
    mk ← present (root_mk aead srv) 503 (codes "managed_encryption_unconfigured")
    require srv.is_key_store 500 (codes "key_store_unavailable")
    pure mk

  release : Bytes → Bytes → GroupKey → Handler ReleasedKey
  release mk wanted key = do
    let kek_id = kek_id_of key.name
    require (is_empty (trim_space wanted) || trim_space wanted == kek_id) 403 (codes "not_a_member")
    require key.has_key 404 (codes "key_not_provisioned")
    sk ←
        present (unwrap_kek aead mk kek_id key.version key.sk_wrapped) 500
          (codes "key_unwrap_failed")
    pure (record {
      kek_id = kek_id;
      version = key.version;
      recipient = key.recipient;
      identity = sk;
    })

  -- handleKeysGet; the body is its `kek_id` field.
  unfoldable pub handle_keys_get : Request → Body Bytes → Handler ReleasedKey
  unfolding release keys_prereqs
  handle_keys_get r sent = do
    mk ← keys_prereqs
    slot ← secrets_auth_slot env srv digests r
    require (not (is_empty slot.group)) 409 (codes "slot_has_no_group")
    wanted ← secrets_body sent []
    read ← group_key_record env slot.group
    key ← or_fail read 500 (codes "key_read_failed")
    require (not (is_empty key.name)) 409 (codes "slot_has_no_group")
    release mk wanted key

  -- The next version, a Go int, and the keypair wrapped under the master key.
  mint_version : GroupKey → ℤ
  mint_version key = if key.has_key then next_int key.version else pos 1

  mint_key : Bytes → Bytes → GroupKey → Handler MintedKey
  unfolding mint_version
  mint_key mk group_id key = do
    let kek_id = kek_id_of key.name
    let version = mint_version key
    generated ← generate_keypair env
    pair ← or_fail generated 500 (codes "key_gen_failed")
    salt_drawn ← random_bytes env
    salt ← or_fail salt_drawn 500 (codes "key_wrap_failed")
    nonce_drawn ← random_bytes env
    nonce ← or_fail nonce_drawn 500 (codes "key_wrap_failed")
    wrapped ←
        present
          (wrap_kek aead (take wrap_salt_len salt) (take nonce_size nonce) kek_id version pair.1 mk)
          500 (codes "key_wrap_failed")
    written ← put_group_key env group_id pair.0 wrapped version
    or_fail written 500 (codes "key_write_failed")
    pure (record { kek_id = kek_id; version = version; recipient = pair.0 })

  -- handleKeysMint; the body is its `group_id` field.
  unfoldable pub handle_keys_mint : Request → Body Bytes → Handler MintedKey
  unfolding mint_key keys_prereqs
  handle_keys_mint r sent = do
    require_operator srv r
    mk ← keys_prereqs
    body ← secrets_body sent []
    let group_id = trim_space body
    require (not (is_empty group_id)) 400 (codes "group_id_required")
    read ← group_key_record env group_id
    key ← or_fail read 404 (codes "group_not_found")
    require (not (is_empty key.name)) 409 (codes "group_has_no_name")
    mint_key mk group_id key
