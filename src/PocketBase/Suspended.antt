-- ===== src/PocketBase/Suspended.antt =====
-- The cached states and the handlers together: from a suspension to the next forward-auth verdict.
use abc_auth_svc.Base.{
  ◌≡◌, refl, ap, ◌∙◌, subst, Bool, true, false, some, [], ◌∷◌, ◌++◌, if◌then◌else◌, All, Bytes,
  codes, ◌==◌,
}
use abc_auth_svc.Crypto.{Base64, Digests}
use abc_auth_svc.Session.{verify}
use abc_auth_svc.Upstreams.{Env, Server, Slot, Call, World, History, ok}
use abc_auth_svc.Http.{
  Handler, done, Request, ◌>>=◌, ◌>>◌, has_store, tell, when, minio_user, ask, pure,
}
use abc_auth_svc.Http.Ends.{Ends, Ends-bind}
use abc_auth_svc.Forward.{verifier, decide_validate, judge, slot_state, is_blocked, deny, allow}
use abc_auth_svc.Manage.{claimed, operator_slot}
use abc_auth_svc.Manage.Lifecycle.{suspend_slot, handle_manage_suspend}
use abc_auth_svc.PocketBase.Records.{find_slot}
use abc_auth_svc.PocketBase.Cache.{state_filter, state_found}
use abc_auth_svc.PocketBase.Cache.Recent.{asked_state}
use abc_auth_svc.PocketBase.Cache.Forgotten.{IsUnread, cached_slot_state-IsAsked}
use abc_auth_svc.PocketBase.Replay.{Site, replay, with_client}

-- The user's state has been invalidated and not been read since.
pub record IsInvalidated (user : Bytes) (h : History) : Type 0 where
  pub later : History
  pub earlier : History
  pub split : h ≡ later ++ Call.invalidate user ∷ earlier
  pub unread : All (IsUnread user) later

-- Of a handler: when it succeeds, the user's state has just been invalidated.
abbrev Invalidates : {A : Type 0} → Bytes → Handler A → Type 0
Invalidates user m = Ends (λ a w. IsInvalidated user w.history) m

invalidate_last :
    (user name : Bytes) (has_hub : Bool)
    → Invalidates user (tell (Call.invalidate user) >> when has_hub (tell (Call.stop_server name)))
unfolding ◌>>=◌ ask when pure IsUnread
invalidate_last user name true = record {
  at = λ w b e. record {
    later = Call.stop_server name ∷ [];
    earlier = w.history;
    split = refl;
    unread = (tt, tt);
  };
}
invalidate_last user name false = record {
  at = λ w b e. record { later = []; earlier = w.history; split = refl; unread = tt };
}

suspend_slot-Invalidates :
    (env : Env) (srv : Server) (name : Bytes) (slot : Slot)
    → Invalidates (minio_user slot name) (suspend_slot env srv name slot)
unfolding suspend_slot
suspend_slot-Invalidates env srv name slot = Ends-bind _ _ λ _. Ends-bind _ _ λ _.
    Ends-bind _ _ λ _.
      Ends-bind _ _
        λ _. Ends-bind _ _ λ _. invalidate_last (minio_user slot name) name srv.is_hub_client

handle_manage_suspend-Invalidates :
    (env : Env) (srv : Server) (r : Request) (w after : World) (slot : Slot)
    → (operator_slot env srv r (λ s. s == claimed) (codes "slot_not_claimed") w).0 ≡ done slot
    → handle_manage_suspend env srv r w ≡ (done tt, after)
    → IsInvalidated (minio_user slot r.path_slot) after.history
unfolding handle_manage_suspend ◌>>=◌
handle_manage_suspend-Invalidates env srv r w after slot its_slot suspends =
    let start = (operator_slot env srv r (λ s. s == claimed) (codes "slot_not_claimed") w).1 in
    let run : suspend_slot env srv r.path_slot slot start ≡ (done tt, after) =
      rw its_slot at suspends in
    let i = (suspend_slot-Invalidates env srv r.path_slot slot).at start tt (ap (λ p. p.0) run) in
    subst (λ v. IsInvalidated (minio_user slot r.path_slot) v.history) (ap (λ p. p.1) run) i

decide_validate_eq :
    (env : Env) (srv : Server) (digests : Digests) (b64 : Base64) (r : Request) (w : World)
    (token user state : Bytes)
    → has_store srv.store ≡ true
    → r.cookie ≡ some token
    → verify digests b64 (verifier srv) (env.now w.history) token ≡ some user
    → env.cached_state w.history user ≡ state
    → (decide_validate env srv digests b64 r w).0
      ≡ done (if is_blocked state then deny state else allow user)
unfolding decide_validate judge slot_state ◌>>=◌ pure
decide_validate_eq env srv digests b64 r w token user state store sent genuine cached =
    rw (sent, judge, genuine, slot_state, store, cached) refl

module _ (site : Site) (env : Env) (srv : Server) (digests : Digests) (b64 : Base64) where
  client_state :
      (user : Bytes) (h : History)
      → IsInvalidated user h
      → (with_client site env).cached_state h user ≡ asked_state site user h
  unfolding with_client
  client_state user h i =
      rw i.split (cached_slot_state-IsAsked site user i.later i.earlier i.unread)

  -- After a suspension that succeeds, and with the client of this service as its store, the next
  -- forward-auth check of the slot's user is not answered from a cache: if PocketBase then says that
  -- the slot is suspended or expired, the user is denied, whatever was cached before.
  pub handle_manage_suspend-IsDenied :
      (r check : Request) (w after : World) (slot found : Slot) (token : Bytes)
      → (operator_slot
          (with_client site env)
          srv
          r
          (λ s. s == claimed)
          (codes "slot_not_claimed")
          w).0
        ≡ done slot
      → handle_manage_suspend (with_client site env) srv r w ≡ (done tt, after)
      → check.cookie ≡ some token
      → verify digests b64 (verifier srv) ((with_client site env).now after.history) token
        ≡ some (minio_user slot r.path_slot)
      → (find_slot site.net site.cfg
          (state_filter (minio_user slot r.path_slot))
          (replay site after.history)).0
        ≡ ok (some found)
      → is_blocked found.state ≡ true
      → has_store srv.store ≡ true
      → (decide_validate (with_client site env) srv digests b64 check after).0
        ≡ done (deny found.state)
  unfolding asked_state state_found
  handle_manage_suspend-IsDenied r check w after slot found token its_slot suspends sent genuine
        lookup blocked store =
      let user = minio_user slot r.path_slot in
      let i = handle_manage_suspend-Invalidates _ srv r w after slot its_slot suspends in
      let asked : asked_state site user after.history ≡ found.state =
        rw (asked_state, lookup) refl in
      let answer =
        decide_validate_eq (with_client site env) srv digests b64 check after token user found.state
          store sent genuine (client_state user after.history i ∙ asked) in
      rw blocked at answer
