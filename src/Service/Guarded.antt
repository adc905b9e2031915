-- ===== src/Service/Guarded.antt =====
-- A stranger at the operator's paths.
use abc_auth_svc.Service.Chain.{Inbound, respond}
use abc_auth_svc.Base.{ap, arith, ◌≡◌, refl, ◌⊎◌, inl, inr, true, List, [], ◌∷◌, Bytes, codes}
use abc_auth_svc.Upstreams.{World}
use abc_auth_svc.Http.{Handler, Request, fail, str, ◌>>=◌, continue, err_json}
use abc_auth_svc.Manage.Guard.{IsOperator, Refuses, operator_handlers-Refuse}
use abc_auth_svc.Health.{handle_not_found}
use abc_auth_svc.Routes.{
  Verb, get_verb, Endpoint, not_found_endpoint, cred_source_endpoint, slot_diag_endpoint,
  manage_list_slots_endpoint, manage_get_slot_endpoint, manage_suspend_endpoint,
  manage_reactivate_endpoint, manage_rotate_endpoint, keys_mint_endpoint, log_level_endpoint,
}
use abc_auth_svc.Routes.Laws.{is_guarded, manage_routes-AreGuarded}
use abc_auth_svc.Manage.CredSource.{handle_cred_source}
use abc_auth_svc.Manage.Listing.{handle_manage_list_slots, handle_manage_get_slot}
use abc_auth_svc.Manage.Rotate.{handle_manage_rotate}
use abc_auth_svc.Manage.Lifecycle.{handle_manage_suspend, handle_manage_reactivate}
use abc_auth_svc.Keys.{handle_keys_mint}
use abc_auth_svc.LogLevel.{get_log_level, post_log_level}
use abc_auth_svc.Diag.{handle_slot_diag}
use abc_auth_svc.Service.{
  level, level_change, Service, Sent, Payload, into, handle, handle_log_level, serve,
}

-- Nothing is called or changed: a 401 `unauthorized` or a 404.
pub IsRefused : Handler Payload → Type 0
IsRefused m =
    (w : World)
    → (m w ≡ (fail 401 ((codes "error", str (codes "unauthorized")) ∷ []), w))
      ⊎ (m w ≡ (fail 404 ((codes "error", str (codes "not found")) ∷ []), w))

into-Refuses : {A : Type 0} (f : A → Payload) (m : Handler A) → Refuses m → IsRefused (into f m)
unfolding into ◌>>=◌ IsRefused
into-Refuses f m h w = inl (rw (h w, continue))

not_found-IsRefused : IsRefused handle_not_found
unfolding IsRefused handle_not_found err_json
not_found-IsRefused w = inr refl

module _ (s : Service) (r : Request) (sent : Sent) (stranger : ¬ IsOperator s.srv r) where
  open s use {env, srv, digests, b64, aead, probes}

  refuses :
      Refuses (handle_manage_rotate env srv r)
      × Refuses (handle_manage_suspend env srv r)
      × Refuses (handle_manage_reactivate env srv r)
      × Refuses (handle_cred_source env srv digests b64 r sent.field)
      × Refuses (handle_manage_list_slots env srv r)
      × Refuses (handle_manage_get_slot env srv r)
      × Refuses (handle_keys_mint env srv digests aead r sent.field)
      × Refuses (get_log_level srv r)
      × Refuses (post_log_level srv r sent.field)
      × Refuses (handle_slot_diag env srv probes r)
  refuses = operator_handlers-Refuse srv r env digests b64 aead sent.field probes stranger

  log_level-IsRefused : (verb : Verb) → IsRefused (handle_log_level s verb r sent.field)
  unfolding handle_log_level
  log_level-IsRefused get_verb = into-Refuses level _ (refuses.7)
  log_level-IsRefused verb = into-Refuses level_change _ (refuses.8)

  handle-IsRefused :
      (e : Endpoint) (verb : Verb) → is_guarded e ≡ true → IsRefused (handle s e verb r sent)
  unfolding handle is_guarded handle_not_found
  handle-IsRefused manage_rotate_endpoint verb g = into-Refuses _ _ (refuses.0)
  handle-IsRefused manage_suspend_endpoint verb g = into-Refuses _ _ (refuses.1)
  handle-IsRefused manage_reactivate_endpoint verb g = into-Refuses _ _ (refuses.2)
  handle-IsRefused cred_source_endpoint verb g = into-Refuses _ _ (refuses.3)
  handle-IsRefused manage_list_slots_endpoint verb g = into-Refuses _ _ (refuses.4)
  handle-IsRefused manage_get_slot_endpoint verb g = into-Refuses _ _ (refuses.5)
  handle-IsRefused keys_mint_endpoint verb g = into-Refuses _ _ (refuses.6)
  handle-IsRefused slot_diag_endpoint verb g = into-Refuses _ _ (refuses.9)
  handle-IsRefused log_level_endpoint verb g = log_level-IsRefused verb
  handle-IsRefused not_found_endpoint verb g = not_found-IsRefused
  handle-IsRefused _ verb g = absurd (ground arith)

serve_manage-IsRefused :
    (s : Service) (verb : Verb) (path : List Bytes) (r : Request) (sent : Sent)
    → ¬ IsOperator s.srv r
    → IsRefused (serve s verb (codes "manage" ∷ path) r sent)
      × IsRefused (serve s verb (codes "auth" ∷ codes "manage" ∷ path) r sent)
unfolding serve
serve_manage-IsRefused s verb path r sent stranger =
    let (guarded, guarded') = manage_routes-AreGuarded verb path in
    (
      handle-IsRefused s _ sent stranger _ verb guarded,
      handle-IsRefused s _ sent stranger _ verb guarded',
    )

-- The reply is 401 `unauthorized` or 404, nothing is called and nothing changes.
pub IsTurnedAway : Service → Inbound → World → Type 0
IsTurnedAway s i w =
    let (o, w') = respond s i w in
    ((o.reply ≡ fail 401 ((codes "error", str (codes "unauthorized")) ∷ []))
      ⊎ (o.reply ≡ fail 404 ((codes "error", str (codes "not found")) ∷ [])))
    × (w' ≡ w)

respond-IsTurnedAway :
    (s : Service) (i : Inbound) (w : World)
    → IsRefused (serve s i.verb i.path i.request i.sent)
    → IsTurnedAway s i w
unfolding respond IsRefused IsTurnedAway
respond-IsTurnedAway s i w h = elim (h w) [
  | inl e ↦ (inl (ap (λ p. p.0) e), ap (λ p. p.1) e)
  | inr e ↦ (inr (ap (λ p. p.0) e), ap (λ p. p.1) e)
]

-- The whole service, from the middleware through the routes to the handlers: whatever the verb, the
-- path below `/manage` (with `/auth` in front of it or not), the headers and the body of a request
-- are, without the operator's token, and for every token while the server has none, the reply is 401
-- `unauthorized` or 404, nothing is called and nothing changes.
pub respond_manage-IsTurnedAway :
    (s : Service) (i : Inbound) (path : List Bytes) (w : World)
    → ¬ IsOperator s.srv i.request
    → IsTurnedAway s (record i { path = codes "manage" ∷ path }) w
      × IsTurnedAway s (record i { path = codes "auth" ∷ codes "manage" ∷ path }) w
respond_manage-IsTurnedAway s i path w stranger =
    let (below, below') = serve_manage-IsRefused s i.verb path i.request i.sent stranger in
    (respond-IsTurnedAway s _ w below, respond-IsTurnedAway s _ w below')
