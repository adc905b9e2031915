-- ===== src/Slots/Persisted.antt =====
-- internal/authsvc/slots.go: what persistSlotConfig returns.
use abc_auth_svc.Base.{◌≡◌, refl, sym, ◌∙◌, subst, ◌⊎◌, inl, inr, true, ◌&&◌, Bytes, ◌==◌, is_empty}
use abc_auth_svc.Render.{normalized, seedling, render_config_yaml}
use abc_auth_svc.Upstreams.{Env, Outcome, ok, err, ClusterInfo, Slot, History}
use abc_auth_svc.Http.Yields.{
  Yields, Yields-pure, Yields-ask, Yields-any, Yields-bind, Yields-if, Yields-weaken,
}
use abc_auth_svc.Slots.{persist_rendered, persist_loaded, persist_slot_config}
use abc_auth_svc.Slots.Keeps.{config_fields}

module _ (env : Env) (cluster : ClusterInfo) (slot_id opaque : Bytes) where
  -- The config is rendered from the slot that was loaded, and a PATCH has stored it there.
  pub record IsRendered (loaded : Slot) (blob : Bytes) : Type 0 where
    pub grouped : History
    pub written : History
    pub at : Bytes
    pub rendered :
        render_config_yaml cluster loaded.slot_name
          (env.name_of_group grouped loaded)
          loaded.nomad_token_secret
          loaded.minio_access_key
          loaded.minio_secret_key
          (normalized loaded.cred_source)
          opaque
        ≡ ok blob
    pub patched : env.patched written slot_id (config_fields blob at) ≡ ok tt

  -- The config is rendered from the slot with this id, or the stored one where a token is wanted
  -- and none is given.
  pub record IsPersisted (blob : Bytes) : Type 0 where
    pub loaded : Slot
    pub asked : History
    pub read : env.slot_by_id asked slot_id ≡ ok loaded
    pub config :
        (((normalized loaded.cred_source == seedling) && is_empty opaque ≡ true)
          × (blob ≡ loaded.config_yaml))
        ⊎ IsRendered loaded blob

  abbrev OnSuccess : (Bytes → Type 0) → Outcome Bytes → Type 0
  OnSuccess P (ok blob) = P blob
  OnSuccess P err = Unit

  after_patch :
      (o : Outcome (Unit {0})) (yaml : Bytes) (P : Bytes → Type 0)
      → (o ≡ ok tt → P yaml)
      → OnSuccess P (elim o [ ok _ ↦ ok yaml | err ↦ err ])
  after_patch (ok tt) yaml P k = k refl
  after_patch err yaml P k = tt

  persist_rendered-IsRendered :
      (loaded : Slot) (g : History) (o : Outcome Bytes)
      → render_config_yaml cluster loaded.slot_name
          (env.name_of_group g loaded)
          loaded.nomad_token_secret
          loaded.minio_access_key
          loaded.minio_secret_key
          (normalized loaded.cred_source)
          opaque
        ≡ o
      → Yields (OnSuccess (IsRendered loaded)) (persist_rendered env cluster slot_id o)
  unfolding persist_rendered
  persist_rendered-IsRendered loaded g err e = Yields-pure _ tt
  persist_rendered-IsRendered loaded g (ok yaml) e = Yields-bind _ _ (Yields-any _) λ at _.
      Yields-bind _ _ (Yields-ask _ _) λ written (h, e1). Yields-pure _ (
        after_patch written yaml (IsRendered loaded)
          λ e2. record { grouped = g; written = h; at = at; rendered = e; patched = sym e1 ∙ e2 })

  OnSuccess-map :
      (P Q : Bytes → Type 0) (o : Outcome Bytes)
      → ((blob : Bytes) → P blob → Q blob)
      → OnSuccess P o
      → OnSuccess Q o
  OnSuccess-map P Q (ok blob) k p = k blob p
  OnSuccess-map P Q err k p = tt

  persist_loaded-IsPersisted :
      (h : History) (o : Outcome Slot)
      → env.slot_by_id h slot_id ≡ o
      → Yields (OnSuccess IsPersisted) (persist_loaded env cluster slot_id opaque o)
  unfolding persist_loaded
  persist_loaded-IsPersisted h err e = Yields-pure _ tt
  persist_loaded-IsPersisted h (ok slot) e =
      Yields-if (normalized slot.cred_source == seedling && is_empty opaque) _ _
        (λ none_given.
          Yields-pure _
            (record { loaded = slot; asked = h; read = e; config = inl (none_given, refl) }))
        λ _. Yields-bind _ _ (Yields-ask _ _) λ group (g, e1).
          Yields-weaken _ (persist_rendered-IsRendered slot g _ (rw e1 refl)) λ o.
            OnSuccess-map (IsRendered slot) IsPersisted o
              λ blob rendered. record { loaded = slot; asked = h; read = e; config = inr rendered }

  persist_slot_config-OnSuccess :
      Yields (OnSuccess IsPersisted) (persist_slot_config env cluster slot_id opaque)
  unfolding persist_slot_config
  persist_slot_config-OnSuccess =
      Yields-bind _ _ (Yields-ask _ _) λ slot (h, e). persist_loaded-IsPersisted h slot (sym e)

  -- A config that is returned is rendered from the slot that was loaded under the id and stored
  -- there by a PATCH, or it is the stored one.
  pub persist_slot_config-IsPersisted :
      Yields
        (λ o. (blob : Bytes) → o ≡ ok blob → IsPersisted blob)
        (persist_slot_config env cluster slot_id opaque)
  persist_slot_config-IsPersisted =
      Yields-weaken _ persist_slot_config-OnSuccess λ o p blob e. subst (OnSuccess IsPersisted) e p
