-- ===== src/Files/Replay.antt =====
-- The slot files on the disk and the operator's handlers that write and remove them.
use abc_auth_svc.Base.{
  ◌≡◌, refl, inl, inr, true, none, [], ◌∷◌, arith, Bool-cases, Bytes, codes, ◌==◌, find,
}
use abc_auth_svc.Upstreams.{Env, Server, Slot, Call, World, History, Outcome-cases}
use abc_auth_svc.Http.{
  Handler, Reply, done, fail, Request, ◌>>=◌, ◌>>◌, continue, tell, when, ask, pure, or_fail,
  err_json, minio_user,
}
use abc_auth_svc.Http.Actions.{patch_slot}
use abc_auth_svc.Http.Calls.{Succeeds, success_rules}
use abc_auth_svc.Manage.{claimed, suspended, operator_slot}
use abc_auth_svc.Manage.Lifecycle.{suspend_slot, handle_manage_suspend}
use abc_auth_svc.Files.{
  Disk, Os, remove, first_failure, write_creds_file, write_abc_config_file, remove_creds_files,
}
use abc_auth_svc.Files.Apart.{creds_path, config_path, remove_creds_files-IsRemoval}

-- The disk after the calls, from what it was before the first.
unfoldable pub disk_after : Os → Disk → History → Disk
disk_after os d [] = d
disk_after os d (Call.write_creds name key secret endpoint ∷ h) =
    (write_creds_file os name key secret endpoint (disk_after os d h)).1
disk_after os d (Call.write_config name blob ∷ h) =
    (write_abc_config_file os name blob (disk_after os d h)).1
disk_after os d (Call.remove_creds name ∷ h) = (remove_creds_files os name (disk_after os d h)).1
disk_after os d (_ ∷ h) = disk_after os d h

-- The newest call about the slot files is a removal of those of `name`.
abbrev EndsErased : Bytes → History → Type 0
EndsErased name [] = ⊥
EndsErased name (Call.remove_creds n ∷ h) = n ≡ name
EndsErased name (Call.write_creds n key secret endpoint ∷ h) = ⊥
EndsErased name (Call.write_config n blob ∷ h) = ⊥
EndsErased name (_ ∷ h) = EndsErased name h

-- A handler after which the newest such call is the removal, whether it succeeds or fails.
record Erases {A : Type 0} (name : Bytes) (m : Handler A) : Type 0 where
  at : (w : World) → EndsErased name (m w).1.history

Erases-after :
    {A B : Type 0} {name : Bytes} (m : Handler A) (f : A → Handler B)
    → Succeeds m
    → ((a : A) → Erases name (f a))
    → Erases name (m >>= f)
unfolding ◌>>=◌
Erases-after m f hm hf = record {
  at = λ w. let (a, e) = hm.at w in rw (e, continue) ((hf a).at (m w).1);
}

module _ (env : Env) (srv : Server) where
  -- What suspend_slot does from the removal on.
  suspend_tail-Erases :
      (name : Bytes) (slot : Slot)
      → Erases name (do
        tell (Call.remove_creds name)
        patched ← patch_slot env slot.id ((codes "state", suspended) ∷ [])
        or_fail patched 500 (codes "patch_failed")
        tell (Call.invalidate (minio_user slot name))
        when srv.is_hub_client (tell (Call.stop_server name)))
  unfolding ◌>>=◌ ask or_fail when pure err_json
  suspend_tail-Erases name slot = record {
    at = λ w.
        elim (Outcome-cases (
          env.patched (Call.remove_creds name ∷ w.history) slot.id
            ((codes "state", suspended) ∷ []))) [
              | inl e ↦ rw e refl
              | inr (a, e) ↦ elim (Bool-cases srv.is_hub_client) [
                | inl hub ↦ rw (e, hub) refl
                | inr hub ↦ rw (e, hub) refl
              ]
            ];
  }

  suspend_slot-Erases : (name : Bytes) (slot : Slot) → Erases name (suspend_slot env srv name slot)
  unfolding suspend_slot
  suspend_slot-Erases name slot =
      Erases-after _ _ (search success_rules)
        λ _. Erases-after _ _ (search success_rules) λ _. suspend_tail-Erases name slot

  handle_manage_suspend-EndsErased :
      (r : Request) (w : World)
      → (handle_manage_suspend env srv r w).0 ≡ done tt
      → EndsErased r.path_slot (handle_manage_suspend env srv r w).1.history
  unfolding handle_manage_suspend ◌>>=◌
  handle_manage_suspend-EndsErased r w success =
      from (operator_slot env srv r (λ s. s == claimed) (codes "slot_not_claimed") w).0 success
    where
      from :
          (o : Reply Slot)
          → (continue o
              (suspend_slot env srv r.path_slot)
              (operator_slot env srv r (λ s. s == claimed) (codes "slot_not_claimed") w).1).0
            ≡ done tt
          → EndsErased r.path_slot
              (continue o
                (suspend_slot env srv r.path_slot)
                (operator_slot env srv r
                  (λ s. s == claimed)
                  (codes "slot_not_claimed")
                  w).1).1.history
      from (done slot) h = (suspend_slot-Erases r.path_slot slot).at _
      from (fail status body) h = absurd (ground arith)

-- Neither file of the slot is there.
pub AreErased : Os → Bytes → Disk → Type 0
AreErased os name d =
    (find (creds_path os name) d.files ≡ none) × (find (config_path os name) d.files ≡ none)

module _ (os : Os) (d : Disk) (free : (path : Bytes) (b : Disk) → os.removes path b ≡ true) where
  remove-IsFine : (path : Bytes) (b : Disk) → (remove os path b).0 ≡ none
  unfolding remove
  remove-IsFine path b = ground (arith, free path b)

  remove_creds_files-IsFine : (name : Bytes) (b : Disk) → (remove_creds_files os name b).0 ≡ none
  unfolding remove_creds_files first_failure
  remove_creds_files-IsFine name b =
      let d' = (remove os (creds_path os name) b).1 in
      rw (remove-IsFine (creds_path os name) b, remove-IsFine (config_path os name) d') refl

  erased_now : (name : Bytes) (b : Disk) → AreErased os name (remove_creds_files os name b).1
  unfolding AreErased
  erased_now name b =
      let fine = remove_creds_files-IsFine name b in
      elim (remove_creds_files-IsRemoval os name b).outcome [
        | inl (_, no_creds, no_config) ↦ (no_creds, no_config)
        | inr (inl e) ↦ absurd (ground arith)
        | inr (inr e) ↦ absurd (ground arith)
      ]

  erased_after :
      (name : Bytes) (h : History) → EndsErased name h → AreErased os name (disk_after os d h)
  unfolding disk_after
  erased_after name [] e = absurd e
  erased_after name (Call.remove_creds n ∷ h) e = rw e (erased_now name _)
  erased_after name (Call.write_creds n key secret endpoint ∷ h) e = absurd e
  erased_after name (Call.write_config n blob ∷ h) e = absurd e
  erased_after name (_ ∷ h) e = erased_after name h e

  -- After a suspension that succeeds, neither the credentials file nor the config file of the slot
  -- is on the disk, whatever was there and whatever was written before, as long as the operating
  -- system lets the service remove them.
  pub handle_manage_suspend-AreErased :
      (env : Env) (srv : Server) (r : Request) (w : World)
      → (handle_manage_suspend env srv r w).0 ≡ done tt
      → AreErased os r.path_slot (disk_after os d (handle_manage_suspend env srv r w).1.history)
  handle_manage_suspend-AreErased env srv r w success =
      erased_after r.path_slot _ (handle_manage_suspend-EndsErased env srv r w success)
