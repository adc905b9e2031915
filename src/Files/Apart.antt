-- ===== src/Files/Apart.antt =====
-- The files of one slot and those of another; what a removal leaves.
use abc_auth_svc.Base.{
  ◌≡◌, ◌≢◌, ◌∙◌, refl, ap, sym, ◌⊎◌, inl, inr, none, some, arith, Bool-cases, Bytes, codes, ◌==◌,
  eq_of_==, ==_refl, find, find-delete,
}
use abc_auth_svc.Files.{
  Disk, Os, IsComponent, Failure, creds_dir, config_dir, creds_body, write_creds_file,
  write_abc_config_file, remove, first_failure, remove_creds_files,
}
use abc_auth_svc.Files.Laws.{IsWrite, write_in-IsWrite}

module _ (os : Os) where
  abbrev pub creds_path : Bytes → Bytes
  creds_path name = os.join creds_dir name

  abbrev pub config_path : Bytes → Bytes
  config_path name = os.join config_dir name

  remove-IsGone :
      (path : Bytes) (d : Disk)
      → (((remove os path d).0 ≡ none) × (find path (remove os path d).1.files ≡ none))
        ⊎ ((remove os path d).0 ≡ some path)
  unfolding remove
  remove-IsGone path d = ground (arith, find-delete path path d.files, ==_refl path)

  remove-others :
      (path : Bytes) (d : Disk) (p : Bytes)
      → (p ≡ path) ⊎ (find p (remove os path d).1.files ≡ find p d.files)
  unfolding remove
  remove-others path d p = elim (Bool-cases (path == p)) [
    | inl e ↦ inl (sym (eq_of_== path p e))
    | inr e ↦ inr (ground (arith, find-delete p path d.files))
  ]

  -- Without an error both files are gone, and an error names one of them; no other file changes.
  pub record IsRemoval (name : Bytes) (d : Disk) (o : Failure × Disk) : Type 0 where
    pub outcome :
        ((o.0 ≡ none)
          × (find (creds_path name) o.1.files ≡ none)
          × (find (config_path name) o.1.files ≡ none))
        ⊎ ((o.0 ≡ some (creds_path name)) ⊎ (o.0 ≡ some (config_path name)))
    pub others :
        (p : Bytes)
        → (p ≡ creds_path name) ⊎ ((p ≡ config_path name) ⊎ (find p o.1.files ≡ find p d.files))

  pub remove_creds_files-IsRemoval :
      (name : Bytes) (d : Disk) → IsRemoval name d (remove_creds_files os name d)
  unfolding remove_creds_files first_failure
  remove_creds_files-IsRemoval name d =
      let d' = (remove os (creds_path name) d).1 in
      record {
        outcome = elim (remove-IsGone (creds_path name) d) [
          | inr failed ↦ inr (inl (rw failed refl))
          | inl (fine, gone) ↦ elim (remove-IsGone (config_path name) d') [
            | inr failed ↦ inr (inr (rw (fine, failed) refl))
            | inl (fine', gone') ↦ inl (rw (fine, fine') refl, still_gone gone gone', gone')
          ]
        ];
        others = λ p. elim (remove-others (creds_path name) d p) [
          | inl e ↦ inl e
          | inr same ↦ elim (remove-others (config_path name) d' p) [
            | inl e ↦ inr (inl e)
            | inr same' ↦ inr (inr (same' ∙ same))
          ]
        ];
      }
    where
      still_gone :
          find (creds_path name) (remove os (creds_path name) d).1.files ≡ none
          → find
              (config_path name)
              (remove os (config_path name) (remove os (creds_path name) d).1).1.files
            ≡ none
          → find
              (creds_path name)
              (remove os (config_path name) (remove os (creds_path name) d).1).1.files
            ≡ none
      still_gone gone gone' =
          elim (remove-others (config_path name) (remove os (creds_path name) d).1
            (creds_path name)) [
              | inl e ↦
                  ap
                    (λ q.
                      find q
                        (remove os (config_path name) (remove os (creds_path name) d).1).1.files)
                    e
                  ∙ gone'
              | inr same ↦ same ∙ gone
            ]

  creds_path-injective :
      (a b : Bytes) → IsComponent a → IsComponent b → creds_path a ≡ creds_path b → a ≡ b
  unfolding codes
  creds_path-injective a b ca cb e =
      let joined = sym (os.join-component creds_dir a ca) ∙ e ∙ os.join-component creds_dir b cb in
      ground arith

  config_path-injective :
      (a b : Bytes) → IsComponent a → IsComponent b → config_path a ≡ config_path b → a ≡ b
  unfolding codes
  config_path-injective a b ca cb e =
      let joined =
        sym (os.join-component config_dir a ca) ∙ e ∙ os.join-component config_dir b cb in
      ground arith

  creds_path-ne-config_path :
      (a b : Bytes) → IsComponent a → IsComponent b → creds_path a ≢ config_path b
  unfolding codes
  creds_path-ne-config_path a b ca cb e =
      let joined = sym (os.join-component creds_dir a ca) ∙ e ∙ os.join-component config_dir b cb in
      ground arith

  -- What the files of the slot `b` are, read off before and after.
  pub record AreKept (b : Bytes) (d d' : Disk) : Type 0 where
    pub creds : find (creds_path b) d'.files ≡ find (creds_path b) d.files
    pub config : find (config_path b) d'.files ≡ find (config_path b) d.files

  module _ (a b : Bytes) (ca : IsComponent a) (cb : IsComponent b) (apart : a ≢ b) where
    creds_apart : creds_path b ≢ creds_path a
    creds_apart e = apart (sym (creds_path-injective b a cb ca e))

    config_apart : config_path b ≢ config_path a
    config_apart e = apart (sym (config_path-injective b a cb ca e))

    cross_apart : config_path b ≢ creds_path a
    cross_apart e = creds_path-ne-config_path a b ca cb (sym e)

    -- What leaves all but the two paths of `a` alone.
    AreKept-of_others :
        (d d' : Disk)
        → ((p : Bytes)
            → (p ≡ creds_path a) ⊎ ((p ≡ config_path a) ⊎ (find p d'.files ≡ find p d.files)))
        → AreKept b d d'
    AreKept-of_others d d' others = record {
      creds = elim (others (creds_path b)) [
        | inl e ↦ absurd (creds_apart e)
        | inr (inl e) ↦ absurd (creds_path-ne-config_path b a cb ca e)
        | inr (inr same) ↦ same
      ];
      config = elim (others (config_path b)) [
        | inl e ↦ absurd (cross_apart e)
        | inr (inl e) ↦ absurd (config_apart e)
        | inr (inr same) ↦ same
      ];
    }

    -- The files of a slot are its own: for two slots whose names are different path components,
    -- writing the credentials, writing the config or removing the files of the one, whether or not
    -- it succeeds, leaves both files of the other as they are.
    pub slot_files-AreApart :
        (key secret endpoint blob : Bytes) (d : Disk)
        → AreKept b d (write_creds_file os a key secret endpoint d).1
          × AreKept b d (write_abc_config_file os a blob d).1
          × AreKept b d (remove_creds_files os a d).1
    unfolding write_creds_file write_abc_config_file
    slot_files-AreApart key secret endpoint blob d = (
      AreKept-of_others d _ (λ p. elim (creds.others p) [ inl e ↦ inl e | inr e ↦ inr (inr e) ]),
      AreKept-of_others d _
          (λ p. elim (config.others p) [ inl e ↦ inr (inl e) | inr e ↦ inr (inr e) ]),
      AreKept-of_others d _ (remove_creds_files-IsRemoval a d).others,
    )
      where
        creds :
            IsWrite os
              (creds_path a)
              (creds_body os key secret endpoint)
              d
              (write_creds_file os a key secret endpoint d)
        creds = write_in-IsWrite os creds_dir a (creds_body os key secret endpoint) d

        config : IsWrite os (config_path a) blob d (write_abc_config_file os a blob d)
        config = write_in-IsWrite os config_dir a blob d
