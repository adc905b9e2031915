-- ===== src/Files/Laws.antt =====
-- What a write and a removal do to every file.
use abc_auth_svc.Base.{
  ℕ, ◌≡◌, ◌≢◌, ◌∙◌, refl, ap, sym, ◌⊎◌, inl, inr, none, some, arith, if◌then◌else◌, Bool-cases,
  Option-cases, take, Bytes, ◌==◌, eq_of_==, ==_refl, find, find-delete,
}
use abc_auth_svc.Files.{
  Disk, Os, WriteEnd, written, refused, broken_off, Failure, dir_mode, file_mode, mkdir_all, chmod,
  mode_for, put_file, write_file, write_in,
}

module _ (os : Os) where
  put_file-eq :
      (p path content : Bytes) (mode : ℕ) (d : Disk)
      → find p (put_file os path content mode d).files ≡ (
          if path == p
          then some (record { mode = mode_for os path mode d; content = content })
          else find p d.files)
  unfolding put_file find
  put_file-eq p path content mode d = ground (arith, find-delete p path d.files)

  mkdir_all-files :
      (dir : Bytes) (mode : ℕ) (d : Disk) → (mkdir_all os dir mode d).1.files ≡ d.files
  unfolding mkdir_all
  mkdir_all-files dir mode d = ground arith

  chmod-files : (dir : Bytes) (mode : ℕ) (d : Disk) → (chmod os dir mode d).files ≡ d.files
  unfolding chmod
  chmod-files dir mode d = ground arith

  -- The file has the mode that it had, or the given one if it is new, and the content.
  abbrev pub Holds : Bytes → Bytes → Disk → Disk → Type 0
  Holds path content before after =
      find path after.files
      ≡ some (record { mode = mode_for os path file_mode before; content = content })

  -- A write succeeds with all of the content, or fails with the old file or a part of the content;
  -- no other file changes.
  pub record IsWrite (path content : Bytes) (d : Disk) (o : Failure × Disk) : Type 0 where
    pub outcome :
        ((o.0 ≡ none) × Holds path content d o.1)
        ⊎ ((o.0 ≢ none)
            × ((find path o.1.files ≡ find path d.files)
                ⊎ ((n : ℕ) × Holds path (take n content) d o.1)))
    pub others : (p : Bytes) → (p ≡ path) ⊎ (find p o.1.files ≡ find p d.files)

  put_file-Holds :
      (path content : Bytes) (d : Disk)
      → Holds path content d (put_file os path content file_mode d)
  put_file-Holds path content d = put_file-eq path path content file_mode d ∙ rw (==_refl path) refl

  put_file-others :
      (path content : Bytes) (d : Disk) (p : Bytes)
      → (p ≡ path) ⊎ (find p (put_file os path content file_mode d).files ≡ find p d.files)
  put_file-others path content d p = elim (Bool-cases (path == p)) [
    | inl e ↦ inl (sym (eq_of_== path p e))
    | inr e ↦ inr (put_file-eq p path content file_mode d ∙ rw e refl)
  ]

  write_file-IsWrite :
      (path content : Bytes) (d : Disk)
      → IsWrite path content d (write_file os path content file_mode d)
  unfolding write_file
  write_file-IsWrite path content d = ends (os.write_end path d) refl
    where
      ends :
          (e : WriteEnd)
          → os.write_end path d ≡ e
          → IsWrite path content d (write_file os path content file_mode d)
      ends written e =
          rw (e, write_file)
            (record {
              outcome = inl (refl, put_file-Holds path content d);
              others = put_file-others path content d;
            })
      ends refused e =
          rw (e, write_file) (record { outcome = inr (λ h. cc, inl refl); others = λ p. inr refl })
      ends (broken_off n) e =
          rw (e, write_file)
            (record {
              outcome = inr (λ h. cc, inr (n, put_file-Holds path (take n content) d));
              others = put_file-others path (take n content) d;
            })

  -- Making the directory first changes no file.
  IsWrite-before :
      {path content : Bytes} {d d' : Disk} {o : Failure × Disk}
      → d'.files ≡ d.files
      → IsWrite path content d' o
      → IsWrite path content d o
  unfolding mode_for
  IsWrite-before {path} {content} {d} {d'} {o} same h = record {
    outcome = rw same at (h.outcome);
    others = λ p. rw same at (h.others p);
  }

  pub write_in-IsWrite :
      (dir name content : Bytes) (d : Disk)
      → IsWrite (os.join dir name) content d (write_in os dir name content d)
  unfolding write_in
  write_in-IsWrite dir name content d =
      let unmade = mkdir_all-files dir dir_mode d in
      elim (Option-cases (mkdir_all os dir dir_mode d).0) [
        | inl made ↦
            rw (write_in, made)
              (IsWrite-before (chmod-files dir dir_mode _ ∙ unmade)
                (write_file-IsWrite (os.join dir name) content _))
        | inr (path, failed) ↦
            rw (write_in, failed)
              (record {
                outcome = inr (λ h. cc, inl (ap (find (os.join dir name)) unmade));
                others = λ p. inr (ap (find p) unmade);
              })
      ]
