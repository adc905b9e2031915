-- ===== src/Files.antt =====
-- internal/authsvc/creds_files.go: the files that the workbench reads for a slot.
pub mod Laws
pub mod Apart
pub mod Replay
use abc_auth_svc.Base.{
  ℕ, ◌≡◌, ◌≢◌, Bool, true, false, Option, none, some, List, [], ◌∷◌, ◌++◌, if◌then◌else◌, take,
  Bytes, codes, String, Lacks, find, delete, Option-cases,
}

pub record File : Type 0 where
  pub mode : ℕ
  pub content : Bytes

-- The directories with their modes, and the regular files, by their paths.
pub record Disk : Type 0 where
  pub dirs : List (Bytes × ℕ)
  pub files : List (Bytes × File)

-- How a write of a file ends: done, refused when the file is opened, or broken off after so many
-- bytes.
pub data WriteEnd : Type 0 where
  written refused : WriteEnd
  broken_off : ℕ → WriteEnd

-- One component of a path: what filepath.Clean leaves alone.
pub record IsComponent (name : Bytes) : Type 0 where
  pub plain : Lacks b'/' name
  pub full : name ≢ []
  pub not_here : name ≢ b'.' ∷ []
  pub not_parent : name ≢ b'.' ∷ b'.' ∷ []

-- The operating system, whose answers may depend on the disk, and path/filepath.
pub record Os : Type 0 where
  pub makes : Bytes → Disk → Bool
  pub chmods : Bytes → Disk → Bool
  pub write_end : Bytes → Disk → WriteEnd
  pub removes : Bytes → Disk → Bool
  pub join : Bytes → Bytes → Bytes
  pub join-component : (dir name : Bytes) → IsComponent name → join dir name ≡ dir ++ b'/' ∷ name

-- An error, by the path that it is about.
abbrev pub Failure : Type 0
Failure = Option Bytes

abbrev pub creds_dir : Bytes
creds_dir = codes "/etc/jupyterhub/minio-creds"

abbrev pub config_dir : Bytes
config_dir = codes "/etc/jupyterhub/abc-configs"

-- 0o700 and 0o600
abbrev pub dir_mode : ℕ
dir_mode = 448

abbrev pub file_mode : ℕ
file_mode = 384

module _ (os : Os) where
  -- os.MkdirAll: a directory that is there keeps its mode.
  unfoldable pub mkdir_all : Bytes → ℕ → Disk → Failure × Disk
  mkdir_all dir mode d = elim (find dir d.dirs) [
    | some old ↦ (none, d)
    | none ↦
        if os.makes dir d then (none, record d { dirs = (dir, mode) ∷ d.dirs }) else (some dir, d)
  ]

  -- os.Chmod of a directory, with its error dropped.
  unfoldable pub chmod : Bytes → ℕ → Disk → Disk
  chmod dir mode d =
      if os.chmods dir d then record d { dirs = (dir, mode) ∷ delete dir d.dirs } else d

  -- The mode of a new file; a file that is there keeps its own.
  unfoldable pub mode_for : Bytes → ℕ → Disk → ℕ
  mode_for path mode d = elim (find path d.files) [ some old ↦ old.mode | none ↦ mode ]

  unfoldable pub put_file : Bytes → Bytes → ℕ → Disk → Disk
  unfolding mode_for
  put_file path content mode d = record d {
    files = (path, record { mode = mode_for path mode d; content = content }) ∷ delete path d.files;
  }

  -- os.WriteFile: it truncates the file before it writes.
  unfoldable pub write_file : Bytes → Bytes → ℕ → Disk → Failure × Disk
  unfolding put_file
  write_file path content mode d = elim (os.write_end path d) [
    | written ↦ (none, put_file path content mode d)
    | refused ↦ (some path, d)
    | broken_off n ↦ (some path, put_file path (take n content) mode d)
  ]

  -- What writeCredsFile and writeABCConfigFile share.
  unfoldable pub write_in : Bytes → Bytes → Bytes → Disk → Failure × Disk
  unfolding mkdir_all chmod write_file
  write_in dir name content d =
      let (failure, d') = mkdir_all dir dir_mode d in
      elim failure [
        | some path ↦ (some path, d')
        | none ↦ write_file (os.join dir name) content file_mode (chmod dir dir_mode d')
      ]

  unfoldable pub creds_body : Bytes → Bytes → Bytes → Bytes
  creds_body access_key secret_key endpoint =
      codes "AWS_ACCESS_KEY_ID="
      ++ access_key
      ++ 10 ∷ codes "AWS_SECRET_ACCESS_KEY="
      ++ secret_key
      ++ 10 ∷ codes "S3_ENDPOINT_URL="
      ++ endpoint
      ++ 10 ∷ []

  -- writeCredsFile
  unfoldable pub write_creds_file : Bytes → Bytes → Bytes → Bytes → Disk → Failure × Disk
  unfolding write_in creds_body
  write_creds_file name access_key secret_key endpoint d =
      write_in creds_dir name (creds_body access_key secret_key endpoint) d

  -- writeABCConfigFile
  unfoldable pub write_abc_config_file : Bytes → Bytes → Disk → Failure × Disk
  unfolding write_in
  write_abc_config_file name blob d = write_in config_dir name blob d

  -- os.Remove, for which a missing file is no error here.
  unfoldable pub remove : Bytes → Disk → Failure × Disk
  remove path d = elim (find path d.files) [
    | none ↦ (none, d)
    | some file ↦
        if os.removes path d
        then (none, record d { files = delete path d.files })
        else (some path, d)
  ]

  unfoldable pub first_failure : Failure → Failure → Failure
  first_failure none later = later
  first_failure (some path) later = some path

  -- removeCredsFiles: both files are tried, and the first error is returned.
  unfoldable pub remove_creds_files : Bytes → Disk → Failure × Disk
  unfolding remove first_failure
  remove_creds_files name d =
      let (first, d') = remove (os.join creds_dir name) d in
      let (second, d'') = remove (os.join config_dir name) d' in (first_failure first second, d'')
