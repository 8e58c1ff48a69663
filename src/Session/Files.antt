-- ===== src/Session/Files.antt =====
-- What the program asks of the file system about a session file and its directories, file.rs.
use Prim.Native.Nat.{bit_and}
use rust_agent_harness.Prelude.{
  ℕ, Bool, true, false, not, ◌&&◌, ◌||◌, Result, ok, err, ◌>>=◌, ◌>>◌, refuse_if, map_err, ◌==◌,
  if◌then◌else◌,
}
use rust_agent_harness.Session.Errors.{
  ShowError, missing, show_store_unavailable, ListError, list_store_unavailable,
}

-- The kinds of `io::Error` that the code tells apart.
pub data IoError : Type 0 where
  not_found already_exists other_error : IoError

abbrev pub Io : Type 0 → Type 0
Io A = Result IoError A

pub record Metadata : Type 0 where
  pub is_symlink : Bool
  pub is_file : Bool
  pub is_dir : Bool
  pub len : ℕ
  pub mode : ℕ
  pub dev : ℕ
  pub ino : ℕ
  pub nlink : ℕ

abbrev pub is_ok {ℓ κ} : {E : Type ℓ} {A : Type κ} → Result E A → Bool
is_ok (ok a) = true
is_ok (err e) = false

abbrev is_open_to_others : Metadata → Bool
is_open_to_others m = not (bit_and m.mode 0o077 == 0)

-- `map_open_error`
unfoldable pub map_open_error : IoError → ShowError
map_open_error not_found = missing
map_open_error already_exists = show_store_unavailable
map_open_error other_error = show_store_unavailable

-- `identity_matches`, from the metadata of the handle and of the path.
unfoldable pub identity_matches : Io Metadata → Io Metadata → Bool
identity_matches (err e) path = false
identity_matches (ok handle) (err e) = false
identity_matches (ok handle) (ok path) =
    if path.is_symlink || not path.is_file || not handle.is_file
    then false
    else (handle.dev == path.dev && handle.ino == path.ino && handle.nlink == 1 && path.nlink == 1)

-- `private_file_permissions`
unfoldable pub private_file_permissions : Io Metadata → Bool
private_file_permissions (err e) = false
private_file_permissions (ok m) = not (is_open_to_others m)

-- `validate_private_directory`, from the metadata of the path.
unfoldable pub validate_private_directory : Io Metadata → Result ShowError (Unit {0})
unfolding map_open_error
validate_private_directory found = do
  m ← map_err map_open_error found
  refuse_if (m.is_symlink || not m.is_dir) show_store_unavailable
  refuse_if (is_open_to_others m) show_store_unavailable
  ok tt

-- `list_directory_exists`
unfoldable pub list_directory_exists : Io Metadata → Result ListError Bool
unfolding validate_private_directory
list_directory_exists found = elim (validate_private_directory found) [
  | ok _ ↦ ok true
  | err missing ↦ ok false
  | err _ ↦ err list_store_unavailable
]

-- What `ensure_private_directory` meets: the metadata before and after, and the results of
-- creating the directory and of setting its permissions.
pub record DirectoryProbe : Type 0 where
  pub before : Io Metadata
  pub create : Io (Unit {0})
  pub after : Io Metadata
  pub set_permissions : Io (Unit {0})

unfoldable pub create_missing : Io Metadata → Io (Unit {0}) → Io (Unit {0})
create_missing (ok m) create = refuse_if (m.is_symlink || not m.is_dir) other_error
create_missing (err not_found) create = create
create_missing (err e) create = err e

unfoldable pub ensure_private_directory : DirectoryProbe → Io (Unit {0})
unfolding create_missing
ensure_private_directory p = do
  create_missing p.before p.create
  m ← p.after
  refuse_if (m.is_symlink || not m.is_dir) other_error
  p.set_permissions

-- What `create_private_file` meets: opening a new file, setting its permissions, and the metadata
-- of the handle and of the path after that.
pub record CreateProbe : Type 0 where
  pub open_new : Io (Unit {0})
  pub set_permissions : Io (Unit {0})
  pub handle : Io Metadata
  pub path : Io Metadata

unfoldable pub create_private_file : CreateProbe → Io (Unit {0})
unfolding identity_matches private_file_permissions
create_private_file p = do
  p.open_new
  refuse_if
      (not (is_ok p.set_permissions)
        || not (identity_matches p.handle p.path)
        || not (private_file_permissions p.handle))
      other_error
