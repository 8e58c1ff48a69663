-- ===== src/Auth/RefreshLock.antt =====
-- The lock between processes, refresh_lock.rs: the private directory and the lock file, and the
-- loop of `acquire`. What the file system and the clock answer is given as a probe; times are
-- milliseconds.
pub mod Acquire
use Prim.Native.Nat.{bit_and}
use rust_agent_harness.Prelude.{
  ℕ, zero, suc, ◌-◌, ◌*◌, Bool, true, false, not, ◌&&◌, ◌||◌, Option, none, some, Result, ok, err,
  ◌>>=◌, ◌>>◌, refuse_if, map_err, leb, ◌==◌, if◌then◌else◌,
}
use rust_agent_harness.Session.Files.{Io, Metadata}
use rust_agent_harness.Auth.Errors.{LockError, lock_busy, lock_unavailable}

abbrev pub wait_timeout : ℕ
wait_timeout = 65 * 1000

abbrev pub poll_interval : ℕ
poll_interval = 50

abbrev pub unavailable {ℓ κ} : {E : Type ℓ} {A : Type κ} → Result E A → Result LockError A
unavailable = map_err (λ _. lock_unavailable)

-- The metadata found, and the results of creating the directory and of setting its permissions.
pub record DirectoryProbe : Type 0 where
  pub found : Io Metadata
  pub create : Io (Unit {0})
  pub set_permissions : Io (Unit {0})

unfoldable pub create_unless_found : Io Metadata → Io (Unit {0}) → Result LockError (Unit {0})
create_unless_found (ok m) create = refuse_if (m.is_symlink || not m.is_dir) lock_unavailable
create_unless_found (err _) create = unavailable create

unfoldable pub prepare_private_directory : DirectoryProbe → Result LockError (Unit {0})
unfolding create_unless_found
prepare_private_directory p = do create_unless_found p.found p.create; unavailable p.set_permissions

-- The metadata of the path before the file is opened, the result of opening it, the metadata of
-- the handle and of the path after that, and the result of setting its permissions.
pub record LockFileProbe : Type 0 where
  pub before : Io Metadata
  pub open_file : Io (Unit {0})
  pub handle : Io Metadata
  pub path : Io Metadata
  pub set_permissions : Io (Unit {0})

unfoldable pub refuse_other_file : Io Metadata → Result LockError (Unit {0})
refuse_other_file (ok m) =
    refuse_if (m.is_symlink || not m.is_file || not (m.len == 0)) lock_unavailable
refuse_other_file (err _) = ok tt

unfoldable pub open_lock_file : LockFileProbe → Result LockError (Unit {0})
unfolding refuse_other_file
open_lock_file p = do
  refuse_other_file p.before
  unavailable p.open_file
  file ← unavailable p.handle
  path ← unavailable p.path
  refuse_if
      (path.is_symlink
        || not file.is_file
        || not path.is_file
        || not (file.len == 0)
        || not (path.len == 0))
      lock_unavailable
  refuse_if (not (file.dev == path.dev) || not (file.ino == path.ino)) lock_unavailable
  unavailable p.set_permissions

pub data TryLock : Type 0 where
  locked would_block lock_error : TryLock

-- `try_lock` and the clock at each turn of the loop. `none`: out of fuel.
module _ (try_lock : ℕ → TryLock) (clock : ℕ → ℕ) (started : ℕ) where
  unfoldable pub poll : ℕ → ℕ → Option (Result LockError (Unit {0}))
  poll zero turn = none
  poll (suc fuel) turn = elim (try_lock turn) [
    | locked ↦ some (ok tt)
    | lock_error ↦ some (err lock_unavailable)
    | would_block ↦ elim (leb wait_timeout (clock turn - started)) [
      | true ↦ some (err lock_busy)
      | false ↦ poll fuel (suc turn)
    ]
  ]

pub record LockProbe : Type 0 where
  pub root : DirectoryProbe
  pub directory : DirectoryProbe
  pub file : LockFileProbe
  pub started : ℕ
  pub try_lock : ℕ → TryLock
  pub clock : ℕ → ℕ

abbrev pub opened : LockProbe → Result LockError (Unit {0})
opened p = do
  prepare_private_directory p.root
  prepare_private_directory p.directory
  open_lock_file p.file

-- `acquire`, with fuel for its loop.
unfoldable pub acquire : ℕ → LockProbe → Option (Result LockError (Unit {0}))
unfolding prepare_private_directory open_lock_file poll
acquire fuel p = elim (opened p) [
  | err e ↦ some (err e)
  | ok _ ↦ poll p.try_lock p.clock p.started fuel 0
]
