-- ===== src/Session/Rollback.antt =====
-- `SessionWriter::rollback`, file.rs: the file of a session is removed again.
use rust_agent_harness.Prelude.{not, Option, none, some, Result, ok, err, if◌then◌else◌}
use rust_agent_harness.Text.{Bytes}
use rust_agent_harness.Session.Errors.{RollbackError, rollback_store_unavailable}
use rust_agent_harness.Session.Files.{Io, Metadata, identity_matches}
use rust_agent_harness.Session.Writer.{SessionWriter}

-- What a rollback meets; the last is opening the directory and syncing it.
pub record RollbackProbe : Type 0 where
  pub handle : Io Metadata
  pub path : Io Metadata
  pub remove_file : Io (Unit {0})
  pub sync_directory : Io (Unit {0})

abbrev rolled_back :
    Bytes → Io (Unit {0}) → Io (Unit {0}) → Option Bytes × Result RollbackError (Unit {0})
rolled_back content (err e) sync = (some content, err rollback_store_unavailable)
rolled_back content (ok t) (err e) = (none, err rollback_store_unavailable)
rolled_back content (ok t) (ok u) = (none, ok tt)

-- What the file holds afterwards, `none` if it is gone, and the result.
unfoldable pub rollback :
    SessionWriter → RollbackProbe → Option Bytes × Result RollbackError (Unit {0})
rollback w p =
    if not (identity_matches p.handle p.path)
    then (some w.content, err rollback_store_unavailable)
    else rolled_back w.content p.remove_file p.sync_directory
