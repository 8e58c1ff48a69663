-- ===== src/Session/Errors.antt =====
-- The errors and the list entries of lib.rs.
use rust_agent_harness.Prelude.{ℕ, Bool, false, Option, none, some}
use rust_agent_harness.Text.{Text, text}
use rust_agent_harness.Session.Projection.{
  ShowResult, SessionStatus, completed_session, failed_session, interrupted_session,
}

abbrev pub trailing_fragment_warning : Text
trailing_fragment_warning = text "ignored incomplete trailing session data"

pub data CreateError : Type 0 where
  create_store_unavailable : CreateError

pub data AppendError : Type 0 where
  append_store_unavailable : AppendError

pub data RollbackError : Type 0 where
  rollback_store_unavailable : RollbackError

pub data ShowError : Type 0 where
  invalid_session_id missing busy unsupported_format corrupt_data show_store_unavailable : ShowError

pub data ListError : Type 0 where
  list_store_unavailable inventory_too_large : ListError

unfoldable pub show_error_message : ShowError → Text
show_error_message invalid_session_id = text "the session identifier is invalid"
show_error_message missing = text "the session was not found"
show_error_message busy = text "the session is still being written; try again"
show_error_message unsupported_format = text "the session format version is not supported"
show_error_message corrupt_data = text "the session data is corrupt"
show_error_message show_store_unavailable = text "the local session store is unavailable"

unfoldable pub list_error_message : ListError → Text
list_error_message list_store_unavailable = text "unable to list local sessions"
list_error_message inventory_too_large =
    text
      "local session inventory exceeds the supported list bound; remove old session files from the directory shown by 'harness session --help'"

unfoldable pub create_error_message : CreateError → Text
create_error_message create_store_unavailable = text "unable to create the local session"

unfoldable pub append_error_message : AppendError → Text
append_error_message append_store_unavailable = text "unable to persist the local session result"

unfoldable pub rollback_error_message : RollbackError → Text
rollback_error_message rollback_store_unavailable =
    text "unable to roll back the invalid local session"

pub data ListedSessionStatus : Type 0 where
  listed_completed listed_failed listed_interrupted listed_busy : ListedSessionStatus
  listed_corrupt listed_unsupported listed_unavailable : ListedSessionStatus

pub record SessionSummary : Type 0 where
  pub session_id : Text
  pub created_at_unix_ms : Option ℕ
  pub status : ListedSessionStatus
  pub trailing_fragment : Bool

unfoldable pub unprojectable : Text → ListedSessionStatus → SessionSummary
unprojectable id status = record {
  session_id = id;
  created_at_unix_ms = none;
  status = status;
  trailing_fragment = false;
}

abbrev listed_status : SessionStatus → ListedSessionStatus
listed_status completed_session = listed_completed
listed_status failed_session = listed_failed
listed_status interrupted_session = listed_interrupted

unfoldable pub into_summary : ShowResult → SessionSummary
into_summary shown = record {
  session_id = shown.projection.session_id;
  created_at_unix_ms = some shown.projection.created_at_unix_ms;
  status = listed_status shown.projection.status;
  trailing_fragment = shown.trailing_fragment;
}
