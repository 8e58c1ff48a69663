-- ===== src/Session/Crash/Started.antt =====
-- What a session's file holds after `start_file`, file.rs.
use rust_agent_harness.Prelude.{ℕ, ◌≤◌, ◌≡◌, Option, ◌++◌, ok, length}
use rust_agent_harness.Text.{Bytes, Text}
use rust_agent_harness.Session.Format.{Codec, header, user_entry, serialize_line, max_session_bytes}
use rust_agent_harness.Session.RoundTrip.{AreIds}
use rust_agent_harness.Session.Writer.{SessionWriter}

-- What a started session's file holds.
pub record IsSession (c : Codec) (w : SessionWriter) (prompt : Text) (created : ℕ) : Type 0 where
  pub user_timestamp : ℕ
  pub working_directory : Option Text
  pub harness_version : Text
  pub header_line : Bytes
  pub user_line : Bytes
  pub ids : AreIds w.session_id w.user_entry_id w.operation_id
  pub header_written :
      serialize_line c (header w.session_id created working_directory harness_version)
      ≡ ok header_line
  pub user_written :
      serialize_line c (user_entry w.user_entry_id user_timestamp w.operation_id prompt)
      ≡ ok user_line
  pub content : w.content ≡ header_line ++ user_line
  pub fits : length (header_line ++ user_line) ≤ max_session_bytes
