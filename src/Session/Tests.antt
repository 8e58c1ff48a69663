-- ===== src/Session/Tests.antt =====
-- Sessions at concrete inputs.
pub mod Samples
pub mod Reading
use rust_agent_harness.Session.RoundTrip.{AreIds}
use rust_agent_harness.Session.Errors.{append_store_unavailable}
use rust_agent_harness.Session.Crash.{Survives, append_assistant-Survives, append_failure-Survives}
use rust_agent_harness.Session.Files.{Metadata, DirectoryProbe, identity_matches, already_exists}
use rust_agent_harness.Session.Writer.{
  SessionWriter, AppendProbe, Attempt, append_assistant, append_failure, append_built,
  terminal_record, next_id, append_record, append_terminal, append_line,
}
use rust_agent_harness.Session.Projection.{valid_id, hex_digit, assistant, failure}
use rust_agent_harness.Prelude.{
  ◌≡◌, refl, ◌≢◌, none, some, [], ◌∷◌, Option, true, false, ok, err, arith, List, if◌then◌else◌,
}
use rust_agent_harness.Text.{Bytes, Text, text, eq_text, len, eq_text_iff}
use rust_agent_harness.Text.Utf8.{Lacks, utf8, encode_char}
use rust_agent_harness.Session.Format.{
  LogRecord, Codec, IsJsonCodec, header, user_entry, assistant_entry, failure_entry, empty_response,
  serialize_line,
}
use mathlib.Core.Path.{subst}
use native.Mathlib.Decide.{ℕ_discrete}
use rust_agent_harness.Session.Tests.Samples.{
  LogRecord-discrete, session_id, user_id, operation_id, entry_id, first, second, answered, gave_up,
  letter_or, letter_of, record_of, toy, IsLetter, toy-IsJsonCodec, ids, first_written,
  second_written, writer, writer-IsSession, regular, directory,
}

-- The process stops when one byte of the line is written.
abbrev cut_short : AppendProbe
cut_short = record {
  sources_lock = true;
  entry_id = entry_id;
  timestamp = 7;
  handle = ok regular;
  path = ok regular;
  metadata = true;
  written = 1;
  sync = true;
}

append_cut_short :
    append_assistant toy writer cut_short (text "yes")
    ≡ (b'h' ∷ b'\n' ∷ b'u' ∷ b'\n' ∷ b'a' ∷ [], err append_store_unavailable)
unfolding assistant_entry header user_entry ℕ_discrete append_assistant append_built terminal_record
    next_id append_record append_terminal append_line serialize_line letter_of letter_or
    LogRecord-discrete valid_id hex_digit len utf8 encode_char text eq_text identity_matches
append_cut_short = refl

append_assistant-Survives_example :
    Survives toy toy-IsJsonCodec writer-IsSession
      (assistant (text "yes"))
      (append_assistant toy writer cut_short (text "yes"))
append_assistant-Survives_example =
    append_assistant-Survives toy toy-IsJsonCodec writer-IsSession cut_short (text "yes")

append_failure-Survives_example :
    Survives toy toy-IsJsonCodec writer-IsSession
      (failure empty_response)
      (append_failure toy writer cut_short empty_response)
append_failure-Survives_example =
    append_failure-Survives toy toy-IsJsonCodec writer-IsSession cut_short empty_response

abbrev usable : DirectoryProbe
usable = record {
  before = ok directory;
  create = ok tt;
  after = ok directory;
  set_permissions = ok tt;
}

abbrev attempt : Attempt
attempt = record {
  sources_lock = true;
  session_id = session_id;
  operation_id = operation_id;
  user_entry_id = user_id;
  created_at = 5;
  user_timestamp = 6;
  working_directory = none;
  harness_version = text "0.1.0";
  create = record {
    open_new = ok tt;
    set_permissions = ok tt;
    handle = ok regular;
    path = ok regular;
  };
  lock = true;
  write_header = true;
  write_user = true;
  sync = true;
  sync_directory = true;
}

-- A first identifier that is taken, and a second that is not.
abbrev attempts : List Attempt
attempts =
    record attempt {
      create = record {
        open_new = err already_exists;
        set_permissions = ok tt;
        handle = ok regular;
        path = ok regular;
      };
    }
    ∷ attempt
    ∷ []
