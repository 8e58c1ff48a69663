-- ===== src/Cli/Show.antt =====
-- Showing and listing sessions, main.rs: `render_session`, `render_session_list`,
-- `run_session_show` and `run_session_list`; and `write_model_text`.
pub mod Safe
use rust_agent_harness.Prelude.{
  ℕ, zero, suc, ◌+◌, ◌/◌, ◌%◌, ◌==◌, Bool, true, false, Option, none, some, List, [], ◌∷◌, ◌++◌,
  Result, ok, err, is_empty, if◌then◌else◌,
}
use rust_agent_harness.Text.{Text, text}
use rust_agent_harness.Session.Format.{diagnostic}
use rust_agent_harness.Session.Projection.{
  ShowResult, SessionStatus, completed_session, failed_session, interrupted_session,
  ProjectedTerminal, assistant, failure,
}
use rust_agent_harness.Session.Errors.{
  ShowError, show_error_message, ListError, list_error_message, SessionSummary, ListedSessionStatus,
  listed_completed, listed_failed, listed_interrupted, listed_busy, listed_corrupt,
  listed_unsupported, listed_unavailable, trailing_fragment_warning,
}
use rust_agent_harness.Cli.Render.{render_model_text}
use rust_agent_harness.Cli.Run.{
  Streams, Output, Written, Completion, exit_success, exit_failure, OutputError, broken_pipe,
  other_output_error, is_output_failure, note, note_when, write_stdout, write_stderr, line,
}

unfoldable pub status_text : SessionStatus → Text
status_text completed_session = text "completed"
status_text failed_session = text "failed"
status_text interrupted_session = text "interrupted"

unfoldable pub terminal_text : Option ProjectedTerminal → Text
terminal_text none = []
terminal_text (some (assistant answer)) = text "\nAssistant:\n" ++ render_model_text answer
terminal_text (some (failure code)) = text "\nFailure: " ++ render_model_text (diagnostic code)

unfoldable pub render_session : ShowResult → Text
unfolding status_text terminal_text
render_session shown =
    text "Session: "
    ++ shown.projection.session_id
    ++ text "\nStatus: "
    ++ status_text shown.projection.status
    ++ text "\nProvider: openai-codex\n\nUser:\n"
    ++ render_model_text shown.projection.prompt
    ++ terminal_text shown.projection.terminal

-- The digits of a number in front of `out`; a `u64` has twenty at most.
unfoldable pub decimal_onto : ℕ → ℕ → Text → Text
decimal_onto zero n out = out
decimal_onto (suc fuel) n out =
    let digit = b'0' + n % 10 in
    let more = decimal_onto fuel (n / 10) (digit ∷ out) in if n / 10 == 0 then digit ∷ out else more

-- `u64::to_string`
unfoldable pub decimal : ℕ → Text
unfolding decimal_onto
decimal n = decimal_onto 20 n []

unfoldable pub created_text : Option ℕ → Text
unfolding decimal
created_text none = text "-"
created_text (some time) = decimal time

unfoldable pub listed_status_text : ListedSessionStatus → Text
listed_status_text listed_completed = text "completed"
listed_status_text listed_failed = text "failed"
listed_status_text listed_interrupted = text "interrupted"
listed_status_text listed_busy = text "busy"
listed_status_text listed_corrupt = text "corrupt"
listed_status_text listed_unsupported = text "unsupported"
listed_status_text listed_unavailable = text "unavailable"

abbrev pub entry_line : SessionSummary → Text
entry_line entry =
    entry.session_id
    ++ b'\t'
      ∷ (created_text entry.created_at_unix_ms
          ++ b'\t' ∷ (listed_status_text entry.status ++ b'\n' ∷ []))

unfoldable pub entry_lines : List SessionSummary → Text
entry_lines [] = []
entry_lines (entry ∷ entries) = entry_line entry ++ entry_lines entries

unfoldable pub render_session_list : List SessionSummary → Text
unfolding entry_lines
render_session_list entries =
    if is_empty entries
    then text "No retained sessions.\n"
    else text "SESSION\tCREATED_UNIX_MS\tSTATUS\n" ++ entry_lines entries

abbrev error_end : Streams → Output → Text → Output × Completion
error_end streams out message =
    let (out', result) = write_stderr streams out (line (text "error: " ++ message)) in
    (out', record { status = exit_failure; stdout = ok tt; stderr = result })

abbrev streams_end : Written → Output × Written → Output × Completion
streams_end stdout_result (out, stderr_result) =
    (out, record { status = exit_success; stdout = stdout_result; stderr = stderr_result })

-- `run_session_show`, from what `show` returns.
unfoldable pub run_session_show :
    Streams → Output → Result ShowError ShowResult → Output × Completion
unfolding note_when
run_session_show streams out (err e) = error_end streams out (show_error_message e)
run_session_show streams out (ok shown) =
    let (out', stdout_result) = write_stdout streams out (render_session shown) in
    streams_end stdout_result (
      note_when (is_output_failure stdout_result) streams
        (text "error: unable to write session output")
        (note_when shown.trailing_fragment streams (text "warning: " ++ trailing_fragment_warning)
          (out', ok tt)))

-- `for entry in listed.entries().iter().filter(…)`
unfoldable pub warn_fragments : Streams → List SessionSummary → Output × Written → Output × Written
unfolding note_when
warn_fragments streams [] state = state
warn_fragments streams (entry ∷ entries) state = warn_fragments streams entries (
    note_when entry.trailing_fragment streams
      (text "warning: session " ++ entry.session_id ++ text ": " ++ trailing_fragment_warning)
      state)

-- `run_session_list`, from what `list` returns.
unfoldable pub run_session_list :
    Streams → Output → Result ListError (List SessionSummary) → Output × Completion
unfolding note_when warn_fragments
run_session_list streams out (err e) = error_end streams out (list_error_message e)
run_session_list streams out (ok entries) =
    let (out', stdout_result) = write_stdout streams out (render_session_list entries) in
    streams_end stdout_result (
      note_when (is_output_failure stdout_result) streams
        (text "error: unable to write session list") (warn_fragments streams entries (out', ok tt)))

abbrev model_text_end : Streams → Output × Written → Output × Completion
model_text_end streams (out, ok t) =
    (out, record { status = exit_success; stdout = ok tt; stderr = ok tt })
model_text_end streams (out, err broken_pipe) =
    (out, record { status = exit_success; stdout = err broken_pipe; stderr = ok tt })
model_text_end streams (out, err other_output_error) =
    let (out', result) =
      write_stderr streams out (line (text "error: unable to write model output")) in
    (out', record { status = exit_failure; stdout = err other_output_error; stderr = result })

unfoldable pub write_model_text : Streams → Output → Text → Output × Completion
write_model_text streams out t =
    model_text_end streams (write_stdout streams out (render_model_text t))
