-- ===== src/Cli/Run.antt =====
-- Running a command, main.rs: `run_ask`, `complete` and what they call. The texts handed to the
-- two streams are state; what each write returns is decided by the environment.
pub mod Kept
use rust_agent_harness.Prelude.{
  ℕ, Bool, true, false, not, ◌&&◌, ◌||◌, Option, none, some, List, [], ◌∷◌, ◌++◌, Result, ok, err,
  length, if◌then◌else◌,
}
use rust_agent_harness.Text.{Bytes, Text, text}
use rust_agent_harness.Session.Format.{Codec, FailureCode}
use rust_agent_harness.Session.Errors.{
  CreateError, create_error_message, AppendError, append_error_message, RollbackError,
  rollback_error_message,
}
use rust_agent_harness.Session.Writer.{SessionWriter, AppendProbe, append_assistant, append_failure}
use rust_agent_harness.Session.Rollback.{RollbackProbe, rollback}
use rust_agent_harness.Model.{ModelError, model_error_message}
use rust_agent_harness.Cli.Command.{ask_usage}
use rust_agent_harness.Cli.Render.{render_model_text}

-- The kinds of `io::Error` that the output code tells apart.
pub data OutputError : Type 0 where
  broken_pipe other_output_error : OutputError

abbrev pub Written : Type 0
Written = Result OutputError (Unit {0})

pub data ExitCode : Type 0 where
  -- 0, 1 and 2
  exit_success exit_failure exit_usage : ExitCode

pub record Completion : Type 0 where
  pub status : ExitCode
  pub stdout : Written
  pub stderr : Written

-- The results of the writes to each stream, by their number.
pub record Streams : Type 0 where
  pub to_stdout : ℕ → Written
  pub to_stderr : ℕ → Written

-- The texts handed to each stream so far.
pub record Output : Type 0 where
  pub stdout : List Text
  pub stderr : List Text

unfoldable pub retain_first_error : Written → Written → Written
retain_first_error (ok t) next = next
retain_first_error (err e) next = err e

unfoldable pub is_output_failure : Written → Bool
is_output_failure (ok t) = false
is_output_failure (err broken_pipe) = false
is_output_failure (err other_output_error) = true

abbrev exit_of : ExitCode → Bool → ExitCode
exit_of exit_success true = exit_failure
exit_of status failed_output = status

unfoldable pub complete : Completion → ExitCode
unfolding is_output_failure
complete c = exit_of c.status (is_output_failure c.stdout || is_output_failure c.stderr)

abbrev pub line : Text → Text
line t = t ++ b'\n' ∷ []

abbrev pub write_stdout : Streams → Output → Text → Output × Written
write_stdout streams out t =
    (record out { stdout = out.stdout ++ t ∷ [] }, streams.to_stdout (length out.stdout))

abbrev pub write_stderr : Streams → Output → Text → Output × Written
write_stderr streams out t =
    (record out { stderr = out.stderr ++ t ∷ [] }, streams.to_stderr (length out.stderr))

-- `retain_first_error(&mut stderr_result, writeln!(stderr, …))`
unfoldable pub note : Streams → Text → Output × Written → Output × Written
note streams t (out, result) =
    let (out', next) = write_stderr streams out (line t) in (out', retain_first_error result next)

unfoldable pub note_when : Bool → Streams → Text → Output × Written → Output × Written
unfolding note
note_when true streams t state = note streams t state
note_when false streams t state = state

unfoldable pub note_append_error :
    Streams → Result AppendError (Unit {0}) → Output × Written → Output × Written
unfolding note
note_append_error streams (ok t) state = state
note_append_error streams (err e) state =
    note streams (text "error: " ++ append_error_message e) state

-- `none` is the unreachable arm.
unfoldable pub model_failure_code : ModelError → Option FailureCode
model_failure_code ModelError.invalid_prompt = none
model_failure_code ModelError.unsupported_platform = some FailureCode.unsupported_platform
model_failure_code ModelError.not_connected = some FailureCode.not_connected
model_failure_code ModelError.credential_store_unavailable =
    some FailureCode.credential_store_unavailable
model_failure_code ModelError.invalid_credential = some FailureCode.invalid_credential
model_failure_code ModelError.expired_credential = some FailureCode.expired_credential
model_failure_code ModelError.credential_refresh_busy = some FailureCode.credential_refresh_busy
model_failure_code ModelError.credential_refresh_unavailable =
    some FailureCode.credential_refresh_unavailable
model_failure_code ModelError.unavailable = some FailureCode.unavailable
model_failure_code ModelError.unexpected_provider_response =
    some FailureCode.unexpected_provider_response
model_failure_code ModelError.connection_rejected = some FailureCode.connection_rejected
model_failure_code ModelError.access_denied = some FailureCode.access_denied
model_failure_code ModelError.rate_limited = some FailureCode.rate_limited
model_failure_code ModelError.temporarily_unavailable = some FailureCode.temporarily_unavailable
model_failure_code ModelError.rejected = some FailureCode.rejected
model_failure_code ModelError.invalid_provider_response = some FailureCode.invalid_provider_response
model_failure_code ModelError.call_timed_out = some FailureCode.call_timed_out
model_failure_code ModelError.response_too_large = some FailureCode.response_too_large
model_failure_code ModelError.model_call_failed = some FailureCode.model_call_failed
model_failure_code ModelError.empty_response = some FailureCode.empty_response

-- What one `ask` meets: the start of its session, the answer of the model, and the end.
pub record AskProbe : Type 0 where
  pub start : Result CreateError SessionWriter
  pub answer : Result ModelError Text
  pub append : AppendProbe
  pub rollback_probe : RollbackProbe

-- How it ends; `content` is what the session's file holds.
pub record AskEnd : Type 0 where
  pub output : Output
  pub completion : Completion
  pub content : Option Bytes

-- `Completion::stderr` after one write to it.
abbrev end_stderr : Streams → Output → ExitCode → Text → Option Bytes → AskEnd
end_stderr streams out status t content =
    let (out', result) = write_stderr streams out (line t) in
    record {
      output = out';
      completion = record { status = status; stdout = ok tt; stderr = result };
      content = content;
    }

-- `print_prompt_error`
abbrev pub prompt_error : Text
prompt_error =
    text "error: prompt must contain non-whitespace text and be at most 32768 bytes\n\nUsage: "
    ++ ask_usage
    ++ text "\n\nFor more information, try '--help'."

abbrev pub append_status : Result AppendError (Unit {0}) → ExitCode
append_status (ok t) = exit_success
append_status (err e) = exit_failure

-- The model answered, and the answer was appended with this result.
unfoldable pub end_answered :
    Streams → Output → SessionWriter → Text → Bytes → Result AppendError (Unit {0}) → AskEnd
unfolding note_when note_append_error note
end_answered streams out w t content append =
    let (out', stdout_result) = write_stdout streams out (render_model_text t) in
    let (out'', stderr_result) = note streams (text "Session: " ++ w.session_id) (
      note_append_error streams append (
        note_when (is_output_failure stdout_result) streams
          (text "error: unable to write model output") (out', ok tt))) in
    record {
      output = out'';
      completion = record {
        status = append_status append;
        stdout = stdout_result;
        stderr = stderr_result;
      };
      content = some content;
    }

unfoldable pub end_rolled_back :
    Streams → Output → Option Bytes → Result RollbackError (Unit {0}) → AskEnd
end_rolled_back streams out content (ok t) = end_stderr streams out exit_usage prompt_error content
end_rolled_back streams out content (err e) =
    end_stderr streams out exit_failure (text "error: " ++ rollback_error_message e) content

unfoldable pub end_failed :
    Streams → Output → SessionWriter → ModelError → Bytes → Result AppendError (Unit {0}) → AskEnd
unfolding note_append_error note
end_failed streams out w error content append =
    let (out', stderr_result) = note streams (text "Session: " ++ w.session_id) (
      note_append_error streams append
        (write_stderr streams out (line (text "error: " ++ model_error_message error)))) in
    record {
      output = out';
      completion = record { status = exit_failure; stdout = ok tt; stderr = stderr_result };
      content = some content;
    }

module _ (c : Codec) (streams : Streams) (a : AskProbe) where
  -- An error of the model, by the code that it is kept under: an invalid prompt has none, and is
  -- rolled back.
  unfoldable pub end_error : Output → SessionWriter → ModelError → Option FailureCode → AskEnd
  unfolding end_rolled_back end_failed
  end_error out w error none =
      let (content, result) = rollback w a.rollback_probe in
      end_rolled_back streams out content result
  end_error out w error (some code) =
      let (content, append) = append_failure c w a.append code in
      end_failed streams out w error content append

  -- The arms of `match actions.model.ask_openai_codex(prompt)`.
  unfoldable pub finish_ask : Output → SessionWriter → Result ModelError Text → AskEnd
  unfolding end_answered end_error
  finish_ask out w (ok t) =
      let (content, append) = append_assistant c w a.append t in
      end_answered streams out w t content append
  finish_ask out w (err error) = end_error out w error (model_failure_code error)

  unfoldable pub run_ask : Output → AskEnd
  unfolding finish_ask
  run_ask out = elim a.start [
    | err e ↦ end_stderr streams out exit_failure (text "error: " ++ create_error_message e) none
    | ok w ↦ finish_ask out w a.answer
  ]
