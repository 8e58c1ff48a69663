-- ===== src/Cli/Actions.antt =====
-- The commands on the connection, main.rs: `run_login`, `run_status`, `run_logout` and
-- `run_model_test`. Each error of the actions is its message.
pub mod Progress
use rust_agent_harness.Prelude.{ℕ, Option, none, some, List, [], ◌∷◌, ◌++◌, Result, ok, err}
use rust_agent_harness.Text.{Text, text}
use rust_agent_harness.Cli.Run.{
  Streams, Output, Written, Completion, exit_success, exit_failure, OutputError, write_stdout,
  write_stderr, line,
}
use rust_agent_harness.Cli.Show.{write_model_text}

pub data CliLoginProgress : Type 0 where
  opening_browser : CliLoginProgress
  authorization_url : Text → CliLoginProgress
  browser_launch_failed : CliLoginProgress

unfoldable pub progress_line : CliLoginProgress → Text
progress_line opening_browser = line (text "Opening your browser to connect OpenAI Codex.")
progress_line (authorization_url url) = line (text "If it does not open, visit: " ++ url)
progress_line browser_launch_failed =
    line (text "The browser did not open; use the authorization URL above.")

abbrev pub output_error_of : Written → Option OutputError
output_error_of (ok t) = none
output_error_of (err e) = some e

-- The callback of `login`, with `output_error` as it was.
unfoldable pub on_progress :
    Streams → CliLoginProgress → Output × Option OutputError → Output × Option OutputError
unfolding progress_line
on_progress streams progress (out, some e) = (out, some e)
on_progress streams progress (out, none) =
    let (out', result) = write_stderr streams out (progress_line progress) in
    (out', output_error_of result)

-- The callback on each event that `login` reports.
unfoldable pub report :
    Streams → List CliLoginProgress → Output × Option OutputError → Output × Option OutputError
unfolding on_progress
report streams [] state = state
report streams (progress ∷ events) state =
    report streams events (on_progress streams progress state)

abbrev error_end : Streams → Output → Text → Output × Completion
error_end streams out message =
    let (out', result) = write_stderr streams out (line (text "error: " ++ message)) in
    (out', record { status = exit_failure; stdout = ok tt; stderr = result })

abbrev stdout_end : Streams → Output → Text → Output × Completion
stdout_end streams out t =
    let (out', result) = write_stdout streams out (line t) in
    (out', record { status = exit_success; stdout = result; stderr = ok tt })

abbrev account_name : Option Text → Text
account_name none = text "your account"
account_name (some email) = email

-- From the result of `login`, which is the email of the account, if it has one.
unfoldable pub end_login :
    Streams → Result Text (Option Text) → Output × Option OutputError → Output × Completion
end_login streams (ok email) (out, some e) =
    (out, record { status = exit_success; stdout = ok tt; stderr = err e })
end_login streams (err message) (out, some e) =
    (out, record { status = exit_failure; stdout = ok tt; stderr = err e })
end_login streams (ok email) (out, none) =
    stdout_end streams out (text "Connected to OpenAI Codex as " ++ account_name email ++ text ".")
end_login streams (err message) (out, none) = error_end streams out message

unfoldable pub run_login :
    Streams → Output → List CliLoginProgress → Result Text (Option Text) → Output × Completion
unfolding report end_login
run_login streams out events result = end_login streams result (report streams events (out, none))

unfoldable pub run_status : Streams → Output → Result Text (Unit {0}) → Output × Completion
run_status streams out (ok t) = stdout_end streams out (text "OpenAI Codex is connected.")
run_status streams out (err message) = error_end streams out message

unfoldable pub run_logout : Streams → Output → Result Text (Unit {0}) → Output × Completion
run_logout streams out (ok t) = stdout_end streams out (text "OpenAI Codex is disconnected.")
run_logout streams out (err message) = error_end streams out message

unfoldable pub run_model_test : Streams → Output → Result Text Text → Output × Completion
run_model_test streams out (ok t) = write_model_text streams out t
run_model_test streams out (err message) = error_end streams out message
