-- ===== src/Cli/Application.antt =====
-- The program as a whole, main.rs: `run_application`, `print_prompt_error`, `print_usage_error`
-- and `map_login_progress`. What the actions answer is a record; of the standard library,
-- `to_string_lossy` and `escape_debug` are parameters.
pub mod Usage
use rust_agent_harness.Prelude.{
  ℕ, Option, List, [], ◌∷◌, ◌++◌, Result, ok, map, map_err, take, length, ltb, if◌then◌else◌,
  map_ok,
}
use rust_agent_harness.Text.{Text, text}
use rust_agent_harness.Session.Format.{Codec}
use rust_agent_harness.Session.Projection.{ShowResult}
use rust_agent_harness.Session.Errors.{ShowError, ListError, SessionSummary}
use rust_agent_harness.Model.{ModelError, model_error_message}
use rust_agent_harness.Auth.Errors.{
  LoginError, login_error_message, LogoutError, logout_error_message, CredentialReadError,
  credential_read_error_message,
}
use rust_agent_harness.Auth.Login.{LoginProgress, ConnectedAccount}
use rust_agent_harness.Cli.Help.{
  help, auth_help, logout_help, status_help, login_help, model_help, model_test_help, ask_help,
  session_help, session_list_help, session_show_help,
}
use rust_agent_harness.Cli.Command.{Command, OsString, parse_command}
use rust_agent_harness.Cli.Run.{
  Streams, Output, Completion, exit_success, exit_usage, AskProbe, run_ask, write_stdout,
  write_stderr, line, prompt_error,
}
use rust_agent_harness.Cli.Show.{run_session_show, run_session_list}
use rust_agent_harness.Cli.Actions.{
  CliLoginProgress, run_login, run_logout, run_status, run_model_test,
}

abbrev pub max_diagnostic_argument_chars : ℕ
max_diagnostic_argument_chars = 256

-- What the actions answer, and what the program takes from its build and the standard library.
pub record Actions : Type 0 where
  pub login_events : List LoginProgress
  pub login : Result LoginError ConnectedAccount
  pub logout : Result LogoutError (Unit {0})
  pub status : Result CredentialReadError (Unit {0})
  pub test : Result ModelError Text
  pub asked : Text → AskProbe
  pub list : Result ListError (List SessionSummary)
  pub shown_session : Text → Result ShowError ShowResult
  pub package_version : Text
  pub to_string_lossy : OsString → Text
  pub escape_debug : Text → Text

unfoldable pub map_login_progress : LoginProgress → CliLoginProgress
map_login_progress LoginProgress.opening_browser = CliLoginProgress.opening_browser
map_login_progress (LoginProgress.authorization_url url) = CliLoginProgress.authorization_url url
map_login_progress LoginProgress.browser_launch_failed = CliLoginProgress.browser_launch_failed

module _ (actions : Actions) where
  -- An argument as a diagnostic shows it: cut after so many characters, and escaped.
  unfoldable pub format_argument : OsString → Text
  format_argument argument =
      let shown = actions.to_string_lossy argument in
      let prefix = actions.escape_debug (take max_diagnostic_argument_chars shown) in
      if ltb max_diagnostic_argument_chars (length shown) then prefix ++ 0x2026 ∷ [] else prefix

  unfoldable pub usage_error_text : OsString → Text → Text
  unfolding format_argument
  usage_error_text argument usage =
      text "error: unexpected argument '"
      ++ format_argument argument
      ++ text "'\n\nUsage: "
      ++ usage
      ++ text "\n\nFor more information, try '--help'."

  module _ (codec : Codec) (streams : Streams) (out : Output) where
    -- `Completion::stdout(ExitCode::SUCCESS, write!(stdout, …))`
    abbrev pub print : Text → Output × Completion
    print t =
        let (out', result) = write_stdout streams out t in
        (out', record { status = exit_success; stdout = result; stderr = ok tt })

    -- `Completion::stderr(ExitCode::from(2), …)`
    abbrev pub refuse : Text → Output × Completion
    refuse t =
        let (out', result) = write_stderr streams out (line t) in
        (out', record { status = exit_usage; stdout = ok tt; stderr = result })

    abbrev email_of : ConnectedAccount → Option Text
    email_of account = account.email

    -- The arms of `match parse_command(arguments)`.
    unfoldable pub run_command : Command → Output × Completion
    unfolding map_login_progress usage_error_text
    run_command Command.root_help = print help
    run_command Command.version = print (line (text "harness " ++ actions.package_version))
    run_command Command.ask_help = print ask_help
    run_command (Command.ask_open_ai_codex prompt) =
        let end = run_ask codec streams (actions.asked prompt) out in (end.output, end.completion)
    run_command Command.invalid_prompt_command = refuse prompt_error
    run_command Command.session_help = print session_help
    run_command Command.session_list_help = print session_list_help
    run_command Command.session_list = run_session_list streams out actions.list
    run_command Command.session_show_help = print session_show_help
    run_command (Command.session_show session_id) =
        run_session_show streams out (actions.shown_session session_id)
    run_command Command.auth_help = print auth_help
    run_command Command.login_help = print login_help
    run_command Command.login_open_ai_codex =
        run_login streams out (map map_login_progress actions.login_events)
          (map_err login_error_message (map_ok email_of actions.login))
    run_command Command.logout_help = print logout_help
    run_command Command.logout_open_ai_codex =
        run_logout streams out (map_err logout_error_message actions.logout)
    run_command Command.status_help = print status_help
    run_command Command.status_open_ai_codex =
        run_status streams out (map_err credential_read_error_message actions.status)
    run_command Command.model_help = print model_help
    run_command Command.model_test_help = print model_test_help
    run_command Command.model_test_open_ai_codex =
        run_model_test streams out (map_err model_error_message actions.test)
    run_command (Command.usage_error argument usage) = refuse (usage_error_text argument usage)

    unfoldable pub run_application : List OsString → Output × Completion
    unfolding run_command
    run_application arguments = run_command (parse_command arguments)
