-- ===== src/Cli/Application/Usage.antt =====
-- Runs of the program, main.rs, that end with the exit code of a usage error.
use rust_agent_harness.Auth.Errors.{
  login_error_message, logout_error_message, credential_read_error_message,
}
use rust_agent_harness.Session.Projection.{ShowResult}
use rust_agent_harness.Session.Errors.{
  RollbackError, AppendError, ListError, ShowError, SessionSummary,
}
use mathlib.Core.Path.{subst}
use rust_agent_harness.Prelude.{
  ◌≡◌, refl, List, [], ◌∷◌, ◌++◌, Result, ok, err, Option, none, some, Result-cases, inl, inr,
  length, map, map_err, map_ok,
}
use rust_agent_harness.Text.{Text, Bytes}
use rust_agent_harness.Session.Format.{Codec, FailureCode}
use rust_agent_harness.Model.{ModelError, model_error_message}
use rust_agent_harness.Session.Writer.{SessionWriter, append_assistant}
use rust_agent_harness.Session.Rollback.{rollback}
use rust_agent_harness.Cli.Command.{Command, OsString, parse_command}
use rust_agent_harness.Cli.Show.{run_session_show, run_session_list, write_model_text}
use rust_agent_harness.Cli.Actions.{
  run_login, run_logout, run_status, run_model_test, end_login, report, CliLoginProgress,
}
use rust_agent_harness.Cli.Run.{
  Streams, Output, Completion, ExitCode, exit_usage, AskProbe, run_ask, finish_ask, end_answered,
  end_error, end_rolled_back, end_failed, model_failure_code, OutputError, broken_pipe,
  other_output_error, AskEnd,
}
use rust_agent_harness.Cli.Application.{Actions, run_command, run_application, map_login_progress}

-- One text more on the standard error, none on the standard output, and no failure of the latter.
abbrev pub Refuses : Output → Output × Completion → Type 0
Refuses out (out', c) =
    (t : Text) × (out'.stdout ≡ out.stdout)
    × (out'.stderr ≡ out.stderr ++ t ∷ [])
    × (c.stdout ≡ ok tt)

abbrev RefusesAt : ExitCode → Output → Output × Completion → Type 0
RefusesAt exit_usage out outcome = Refuses out outcome
RefusesAt _ out outcome = Unit

abbrev RefusesIfUsage : Output → Output × Completion → Type 0
RefusesIfUsage out outcome = RefusesAt outcome.1.status out outcome

module _ (streams : Streams) (out : Output) where
  run_logout-usage : (r : Result Text (Unit {0})) → RefusesIfUsage out (run_logout streams out r)
  unfolding run_logout
  run_logout-usage (ok t) = tt
  run_logout-usage (err e) = tt

  run_status-usage : (r : Result Text (Unit {0})) → RefusesIfUsage out (run_status streams out r)
  unfolding run_status
  run_status-usage (ok t) = tt
  run_status-usage (err e) = tt

  write_model_text-usage : (t : Text) → RefusesIfUsage out (write_model_text streams out t)
  unfolding write_model_text
  write_model_text-usage t = elim (Result-cases (streams.to_stdout (length out.stdout))) [
    | inl (done, h) ↦ rw h tt
    | inr (broken_pipe, h) ↦ rw h tt
    | inr (other_output_error, h) ↦ rw h tt
  ]

  run_model_test-usage : (r : Result Text Text) → RefusesIfUsage out (run_model_test streams out r)
  unfolding run_model_test
  run_model_test-usage (ok t) = write_model_text-usage t
  run_model_test-usage (err e) = tt

  end_login-usage :
      (r : Result Text (Option Text)) (state : Output × Option OutputError)
      → RefusesIfUsage out (end_login streams r state)
  unfolding end_login
  end_login-usage (ok email) (out', some e) = tt
  end_login-usage (err message) (out', some e) = tt
  end_login-usage (ok email) (out', none) = tt
  end_login-usage (err message) (out', none) = tt

  run_login-usage :
      (events : List CliLoginProgress) (r : Result Text (Option Text))
      → RefusesIfUsage out (run_login streams out events r)
  unfolding run_login
  run_login-usage events r = end_login-usage r (report streams events (out, none))

  run_session_list-usage :
      (r : Result ListError (List SessionSummary))
      → RefusesIfUsage out (run_session_list streams out r)
  unfolding run_session_list
  run_session_list-usage (ok entries) = tt
  run_session_list-usage (err e) = tt

  run_session_show-usage :
      (r : Result ShowError ShowResult) → RefusesIfUsage out (run_session_show streams out r)
  unfolding run_session_show
  run_session_show-usage (ok shown) = tt
  run_session_show-usage (err e) = tt

  abbrev end_of : AskEnd → Output × Completion
  end_of end = (end.output, end.completion)

  end_rolled_back-usage :
      (content : Option Bytes) (r : Result RollbackError (Unit {0}))
      → RefusesIfUsage out (end_of (end_rolled_back streams out content r))
  unfolding end_rolled_back
  end_rolled_back-usage content (ok t) = (_, refl, refl, refl)
  end_rolled_back-usage content (err e) = tt

  end_answered-usage :
      (w : SessionWriter) (t : Text) (content : Bytes) (append : Result AppendError (Unit {0}))
      → RefusesIfUsage out (end_of (end_answered streams out w t content append))
  unfolding end_answered
  end_answered-usage w t content (ok done) = tt
  end_answered-usage w t content (err e) = tt

  module _ (c : Codec) where
    end_error-usage :
        (a : AskProbe) (w : SessionWriter) (error : ModelError) (code : Option FailureCode)
        → RefusesIfUsage out (end_of (end_error c streams a out w error code))
    unfolding end_error end_failed
    end_error-usage a w error none = end_rolled_back-usage _ (rollback w a.rollback_probe).1
    end_error-usage a w error (some code) = tt

    finish_ask-usage :
        (a : AskProbe) (w : SessionWriter) (r : Result ModelError Text)
        → RefusesIfUsage out (end_of (finish_ask c streams a out w r))
    unfolding finish_ask
    finish_ask-usage a w (ok t) =
        end_answered-usage w t (append_assistant c w a.append t).0
          (append_assistant c w a.append t).1
    finish_ask-usage a w (err error) = end_error-usage a w error (model_failure_code error)

    run_ask-usage : (a : AskProbe) → RefusesIfUsage out (end_of (run_ask c streams a out))
    unfolding run_ask
    run_ask-usage a = elim (Result-cases a.start) [
      | inl (w, h) ↦ rw h (finish_ask-usage (record a { start = ok w }) w a.answer)
      | inr (e, h) ↦ rw h tt
    ]

module _ (actions : Actions) (codec : Codec) (streams : Streams) (out : Output) where
  run_command-usage :
      (command : Command) → RefusesIfUsage out (run_command actions codec streams out command)
  unfolding run_command
  run_command-usage (Command.ask_open_ai_codex prompt) =
      run_ask-usage streams out codec (actions.asked prompt)
  run_command-usage Command.session_list = run_session_list-usage streams out actions.list
  run_command-usage (Command.session_show id) =
      run_session_show-usage streams out (actions.shown_session id)
  run_command-usage Command.login_open_ai_codex =
      run_login-usage streams out (map map_login_progress actions.login_events)
        (map_err login_error_message (map_ok (λ account. account.email) actions.login))
  run_command-usage Command.logout_open_ai_codex =
      run_logout-usage streams out (map_err logout_error_message actions.logout)
  run_command-usage Command.status_open_ai_codex =
      run_status-usage streams out (map_err credential_read_error_message actions.status)
  run_command-usage Command.model_test_open_ai_codex =
      run_model_test-usage streams out (map_err model_error_message actions.test)
  run_command-usage Command.invalid_prompt_command = (_, refl, refl, refl)
  run_command-usage (Command.usage_error argument usage) = (_, refl, refl, refl)
  run_command-usage _ = tt

  -- A run of the program that ends with the status of a usage error has written nothing to the
  -- standard output and one text to the standard error, whatever the actions answer. This counts
  -- an ask whose prompt the model client refused and whose session was removed again.
  pub run_application-Refuses :
      (arguments : List OsString)
      → (run_application actions codec streams out arguments).1.status ≡ exit_usage
      → Refuses out (run_application actions codec streams out arguments)
  unfolding run_application
  run_application-Refuses arguments usage =
      subst (λ status. RefusesAt status out (run_application actions codec streams out arguments))
        usage (run_command-usage (parse_command arguments))
