-- ===== src/Cli/Tests.antt =====
-- The commands at concrete inputs.
use rust_agent_harness.Cli.Application.Usage.{Refuses, run_application-Refuses}
use rust_agent_harness.Session.Errors.{missing}
use rust_agent_harness.Auth.Errors.{logout_store_unavailable}
use rust_agent_harness.Auth.Login.{opening_browser, authorization_url}
use rust_agent_harness.Cli.Application.{
  Actions, run_application, run_command, usage_error_text, format_argument,
}
use rust_agent_harness.Cli.Actions.Progress.{Reports, report-Reports}
use rust_agent_harness.Cli.Actions.{
  CliLoginProgress, opening_browser, authorization_url, browser_launch_failed, report, on_progress,
  progress_line, run_login,
}
use rust_agent_harness.Cli.Show.Safe.{show-IsSafe}
use rust_agent_harness.Cli.Show.{render_session, status_text, terminal_text}
use rust_agent_harness.Session.Tests.Reading.{inspected, interrupted, show_runs}
use rust_agent_harness.Cli.Command.Asks.{parse_command_asks, parse_command_ask}
use rust_agent_harness.Cli.Command.{
  OsString, parse_command, parse_ask, parse_ask_prompt, valid_prompt, is_help, is_arg,
  ask_open_ai_codex,
}
use native.Mathlib.Decide.{ℕ_discrete}
use rust_agent_harness.Session.Files.{identity_matches}
use rust_agent_harness.Text.Utf8.{utf8, encode_char, from_utf8, IsText}
use rust_agent_harness.Session.Projection.{valid_id, hex_digit}
use rust_agent_harness.Session.Format.{serialize_line, assistant_entry, header, user_entry}
use rust_agent_harness.Prelude.{
  ◌≡◌, refl, true, [], ◌∷◌, ok, err, All, List, some, false, inl, arith, if◌then◌else◌, ◌==◌, none,
  map, ap,
}
use rust_agent_harness.Text.{Text, text, len, eq_text, is_control, trim}
use rust_agent_harness.Session.Tests.Samples.{
  toy, toy-IsJsonCodec, writer, writer-IsSession, entry_id, regular, letter_of, letter_or,
  LogRecord-discrete, directory, session_id,
}
use rust_agent_harness.Session.Writer.{
  append_assistant, append_built, terminal_record, next_id, append_record, append_terminal,
  append_line,
}
use rust_agent_harness.Model.{ModelError}
use rust_agent_harness.Cli.Run.{
  Streams, Output, AskProbe, run_ask, complete, exit_success, model_failure_code, Completion,
  broken_pipe, other_output_error, is_output_failure, note, note_when, note_append_error,
  retain_first_error, finish_ask, end_answered, exit_usage,
}
use rust_agent_harness.Cli.Run.Kept.{Keeps, run_ask-Keeps, Agrees, model_failure_code-Agrees}
use rust_agent_harness.Cli.Render.{
  render_model_text, ends_with_newline, render_chars, render_char, should_escape, is_bidi_control,
  escape_unicode, hex_onto,
}
use rust_agent_harness.Cli.Render.Safe.{IsSafe, render_model_text-IsSafe, render_model_text_stable}

-- A bell, a carriage return before a line feed, and an override of the direction.
abbrev hostile : Text
hostile = 0x07 ∷ b'\r' ∷ b'\n' ∷ 0x202e ∷ b'a' ∷ []

render_hostile : render_model_text hostile ≡ text "\\u{7}\n\\u{202e}a\n"
unfolding render_model_text render_chars render_char should_escape is_control is_bidi_control
    escape_unicode hex_onto text
render_hostile = refl

render_model_text-IsSafe_example : All IsSafe (render_model_text hostile)
render_model_text-IsSafe_example = render_model_text-IsSafe hostile

render_model_text_stable_example :
    (ends_with_newline (render_model_text hostile) ≡ true)
    × (render_model_text (render_model_text hostile) ≡ render_model_text hostile)
render_model_text_stable_example = render_model_text_stable hostile

-- Standard output is closed by its reader.
abbrev piped : Streams
piped = record { to_stdout = λ n. err broken_pipe; to_stderr = λ n. ok tt }

abbrev nothing_written : Output
nothing_written = record { stdout = []; stderr = [] }

abbrev answered_probe : AskProbe
answered_probe = record {
  start = ok writer;
  answer = ok (text "yes");
  append = record {
    sources_lock = true;
    entry_id = entry_id;
    timestamp = 7;
    handle = ok regular;
    path = ok regular;
    metadata = true;
    written = 2;
    sync = true;
  };
  rollback_probe = record {
    handle = ok regular;
    path = ok regular;
    remove_file = ok tt;
    sync_directory = ok tt;
  };
}

answered_exit :
    complete (run_ask toy piped answered_probe nothing_written).completion ≡ exit_success
unfolding complete run_ask finish_ask end_answered is_output_failure note note_when
    note_append_error retain_first_error append_assistant append_built terminal_record next_id
    append_record append_terminal append_line serialize_line letter_of letter_or LogRecord-discrete
    valid_id hex_digit len utf8 encode_char text eq_text identity_matches assistant_entry header
    user_entry ℕ_discrete
answered_exit = refl

run_ask-Keeps_example :
    Keeps toy toy-IsJsonCodec writer-IsSession piped answered_probe
      (ok (text "yes"))
      (run_ask toy piped answered_probe nothing_written)
run_ask-Keeps_example =
    run_ask-Keeps toy toy-IsJsonCodec writer-IsSession piped answered_probe nothing_written refl
      answered_exit

model_failure_code-Agrees_example :
    Agrees ModelError.rate_limited (model_failure_code ModelError.rate_limited)
model_failure_code-Agrees_example = model_failure_code-Agrees ModelError.rate_limited

abbrev closed : Completion
closed = record { status = exit_success; stdout = err broken_pipe; stderr = ok tt }

abbrev arguments : List OsString
arguments = utf8 (text "ask") ∷ utf8 (text "openai-codex") ∷ utf8 (text "hi") ∷ []

arguments_ask : parse_command arguments ≡ ask_open_ai_codex (text "hi")
unfolding parse_command parse_ask parse_ask_prompt valid_prompt is_help is_arg eq_text utf8
    encode_char from_utf8 text len trim
arguments_ask = refl

parse_command_asks_example :
    (argument : OsString) × (arguments
      ≡ utf8 (text "ask") ∷ utf8 (text "openai-codex") ∷ argument ∷ [])
    × (from_utf8 argument ≡ some (text "hi"))
    × (valid_prompt (text "hi") ≡ true)
parse_command_asks_example = parse_command_asks arguments (text "hi") arguments_ask

hi-IsText : IsText (text "hi")
unfolding text
hi-IsText = (inl (omega arith), (inl (omega arith), tt))

hi_valid : valid_prompt (text "hi") ≡ true
hi_valid = parse_command_asks_example.3

hi_no_help : is_help (utf8 (text "hi")) ≡ false
unfolding is_help is_arg eq_text utf8 encode_char text
hi_no_help = refl

hi_no_dashes : is_arg (utf8 (text "hi")) (text "--") ≡ false
unfolding is_arg eq_text utf8 encode_char text
hi_no_dashes = refl

parse_command_ask_example :
    parse_command (utf8 (text "ask") ∷ utf8 (text "openai-codex") ∷ utf8 (text "hi") ∷ [])
    ≡ ask_open_ai_codex (text "hi")
parse_command_ask_example = parse_command_ask (text "hi") hi-IsText hi_valid hi_no_help hi_no_dashes

show-IsSafe_example : All IsSafe (render_session interrupted)
show-IsSafe_example =
    show-IsSafe toy (some (ok directory, ok directory)) inspected session_id interrupted show_runs

render_interrupted :
    render_session interrupted
    ≡ text
        "Session: 0123456789abcdef0123456789abcdef\nStatus: interrupted\nProvider: openai-codex\n\nUser:\nhi\n"
unfolding render_session status_text terminal_text render_model_text render_chars render_char
    should_escape text
render_interrupted = refl

-- The second write to standard error fails.
abbrev failing : Streams
failing = record {
  to_stdout = λ n. ok tt;
  to_stderr = λ n. if n == 1 then err other_output_error else ok tt;
}

abbrev events : List CliLoginProgress
events = opening_browser ∷ authorization_url (text "https://a") ∷ browser_launch_failed ∷ []

progress_stops :
    (report failing events (nothing_written, none)).0.stderr
    ≡ progress_line opening_browser ∷ progress_line (authorization_url (text "https://a")) ∷ []
unfolding report on_progress
progress_stops = refl

report-Reports_example :
    Reports failing events nothing_written (report failing events (nothing_written, none))
report-Reports_example = report-Reports failing events nothing_written

abbrev actions : Actions
actions = record {
  login_events = opening_browser ∷ authorization_url (text "u") ∷ [];
  login = ok (record { email = some (text "a@b.c"); plan = none });
  logout = err logout_store_unavailable;
  status = ok tt;
  test = ok (text "verified");
  asked = λ prompt. answered_probe;
  list = ok [];
  shown_session = λ session_id. err missing;
  package_version = text "0.1.0";
  to_string_lossy = λ argument. argument;
  escape_debug = λ t. t;
}

run_application_unknown :
    run_application actions toy piped nothing_written (utf8 (text "x") ∷ []) ≡ (
      record {
        stdout = [];
        stderr =
            text
              "error: unexpected argument 'x'\n\nUsage: harness [OPTIONS] [COMMAND]\n\nFor more information, try '--help'.\n"
            ∷ [];
      },
      record { status = exit_usage; stdout = ok tt; stderr = ok tt },
    )
unfolding run_application run_command parse_command is_help is_arg usage_error_text format_argument
    text utf8 eq_text
run_application_unknown = refl

run_application_login :
    (run_application actions toy piped nothing_written
      (map utf8 (text "auth" ∷ text "login" ∷ text "openai-codex" ∷ []))).0.stdout
    ≡ text "Connected to OpenAI Codex as a@b.c.\n" ∷ []
unfolding run_application run_command run_login parse_command is_help is_arg text utf8 eq_text
run_application_login = refl

run_application-Refuses_example :
    Refuses nothing_written
      (run_application actions toy piped nothing_written (utf8 (text "x") ∷ []))
run_application-Refuses_example =
    run_application-Refuses actions toy piped nothing_written (utf8 (text "x") ∷ [])
      (ap (λ outcome. outcome.1.status) run_application_unknown)
