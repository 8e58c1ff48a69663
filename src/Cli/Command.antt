-- ===== src/Cli/Command.antt =====
-- The arguments of the program: `parse_command` and the parsers of the subcommands. An argument
-- is its bytes; two are equal if their bytes are, and `to_str` is `from_utf8`.
pub mod Asks
use rust_agent_harness.Prelude.{
  ℕ, Bool, not, ◌&&◌, ◌||◌, none, some, List, leb, is_empty, get_elem?, if◌then◌else◌, all, ◌==◌,
}
use rust_agent_harness.Text.{Bytes, Text, text, eq_text, len, trim}
use rust_agent_harness.Text.Utf8.{utf8, from_utf8}
use rust_agent_harness.Session.Projection.{hex_digit}
use rust_agent_harness.Model.{max_prompt_bytes}

abbrev pub root_usage : Text
root_usage = text "harness [OPTIONS] [COMMAND]"

abbrev pub auth_usage : Text
auth_usage = text "harness auth [OPTIONS] [COMMAND]"

abbrev pub login_usage : Text
login_usage = text "harness auth login [OPTIONS] <PROVIDER>"

abbrev pub logout_usage : Text
logout_usage = text "harness auth logout [OPTIONS] <PROVIDER>"

abbrev pub status_usage : Text
status_usage = text "harness auth status [OPTIONS] <PROVIDER>"

abbrev pub model_usage : Text
model_usage = text "harness model [OPTIONS] [COMMAND]"

abbrev pub model_test_usage : Text
model_test_usage = text "harness model test [OPTIONS] <PROVIDER>"

abbrev pub ask_usage : Text
ask_usage = text "harness ask [OPTIONS] <PROVIDER> <PROMPT>"

abbrev pub session_usage : Text
session_usage = text "harness session [OPTIONS] [COMMAND]"

abbrev pub session_list_usage : Text
session_list_usage = text "harness session list [OPTIONS]"

abbrev pub session_show_usage : Text
session_show_usage = text "harness session show [OPTIONS] <SESSION_ID>"

abbrev pub OsString : Type 0
OsString = Bytes

pub data Command : Type 0 where
  root_help version ask_help invalid_prompt_command session_help session_list_help : Command
  session_list session_show_help auth_help login_help login_open_ai_codex logout_help : Command
  logout_open_ai_codex status_help status_open_ai_codex model_help model_test_help : Command
  model_test_open_ai_codex : Command
  ask_open_ai_codex : Text → Command
  session_show : Text → Command
  usage_error : OsString → Text → Command

-- `argument == OsStr::new(literal)`
unfoldable pub is_arg : OsString → Text → Bool
is_arg argument literal = eq_text argument (utf8 literal)

unfoldable pub is_help : OsString → Bool
unfolding is_arg
is_help argument = is_arg argument (text "-h") || is_arg argument (text "--help")

unfoldable pub valid_session_id : Text → Bool
unfolding hex_digit
valid_session_id session_id = len session_id == 32 && all hex_digit (utf8 session_id)

unfoldable pub valid_prompt : Text → Bool
valid_prompt prompt = not (is_empty (trim prompt)) && leb (len prompt) max_prompt_bytes

-- `arguments.get(n).map_or(otherwise, |trailing| usage_error(trailing, usage))`
abbrev pub no_more : List OsString → ℕ → Text → Command → Command
no_more arguments n usage otherwise = elim (get_elem? arguments n) [
  | none ↦ otherwise
  | some trailing ↦ usage_error trailing usage
]

-- `session_id.to_str()`, and its check.
abbrev pub show_session : OsString → Command
show_session argument = elim (from_utf8 argument) [
  | none ↦ usage_error argument session_show_usage
  | some session_id ↦
      if valid_session_id session_id
      then session_show session_id
      else usage_error argument session_show_usage
]

unfoldable pub parse_session_show : List OsString → Command
unfolding is_help valid_session_id
parse_session_show arguments = elim (get_elem? arguments 2) [
  | none ↦ usage_error (utf8 (text "<SESSION_ID>")) session_show_usage
  | some session_id ↦
      if is_help session_id
      then no_more arguments 3 session_show_usage session_show_help
      else no_more arguments 3 session_show_usage (show_session session_id)
]

unfoldable pub parse_session_list : List OsString → Command
unfolding is_help
parse_session_list arguments = elim (get_elem? arguments 2) [
  | none ↦ session_list
  | some argument ↦
      if is_help argument
      then no_more arguments 3 session_list_usage session_list_help
      else usage_error argument session_list_usage
]

unfoldable pub parse_session : List OsString → Command
unfolding is_help is_arg parse_session_list parse_session_show
parse_session arguments = elim (get_elem? arguments 1) [
  | none ↦ session_help
  | some command ↦
      if is_help command
      then no_more arguments 2 session_usage session_help
      else if is_arg command (text "list")
      then parse_session_list arguments
      else if not (is_arg command (text "show"))
      then usage_error command session_usage
      else parse_session_show arguments
]

unfoldable pub parse_auth_provider : List OsString → Command → Text → Command → Command
unfolding is_help is_arg
parse_auth_provider arguments help usage success = elim (get_elem? arguments 2) [
  | none ↦ help
  | some provider ↦
      if is_help provider
      then help
      else if not (is_arg provider (text "openai-codex"))
      then usage_error provider usage
      else no_more arguments 3 usage success
]

unfoldable pub parse_auth : List OsString → Command
unfolding is_help is_arg parse_auth_provider
parse_auth arguments = elim (get_elem? arguments 1) [
  | none ↦ auth_help
  | some second ↦
      if is_help second
      then auth_help
      else if is_arg second (text "logout")
      then parse_auth_provider arguments logout_help logout_usage logout_open_ai_codex
      else if is_arg second (text "status")
      then parse_auth_provider arguments status_help status_usage status_open_ai_codex
      else if not (is_arg second (text "login"))
      then usage_error second auth_usage
      else parse_auth_provider arguments login_help login_usage login_open_ai_codex
]

unfoldable pub parse_model_test : List OsString → Command
unfolding is_help is_arg
parse_model_test arguments = elim (get_elem? arguments 2) [
  | none ↦ model_test_help
  | some third ↦
      if is_help third
      then model_test_help
      else if not (is_arg third (text "openai-codex"))
      then usage_error third model_test_usage
      else no_more arguments 3 model_test_usage model_test_open_ai_codex
]

unfoldable pub parse_model : List OsString → Command
unfolding is_help is_arg parse_model_test
parse_model arguments = elim (get_elem? arguments 1) [
  | none ↦ model_help
  | some second ↦
      if is_help second
      then model_help
      else if not (is_arg second (text "test"))
      then usage_error second model_usage
      else parse_model_test arguments
]

-- `prompt.to_str()`, and its check.
abbrev pub ask_prompt : OsString → Command
ask_prompt argument = elim (from_utf8 argument) [
  | none ↦ invalid_prompt_command
  | some prompt ↦
      if not (valid_prompt prompt) then invalid_prompt_command else ask_open_ai_codex prompt
]

unfoldable pub parse_ask_prompt : List OsString → Command
unfolding is_help is_arg valid_prompt
parse_ask_prompt arguments = elim (get_elem? arguments 2) [
  | none ↦ invalid_prompt_command
  | some prompt ↦
      if is_help prompt
      then ask_help
      else if is_arg prompt (text "--")
      then usage_error prompt ask_usage
      else no_more arguments 3 ask_usage (ask_prompt prompt)
]

unfoldable pub parse_ask : List OsString → Command
unfolding is_help is_arg parse_ask_prompt
parse_ask arguments = elim (get_elem? arguments 1) [
  | none ↦ ask_help
  | some provider ↦
      if is_help provider
      then ask_help
      else if not (is_arg provider (text "openai-codex"))
      then usage_error provider ask_usage
      else parse_ask_prompt arguments
]

unfoldable pub parse_command : List OsString → Command
unfolding is_help is_arg parse_auth parse_ask parse_model parse_session
parse_command arguments = elim (get_elem? arguments 0) [
  | none ↦ root_help
  | some first ↦
      if is_help first
      then root_help
      else if is_arg first (text "-V") || is_arg first (text "--version")
      then version
      else if is_arg first (text "auth")
      then parse_auth arguments
      else if is_arg first (text "ask")
      then parse_ask arguments
      else if is_arg first (text "model")
      then parse_model arguments
      else if is_arg first (text "session")
      then parse_session arguments
      else usage_error first root_usage
]
