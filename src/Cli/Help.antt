-- ===== src/Cli/Help.antt =====
-- The help texts, main.rs.
use rust_agent_harness.Prelude.{◌++◌}
use rust_agent_harness.Text.{Text, text}

abbrev pub help : Text
help =
    text "A local coding-agent harness\n\nUsage: harness [OPTIONS] [COMMAND]\n\nCommands:\n"
    ++ text "  ask      Ask OpenAI Codex one question\n  auth     Manage account authentication\n"
    ++ text "  model    Exercise model connections\n  session  Inspect retained sessions\n\n"
    ++ text "Retention:\n"
    ++ text "  Successful and failed valid asks are retained locally by default, including the\n"
    ++ text "  prompt, answer or fixed failure, timestamps, and working directory when available.\n"
    ++ text "  Use session list to recover retained identifiers. Files remain until manually\n"
    ++ text "  removed; there is no opt-out, delete, retention, or automatic-cleanup command.\n"
    ++ text "  macOS: ~/Library/Application Support/rust-agent-harness/sessions/\n"
    ++ text "  Linux: $XDG_DATA_HOME/rust-agent-harness/sessions/ or\n"
    ++ text "         ~/.local/share/rust-agent-harness/sessions/\n\nOptions:\n"
    ++ text "  -h, --help     Print help\n  -V, --version  Print version\n"

abbrev pub auth_help : Text
auth_help =
    text "Manage account authentication\n\nUsage: harness auth [OPTIONS] [COMMAND]\n\n"
    ++ text "Commands:\n  login   Connect an account\n  logout  Disconnect an account\n"
    ++ text "  status  Inspect an account connection\n\nOptions:\n  -h, --help  Print help\n"

abbrev pub logout_help : Text
logout_help =
    text "Disconnect an account\n\nUsage: harness auth logout [OPTIONS] <PROVIDER>\n\n"
    ++ text "Providers:\n  openai-codex  OpenAI Codex through a ChatGPT subscription\n\n"
    ++ text "Options:\n  -h, --help  Print help\n"

abbrev pub status_help : Text
status_help =
    text "Inspect an account connection\n\nUsage: harness auth status [OPTIONS] <PROVIDER>\n\n"
    ++ text "Providers:\n  openai-codex  OpenAI Codex through a ChatGPT subscription\n\n"
    ++ text "Options:\n  -h, --help  Print help\n"

abbrev pub login_help : Text
login_help =
    text "Connect an account\n\nUsage: harness auth login [OPTIONS] <PROVIDER>\n\nProviders:\n"
    ++ text "  openai-codex  OpenAI Codex through a ChatGPT subscription\n\nOptions:\n"
    ++ text "  -h, --help  Print help\n"

abbrev pub model_help : Text
model_help =
    text "Exercise model connections\n\nUsage: harness model [OPTIONS] [COMMAND]\n\n"
    ++ text "Commands:\n  test  Test a model connection\n\nOptions:\n  -h, --help  Print help\n"

abbrev pub model_test_help : Text
model_test_help =
    text "Test a model connection\n\nUsage: harness model test [OPTIONS] <PROVIDER>\n\n"
    ++ text "Providers:\n  openai-codex  OpenAI Codex through a ChatGPT subscription\n\n"
    ++ text "Options:\n  -h, --help  Print help\n"

abbrev pub ask_help : Text
ask_help =
    text "Ask OpenAI Codex one question\n\nUsage: harness ask [OPTIONS] <PROVIDER> <PROMPT>\n"
    ++ text "\nProviders:\n  openai-codex  OpenAI Codex through a ChatGPT subscription\n\n"
    ++ text "Arguments:\n  <PROMPT>  One UTF-8 prompt of at most 32768 bytes\n\nOutput:\n"
    ++ text "  Terminal and bidi controls become visible escapes; all other Unicode is preserved,\n"
    ++ text "  including other invisible format characters\n\nRetention:\n"
    ++ text "  Successful and failed valid asks are retained locally by default, including the\n"
    ++ text "  prompt, answer or fixed failure, timestamps, and working directory when available.\n"
    ++ text "  Use session list to recover retained identifiers. Files remain until manually\n"
    ++ text "  removed; there is no opt-out, delete, retention, or automatic-cleanup command.\n"
    ++ text "  macOS: ~/Library/Application Support/rust-agent-harness/sessions/\n"
    ++ text "  Linux: $XDG_DATA_HOME/rust-agent-harness/sessions/ or\n"
    ++ text "         ~/.local/share/rust-agent-harness/sessions/\n\nOptions:\n"
    ++ text "  -h, --help  Print help\n"

abbrev pub session_help : Text
session_help =
    text "Inspect retained sessions\n\nUsage: harness session [OPTIONS] [COMMAND]\n\n"
    ++ text "Commands:\n  list  List retained sessions\n"
    ++ text "  show  Show one retained session by identifier\n\nRetention:\n"
    ++ text "  Successful and failed valid asks are retained locally by default, including the\n"
    ++ text "  prompt, answer or fixed failure, timestamps, and working directory when available.\n"
    ++ text "  Use session list to recover retained identifiers. Files remain until manually\n"
    ++ text "  removed; there is no opt-out, delete, retention, or automatic-cleanup command.\n"
    ++ text "  macOS: ~/Library/Application Support/rust-agent-harness/sessions/\n"
    ++ text "  Linux: $XDG_DATA_HOME/rust-agent-harness/sessions/ or\n"
    ++ text "         ~/.local/share/rust-agent-harness/sessions/\n\nOptions:\n"
    ++ text "  -h, --help  Print help\n"

abbrev pub session_list_help : Text
session_list_help =
    text "List retained sessions\n\nUsage: harness session list [OPTIONS]\n\nOutput:\n"
    ++ text "  Metadata only: session identifier, creation time in Unix milliseconds, and status\n"
    ++ text "  Newest created sessions appear first\n\nLimits:\n"
    ++ text "  At most 4096 directory entries, 4096 session files, and 67108864 aggregate bytes\n"
    ++ text "  are inspected\n\nOptions:\n  -h, --help  Print help\n"

abbrev pub session_show_help : Text
session_show_help =
    text "Show one retained session\n\nUsage: harness session show [OPTIONS] <SESSION_ID>\n\n"
    ++ text "Arguments:\n  <SESSION_ID>  Exactly 32 lowercase hexadecimal characters\n\nOutput:\n"
    ++ text "  Prompt and answer text use the same terminal-safe rendering as ask\n\nOptions:\n"
    ++ text "  -h, --help  Print help\n"
