-- ===== src/Session/Format.antt =====
-- The records of a session file, format.rs, and serde_json's reading and writing of them.
use rust_agent_harness.Prelude.{
  ℕ, ◌*◌, Option, none, some, [], ◌∷◌, ◌++◌, Result, ok, err, ◌>>=◌, ltb, length, if◌then◌else◌,
  ok_or, ◌≡◌, ◌≢◌,
}
use rust_agent_harness.Text.{Bytes, Text, text}
use rust_agent_harness.Text.Utf8.{Lacks}

abbrev pub format_version_1 : ℕ
format_version_1 = 1

abbrev pub max_record_bytes : ℕ
max_record_bytes = 2 * 1024 * 1024

abbrev pub max_session_bytes : ℕ
max_session_bytes = 3 * 1024 * 1024

abbrev pub max_diagnostic_bytes : ℕ
max_diagnostic_bytes = 4 * 1024

pub data FailureCode : Type 0 where
  unsupported_platform not_connected credential_store_unavailable invalid_credential
        expired_credential credential_refresh_busy credential_refresh_unavailable unavailable
        unexpected_provider_response connection_rejected access_denied rate_limited
        temporarily_unavailable rejected invalid_provider_response call_timed_out response_too_large
        model_call_failed empty_response :
      FailureCode

unfoldable pub diagnostic : FailureCode → Text
diagnostic unsupported_platform = text "OpenAI Codex model calls are supported only on macOS"
diagnostic not_connected =
    text "OpenAI Codex is not connected; run 'harness auth login openai-codex'"
diagnostic credential_store_unavailable = text "the OpenAI Codex credential store is unavailable"
diagnostic invalid_credential =
    text "the stored OpenAI Codex connection is invalid; run 'harness auth login openai-codex'"
diagnostic expired_credential =
    text "the OpenAI Codex connection expired; run 'harness auth login openai-codex'"
diagnostic credential_refresh_busy =
    text "OpenAI Codex credential refresh is already in progress; try again"
diagnostic credential_refresh_unavailable =
    text "OpenAI Codex credential refresh is temporarily unavailable; try again"
diagnostic unavailable = text "OpenAI Codex is unavailable; try again"
diagnostic unexpected_provider_response = text "OpenAI Codex returned an unexpected response"
diagnostic connection_rejected =
    text "OpenAI Codex rejected the connection; run 'harness auth login openai-codex'"
diagnostic access_denied = text "this account does not have access to the Codex model request"
diagnostic rate_limited = text "OpenAI Codex usage or rate limit reached"
diagnostic temporarily_unavailable = text "OpenAI Codex is temporarily unavailable; try again"
diagnostic rejected = text "OpenAI Codex rejected the model request"
diagnostic invalid_provider_response = text "OpenAI Codex returned an invalid response"
diagnostic call_timed_out = text "the OpenAI Codex model call timed out"
diagnostic response_too_large = text "OpenAI Codex returned a response that exceeded harness limits"
diagnostic model_call_failed = text "the OpenAI Codex model call did not complete"
diagnostic empty_response = text "OpenAI Codex returned no text"

pub data Provider : Type 0 where
  open_ai_codex : Provider

pub data CompletedOutcome : Type 0 where
  completed : CompletedOutcome

pub data FailedOutcome : Type 0 where
  failed : FailedOutcome

pub data Payload : Type 0 where
  user_message : Provider → Text → Payload
  assistant_message : Provider → Text → CompletedOutcome → Payload
  terminal_failure : Provider → FailureCode → Text → FailedOutcome → Payload

pub record Header : Type 0 where
  pub format_version : ℕ
  pub session_id : Text
  pub created_at_unix_ms : ℕ
  pub working_directory : Option Text
  pub harness_version : Text

pub record Entry : Type 0 where
  pub entry_id : Text
  pub parent_entry_id : Option Text
  pub sequence : ℕ
  pub timestamp_unix_ms : ℕ
  pub operation_id : Text
  pub payload : Payload

-- `Record` of the source.
pub data LogRecord : Type 0 where
  header_record : Header → LogRecord
  entry_record : Entry → LogRecord

unfoldable pub header : Text → ℕ → Option Text → Text → LogRecord
header session_id created_at_unix_ms working_directory harness_version = header_record (record {
  format_version = format_version_1;
  session_id = session_id;
  created_at_unix_ms = created_at_unix_ms;
  working_directory = working_directory;
  harness_version = harness_version;
})

unfoldable pub user_entry : Text → ℕ → Text → Text → LogRecord
user_entry entry_id timestamp_unix_ms operation_id prompt = entry_record (record {
  entry_id = entry_id;
  parent_entry_id = none;
  sequence = 1;
  timestamp_unix_ms = timestamp_unix_ms;
  operation_id = operation_id;
  payload = user_message open_ai_codex prompt;
})

unfoldable pub assistant_entry : Text → Text → ℕ → Text → Text → LogRecord
assistant_entry entry_id user_entry_id timestamp_unix_ms operation_id answer =
    entry_record (record {
      entry_id = entry_id;
      parent_entry_id = some user_entry_id;
      sequence = 2;
      timestamp_unix_ms = timestamp_unix_ms;
      operation_id = operation_id;
      payload = assistant_message open_ai_codex answer completed;
    })

unfoldable pub failure_entry : Text → Text → ℕ → Text → FailureCode → LogRecord
failure_entry entry_id user_entry_id timestamp_unix_ms operation_id code = entry_record (record {
  entry_id = entry_id;
  parent_entry_id = some user_entry_id;
  sequence = 2;
  timestamp_unix_ms = timestamp_unix_ms;
  operation_id = operation_id;
  payload = terminal_failure open_ai_codex code (diagnostic code) failed;
})

-- serde_json at the record type: `to_vec` and `from_slice`.
pub record Codec : Type 0 where
  pub to_vec : LogRecord → Option Bytes
  pub from_slice : Bytes → Option LogRecord

-- What the log relies on: compact JSON holds no line break, is not empty, and reads back.
pub record IsJsonCodec (c : Codec) : Type 0 where
  pub reads_back : (r : LogRecord) (b : Bytes) → c.to_vec r ≡ some b → c.from_slice b ≡ some r
  pub one_line : (r : LogRecord) (b : Bytes) → c.to_vec r ≡ some b → Lacks b'\n' b
  pub not_empty : (r : LogRecord) (b : Bytes) → c.to_vec r ≡ some b → b ≢ []

module _ (c : Codec) where
  unfoldable pub serialize_line : LogRecord → Result (Unit {0}) Bytes
  serialize_line r = do
    bytes ← ok_or (c.to_vec r) tt
    if ltb max_record_bytes (length bytes) then err tt else ok (bytes ++ b'\n' ∷ [])
