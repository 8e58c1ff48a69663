-- ===== src/Model.antt =====
-- The model client, crates/openai-codex-model/src/lib.rs: its errors and its checks of a prompt
-- and of a response's head. The request itself is built and sent by reqwest.
pub mod Statuses
pub mod Call
mod Tests
use rust_agent_harness.Prelude.{
  ℕ, ◌+◌, ◌*◌, Bool, true, false, ◌&&◌, ◌||◌, Option, none, some, List, [], ◌∷◌, Result, ok, err,
  leb, ltb, ◌==◌, is_empty, map, if◌then◌else◌,
}
use rust_agent_harness.Text.{Text, text, eq_text, len, trim, split_once, to_ascii_lowercase}
use rust_agent_harness.Sse.State.{
  DecodeError, invalid, limit_exceeded, timed_out, model_failed, empty_text,
}

pub data ModelError : Type 0 where
  invalid_prompt unsupported_platform not_connected credential_store_unavailable invalid_credential
        expired_credential credential_refresh_busy credential_refresh_unavailable unavailable
        unexpected_provider_response connection_rejected access_denied rate_limited
        temporarily_unavailable rejected invalid_provider_response call_timed_out response_too_large
        model_call_failed empty_response :
      ModelError

unfoldable pub model_error_message : ModelError → Text
model_error_message invalid_prompt =
    text "the prompt must contain non-whitespace text and be at most 32768 bytes"
model_error_message unsupported_platform =
    text "OpenAI Codex model calls are supported only on macOS"
model_error_message not_connected =
    text "OpenAI Codex is not connected; run 'harness auth login openai-codex'"
model_error_message credential_store_unavailable =
    text "the OpenAI Codex credential store is unavailable"
model_error_message invalid_credential =
    text "the stored OpenAI Codex connection is invalid; run 'harness auth login openai-codex'"
model_error_message expired_credential =
    text "the OpenAI Codex connection expired; run 'harness auth login openai-codex'"
model_error_message credential_refresh_busy =
    text "OpenAI Codex credential refresh is already in progress; try again"
model_error_message credential_refresh_unavailable =
    text "OpenAI Codex credential refresh is temporarily unavailable; try again"
model_error_message unavailable = text "OpenAI Codex is unavailable; try again"
model_error_message unexpected_provider_response =
    text "OpenAI Codex returned an unexpected response"
model_error_message connection_rejected =
    text "OpenAI Codex rejected the connection; run 'harness auth login openai-codex'"
model_error_message access_denied =
    text "this account does not have access to the Codex model request"
model_error_message rate_limited = text "OpenAI Codex usage or rate limit reached"
model_error_message temporarily_unavailable =
    text "OpenAI Codex is temporarily unavailable; try again"
model_error_message rejected = text "OpenAI Codex rejected the model request"
model_error_message invalid_provider_response = text "OpenAI Codex returned an invalid response"
model_error_message call_timed_out = text "the OpenAI Codex model call timed out"
model_error_message response_too_large =
    text "OpenAI Codex returned a response that exceeded harness limits"
model_error_message model_call_failed = text "the OpenAI Codex model call did not complete"
model_error_message empty_response = text "OpenAI Codex returned no text"

abbrev pub max_prompt_bytes : ℕ
max_prompt_bytes = 32 * 1024

unfoldable pub validate_prompt : Text → Result ModelError (Unit {0})
validate_prompt prompt =
    if is_empty (trim prompt) || ltb max_prompt_bytes (len prompt)
    then err invalid_prompt
    else ok tt

-- `reqwest::StatusCode` is a number from 100 to 999; these are its documented classes.
abbrev pub in_class : ℕ → ℕ → Bool
in_class hundreds status = leb (hundreds * 100) status && ltb status (hundreds * 100 + 100)

unfoldable pub validate_status : ℕ → Result ModelError (Unit {0})
validate_status status =
    if in_class 2 status
    then ok tt
    else if status == 401
    then err connection_rejected
    else if status == 403
    then err access_denied
    else if status == 408
    then err temporarily_unavailable
    else if status == 429
    then err rate_limited
    else if in_class 5 status
    then err temporarily_unavailable
    else if in_class 3 status
    then err unexpected_provider_response
    else if in_class 4 status
    then err rejected
    else err unexpected_provider_response

-- The text before the first `;`.
abbrev media_type : Text → Text
media_type value = elim (split_once b';' value) [ none ↦ value | some (first, rest) ↦ first ]

-- `none`: no header, or one that is no visible ASCII.
unfoldable pub validate_content_type : Option Text → Result ModelError (Unit {0})
validate_content_type none = ok tt
validate_content_type (some value) =
    if eq_text (map to_ascii_lowercase (trim (media_type value))) (text "text/event-stream")
    then ok tt
    else err invalid_provider_response

unfoldable pub map_decode_error : DecodeError → ModelError
map_decode_error invalid = invalid_provider_response
map_decode_error limit_exceeded = response_too_large
map_decode_error timed_out = call_timed_out
map_decode_error model_failed = model_call_failed
map_decode_error empty_text = empty_response
