-- ===== src/Model/Call.antt =====
-- One call of the model, crates/openai-codex-model/src/lib.rs: `model_call_with`, the request it
-- sends, and `ask` and `test_connection`, which lend it the stored credential. The random source
-- and the HTTP client belong to the environment, a state of any type.
pub mod Refused
pub mod Answered
use rust_agent_harness.Prelude.{
  ℕ, ◌+◌, ◌/◌, ◌%◌, Bool, true, false, Option, none, some, List, [], ◌∷◌, ◌++◌, Result, ok, err,
  ltb, if◌then◌else◌, map_err, ◌-◌,
}
use rust_agent_harness.Text.{Bytes, Text, text}
use rust_agent_harness.Json.{Json}
use rust_agent_harness.Sse.State.{DecodeError, Limits}
use rust_agent_harness.Sse.Loop.{ReadError, decode}
use rust_agent_harness.Sse.Decode.{Answers, decode-Answers}
use rust_agent_harness.Model.{
  ModelError, unsupported_platform, not_connected, credential_store_unavailable, invalid_credential,
  credential_refresh_busy, credential_refresh_unavailable, connection_rejected, call_timed_out,
  unavailable, validate_prompt, validate_status, validate_content_type, map_decode_error,
}
use rust_agent_harness.Auth.Errors.{
  CredentialUseError, use_unsupported_platform, use_not_connected, use_store_unavailable,
  use_unsupported_version, use_invalid_credential, refresh_coordination_busy,
  refresh_temporarily_unavailable, reauthentication_required,
}
use rust_agent_harness.Auth.Credential.Claims.{Libraries}
use rust_agent_harness.Auth.Credential.Record.{Codec}
use rust_agent_harness.Auth.Run.{AuthorizedCredential, State}
use rust_agent_harness.Auth.Flow.{Services, with_renewable_authorized_credential_from}

abbrev pub model : Text
model = text "gpt-5.5"

abbrev pub test_instructions : Text
test_instructions =
    text "Return only the requested plain-text verification response. Do not call tools."

abbrev pub test_prompt : Text
test_prompt = text "Reply with exactly: OpenAI Codex connection verified."

abbrev pub ask_instructions : Text
ask_instructions = text "Answer the user's prompt directly. Do not call tools."

abbrev pub provider_client_version : Text
provider_client_version = text "0.144.0"

-- `InputContent`, `InputMessage`, `Reasoning` and `RequestBody`; the arrays of the source have one
-- element.
pub record InputContent : Type 0 where
  pub kind : Text
  pub text_of : Text

pub record InputMessage : Type 0 where
  pub role : Text
  pub content : InputContent

pub record RequestBody : Type 0 where
  pub model_name : Text
  pub instructions : Text
  pub input : InputMessage
  pub tool_choice : Text
  pub parallel_tool_calls : Bool
  pub reasoning_effort : Text
  pub store : Bool
  pub stream : Bool

unfoldable pub request_body : Text → Text → RequestBody
request_body instructions prompt = record {
  model_name = model;
  instructions = instructions;
  input = record {
    role = text "user";
    content = record { kind = text "input_text"; text_of = prompt };
  };
  tool_choice = text "auto";
  parallel_tool_calls = false;
  reasoning_effort = text "low";
  store = false;
  stream = true;
}

-- The request before it is sent, with the credential that authorizes it.
pub record ModelRequest : Type 0 where
  pub headers : List (Text × Text)
  pub body : RequestBody
  pub credential : AuthorizedCredential

unfoldable pub request_headers : Text → Text → List (Text × Text)
request_headers package_version correlation_id =
    (text "accept", text "text/event-stream")
    ∷ (text "originator", text "rust-agent-harness")
    ∷ (text "user-agent", text "rust-agent-harness/" ++ package_version)
    ∷ (text "version", provider_client_version)
    ∷ (text "session-id", correlation_id)
    ∷ (text "x-client-request-id", correlation_id)
    ∷ []

abbrev hex_digit_of : ℕ → ℕ
hex_digit_of n = if ltb n 10 then b'0' + n else b'a' + (n - 10)

-- Two digits for each random byte.
unfoldable pub correlation_id : Bytes → Text
correlation_id [] = []
correlation_id (b ∷ bs) = hex_digit_of (b / 16) ∷ hex_digit_of (b % 16) ∷ correlation_id bs

-- The head of a response, and its body as the decoder reads it.
pub record ModelResponse : Type 0 where
  pub status : ℕ
  pub content_type : Option Text
  pub elapsed : ℕ → ℕ
  pub reads : ℕ → Result ReadError Bytes

-- `send` fails with whether the error is a timeout.
pub record Transport {ℓ} (W : Type ℓ) : Type ℓ where
  pub build : W → Result (Unit {0}) (Unit {0}) × W
  pub random : W → Bytes × W
  pub send : ModelRequest → W → Result Bool ModelResponse × W
  pub package_version : Text

unfoldable pub map_request_error : Bool → ModelError
map_request_error true = call_timed_out
map_request_error false = unavailable

unfoldable pub map_credential_use_error : CredentialUseError → ModelError
map_credential_use_error use_unsupported_platform = unsupported_platform
map_credential_use_error use_not_connected = not_connected
map_credential_use_error use_store_unavailable = credential_store_unavailable
map_credential_use_error use_unsupported_version = invalid_credential
map_credential_use_error use_invalid_credential = invalid_credential
map_credential_use_error refresh_coordination_busy = credential_refresh_busy
map_credential_use_error refresh_temporarily_unavailable = credential_refresh_unavailable
map_credential_use_error reauthentication_required = connection_rejected

-- `|error| *error == ModelError::ConnectionRejected`
unfoldable pub is_connection_rejected : ModelError → Bool
is_connection_rejected connection_rejected = true
is_connection_rejected _ = false

-- The fuel of `decode` is always enough.
abbrev pub answer_of :
    (j : Json) (limits : Limits) (elapsed : ℕ → ℕ) (reads : ℕ → Result ReadError Bytes)
    (found : Option (Result DecodeError Text))
    → Answers j limits elapsed reads found
    → Result DecodeError Text
answer_of j limits elapsed reads none answers = absurd answers
answer_of j limits elapsed reads (some answer) answers = answer

module _ (j : Json) (limits : Limits) where
  abbrev pub decoded : ModelResponse → Result DecodeError Text
  decoded response =
      answer_of j limits response.elapsed response.reads _
        (decode-Answers j limits response.elapsed response.reads)

  -- From the head of the response on.
  unfoldable pub read_answer : ModelResponse → Result ModelError Text
  unfolding validate_status validate_content_type map_decode_error decode
  read_answer response = elim (validate_status response.status) [
    | err e ↦ err e
    | ok _ ↦ elim (validate_content_type response.content_type) [
      | err e ↦ err e
      | ok _ ↦ map_err map_decode_error (decoded response)
    ]
  ]

  module _ {ℓ} {W : Type ℓ} (transport : Transport W) where
    abbrev pub request_of : Text → Text → AuthorizedCredential → W → ModelRequest
    request_of instructions prompt credential w = record {
      headers = request_headers transport.package_version (correlation_id (transport.random w).0);
      body = request_body instructions prompt;
      credential = credential;
    }

    abbrev after_send : Result Bool ModelResponse × W → Result ModelError Text × W
    after_send (err timeout, w) = (err (map_request_error timeout), w)
    after_send (ok response, w) = (read_answer response, w)

    abbrev after_build :
        Text
        → Text
        → AuthorizedCredential
        → Result (Unit {0}) (Unit {0}) × W
        → Result ModelError Text × W
    after_build instructions prompt credential (err _, w) = (err unavailable, w)
    after_build instructions prompt credential (ok _, w) =
        after_send
          (transport.send (request_of instructions prompt credential w) (transport.random w).1)

    unfoldable pub model_call_with :
        Text → Text → AuthorizedCredential → W → Result ModelError Text × W
    unfolding request_body request_headers correlation_id read_answer map_request_error
    model_call_with instructions prompt credential w =
        after_build instructions prompt credential (transport.build w)

    module _ (libs : Libraries) (codec : Codec) (platform : Services W Text ModelError) where
      -- The services of the platform, with a model call as their operation.
      abbrev pub model_services : Text → Text → Services W Text ModelError
      model_services instructions prompt = record {
        read = platform.read;
        replace = platform.replace;
        unix_seconds = platform.unix_seconds;
        acquire = platform.acquire;
        release = platform.release;
        refresh = platform.refresh;
        operation = model_call_with instructions prompt;
        is_unauthorized = is_connection_rejected;
      }

      abbrev pub flattened :
          Result CredentialUseError (Result ModelError Text) → Result ModelError Text
      flattened (ok result) = result
      flattened (err e) = err (map_credential_use_error e)

      abbrev pub lend : Text → Text → State W → Result ModelError Text × State W
      lend instructions prompt s =
          let (result, s') =
            with_renewable_authorized_credential_from libs codec
              (model_services instructions prompt) s in
          (flattened result, s')

      unfoldable pub ask : Text → State W → Result ModelError Text × State W
      unfolding validate_prompt map_credential_use_error is_connection_rejected
      ask prompt s = elim (validate_prompt prompt) [
        | err e ↦ (err e, s)
        | ok _ ↦ lend ask_instructions prompt s
      ]

      unfoldable pub test_connection : State W → Result ModelError Text × State W
      unfolding map_credential_use_error is_connection_rejected
      test_connection s = lend test_instructions test_prompt s
