-- ===== src/Model/Tests.antt =====
-- A model call at concrete inputs.
use rust_agent_harness.Prelude.{ℕ, ◌≡◌, refl, ok, err, some, none, ◌∷◌, [], ◌↔◌}
use rust_agent_harness.Text.{
  Bytes, Text, text, eq_text, trim, trim_start, trim_end, is_whitespace, is_control, split, len,
  split_once, strip_prefix,
}
use rust_agent_harness.Text.Utf8.{utf8, from_utf8}
use rust_agent_harness.Model.{
  ModelError, connection_rejected, validate_prompt, validate_status, validate_content_type, true,
}
use rust_agent_harness.Model.Call.{Transport, ask, model_call_with, read_answer, ask_instructions}
use rust_agent_harness.Model.Call.Refused.{IsRefused, model_call_with-IsRefused}
use rust_agent_harness.Model.Call.Answered.{Asked, ask-Asked}
use rust_agent_harness.Auth.Run.{State}
use rust_agent_harness.Auth.Flow.{
  Services, with_renewable_authorized_credential_from, read_renewable_record, first_attempt,
  authorized_credential,
}
use rust_agent_harness.Auth.Credential.Claims.{
  is_blank, valid_header_component, decode_jwt_payload, payload_segment, account_id, disagrees,
  filled,
}
use rust_agent_harness.Auth.Credential.Record.{deserialize_structural, refresh_due}
use rust_agent_harness.Auth.Tests.Samples.{libs, codec, record_of, toy_get, refresh_response}
use rust_agent_harness.Sse.Tests.{toy, small, ticking, once, toy_event, toy_str}
use rust_agent_harness.Sse.Loop.{decode, read_step}
use rust_agent_harness.Sse.Lines.{
  process_chunk, process_byte, process_line, pop_carriage_return, end_event, field_line,
}
use rust_agent_harness.Sse.Dispatch.{dispatch}

-- The world is the credential store.
abbrev platform : Services Bytes Text ModelError
platform = record {
  read = λ w. (ok (some w), w);
  replace = λ b w. (ok tt, b);
  unix_seconds = λ w. (1000, w);
  acquire = λ w. (ok tt, w);
  release = λ w. w;
  refresh = λ token w. (ok refresh_response, w);
  operation = λ credential w. (err connection_rejected, w);
  is_unauthorized = λ e. true;
}

abbrev answering : ℕ → Transport Bytes
answering status = record {
  build = λ w. (ok tt, w);
  random = λ w. (1 ∷ 255 ∷ [], w);
  send = λ request w.
      (ok (record { status = status; content_type = none; elapsed = ticking; reads = once }), w);
  package_version = text "0.1.0";
}

abbrev start : State Bytes
start = record { world = b's' ∷ []; calls = [] }

model_call_with-IsRefused_example :
    ((model_call_with toy small
        (answering 401)
        ask_instructions
        (text "hi")
        (record { access_token = text "t"; account_id = text "a" })
        []).0
      ≡ err connection_rejected)
    ↔ IsRefused toy small
        (answering 401)
        ask_instructions
        (text "hi")
        (record { access_token = text "t"; account_id = text "a" })
        []
model_call_with-IsRefused_example =
    model_call_with-IsRefused toy small (answering 401) ask_instructions (text "hi")
      (record { access_token = text "t"; account_id = text "a" }) []

ask-answers :
    (ask toy small (answering 200) libs codec platform (text "hi") start).0 ≡ ok (text "hi")
unfolding ask model_call_with read_answer validate_status validate_content_type validate_prompt
    with_renewable_authorized_credential_from read_renewable_record first_attempt
    authorized_credential deserialize_structural refresh_due record_of is_blank trim trim_start
    trim_end is_whitespace decode_jwt_payload payload_segment split account_id filled disagrees
    valid_header_component is_control text eq_text toy_get decode read_step process_chunk
    process_byte process_line pop_carriage_return end_event field_line dispatch split_once
    strip_prefix utf8 from_utf8 len toy_str toy_event rust_agent_harness.Sse.Tests.toy_get
ask-answers = refl

ask-Asked_example :
    Asked toy small
      (answering 200)
      libs
      codec
      platform
      (text "hi")
      (text "hi")
      (ask toy small (answering 200) libs codec platform (text "hi") start).1
ask-Asked_example =
    ask-Asked toy small (answering 200) libs codec platform (text "hi") start (text "hi")
      ask-answers
