-- ===== src/Model/Call/Refused.antt =====
-- When a model call of crates/openai-codex-model/src/lib.rs is refused as unauthorized.
use rust_agent_harness.Model.Statuses.{validate_status_classes}
use rust_agent_harness.Model.Call.{
  Transport, request_of, model_call_with, map_request_error, ModelResponse, read_answer, decoded,
  AuthorizedCredential,
}
use rust_agent_harness.Json.{Json}
use rust_agent_harness.Prelude.{
  ◌≢◌, arith, none, some, Bool, true, false, ◌≡◌, Result-cases, inr, inl, sym, ◌∙◌, ◌↔◌, refl,
}
use rust_agent_harness.Sse.State.{
  DecodeError, invalid, limit_exceeded, timed_out, model_failed, empty_text, Limits,
}
use rust_agent_harness.Model.{
  connection_rejected, map_decode_error, validate_content_type, Option, Text, err, some,
  unavailable, ok, Result, ModelError, validate_status,
}

err-injective : {e f : ModelError} → Path (Result ModelError Text) (err e) (err f) → e ≡ f
err-injective h = cc

unavailable-other : unavailable ≢ connection_rejected
unavailable-other h = ground arith

map_decode_error-other : (e : DecodeError) → map_decode_error e ≢ connection_rejected
unfolding map_decode_error
map_decode_error-other invalid h = ground arith
map_decode_error-other limit_exceeded h = ground arith
map_decode_error-other timed_out h = ground arith
map_decode_error-other model_failed h = ground arith
map_decode_error-other empty_text h = ground arith

validate_content_type-other :
    (content_type : Option Text) → validate_content_type content_type ≢ err connection_rejected
unfolding validate_content_type
validate_content_type-other none h = ground arith
validate_content_type-other (some t) h = ground arith

module _ (j : Json) (limits : Limits) where
  read_answer-refused :
      (response : ModelResponse)
      → read_answer j limits response ≡ err connection_rejected
      → response.status ≡ 401
  unfolding read_answer
  read_answer-refused response h = elim (Result-cases (validate_status response.status)) [
    | inr (e, k) ↦ (validate_status_classes response.status).1.0 (ground arith)
    | inl (done, k) ↦ elim (Result-cases (validate_content_type response.content_type)) [
      | inr (e, l) ↦ absurd (validate_content_type-other response.content_type (ground arith))
      | inl (plain, l) ↦ elim (Result-cases (decoded j limits response)) [
        | inl (t, d) ↦ absurd (ground arith)
        | inr (e, d) ↦ absurd (map_decode_error-other e (ground arith))
      ]
    ]
  ]

  module _ {ℓ} {W : Type ℓ} (transport : Transport W) (instructions prompt : Text)
      (credential : AuthorizedCredential) where
    -- What the transport answers to a call: the built client, and the response to its request.
    abbrev pub built : W → Result (Unit {0}) (Unit {0})
    built w = (transport.build w).0

    abbrev pub answer_to : W → Result Bool ModelResponse
    answer_to w =
        let w' = (transport.build w).1 in
        (transport.send (request_of j limits transport instructions prompt credential w')
          (transport.random w').1).0

    -- A response with the status 401 to the request.
    pub record IsRefused (w : W) : Type ℓ where
      pub response : ModelResponse
      pub has_client : built w ≡ ok tt
      pub answered : answer_to w ≡ ok response
      pub unauthorized : response.status ≡ 401

    abbrev result_at : W → Result ModelError Text
    result_at w = (model_call_with j limits transport instructions prompt credential w).0

    pub result-unbuilt : (w : W) (e : Unit {0}) → built w ≡ err e → result_at w ≡ err unavailable
    unfolding model_call_with
    result-unbuilt w e h = ground arith

    pub result-unsent :
        (w : W) (timeout : Bool)
        → built w ≡ ok tt
        → answer_to w ≡ err timeout
        → result_at w ≡ err (map_request_error timeout)
    unfolding model_call_with
    result-unsent w timeout h k = ground arith

    pub result-read :
        (w : W) (response : ModelResponse)
        → built w ≡ ok tt
        → answer_to w ≡ ok response
        → result_at w ≡ read_answer j limits response
    unfolding model_call_with
    result-read w response h k = ground arith

    map_request_error-other : (timeout : Bool) → map_request_error timeout ≢ connection_rejected
    unfolding map_request_error
    map_request_error-other true h = ground arith
    map_request_error-other false h = ground arith

    read_answer-unauthorized :
        (response : ModelResponse)
        → response.status ≡ 401
        → read_answer j limits response ≡ err connection_rejected
    unfolding read_answer
    read_answer-unauthorized response h =
        rw ((validate_status_classes response.status).1.1 h, read_answer) refl

    IsRefused-result_at : (w : W) → IsRefused w → result_at w ≡ err connection_rejected
    IsRefused-result_at w found =
        result-read w found.response found.has_client found.answered
        ∙ read_answer-unauthorized found.response found.unauthorized

    result_at-IsRefused : (w : W) → result_at w ≡ err connection_rejected → IsRefused w
    result_at-IsRefused w h = elim (Result-cases (built w)) [
      | inr (e, k) ↦ absurd (unavailable-other (err-injective (sym (result-unbuilt w e k) ∙ h)))
      | inl (client, k) ↦ elim (Result-cases (answer_to w)) [
        | inr (timeout, l) ↦ absurd (
            map_request_error-other timeout (err-injective (sym (result-unsent w timeout k l) ∙ h)))
        | inl (response, l) ↦ record {
          response = response;
          has_client = k;
          answered = l;
          unauthorized = read_answer-refused response (sym (result-read w response k l) ∙ h);
        }
      ]
    ]

    -- A call is refused as unauthorized exactly when its client could be built and its request
    -- was answered by a response with the status 401.
    pub model_call_with-IsRefused :
        (w : W)
        → ((model_call_with j limits transport instructions prompt credential w).0
            ≡ err connection_rejected)
          ↔ IsRefused w
    model_call_with-IsRefused w = (result_at-IsRefused w, IsRefused-result_at w)
