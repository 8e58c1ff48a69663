-- ===== src/Model/Call/Answered.antt =====
-- Where an answer of `ask`, crates/openai-codex-model/src/lib.rs, comes from.
use mathlib.Core.Path.{subst}
use rust_agent_harness.Prelude.{
  ◌≡◌, ◌≤◌, ◌<◌, refl, inl, inr, Option, none, some, Result, ok, err, arith, Result-cases, sym, ◌∙◌,
  ap, false, ◌∷◌, map,
}
use rust_agent_harness.Text.{Text, to_ascii_lowercase, trim, text, eq_text_iff}
use rust_agent_harness.Json.{Json}
use rust_agent_harness.Sse.State.{DecodeError, Limits}
use rust_agent_harness.Sse.Loop.{decode}
use rust_agent_harness.Sse.Bounds.{IsAnswer}
use rust_agent_harness.Sse.Decode.{Answers, decode-Answers}
use rust_agent_harness.Model.{
  ModelError, validate_status, validate_content_type, validate_prompt, media_type,
}
use rust_agent_harness.Model.Statuses.{validate_status_classes}
use rust_agent_harness.Auth.Credential.Claims.{Libraries}
use rust_agent_harness.Auth.Credential.Record.{Codec}
use rust_agent_harness.Auth.Errors.{CredentialUseError}
use rust_agent_harness.Auth.Run.{AuthorizedCredential, State, operated}
use rust_agent_harness.Auth.Flow.{Services}
use rust_agent_harness.Auth.Flow.Answer.{flow-IsAnswer}
use rust_agent_harness.Model.Call.Refused.{
  built, answer_to, result-unbuilt, result-unsent, result-read,
}
use rust_agent_harness.Model.Call.{
  Transport, ModelResponse, read_answer, decoded, answer_of, model_call_with, ask, model_services,
  ask_instructions, flattened, lend,
}

ok-injective : {a b : Text} → Path (Result DecodeError Text) (ok a) (ok b) → a ≡ b
ok-injective h = cc

err-is-no-ok : {e : ModelError} {a : Text} → Path (Result ModelError Text) (err e) (ok a) → ⊥
err-is-no-ok h = cc

module _ (j : Json) (limits : Limits) where
  -- What the decoder answers, and what is known of it.
  abbrev Decodes : ModelResponse → Text → Type 0
  Decodes response answer =
      (decode j limits response.elapsed response.reads ≡ some (ok answer))
      × IsAnswer limits.text_bytes answer

  Decodes-found :
      (response : ModelResponse) (answer : Text) (found : Option (Result DecodeError Text))
      → decode j limits response.elapsed response.reads ≡ found
      → (answers : Answers j limits response.elapsed response.reads found)
      → answer_of j limits response.elapsed response.reads found answers ≡ ok answer
      → Decodes response answer
  Decodes-found response answer none e answers h = absurd answers
  Decodes-found response answer (some (ok t)) e answers h =
      let same : t ≡ answer = ok-injective h in
      (e ∙ ap (λ x. some (ok x)) same, subst (IsAnswer limits.text_bytes) same answers)
  Decodes-found response answer (some (err f)) e answers h = absurd (ground arith)

  -- No content type that can be read, or the media type of an event stream in any letter case.
  abbrev pub MayBeEventStream : Option Text → Type 0
  MayBeEventStream none = Unit
  MayBeEventStream (some value) =
      map to_ascii_lowercase (trim (media_type value)) ≡ text "text/event-stream"

  validate_content_type-ok :
      (content_type : Option Text)
      → validate_content_type content_type ≡ ok tt
      → MayBeEventStream content_type
  unfolding validate_content_type
  validate_content_type-ok none h = tt
  validate_content_type-ok (some value) h = ground (
    arith,
    eq_text_iff (map to_ascii_lowercase (trim (media_type value))) (text "text/event-stream"),
  )

  -- A response of success with an answer.
  pub record Answering (response : ModelResponse) (answer : Text) : Type 0 where
    pub success : (200 ≤ response.status) × (response.status < 300)
    pub event_stream : MayBeEventStream response.content_type
    pub decodes : decode j limits response.elapsed response.reads ≡ some (ok answer)
    pub bounded : IsAnswer limits.text_bytes answer

  read_answer-Answering :
      (response : ModelResponse) (answer : Text)
      → read_answer j limits response ≡ ok answer
      → Answering response answer
  unfolding read_answer
  read_answer-Answering response answer h = elim (Result-cases (validate_status response.status)) [
    | inr (e, k) ↦ absurd (ground arith)
    | inl (done, k) ↦ elim (Result-cases (validate_content_type response.content_type)) [
      | inr (e, l) ↦ absurd (ground arith)
      | inl (plain, l) ↦ elim (Result-cases (decoded j limits response)) [
        | inr (e, d) ↦ absurd (ground arith)
        | inl (t, d) ↦
            let (decodes, bounded) =
              Decodes-found response answer _ refl
                (decode-Answers j limits response.elapsed response.reads) (ground arith) in
            record {
              success = (validate_status_classes response.status).0.0 k;
              event_stream = validate_content_type-ok response.content_type l;
              decodes = decodes;
              bounded = bounded;
            }
      ]
    ]
  ]

  module _ {ℓ} {W : Type ℓ} (transport : Transport W) where
    -- A call whose request a response of success answers.
    pub record Sent (instructions prompt : Text) (credential : AuthorizedCredential) (w : W)
        (answer : Text) : Type ℓ where
      pub response : ModelResponse
      pub has_client : built j limits transport instructions prompt credential w ≡ ok tt
      pub answered : answer_to j limits transport instructions prompt credential w ≡ ok response
      pub answering : Answering response answer

    model_call_with-Sent :
        (instructions prompt : Text) (credential : AuthorizedCredential) (w : W) (answer : Text)
        → (model_call_with j limits transport instructions prompt credential w).0 ≡ ok answer
        → Sent instructions prompt credential w answer
    model_call_with-Sent instructions prompt credential w answer h =
        elim (Result-cases (built j limits transport instructions prompt credential w)) [
          | inr (e, k) ↦ absurd (
              err-is-no-ok
                (sym (result-unbuilt j limits transport instructions prompt credential w e k) ∙ h))
          | inl (client, k) ↦
              elim (Result-cases (answer_to j limits transport instructions prompt credential w)) [
                | inr (timeout, l) ↦ absurd (
                    err-is-no-ok (
                      sym (
                        result-unsent j limits transport instructions prompt credential w timeout k
                          l)
                      ∙ h))
                | inl (response, l) ↦ record {
                  response = response;
                  has_client = k;
                  answered = l;
                  answering = read_answer-Answering response answer (
                      sym (
                        result-read j limits transport instructions prompt credential w response k
                          l)
                      ∙ h);
                }
              ]
        ]

    module _ (libs : Libraries) (codec : Codec) (platform : Services W Text ModelError) where
      -- The ask ends in this state, after a call of the model with the prompt and this answer,
      -- which was its last call.
      pub record Asked (prompt : Text) (answer : Text) (after : State W) : Type ℓ where
        pub valid : validate_prompt prompt ≡ ok tt
        pub credential : AuthorizedCredential
        pub before : State W
        pub request_sent : Sent ask_instructions prompt credential before.world answer
        pub left :
            (model_call_with j limits transport ask_instructions prompt credential before.world).1
            ≡ after.world
        pub last : after.calls ≡ operated credential false ∷ before.calls

      flattened-ok :
          (result : Result CredentialUseError (Result ModelError Text)) (answer : Text)
          → flattened j limits transport libs codec platform result ≡ ok answer
          → result ≡ ok (ok answer)
      flattened-ok (ok result) answer h = ap ok h
      flattened-ok (err e) answer h = absurd (err-is-no-ok h)

      lend-Asked :
          (prompt : Text) (s : State W) (answer : Text)
          → validate_prompt prompt ≡ ok tt
          → (lend j limits transport libs codec platform ask_instructions prompt s).0 ≡ ok answer
          → Asked prompt answer
              (lend j limits transport libs codec platform ask_instructions prompt s).1
      lend-Asked prompt s answer valid h =
          let from =
            flow-IsAnswer libs codec
              (model_services j limits transport libs codec platform ask_instructions prompt) s
              answer (flattened-ok _ answer h) in
          record {
            valid = valid;
            credential = from.credential;
            before = from.before;
            request_sent =
                model_call_with-Sent ask_instructions prompt from.credential from.before.world
                  answer (ap (λ outcome. outcome.0) from.gave);
            left = ap (λ outcome. outcome.1) from.gave;
            last = from.last;
          }

      ask-valid :
          (prompt : Text) (s : State W)
          → validate_prompt prompt ≡ ok tt
          → ask j limits transport libs codec platform prompt s
            ≡ lend j limits transport libs codec platform ask_instructions prompt s
      unfolding ask
      ask-valid prompt s h = ground arith

      ask-invalid :
          (prompt : Text) (s : State W) (e : ModelError)
          → validate_prompt prompt ≡ err e
          → (ask j limits transport libs codec platform prompt s).0 ≡ err e
      unfolding ask
      ask-invalid prompt s e h = ground arith

      -- An ask that answers had a valid prompt. Its last call lent a credential to a call of the
      -- model, which left the state that the ask ends in. The request of that call had the prompt
      -- and the credential and was answered by a response of success, with no content type that
      -- can be read or that of an event stream; the answer is what the decoder made of its body,
      -- is not empty and within the limit.
      pub ask-Asked :
          (prompt : Text) (s : State W) (answer : Text)
          → (ask j limits transport libs codec platform prompt s).0 ≡ ok answer
          → Asked prompt answer (ask j limits transport libs codec platform prompt s).1
      ask-Asked prompt s answer h = elim (Result-cases (validate_prompt prompt)) [
        | inr (e, k) ↦ absurd (err-is-no-ok (sym (ask-invalid prompt s e k) ∙ h))
        | inl (done, k) ↦
            subst (λ outcome. Asked prompt answer outcome.1) (sym (ask-valid prompt s k))
              (lend-Asked prompt s answer k (ap (λ r. r.0) (sym (ask-valid prompt s k)) ∙ h))
      ]
