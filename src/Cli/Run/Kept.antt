-- ===== src/Cli/Run/Kept.antt =====
-- What an ask of main.rs has kept when it exits, and which failure one that fails keeps.
use rust_agent_harness.Prelude.{
  ℕ, ◌≡◌, ◌≢◌, ◌↔◌, refl, ap, false, Option, none, some, Result, ok, err, arith, inl, inr,
}
use rust_agent_harness.Text.{Bytes, Text}
use rust_agent_harness.Session.Format.{Codec, IsJsonCodec, FailureCode, diagnostic}
use rust_agent_harness.Session.Projection.{assistant, project}
use rust_agent_harness.Session.RoundTrip.{shown}
use rust_agent_harness.Session.Writer.{SessionWriter, append_assistant}
use rust_agent_harness.Session.Crash.{IsSession, append_assistant-Survives}
use rust_agent_harness.Session.Errors.{RollbackError}
use rust_agent_harness.Model.{ModelError, model_error_message}
use rust_agent_harness.Cli.Run.{
  Streams, Output, AskProbe, AskEnd, complete, run_ask, finish_ask, end_answered, end_failed,
  end_rolled_back, model_failure_code, exit_success, other_output_error, Completion, append_status,
  end_error,
}

-- The process exits successfully exactly when its status is a success and each stream was written,
-- or was closed by its reader.
pub complete_success_iff :
    (c : Completion)
    → (complete c ≡ exit_success) ↔ (
        (c.status ≡ exit_success)
        × (c.stdout ≢ err other_output_error)
        × (c.stderr ≢ err other_output_error))
unfolding complete
complete_success_iff c = (ground arith, ground arith)

-- No code for the error that is rolled back, and else a code with the message as its diagnostic.
abbrev pub Agrees : ModelError → Option FailureCode → Type 0
Agrees e none = e ≡ ModelError.invalid_prompt
Agrees e (some code) = diagnostic code ≡ model_error_message e

-- For every error of the model: only an invalid prompt has no failure code, so is rolled back; and
-- for all others the diagnostic that the session keeps is the message that the terminal shows.
pub model_failure_code-Agrees : (e : ModelError) → Agrees e (model_failure_code e)
unfolding model_failure_code diagnostic model_error_message
model_failure_code-Agrees ModelError.invalid_prompt = refl
model_failure_code-Agrees _ = refl

status_of_success : (c : Completion) → complete c ≡ exit_success → c.status ≡ exit_success
status_of_success c h = ((complete_success_iff c).0 h).0

end_rolled_back-fails :
    (streams : Streams) (out : Output) (content : Option Bytes)
    (r : Result RollbackError (Unit {0}))
    → (end_rolled_back streams out content r).completion.status ≢ exit_success
unfolding end_rolled_back
end_rolled_back-fails streams out content (ok t) h = absurd (cc h)
end_rolled_back-fails streams out content (err e) h = absurd (cc h)

module _ (c : Codec) (streams : Streams) (a : AskProbe) where
  end_error-fails :
      (w : SessionWriter) (out : Output) (e : ModelError) (code : Option FailureCode)
      → (end_error c streams a out w e code).completion.status ≢ exit_success
  unfolding end_error end_failed
  end_error-fails w out e none h = absurd (end_rolled_back-fails streams out _ _ h)
  end_error-fails w out e (some code) h = absurd (cc h)

module _ (c : Codec) (laws : IsJsonCodec c) {w : SessionWriter} {prompt : Text} {created : ℕ}
    (s : IsSession c w prompt created) (streams : Streams) (a : AskProbe) where
  -- The answer of the model is in the session's file.
  abbrev pub Keeps : Result ModelError Text → AskEnd → Type 0
  Keeps answer end =
      (t : Text) × (content : Bytes) × (answer ≡ ok t)
      × (end.content ≡ some content)
      × (project c content w.session_id
          ≡ ok (shown w.session_id created prompt (some (assistant t)) false))

  finish_ask-Keeps :
      (out : Output) (answer : Result ModelError Text)
      → complete (finish_ask c streams a out w answer).completion ≡ exit_success
      → Keeps answer (finish_ask c streams a out w answer)
  unfolding finish_ask end_answered
  finish_ask-Keeps out (ok t) h = elim (append_assistant-Survives c laws s a.append t) [
    | inl shows ↦ (t, (append_assistant c w a.append t).0, refl, refl, shows)
    | inr (trailing, shows, failed) ↦ absurd (cc (status_of_success _ h, ap append_status failed))
  ]
  finish_ask-Keeps out (err e) h =
      absurd (end_error-fails c streams a w out e (model_failure_code e) (status_of_success _ h))

  -- An ask that started a session, with its header and prompt in the file, and that exits
  -- successfully had an answer from the model; and
  -- whatever happened to the writes of the session's file and of the streams, the reader shows the
  -- session in that file with the prompt and exactly that answer.
  pub run_ask-Keeps :
      (out : Output)
      → a.start ≡ ok w
      → complete (run_ask c streams a out).completion ≡ exit_success
      → Keeps a.answer (run_ask c streams a out)
  unfolding run_ask
  run_ask-Keeps out started h = rw started (finish_ask-Keeps out a.answer (rw started at h))
