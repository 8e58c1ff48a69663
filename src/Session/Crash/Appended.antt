-- ===== src/Session/Crash/Appended.antt =====
-- What a session's file shows after an append that anything may interrupt, file.rs.
use rust_agent_harness.Prelude.{
  ℕ, ◌+◌, ◌≤◌, ◌≡◌, refl, ap, Bool, false, not, none, some, [], ◌++◌, Result, ok, err, arith,
  length, length-append, ◌⊎◌, inl, inr, take, Result-cases, append-nil, Bool-cases, ltb, ◌==◌,
  if◌then◌else◌,
}
use rust_agent_harness.Text.{Bytes, Text, eq_text_iff}
use rust_agent_harness.Session.Format.{
  Codec, IsJsonCodec, LogRecord, FailureCode, serialize_line, max_session_bytes,
}
use rust_agent_harness.Session.Projection.{
  project, ProjectedTerminal, assistant, failure, project_terminal,
}
use rust_agent_harness.Session.RoundTrip.{
  IsNewId, shown, project_interrupted, project-torn, project_terminal_assistant,
  project_terminal_failure,
}
use rust_agent_harness.Session.Errors.{AppendError, append_store_unavailable}
use rust_agent_harness.Session.Writer.{
  AppendProbe, SessionWriter, append_terminal, terminal_record, append_built, append_assistant,
  append_failure, append_line, refuses_line, append_record,
}
use rust_agent_harness.Session.Crash.Started.{IsSession}

-- The entry that the appender made, under an identifier of its own.
terminal_record-ok :
    (w : SessionWriter) (p : AppendProbe) (build : Text → ℕ → LogRecord) (r : LogRecord)
    → terminal_record w p build ≡ ok r
    → (r ≡ build p.entry_id p.timestamp)
      × IsNewId p.entry_id w.session_id w.user_entry_id w.operation_id
unfolding terminal_record
terminal_record-ok w p build r h = (
  ground arith,
  record {
    valid = ground arith;
    session = λ e. ground (arith, (eq_text_iff p.entry_id w.session_id).1 e);
    user_entry = λ e. ground (arith, (eq_text_iff p.entry_id w.user_entry_id).1 e);
    operation = λ e. ground (arith, (eq_text_iff p.entry_id w.operation_id).1 e);
  },
)

only_store_unavailable : (e : AppendError) → e ≡ append_store_unavailable
only_store_unavailable append_store_unavailable = refl

module _ (c : Codec) (laws : IsJsonCodec c) {w : SessionWriter} {prompt : Text} {created : ℕ}
    (s : IsSession c w prompt created) where
  -- What is left of a session when a terminal was to be appended to it: the file shows the
  -- session with the terminal; or without it, and then the call has failed.
  abbrev pub Survives : ProjectedTerminal → Bytes × Result AppendError (Unit {0}) → Type 0
  Survives t end =
      (project c end.0 w.session_id ≡ ok (shown w.session_id created prompt (some t) false))
      ⊎ ((trailing : Bool) × (project c end.0 w.session_id
            ≡ ok (shown w.session_id created prompt none trailing))
          × (end.1 ≡ err append_store_unavailable))

  unchanged-Survives :
      (t : ProjectedTerminal) → Survives t (w.content, err append_store_unavailable)
  unchanged-Survives t = inr (
    false,
    rw (s.content, ← append-nil (s.header_line ++ s.user_line))
        (project_interrupted c laws s.ids created s.user_timestamp s.working_directory
          s.harness_version prompt s.header_written s.user_written [] tt (rw append-nil s.fits)),
    refl,
  )

  module _ (p : AppendProbe) (r : LogRecord) (t : ProjectedTerminal)
      (projects : project_terminal (some r) w.session_id w.user_entry_id w.operation_id
        ≡ ok (some t)) where
    -- The file after a write of `p.written` bytes of the line.
    torn_shows :
        (line : Bytes)
        → serialize_line c r ≡ ok line
        → refuses_line w p line ≡ false
        → project c (w.content ++ take p.written line) w.session_id
          ≡ ok (
              if ltb p.written (length line)
              then shown w.session_id created prompt none (not (p.written == 0))
              else shown w.session_id created prompt (some t) false)
    torn_shows line written accepted =
        let room : length w.content + length line ≤ max_session_bytes = ground arith in
        let fits : length (s.header_line ++ s.user_line ++ line) ≤ max_session_bytes =
          omega (arith, length-append (s.header_line ++ s.user_line) line, ap length s.content) in
        rw s.content (
          project-torn c laws s.ids created s.user_timestamp s.working_directory s.harness_version
            prompt s.header_written s.user_written r t projects written p.written fits)

    append_line-Survives :
        (line : Bytes) → serialize_line c r ≡ ok line → Survives t (append_line w p (ok line))
    unfolding append_line
    append_line-Survives line written = elim (Bool-cases (refuses_line w p line)) [
      | inl refused ↦ rw refused (unchanged-Survives t)
      | inr accepted ↦
          let shows = torn_shows line written accepted in
          elim (Bool-cases (ltb p.written (length line))) [
            | inl part ↦ rw (accepted, part) (inr (not (p.written == 0), rw part at shows, refl))
            | inr whole ↦ rw (accepted, whole) (inl (rw whole at shows))
          ]
    ]

    append_terminal-Survives : Survives t (append_terminal c w p r)
    unfolding append_terminal
    append_terminal-Survives = elim (Result-cases (serialize_line c r)) [
      | inr (e, n) ↦ rw (n, append_line) (unchanged-Survives t)
      | inl (line, written) ↦ rw written (append_line-Survives line written)
    ]

  append_built-Survives :
      (p : AppendProbe) (build : Text → ℕ → LogRecord) (t : ProjectedTerminal)
      → ((id : Text) (time : ℕ)
          → IsNewId id w.session_id w.user_entry_id w.operation_id
          → project_terminal (some (build id time)) w.session_id w.user_entry_id w.operation_id
            ≡ ok (some t))
      → Survives t (append_built c w p build)
  unfolding append_built
  append_built-Survives p build t projects = elim (Result-cases (terminal_record w p build)) [
    | inr (e, n) ↦ rw (n, append_record, only_store_unavailable e) (unchanged-Survives t)
    | inl (r, n) ↦
        let (made, new) = terminal_record-ok w p build r n in
        rw (n, append_record)
          (append_terminal-Survives p r t (rw made (projects p.entry_id p.timestamp new)))
  ]

  -- For a file that holds a started session, and whatever happens to the one call that appends the
  -- answer (an identifier refused, a file replaced, a write that stops at any byte, a sync that
  -- fails): the reader shows the session with its prompt; with the answer whenever the call
  -- reports success, and otherwise either with the answer or as interrupted.
  pub append_assistant-Survives :
      (p : AppendProbe) (answer : Text)
      → Survives (assistant answer) (append_assistant c w p answer)
  unfolding append_assistant
  append_assistant-Survives p answer =
      append_built-Survives p _ (assistant answer)
        (λ id time new. project_terminal_assistant id answer time new)

  -- For a file that holds a started session, and whatever happens to the one call that appends a
  -- failure: the reader shows the session with its prompt; with the failure whenever the call
  -- reports success, and otherwise either with the failure or as interrupted.
  pub append_failure-Survives :
      (p : AppendProbe) (code : FailureCode) → Survives (failure code) (append_failure c w p code)
  unfolding append_failure
  append_failure-Survives p code =
      append_built-Survives p _ (failure code)
        (λ id time new. project_terminal_failure id time code new)
