-- ===== src/Session/RoundTrip/Project.antt =====
-- The files that a writer of file.rs leaves behind, read by `project` of projection.rs.
use rust_agent_harness.Prelude.{
  ℕ, ◌≤◌, ◌≡◌, ◌≢◌, refl, Bool, true, false, not, Option, none, some, List, [], ◌∷◌, ◌++◌, ok,
  arith, length, is_empty, get_elem?, leb, ltb, Bool-cases, inl, inr, ◌==◌, if◌then◌else◌, take,
  length-take-le, take-append_le, All-take, take_all, append-nil, zero, suc, length-append, ◌<◌, ap,
}
use rust_agent_harness.Text.{Bytes, Text, eq_text, eq_text_iff, text, len}
use rust_agent_harness.Text.Utf8.{Lacks}
use rust_agent_harness.Session.Format.{
  Codec, IsJsonCodec, LogRecord, FailureCode, diagnostic, header, user_entry, assistant_entry,
  failure_entry, serialize_line, max_session_bytes, unsupported_platform, max_diagnostic_bytes,
}
use rust_agent_harness.Session.Projection.{
  ShowResult, ProjectedTerminal, assistant, failure, status_of, valid_id, project_terminal,
  project_records, project,
}
use rust_agent_harness.Session.RoundTrip.Parse.{
  serialize_line-IsLine, parse_records_two, parse_records_three,
}

-- The identifiers that a session starts with.
pub record AreIds (session_id user_entry_id operation_id : Text) : Type 0 where
  pub session : valid_id session_id ≡ true
  pub user_entry : valid_id user_entry_id ≡ true
  pub operation : valid_id operation_id ≡ true
  pub session_ne_user : session_id ≢ user_entry_id
  pub session_ne_operation : session_id ≢ operation_id
  pub user_ne_operation : user_entry_id ≢ operation_id

-- What the reader shows of a session.
abbrev pub shown : Text → ℕ → Text → Option ProjectedTerminal → Bool → ShowResult
shown session_id created_at prompt terminal trailing = record {
  projection = record {
    session_id = session_id;
    created_at_unix_ms = created_at;
    prompt = prompt;
    status = status_of terminal;
    terminal = terminal;
  };
  trailing_fragment = trailing;
}

-- An identifier of the terminal entry.
pub record IsNewId (id session_id user_entry_id operation_id : Text) : Type 0 where
  pub valid : valid_id id ≡ true
  pub session : id ≢ session_id
  pub user_entry : id ≢ user_entry_id
  pub operation : id ≢ operation_id

eq_text-ne : (a b : Text) → a ≢ b → eq_text a b ≡ false
eq_text-ne a b ne = ground (arith, eq_text_iff a b)

pub eq_text_refl : (a : Text) → eq_text a a ≡ true
eq_text_refl a = (eq_text_iff a a).1 refl

module _ {sid uid oid : Text} (ids : AreIds sid uid oid) where
  project_records-ids :
      (created time : ℕ) (wd : Option Text) (version prompt : Text) (rest : List LogRecord)
      (terminal : Option ProjectedTerminal) (trailing : Bool)
      → project_terminal (get_elem? rest 0) sid uid oid ≡ ok terminal
      → project_records
          (header sid created wd version ∷ user_entry uid time oid prompt ∷ rest)
          trailing
          sid
        ≡ ok (shown sid created prompt terminal trailing)
  unfolding project_records header user_entry
  project_records-ids created time wd version prompt rest terminal trailing h = ground (
    arith,
    h,
    eq_text_refl sid,
    eq_text-ne sid uid ids.session_ne_user,
    eq_text-ne sid oid ids.session_ne_operation,
    eq_text-ne uid oid ids.user_ne_operation,
  )

-- Every diagnostic fits the reader's bound.
len-diagnostic-le : (code : FailureCode) → leb (len (diagnostic code)) max_diagnostic_bytes ≡ true
unfolding diagnostic len text
len-diagnostic-le unsupported_platform = refl
len-diagnostic-le _ = refl

module _ {sid uid oid : Text} where
  pub project_terminal_assistant :
      (id answer : Text) (time : ℕ)
      → IsNewId id sid uid oid
      → project_terminal (some (assistant_entry id uid time oid answer)) sid uid oid
        ≡ ok (some (assistant answer))
  unfolding project_terminal assistant_entry
  project_terminal_assistant id answer time new = ground (
    arith,
    eq_text_refl uid,
    eq_text_refl oid,
    eq_text-ne id sid new.session,
    eq_text-ne id uid new.user_entry,
    eq_text-ne id oid new.operation,
  )

  pub project_terminal_failure :
      (id : Text) (time : ℕ) (code : FailureCode)
      → IsNewId id sid uid oid
      → project_terminal (some (failure_entry id uid time oid code)) sid uid oid
        ≡ ok (some (failure code))
  unfolding project_terminal failure_entry
  project_terminal_failure id time code new = ground (
    arith,
    len-diagnostic-le code,
    eq_text_refl (diagnostic code),
    eq_text_refl uid,
    eq_text_refl oid,
    eq_text-ne id sid new.session,
    eq_text-ne id uid new.user_entry,
    eq_text-ne id oid new.operation,
  )

module _ (c : Codec) (laws : IsJsonCodec c) {sid uid oid : Text} (ids : AreIds sid uid oid)
    (created time : ℕ) (wd : Option Text) (version prompt : Text) {header_line user_line : Bytes}
    (header_written : serialize_line c (header sid created wd version) ≡ ok header_line)
    (user_written : serialize_line c (user_entry uid time oid prompt) ≡ ok user_line) where
  -- A file of the two first lines and a last line without its newline.
  pub project_interrupted :
      (fragment : Bytes)
      → Lacks b'\n' fragment
      → length (header_line ++ user_line ++ fragment) ≤ max_session_bytes
      → project c (header_line ++ user_line ++ fragment) sid
        ≡ ok (shown sid created prompt none (not (is_empty fragment)))
  unfolding project project_terminal
  project_interrupted fragment l fits =
      let (b₁, e₁, l₁) =
        serialize_line-IsLine c laws (header sid created wd version) header_written in
      let (b₂, e₂, l₂) =
        serialize_line-IsLine c laws (user_entry uid time oid prompt) user_written in
      let fits' : length ((b₁ ++ b'\n' ∷ []) ++ (b₂ ++ b'\n' ∷ []) ++ fragment)
          ≤ max_session_bytes =
        rw (← e₁, ← e₂) fits in
      rw (e₁, e₂, parse_records_two c _ _ b₁ b₂ fragment l₁ l₂ l fits')
        (project_records-ids ids created time wd version prompt [] none (not (is_empty fragment))
          refl)

  module _ (r : LogRecord) (t : ProjectedTerminal) {line : Bytes}
      (projects : project_terminal (some r) sid uid oid ≡ ok (some t))
      (written : serialize_line c r ≡ ok line) where
    -- A file of all three lines and more bytes with no newline.
    pub project_terminated :
        (fragment : Bytes)
        → Lacks b'\n' fragment
        → length (header_line ++ user_line ++ line ++ fragment) ≤ max_session_bytes
        → project c (header_line ++ user_line ++ line ++ fragment) sid
          ≡ ok (shown sid created prompt (some t) (not (is_empty fragment)))
    unfolding project
    project_terminated fragment l fits =
        let (b₁, e₁, l₁) =
          serialize_line-IsLine c laws (header sid created wd version) header_written in
        let (b₂, e₂, l₂) =
          serialize_line-IsLine c laws (user_entry uid time oid prompt) user_written in
        let (b₃, e₃, l₃) = serialize_line-IsLine c laws r written in
        let fits' : length
              ((b₁ ++ b'\n' ∷ []) ++ (b₂ ++ b'\n' ∷ []) ++ (b₃ ++ b'\n' ∷ []) ++ fragment)
            ≤ max_session_bytes =
          rw (← e₁, ← e₂, ← e₃) fits in
        rw (e₁, e₂, e₃, parse_records_three c _ _ r b₁ b₂ b₃ fragment l₁ l₂ l₃ l fits')
          (project_records-ids ids created time wd version prompt (r ∷ []) (some t)
            (not (is_empty fragment)) projects)

    -- What the reader shows when the first `n` bytes of the third line reached the file.
    abbrev torn : ℕ → ShowResult
    torn n =
        if ltb n (length line)
        then shown sid created prompt none (not (n == 0))
        else shown sid created prompt (some t) false

    torn_fits :
        (n : ℕ)
        → length (header_line ++ user_line ++ line) ≤ max_session_bytes
        → length (header_line ++ user_line ++ take n line) ≤ max_session_bytes
    torn_fits n fits = omega (
      arith,
      length-append (header_line ++ user_line) line,
      length-append (header_line ++ user_line) (take n line),
      length-take-le n line,
    )

    -- A proper part of a line is a part of its record.
    torn-Lacks : (n : ℕ) → n < length line → Lacks b'\n' (take n line)
    torn-Lacks n part =
        let (b, e, l) = serialize_line-IsLine c laws r written in
        let short : n ≤ length b = omega (arith, ap length e, length-append b (b'\n' ∷ [])) in
        rw (e, take-append_le n b (b'\n' ∷ []) short)
          (All-take (λ (x : ℕ). x ≢ b'\n') n b l.one_line)

    torn-is_empty : (n : ℕ) → n < length line → is_empty (take n line) ≡ (n == 0)
    torn-is_empty zero part = refl
    torn-is_empty (suc n) part = ground arith

    -- However many bytes of the terminal line reached the file, the reader opens it: with a
    -- proper part of the line it shows an interrupted session with the prompt, and a trailing
    -- fragment unless the part is empty; with the whole line it shows the terminal.
    pub project-torn :
        (n : ℕ)
        → length (header_line ++ user_line ++ line) ≤ max_session_bytes
        → project c (header_line ++ user_line ++ take n line) sid ≡ ok (torn n)
    project-torn n fits = elim (Bool-cases (ltb n (length line))) [
      | inl part ↦
          let short : n < length line = ground arith in
          rw (
            part,
            project_interrupted (take n line) (torn-Lacks n short) (torn_fits n fits),
            torn-is_empty n short,
          )
      | inr whole ↦
          let all_written : length line ≤ n = ground arith in
          rw (whole, take_all n line all_written, ← append-nil (header_line ++ user_line ++ line))
            (project_terminated [] tt (rw append-nil fits))
    ]
