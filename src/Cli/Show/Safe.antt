-- ===== src/Cli/Show/Safe.antt =====
-- The output of `render_session`, main.rs, as a terminal sees it.
use rust_agent_harness.Session.Inspect.Reads.{show-ok}
use rust_agent_harness.Session.Inspect.{Location, InspectProbe, show}
use rust_agent_harness.Cli.Render.{render_model_text}
use rust_agent_harness.Session.Format.{diagnostic, Codec, LogRecord}
use rust_agent_harness.Prelude.{
  ℕ, ◌≡◌, refl, true, Option, none, some, [], ◌∷◌, ◌++◌, ok, arith, All, All-append, all, List,
  Bool, >>=-eq-ok,
}
use rust_agent_harness.Text.{Text, text}
use rust_agent_harness.Text.Utf8.{utf8, encode_char}
use rust_agent_harness.Session.Projection.{
  ShowResult, SessionStatus, ProjectedTerminal, assistant, failure, valid_id, hex_digit,
  completed_session, failed_session, interrupted_session, project_records, project, parse_records,
}
use rust_agent_harness.Cli.Render.Safe.{IsSafe, render_model_text-IsSafe, is_safe}
use rust_agent_harness.Cli.Show.{status_text, terminal_text, render_session}

hex_digit-IsSafe : (c : ℕ) → hex_digit c ≡ true → IsSafe c
unfolding hex_digit
hex_digit-IsSafe c h = ground arith

encode_char-hex : (c : ℕ) → all hex_digit (encode_char c) ≡ true → hex_digit c ≡ true
unfolding encode_char hex_digit
encode_char-hex c h = ground arith

all-append :
    (a b : Text)
    → all hex_digit (a ++ b) ≡ true
    → (all hex_digit a ≡ true) × (all hex_digit b ≡ true)
all-append [] b h = (refl, h)
all-append (x ∷ a) b h = ground (arith, all-append a b)

hex-IsSafe : (t : Text) → all hex_digit (utf8 t) ≡ true → All IsSafe t
unfolding utf8
hex-IsSafe [] h = tt
hex-IsSafe (c ∷ cs) h =
    let (first, rest) = all-append (encode_char c) (utf8 cs) h in
    (hex_digit-IsSafe c (encode_char-hex c first), hex-IsSafe cs rest)

valid_id-IsSafe : (t : Text) → valid_id t ≡ true → All IsSafe t
unfolding valid_id
valid_id-IsSafe t h = hex-IsSafe t (ground arith)

-- A literal is checked by running the test.
all-IsSafe : (t : Text) → all is_safe t ≡ true → All IsSafe t
all-IsSafe [] h = tt
all-IsSafe (c ∷ cs) h = (ground arith, all-IsSafe cs (ground arith))

status_text-IsSafe : (s : SessionStatus) → All IsSafe (status_text s)
unfolding status_text text
status_text-IsSafe completed_session = all-IsSafe (text "completed") refl
status_text-IsSafe failed_session = all-IsSafe (text "failed") refl
status_text-IsSafe interrupted_session = all-IsSafe (text "interrupted") refl

terminal_text-IsSafe : (t : Option ProjectedTerminal) → All IsSafe (terminal_text t)
unfolding terminal_text text
terminal_text-IsSafe none = tt
terminal_text-IsSafe (some (assistant answer)) =
    All-append IsSafe (text "\nAssistant:\n") (render_model_text answer)
      (all-IsSafe (text "\nAssistant:\n") refl) (render_model_text-IsSafe answer)
terminal_text-IsSafe (some (failure code)) =
    All-append IsSafe (text "\nFailure: ") (render_model_text (diagnostic code))
      (all-IsSafe (text "\nFailure: ") refl) (render_model_text-IsSafe (diagnostic code))

abbrev SafeText : Type 0
SafeText = (t : Text) × All IsSafe t

abbrev joined : SafeText → SafeText → SafeText
joined (a, h) (b, k) = (a ++ b, All-append IsSafe a b h k)

abbrev literal : (t : Text) → all is_safe t ≡ true → SafeText
literal t h = (t, all-IsSafe t h)

render_session-IsSafe :
    (shown : ShowResult)
    → valid_id shown.projection.session_id ≡ true
    → All IsSafe (render_session shown)
unfolding render_session text
render_session-IsSafe shown valid =
    let session_id : SafeText =
      (shown.projection.session_id, valid_id-IsSafe shown.projection.session_id valid) in
    let status : SafeText =
      (status_text shown.projection.status, status_text-IsSafe shown.projection.status) in
    let prompt : SafeText = (
      render_model_text shown.projection.prompt,
      render_model_text-IsSafe shown.projection.prompt,
    ) in
    let terminal : SafeText =
      (terminal_text shown.projection.terminal, terminal_text-IsSafe shown.projection.terminal) in
    let named = joined (literal (text "Session: ") refl) session_id in
    let with_status = joined (joined named (literal (text "\nStatus: ") refl)) status in
    let with_user =
      joined with_status (literal (text "\nProvider: openai-codex\n\nUser:\n") refl) in
    (joined (joined with_user prompt) terminal).1

project_records-valid_id :
    (records : List LogRecord) (trailing : Bool) (id : Text) (shown : ShowResult)
    → project_records records trailing id ≡ ok shown
    → valid_id shown.projection.session_id ≡ true
unfolding project_records
project_records-valid_id records trailing id shown h = ground arith

-- Whatever the file of a session holds: when `show` shows it, every character that is printed is a
-- line feed, a tab, or neither a control nor a bidirectional control.
pub show-IsSafe :
    (c : Codec) (location : Location) (p : InspectProbe) (id : Text) (shown : ShowResult)
    → show c location p id ≡ ok shown
    → All IsSafe (render_session shown)
unfolding project
show-IsSafe c location p id shown h =
    let (valid, safe, projected) = show-ok c location p id shown h in
    let (parsed, parses, records) = >>=-eq-ok (parse_records c p.content) _ projected in
    render_session-IsSafe shown (project_records-valid_id parsed.0 parsed.1 id shown records)
