-- ===== src/Session/Projection.antt =====
-- The reader of a session file, projection.rs.
use rust_agent_harness.Prelude.{
  ℕ, ◌+◌, ◌-◌, Bool, true, false, not, ◌&&◌, ◌||◌, Option, none, some, List, [], ◌∷◌, ◌++◌, Result,
  ok, err, ◌>>=◌, ◌>>◌, refuse_if, ok_or, leb, ltb, ◌==◌, length, get_elem?, take, is_empty, all,
  if◌then◌else◌,
}
use rust_agent_harness.Text.{Bytes, Text, eq_text, len}
use rust_agent_harness.Text.Utf8.{utf8}
use rust_agent_harness.Session.Format.{
  FailureCode, diagnostic, Payload, user_message, assistant_message, terminal_failure, Header,
  Entry, LogRecord, header_record, entry_record, Codec, format_version_1, max_record_bytes,
  max_session_bytes, max_diagnostic_bytes,
}

pub data SessionStatus : Type 0 where
  completed_session failed_session interrupted_session : SessionStatus

pub data ProjectedTerminal : Type 0 where
  assistant : Text → ProjectedTerminal
  failure : FailureCode → ProjectedTerminal

pub record SessionProjection : Type 0 where
  pub session_id : Text
  pub created_at_unix_ms : ℕ
  pub prompt : Text
  pub status : SessionStatus
  pub terminal : Option ProjectedTerminal

pub record ShowResult : Type 0 where
  pub projection : SessionProjection
  pub trailing_fragment : Bool

pub data ProjectionError : Type 0 where
  unsupported_version corrupt : ProjectionError

unfoldable pub hex_digit : ℕ → Bool
hex_digit byte = leb b'0' byte && leb byte b'9' || leb b'a' byte && leb byte b'f'

unfoldable pub valid_id : Text → Bool
unfolding hex_digit
valid_id value = len value == 32 && all hex_digit (utf8 value)

-- `bytes.iter().rposition(|byte| *byte == b'\n')`
unfoldable pub rposition : Bytes → Option ℕ
rposition [] = none
rposition (b ∷ bs) = elim (rposition bs) [
  | some i ↦ some (i + 1)
  | none ↦ if b == b'\n' then some 0 else none
]

abbrev cons_head : ℕ → List Bytes → List Bytes
cons_head b [] = (b ∷ []) ∷ []
cons_head b (l ∷ ls) = (b ∷ l) ∷ ls

-- `complete.split(|byte| *byte == b'\n')`
unfoldable pub split_lines : Bytes → List Bytes
split_lines [] = [] ∷ []
split_lines (b ∷ bs) =
    let rest = split_lines bs in if b == b'\n' then [] ∷ rest else cons_head b rest

abbrev contains : Text → List Text → Bool
contains t [] = false
contains t (x ∷ xs) = eq_text t x || contains t xs

-- `HashSet::from(texts).len()`
unfoldable pub distinct_count : List Text → ℕ
distinct_count [] = 0
distinct_count (t ∷ ts) = (if contains t ts then 0 else 1) + distinct_count ts

abbrev pub status_of : Option ProjectedTerminal → SessionStatus
status_of none = interrupted_session
status_of (some (assistant answer)) = completed_session
status_of (some (failure code)) = failed_session

abbrev as_header : Option LogRecord → Result ProjectionError Header
as_header (some (header_record h)) = ok h
as_header _ = err corrupt

abbrev as_entry : Option LogRecord → Result ProjectionError Entry
as_entry (some (entry_record e)) = ok e
as_entry _ = err corrupt

abbrev as_prompt : Payload → Result ProjectionError Text
as_prompt (user_message provider prompt) = ok prompt
as_prompt _ = err corrupt

abbrev is_parent : Option Text → Text → Bool
is_parent none id = false
is_parent (some parent) id = eq_text parent id

abbrev pub is_none {ℓ} : {A : Type ℓ} → Option A → Bool
is_none none = true
is_none (some a) = false

-- The payload of a third record.
unfoldable pub terminal_payload : Payload → Result ProjectionError ProjectedTerminal
terminal_payload (user_message provider prompt) = err corrupt
terminal_payload (assistant_message provider answer outcome) = ok (assistant answer)
terminal_payload (terminal_failure provider code shown outcome) =
    if leb (len shown) max_diagnostic_bytes && eq_text shown (diagnostic code)
    then ok (failure code)
    else err corrupt

unfoldable pub project_terminal :
    Option LogRecord → Text → Text → Text → Result ProjectionError (Option ProjectedTerminal)
unfolding terminal_payload
project_terminal none session_id user_entry_id operation_id = ok none
project_terminal (some (header_record h)) session_id user_entry_id operation_id = err corrupt
project_terminal (some (entry_record e)) session_id user_entry_id operation_id = do
  refuse_if
      (not (valid_id e.entry_id)
        || eq_text e.entry_id session_id
        || eq_text e.entry_id user_entry_id
        || eq_text e.entry_id operation_id
        || not (is_parent e.parent_entry_id user_entry_id)
        || not (e.sequence == 2)
        || not (eq_text e.operation_id operation_id))
      corrupt
  terminal ← terminal_payload e.payload
  ok (some terminal)

-- `project` behind `parse_records`.
unfoldable pub project_records : List LogRecord → Bool → Text → Result ProjectionError ShowResult
unfolding project_terminal distinct_count
project_records records trailing_fragment expected_session_id = do
  h ← as_header (get_elem? records 0)
  refuse_if (not (h.format_version == format_version_1)) unsupported_version
  refuse_if (not (eq_text h.session_id expected_session_id) || not (valid_id h.session_id)) corrupt
  refuse_if (ltb (length records) 2) corrupt
  user ← as_entry (get_elem? records 1)
  refuse_if
      (not (valid_id user.entry_id)
        || not (valid_id user.operation_id)
        || not (is_none user.parent_entry_id)
        || not (user.sequence == 1))
      corrupt
  prompt ← as_prompt user.payload
  refuse_if (not (distinct_count (h.session_id ∷ user.entry_id ∷ user.operation_id ∷ []) == 3))
      corrupt
  terminal ← project_terminal (get_elem? records 2) h.session_id user.entry_id user.operation_id
  ok (record {
    projection = record {
      session_id = h.session_id;
      created_at_unix_ms = h.created_at_unix_ms;
      prompt = prompt;
      status = status_of terminal;
      terminal = terminal;
    };
    trailing_fragment = trailing_fragment;
  })

module _ (c : Codec) where
  -- `for line in complete.split(…)`
  unfoldable pub push_lines : List Bytes → List LogRecord → Result ProjectionError (List LogRecord)
  push_lines [] records = ok records
  push_lines (line ∷ lines) records = do
    refuse_if (is_empty line) corrupt
    refuse_if (ltb max_record_bytes (length line) || length records == 3) corrupt
    r ← ok_or (c.from_slice line) corrupt
    push_lines lines (records ++ r ∷ [])

  unfoldable pub parse_records : Bytes → Result ProjectionError (List LogRecord × Bool)
  parse_records bytes = do
    refuse_if (ltb max_session_bytes (length bytes)) corrupt
    last ← ok_or (rposition bytes) corrupt
    let complete_end = last + 1
    let complete = take (complete_end - 1) bytes
    refuse_if (is_empty complete) corrupt
    records ← push_lines (split_lines complete) []
    ok (records, not (complete_end == length bytes))

  unfoldable pub project : Bytes → Text → Result ProjectionError ShowResult
  project bytes expected_session_id = do
    (records, trailing_fragment) ← parse_records bytes
    project_records records trailing_fragment expected_session_id
