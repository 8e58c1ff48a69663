-- ===== src/Session/Writer.antt =====
-- The writer of a session, file.rs: `initial_records`, `start_file` and `append_terminal`. What
-- the environment decides stands in a record for each call; what is in the file is state.
use rust_agent_harness.Prelude.{
  ℕ, Bool, not, ◌||◌, Option, none, some, List, [], ◌∷◌, ◌++◌, Result, ok, err, ◌>>=◌, ◌>>◌, guard,
  refuse_if, map_err, sum_exceeds, ltb, ◌==◌, length, take, if◌then◌else◌,
}
use rust_agent_harness.Text.{Bytes, Text, eq_text}
use rust_agent_harness.Session.Format.{
  Codec, LogRecord, FailureCode, header, user_entry, assistant_entry, failure_entry, serialize_line,
  max_session_bytes,
}
use rust_agent_harness.Session.Projection.{valid_id, distinct_count}
use rust_agent_harness.Session.Errors.{
  CreateError, create_store_unavailable, AppendError, append_store_unavailable,
}
use rust_agent_harness.Session.Files.{
  IoError, already_exists, Io, Metadata, identity_matches, DirectoryProbe, ensure_private_directory,
  CreateProbe, create_private_file,
}

abbrev pub create_retries : ℕ
create_retries = 8

-- What one round of `start_file` draws from the sources and meets in the file system.
pub record Attempt : Type 0 where
  pub sources_lock : Bool
  pub session_id : Text
  pub operation_id : Text
  pub user_entry_id : Text
  pub created_at : ℕ
  pub user_timestamp : ℕ
  pub working_directory : Option Text
  pub harness_version : Text
  pub create : CreateProbe
  pub lock : Bool
  pub write_header : Bool
  pub write_user : Bool
  pub sync : Bool
  pub sync_directory : Bool

pub record InitialRecords : Type 0 where
  pub session_id : Text
  pub operation_id : Text
  pub user_entry_id : Text
  pub header : Bytes
  pub user : Bytes

-- `content` is what the file holds.
pub record SessionWriter : Type 0 where
  pub content : Bytes
  pub session_id : Text
  pub user_entry_id : Text
  pub operation_id : Text

-- `Sources::next_id`, of the identifier drawn.
unfoldable pub next_id : Text → Result (Unit {0}) Text
next_id id = if valid_id id then ok id else err tt

abbrev unavailable {ℓ} : {A : Type ℓ} → Result (Unit {0}) A → Result CreateError A
unavailable = map_err (λ _. create_store_unavailable)

-- What a terminal entry draws, and what appending it meets.
pub record AppendProbe : Type 0 where
  pub sources_lock : Bool
  pub entry_id : Text
  pub timestamp : ℕ
  pub handle : Io Metadata
  pub path : Io Metadata
  pub metadata : Bool
  -- how many bytes of the line `write_all` wrote
  pub written : ℕ
  pub sync : Bool

abbrev pub or_retry :
    Option SessionWriter → Result CreateError SessionWriter → Result CreateError SessionWriter
or_retry none later = later
or_retry (some writer) later = ok writer

-- The conditions under which nothing is written.
abbrev pub refuses_line : SessionWriter → AppendProbe → Bytes → Bool
refuses_line w p line =
    not (identity_matches p.handle p.path)
    || not p.metadata
    || sum_exceeds (length w.content) (length line) max_session_bytes

-- `append_terminal` leaves the file with what was written, whether it succeeds or not.
unfoldable pub append_line :
    SessionWriter → AppendProbe → Result (Unit {0}) Bytes → Bytes × Result AppendError (Unit {0})
append_line w p (err e) = (w.content, err append_store_unavailable)
append_line w p (ok line) =
    if refuses_line w p line then (w.content, err append_store_unavailable) else (
      w.content ++ take p.written line,
      (if ltb p.written (length line) || not p.sync then err append_store_unavailable else ok tt),
    )

-- `terminal_record`, with the entry that `build` makes.
unfoldable pub terminal_record :
    SessionWriter → AppendProbe → (Text → ℕ → LogRecord) → Result AppendError LogRecord
unfolding next_id
terminal_record w p build = do
  guard p.sources_lock append_store_unavailable
  entry_id ← map_err (λ (_ : Unit {0}). append_store_unavailable) (next_id p.entry_id)
  refuse_if
      (eq_text entry_id w.session_id
        || eq_text entry_id w.user_entry_id
        || eq_text entry_id w.operation_id)
      append_store_unavailable
  ok (build entry_id p.timestamp)

module _ (c : Codec) where
  unfoldable pub initial_records : Attempt → Text → Result CreateError InitialRecords
  unfolding next_id
  initial_records a prompt = do
    guard a.sources_lock create_store_unavailable
    session_id ← unavailable (next_id a.session_id)
    operation_id ← unavailable (next_id a.operation_id)
    user_entry_id ← unavailable (next_id a.user_entry_id)
    refuse_if (not (distinct_count (session_id ∷ operation_id ∷ user_entry_id ∷ []) == 3))
        create_store_unavailable
    header_line ←
        unavailable
          (serialize_line c (header session_id a.created_at a.working_directory a.harness_version))
    user_line ←
        unavailable
          (serialize_line c (user_entry user_entry_id a.user_timestamp operation_id prompt))
    refuse_if (sum_exceeds (length header_line) (length user_line) max_session_bytes)
        create_store_unavailable
    ok (record {
      session_id = session_id;
      operation_id = operation_id;
      user_entry_id = user_entry_id;
      header = header_line;
      user = user_line;
    })

  -- The file of a round that created it.
  unfoldable pub write_initial : Attempt → InitialRecords → Result CreateError SessionWriter
  write_initial a initial =
      if not a.lock || not a.write_header || not a.write_user || not a.sync || not a.sync_directory
      then err create_store_unavailable
      else ok (record {
        content = initial.header ++ initial.user;
        session_id = initial.session_id;
        user_entry_id = initial.user_entry_id;
        operation_id = initial.operation_id;
      })

  -- One round; `none` means `continue`.
  unfoldable pub start_round : Attempt → Text → Result CreateError (Option SessionWriter)
  unfolding write_initial
  start_round a prompt = do
    initial ← initial_records a prompt
    elim (create_private_file a.create) [
      | ok _ ↦ do writer ← write_initial a initial; ok (some writer)
      | err already_exists ↦ ok none
      | err _ ↦ err create_store_unavailable
    ]

  -- `for _ in 0..CREATE_RETRIES`, over the rounds that are left.
  unfoldable pub start_loop : List Attempt → Text → Result CreateError SessionWriter
  start_loop [] prompt = err create_store_unavailable
  start_loop (a ∷ attempts) prompt =
      let later = start_loop attempts prompt in
      start_round a prompt >>= λ found. or_retry found later

  unfoldable pub start_file :
      DirectoryProbe → DirectoryProbe → List Attempt → Text → Result CreateError SessionWriter
  start_file application_dir sessions_dir attempts prompt = do
    map_err (λ (_ : IoError). create_store_unavailable) (ensure_private_directory application_dir)
    map_err (λ (_ : IoError). create_store_unavailable) (ensure_private_directory sessions_dir)
    start_loop (take create_retries attempts) prompt

  unfoldable pub append_terminal :
      SessionWriter → AppendProbe → LogRecord → Bytes × Result AppendError (Unit {0})
  unfolding append_line
  append_terminal w p r = append_line w p (serialize_line c r)

  unfoldable pub append_record :
      SessionWriter
      → AppendProbe
      → Result AppendError LogRecord
      → Bytes × Result AppendError (Unit {0})
  append_record w p (err e) = (w.content, err e)
  append_record w p (ok r) = append_terminal w p r

  unfoldable pub append_built :
      SessionWriter → AppendProbe → (Text → ℕ → LogRecord) → Bytes × Result AppendError (Unit {0})
  unfolding append_record
  append_built w p build = append_record w p (terminal_record w p build)

  unfoldable pub append_assistant :
      SessionWriter → AppendProbe → Text → Bytes × Result AppendError (Unit {0})
  append_assistant w p answer = append_built w p (λ entry_id timestamp.
      assistant_entry entry_id w.user_entry_id timestamp w.operation_id answer)

  unfoldable pub append_failure :
      SessionWriter → AppendProbe → FailureCode → Bytes × Result AppendError (Unit {0})
  append_failure w p code =
      append_built w p
        (λ entry_id timestamp. failure_entry entry_id w.user_entry_id timestamp w.operation_id code)
