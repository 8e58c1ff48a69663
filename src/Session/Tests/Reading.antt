-- ===== src/Session/Tests/Reading.antt =====
-- Reading and listing sessions at concrete inputs.
use native.Mathlib.Decide.{ℕ_discrete}
use mathlib.Core.List.{Perm}
use rust_agent_harness.Text.Order.{text_le}
use rust_agent_harness.Prelude.Sorting.{IsSorted, sort}
use rust_agent_harness.Session.Inspect.Outcome.{ListsFiles, list_file-ListsFiles}
use rust_agent_harness.Session.List.Candidates.{
  ids_of, IsReadable, collect_candidate_ids-ok, collect_candidate_ids_runs,
}
use rust_agent_harness.Session.List.{
  DirEntry, collect_candidate_ids, list_limits, collect_loop, collect_step, canonical_session_id,
  ListReadBudget, charge,
}
use rust_agent_harness.Session.Inspect.Reads.{IsSafe, show-ok}
use rust_agent_harness.Session.Inspect.Listed.{IsListed, inspect_listed-IsListed}
use rust_agent_harness.Session.Files.{
  identity_matches, private_file_permissions, validate_private_directory,
}
use rust_agent_harness.Session.Inspect.{
  InspectProbe, lock_taken, show, show_file, inspect_shown, open_session, read_shown, project_bytes,
  list_file, list_candidates, inspect_listed, read_listed,
}
use rust_agent_harness.Session.RoundTrip.{shown, project-torn}
use rust_agent_harness.Session.Projection.{
  project, project_terminal, terminal_payload, assistant, valid_id, hex_digit, ShowResult,
}
use rust_agent_harness.Prelude.{
  ◌≤◌, ◌≡◌, refl, true, false, none, some, List, [], ◌∷◌, ◌++◌, ok, arith, length, take, All,
}
use rust_agent_harness.Text.{text, len, eq_text, strip_suffix, compare_text}
use rust_agent_harness.Text.Utf8.{utf8, encode_char, from_utf8}
use rust_agent_harness.Session.Format.{serialize_line, header, user_entry, assistant_entry}
use rust_agent_harness.Session.Tests.Samples.{
  toy, toy-IsJsonCodec, ids, first_written, second_written, answered, session_id, user_id,
  operation_id, regular, directory, letter_of, letter_or, LogRecord-discrete,
}

answered_written : serialize_line toy answered ≡ ok (b'a' ∷ b'\n' ∷ [])
unfolding serialize_line letter_of letter_or LogRecord-discrete header user_entry assistant_entry
    text ℕ_discrete
answered_written = refl

answered_projects :
    project_terminal (some answered) session_id user_id operation_id
    ≡ ok (some (assistant (text "yes")))
unfolding project_terminal terminal_payload assistant_entry valid_id hex_digit len utf8 encode_char
    text eq_text
answered_projects = refl

project-torn_example :
    project toy
      ((b'h' ∷ b'\n' ∷ []) ++ (b'u' ∷ b'\n' ∷ []) ++ take 1 (b'a' ∷ b'\n' ∷ []))
      session_id
    ≡ ok (shown session_id 5 (text "hi") none true)
project-torn_example =
    project-torn toy toy-IsJsonCodec ids 5 6 none (text "0.1.0") (text "hi") first_written
      second_written answered (assistant (text "yes")) answered_projects answered_written 1
      (omega arith)

abbrev pub inspected : InspectProbe
inspected = record {
  path_metadata = ok regular;
  opened = ok tt;
  handle = ok regular;
  path = ok regular;
  permissions = ok regular;
  lock = lock_taken;
  size = ok regular;
  read = ok tt;
  content = b'h' ∷ b'\n' ∷ b'u' ∷ b'\n' ∷ [];
  size_after = ok regular;
  handle_after = ok regular;
  path_after = ok regular;
}

abbrev pub interrupted : ShowResult
interrupted = shown session_id 5 (text "hi") none false

sample_shown : project toy inspected.content session_id ≡ ok interrupted
sample_shown =
    project-torn toy toy-IsJsonCodec ids 5 6 none (text "0.1.0") (text "hi") first_written
      second_written answered (assistant (text "yes")) answered_projects answered_written 0
      (omega arith)

pub show_runs : show toy (some (ok directory, ok directory)) inspected session_id ≡ ok interrupted
unfolding show show_file inspect_shown open_session read_shown project_bytes identity_matches
    private_file_permissions validate_private_directory valid_id hex_digit len utf8 encode_char text
show_runs = rw sample_shown

show-ok_example :
    (valid_id session_id ≡ true)
    × IsSafe inspected
    × (project toy inspected.content session_id ≡ ok interrupted)
show-ok_example =
    show-ok toy (some (ok directory, ok directory)) inspected session_id interrupted show_runs

abbrev entries : List DirEntry
entries =
    some (utf8 (session_id ++ text ".jsonl"))
    ∷ some (utf8 (text "notes"))
    ∷ some (utf8 (user_id ++ text ".jsonl"))
    ∷ []

entries_found : collect_candidate_ids entries list_limits ≡ ok (session_id ∷ user_id ∷ [])
unfolding collect_candidate_ids collect_loop collect_step canonical_session_id valid_id hex_digit
    len utf8 encode_char text from_utf8 strip_suffix sort compare_text
entries_found = refl

collect_candidate_ids-ok_example :
    IsSorted text_le (session_id ∷ user_id ∷ [])
    × Perm (session_id ∷ user_id ∷ []) (ids_of entries)
    × (length entries ≤ list_limits.directory_entries)
    × (length (ids_of entries) ≤ list_limits.candidates)
    × All IsReadable entries
collect_candidate_ids-ok_example =
    collect_candidate_ids-ok list_limits entries (session_id ∷ user_id ∷ []) entries_found

few_ids : length (ids_of entries) ≤ list_limits.candidates
few_ids = collect_candidate_ids-ok_example.3

collect_candidate_ids_runs_example :
    collect_candidate_ids entries list_limits ≡ ok (sort text_le (ids_of entries))
collect_candidate_ids_runs_example =
    collect_candidate_ids_runs list_limits entries collect_candidate_ids-ok_example.4 (omega arith)
      few_ids (omega arith) (omega arith)

abbrev budget : ListReadBudget
budget = record { used = 0; limit = 6 }

list_file-ListsFiles_example :
    ListsFiles toy
      (λ id. inspected)
      list_limits
      (list_candidates (ok directory) (ok directory) (ok entries) list_limits)
      (list_file toy (ok directory) (ok directory) (ok entries) (λ id. inspected) list_limits)
list_file-ListsFiles_example =
    list_file-ListsFiles toy (λ id. inspected) (ok directory) (ok directory) (ok entries)
      list_limits (omega arith)

listed_runs :
    (inspect_listed toy
      (λ id. inspected)
      (record { used = 0; limit = list_limits.read_bytes })
      session_id).1
    ≡ ok interrupted
unfolding inspect_listed open_session read_listed project_bytes identity_matches
    private_file_permissions charge
listed_runs = rw sample_shown

inspect_listed-IsListed_example : IsListed toy inspected session_id interrupted
inspect_listed-IsListed_example =
    inspect_listed-IsListed toy (λ id. inspected)
      (record { used = 0; limit = list_limits.read_bytes }) session_id interrupted listed_runs
