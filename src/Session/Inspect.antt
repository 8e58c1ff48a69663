-- ===== src/Session/Inspect.antt =====
-- Opening a session for reading, file.rs: `inspect_file` with its two policies, `show_file` and
-- `list_file`, and `show` and `list` of `SessionLog`.
pub mod Reads
pub mod Listed
pub mod Budget
pub mod Outcome
use rust_agent_harness.Prelude.{
  ℕ, ◌+◌, Bool, true, false, not, ◌&&◌, ◌||◌, Option, none, some, List, [], ◌∷◌, Result, ok, err,
  ◌>>=◌, ◌>>◌, guard, refuse_if, map_err, ltb, ◌==◌, length, take, if◌then◌else◌,
}
use rust_agent_harness.Text.{Bytes, Text}
use rust_agent_harness.Session.Format.{Codec, max_session_bytes}
use rust_agent_harness.Session.Projection.{
  ShowResult, ProjectionError, unsupported_version, corrupt, valid_id, project,
}
use rust_agent_harness.Session.Errors.{
  ShowError, invalid_session_id, missing, busy, unsupported_format, corrupt_data,
  show_store_unavailable, ListError, list_store_unavailable,
}
use rust_agent_harness.Session.Files.{
  IoError, Io, Metadata, map_open_error, identity_matches, private_file_permissions,
  validate_private_directory, list_directory_exists,
}
use rust_agent_harness.Session.List.{
  FileInspectionError, show_error, inspection_too_large, ListLimits, list_limits, ListReadBudget,
  charge, Listing, listed, refused, DirEntry, collect_candidate_ids, summarize_candidates,
}

-- The results of `try_lock_shared`.
pub data TryLock : Type 0 where
  lock_taken would_block lock_error : TryLock

-- What one inspection meets, in the order of the calls. `content` is what the file holds when it
-- is read.
pub record InspectProbe : Type 0 where
  pub path_metadata : Io Metadata
  pub opened : Io (Unit {0})
  pub handle : Io Metadata
  pub path : Io Metadata
  pub permissions : Io Metadata
  pub lock : TryLock
  pub size : Io Metadata
  pub read : Io (Unit {0})
  pub content : Bytes
  pub size_after : Io Metadata
  pub handle_after : Io Metadata
  pub path_after : Io Metadata

unfoldable pub map_projection_error : ProjectionError → ShowError
map_projection_error unsupported_version = unsupported_format
map_projection_error corrupt = corrupt_data

abbrev pub shows {ℓ} : {A : Type ℓ} → Result ShowError A → Result FileInspectionError A
shows = map_err show_error

abbrev pub lock_result : TryLock → Result ShowError (Unit {0})
lock_result lock_taken = ok tt
lock_result would_block = err busy
lock_result lock_error = err show_store_unavailable

abbrev pub io_or : {A : Type 0} → Io A → ShowError → Result ShowError A
io_or r e = map_err (λ (_ : IoError). e) r

-- The steps before the read, which give the size of the file.
unfoldable pub open_session : InspectProbe → Result ShowError ℕ
open_session p = do
  m ← map_err map_open_error p.path_metadata
  refuse_if (m.is_symlink || not m.is_file) show_store_unavailable
  map_err map_open_error p.opened
  refuse_if (not (identity_matches p.handle p.path) || not (private_file_permissions p.permissions))
      show_store_unavailable
  lock_result p.lock
  found ← io_or p.size show_store_unavailable
  refuse_if (ltb max_session_bytes found.len) corrupt_data
  ok found.len

-- `ReadPolicy::Show`
unfoldable pub read_shown : InspectProbe → Result ShowError Bytes
read_shown p = do
  io_or p.read show_store_unavailable
  let bytes = take (max_session_bytes + 1) p.content
  refuse_if
      (ltb max_session_bytes (length bytes) || not (identity_matches p.handle_after p.path_after))
      corrupt_data
  ok bytes

abbrev pub same_size : Io Metadata → ℕ → Bool
same_size (err e) size = false
same_size (ok m) size = m.len == size

-- `read_captured_bytes`
unfoldable pub read_captured_bytes : InspectProbe → ℕ → Result ShowError Bytes
read_captured_bytes p size = do io_or p.read show_store_unavailable; ok (take size p.content)

-- `ReadPolicy::List`, behind the charge.
unfoldable pub read_listed : InspectProbe → ℕ → Result ShowError Bytes
unfolding read_captured_bytes
read_listed p size = do
  bytes ← read_captured_bytes p size
  refuse_if
      (not (length bytes == size)
        || not (same_size p.size_after size)
        || not (identity_matches p.handle_after p.path_after))
      corrupt_data
  ok bytes

abbrev listing_of : Result ListError (List Text) → (List Text → Listing) → Listing
listing_of (err e) go = refused e
listing_of (ok candidates) go = go candidates

-- The candidates of the directories, or `none` if one of them does not exist.
unfoldable pub list_candidates :
    Io Metadata → Io Metadata → Io (List DirEntry) → ListLimits → Result ListError (List Text)
list_candidates application_dir sessions_dir directory limits = do
  application_exists ← list_directory_exists application_dir
  if not application_exists then ok [] else (do
    sessions_exist ← list_directory_exists sessions_dir
    if not sessions_exist then ok [] else (do
      entries ← map_err (λ (_ : IoError). list_store_unavailable) directory
      collect_candidate_ids entries limits))

-- Where the sessions are: `none` if the platform names no directory.
abbrev pub Location : Type 0
Location = Option (Io Metadata × Io Metadata)

module _ (c : Codec) where
  unfoldable pub project_bytes : Bytes → Text → Result ShowError ShowResult
  unfolding map_projection_error
  project_bytes bytes session_id = map_err map_projection_error (project c bytes session_id)

  -- `inspect_file` with the policy of `show`, which never charges a budget.
  unfoldable pub inspect_shown : InspectProbe → Text → Result ShowError ShowResult
  inspect_shown p session_id = do
    size ← open_session p
    bytes ← read_shown p
    project_bytes bytes session_id

  -- An inspection with the policy of a listing, from the size of the file on: the budget is
  -- charged with the size before anything is read.
  unfoldable pub inspect_charged :
      InspectProbe
      → Text
      → ℕ
      → ListReadBudget
      → Result FileInspectionError ListReadBudget
      → ListReadBudget × Result FileInspectionError ShowResult
  inspect_charged p session_id size budget (err e) = (budget, err e)
  inspect_charged p session_id size budget (ok charged) =
      (charged, shows (do bytes ← read_listed p size; project_bytes bytes session_id))

  abbrev inspect_opened :
      InspectProbe
      → Text
      → ListReadBudget
      → Result ShowError ℕ
      → ListReadBudget × Result FileInspectionError ShowResult
  inspect_opened p session_id budget (err e) = (budget, err (show_error e))
  inspect_opened p session_id budget (ok size) =
      inspect_charged p session_id size budget (charge budget size)

  unfoldable pub inspect_listed :
      (Text → InspectProbe)
      → ListReadBudget
      → Text
      → ListReadBudget × Result FileInspectionError ShowResult
  unfolding inspect_charged
  inspect_listed probe budget session_id =
      inspect_opened (probe session_id) session_id budget (open_session (probe session_id))

  unfoldable pub show_file :
      Io Metadata → Io Metadata → InspectProbe → Text → Result ShowError ShowResult
  show_file application_dir sessions_dir p session_id = do
    validate_private_directory application_dir
    validate_private_directory sessions_dir
    inspect_shown p session_id

  unfoldable pub list_file :
      Io Metadata → Io Metadata → Io (List DirEntry) → (Text → InspectProbe) → ListLimits → Listing
  unfolding list_candidates
  list_file application_dir sessions_dir directory probe limits =
      listing_of (list_candidates application_dir sessions_dir directory limits) (
        summarize_candidates (inspect_listed probe)
          (record { used = 0; limit = limits.read_bytes }))

  unfoldable pub show : Location → InspectProbe → Text → Result ShowError ShowResult
  show location p session_id =
      if not (valid_id session_id) then err invalid_session_id else elim location [
        | none ↦ err show_store_unavailable
        | some (application_dir, sessions_dir) ↦ show_file application_dir sessions_dir p session_id
      ]

  unfoldable pub list : Location → Io (List DirEntry) → (Text → InspectProbe) → Listing
  list location directory probe = elim location [
    | none ↦ refused list_store_unavailable
    | some (application_dir, sessions_dir) ↦
        list_file application_dir sessions_dir directory probe list_limits
  ]
