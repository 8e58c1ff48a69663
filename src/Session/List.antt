-- ===== src/Session/List.antt =====
-- The list of sessions, file.rs: candidates, summaries, and their order.
pub mod Candidates
pub mod Newest
use Prim.Native.Nat.{compare, Ordering}
use rust_agent_harness.Prelude.{
  ℕ, ◌*◌, Bool, true, false, Option, none, some, List, [], ◌∷◌, ◌++◌, Result, ok, err, ◌>>=◌, ◌>>◌,
  refuse_if, ok_or, checked_add, sum_exceeds, ltb, length, if◌then◌else◌,
}
use rust_agent_harness.Prelude.Sorting.{sort}
use rust_agent_harness.Text.{Bytes, Text, text, strip_suffix, compare_text}
use rust_agent_harness.Text.Utf8.{from_utf8}
use rust_agent_harness.Text.Order.{text_le}
use rust_agent_harness.Session.Projection.{ShowResult, valid_id}
use rust_agent_harness.Session.Errors.{
  ShowError, missing, busy, unsupported_format, corrupt_data, show_store_unavailable,
  invalid_session_id, ListError, list_store_unavailable, inventory_too_large, listed_busy,
  listed_corrupt, listed_unsupported, listed_unavailable, SessionSummary, unprojectable,
  into_summary,
}

pub record ListLimits : Type 0 where
  pub candidates : ℕ
  pub directory_entries : ℕ
  pub read_bytes : ℕ

abbrev pub list_limits : ListLimits
list_limits = record { candidates = 4096; directory_entries = 4096; read_bytes = 64 * 1024 * 1024 }

-- A file name is its bytes; `to_str` is `from_utf8`.
unfoldable pub canonical_session_id : Bytes → Option Text
canonical_session_id file_name = elim (from_utf8 file_name) [
  | none ↦ none
  | some name ↦ elim (strip_suffix (text ".jsonl") name) [
    | none ↦ none
    | some session_id ↦ if valid_id session_id then some session_id else none
  ]
]

-- `Err(_)` of a directory entry is `none`.
abbrev pub DirEntry : Type 0
DirEntry = Option Bytes

-- One entry, with the entries counted before it and the candidates found.
unfoldable pub collect_step :
    ListLimits → DirEntry → ℕ → List Text → Result ListError (ℕ × List Text)
unfolding canonical_session_id
collect_step limits entry directory_entries candidates = do
  file_name ← ok_or entry list_store_unavailable
  count ← ok_or (checked_add directory_entries 1) inventory_too_large
  refuse_if (ltb limits.directory_entries count) inventory_too_large
  elim (canonical_session_id file_name) [
    | none ↦ ok (count, candidates)
    | some session_id ↦
        if sum_exceeds (length candidates) 1 limits.candidates
        then err inventory_too_large
        else ok (count, candidates ++ session_id ∷ [])
  ]

-- `for entry in entries`
unfoldable pub collect_loop :
    ListLimits → List DirEntry → ℕ → List Text → Result ListError (List Text)
collect_loop limits [] directory_entries candidates = ok candidates
collect_loop limits (entry ∷ entries) directory_entries candidates = do
  (count, found) ← collect_step limits entry directory_entries candidates
  collect_loop limits entries count found

unfoldable pub collect_candidate_ids : List DirEntry → ListLimits → Result ListError (List Text)
collect_candidate_ids entries limits = do
  candidates ← collect_loop limits entries 0 []
  ok (sort text_le candidates)

pub data FileInspectionError : Type 0 where
  show_error : ShowError → FileInspectionError
  inspection_too_large : FileInspectionError

-- What a failed inspection contributes: nothing for a file that is gone. `InvalidSessionId` is
-- unreachable in the code, where it panics.
unfoldable pub summary_of_error : Text → ShowError → Option (List SessionSummary)
summary_of_error id missing = some []
summary_of_error id busy = some (unprojectable id listed_busy ∷ [])
summary_of_error id unsupported_format = some (unprojectable id listed_unsupported ∷ [])
summary_of_error id corrupt_data = some (unprojectable id listed_corrupt ∷ [])
summary_of_error id show_store_unavailable = some (unprojectable id listed_unavailable ∷ [])
summary_of_error id invalid_session_id = none

-- `sort_by` of the summaries: the newest first, those with no time last, then by identifier.
unfoldable pub compare_summaries : SessionSummary → SessionSummary → Ordering
compare_summaries left right = elim left.created_at_unix_ms [
  | some left_time ↦ elim right.created_at_unix_ms [
    | some right_time ↦ elim (compare right_time left_time) [
      | Ordering.lt ↦ Ordering.lt
      | Ordering.gt ↦ Ordering.gt
      | Ordering.eq ↦ compare_text left.session_id right.session_id
    ]
    | none ↦ Ordering.lt
  ]
  | none ↦ elim right.created_at_unix_ms [
    | some right_time ↦ Ordering.gt
    | none ↦ compare_text left.session_id right.session_id
  ]
]

abbrev pub summary_le : SessionSummary → SessionSummary → Bool
summary_le left right = elim (compare_summaries left right) [ Ordering.gt ↦ false | _ ↦ true ]

-- The outcomes of the listing; `panicked` is the unreachable arm.
pub data Listing : Type 0 where
  listed : List SessionSummary → Listing
  refused : ListError → Listing
  panicked : Listing

-- One candidate's result, and the rest of the loop.
unfoldable pub add_summary :
    Result FileInspectionError ShowResult
    → Text
    → List SessionSummary
    → (List SessionSummary → Listing)
    → Listing
unfolding summary_of_error
add_summary (ok shown) id summaries go = go (summaries ++ into_summary shown ∷ [])
add_summary (err inspection_too_large) id summaries go = refused inventory_too_large
add_summary (err (show_error e)) id summaries go = elim (summary_of_error id e) [
  | none ↦ panicked
  | some added ↦ go (summaries ++ added)
]

-- `inspect` has the budget as its state.
module _ {ℓ} {S : Type ℓ} (inspect : S → Text → S × Result FileInspectionError ShowResult) where
  unfoldable pub summarize_loop : S → List Text → List SessionSummary → Listing
  summarize_loop s [] summaries = listed (sort summary_le summaries)
  summarize_loop s (id ∷ candidates) summaries =
      let (s', result) = inspect s id in
      add_summary result id summaries (summarize_loop s' candidates)

  unfoldable pub summarize_candidates : S → List Text → Listing
  unfolding summarize_loop
  summarize_candidates s candidates = summarize_loop s candidates []

-- The bytes that one listing may read.
pub record ListReadBudget : Type 0 where
  pub used : ℕ
  pub limit : ℕ

unfoldable pub charge : ListReadBudget → ℕ → Result FileInspectionError ListReadBudget
charge budget size = do
  next_used ← ok_or (checked_add budget.used size) inspection_too_large
  if ltb budget.limit next_used
      then err inspection_too_large
      else ok (record budget { used = next_used })
