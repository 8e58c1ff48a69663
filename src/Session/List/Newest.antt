-- ===== src/Session/List/Newest.antt =====
-- The order in which `summarize_candidates` of file.rs lists the sessions.
use mathlib.Core.List.{Perm}
use mathlib.Core.Option.{get_or}
use rust_agent_harness.Prelude.{
  ◌≡◌, refl, true, false, List, [], ◌∷◌, ◌++◌, Result, ok, err, arith, append-nil, append_assoc,
  Option-cases, inl, inr, none, ◌≢◌, ap, ltb, ◌==◌, ◌&&◌, ◌||◌, some, Bool,
}
use rust_agent_harness.Prelude.Sorting.{sort-IsSorted, sort-perm, IsSorted, IsSorted-follows, sort}
use rust_agent_harness.Text.{Text}
use rust_agent_harness.Text.Order.{text_le_total, text_le_trans, text_le}
use rust_agent_harness.Session.Projection.{ShowResult}
use rust_agent_harness.Session.Errors.{
  SessionSummary, inventory_too_large, into_summary, invalid_session_id, ShowError,
}
use rust_agent_harness.Session.List.{
  Listing, listed, refused, panicked, compare_summaries, summary_le, FileInspectionError,
  show_error, inspection_too_large, summary_of_error, summarize_loop, summarize_candidates,
  add_summary,
}

summary_le_total : (a b : SessionSummary) → summary_le a b ≡ false → summary_le b a ≡ true
unfolding compare_summaries
summary_le_total a b h = ground (arith, text_le_total a.session_id b.session_id)

summary_le_trans :
    (a b c : SessionSummary) → summary_le a b ≡ true → summary_le b c ≡ true → summary_le a c ≡ true
unfolding compare_summaries
summary_le_trans a b c h k = ground (arith, text_le_trans a.session_id b.session_id c.session_id)

-- The order of a listing: the later time first, a summary with no time behind all that have one,
-- and equal ones by identifier.
abbrev pub newest_first : SessionSummary → SessionSummary → Bool
newest_first a b = elim a.created_at_unix_ms [
  | some time ↦ elim b.created_at_unix_ms [
    | some other ↦ ltb other time || time == other && text_le a.session_id b.session_id
    | none ↦ true
  ]
  | none ↦ elim b.created_at_unix_ms [
    | some other ↦ false
    | none ↦ text_le a.session_id b.session_id
  ]
]

newest_first_of_le : (a b : SessionSummary) → summary_le a b ≡ true → newest_first a b ≡ true
unfolding compare_summaries
newest_first_of_le a b h = ground arith

-- What one candidate contributes to a listing that succeeds.
abbrev pub contribution : Text → Result FileInspectionError ShowResult → List SessionSummary
contribution id (ok shown) = into_summary shown ∷ []
contribution id (err inspection_too_large) = []
contribution id (err (show_error e)) = get_or (summary_of_error id e) []

-- Only an inspection that does not fit the budget ends the loop.
abbrev pub is_too_large : Result FileInspectionError ShowResult → Bool
is_too_large (ok shown) = false
is_too_large (err inspection_too_large) = true
is_too_large (err (show_error e)) = false

summary_of_error-none :
    (id : Text) (e : ShowError) → summary_of_error id e ≡ none → e ≡ invalid_session_id
unfolding summary_of_error
summary_of_error-none id e h = ground arith

module _ {ℓ} {S : Type ℓ} (inspect : S → Text → S × Result FileInspectionError ShowResult) where
  -- The contributions of the candidates in turn, each inspected in the state that the one before
  -- it left.
  abbrev pub contributions : S → List Text → List SessionSummary
  contributions s [] = []
  contributions s (id ∷ candidates) =
      contribution id (inspect s id).1 ++ contributions (inspect s id).0 candidates

  -- Whether an inspection of a candidate in turn does not fit the budget.
  abbrev pub overruns : S → List Text → Bool
  overruns s [] = false
  overruns s (id ∷ candidates) =
      is_too_large (inspect s id).1 || overruns (inspect s id).0 candidates

  -- A listing of exactly these summaries, or, when the budget is overrun, a refusal.
  abbrev pub Lists : List SessionSummary → Bool → Listing → Type 0
  Lists expected overrun (listed summaries) =
      (overrun ≡ false) × IsSorted newest_first summaries × Perm summaries expected
  Lists expected overrun (refused e) = (overrun ≡ true) × (e ≡ inventory_too_large)
  Lists expected overrun panicked = ⊥

  add_summary-Lists :
      (r : Result FileInspectionError ShowResult) (valid : r ≢ err (show_error invalid_session_id))
      (id : Text) (summaries later : List SessionSummary) (overrun : Bool)
      (go : List SessionSummary → Listing)
      → ((acc : List SessionSummary) → Lists (acc ++ later) overrun (go acc))
      → Lists
          (summaries ++ (contribution id r ++ later))
          (is_too_large r || overrun)
          (add_summary r id summaries go)
  unfolding add_summary
  add_summary-Lists (ok shown) valid id summaries later overrun go k =
      rw (← append_assoc) (k (summaries ++ into_summary shown ∷ []))
  add_summary-Lists (err inspection_too_large) valid id summaries later overrun go k = (refl, refl)
  add_summary-Lists (err (show_error e)) valid id summaries later overrun go k =
      elim (Option-cases (summary_of_error id e)) [
        | inl n ↦ absurd (valid (ap (λ x. err (show_error x)) (summary_of_error-none id e n)))
        | inr (added, n) ↦ rw (n, add_summary) (rw (← append_assoc) (k (summaries ++ added)))
      ]

  -- No inspection finds the identifier of a candidate invalid.
  abbrev pub NeverInvalid : Type ℓ
  NeverInvalid = (s : S) (id : Text) → (inspect s id).1 ≢ err (show_error invalid_session_id)

  module _ (valid : NeverInvalid) where
    summarize_loop-Lists :
        (s : S) (candidates : List Text) (summaries : List SessionSummary)
        → Lists
            (summaries ++ contributions s candidates)
            (overruns s candidates)
            (summarize_loop inspect s candidates summaries)
    unfolding summarize_loop
    summarize_loop-Lists s [] summaries = (
      refl,
      IsSorted-follows summary_le newest_first newest_first_of_le (sort summary_le summaries)
          (sort-IsSorted summary_le summary_le_total summary_le_trans summaries),
      rw append-nil (sort-perm summary_le summaries),
    )
    summarize_loop-Lists s (id ∷ candidates) summaries =
        add_summary-Lists (inspect s id).1 (valid s id) id summaries
          (contributions (inspect s id).0 candidates) (overruns (inspect s id).0 candidates)
          (summarize_loop inspect (inspect s id).0 candidates)
          (summarize_loop-Lists (inspect s id).0 candidates)

    pub summarize_candidates-Lists :
        (s : S) (candidates : List Text)
        → Lists
            (contributions s candidates)
            (overruns s candidates)
            (summarize_candidates inspect s candidates)
    unfolding summarize_candidates
    summarize_candidates-Lists s candidates = summarize_loop-Lists s candidates []
