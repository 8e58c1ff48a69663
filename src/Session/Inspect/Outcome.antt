-- ===== src/Session/Inspect/Outcome.antt =====
-- What `list_file` of file.rs shows.
use mathlib.Core.Path.{subst}
use rust_agent_harness.Session.List.Newest.{Lists, contributions, summarize_candidates-Lists}
use rust_agent_harness.Session.Inspect.Budget.{inspect_listed-valid, overruns_lem, total_size}
use rust_agent_harness.Session.Errors.{ListError}
use rust_agent_harness.Session.List.{
  refused, ListLimits, Listing, ListReadBudget, DirEntry, summarize_candidates,
}
use rust_agent_harness.Session.Inspect.{
  InspectProbe, Text, list_file, Io, Metadata, list_candidates, inspect_listed,
}
use rust_agent_harness.Prelude.{
  List, ok, err, Result, Result-cases, inl, inr, refl, ◌≡◌, ltb, word_modulus, ◌<◌, arith, ap, ◌∙◌,
}
use rust_agent_harness.Session.Format.{Codec}

module _ (c : Codec) (probe : Text → InspectProbe) where
  abbrev fresh : ListLimits → ListReadBudget
  fresh limits = record { used = 0; limit = limits.read_bytes }

  -- What is expected of a listing, by what the directories hold.
  abbrev pub ListsFiles : ListLimits → Result ListError (List Text) → Listing → Type 0
  ListsFiles limits (err e) listing = listing ≡ refused e
  ListsFiles limits (ok candidates) listing =
      Lists (inspect_listed c probe)
        (contributions (inspect_listed c probe) (fresh limits) candidates)
        (ltb limits.read_bytes (total_size c probe candidates)) listing

  -- Whatever the directories and the files are, with a bound on the bytes that is a machine word:
  -- a listing never reaches the arm that panics, and it is refused as the collection of the
  -- candidates is. Otherwise it is refused as too large exactly when the candidates' files that can
  -- be opened have together more bytes than the bound, and else shows exactly what the inspections
  -- of the candidates contribute, the newest first, those with no time last and equal times by
  -- identifier.
  pub list_file-ListsFiles :
      (application_dir sessions_dir : Io Metadata) (directory : Io (List DirEntry))
      (limits : ListLimits)
      → limits.read_bytes < word_modulus
      → ListsFiles limits
          (list_candidates application_dir sessions_dir directory limits)
          (list_file c application_dir sessions_dir directory probe limits)
  unfolding list_file
  list_file-ListsFiles application_dir sessions_dir directory limits small =
      elim (Result-cases (list_candidates application_dir sessions_dir directory limits)) [
        | inr (e, n) ↦ rw n refl
        | inl (candidates, n) ↦ rw n (
            subst
              (λ overrun.
                Lists (inspect_listed c probe)
                  (contributions (inspect_listed c probe) (fresh limits) candidates) overrun
                  (summarize_candidates (inspect_listed c probe) (fresh limits) candidates))
              (overruns_lem c probe (fresh limits) candidates (omega arith) small
                ∙ ap (ltb limits.read_bytes) (omega arith))
              (summarize_candidates-Lists (inspect_listed c probe) (inspect_listed-valid c probe)
                (fresh limits) candidates))
      ]
