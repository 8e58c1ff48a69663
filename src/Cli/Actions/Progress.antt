-- ===== src/Cli/Actions/Progress.antt =====
-- What `run_login`, main.rs, reports of its progress.
use mathlib.Core.Path.{subst}
use rust_agent_harness.Prelude.{
  ℕ, zero, suc, ◌+◌, ◌<◌, ◌≡◌, refl, ◌⊎◌, inl, inr, Option, none, some, List, [], ◌∷◌, ◌++◌, err,
  arith, length, take, map, append-nil, append_assoc, Result-cases, length-append, ◌∙◌, ap,
}
use rust_agent_harness.Cli.Run.{Streams, Output, OutputError}
use rust_agent_harness.Cli.Actions.{
  CliLoginProgress, progress_line, on_progress, report, ok, output_error_of,
}

report-some :
    (streams : Streams) (events : List CliLoginProgress) (out : Output) (e : OutputError)
    → report streams events (out, some e) ≡ (out, some e)
unfolding report on_progress
report-some streams [] out e = refl
report-some streams (x ∷ events) out e = report-some streams events out e

module _ (streams : Streams) where
  -- So many writes to standard error succeed, from this one on.
  abbrev pub Succeed : ℕ → ℕ → Type 0
  Succeed from zero = Unit
  Succeed from (suc n) = (streams.to_stderr from ≡ ok tt) × Succeed (suc from) n

  -- All events were written, or those up to and including the first whose write failed.
  abbrev pub Reports : List CliLoginProgress → Output → Output × Option OutputError → Type 0
  Reports events before end =
      (end.0.stdout ≡ before.stdout)
      × (((end.1 ≡ none)
            × Succeed (length before.stderr) (length events)
            × (end.0.stderr ≡ before.stderr ++ map progress_line events))
          ⊎ ((n : ℕ) × (e : OutputError) × (n < length events)
              × Succeed (length before.stderr) n
              × (end.1 ≡ some e)
              × (streams.to_stderr (length before.stderr + n) ≡ err e)
              × (end.0.stderr ≡ before.stderr ++ take (suc n) (map progress_line events))))

  abbrev written : CliLoginProgress → Output → Output
  written x out = record out { stderr = out.stderr ++ progress_line x ∷ [] }

  report-ok :
      (x : CliLoginProgress) (events : List CliLoginProgress) (out : Output) {t : Unit {0}}
      → streams.to_stderr (length out.stderr) ≡ ok t
      → report streams (x ∷ events) (out, none) ≡ report streams events (written x out, none)
  unfolding report on_progress
  report-ok x events out h = ap (λ r. report streams events (written x out, output_error_of r)) h

  report-err :
      (x : CliLoginProgress) (events : List CliLoginProgress) (out : Output) {e : OutputError}
      → streams.to_stderr (length out.stderr) ≡ err e
      → report streams (x ∷ events) (out, none) ≡ (written x out, some e)
  unfolding report on_progress
  report-err x events out {e} h =
      ap (λ r. report streams events (written x out, output_error_of r)) h
      ∙ report-some streams events (written x out) e

  -- Whatever the writes to standard error return: `login` has its progress reported line by line.
  -- Either every write succeeds, all lines are written and no error is kept, or the lines up to and
  -- including the first whose write fails are written and that error is kept. Nothing is written
  -- to standard output.
  pub report-Reports :
      (events : List CliLoginProgress) (out : Output)
      → Reports events out (report streams events (out, none))
  unfolding report
  report-Reports [] out = (refl, inl (refl, tt, rw append-nil))
  report-Reports (x ∷ events) out = elim (Result-cases (streams.to_stderr (length out.stderr))) [
    | inr (e, n) ↦
        let here : length out.stderr + 0 ≡ length out.stderr = omega arith in
        rw (report-err x events out n) (refl, inr (0, e, omega arith, tt, refl, rw here n, refl))
    | inl (t, n) ↦
        let out' = written x out in
        let one_more : length out'.stderr ≡ suc (length out.stderr) =
          omega (arith, length-append out.stderr (progress_line x ∷ [])) in
        let (same, rest) = report-Reports events out' in
        rw (report-ok x events out n) (
          same,
          elim rest [
            | inl (all_written, succeeded, texts) ↦ inl (
              all_written,
              (n, subst (λ from. Succeed from (length events)) one_more succeeded),
              texts ∙ append_assoc out.stderr (progress_line x ∷ []) _,
            )
            | inr (k, e, part, succeeded, stopped, failed, texts) ↦
                let later : length out'.stderr + k ≡ length out.stderr + suc k =
                  omega (arith, length-append out.stderr (progress_line x ∷ [])) in
                inr (
                  suc k,
                  e,
                  omega (arith, part),
                  (n, subst (λ from. Succeed from k) one_more succeeded),
                  stopped,
                  rw later at failed,
                  texts ∙ append_assoc out.stderr (progress_line x ∷ []) _,
                )
          ],
        )
  ]
