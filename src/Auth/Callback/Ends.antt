-- ===== src/Auth/Callback/Ends.antt =====
-- How the loop of `CallbackListener::wait`, callback.rs, ends.
use rust_agent_harness.Prelude.{
  ℕ, zero, suc, ◌+◌, ◌-◌, ◌<◌, ◌≤◌, ◌≡◌, inl, inr, Option, none, some, List, ◌∷◌, Result, ok, err,
  arith, ◌==◌, Bool-cases, Result-cases, Option-cases, false, sym,
}
use mathlib.Core.Path.{subst}
use rust_agent_harness.Text.{Bytes, Text}
use rust_agent_harness.Auth.Errors.{CallbackError, callback_timed_out, listener_failed}
use rust_agent_harness.Auth.Callback.{Request}
use rust_agent_harness.Auth.Callback.Wait.{
  CallbackOutcome, Waited, wait, ending, received, outcome_of, Receipt, receipt,
}

module _ (parse : Bytes → List (Text × Text)) (clock : ℕ → ℕ)
    (recv_timeout : ℕ → ℕ → Result (Unit {0}) (Option Request)) (expected_state : Text)
    (deadline : ℕ) where
  abbrev answer_of : ℕ → Result (Unit {0}) (Option Request)
  answer_of = received parse clock recv_timeout expected_state deadline

  abbrev judged : Request → Option CallbackOutcome
  judged request = ending (outcome_of parse clock recv_timeout expected_state deadline request)

  -- From a turn on: the first request that ends the wait decides, while there is time.
  pub data Decides : ℕ → Result CallbackError CallbackOutcome → Type 0 where
    late : {turn : ℕ} → deadline ≤ clock turn → Decides turn (err callback_timed_out)
    broken :
        {turn : ℕ}
        → clock turn < deadline
        → answer_of turn ≡ err tt
        → Decides turn (err listener_failed)
    quiet :
        {turn : ℕ} {result : Result CallbackError CallbackOutcome}
        → clock turn < deadline
        → answer_of turn ≡ ok none
        → Decides (suc turn) result
        → Decides turn result
    passed_over :
        {turn : ℕ} {result : Result CallbackError CallbackOutcome} (request : Request)
        → clock turn < deadline
        → answer_of turn ≡ ok (some request)
        → judged request ≡ none
        → Decides (suc turn) result
        → Decides turn result
    decided :
        {turn : ℕ} (request : Request) (outcome : CallbackOutcome)
        → clock turn < deadline
        → answer_of turn ≡ ok (some request)
        → judged request ≡ some outcome
        → Decides turn (ok outcome)

  abbrev pub EndsFrom : ℕ → Option Waited → Type 0
  EndsFrom turn none = ⊥
  EndsFrom turn (some waited) = Decides turn waited.result

  EndsFrom-later :
      (turn : ℕ) (found : Option Waited)
      → ((result : Result CallbackError CallbackOutcome)
          → Decides (suc turn) result
          → Decides turn result)
      → EndsFrom (suc turn) found
      → EndsFrom turn found
  EndsFrom-later turn none earlier ends = ends
  EndsFrom-later turn (some waited) earlier ends = earlier waited.result ends

  abbrev run : ℕ → ℕ → List Receipt → Option Waited
  run = wait parse clock recv_timeout expected_state deadline

  wait-quiet :
      (fuel turn : ℕ) (receipts : List Receipt)
      → (deadline - clock turn == 0) ≡ false
      → answer_of turn ≡ ok none
      → run (suc fuel) turn receipts ≡ run fuel (suc turn) receipts
  unfolding wait
  wait-quiet fuel turn receipts some_left h = ground arith

  wait-passed_over :
      (fuel turn : ℕ) (receipts : List Receipt) (request : Request)
      → (deadline - clock turn == 0) ≡ false
      → answer_of turn ≡ ok (some request)
      → judged request ≡ none
      → run (suc fuel) turn receipts
        ≡ run fuel (suc turn) (
            receipt (outcome_of parse clock recv_timeout expected_state deadline request)
            ∷ receipts)
  unfolding wait
  wait-passed_over fuel turn receipts request some_left h goes_on = ground arith

  wait-step :
      (fuel turn : ℕ) (receipts : List Receipt)
      → (deadline - clock turn == 0) ≡ false
      → ((more : List Receipt) → EndsFrom (suc turn) (run fuel (suc turn) more))
      → EndsFrom turn (run (suc fuel) turn receipts)
  unfolding wait
  wait-step fuel turn receipts some_left later =
      let in_time : clock turn < deadline = ground arith in
      elim (Result-cases (answer_of turn)) [
        | inr (e, failed) ↦ rw (some_left, failed, EndsFrom) (broken in_time failed)
        | inl (none, h) ↦
            subst (EndsFrom turn) (sym (wait-quiet fuel turn receipts some_left h))
              (EndsFrom-later turn _ (λ result. quiet in_time h) (later receipts))
        | inl (some request, h) ↦ elim (Option-cases (judged request)) [
          | inl goes_on ↦
              subst (EndsFrom turn)
                (sym (wait-passed_over fuel turn receipts request some_left h goes_on))
                (EndsFrom-later turn _ (λ result. passed_over request in_time h goes_on) (later _))
          | inr (outcome, ends) ↦
              rw (some_left, h, ends, EndsFrom) (decided request outcome in_time h ends)
        ]
      ]

  -- When the clock has passed the deadline after so many turns, the loop ends within one turn more,
  -- and as its turns have it: it passes over requests that decide nothing, ends with the outcome of
  -- the first request that decides, and times out at the first turn at or after the deadline.
  pub wait-EndsFrom :
      (fuel turn : ℕ) (receipts : List Receipt)
      → deadline ≤ clock (turn + fuel)
      → EndsFrom turn (run (suc fuel) turn receipts)
  unfolding wait
  wait-EndsFrom zero turn receipts passes = elim (Bool-cases (deadline - clock turn == 0)) [
    | inl none_left ↦ rw (none_left, EndsFrom) (late (ground arith))
    | inr some_left ↦ absurd (ground arith)
  ]
  wait-EndsFrom (suc fuel) turn receipts passes =
      let same : turn + suc fuel ≡ suc turn + fuel = omega arith in
      elim (Bool-cases (deadline - clock turn == 0)) [
        | inl none_left ↦ rw (none_left, EndsFrom) (late (ground arith))
        | inr some_left ↦ wait-step (suc fuel) turn receipts some_left (λ more.
            wait-EndsFrom fuel (suc turn) more (subst (λ k. deadline ≤ clock k) same passes))
      ]
