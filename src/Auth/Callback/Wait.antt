-- ===== src/Auth/Callback/Wait.antt =====
-- Waiting for the callback, callback.rs: `CallbackListener::bind`, `redirect_uri` and `wait`.
-- The server, the clock and the parser of form-encoded pairs are parameters; times are
-- milliseconds.
use rust_agent_harness.Prelude.{
  ℕ, zero, suc, ◌-◌, Option, none, some, List, [], ◌∷◌, ◌++◌, Result, ok, err, min, ◌==◌, true,
  false,
}
use rust_agent_harness.Text.{Bytes, Text, text}
use rust_agent_harness.Cli.Show.{decimal}
use rust_agent_harness.Auth.Errors.{
  CallbackError, ports_unavailable, callback_timed_out, listener_failed,
}
use rust_agent_harness.Auth.Callback.{
  Request, RequestOutcome, request_code, request_denied, request_temporarily_unavailable,
  request_failed, request_invalid, request_oversized, validate_request,
}

pub data CallbackOutcome : Type 0 where
  callback_code : Text → CallbackOutcome
  denied temporarily_unavailable failed : CallbackOutcome

-- `http` is `Server::http` on localhost, with the port of the bound address where that is the
-- localhost.
unfoldable pub bind : (ℕ → Result (Unit {0}) (Option ℕ)) → List ℕ → Result CallbackError ℕ
bind http [] = err ports_unavailable
bind http (port ∷ ports) = elim (http port) [
  | err _ ↦ bind http ports
  | ok none ↦ err listener_failed
  | ok (some bound) ↦ ok bound
]

unfoldable pub redirect_uri : ℕ → Text
redirect_uri port = text "http://localhost:" ++ decimal port ++ text "/auth/callback"

abbrev pub receipt_page : Text
receipt_page =
    text
      "<!doctype html><html><head><meta charset=\"utf-8\"><title>Authorization received</title></head><body><h1>Authorization received</h1><p>Return to the terminal to finish connecting OpenAI Codex.</p></body></html>"

-- What is sent back: a status and a page.
abbrev pub Receipt : Type 0
Receipt = ℕ × Text

unfoldable pub receipt : RequestOutcome → Receipt
receipt (request_code code) = (200, receipt_page)
receipt request_denied = (200, text "Authorization was denied. Return to the terminal.")
receipt request_temporarily_unavailable =
    (200, text "Authorization did not complete. Return to the terminal.")
receipt request_failed = (200, text "Authorization did not complete. Return to the terminal.")
receipt request_invalid = (400, text "Invalid authorization callback.")
receipt request_oversized = (414, text "Request target is too large.")

-- What ends the wait; `none` where the loop goes on.
unfoldable pub ending : RequestOutcome → Option CallbackOutcome
ending (request_code code) = some (callback_code code)
ending request_denied = some denied
ending request_temporarily_unavailable = some temporarily_unavailable
ending request_failed = some failed
ending request_invalid = none
ending request_oversized = none

pub record Waited : Type 0 where
  pub receipts : List Receipt
  pub result : Result CallbackError CallbackOutcome

abbrev ended : List Receipt → Result CallbackError CallbackOutcome → Option Waited
ended receipts result = some (record { receipts = receipts; result = result })

-- The clock at each turn of the loop, and what `recv_timeout` answers in it. Whether a receipt
-- can be delivered is ignored by the source.
module _ (parse : Bytes → List (Text × Text)) (clock : ℕ → ℕ)
    (recv_timeout : ℕ → ℕ → Result (Unit {0}) (Option Request)) (expected_state : Text)
    (deadline : ℕ) where
  abbrev pub remaining : ℕ → ℕ
  remaining turn = deadline - clock turn

  abbrev pub received : ℕ → Result (Unit {0}) (Option Request)
  received turn = recv_timeout turn (min (remaining turn) 100)

  abbrev pub outcome_of : Request → RequestOutcome
  outcome_of request = validate_request parse request expected_state

  -- `none`: out of fuel.
  unfoldable pub wait : ℕ → ℕ → List Receipt → Option Waited
  unfolding validate_request receipt ending
  wait zero turn receipts = none
  wait (suc fuel) turn receipts = elim (remaining turn == 0) [
    | true ↦ ended receipts (err callback_timed_out)
    | false ↦ elim (received turn) [
      | err _ ↦ ended receipts (err listener_failed)
      | ok none ↦ wait fuel (suc turn) receipts
      | ok (some request) ↦ elim (ending (outcome_of request)) [
        | some outcome ↦ ended (receipt (outcome_of request) ∷ receipts) (ok outcome)
        | none ↦ wait fuel (suc turn) (receipt (outcome_of request) ∷ receipts)
      ]
    ]
  ]
