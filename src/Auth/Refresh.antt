-- ===== src/Auth/Refresh.antt =====
-- The refresh request, refresh.rs: `request_refresh` and what it calls. serde_json, the HTTP
-- client and the clock are parameters; times are milliseconds since the request started.
pub mod Bounded
pub mod Answered
use rust_agent_harness.Auth.Login.{client_id}
use rust_agent_harness.Prelude.{
  ℕ, zero, suc, ◌+◌, ◌-◌, ◌*◌, Bool, true, false, not, ◌&&◌, ◌||◌, Option, none, some, List, [],
  ◌∷◌, ◌++◌, Result, ok, err, ◌>>=◌, ◌>>◌, refuse_if, map_err, ok_or, leb, ltb, ◌==◌, if◌then◌else◌,
  length, map, min, word_modulus, and_then, is_empty,
}
use rust_agent_harness.Text.{Bytes, Text, text, eq_text, to_ascii_lowercase}
use rust_agent_harness.Json.{Json}
use rust_agent_harness.Model.{in_class}
use rust_agent_harness.Auth.Credential.Record.{RefreshResponse}
use rust_agent_harness.Auth.Errors.{
  RefreshError, refresh_reauthentication_required, refresh_unavailable,
}

-- `elapsed_budget` and `response_body_limit`.
pub record RefreshConfig : Type 0 where
  pub elapsed_budget : ℕ
  pub response_body_limit : ℕ

abbrev pub production : RefreshConfig
production = record { elapsed_budget = 30 * 1000; response_body_limit = 64 * 1024 }

-- `HttpResponse`: its head, and what each `read` of its body answers.
pub record HttpResponse : Type 0 where
  pub status : ℕ
  pub content_length : Option ℕ
  pub read : ℕ → Result (Unit {0}) Bytes

unfoldable pub check_budget : ℕ → ℕ → Result RefreshError (Unit {0})
check_budget elapsed budget = refuse_if (leb budget elapsed) refresh_unavailable

unfoldable pub is_permanent : Text → Bool
is_permanent code =
    eq_text code (text "refresh_token_expired")
    || eq_text code (text "refresh_token_reused")
    || eq_text code (text "refresh_token_invalidated")

module _ (json : Json) where
  unfoldable pub error_code : json.Value → Option Text
  error_code body = elim (json.get body (text "error")) [
    | none ↦ and_then (json.get body (text "code")) json.as_str
    | some error ↦ elim (json.as_object error) [
      | some object ↦ and_then (json.get object (text "code")) json.as_str
      | none ↦ elim (json.as_str error) [
        | some code ↦ some code
        | none ↦ and_then (json.get body (text "code")) json.as_str
      ]
    ]
  ]

  unfoldable pub permanent_error_code : Bytes → Bool
  unfolding error_code is_permanent
  permanent_error_code bytes =
      elim (and_then (and_then (json.from_slice bytes) json.as_object) error_code) [
        | none ↦ false
        | some code ↦ is_permanent (map to_ascii_lowercase code)
      ]

-- The time at each reading of the clock; the loop reads it before and after each `read`.
module _ (config : RefreshConfig) (elapsed : ℕ → ℕ) where
  abbrev pub too_long : ℕ → Bool
  too_long n = ltb config.response_body_limit n

  -- What one turn of the loop comes to: an error, the end of the body, or more bytes.
  unfoldable pub read_turn : ℕ → Result (Unit {0}) Bytes → Result RefreshError Bytes
  unfolding check_budget
  read_turn turn answer = do
    check_budget (elapsed (2 + 2 * turn)) config.elapsed_budget
    bytes ← map_err (λ _. refresh_unavailable) answer
    check_budget (elapsed (3 + 2 * turn)) config.elapsed_budget
    ok bytes

  -- `none`: out of fuel.
  unfoldable pub read_loop :
      (ℕ → Result (Unit {0}) Bytes) → ℕ → ℕ → Bytes → Option (Result RefreshError Bytes)
  read_loop read zero turn body = none
  read_loop read (suc fuel) turn body = elim (read_turn turn (read turn)) [
    | err e ↦ some (err e)
    | ok [] ↦ some (ok body)
    | ok (b ∷ bytes) ↦ elim (too_long (min (length body + length (b ∷ bytes)) (word_modulus - 1))) [
      | true ↦ some (err refresh_unavailable)
      | false ↦ read_loop read fuel (suc turn) (body ++ b ∷ bytes)
    ]
  ]

  abbrev pub is_announced_too_long : Option ℕ → Bool
  is_announced_too_long none = false
  is_announced_too_long (some length') = too_long length'

  unfoldable pub read_bounded : ℕ → HttpResponse → Option (Result RefreshError Bytes)
  unfolding read_loop
  read_bounded fuel response =
      if is_announced_too_long response.content_length
      then some (err refresh_unavailable)
      else read_loop response.read fuel 0 []

-- `RefreshRequest`
pub record RefreshRequest : Type 0 where
  pub grant_type : Text
  pub refresh_token : Text
  pub client_id : Text

-- What the HTTP client and serde_json answer: building the client, writing the request as JSON,
-- sending it, and reading the response's JSON.
pub record RefreshProbe : Type 0 where
  pub client : Result (Unit {0}) (Unit {0})
  pub to_vec : RefreshRequest → Option Bytes
  pub send : Bytes → Result (Unit {0}) HttpResponse
  pub elapsed : ℕ → ℕ
  pub read_tokens : Bytes → Option RefreshResponse

unfoldable pub refresh_request : Text → RefreshRequest
refresh_request refresh_token = record {
  grant_type = text "refresh_token";
  refresh_token = refresh_token;
  client_id = client_id;
}

module _ (config : RefreshConfig) (json : Json) (probe : RefreshProbe) where
  -- Up to the head of the response.
  unfoldable pub sent : Text → Result RefreshError HttpResponse
  unfolding check_budget refresh_request
  sent refresh_token = do
    map_err (λ _. refresh_unavailable) probe.client
    check_budget (probe.elapsed 0) config.elapsed_budget
    body ← ok_or (probe.to_vec (refresh_request refresh_token)) refresh_unavailable
    response ← map_err (λ _. refresh_unavailable) (probe.send body)
    check_budget (probe.elapsed 1) config.elapsed_budget
    ok response

  -- What a whole body means under a status.
  unfoldable pub classify : ℕ → Bytes → Result RefreshError RefreshResponse
  unfolding permanent_error_code
  classify status body =
      if not (in_class 2 status)
      then (if permanent_error_code json body
          then err refresh_reauthentication_required
          else err refresh_unavailable)
      else ok_or (probe.read_tokens body) refresh_unavailable

  -- `none`: out of fuel.
  unfoldable pub request_refresh : ℕ → Text → Option (Result RefreshError RefreshResponse)
  unfolding sent read_bounded classify
  request_refresh fuel refresh_token = elim (sent refresh_token) [
    | err e ↦ some (err e)
    | ok response ↦ elim (response.status == 401) [
      | true ↦ some (err refresh_reauthentication_required)
      | false ↦ elim (read_bounded config probe.elapsed fuel response) [
        | none ↦ none
        | some (err e) ↦ some (err e)
        | some (ok body) ↦ some (classify response.status body)
      ]
    ]
  ]
