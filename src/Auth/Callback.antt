-- ===== src/Auth/Callback.antt =====
-- The callback of a login, callback.rs: `validate_request` and what it calls. The parser of
-- form-encoded pairs is a parameter.
pub mod Query
pub mod Encoded
pub mod Accepted
pub mod Wait
pub mod Ends
use rust_agent_harness.Prelude.{
  ℕ, ◌*◌, Bool, true, false, not, ◌&&◌, ◌||◌, Option, none, some, List, [], ◌∷◌, all, is_empty, ltb,
  if◌then◌else◌,
}
use rust_agent_harness.Text.{Bytes, Text, text, eq_text, len, split_once, strip_prefix, is_control}
use rust_agent_harness.Text.Utf8.{utf8}
use rust_agent_harness.Auth.Callback.Query.{query_is_well_formed}

abbrev pub callback_path : Text
callback_path = text "/auth/callback"

abbrev pub accepted_state_suffix : Text
accepted_state_suffix = text ".onboarding_entrypoint=life_sciences"

abbrev pub max_request_target_bytes : ℕ
max_request_target_bytes = 8 * 1024

pub record Request : Type 0 where
  pub is_get : Bool
  pub url : Text

pub data RequestOutcome : Type 0 where
  request_code : Text → RequestOutcome
  request_denied request_temporarily_unavailable request_failed request_invalid request_oversized :
      RequestOutcome

-- The three parameters that count: `state`, `code` and `error`.
pub record Found : Type 0 where
  pub state : Option Text
  pub code : Option Text
  pub error : Option Text

abbrev pub nothing_found : Found
nothing_found = record { state = none; code = none; error = none }

-- `destination.replace(value)`, which refuses a second value.
abbrev pub put : Text → Option Text → (Option Text → Found) → Option Found
put value none placed = some (placed (some value))
put value (some old) placed = none

unfoldable pub place : Text → Text → Found → Option Found
place name value found =
    if eq_text name (text "state")
    then put value found.state (λ o. record { state = o; code = found.code; error = found.error })
    else if eq_text name (text "code")
    then put value found.code (λ o. record { state = found.state; code = o; error = found.error })
    else if eq_text name (text "error")
    then put value found.error (λ o. record { state = found.state; code = found.code; error = o })
    else some found

-- The loop over the pairs; `none` at a duplicate.
unfoldable pub collect : List (Text × Text) → Found → Option Found
unfolding place
collect [] found = some found
collect ((name, value) ∷ pairs) found = elim (place name value found) [
  | none ↦ none
  | some more ↦ collect pairs more
]

unfoldable pub is_safe_callback_value : Text → Bool
is_safe_callback_value value = not (is_empty value) && all (λ c. not (is_control c)) value

unfoldable pub accepted_state : Text → Text → Bool
accepted_state candidate expected =
    eq_text candidate expected || elim (strip_prefix expected candidate) [
      | none ↦ false
      | some suffix ↦ eq_text suffix accepted_state_suffix
    ]

unfoldable pub error_outcome : Text → RequestOutcome
error_outcome error =
    if eq_text error (text "access_denied")
    then request_denied
    else if eq_text error (text "server_error") || eq_text error (text "temporarily_unavailable")
    then request_temporarily_unavailable
    else request_failed

-- The `match` on the code and the error.
unfoldable pub code_or_error : Option Text → Option Text → RequestOutcome
unfolding is_safe_callback_value error_outcome
code_or_error (some code) none =
    if is_safe_callback_value code then request_code code else request_invalid
code_or_error none (some error) =
    if is_safe_callback_value error then error_outcome error else request_invalid
code_or_error (some code) (some error) = request_invalid
code_or_error none none = request_invalid

unfoldable pub found_outcome : Text → Option Found → RequestOutcome
unfolding accepted_state code_or_error
found_outcome expected none = request_invalid
found_outcome expected (some found) = elim found.state [
  | none ↦ request_invalid
  | some state ↦
      if is_empty state
      then request_invalid
      else if not (accepted_state state expected)
      then request_invalid
      else code_or_error found.code found.error
]

-- The path and the query of a target.
abbrev pub split_target : Text → Text × Text
split_target target = elim (split_once b'?' target) [ none ↦ (target, []) | some parts ↦ parts ]

-- `parse` is `form_urlencoded::parse`.
unfoldable pub validate_request : (Bytes → List (Text × Text)) → Request → Text → RequestOutcome
unfolding query_is_well_formed collect found_outcome
validate_request parse request expected_state =
    if not request.is_get
    then request_invalid
    else if ltb max_request_target_bytes (len request.url)
    then request_oversized
    else if not (eq_text (split_target request.url).0 callback_path)
    then request_invalid
    else if not (query_is_well_formed (split_target request.url).1)
    then request_invalid
    else found_outcome expected_state
        (collect (parse (utf8 (split_target request.url).1)) nothing_found)
