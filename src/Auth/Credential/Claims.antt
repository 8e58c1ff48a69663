-- ===== src/Auth/Credential/Claims.antt =====
-- The claims of a token, credential.rs: `decode_jwt_payload` and what is read from the claims.
-- base64 and the HTTP library's header values are parameters.
use rust_agent_harness.Prelude.{
  ℕ, Bool, false, not, ◌&&◌, ◌||◌, Option, none, some, List, [], ◌∷◌, Result, ok, err, is_empty,
  all, length, ltb, min, if◌then◌else◌, and_then, checked_add,
}
use rust_agent_harness.Text.{Bytes, Text, text, eq_text, trim, split, is_control}
use rust_agent_harness.Json.{Json}

-- `i64`
pub data ℤ : Type 0 where
  pos negsuc : ℕ → ℤ

abbrev pub auth_claim : Text
auth_claim = text "https://api.openai.com/auth"

-- What the module calls: serde_json, `URL_SAFE_NO_PAD.decode`, and
-- `HeaderValue::from_str(value).is_ok()`.
pub record Libraries : Type 1 where
  pub json : Json
  pub decode_base64 : Text → Option Bytes
  pub is_header_value : Text → Bool

pub data CredentialError : Type 0 where
  malformed_token_set missing_account mismatched_account invalid_expiry serialization :
      CredentialError

-- The payload of a token of exactly three segments, none of them empty.
unfoldable pub payload_segment : List Text → Option Text
payload_segment (header ∷ payload ∷ signature ∷ []) =
    if is_empty header || is_empty payload || is_empty signature then none else some payload
payload_segment _ = none

-- The text, trimmed, unless nothing is left.
unfoldable pub filled : Text → Option Text
filled t = if is_empty (trim t) then none else some (trim t)

-- The end of a lifetime that starts now.
unfoldable pub lifetime_end : ℕ → ℤ → Option ℕ
lifetime_end now (pos seconds) = if ltb 0 seconds then checked_add now seconds else none
lifetime_end now (negsuc n) = none

unfoldable pub earliest_deadline : Option ℕ → Option ℕ → Option ℕ
earliest_deadline (some first) (some second) = some (min first second)
earliest_deadline (some deadline) none = some deadline
earliest_deadline none (some deadline) = some deadline
earliest_deadline none none = none

unfoldable pub is_blank : Text → Bool
is_blank t = is_empty (trim t)

unfoldable pub required_returned_token : Option Text → Result CredentialError Text
unfolding is_blank
required_returned_token (some token) =
    if not (is_blank token) then ok token else err malformed_token_set
required_returned_token none = err malformed_token_set

unfoldable pub optional_rotated_token : Option Text → Text → Result CredentialError Text
unfolding is_blank
optional_rotated_token (some token) stored =
    if not (is_blank token) then ok token else err malformed_token_set
optional_rotated_token none stored = ok stored

-- `safe_claim`, from the text of the claim.
unfoldable pub safe_text : ℕ → Text → Option Text
safe_text maximum_chars t =
    if is_empty (trim t)
      || ltb maximum_chars (length (trim t))
      || not (all (λ c. not (is_control c)) (trim t))
    then none
    else some (trim t)

module _ (libs : Libraries) where
  unfoldable pub valid_header_component : Text → Bool
  valid_header_component value =
      not (is_empty value)
      && eq_text value (trim value)
      && all (λ c. not (is_control c)) value
      && libs.is_header_value value

  unfoldable pub decode_jwt_payload : Text → Option libs.json.Value
  unfolding payload_segment
  decode_jwt_payload token =
      and_then (payload_segment (split b'.' token))
        (λ payload. and_then (libs.decode_base64 payload) libs.json.from_slice)

  unfoldable pub account_id : libs.json.Value → Option Text
  unfolding filled
  account_id claims = and_then (libs.json.get claims auth_claim) (λ claim.
      and_then (libs.json.get claim (text "chatgpt_account_id"))
        (λ account. and_then (libs.json.as_str account) filled))

  -- `account_id(claims).is_some_and(|account| account != stored_account_id)`
  unfoldable pub disagrees : Option Text → Text → Bool
  disagrees none stored = false
  disagrees (some account) stored = not (eq_text account stored)

  unfoldable pub validate_returned_account :
      libs.json.Value → Text → Result CredentialError (Unit {0})
  unfolding disagrees
  validate_returned_account claims stored_account_id =
      if disagrees (account_id claims) stored_account_id then err mismatched_account else ok tt

  unfoldable pub expiry : libs.json.Value → Option ℕ
  expiry claims = and_then (libs.json.get claims (text "exp")) libs.json.as_u64

  unfoldable pub safe_claim : Option libs.json.Value → ℕ → Option Text
  unfolding safe_text
  safe_claim value maximum_chars =
      and_then value (λ claim. and_then (libs.json.as_str claim) (safe_text maximum_chars))

  unfoldable pub display_metadata : libs.json.Value → Option Text × Option Text
  unfolding safe_claim
  display_metadata id_claims = (
    safe_claim (libs.json.get id_claims (text "email")) 254,
    and_then (libs.json.get id_claims auth_claim) (λ claim.
        and_then (libs.json.as_object claim) (λ object.
          and_then (libs.json.get object (text "chatgpt_plan_type"))
            (λ plan. safe_claim (some plan) 64))),
  )
