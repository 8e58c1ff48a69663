-- ===== src/Auth/Tests/Records.antt =====
-- Credential records at concrete inputs.
use native.Mathlib.Decide.{ℕ_discrete}
use rust_agent_harness.Prelude.{ℕ, ◌≡◌, refl, ok, some, arith, ◌∷◌, [], ◌<◌, ◌≤◌, ◌+◌}
use rust_agent_harness.Auth.Credential.Claims.{
  is_blank, valid_header_component, decode_jwt_payload, payload_segment, account_id, disagrees,
  filled, expiry, display_metadata, safe_claim, safe_text, lifetime_end, earliest_deadline,
  required_returned_token, optional_rotated_token, validate_returned_account,
}
use rust_agent_harness.Auth.Credential.Record.{
  validate, apply_refresh, refreshed_identity, serialize, accounts_differ, deserialize_structural,
}
use rust_agent_harness.Text.{
  text, trim, trim_start, trim_end, is_whitespace, is_control, split, eq_text,
}
use rust_agent_harness.Auth.Credential.Usable.{
  IsUsable, apply_refresh-IsUsable, deserialize_structural-ok,
}
use rust_agent_harness.Auth.Credential.Stored.{apply_refresh-stored, validate-stored, as_read}
use rust_agent_harness.Auth.Credential.Display.{
  IsDisplayable, validate-IsDisplayable, apply_refresh-IsDisplayable, validate-deadline,
}
use rust_agent_harness.Auth.Tests.Samples.{
  libs, codec, codec-ReadsBack, response, stored, refresh_response, renewed, toy_get, letter_of,
  letter_or, CredentialRecord-discrete, record_of,
}

pub validate-response : validate libs response 1000 ≡ ok stored
unfolding validate is_blank trim trim_start trim_end is_whitespace decode_jwt_payload
    payload_segment split account_id filled accounts_differ expiry lifetime_end earliest_deadline
    display_metadata safe_claim safe_text is_control text eq_text toy_get
validate-response = refl

pub apply_refresh-response : apply_refresh libs stored refresh_response 2000 ≡ ok renewed
unfolding apply_refresh refreshed_identity is_blank trim trim_start trim_end is_whitespace
    decode_jwt_payload payload_segment split account_id filled disagrees validate_returned_account
    expiry lifetime_end earliest_deadline display_metadata safe_claim safe_text is_control text
    eq_text toy_get required_returned_token optional_rotated_token valid_header_component
apply_refresh-response = refl

pub serialize-stored : serialize codec stored ≡ ok (b's' ∷ [])
unfolding serialize letter_of letter_or CredentialRecord-discrete text ℕ_discrete
serialize-stored = refl

pub serialize-renewed : serialize codec renewed ≡ ok (b'r' ∷ [])
unfolding serialize letter_of letter_or CredentialRecord-discrete text ℕ_discrete
serialize-renewed = refl

pub deserialize_structural-stored : deserialize_structural libs codec (b's' ∷ []) ≡ ok stored
unfolding deserialize_structural record_of is_blank trim trim_start trim_end is_whitespace
    decode_jwt_payload payload_segment split account_id filled disagrees valid_header_component
    is_control text eq_text toy_get
deserialize_structural-stored = refl

pub stored-IsUsable : IsUsable libs stored
stored-IsUsable =
    (deserialize_structural-ok libs codec (b's' ∷ []) stored deserialize_structural-stored).1

apply_refresh-stored_example : deserialize_structural libs codec (b'r' ∷ []) ≡ ok renewed
apply_refresh-stored_example =
    apply_refresh-stored libs codec codec-ReadsBack stored refresh_response 2000 renewed (b'r' ∷ [])
      stored-IsUsable apply_refresh-response serialize-renewed

validate-stored_example : deserialize_structural libs codec (b's' ∷ []) ≡ as_read libs stored
validate-stored_example =
    validate-stored libs codec codec-ReadsBack response 1000 stored (b's' ∷ []) validate-response
      serialize-stored

apply_refresh-IsUsable_example : IsUsable libs renewed
apply_refresh-IsUsable_example =
    apply_refresh-IsUsable libs stored refresh_response 2000 renewed stored-IsUsable
      apply_refresh-response

apply_refresh-IsDisplayable_example : IsDisplayable renewed
apply_refresh-IsDisplayable_example =
    apply_refresh-IsDisplayable libs stored refresh_response 2000 renewed
      (validate-IsDisplayable libs response 1000 stored validate-response) apply_refresh-response

validate-deadline_example :
    (deadline : ℕ) × (stored.access_token_expires_at ≡ some deadline)
    × (1000 < deadline)
    × (deadline ≤ 1000 + 3600)
validate-deadline_example =
    validate-deadline libs response 1000 3600 stored validate-response refl (omega arith)
      (omega arith)
