-- ===== src/Auth/Credential/Record.antt =====
-- The stored record, credential.rs: `CredentialRecord` with its operations, and the responses of
-- the token endpoint that it is built from (oauth.rs, refresh.rs).
use rust_agent_harness.Prelude.{
  ℕ, ◌+◌, ◌-◌, ◌*◌, Bool, true, false, not, ◌&&◌, ◌||◌, Option, none, some, Result, ok, ◌>>=◌, ◌>>◌,
  refuse_if, ok_or, ltb, leb, min, ◌==◌, and_then, keep_if, or_else, is_some, word_modulus, ◌≡◌,
}
use rust_agent_harness.Text.{Bytes, Text, eq_text}
use rust_agent_harness.Auth.Credential.Claims.{
  ℤ, Libraries, CredentialError, malformed_token_set, missing_account, mismatched_account,
  invalid_expiry, serialization, is_blank, lifetime_end, earliest_deadline, required_returned_token,
  optional_rotated_token, valid_header_component, decode_jwt_payload, account_id, disagrees,
  validate_returned_account, expiry, display_metadata,
}

abbrev pub schema_version : ℕ
schema_version = 1

abbrev pub refresh_window_seconds : ℕ
refresh_window_seconds = 5 * 60

pub record CredentialRecord : Type 0 where
  pub version : ℕ
  pub access_token : Text
  pub refresh_token : Text
  pub id_token : Text
  pub chatgpt_account_id : Text
  pub access_token_expires_at : Option ℕ
  pub email : Option Text
  pub plan : Option Text

pub record TokenResponse : Type 0 where
  pub access_token : Text
  pub refresh_token : Text
  pub id_token : Text
  pub expires_in : Option ℤ

pub record RefreshResponse : Type 0 where
  pub access_token : Option Text
  pub refresh_token : Option Text
  pub id_token : Option Text
  pub expires_in : Option ℤ

pub data StoredCredentialError : Type 0 where
  unsupported_version malformed expired : StoredCredentialError

-- serde_json at the record type: `to_vec` and `from_slice`.
pub record Codec : Type 0 where
  pub to_vec : CredentialRecord → Option Bytes
  pub from_slice : Bytes → Option CredentialRecord

-- What is written reads back.
abbrev pub ReadsBack : Codec → Type 0
ReadsBack codec =
    (r : CredentialRecord) (b : Bytes) → codec.to_vec r ≡ some b → codec.from_slice b ≡ some r

-- Both accounts are known and differ.
unfoldable pub accounts_differ : Option Text → Option Text → Bool
accounts_differ (some a) (some b) = not (eq_text a b)
accounts_differ _ _ = false

-- `expiry.is_some_and(|expiry| expiry <= now)`
unfoldable pub is_expired : ℕ → Option ℕ → Bool
is_expired now none = false
is_expired now (some expiry) = leb expiry now

-- `now.saturating_add(REFRESH_WINDOW_SECONDS)`
abbrev pub refresh_horizon : ℕ → ℕ
refresh_horizon now = min (now + refresh_window_seconds) (word_modulus - 1)

unfoldable pub refresh_due : CredentialRecord → ℕ → Bool
refresh_due r now = elim r.access_token_expires_at [
  | none ↦ true
  | some expiry ↦ leb expiry (refresh_horizon now)
]

unfoldable pub serialize : Codec → CredentialRecord → Result CredentialError Bytes
serialize codec r = ok_or (codec.to_vec r) serialization

module _ (libs : Libraries) where
  unfoldable pub validate : TokenResponse → ℕ → Result CredentialError CredentialRecord
  unfolding is_blank accounts_differ lifetime_end earliest_deadline
  validate response now = do
    refuse_if
        (is_blank response.access_token
          || is_blank response.refresh_token
          || is_blank response.id_token)
        malformed_token_set
    id_claims ← ok_or (decode_jwt_payload libs response.id_token) malformed_token_set
    let access_claims = decode_jwt_payload libs response.access_token
    let id_account = account_id libs id_claims
    let access_account = and_then access_claims (account_id libs)
    refuse_if (accounts_differ id_account access_account) mismatched_account
    account ← ok_or (or_else id_account access_account) missing_account
    let token_expiry = and_then access_claims (expiry libs)
    let response_expiry = and_then response.expires_in (lifetime_end now)
    let usable_token_expiry = keep_if (ltb now) token_expiry
    refuse_if
        ((is_some response.expires_in || is_some token_expiry)
          && not (is_some response_expiry)
          && not (is_some usable_token_expiry))
        invalid_expiry
    ok (record {
      version = schema_version;
      access_token = response.access_token;
      refresh_token = response.refresh_token;
      id_token = response.id_token;
      chatgpt_account_id = account;
      access_token_expires_at = earliest_deadline response_expiry usable_token_expiry;
      email = (display_metadata libs id_claims).0;
      plan = (display_metadata libs id_claims).1;
    })

  unfoldable pub deserialize : Codec → Bytes → ℕ → Result StoredCredentialError CredentialRecord
  unfolding is_expired
  deserialize codec serialized now = do
    r ← ok_or (codec.from_slice serialized) malformed
    refuse_if (not (r.version == schema_version)) unsupported_version
    refuse_if
        (not (valid_header_component libs r.access_token)
          || not (valid_header_component libs r.chatgpt_account_id))
        malformed
    refuse_if (is_expired now r.access_token_expires_at) expired
    ok r

  unfoldable pub deserialize_structural :
      Codec → Bytes → Result StoredCredentialError CredentialRecord
  unfolding is_blank disagrees
  deserialize_structural codec serialized = do
    r ← ok_or (codec.from_slice serialized) malformed
    refuse_if (not (r.version == schema_version)) unsupported_version
    refuse_if
        (not (valid_header_component libs r.access_token)
          || not (valid_header_component libs r.chatgpt_account_id)
          || is_blank r.refresh_token
          || is_blank r.id_token)
        malformed
    let access_claims = decode_jwt_payload libs r.access_token
    id_claims ← ok_or (decode_jwt_payload libs r.id_token) malformed
    refuse_if (disagrees libs (and_then access_claims (account_id libs)) r.chatgpt_account_id)
        malformed
    refuse_if (disagrees libs (account_id libs id_claims) r.chatgpt_account_id) malformed
    ok r

  -- The identity token of a refreshed record, with what it says for display.
  unfoldable pub refreshed_identity :
      CredentialRecord → Option Text → Result CredentialError (Text × (Option Text × Option Text))
  unfolding is_blank
  refreshed_identity r none = ok (r.id_token, (r.email, r.plan))
  refreshed_identity r (some id_token) = do
    refuse_if (is_blank id_token) malformed_token_set
    claims ← ok_or (decode_jwt_payload libs id_token) malformed_token_set
    validate_returned_account libs claims r.chatgpt_account_id
    ok (id_token, display_metadata libs claims)

  unfoldable pub apply_refresh :
      CredentialRecord → RefreshResponse → ℕ → Result CredentialError CredentialRecord
  unfolding lifetime_end earliest_deadline
  apply_refresh r response now = do
    access_token ← required_returned_token response.access_token
    refuse_if (not (valid_header_component libs access_token)) malformed_token_set
    access_claims ← ok_or (decode_jwt_payload libs access_token) malformed_token_set
    validate_returned_account libs access_claims r.chatgpt_account_id
    refresh_token ← optional_rotated_token response.refresh_token r.refresh_token
    identity ← refreshed_identity r response.id_token
    let token_expiry = expiry libs access_claims
    let response_expiry = and_then response.expires_in (lifetime_end now)
    deadline ← ok_or (earliest_deadline response_expiry token_expiry) invalid_expiry
    ok (record {
      version = schema_version;
      access_token = access_token;
      refresh_token = refresh_token;
      id_token = identity.0;
      chatgpt_account_id = r.chatgpt_account_id;
      access_token_expires_at = some deadline;
      email = identity.1.0;
      plan = identity.1.1;
    })
