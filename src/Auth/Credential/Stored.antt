-- ===== src/Auth/Credential/Stored.antt =====
-- What credential.rs stores and reads again: `validate`, `apply_refresh`, `serialize` and
-- `deserialize_structural` together.
use rust_agent_harness.Prelude.{
  ℕ, ◌≡◌, false, ◌&&◌, Option, none, some, Result, ok, err, if◌then◌else◌, arith, or_else, refl,
  Option-cases, inl, inr, and_then,
}
use rust_agent_harness.Text.{Bytes, Text, eq_text_self, eq_text_sym}
use rust_agent_harness.Auth.Credential.Claims.{
  Libraries, valid_header_component, disagrees, decode_jwt_payload, account_id,
}
use rust_agent_harness.Auth.Credential.Record.{
  CredentialRecord, Codec, ReadsBack, deserialize_structural, RefreshResponse, apply_refresh,
  serialize, malformed, validate, TokenResponse, StoredCredentialError, accounts_differ,
}
use rust_agent_harness.Auth.Credential.Usable.{
  IsUsable, deserialize_structural_usable, apply_refresh-IsUsable,
}

-- What `validate` checked of the accounts, at the account it stores.
or_else-agrees :
    (libs : Libraries) (first second : Option Text) (account : Text)
    → accounts_differ first second ≡ false
    → or_else first second ≡ some account
    → (disagrees libs first account ≡ false) × (disagrees libs second account ≡ false)
unfolding accounts_differ disagrees
or_else-agrees libs none none account same chosen = cc
or_else-agrees libs none (some b) account same chosen = (refl, ground (arith, eq_text_self account))
or_else-agrees libs (some a) none account same chosen = (ground (arith, eq_text_self account), refl)
or_else-agrees libs (some a) (some b) account same chosen =
    (ground (arith, eq_text_self account), ground (arith, eq_text_sym a b))

-- What is read of a record of which all but the headers is known to be right.
abbrev pub as_read : Libraries → CredentialRecord → Result StoredCredentialError CredentialRecord
as_read libs r =
    if valid_header_component libs r.access_token
      && valid_header_component libs r.chatgpt_account_id
    then ok r
    else err malformed

module _ (libs : Libraries) (codec : Codec) (reads_back : ReadsBack codec) where
  -- With a codec that reads back what it writes, a usable record that was refreshed and
  -- serialized is accepted again as it was.
  pub apply_refresh-stored :
      (r : CredentialRecord) (response : RefreshResponse) (now : ℕ) (replacement : CredentialRecord)
      (b : Bytes)
      → IsUsable libs r
      → apply_refresh libs r response now ≡ ok replacement
      → serialize codec replacement ≡ ok b
      → deserialize_structural libs codec b ≡ ok replacement
  unfolding serialize
  apply_refresh-stored r response now replacement b usable h written =
      deserialize_structural_usable libs codec b replacement
        (reads_back replacement b (ground arith))
        (apply_refresh-IsUsable libs r response now replacement usable h)

  -- With a codec that reads back what it writes, the record of a login that was serialized is
  -- accepted again as it was when its access token and its account are valid as headers, and
  -- refused as malformed otherwise.
  pub validate-stored :
      (response : TokenResponse) (now : ℕ) (r : CredentialRecord) (b : Bytes)
      → validate libs response now ≡ ok r
      → serialize codec r ≡ ok b
      → deserialize_structural libs codec b ≡ as_read libs r
  unfolding serialize validate deserialize_structural
  validate-stored response now r b h written =
      elim (Option-cases (decode_jwt_payload libs response.id_token)) [
        | inl undecoded ↦ absurd (ground arith)
        | inr (claims, decodes) ↦ ground (
          arith,
          reads_back r b,
          or_else-agrees libs (account_id libs claims)
              (and_then (decode_jwt_payload libs response.access_token) (account_id libs))
              r.chatgpt_account_id,
        )
      ]
