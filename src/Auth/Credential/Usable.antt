-- ===== src/Auth/Credential/Usable.antt =====
-- What `deserialize_structural` of credential.rs asks of a record, and which operations keep it.
use rust_agent_harness.Prelude.{
  ◌≡◌, true, false, some, ok, and_then, arith, Option-cases, none, inl, Option, inr, ℕ,
  Result-cases, ap, ◌∙◌,
}
use rust_agent_harness.Text.{Bytes, Text}
use rust_agent_harness.Auth.Credential.Claims.{
  Libraries, is_blank, valid_header_component, decode_jwt_payload, account_id, disagrees,
  validate_returned_account, required_returned_token, optional_rotated_token,
}
use rust_agent_harness.Auth.Credential.Record.{
  CredentialRecord, Codec, schema_version, deserialize_structural, refreshed_identity,
  apply_refresh, RefreshResponse,
}

module _ (libs : Libraries) where
  pub record IsUsable (r : CredentialRecord) : Type 0 where
    pub version_known : r.version ≡ schema_version
    pub access_valid : valid_header_component libs r.access_token ≡ true
    pub account_valid : valid_header_component libs r.chatgpt_account_id ≡ true
    pub refresh_filled : is_blank r.refresh_token ≡ false
    pub id_filled : is_blank r.id_token ≡ false
    pub id_claims : libs.json.Value
    pub id_decodes : decode_jwt_payload libs r.id_token ≡ some id_claims
    pub access_agrees :
        disagrees libs
          (and_then (decode_jwt_payload libs r.access_token) (account_id libs))
          r.chatgpt_account_id
        ≡ false
    pub id_agrees : disagrees libs (account_id libs id_claims) r.chatgpt_account_id ≡ false

  pub deserialize_structural_usable :
      (codec : Codec) (b : Bytes) (r : CredentialRecord)
      → codec.from_slice b ≡ some r
      → IsUsable r
      → deserialize_structural libs codec b ≡ ok r
  unfolding deserialize_structural
  deserialize_structural_usable codec b r read usable = rw (
    read, usable.version_known, usable.access_valid, usable.account_valid, usable.refresh_filled,
    usable.id_filled, usable.id_decodes, usable.access_agrees, usable.id_agrees,
  )

  deserialize_structural-decoded :
      (codec : Codec) (b : Bytes) (r : CredentialRecord) (claims : libs.json.Value)
      → deserialize_structural libs codec b ≡ ok r
      → decode_jwt_payload libs r.id_token ≡ some claims
      → IsUsable r
  unfolding deserialize_structural
  deserialize_structural-decoded codec b r claims h decodes = record {
    version_known = ground arith;
    access_valid = ground arith;
    account_valid = ground arith;
    refresh_filled = ground arith;
    id_filled = ground arith;
    id_claims = claims;
    id_decodes = decodes;
    access_agrees = ground arith;
    id_agrees = ground arith;
  }

  deserialize_structural-undecoded :
      (codec : Codec) (b : Bytes) (r : CredentialRecord)
      → deserialize_structural libs codec b ≡ ok r
      → decode_jwt_payload libs r.id_token ≡ none
      → ⊥
  unfolding deserialize_structural
  deserialize_structural-undecoded codec b r h undecoded = ground arith

  deserialize_structural-read :
      (codec : Codec) (b : Bytes) (r : CredentialRecord)
      → deserialize_structural libs codec b ≡ ok r
      → codec.from_slice b ≡ some r
  unfolding deserialize_structural
  deserialize_structural-read codec b r h = ground arith

  pub deserialize_structural-ok :
      (codec : Codec) (b : Bytes) (r : CredentialRecord)
      → deserialize_structural libs codec b ≡ ok r
      → (codec.from_slice b ≡ some r) × IsUsable r
  deserialize_structural-ok codec b r h = elim (Option-cases (decode_jwt_payload libs r.id_token)) [
    | inl undecoded ↦ absurd (deserialize_structural-undecoded codec b r h undecoded)
    | inr (claims, decodes) ↦ (
      deserialize_structural-read codec b r h,
      deserialize_structural-decoded codec b r claims h decodes,
    )
  ]

  -- What is known of a refreshed identity token.
  abbrev IdentityFits : Text → Text → Type 0
  IdentityFits account id_token =
      (claims : libs.json.Value) × (decode_jwt_payload libs id_token ≡ some claims)
      × (disagrees libs (account_id libs claims) account ≡ false)
      × (is_blank id_token ≡ false)

  refreshed_identity-fits :
      (r : CredentialRecord) (returned : Option Text)
      (identity : Text × (Option Text × Option Text))
      → IsUsable r
      → refreshed_identity libs r returned ≡ ok identity
      → IdentityFits r.chatgpt_account_id identity.0
  unfolding refreshed_identity validate_returned_account
  refreshed_identity-fits r none identity usable h =
      (usable.id_claims, ground arith, usable.id_agrees, ground arith)
  refreshed_identity-fits r (some id_token) identity usable h =
      elim (Option-cases (decode_jwt_payload libs id_token)) [
        | inl undecoded ↦ absurd (ground arith)
        | inr (claims, decodes) ↦ (claims, ground arith, ground arith, ground arith)
      ]

  -- The conditions on the tokens of a refreshed record.
  abbrev RefreshFits : CredentialRecord → CredentialRecord → Type 0
  RefreshFits r replacement =
      (replacement.version ≡ schema_version)
      × (replacement.chatgpt_account_id ≡ r.chatgpt_account_id)
      × (valid_header_component libs replacement.access_token ≡ true)
      × (is_blank replacement.refresh_token ≡ false)
      × (disagrees libs
            (and_then (decode_jwt_payload libs replacement.access_token) (account_id libs))
            r.chatgpt_account_id
          ≡ false)

  apply_refresh-fits :
      (r : CredentialRecord) (response : RefreshResponse) (now : ℕ) (replacement : CredentialRecord)
      → IsUsable r
      → apply_refresh libs r response now ≡ ok replacement
      → RefreshFits r replacement
  unfolding apply_refresh required_returned_token optional_rotated_token validate_returned_account
  apply_refresh-fits r response now replacement usable h = ground arith

  apply_refresh-identity :
      (r : CredentialRecord) (response : RefreshResponse) (now : ℕ) (replacement : CredentialRecord)
      → apply_refresh libs r response now ≡ ok replacement
      → (identity : Text × (Option Text × Option Text)) × (refreshed_identity libs r
            response.id_token
          ≡ ok identity)
        × (replacement.id_token ≡ identity.0)
  unfolding apply_refresh
  apply_refresh-identity r response now replacement h =
      elim (Result-cases (refreshed_identity libs r response.id_token)) [
        | inl (identity, e) ↦ (identity, e, ground arith)
        | inr (e, failed) ↦ absurd (ground arith)
      ]

  -- A refresh of a usable record leaves a usable record: the version is known, the access token and
  -- the account are valid as headers, no token is blank, the identity token decodes, and the
  -- accounts of the tokens agree with the record's.
  pub apply_refresh-IsUsable :
      (r : CredentialRecord) (response : RefreshResponse) (now : ℕ) (replacement : CredentialRecord)
      → IsUsable r
      → apply_refresh libs r response now ≡ ok replacement
      → IsUsable replacement
  apply_refresh-IsUsable r response now replacement usable h =
      let (known, account, valid, rotated, access) =
        apply_refresh-fits r response now replacement usable h in
      let (identity, e, kept) = apply_refresh-identity r response now replacement h in
      let (claims, decodes, agrees, filled) =
        refreshed_identity-fits r response.id_token identity usable e in
      record {
        version_known = known;
        access_valid = valid;
        account_valid = rw account usable.account_valid;
        refresh_filled = rotated;
        id_filled = ap is_blank kept ∙ filled;
        id_claims = claims;
        id_decodes = ap (decode_jwt_payload libs) kept ∙ decodes;
        access_agrees = rw account access;
        id_agrees = ap (disagrees libs (account_id libs claims)) account ∙ agrees;
      }
