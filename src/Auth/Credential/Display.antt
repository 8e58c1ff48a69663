-- ===== src/Auth/Credential/Display.antt =====
-- The email and the plan that credential.rs takes from a token for display (`safe_claim`,
-- `display_metadata`), and the deadline it stores.
use rust_agent_harness.Prelude.{
  ℕ, ◌<◌, ◌≤◌, ◌≡◌, ◌≢◌, inl, inr, true, false, not, Option, none, some, [], ◌∷◌, ok, arith, all,
  All, length, ltb, is_empty, and_then, Option-cases, Result-cases, Bool-cases, word_modulus, ◌+◌,
}
use rust_agent_harness.Text.{Text, text, trim, is_control}
use rust_agent_harness.Auth.Credential.Claims.{
  Libraries, safe_text, safe_claim, display_metadata, auth_claim, decode_jwt_payload, lifetime_end,
  earliest_deadline, pos,
}
use rust_agent_harness.Auth.Credential.Record.{
  CredentialRecord, TokenResponse, RefreshResponse, validate, apply_refresh, refreshed_identity,
}

-- A text of one character at least and of so many at most, none of them a control character.
abbrev pub IsSafe : ℕ → Text → Type 0
IsSafe maximum t = (t ≢ []) × (length t ≤ maximum) × All (λ c. is_control c ≡ false) t

abbrev pub IsSafeClaim : ℕ → Option Text → Type 0
IsSafeClaim maximum none = Unit
IsSafeClaim maximum (some t) = IsSafe maximum t

abbrev pub IsDisplayable : CredentialRecord → Type 0
IsDisplayable r = IsSafeClaim 254 r.email × IsSafeClaim 64 r.plan

all-All : (t : Text) → all (λ c. not (is_control c)) t ≡ true → All (λ c. is_control c ≡ false) t
all-All [] h = tt
all-All (c ∷ t) h = (ground arith, all-All t (ground arith))

IsSafe-kept :
    (maximum : ℕ) (t : Text)
    → is_empty t ≡ false
    → ltb maximum (length t) ≡ false
    → all (λ c. not (is_control c)) t ≡ true
    → IsSafe maximum t
IsSafe-kept maximum t filled short plain = ((λ e. ground arith), ground arith, all-All t plain)

safe_text-IsSafe : (maximum : ℕ) (t : Text) → IsSafeClaim maximum (safe_text maximum t)
unfolding safe_text
safe_text-IsSafe maximum t = elim (Bool-cases (is_empty (trim t))) [
  | inl blank ↦ rw blank tt
  | inr filled ↦ elim (Bool-cases (ltb maximum (length (trim t)))) [
    | inl long ↦ rw (filled, long) tt
    | inr short ↦ elim (Bool-cases (all (λ c. not (is_control c)) (trim t))) [
      | inl plain ↦ rw (filled, short, plain) (IsSafe-kept maximum (trim t) filled short plain)
      | inr unsafe ↦ rw (filled, short, unsafe) tt
    ]
  ]
]

IsSafeClaim-and_then {ℓ} :
    {A : Type ℓ} (maximum : ℕ) (o : Option A) (f : A → Option Text)
    → ((a : A) → IsSafeClaim maximum (f a))
    → IsSafeClaim maximum (and_then o f)
IsSafeClaim-and_then maximum none f safe = tt
IsSafeClaim-and_then maximum (some a) f safe = safe a

module _ (libs : Libraries) where
  safe_claim-IsSafe :
      (value : Option libs.json.Value) (maximum : ℕ)
      → IsSafeClaim maximum (safe_claim libs value maximum)
  unfolding safe_claim
  safe_claim-IsSafe value maximum =
      IsSafeClaim-and_then maximum value _ (λ claim.
        IsSafeClaim-and_then maximum (libs.json.as_str claim) _ (safe_text-IsSafe maximum))

  pub display_metadata-IsSafe :
      (claims : libs.json.Value)
      → IsSafeClaim 254 (display_metadata libs claims).0
        × IsSafeClaim 64 (display_metadata libs claims).1
  unfolding display_metadata
  display_metadata-IsSafe claims = (
    safe_claim-IsSafe _ 254,
    IsSafeClaim-and_then 64 (libs.json.get claims auth_claim) _ (λ claim.
        IsSafeClaim-and_then 64 (libs.json.as_object claim) _ (λ object.
          IsSafeClaim-and_then 64 (libs.json.get object (text "chatgpt_plan_type")) _
            (λ plan. safe_claim-IsSafe (some plan) 64))),
  )

  validate-undecoded :
      (response : TokenResponse) (now : ℕ) (r : CredentialRecord)
      → validate libs response now ≡ ok r
      → decode_jwt_payload libs response.id_token ≡ none
      → ⊥
  unfolding validate
  validate-undecoded response now r h undecoded = ground arith

  validate-metadata :
      (response : TokenResponse) (now : ℕ) (r : CredentialRecord) (claims : libs.json.Value)
      → validate libs response now ≡ ok r
      → decode_jwt_payload libs response.id_token ≡ some claims
      → (r.email ≡ (display_metadata libs claims).0) × (r.plan ≡ (display_metadata libs claims).1)
  unfolding validate
  validate-metadata response now r claims h decodes = ground arith

  -- Whatever the tokens say, an account that `validate` accepts is safe to show: its email and
  -- its plan, where it has them, are not empty, have at most 254 and 64 characters, and hold no
  -- control character.
  pub validate-IsDisplayable :
      (response : TokenResponse) (now : ℕ) (r : CredentialRecord)
      → validate libs response now ≡ ok r
      → IsDisplayable r
  validate-IsDisplayable response now r h =
      elim (Option-cases (decode_jwt_payload libs response.id_token)) [
        | inl undecoded ↦ absurd (validate-undecoded response now r h undecoded)
        | inr (claims, decodes) ↦
            let (email, plan) = validate-metadata response now r claims h decodes in
            let (safe_email, safe_plan) = display_metadata-IsSafe claims in
            (rw email safe_email, rw plan safe_plan)
      ]

  refreshed_identity-kept :
      (r : CredentialRecord) (identity : Text × (Option Text × Option Text))
      → refreshed_identity libs r none ≡ ok identity
      → (identity.1.0 ≡ r.email) × (identity.1.1 ≡ r.plan)
  unfolding refreshed_identity
  refreshed_identity-kept r identity h = ground arith

  refreshed_identity-read :
      (r : CredentialRecord) (id_token : Text) (identity : Text × (Option Text × Option Text))
      (claims : libs.json.Value)
      → refreshed_identity libs r (some id_token) ≡ ok identity
      → decode_jwt_payload libs id_token ≡ some claims
      → (identity.1.0 ≡ (display_metadata libs claims).0)
        × (identity.1.1 ≡ (display_metadata libs claims).1)
  unfolding refreshed_identity
  refreshed_identity-read r id_token identity claims h decodes = ground arith

  refreshed_identity-undecoded :
      (r : CredentialRecord) (id_token : Text) (identity : Text × (Option Text × Option Text))
      → refreshed_identity libs r (some id_token) ≡ ok identity
      → decode_jwt_payload libs id_token ≡ none
      → ⊥
  unfolding refreshed_identity
  refreshed_identity-undecoded r id_token identity h undecoded = ground arith

  refreshed_identity-IsSafe :
      (r : CredentialRecord) (returned : Option Text)
      (identity : Text × (Option Text × Option Text))
      → IsDisplayable r
      → refreshed_identity libs r returned ≡ ok identity
      → IsSafeClaim 254 identity.1.0 × IsSafeClaim 64 identity.1.1
  refreshed_identity-IsSafe r none identity safe h =
      let (email, plan) = refreshed_identity-kept r identity h in (rw email safe.0, rw plan safe.1)
  refreshed_identity-IsSafe r (some id_token) identity safe h =
      elim (Option-cases (decode_jwt_payload libs id_token)) [
        | inl undecoded ↦ absurd (refreshed_identity-undecoded r id_token identity h undecoded)
        | inr (claims, decodes) ↦
            let (email, plan) = refreshed_identity-read r id_token identity claims h decodes in
            let (safe_email, safe_plan) = display_metadata-IsSafe claims in
            (rw email safe_email, rw plan safe_plan)
      ]

  apply_refresh-metadata :
      (r : CredentialRecord) (response : RefreshResponse) (now : ℕ) (replacement : CredentialRecord)
      → apply_refresh libs r response now ≡ ok replacement
      → (identity : Text × (Option Text × Option Text)) × (refreshed_identity libs r
            response.id_token
          ≡ ok identity)
        × (replacement.email ≡ identity.1.0)
        × (replacement.plan ≡ identity.1.1)
  unfolding apply_refresh
  apply_refresh-metadata r response now replacement h =
      elim (Result-cases (refreshed_identity libs r response.id_token)) [
        | inl (identity, e) ↦ (identity, e, ground arith, ground arith)
        | inr (e, failed) ↦ absurd (ground arith)
      ]

  -- A refresh of a record that is safe to show leaves one that is: its email and its plan, where it
  -- has them, are not empty, have at most 254 and 64 characters, and hold no control character.
  pub apply_refresh-IsDisplayable :
      (r : CredentialRecord) (response : RefreshResponse) (now : ℕ) (replacement : CredentialRecord)
      → IsDisplayable r
      → apply_refresh libs r response now ≡ ok replacement
      → IsDisplayable replacement
  apply_refresh-IsDisplayable r response now replacement safe h =
      let (identity, e, email, plan) = apply_refresh-metadata r response now replacement h in
      let (safe_email, safe_plan) = refreshed_identity-IsSafe r response.id_token identity safe e in
      (rw email safe_email, rw plan safe_plan)

  -- When the response gives a positive lifetime whose end fits into 64 bits, a login stores a
  -- deadline, which lies after the moment of the login and at or before that end.
  pub validate-deadline :
      (response : TokenResponse) (now seconds : ℕ) (r : CredentialRecord)
      → validate libs response now ≡ ok r
      → response.expires_in ≡ some (pos seconds)
      → 0 < seconds
      → now + seconds < word_modulus
      → (deadline : ℕ) × (r.access_token_expires_at ≡ some deadline)
        × (now < deadline)
        × (deadline ≤ now + seconds)
  unfolding validate lifetime_end earliest_deadline
  validate-deadline response now seconds r h given positive fits =
      elim (Option-cases r.access_token_expires_at) [
        | inl missing ↦ absurd (ground arith)
        | inr (deadline, kept) ↦ (deadline, kept, ground arith, ground arith)
      ]
