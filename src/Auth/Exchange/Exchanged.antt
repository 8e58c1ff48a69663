-- ===== src/Auth/Exchange/Exchanged.antt =====
-- What the exchange of a code, oauth.rs, accepts and how it fails.
use rust_agent_harness.Prelude.{
  ℕ, zero, suc, ◌+◌, ◌≤◌, ◌<◌, ◌≡◌, inl, inr, refl, arith, some, List, [], ◌∷◌, ok, err, take,
  length, Result-cases, ap, false,
}
use rust_agent_harness.Text.{Bytes, Text}
use rust_agent_harness.Auth.Credential.Record.{TokenResponse}
use rust_agent_harness.Auth.Exchange.{ExchangeResponse, ExchangeProbe, exchange_form, exchange_code}

length-take_full : (n : ℕ) (body : Bytes) → n ≤ length body → length (take n body) ≡ n
length-take_full zero body h = refl
length-take_full (suc n) [] h = absurd (omega arith)
length-take_full (suc n) (b ∷ body) h = ap suc (length-take_full n body (omega arith))

-- A response of success that was sent the code and that was read whole.
pub record Exchanged (limit : ℕ) (probe : ExchangeProbe) (form : List (Text × Text))
    (tokens : TokenResponse) : Type 0 where
  pub response : ExchangeResponse
  pub answered : probe.send form ≡ ok response
  pub success : (200 ≤ response.status) × (response.status < 300)
  pub whole : response.breaks_off ≡ false
  pub within : length response.body ≤ limit
  pub decoded : probe.read_tokens response.body ≡ some tokens

module _ (limit : ℕ) (probe : ExchangeProbe) (code redirect_uri verifier : Text) where
  abbrev form : List (Text × Text)
  form = exchange_form code redirect_uri verifier

  exchange_code-unsent :
      (tokens : TokenResponse)
      → exchange_code limit probe code redirect_uri verifier ≡ ok tokens
      → probe.send form ≡ err tt
      → ⊥
  unfolding exchange_code
  exchange_code-unsent tokens h k = ground arith

  exchange_code-checks :
      (tokens : TokenResponse) (response : ExchangeResponse)
      → exchange_code limit probe code redirect_uri verifier ≡ ok tokens
      → probe.send form ≡ ok response
      → (200 ≤ response.status)
        × (response.status < 300)
        × (response.breaks_off ≡ false)
        × (length response.body ≤ limit)
        × (probe.read_tokens response.body ≡ some tokens)
  unfolding exchange_code
  exchange_code-checks tokens response h k =
      ground (arith, length-take_full (limit + 1) response.body)

  -- Tokens come only from a response of success to the form with the code, the redirect address and
  -- the verifier, whose whole body, within the limit, holds them.
  pub exchange_code-Exchanged :
      (tokens : TokenResponse)
      → exchange_code limit probe code redirect_uri verifier ≡ ok tokens
      → Exchanged limit probe form tokens
  exchange_code-Exchanged tokens h = elim (Result-cases (probe.send form)) [
    | inr (e, k) ↦ absurd (exchange_code-unsent tokens h k)
    | inl (response, k) ↦
        let (low, high, whole, within, decoded) = exchange_code-checks tokens response h k in
        record {
          response = response;
          answered = k;
          success = (low, high);
          whole = whole;
          within = within;
          decoded = decoded;
        }
  ]
