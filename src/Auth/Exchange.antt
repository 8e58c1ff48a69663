-- ===== src/Auth/Exchange.antt =====
-- The exchange of a code for tokens, oauth.rs: `exchange_code`; and the answers of the keychain,
-- keychain.rs. The HTTP client, serde_json and the keychain are parameters.
pub mod Exchanged
use rust_agent_harness.Prelude.{
  ℕ, ◌+◌, ◌≤◌, ◌<◌, ◌≡◌, ◌≢◌, ◌⊎◌, inl, inr, refl, arith, Bool, true, false, not, ◌||◌, Option,
  none, some, List, [], ◌∷◌, Result, ok, err, ◌>>=◌, ◌>>◌, refuse_if, map_err, ok_or, take, length,
  ltb, leb, ◌==◌, if◌then◌else◌, Bool-cases, Option-cases, Result-cases,
}
use rust_agent_harness.Text.{Bytes, Text, text}
use rust_agent_harness.Model.{in_class}
use rust_agent_harness.Auth.Credential.Claims.{ℤ, pos, negsuc}
use rust_agent_harness.Auth.Credential.Record.{TokenResponse}
use rust_agent_harness.Auth.Errors.{
  ExchangeError, exchange_unavailable, exchange_rejected, response_too_large, malformed_response,
}
use rust_agent_harness.Auth.Flow.{DeleteOutcome, deleted, absent}
use rust_agent_harness.Auth.Login.{client_id}

-- `TOKEN_RESPONSE_LIMIT` of lib.rs.
abbrev pub token_response_limit : ℕ
token_response_limit = 65536

-- The head of a response, the bytes of its body, and whether reading fails after them.
pub record ExchangeResponse : Type 0 where
  pub status : ℕ
  pub content_length : Option ℕ
  pub body : Bytes
  pub breaks_off : Bool

-- `response.take(n).read_to_end(…)`
abbrev pub read_up_to : ℕ → ExchangeResponse → Result (Unit {0}) Bytes
read_up_to n response =
    if leb n (length response.body)
    then ok (take n response.body)
    else if response.breaks_off
    then err tt
    else ok response.body

pub record ExchangeProbe : Type 0 where
  pub client : Result (Unit {0}) (Unit {0})
  pub send : List (Text × Text) → Result (Unit {0}) ExchangeResponse
  pub read_tokens : Bytes → Option TokenResponse

unfoldable pub exchange_form : Text → Text → Text → List (Text × Text)
exchange_form code redirect_uri verifier =
    (text "grant_type", text "authorization_code")
    ∷ (text "client_id", client_id)
    ∷ (text "code", code)
    ∷ (text "redirect_uri", redirect_uri)
    ∷ (text "code_verifier", verifier)
    ∷ []

-- A status that is no success.
unfoldable pub status_error : ℕ → ExchangeError
status_error status =
    if status == 408 || status == 429 || in_class 5 status
    then exchange_unavailable
    else exchange_rejected

abbrev is_too_large : ℕ → Option ℕ → Bool
is_too_large limit none = false
is_too_large limit (some length') = ltb limit length'

unfoldable pub exchange_code :
    ℕ → ExchangeProbe → Text → Text → Text → Result ExchangeError TokenResponse
unfolding exchange_form status_error
exchange_code response_body_limit probe code redirect_uri verifier = do
  map_err (λ _. exchange_unavailable) probe.client
  response ←
      map_err (λ _. exchange_unavailable) (probe.send (exchange_form code redirect_uri verifier))
  refuse_if (not (in_class 2 response.status)) (status_error response.status)
  refuse_if (is_too_large response_body_limit response.content_length) response_too_large
  body ← map_err (λ _. exchange_unavailable) (read_up_to (response_body_limit + 1) response)
  refuse_if (ltb response_body_limit (length body)) response_too_large
  ok_or (probe.read_tokens body) malformed_response

-- `ITEM_NOT_FOUND` is -25300.
unfoldable pub is_item_not_found : ℤ → Bool
is_item_not_found (pos n) = false
is_item_not_found (negsuc n) = n == 25299

-- `read`, from what the keychain answers.
unfoldable pub keychain_read : Result ℤ Bytes → Result (Unit {0}) (Option Bytes)
unfolding is_item_not_found
keychain_read (ok b) = ok (some b)
keychain_read (err code) = if is_item_not_found code then ok none else err tt

unfoldable pub classify_delete_result : Result ℤ (Unit {0}) → Result (Unit {0}) DeleteOutcome
unfolding is_item_not_found
classify_delete_result (ok _) = ok deleted
classify_delete_result (err code) = if is_item_not_found code then ok absent else err tt
