-- ===== src/Auth/Login.antt =====
-- Logging in, lib.rs: `login_with`. What the listener, the browser, the token endpoint, the clock
-- and the credential store answer is given as a probe.
pub mod Connected
use rust_agent_harness.Prelude.{
  ℕ, ◌*◌, ◌++◌, Bool, true, false, Option, none, some, List, [], ◌∷◌, Result, ok, err,
  if◌then◌else◌,
}
use rust_agent_harness.Text.{Bytes, Text, text}
use rust_agent_harness.Auth.Credential.Claims.{Libraries}
use rust_agent_harness.Auth.Credential.Record.{
  CredentialRecord, TokenResponse, Codec, validate, serialize,
}
use rust_agent_harness.Auth.Errors.{
  LoginError, CallbackError, ExchangeError, map_callback_error, map_exchange_error,
  authorization_denied, authorization_temporarily_unavailable, authorization_failed,
  token_response_malformed, login_store_unavailable,
}
use rust_agent_harness.Auth.Callback.Wait.{
  CallbackOutcome, callback_code, denied, temporarily_unavailable, failed, redirect_uri,
}

-- Milliseconds.
abbrev pub login_timeout : ℕ
login_timeout = 5 * 60 * 1000

abbrev pub redirect_ports : List ℕ
redirect_ports = 1455 ∷ 1457 ∷ []

abbrev pub client_id : Text
client_id = text "app_EMoamEEZ73f0CkXaXp7hrann"

abbrev pub originator : Text
originator = text "rust-agent-harness"

abbrev pub scopes : Text
scopes = text "openid profile email offline_access"

-- `AuthSecrets` of pkce.rs.
pub record AuthSecrets : Type 0 where
  pub verifier : Text
  pub challenge : Text
  pub state : Text

-- The pairs that `authorization_url` of oauth.rs appends to the endpoint's query.
unfoldable pub authorization_pairs : Text → AuthSecrets → List (Text × Text)
authorization_pairs redirect secrets =
    (text "response_type", text "code")
    ∷ (text "client_id", client_id)
    ∷ (text "redirect_uri", redirect)
    ∷ (text "scope", scopes)
    ∷ (text "code_challenge", secrets.challenge)
    ∷ (text "code_challenge_method", text "S256")
    ∷ (text "state", secrets.state)
    ∷ (text "originator", originator)
    ∷ (text "id_token_add_organizations", text "true")
    ∷ (text "codex_cli_simplified_flow", text "true")
    ∷ []

pub data LoginProgress : Type 0 where
  opening_browser : LoginProgress
  authorization_url : Text → LoginProgress
  browser_launch_failed : LoginProgress

pub record ConnectedAccount : Type 0 where
  pub email : Option Text
  pub plan : Option Text

-- `with_pairs` is the endpoint with pairs appended to its query, and `exchange` is
-- `exchange_code` with the code, the redirect address and the verifier.
pub record LoginProbe : Type 0 where
  pub bound : Result CallbackError ℕ
  pub with_pairs : List (Text × Text) → Text
  pub browser_opens : Text → Bool
  pub waited : Result CallbackError CallbackOutcome
  pub exchange : Text → Text → Text → Result ExchangeError TokenResponse
  pub unix_seconds : ℕ
  pub replace : Bytes → Result (Unit {0}) (Unit {0})

-- What a login has done: the progress shown, the code sent to the token endpoint, and the bytes
-- given to the store.
pub record Login : Type 0 where
  pub progress : List LoginProgress
  pub exchanged : Option Text
  pub stored : Option Bytes
  pub result : Result LoginError ConnectedAccount

unfoldable pub shown_progress : LoginProbe → Text → List LoginProgress
shown_progress probe url =
    opening_browser
    ∷ authorization_url url
    ∷ (if probe.browser_opens url then [] else browser_launch_failed ∷ [])

-- The `match` on what the listener waited for.
unfoldable pub callback_result : Result CallbackError CallbackOutcome → Result LoginError Text
unfolding map_callback_error
callback_result (err e) = err (map_callback_error e)
callback_result (ok (callback_code code)) = ok code
callback_result (ok denied) = err authorization_denied
callback_result (ok temporarily_unavailable) = err authorization_temporarily_unavailable
callback_result (ok failed) = err authorization_failed

abbrev pub account_of : CredentialRecord → ConnectedAccount
account_of credential = record { email = credential.email; plan = credential.plan }

module _ (libs : Libraries) (codec : Codec) (probe : LoginProbe) (secrets : AuthSecrets) where
  abbrev pub store_result :
      List LoginProgress → Text → Bytes → CredentialRecord → Result (Unit {0}) (Unit {0}) → Login
  store_result progress code b credential (ok _) = record {
    progress = progress;
    exchanged = some code;
    stored = some b;
    result = ok (account_of credential);
  }
  store_result progress code b credential (err _) = record {
    progress = progress;
    exchanged = some code;
    stored = some b;
    result = err login_store_unavailable;
  }

  abbrev pub stopped : List LoginProgress → Option Text → LoginError → Login
  stopped progress exchanged e = record {
    progress = progress;
    exchanged = exchanged;
    stored = none;
    result = err e;
  }

  -- From the validation of the response on.
  unfoldable pub after_exchange :
      List LoginProgress → Text → Result ExchangeError TokenResponse → Login
  unfolding map_exchange_error
  after_exchange progress code (err e) = stopped progress (some code) (map_exchange_error e)
  after_exchange progress code (ok response) = elim (validate libs response probe.unix_seconds) [
    | err _ ↦ stopped progress (some code) token_response_malformed
    | ok credential ↦ elim (serialize codec credential) [
      | err _ ↦ stopped progress (some code) token_response_malformed
      | ok b ↦ store_result progress code b credential (probe.replace b)
    ]
  ]

  unfoldable pub after_bind : ℕ → Login
  unfolding redirect_uri authorization_pairs shown_progress callback_result after_exchange
  after_bind port =
      let redirect = redirect_uri port in
      let progress =
        shown_progress probe (probe.with_pairs (authorization_pairs redirect secrets)) in
      elim (callback_result probe.waited) [
        | err e ↦ stopped progress none e
        | ok code ↦ after_exchange progress code (probe.exchange code redirect secrets.verifier)
      ]

  unfoldable pub login_with : Login
  unfolding after_bind map_callback_error
  login_with = elim probe.bound [
    | err e ↦ stopped [] none (map_callback_error e)
    | ok port ↦ after_bind port
  ]
