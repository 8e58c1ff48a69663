-- ===== src/Auth/Errors.antt =====
-- The errors of the authentication crate and their messages, lib.rs, with the errors of
-- refresh.rs, refresh_lock.rs, callback.rs and oauth.rs that they are mapped from.
use rust_agent_harness.Text.{Text, text}
use rust_agent_harness.Auth.Credential.Record.{
  StoredCredentialError, unsupported_version, malformed, expired,
}

pub data LockError : Type 0 where
  lock_busy lock_unavailable : LockError

pub data RefreshError : Type 0 where
  refresh_reauthentication_required refresh_unavailable : RefreshError

pub data CallbackError : Type 0 where
  ports_unavailable callback_timed_out listener_failed : CallbackError

pub data ExchangeError : Type 0 where
  exchange_unavailable exchange_rejected response_too_large malformed_response : ExchangeError

pub data LoginError : Type 0 where
  login_unsupported_platform callback_ports_unavailable authorization_denied
        authorization_temporarily_unavailable authorization_failed invalid_callback login_timed_out
        token_exchange_unavailable token_exchange_rejected token_response_malformed
        login_store_unavailable :
      LoginError

unfoldable pub login_error_message : LoginError → Text
login_error_message login_unsupported_platform =
    text "OpenAI Codex login is supported only on macOS"
login_error_message callback_ports_unavailable =
    text "OpenAI Codex login could not bind callback ports 1455 or 1457"
login_error_message authorization_denied = text "OpenAI Codex authorization was denied"
login_error_message authorization_temporarily_unavailable =
    text "OpenAI Codex authorization is temporarily unavailable; try again"
login_error_message authorization_failed = text "OpenAI Codex authorization failed; try again"
login_error_message invalid_callback =
    text "OpenAI Codex returned an invalid authorization callback"
login_error_message login_timed_out = text "OpenAI Codex login timed out; try again"
login_error_message token_exchange_unavailable =
    text "OpenAI Codex token exchange is unavailable; try again"
login_error_message token_exchange_rejected =
    text "OpenAI Codex rejected the authorization; try logging in again"
login_error_message token_response_malformed =
    text "OpenAI Codex returned an invalid account credential"
login_error_message login_store_unavailable =
    text "the OpenAI Codex credential could not be saved to macOS Keychain"

pub data CredentialReadError : Type 0 where
  read_unsupported_platform read_not_connected read_store_unavailable read_unsupported_version
        read_invalid_credential read_expired :
      CredentialReadError

unfoldable pub credential_read_error_message : CredentialReadError → Text
credential_read_error_message read_unsupported_platform =
    text "OpenAI Codex credentials are supported only on macOS"
credential_read_error_message read_not_connected =
    text "OpenAI Codex is not connected; run 'harness auth login openai-codex'"
credential_read_error_message read_store_unavailable =
    text "the OpenAI Codex credential store is unavailable"
credential_read_error_message read_unsupported_version =
    text "the stored OpenAI Codex connection is invalid; run 'harness auth login openai-codex'"
credential_read_error_message read_invalid_credential =
    text "the stored OpenAI Codex connection is invalid; run 'harness auth login openai-codex'"
credential_read_error_message read_expired =
    text "the OpenAI Codex connection expired; run 'harness auth login openai-codex'"

pub data CredentialUseError : Type 0 where
  use_unsupported_platform use_not_connected use_store_unavailable use_unsupported_version
        use_invalid_credential refresh_coordination_busy refresh_temporarily_unavailable
        reauthentication_required :
      CredentialUseError

unfoldable pub credential_use_error_message : CredentialUseError → Text
credential_use_error_message use_unsupported_platform =
    text "OpenAI Codex credentials are supported only on macOS"
credential_use_error_message use_not_connected =
    text "OpenAI Codex is not connected; run 'harness auth login openai-codex'"
credential_use_error_message use_store_unavailable =
    text "the OpenAI Codex credential store is unavailable"
credential_use_error_message use_unsupported_version =
    text "the stored OpenAI Codex connection is invalid; run 'harness auth login openai-codex'"
credential_use_error_message use_invalid_credential =
    text "the stored OpenAI Codex connection is invalid; run 'harness auth login openai-codex'"
credential_use_error_message refresh_coordination_busy =
    text "OpenAI Codex credential refresh is already in progress; try again"
credential_use_error_message refresh_temporarily_unavailable =
    text "OpenAI Codex credential refresh is temporarily unavailable; try again"
credential_use_error_message reauthentication_required =
    text "OpenAI Codex rejected the connection; run 'harness auth login openai-codex'"

pub data LogoutError : Type 0 where
  logout_unsupported_platform logout_store_unavailable : LogoutError

unfoldable pub logout_error_message : LogoutError → Text
logout_error_message logout_unsupported_platform =
    text "OpenAI Codex credentials are supported only on macOS"
logout_error_message logout_store_unavailable =
    text "the OpenAI Codex credential store is unavailable"

unfoldable pub map_refresh_lock_error : LockError → CredentialUseError
map_refresh_lock_error lock_busy = refresh_coordination_busy
map_refresh_lock_error lock_unavailable = use_store_unavailable

unfoldable pub map_refresh_error : RefreshError → CredentialUseError
map_refresh_error refresh_reauthentication_required = reauthentication_required
map_refresh_error refresh_unavailable = refresh_temporarily_unavailable

unfoldable pub map_callback_error : CallbackError → LoginError
map_callback_error ports_unavailable = callback_ports_unavailable
map_callback_error callback_timed_out = login_timed_out
map_callback_error listener_failed = invalid_callback

unfoldable pub map_exchange_error : ExchangeError → LoginError
map_exchange_error exchange_unavailable = token_exchange_unavailable
map_exchange_error exchange_rejected = token_exchange_rejected
map_exchange_error response_too_large = token_response_malformed
map_exchange_error malformed_response = token_response_malformed

-- The closures that map what `deserialize` and `deserialize_structural` answer.
unfoldable pub map_stored_error : StoredCredentialError → CredentialReadError
map_stored_error unsupported_version = read_unsupported_version
map_stored_error malformed = read_invalid_credential
map_stored_error expired = read_expired

unfoldable pub map_use_error : StoredCredentialError → CredentialUseError
map_use_error unsupported_version = use_unsupported_version
map_use_error malformed = use_invalid_credential
map_use_error expired = use_invalid_credential
