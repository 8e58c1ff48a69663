-- ===== src/Auth/Flow.antt =====
-- Using a stored credential and renewing it, lib.rs: `with_renewable_authorized_credential_from`
-- and its helpers, `with_authorized_credential_from` and `logout_with`.
pub mod Order
pub mod Answer
pub mod Races
pub mod Calls
pub mod Protocol
use rust_agent_harness.Prelude.{
  ℕ, Bool, true, false, not, Option, none, some, List, ◌∷◌, Result, ok, err, ok_or, map_err,
  if◌then◌else◌,
}
use rust_agent_harness.Text.{Bytes, Text, eq_text}
use rust_agent_harness.Auth.Credential.Claims.{Libraries}
use rust_agent_harness.Auth.Credential.Record.{
  CredentialRecord, Codec, RefreshResponse, deserialize, deserialize_structural, refresh_due,
  apply_refresh, serialize,
}
use rust_agent_harness.Auth.Errors.{
  LockError, RefreshError, CredentialUseError, CredentialReadError, LogoutError,
  map_refresh_lock_error, map_refresh_error, map_use_error, map_stored_error, use_not_connected,
  use_store_unavailable, use_invalid_credential, read_not_connected, read_store_unavailable,
  logout_store_unavailable,
}
use rust_agent_harness.Auth.Run.{
  AuthorizedCredential, Event, store_read, lock_acquired, lock_released, refresh_called,
  store_replaced, operated, State, Run, ◌>>=◌, return, lift, consult, call,
}

-- What the caller and the platform provide: the credential store, the clock, the refresh lock,
-- the refresh client, and the operation with its test of an unauthorized answer.
pub record Services {ℓ κ μ} (W : Type ℓ) (T : Type κ) (E : Type μ) : Type (ℓ ⊔ κ ⊔ μ) where
  pub read : W → Result (Unit {0}) (Option Bytes) × W
  pub replace : Bytes → W → Result (Unit {0}) (Unit {0}) × W
  pub unix_seconds : W → ℕ × W
  pub acquire : W → Result LockError (Unit {0}) × W
  pub release : W → W
  pub refresh : Text → W → Result RefreshError RefreshResponse × W
  pub operation : AuthorizedCredential → W → Result E T × W
  pub is_unauthorized : E → Bool

unfoldable pub authorized_credential : CredentialRecord → AuthorizedCredential
authorized_credential r = record {
  access_token = r.access_token;
  account_id = r.chatgpt_account_id;
}

-- The variables of the flow: `attempted_bytes`, `record` and `contacted_refresh_endpoint`.
pub record Attempt : Type 0 where
  pub attempted_bytes : Bytes
  pub credential : CredentialRecord
  pub contacted_refresh_endpoint : Bool

module _ {ℓ κ μ} (libs : Libraries) (codec : Codec) {W : Type ℓ} {T : Type κ} {E : Type μ}
    (services : Services W T E) where
  unfoldable pub read_renewable_record : Run W CredentialUseError (Bytes × CredentialRecord)
  unfolding map_use_error
  read_renewable_record = do
    answer ← call store_read services.read
    found ← lift (map_err (λ _. use_store_unavailable) answer)
    serialized ← lift (ok_or found use_not_connected)
    r ← lift (map_err map_use_error (deserialize_structural libs codec serialized))
    return (serialized, r)

  -- The guard is dropped when the block is left, on every path.
  abbrev pub release_after {ν} :
      {A : Type ν} → Result CredentialUseError A × State W → Result CredentialUseError A × State W
  release_after (result, s) =
      (result, record { world = services.release s.world; calls = lock_released ∷ s.calls })

  abbrev pub after_acquire {ν} :
      {A : Type ν}
      → Result LockError (Unit {0}) × W
      → Run W CredentialUseError A
      → List Event
      → Result CredentialUseError A × State W
  after_acquire (ok _, w) body calls =
      release_after (body (record { world = w; calls = lock_acquired ∷ calls }))
  after_acquire (err e, w) body calls =
      (err (map_refresh_lock_error e), record { world = w; calls = calls })

  -- `{ let _guard = refresh_lock.acquire()…?; body }`
  unfoldable pub with_lock {ν} :
      {A : Type ν} → Run W CredentialUseError A → Run W CredentialUseError A
  unfolding map_refresh_lock_error
  with_lock body s = after_acquire (services.acquire s.world) body s.calls

  -- From `refresher.refresh` to `store.replace`, which the flow does in two places.
  unfoldable pub replace_record :
      CredentialRecord → Run W CredentialUseError (Bytes × CredentialRecord)
  unfolding map_refresh_error
  replace_record r = do
    answer ← call (λ _. refresh_called r.refresh_token) (services.refresh r.refresh_token)
    response ← lift (map_err map_refresh_error answer)
    now ← consult services.unix_seconds
    replacement ← lift (map_err (λ _. use_invalid_credential) (apply_refresh libs r response now))
    replacement_bytes ← lift (map_err (λ _. use_invalid_credential) (serialize codec replacement))
    replaced ← call (λ _. store_replaced replacement_bytes) (services.replace replacement_bytes)
    stored ← lift (map_err (λ _. use_store_unavailable) replaced)
    return (replacement_bytes, replacement)

  -- The first block under the lock, after it has read the store again.
  unfoldable pub renew_reread :
      Bytes → CredentialRecord → Bytes × CredentialRecord → Run W CredentialUseError Attempt
  unfolding replace_record
  renew_reread attempted_bytes r reread =
      if not (eq_text reread.0 attempted_bytes)
      then return (record {
        attempted_bytes = reread.0;
        credential = reread.1;
        contacted_refresh_endpoint = false;
      })
      else (replace_record r >>= λ replacement. return (record {
        attempted_bytes = replacement.0;
        credential = replacement.1;
        contacted_refresh_endpoint = true;
      }))

  unfoldable pub renew_due : Bytes → CredentialRecord → Run W CredentialUseError Attempt
  unfolding read_renewable_record renew_reread
  renew_due attempted_bytes r = do
    reread ← read_renewable_record
    renew_reread attempted_bytes r reread

  -- The second block under the lock, after it has read the store again; `none` where it returns
  -- the first error.
  unfoldable pub replay_reread :
      Attempt → Bytes × CredentialRecord → Run W CredentialUseError (Option CredentialRecord)
  unfolding replace_record
  replay_reread attempt reread =
      if not (eq_text reread.0 attempt.attempted_bytes)
      then return (some reread.1)
      else if attempt.contacted_refresh_endpoint
      then return none
      else (replace_record attempt.credential >>= λ replacement. return (some replacement.1))

  unfoldable pub replay_record : Attempt → Run W CredentialUseError (Option CredentialRecord)
  unfolding read_renewable_record replay_reread
  replay_record attempt = do reread ← read_renewable_record; replay_reread attempt reread

  abbrev pub is_refused : Result E T → Bool
  is_refused (ok t) = false
  is_refused (err e) = services.is_unauthorized e

  abbrev pub operate : CredentialRecord → Run W CredentialUseError (Result E T)
  operate r =
      call (λ answer. operated (authorized_credential r) (is_refused answer))
        (services.operation (authorized_credential r))

  abbrev pub attempt_of : Bytes × CredentialRecord → Attempt
  attempt_of (bytes, r) = record {
    attempted_bytes = bytes;
    credential = r;
    contacted_refresh_endpoint = false;
  }

  abbrev pub replay : E → Option CredentialRecord → Run W CredentialUseError (Result E T)
  replay first_error none = return (err first_error)
  replay first_error (some r) = operate r

  abbrev pub after_first : Attempt → Result E T → Run W CredentialUseError (Result E T)
  after_first attempt (ok t) = return (ok t)
  after_first attempt (err first_error) =
      if not (services.is_unauthorized first_error)
      then return (err first_error)
      else (with_lock (replay_record attempt) >>= replay first_error)

  unfoldable pub first_attempt : Bytes × CredentialRecord → ℕ → Run W CredentialUseError Attempt
  unfolding with_lock renew_due
  first_attempt first_read now =
      if refresh_due first_read.1 now
      then with_lock (renew_due first_read.0 first_read.1)
      else return (attempt_of first_read)

  unfoldable pub with_renewable_authorized_credential_from : Run W CredentialUseError (Result E T)
  unfolding read_renewable_record first_attempt with_lock replay_record authorized_credential
  with_renewable_authorized_credential_from = do
    first_read ← read_renewable_record
    now ← consult services.unix_seconds
    attempt ← first_attempt first_read now
    first ← operate attempt.credential
    after_first attempt first

  -- `with_authorized_credential_from`
  unfoldable pub with_authorized_credential_from : Run W CredentialReadError (Result E T)
  unfolding map_stored_error authorized_credential
  with_authorized_credential_from = do
    answer ← call store_read services.read
    found ← lift (map_err (λ _. read_store_unavailable) answer)
    serialized ← lift (ok_or found read_not_connected)
    now ← consult services.unix_seconds
    r ← lift (map_err map_stored_error (deserialize libs codec serialized now))
    call (λ answer. operated (authorized_credential r) (is_refused answer))
        (services.operation (authorized_credential r))

-- `DeleteOutcome` of lib.rs and keychain.rs.
pub data DeleteOutcome : Type 0 where
  deleted absent : DeleteOutcome

unfoldable pub logout_with : Result (Unit {0}) DeleteOutcome → Result LogoutError (Unit {0})
logout_with (err _) = err logout_store_unavailable
logout_with (ok deleted) = ok tt
logout_with (ok absent) = ok tt
