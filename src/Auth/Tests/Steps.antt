-- ===== src/Auth/Tests/Steps.antt =====
-- The flow, the callback, the login, the lock and the requests at concrete inputs.
use rust_agent_harness.Auth.Tests.Records.{stored-IsUsable}
use rust_agent_harness.Auth.Run.{
  State, lock_released, lock_acquired, store_replaced, refresh_called, store_read,
}
use rust_agent_harness.Auth.Flow.Races.{IsStore, renew_due-shared, renewal}
use rust_agent_harness.Auth.Credential.Claims.{
  is_blank, decode_jwt_payload, payload_segment, account_id, filled, expiry, lifetime_end,
  earliest_deadline, display_metadata, safe_claim, safe_text, disagrees, validate_returned_account,
  valid_header_component, required_returned_token, optional_rotated_token,
}
use native.Mathlib.Decide.{ℕ_discrete}
use rust_agent_harness.Prelude.{
  ℕ, zero, suc, ◌≡◌, refl, Result, ok, err, Option, some, none, true, false, arith, ◌∷◌, [], List,
  ◌*◌,
}
use rust_agent_harness.Text.{
  Bytes, Text, text, eq_text, len, split_once, strip_prefix, is_control, trim, trim_start, trim_end,
  is_whitespace, split,
}
use rust_agent_harness.Text.Utf8.{utf8, from_utf8}
use rust_agent_harness.Session.Files.{Metadata}
use rust_agent_harness.Auth.Credential.Record.{
  validate, accounts_differ, serialize, deserialize_structural, apply_refresh, refreshed_identity,
}
use rust_agent_harness.Auth.Flow.{
  Services, Attempt, renew_due, with_lock, read_renewable_record, renew_reread, replace_record,
}
use rust_agent_harness.Auth.Flow.Order.{flow-IsOrderly, calls_from}
use rust_agent_harness.Auth.Flow.Protocol.{IsOrderly}
use rust_agent_harness.Auth.Callback.{
  Request, request_code, validate_request, collect, place, found_outcome, accepted_state,
  code_or_error, is_safe_callback_value,
}
use rust_agent_harness.Auth.Callback.Query.{query_is_well_formed, decode_query, hex_value}
use rust_agent_harness.Auth.Callback.Encoded.{query_is_well_formed-encoded, percent_encode}
use rust_agent_harness.Auth.Callback.Accepted.{BringsCode, validate_request-BringsCode}
use rust_agent_harness.Auth.Callback.Wait.{wait, callback_code}
use rust_agent_harness.Auth.Callback.Ends.{EndsFrom, wait-EndsFrom}
use rust_agent_harness.Auth.Login.{
  LoginProbe, AuthSecrets, login_with, account_of, after_bind, after_exchange, callback_result,
}
use rust_agent_harness.Auth.Login.Connected.{Connects, login_with-Connects}
use rust_agent_harness.Auth.RefreshLock.{
  LockProbe, DirectoryProbe, TryLock, locked, would_block, acquire,
}
use rust_agent_harness.Auth.RefreshLock.Acquire.{acquire-Ends, Ends, turns}
use rust_agent_harness.Auth.Refresh.{RefreshProbe, production, request_refresh}
use rust_agent_harness.Auth.Refresh.Bounded.{enough_fuel}
use rust_agent_harness.Auth.Refresh.Answered.{request_refresh-Answered, Answered}
use rust_agent_harness.Auth.Exchange.{ExchangeProbe, exchange_code, exchange_form}
use rust_agent_harness.Auth.Exchange.Exchanged.{Exchanged, exchange_code-Exchanged}
use rust_agent_harness.Auth.Tests.Samples.{
  libs, codec, response, stored, refresh_response, toy_get, letter_of, letter_or,
  CredentialRecord-discrete, codec-ReadsBack, renewed, record_of,
}

-- The world is the store. The record is due at the time 4400, and the operation refuses the old
-- token as unauthorized.
abbrev services : Services Bytes ℕ ℕ
services = record {
  read = λ w. (ok (some w), w);
  replace = λ b w. (ok tt, b);
  unix_seconds = λ w. (4400, w);
  acquire = λ w. (ok tt, w);
  release = λ w. w;
  refresh = λ token w. (ok refresh_response, w);
  operation = λ credential w. (err 401, w);
  is_unauthorized = λ e. true;
}

flow-IsOrderly_example : IsOrderly libs codec (calls_from libs codec services (b's' ∷ []))
flow-IsOrderly_example = flow-IsOrderly libs codec services (b's' ∷ [])

abbrev holds_bytes : Bytes → Option Bytes
holds_bytes w = some w

services-IsStore : IsStore services holds_bytes
services-IsStore = record {
  reads = λ w. refl;
  after_read = λ w. refl;
  after_replace = λ b w h. refl;
  after_acquire_lock = λ w. refl;
  after_release_lock = λ w. refl;
}

-- Two processes that have both read the record, which is due, and nothing else yet.
abbrev due : State Bytes
due = record { world = b's' ∷ []; calls = [] }

abbrev renewed_by_first : State Bytes
renewed_by_first = record {
  world = b'r' ∷ [];
  calls =
      lock_released
      ∷ store_replaced (b'r' ∷ [])
      ∷ refresh_called (text "r")
      ∷ store_read (ok (some (b's' ∷ [])))
      ∷ lock_acquired
      ∷ [];
}

abbrev attempt_of_first : Attempt
attempt_of_first = record {
  attempted_bytes = b'r' ∷ [];
  credential = renewed;
  contacted_refresh_endpoint = true;
}

renewal-due :
    renewal libs codec services (b's' ∷ []) stored due ≡ (ok attempt_of_first, renewed_by_first)
unfolding with_lock renew_due read_renewable_record renew_reread replace_record
    deserialize_structural record_of apply_refresh refreshed_identity is_blank trim trim_start
    trim_end is_whitespace decode_jwt_payload payload_segment split account_id filled disagrees
    validate_returned_account expiry lifetime_end earliest_deadline display_metadata safe_claim
    safe_text is_control text eq_text toy_get required_returned_token optional_rotated_token
    valid_header_component serialize letter_of letter_or CredentialRecord-discrete ℕ_discrete
renewal-due = refl

renew_due-shared_example :
    ((renewal libs codec services (b's' ∷ []) stored renewed_by_first).0
      ≡ ok (record {
        attempted_bytes = b'r' ∷ [];
        credential = renewed;
        contacted_refresh_endpoint = false;
      }))
    × ((renewal libs codec services (b's' ∷ []) stored renewed_by_first).1.calls
        ≡ lock_released
          ∷ store_read (ok (some (b'r' ∷ [])))
          ∷ lock_acquired
          ∷ renewed_by_first.calls)
unfolding eq_text
renew_due-shared_example =
    renew_due-shared libs codec codec-ReadsBack services holds_bytes services-IsStore (b's' ∷ [])
      (b's' ∷ []) stored stored due renewed_by_first renewed_by_first attempt_of_first
      stored-IsUsable renewal-due refl refl refl

query_is_well_formed-encoded_example :
    query_is_well_formed (percent_encode (utf8 (text "é"))) ≡ true
unfolding text
query_is_well_formed-encoded_example = query_is_well_formed-encoded (text "é") (ground arith)

abbrev pairs : Bytes → List (Text × Text)
pairs b = (text "state", text "st") ∷ (text "code", text "c1") ∷ []

abbrev request : Request
request = record { is_get = true; url = text "/auth/callback?state=st&code=c1" }

validate_request-request : validate_request pairs request (text "st") ≡ request_code (text "c1")
unfolding validate_request query_is_well_formed decode_query hex_value collect place found_outcome
    accepted_state code_or_error is_safe_callback_value text eq_text len split_once strip_prefix
    utf8 from_utf8 is_control
validate_request-request = refl

validate_request-BringsCode_example : BringsCode pairs request (text "st") (text "c1")
validate_request-BringsCode_example =
    validate_request-BringsCode pairs request (text "st") (text "c1") validate_request-request

-- A second for each turn, and a request in the third.
abbrev clock : ℕ → ℕ
clock zero = 0
clock (suc n) = suc (clock n)

abbrev requests : ℕ → ℕ → Result (Unit {0}) (Option Request)
requests (suc (suc turn)) timeout = ok (some request)
requests _ timeout = ok none

wait-EndsFrom_example :
    EndsFrom pairs clock requests (text "st") 5 0 (wait pairs clock requests (text "st") 5 6 0 [])
wait-EndsFrom_example = wait-EndsFrom pairs clock requests (text "st") 5 5 0 [] (omega arith)

abbrev probe : LoginProbe
probe = record {
  bound = ok 1455;
  with_pairs = λ pairs. text "https://auth.openai.com/oauth/authorize";
  browser_opens = λ url. true;
  waited = ok (callback_code (text "c1"));
  exchange = λ code redirect verifier. ok response;
  unix_seconds = 1000;
  replace = λ b. ok tt;
}

abbrev secrets : AuthSecrets
secrets = record { verifier = text "v"; challenge = text "c"; state = text "st" }

login_with-probe : (login_with libs codec probe secrets).result ≡ ok (account_of stored)
unfolding login_with after_bind after_exchange callback_result validate is_blank trim trim_start
    trim_end is_whitespace decode_jwt_payload payload_segment split account_id filled
    accounts_differ expiry lifetime_end earliest_deadline display_metadata safe_claim safe_text
    is_control text eq_text toy_get serialize letter_of letter_or CredentialRecord-discrete
    ℕ_discrete
login_with-probe = refl

login_with-Connects_example : Connects libs codec probe secrets (account_of stored)
login_with-Connects_example =
    login_with-Connects libs codec probe secrets (account_of stored) login_with-probe

abbrev private_directory : Metadata
private_directory = record {
  is_symlink = false;
  is_file = false;
  is_dir = true;
  len = 64;
  mode = 0o700;
  dev = 1;
  ino = 2;
  nlink = 1;
}

abbrev lock_file : Metadata
lock_file = record {
  is_symlink = false;
  is_file = true;
  is_dir = false;
  len = 0;
  mode = 0o600;
  dev = 1;
  ino = 3;
  nlink = 1;
}

abbrev directory : DirectoryProbe
directory = record { found = ok private_directory; create = ok tt; set_permissions = ok tt }

-- Another process holds the lock for three turns.
abbrev held_thrice : ℕ → TryLock
held_thrice (suc (suc (suc turn))) = locked
held_thrice _ = would_block

abbrev lock : LockProbe
lock = record {
  root = directory;
  directory = directory;
  file = record {
    before = ok lock_file;
    open_file = ok tt;
    handle = ok lock_file;
    path = ok lock_file;
    set_permissions = ok tt;
  };
  started = 0;
  try_lock = held_thrice;
  clock = λ turn. turn * 50;
}

acquire-Ends_example : Ends lock (acquire turns lock)
acquire-Ends_example = acquire-Ends lock (omega arith) (λ turn. omega arith)

-- A response that refuses the refresh token for good.
abbrev refusal : ℕ → Result (Unit {0}) Bytes
refusal zero = ok (utf8 (text "{}"))
refusal (suc n) = ok []

abbrev refresh_probe : RefreshProbe
refresh_probe = record {
  client = ok tt;
  to_vec = λ r. some [];
  send = λ b. ok (record { status = 400; content_length = none; read = refusal });
  elapsed = λ n. n;
  read_tokens = λ b. some refresh_response;
}

request_refresh-Answered_example : Answered production libs.json refresh_probe (text "r") (
    request_refresh production libs.json refresh_probe
      (enough_fuel production refresh_probe.elapsed)
      (text "r"))
request_refresh-Answered_example =
    request_refresh-Answered production libs.json refresh_probe (text "r") (omega arith)

abbrev exchange_probe : ExchangeProbe
exchange_probe = record {
  client = ok tt;
  send = λ form.
      ok (record {
        status = 200;
        content_length = some 2;
        body = 123 ∷ 125 ∷ [];
        breaks_off = false;
      });
  read_tokens = λ b. some response;
}

exchange_code-probe :
    exchange_code 64 exchange_probe
      (text "c1")
      (text "http://localhost:1455/auth/callback")
      (text "v")
    ≡ ok response
unfolding exchange_code
exchange_code-probe = refl

exchange_code-Exchanged_example :
    Exchanged 64 exchange_probe
      (exchange_form (text "c1") (text "http://localhost:1455/auth/callback") (text "v"))
      response
exchange_code-Exchanged_example =
    exchange_code-Exchanged 64 exchange_probe (text "c1")
      (text "http://localhost:1455/auth/callback") (text "v") response exchange_code-probe
