-- ===== src/Auth/Login/Connected.antt =====
-- What a login of lib.rs stores and answers.
use rust_agent_harness.Auth.Credential.Display.{validate-IsDisplayable, IsSafeClaim}
use mathlib.Core.Path.{subst}
use rust_agent_harness.Prelude.{
  ℕ, ◌≡◌, refl, inl, inr, Option, none, some, List, Result, ok, err, Option-cases, Result-cases,
  arith, ◌≢◌, sym, [],
}
use rust_agent_harness.Text.{Bytes, Text}
use rust_agent_harness.Auth.Credential.Claims.{Libraries, CredentialError}
use rust_agent_harness.Auth.Credential.Record.{
  CredentialRecord, TokenResponse, Codec, validate, serialize,
}
use rust_agent_harness.Auth.Errors.{
  LoginError, ExchangeError, CallbackError, map_callback_error, token_response_malformed,
}
use rust_agent_harness.Auth.Callback.Wait.{
  CallbackOutcome, callback_code, denied, temporarily_unavailable, failed, redirect_uri,
}
use rust_agent_harness.Auth.Login.{
  LoginProbe, Login, AuthSecrets, ConnectedAccount, account_of, login_with, after_bind,
  after_exchange, callback_result, store_result, LoginProgress, stopped, shown_progress,
  authorization_pairs, [],
}

callback_result-code :
    (waited : Result CallbackError CallbackOutcome) (code : Text)
    → callback_result waited ≡ ok code
    → waited ≡ ok (callback_code code)
unfolding callback_result
callback_result-code (ok (callback_code c)) code h = ground arith
callback_result-code (ok denied) code h = absurd (ground arith)
callback_result-code (ok temporarily_unavailable) code h = absurd (ground arith)
callback_result-code (ok failed) code h = absurd (ground arith)
callback_result-code (err e) code h = absurd (ground arith)

module _ (libs : Libraries) (codec : Codec) (probe : LoginProbe) (secrets : AuthSecrets) where
  -- Where the bytes that a login stores come from.
  pub record Stores (b : Bytes) : Type 0 where
    pub port : ℕ
    pub code : Text
    pub response : TokenResponse
    pub credential : CredentialRecord
    pub bound_to : probe.bound ≡ ok port
    pub called_back : probe.waited ≡ ok (callback_code code)
    pub exchanged : probe.exchange code (redirect_uri port) secrets.verifier ≡ ok response
    pub validated : validate libs response probe.unix_seconds ≡ ok credential
    pub written : codec.to_vec credential ≡ some b

  -- What is known of a login: where the bytes it gave to the store come from and that it answers
  -- with their account when the store took them, or that it answers with an error.
  pub record Stored (result : Result LoginError ConnectedAccount) (b : Bytes) : Type 0 where
    pub stores : Stores b
    pub answers :
        (account : ConnectedAccount)
        → result ≡ ok account
        → (probe.replace b ≡ ok tt) × (account ≡ account_of stores.credential)

  abbrev StoredBy : Result LoginError ConnectedAccount → Option Bytes → Type 0
  StoredBy result none = (account : ConnectedAccount) → result ≢ ok account
  StoredBy result (some b) = Stored result b

  abbrev Explained : Login → Type 0
  Explained login = StoredBy login.result login.stored

  store_result-Explained :
      (progress : List LoginProgress) (code : Text) (b : Bytes) (stores : Stores b)
      (answer : Result (Unit {0}) (Unit {0}))
      → probe.replace b ≡ answer
      → Explained (store_result libs codec probe secrets progress code b stores.credential answer)
  store_result-Explained progress code b stores (ok _) taken = record {
    stores = stores;
    answers = λ account h. (taken, ground arith);
  }
  store_result-Explained progress code b stores (err _) refused = record {
    stores = stores;
    answers = λ account h. absurd (ground arith);
  }

  stopped-Explained :
      (progress : List LoginProgress) (exchanged : Option Text) (e : LoginError)
      → Explained (stopped libs codec probe secrets progress exchanged e)
  stopped-Explained progress exchanged e account h = ground arith

  Explained-by : (login other : Login) → login ≡ other → Explained other → Explained login
  Explained-by login other same explained = subst (λ l. Explained l) (sym same) explained

  after_exchange-invalid :
      (progress : List LoginProgress) (code : Text) (response : TokenResponse) (e : CredentialError)
      → validate libs response probe.unix_seconds ≡ err e
      → after_exchange libs codec probe secrets progress code (ok response)
        ≡ stopped libs codec probe secrets progress (some code) token_response_malformed
  unfolding after_exchange
  after_exchange-invalid progress code response e h = ground arith

  after_exchange-unwritten :
      (progress : List LoginProgress) (code : Text) (response : TokenResponse)
      (credential : CredentialRecord)
      → validate libs response probe.unix_seconds ≡ ok credential
      → codec.to_vec credential ≡ none
      → after_exchange libs codec probe secrets progress code (ok response)
        ≡ stopped libs codec probe secrets progress (some code) token_response_malformed
  unfolding after_exchange serialize
  after_exchange-unwritten progress code response credential h k = ground arith

  after_exchange-written :
      (progress : List LoginProgress) (code : Text) (response : TokenResponse)
      (credential : CredentialRecord) (b : Bytes)
      → validate libs response probe.unix_seconds ≡ ok credential
      → codec.to_vec credential ≡ some b
      → after_exchange libs codec probe secrets progress code (ok response)
        ≡ store_result libs codec probe secrets progress code b credential (probe.replace b)
  unfolding after_exchange serialize
  after_exchange-written progress code response credential b h k = ground arith

  after_exchange-Explained :
      (progress : List LoginProgress) (port : ℕ) (code : Text)
      (answer : Result ExchangeError TokenResponse)
      → probe.bound ≡ ok port
      → probe.waited ≡ ok (callback_code code)
      → probe.exchange code (redirect_uri port) secrets.verifier ≡ answer
      → Explained (after_exchange libs codec probe secrets progress code answer)
  unfolding after_exchange
  after_exchange-Explained progress port code (err e) bound_to called_back exchanged =
      λ account h. ground arith
  after_exchange-Explained progress port code (ok response) bound_to called_back exchanged =
      elim (Result-cases (validate libs response probe.unix_seconds)) [
        | inr (e, h) ↦
            Explained-by _ _ (after_exchange-invalid progress code response e h)
              (stopped-Explained progress (some code) token_response_malformed)
        | inl (credential, h) ↦ elim (Option-cases (codec.to_vec credential)) [
          | inl k ↦
              Explained-by _ _ (after_exchange-unwritten progress code response credential h k)
                (stopped-Explained progress (some code) token_response_malformed)
          | inr (b, k) ↦
              Explained-by _ _ (after_exchange-written progress code response credential b h k) (
                store_result-Explained progress code b
                  (record {
                    port = port;
                    code = code;
                    response = response;
                    credential = credential;
                    bound_to = bound_to;
                    called_back = called_back;
                    exchanged = exchanged;
                    validated = h;
                    written = k;
                  })
                  (probe.replace b) refl)
        ]
      ]

  abbrev progress_at : ℕ → List LoginProgress
  progress_at port =
      shown_progress probe (probe.with_pairs (authorization_pairs (redirect_uri port) secrets))

  after_bind-refused :
      (port : ℕ) (e : LoginError)
      → callback_result probe.waited ≡ err e
      → after_bind libs codec probe secrets port
        ≡ stopped libs codec probe secrets (progress_at port) none e
  unfolding after_bind
  after_bind-refused port e h = ground arith

  after_bind-called_back :
      (port : ℕ) (code : Text)
      → callback_result probe.waited ≡ ok code
      → after_bind libs codec probe secrets port
        ≡ after_exchange libs codec probe secrets
            (progress_at port)
            code
            (probe.exchange code (redirect_uri port) secrets.verifier)
  unfolding after_bind
  after_bind-called_back port code h = ground arith

  after_bind-Explained :
      (port : ℕ) → probe.bound ≡ ok port → Explained (after_bind libs codec probe secrets port)
  after_bind-Explained port bound_to = elim (Result-cases (callback_result probe.waited)) [
    | inr (e, h) ↦
        Explained-by _ _ (after_bind-refused port e h) (stopped-Explained (progress_at port) none e)
    | inl (code, h) ↦ Explained-by _ _ (after_bind-called_back port code h) (
        after_exchange-Explained _ port code _ bound_to (callback_result-code probe.waited code h)
          refl)
  ]

  login_with-bound :
      (port : ℕ)
      → probe.bound ≡ ok port
      → login_with libs codec probe secrets ≡ after_bind libs codec probe secrets port
  unfolding login_with
  login_with-bound port h = ground arith

  login_with-unbound :
      (e : CallbackError)
      → probe.bound ≡ err e
      → login_with libs codec probe secrets
        ≡ stopped libs codec probe secrets [] none (map_callback_error e)
  unfolding login_with
  login_with-unbound e h = ground arith

  pub login_with-Explained : Explained (login_with libs codec probe secrets)
  login_with-Explained = elim (Result-cases probe.bound) [
    | inr (e, h) ↦
        Explained-by _ _ (login_with-unbound e h) (stopped-Explained [] none (map_callback_error e))
    | inl (port, h) ↦ Explained-by _ _ (login_with-bound port h) (after_bind-Explained port h)
  ]

  -- A login that answers with an account has stored the record it came from.
  pub record Connects (account : ConnectedAccount) : Type 0 where
    pub b : Bytes
    pub stores : Stores b
    pub stored : (login_with libs codec probe secrets).stored ≡ some b
    pub taken : probe.replace b ≡ ok tt
    pub same : account ≡ account_of stores.credential
    pub safe : IsSafeClaim 254 account.email × IsSafeClaim 64 account.plan

  Connects-from :
      (stored : Option Bytes) (account : ConnectedAccount)
      → (login_with libs codec probe secrets).stored ≡ stored
      → StoredBy (login_with libs codec probe secrets).result stored
      → (login_with libs codec probe secrets).result ≡ ok account
      → Connects account
  Connects-from none account at explained h = absurd (explained account h)
  Connects-from (some b) account at explained h =
      let (taken, same) = explained.answers account h in
      let stores = explained.stores in
      record {
        b = b;
        stores = stores;
        stored = at;
        taken = taken;
        same = same;
        safe =
            subst (λ a. IsSafeClaim 254 a.email × IsSafeClaim 64 a.plan) (sym same)
              (validate-IsDisplayable libs stores.response probe.unix_seconds stores.credential
                stores.validated);
      }

  -- A login that answers with an account has called the store with the record of that account, which
  -- the store took: the record was validated from the tokens that the exchange of the code of the
  -- callback gave, and its email and its plan are safe to show.
  pub login_with-Connects :
      (account : ConnectedAccount)
      → (login_with libs codec probe secrets).result ≡ ok account
      → Connects account
  login_with-Connects account h = Connects-from _ account refl login_with-Explained h
