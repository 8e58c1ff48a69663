-- ===== src/Auth/Refresh/Answered.antt =====
-- What a refresh request answers, refresh.rs.
use rust_agent_harness.Prelude.{
  ℕ, ◌-◌, ◌<◌, ◌≤◌, ◌≡◌, ◌⊎◌, inl, inr, refl, Option, none, some, Result, ok, err, arith,
  Bool-cases, Result-cases, Option-cases, true, false, length, word_modulus, ◌==◌, sym,
}
use mathlib.Core.Path.{subst}
use rust_agent_harness.Text.{Bytes, Text}
use rust_agent_harness.Json.{Json}
use rust_agent_harness.Model.{in_class}
use rust_agent_harness.Auth.Errors.{
  RefreshError, refresh_unavailable, refresh_reauthentication_required,
}
use rust_agent_harness.Auth.Credential.Record.{RefreshResponse}
use rust_agent_harness.Auth.Refresh.Bounded.{
  IsBounded, IsWhole, enough_fuel, read_bounded-IsBounded,
}
use rust_agent_harness.Auth.Refresh.{
  RefreshConfig, HttpResponse, read_bounded, RefreshProbe, sent, classify, request_refresh,
  permanent_error_code, check_budget,
}

module _ (config : RefreshConfig) (json : Json) (probe : RefreshProbe) (refresh_token : Text) where
  -- A response within the limit that was read whole.
  pub record Read (body : Bytes) : Type 0 where
    pub response : HttpResponse
    pub head : sent config json probe refresh_token ≡ ok response
    pub within : length body ≤ config.response_body_limit
    pub whole : IsWhole response.read body

  abbrev pub Answered : Option (Result RefreshError RefreshResponse) → Type 0
  Answered none = ⊥
  Answered (some (ok tokens)) =
      (body : Bytes) × (read : Read body) × (200 ≤ read.response.status)
      × (read.response.status < 300)
      × (probe.read_tokens body ≡ some tokens)
  Answered (some (err refresh_reauthentication_required)) =
      ((response : HttpResponse) × (sent config json probe refresh_token ≡ ok response)
        × (response.status ≡ 401))
      ⊎ ((body : Bytes) × (read : Read body) × (in_class 2 read.response.status ≡ false)
          × (permanent_error_code json body ≡ true))
  Answered (some (err refresh_unavailable)) = Unit

  classify-Answered :
      (body : Bytes) (read : Read body)
      → Answered (some (classify config json probe read.response.status body))
  unfolding classify
  classify-Answered body read = elim (Bool-cases (in_class 2 read.response.status)) [
    | inl success ↦ elim (Option-cases (probe.read_tokens body)) [
      | inl malformed ↦ rw (success, malformed) tt
      | inr (tokens, decoded) ↦
          rw (success, decoded) (body, read, ground arith, ground arith, decoded)
    ]
    | inr refused ↦ elim (Bool-cases (permanent_error_code json body)) [
      | inl permanent ↦ rw (refused, permanent) (inr (body, read, refused, permanent))
      | inr temporary ↦ rw (refused, temporary) tt
    ]
  ]

  sent-error :
      (e : RefreshError) → sent config json probe refresh_token ≡ err e → e ≡ refresh_unavailable
  unfolding sent check_budget
  sent-error e h = ground arith

  abbrev answer : ℕ → Option (Result RefreshError RefreshResponse)
  answer fuel = request_refresh config json probe fuel refresh_token

  abbrev bounded_of : HttpResponse → Option (Result RefreshError Bytes)
  bounded_of response =
      read_bounded config probe.elapsed (enough_fuel config probe.elapsed) response

  answer-unsent :
      (fuel : ℕ) (e : RefreshError)
      → sent config json probe refresh_token ≡ err e
      → answer fuel ≡ some (err e)
  unfolding request_refresh
  answer-unsent fuel e h = ground arith

  answer-unauthorized :
      (fuel : ℕ) (response : HttpResponse)
      → sent config json probe refresh_token ≡ ok response
      → (response.status == 401) ≡ true
      → answer fuel ≡ some (err refresh_reauthentication_required)
  unfolding request_refresh
  answer-unauthorized fuel response h k = ground arith

  answer-failed :
      (fuel : ℕ) (response : HttpResponse) (e : RefreshError)
      → sent config json probe refresh_token ≡ ok response
      → (response.status == 401) ≡ false
      → read_bounded config probe.elapsed fuel response ≡ some (err e)
      → answer fuel ≡ some (err e)
  unfolding request_refresh
  answer-failed fuel response e h k l = ground arith

  answer-read :
      (fuel : ℕ) (response : HttpResponse) (body : Bytes)
      → sent config json probe refresh_token ≡ ok response
      → (response.status == 401) ≡ false
      → read_bounded config probe.elapsed fuel response ≡ some (ok body)
      → answer fuel ≡ some (classify config json probe response.status body)
  unfolding request_refresh
  answer-read fuel response body h k l = ground arith

  unavailable-Answered : (e : RefreshError) → e ≡ refresh_unavailable → Answered (some (err e))
  unavailable-Answered refresh_unavailable h = tt
  unavailable-Answered refresh_reauthentication_required h = absurd (ground arith)

  body-Answered :
      (response : HttpResponse) (found : Option (Result RefreshError Bytes))
      → sent config json probe refresh_token ≡ ok response
      → (response.status == 401) ≡ false
      → bounded_of response ≡ found
      → IsBounded config probe.elapsed response.read found
      → Answered (answer (enough_fuel config probe.elapsed))
  body-Answered response none h k l bounded = absurd bounded
  body-Answered response (some (err e)) h k l bounded =
      subst Answered (sym (answer-failed _ response e h k l)) (unavailable-Answered e bounded)
  body-Answered response (some (ok body)) h k l bounded =
      subst Answered (sym (answer-read _ response body h k l)) (
        classify-Answered body
          (record { response = response; head = h; within = bounded.0; whole = bounded.1 }))

  -- With a limit below the largest `usize`, a refresh request ends: with tokens only after a
  -- response of success whose whole body, which is what all its reads up to the end bring, is
  -- within the limit and holds them; with the demand to log in again only after a status of 401 or
  -- after a failure whose whole body, within the limit, names one of the permanent errors; and
  -- otherwise as unavailable.
  pub request_refresh-Answered :
      config.response_body_limit < word_modulus - 1
      → Answered
          (request_refresh config json probe (enough_fuel config probe.elapsed) refresh_token)
  request_refresh-Answered small = elim (Result-cases (sent config json probe refresh_token)) [
    | inr (e, h) ↦
        subst Answered (sym (answer-unsent _ e h)) (unavailable-Answered e (sent-error e h))
    | inl (response, h) ↦ elim (Bool-cases (response.status == 401)) [
      | inl k ↦
          subst Answered (sym (answer-unauthorized _ response h k))
            (inl (response, h, ground arith))
      | inr k ↦
          body-Answered response _ h k refl
            (read_bounded-IsBounded config probe.elapsed response small)
    ]
  ]
