-- ===== src/Auth/Refresh/Bounded.antt =====
-- The bounds of a response's body and what is answered, refresh.rs.
use mathlib.Core.Path.{subst, sym}
use rust_agent_harness.Prelude.{
  ℕ, suc, ◌+◌, ◌-◌, ◌≤◌, ◌≡◌, Option, none, some, [], ◌∷◌, ◌++◌, Result, ok, err, arith, true,
  false, length, word_modulus, min, ◌<◌, Result-cases, length-append, Bool-cases, inr, inl, refl,
  zero,
}
use rust_agent_harness.Text.{Bytes}
use rust_agent_harness.Auth.Errors.{RefreshError, refresh_unavailable}
use rust_agent_harness.Auth.Refresh.{
  RefreshConfig, read_loop, read_turn, too_long, check_budget, read_bounded, HttpResponse,
  is_announced_too_long,
}

-- What the first reads of a body bring together, none of them the end.
pub data Collected (read : ℕ → Result (Unit {0}) Bytes) : ℕ → Bytes → Type 0 where
  unread : Collected read 0 []
  read_more :
      {turn : ℕ} {body bytes : Bytes} {b : ℕ}
      → Collected read turn body
      → read turn ≡ ok (b ∷ bytes)
      → Collected read (suc turn) (body ++ b ∷ bytes)

-- The body is what all the reads before the end bring.
pub record IsWhole (read : ℕ → Result (Unit {0}) Bytes) (body : Bytes) : Type 0 where
  pub turns : ℕ
  pub collected : Collected read turns body
  pub ended : read turns ≡ ok []

module _ (config : RefreshConfig) (elapsed : ℕ → ℕ) where
  -- The loop has ended, with the whole body, within the limit, or with the one error it has.
  abbrev pub IsBounded : (ℕ → Result (Unit {0}) Bytes) → Option (Result RefreshError Bytes) → Type 0
  IsBounded read none = ⊥
  IsBounded read (some (ok body)) = (length body ≤ config.response_body_limit) × IsWhole read body
  IsBounded read (some (err e)) = e ≡ refresh_unavailable

  read_turn-error :
      (turn : ℕ) (answer : Result (Unit {0}) Bytes) (e : RefreshError)
      → read_turn config elapsed turn answer ≡ err e
      → e ≡ refresh_unavailable
  unfolding read_turn check_budget
  read_turn-error turn answer e h = ground arith

  read_turn-ok :
      (turn : ℕ) (answer : Result (Unit {0}) Bytes) (bytes : Bytes)
      → read_turn config elapsed turn answer ≡ ok bytes
      → answer ≡ ok bytes
  unfolding read_turn check_budget
  read_turn-ok turn answer bytes h = ground arith

  abbrev saturated : Bytes → Bytes → ℕ
  saturated body more = min (length body + length more) (word_modulus - 1)

  module _ (read : ℕ → Result (Unit {0}) Bytes) where
    read_loop-failed :
        (fuel turn : ℕ) (body : Bytes) (e : RefreshError)
        → read_turn config elapsed turn (read turn) ≡ err e
        → read_loop config elapsed read (suc fuel) turn body ≡ some (err e)
    unfolding read_loop
    read_loop-failed fuel turn body e h = ground arith

    read_loop-ended :
        (fuel turn : ℕ) (body : Bytes)
        → read_turn config elapsed turn (read turn) ≡ ok []
        → read_loop config elapsed read (suc fuel) turn body ≡ some (ok body)
    unfolding read_loop
    read_loop-ended fuel turn body h = ground arith

    read_loop-full :
        (fuel turn : ℕ) (body : Bytes) (b : ℕ) (bytes : Bytes)
        → read_turn config elapsed turn (read turn) ≡ ok (b ∷ bytes)
        → too_long config elapsed (saturated body (b ∷ bytes)) ≡ true
        → read_loop config elapsed read (suc fuel) turn body ≡ some (err refresh_unavailable)
    unfolding read_loop
    read_loop-full fuel turn body b bytes h k = ground arith

    read_loop-more :
        (fuel turn : ℕ) (body : Bytes) (b : ℕ) (bytes : Bytes)
        → read_turn config elapsed turn (read turn) ≡ ok (b ∷ bytes)
        → too_long config elapsed (saturated body (b ∷ bytes)) ≡ false
        → read_loop config elapsed read (suc fuel) turn body
          ≡ read_loop config elapsed read fuel (suc turn) (body ++ b ∷ bytes)
    unfolding read_loop
    read_loop-more fuel turn body b bytes h k = ground arith

  bounded-more :
      (body : Bytes) (b : ℕ) (bytes : Bytes)
      → config.response_body_limit < word_modulus - 1
      → too_long config elapsed (saturated body (b ∷ bytes)) ≡ false
      → length (body ++ b ∷ bytes) ≤ config.response_body_limit
  bounded-more body b bytes small k = ground (arith, length-append body (b ∷ bytes))

  enough-more :
      (body : Bytes) (b : ℕ) (bytes : Bytes) (fuel : ℕ)
      → config.response_body_limit < length body + suc fuel
      → config.response_body_limit < length (body ++ b ∷ bytes) + fuel
  enough-more body b bytes fuel enough = omega (arith, enough, length-append body (b ∷ bytes))

  IsBounded-read :
      (read : ℕ → Result (Unit {0}) Bytes) (fuel turn : ℕ) (body : Bytes)
      → config.response_body_limit < word_modulus - 1
      → length body ≤ config.response_body_limit
      → config.response_body_limit < length body + fuel
      → Collected read turn body
      → IsBounded read (read_loop config elapsed read fuel turn body)
  IsBounded-read read zero turn body small within enough collected = absurd (omega arith)
  IsBounded-read read (suc fuel) turn body small within enough collected =
      elim (Result-cases (read_turn config elapsed turn (read turn))) [
        | inr (e, h) ↦
            subst (IsBounded read) (sym (read_loop-failed read fuel turn body e h))
              (read_turn-error turn (read turn) e h)
        | inl ([], h) ↦ subst (IsBounded read) (sym (read_loop-ended read fuel turn body h)) (
          within,
          record {
            turns = turn;
            collected = collected;
            ended = read_turn-ok turn (read turn) [] h;
          },
        )
        | inl (b ∷ bytes, h) ↦
            elim (Bool-cases (too_long config elapsed (saturated body (b ∷ bytes)))) [
              | inl k ↦
                  subst (IsBounded read) (sym (read_loop-full read fuel turn body b bytes h k)) refl
              | inr k ↦
                  subst (IsBounded read) (sym (read_loop-more read fuel turn body b bytes h k)) (
                    IsBounded-read read fuel (suc turn) (body ++ b ∷ bytes) small
                      (bounded-more body b bytes small k) (enough-more body b bytes fuel enough)
                      (read_more collected (read_turn-ok turn (read turn) (b ∷ bytes) h)))
            ]
      ]

  -- So much fuel is enough: each turn but the last adds a byte.
  abbrev pub enough_fuel : ℕ
  enough_fuel = config.response_body_limit + 1

  pub read_bounded-IsBounded :
      (response : HttpResponse)
      → config.response_body_limit < word_modulus - 1
      → IsBounded response.read (read_bounded config elapsed enough_fuel response)
  unfolding read_bounded
  read_bounded-IsBounded response small =
      elim (Bool-cases (is_announced_too_long config elapsed response.content_length)) [
        | inl h ↦ rw (h, IsBounded) refl
        | inr h ↦
            rw h (
              IsBounded-read response.read enough_fuel 0 [] small (omega arith) (omega arith)
                unread)
      ]
