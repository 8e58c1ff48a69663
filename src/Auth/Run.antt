-- ===== src/Auth/Run.antt =====
-- Code that calls its environment and may fail: the environment is a state of any type, which
-- each call may change, and the calls made are kept, the newest first.
use rust_agent_harness.Prelude.{Option, List, ◌∷◌, Result, ok, err, Bool}
use rust_agent_harness.Text.{Bytes, Text}

-- `AuthorizedCredential` of lib.rs.
pub record AuthorizedCredential : Type 0 where
  pub access_token : Text
  pub account_id : Text

-- A call and what tells it from others of its kind: what was read, the token and the bytes sent,
-- and the credential of an operation with whether it was refused as unauthorized.
pub data Event : Type 0 where
  store_read : Result (Unit {0}) (Option Bytes) → Event
  lock_acquired lock_released : Event
  refresh_called : Text → Event
  store_replaced : Bytes → Event
  operated : AuthorizedCredential → Bool → Event

pub record State {ℓ} (W : Type ℓ) : Type ℓ where
  pub world : W
  pub calls : List Event

abbrev pub Run {ℓ κ μ} : Type ℓ → Type κ → Type μ → Type (ℓ ⊔ κ ⊔ μ)
Run W E A = State W → Result E A × State W

module _ {ℓ} {W : Type ℓ} where
  abbrev pub continue {κ μ ν} :
      {E : Type κ} {A : Type μ} {B : Type ν}
      → Result E A × State W
      → (A → Run W E B)
      → Result E B × State W
  continue (ok a, s) next = next a s
  continue (err e, s) next = (err e, s)

  infixl 5 ◌>>=◌
  abbrev pub ◌>>=◌ {κ μ ν} :
      {E : Type κ} {A : Type μ} {B : Type ν} → Run W E A → (A → Run W E B) → Run W E B
  (first >>= next) s = continue (first s) next

  -- `Ok(a)`
  abbrev pub return {κ μ} : {E : Type κ} {A : Type μ} → A → Run W E A
  return a s = (ok a, s)

  -- What needs no environment.
  abbrev pub lift {κ μ} : {E : Type κ} {A : Type μ} → Result E A → Run W E A
  lift r s = (r, s)

  -- A call that is not kept, and one that is.
  abbrev pub consult {κ μ} : {E : Type κ} {A : Type μ} → (W → A × W) → Run W E A
  consult f s = let (a, w) = f s.world in (ok a, record { world = w; calls = s.calls })

  abbrev pub call {κ μ} : {E : Type κ} {A : Type μ} → (A → Event) → (W → A × W) → Run W E A
  call event f s = let (a, w) = f s.world in (ok a, record { world = w; calls = event a ∷ s.calls })

  -- What holds of a result and of the calls made.
  abbrev pub Ensures {κ μ ν} :
      {E : Type κ} {A : Type μ} → (Result E A → List Event → Type ν) → Result E A × State W → Type ν
  Ensures Q (result, s) = Q result s.calls

  pub continue-Ensures {κ μ ν ξ π} :
      {E : Type κ} {A : Type μ} {B : Type ν} (Q : Result E A → List Event → Type ξ)
      (R : Result E B → List Event → Type π) (outcome : Result E A × State W) (next : A → Run W E B)
      → Ensures Q outcome
      → ((a : A) (s : State W) → Q (ok a) s.calls → Ensures R (next a s))
      → ((e : E) (calls : List Event) → Q (err e) calls → R (err e) calls)
      → Ensures R (continue outcome next)
  continue-Ensures Q R (ok a, s) next first then_ok then_err = then_ok a s first
  continue-Ensures Q R (err e, s) next first then_ok then_err = then_err e s.calls first
