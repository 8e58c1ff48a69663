-- ===== src/Auth/Flow/Answer.antt =====
-- Where the result of `with_renewable_authorized_credential_from`, lib.rs, comes from.
use mathlib.Core.Path.{subst}
use rust_agent_harness.Prelude.{
  ◌≡◌, refl, ap, false, ◌∷◌, inl, inr, Option, none, some, Result, ok, err, Bool-cases, arith,
  Result-cases,
}
use rust_agent_harness.Auth.Credential.Claims.{Libraries}
use rust_agent_harness.Auth.Credential.Record.{CredentialRecord, Codec}
use rust_agent_harness.Auth.Errors.{CredentialUseError}
use rust_agent_harness.Auth.Run.{AuthorizedCredential, State, Run, continue, operated}
use rust_agent_harness.Auth.Flow.{
  Services, Attempt, after_first, replay, operate, authorized_credential, with_lock, replay_record,
  read_renewable_record, with_renewable_authorized_credential_from,
}

ok-injective {ℓ κ} : {E : Type ℓ} {A : Type κ} {a b : A} → Path (Result E A) (ok a) (ok b) → a ≡ b
ok-injective h = cc

module _ {ℓ κ μ} (libs : Libraries) (codec : Codec) {W : Type ℓ} {T : Type κ} {E : Type μ}
    (services : Services W T E) where
  -- The operation gave this answer, to a credential in the state that the calls before it left.
  -- It was the last call, and left the state that the flow ends in.
  pub record IsAnswer (answer : T) (after : State W) : Type (ℓ ⊔ κ ⊔ μ) where
    pub credential : AuthorizedCredential
    pub before : State W
    pub gave : services.operation credential before.world ≡ (ok answer, after.world)
    pub last : after.calls ≡ operated credential false ∷ before.calls

  abbrev OkIsAnswer : Result CredentialUseError (Result E T) × State W → Type (ℓ ⊔ κ ⊔ μ)
  OkIsAnswer (ok (ok answer), s) = IsAnswer answer s
  OkIsAnswer (ok (err e), s) = Unit
  OkIsAnswer (err e, s) = Unit

  continue-OkIsAnswer {ν} :
      {A : Type ν} (outcome : Result CredentialUseError A × State W)
      (next : A → Run W CredentialUseError (Result E T))
      → ((a : A) (s : State W) → OkIsAnswer (next a s))
      → OkIsAnswer (continue outcome next)
  continue-OkIsAnswer (ok a, s) next answers = answers a s
  continue-OkIsAnswer (err e, s) next answers = tt

  operate-OkIsAnswer :
      (r : CredentialRecord) (s : State W) → OkIsAnswer (operate libs codec services r s)
  operate-OkIsAnswer r s =
      let outcome = services.operation (authorized_credential r) s.world in
      elim (Result-cases outcome.0) [
        | inr (e, h) ↦ rw h tt
        | inl (answer, h) ↦ rw h (record {
          credential = authorized_credential r;
          before = s;
          gave = ap (λ result. (result, outcome.1)) h;
          last = refl;
        })
      ]

  replay-OkIsAnswer :
      (first_error : E) (found : Option CredentialRecord) (s : State W)
      → OkIsAnswer (replay libs codec services first_error found s)
  replay-OkIsAnswer first_error none s = tt
  replay-OkIsAnswer first_error (some r) s = operate-OkIsAnswer r s

  after_first-OkIsAnswer :
      (attempt : Attempt) (first : Result E T) (s : State W)
      → OkIsAnswer (ok first, s)
      → OkIsAnswer (after_first libs codec services attempt first s)
  after_first-OkIsAnswer attempt (ok t) s first = first
  after_first-OkIsAnswer attempt (err e) s first = elim (Bool-cases (services.is_unauthorized e)) [
    | inr other ↦ rw other tt
    | inl refused ↦ rw refused (
        continue-OkIsAnswer
          (with_lock libs codec services (replay_record libs codec services attempt) s) _
          (replay-OkIsAnswer e))
  ]

  from_ok :
      (outcome : Result CredentialUseError (Result E T) × State W) (answer : T)
      → outcome.0 ≡ ok (ok answer)
      → OkIsAnswer outcome
      → IsAnswer answer outcome.1
  from_ok (ok (ok found), s) answer h given =
      subst (λ t. IsAnswer t s) (ok-injective (ok-injective h)) given
  from_ok (ok (err e), s) answer h given = absurd (ground (arith, ok-injective h))
  from_ok (err e, s) answer h given = absurd (ground arith)

  flow-OkIsAnswer :
      (s : State W) → OkIsAnswer (with_renewable_authorized_credential_from libs codec services s)
  unfolding with_renewable_authorized_credential_from
  flow-OkIsAnswer s =
      continue-OkIsAnswer (read_renewable_record libs codec services s) _ (λ found s'.
        continue-OkIsAnswer _ _ (λ attempt s''.
          after_first-OkIsAnswer attempt _ _ (operate-OkIsAnswer attempt.credential s'')))

  -- When the flow returns an answer of the operation, the operation gave it in the last call.
  pub flow-IsAnswer :
      (s : State W) (answer : T)
      → (with_renewable_authorized_credential_from libs codec services s).0 ≡ ok (ok answer)
      → IsAnswer answer (with_renewable_authorized_credential_from libs codec services s).1
  flow-IsAnswer s answer h = from_ok _ answer h (flow-OkIsAnswer s)
