-- ===== src/Auth/Flow/Order.antt =====
-- Every run of `with_renewable_authorized_credential_from`, lib.rs, makes its calls in order.
use rust_agent_harness.Prelude.{
  ℕ, ◌≡◌, inl, inr, true, false, Option, none, some, List, [], ◌∷◌, Result, ok, err, Result-cases,
  Bool-cases, ◌≤◌, arith,
}
use rust_agent_harness.Text.{Bytes}
use rust_agent_harness.Auth.Credential.Claims.{Libraries}
use rust_agent_harness.Auth.Credential.Record.{CredentialRecord, Codec, refresh_due}
use rust_agent_harness.Auth.Credential.Usable.{IsUsable}
use rust_agent_harness.Auth.Errors.{CredentialUseError, map_refresh_lock_error}
use rust_agent_harness.Auth.Run.{
  Event, lock_acquired, lock_released, State, Run, Ensures, continue-Ensures, ◌>>=◌,
}
use rust_agent_harness.Auth.Flow.Protocol.{
  Protocol, IsOrderly, AllRefused, IsSendable, count, is_refresh, is_operation, Protocol-counts,
}
use rust_agent_harness.Auth.Flow.Calls.{
  Stage, AttemptDone, RenewDone, ReplayDone, ReadDone, Stopped, renew_due-done, replay_record-done,
  read_renewable_record-done, refreshes_of, IsFromBytes,
}
use rust_agent_harness.Auth.Flow.{
  Services, Attempt, read_renewable_record, renew_due, replay_record, with_lock,
  authorized_credential, after_first, replay, operate, is_refused,
  with_renewable_authorized_credential_from, first_attempt,
}

module _ (libs : Libraries) (codec : Codec) where
  abbrev FlowDone {κ} : {A : Type κ} → Result CredentialUseError A → List Event → Type 0
  FlowDone result calls = IsOrderly libs codec calls

  Stopped-IsOrderly :
      (m : ℕ) (calls : List Event) → Stopped libs codec false m calls → IsOrderly libs codec calls
  Stopped-IsOrderly m calls stopped = record {
    refreshes = stopped.refreshes;
    operations = m;
    protocol = stopped.stage.0;
  }

  Stopped-release :
      (m : ℕ) (calls : List Event)
      → Stopped libs codec true m calls
      → Stopped libs codec false m (lock_released ∷ calls)
  Stopped-release m calls stopped = record {
    refreshes = stopped.refreshes;
    stage = (Protocol.release stopped.stage.0, stopped.stage.1);
  }

  RenewDone-release :
      (m : ℕ) (result : Result CredentialUseError Attempt) (calls : List Event)
      → RenewDone libs codec true m result calls
      → RenewDone libs codec false m result (lock_released ∷ calls)
  RenewDone-release m (ok attempt) calls ((p, all), usable, known) =
      ((Protocol.release p, all), usable, known)
  RenewDone-release m (err e) calls stopped = Stopped-release m calls stopped

  ReplayDone-release :
      (m : ℕ) (result : Result CredentialUseError (Option CredentialRecord)) (calls : List Event)
      → ReplayDone libs codec true m result calls
      → ReplayDone libs codec false m result (lock_released ∷ calls)
  ReplayDone-release m (ok found) calls (stopped, usable) =
      (Stopped-release m calls stopped, usable)
  ReplayDone-release m (err e) calls stopped = Stopped-release m calls stopped

module _ {ℓ κ μ} (libs : Libraries) (codec : Codec) {W : Type ℓ} {T : Type κ} {E : Type μ}
    (services : Services W T E) where
  with_lock-done {ν ξ} :
      {A : Type ν} (Held Free : Result CredentialUseError A → List Event → Type ξ)
      (body : Run W CredentialUseError A) (s : State W)
      → ((result : Result CredentialUseError A) (calls : List Event)
          → Held result calls
          → Free result (lock_released ∷ calls))
      → ((e : CredentialUseError) → Free (err e) s.calls)
      → ((w : W) → Ensures Held (body (record { world = w; calls = lock_acquired ∷ s.calls })))
      → Ensures Free (with_lock libs codec services body s)
  unfolding with_lock
  with_lock-done Held Free body s release busy held =
      elim (Result-cases (services.acquire s.world).0) [
        | inr (e, failed) ↦ rw failed (busy (map_refresh_lock_error e))
        | inl (done, acquired) ↦ rw acquired (release _ _ (held (services.acquire s.world).1))
      ]

  sendable :
      (r : CredentialRecord) → IsUsable libs r → IsSendable libs codec (authorized_credential r)
  unfolding authorized_credential
  sendable r usable = (usable.access_valid, usable.account_valid)

  replay-done :
      (first_error : E) (found : Option CredentialRecord) (s : State W)
      → ReplayDone libs codec false 1 (ok found) s.calls
      → Ensures (FlowDone libs codec) (replay libs codec services first_error found s)
  replay-done first_error none s (stopped, usable) = Stopped-IsOrderly libs codec 1 s.calls stopped
  replay-done first_error (some r) s (stopped, usable) = record {
    refreshes = stopped.refreshes;
    operations = 2;
    protocol = Protocol.second_operation _ _ (sendable r usable) stopped.stage.1 stopped.stage.0;
  }

  -- After the first operation: what was called, and that a refusal is the only one.
  record Operated (attempt : Attempt) (first : Result E T) (calls : List Event) : Type 0 where
    protocol :
        Protocol libs codec false
          (refreshes_of libs codec attempt.contacted_refresh_endpoint)
          1
          calls
    refused : is_refused libs codec services first ≡ true → AllRefused calls
    usable : IsUsable libs attempt.credential
    known : IsFromBytes libs codec attempt.contacted_refresh_endpoint attempt

  orderly :
      (attempt : Attempt) (first : Result E T) (calls : List Event)
      → Operated attempt first calls
      → IsOrderly libs codec calls
  orderly attempt first calls done = record {
    refreshes = _;
    operations = 1;
    protocol = done.protocol;
  }

  after_first-done :
      (attempt : Attempt) (first : Result E T) (s : State W)
      → Operated attempt first s.calls
      → Ensures (FlowDone libs codec) (after_first libs codec services attempt first s)
  after_first-done attempt (ok t) s done = orderly attempt (ok t) s.calls done
  after_first-done attempt (err first_error) s done =
      elim (Bool-cases (services.is_unauthorized first_error)) [
        | inr other ↦ rw other (orderly attempt (err first_error) s.calls done)
        | inl refused ↦ rw refused (
            continue-Ensures (ReplayDone libs codec false 1) (FlowDone libs codec)
              (with_lock libs codec services (replay_record libs codec services attempt) s) _
              (with_lock-done (ReplayDone libs codec true 1) (ReplayDone libs codec false 1)
                (replay_record libs codec services attempt) s (ReplayDone-release libs codec 1)
                (λ e. record { refreshes = _; stage = (done.protocol, done.refused refused) })
                (λ w. replay_record-done libs codec services attempt _ (
                  (Protocol.acquire done.protocol, done.refused refused),
                  done.usable,
                  done.known,
                )))
              (λ found s'. replay-done first_error found s')
              (λ e calls stopped. Stopped-IsOrderly libs codec 1 calls stopped))
      ]

  attempt-done :
      (attempt : Attempt) (s : State W)
      → AttemptDone libs codec false 0 attempt s.calls
      → Ensures (FlowDone libs codec) (
          (operate libs codec services attempt.credential
              >>= after_first libs codec services attempt)
            s)
  attempt-done attempt s ((p, all), usable, known) = after_first-done attempt _ _ (record {
    protocol = Protocol.first_operation _ _ (sendable attempt.credential usable) p;
    refused = λ refused. (refused, all);
    usable = usable;
    known = known;
  })

  -- The attempt that the first read leads to.
  due-done :
      (b : Bytes) (r : CredentialRecord) (now : ℕ) (s : State W)
      → Stage libs codec false 0 0 s.calls
      → IsUsable libs r
      → codec.from_slice b ≡ some r
      → Ensures (RenewDone libs codec false 0) (first_attempt libs codec services (b, r) now s)
  unfolding first_attempt
  due-done b r now s (p, all) usable parsed = elim (Bool-cases (refresh_due r now)) [
    | inr fresh ↦ rw fresh ((p, all), usable, parsed)
    | inl due ↦ rw due (
        with_lock-done (RenewDone libs codec true 0) (RenewDone libs codec false 0)
          (renew_due libs codec services b r) s (RenewDone-release libs codec 0)
          (λ e. record { refreshes = 0; stage = (p, all) })
          (λ w. renew_due-done libs codec services b r _ (Protocol.acquire p, all) parsed))
  ]

  abbrev pub calls_from : W → List Event
  calls_from w =
      (with_renewable_authorized_credential_from libs codec services
        (record { world = w; calls = [] })).1.calls

  -- Whatever the environment does, a run of the flow makes its calls in an order that the protocol
  -- allows, and the lock is free after it: it refreshes once at most, under the lock and with the
  -- token of the record that it has just read; it stores only a usable record, right after the
  -- refresh; and it runs the operation without the lock, with a credential that is valid as headers,
  -- a second time only when the first was refused.
  pub flow-IsOrderly : (w : W) → IsOrderly libs codec (calls_from w)
  unfolding with_renewable_authorized_credential_from
  flow-IsOrderly w =
      continue-Ensures (ReadDone libs codec false 0 0) (FlowDone libs codec)
        (read_renewable_record libs codec services (record { world = w; calls = [] })) _
        (read_renewable_record-done libs codec services _ (Protocol.start, tt))
        (λ found s (stage, (parsed, usable, last)).
          continue-Ensures (RenewDone libs codec false 0) (FlowDone libs codec) _ _
            (due-done found.0 found.1 _ _ stage usable parsed) attempt-done
            (λ e calls. Stopped-IsOrderly libs codec 0 calls))
        (λ e calls (p, all). record { refreshes = 0; operations = 0; protocol = p })

  -- Whatever the environment does, a run of the flow contacts the refresh endpoint once at most
  -- and runs the operation twice at most.
  pub flow-at_most :
      (w : W) → (count is_refresh (calls_from w) ≤ 1) × (count is_operation (calls_from w) ≤ 2)
  flow-at_most w =
      let orderly = flow-IsOrderly w in
      let (n, m, once, twice) =
        Protocol-counts libs codec false orderly.refreshes orderly.operations _ orderly.protocol in
      (omega (arith, n), omega (arith, m))
