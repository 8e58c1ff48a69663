-- ===== src/Auth/Flow/Races.antt =====
-- Two processes that renew one credential, lib.rs: what the lock and the second read of the store
-- are for.
use mathlib.Core.Path.{subst}
use rust_agent_harness.Auth.Credential.Stored.{apply_refresh-stored}
use rust_agent_harness.Auth.Credential.Usable.{IsUsable}
use rust_agent_harness.Prelude.{
  ◌≡◌, inl, inr, Option, some, Result, ok, err, Result-cases, Option-cases, ◌∙◌, ◌∷◌, false,
  Bool-cases, refl,
}
use rust_agent_harness.Text.{Bytes, eq_text}
use rust_agent_harness.Auth.Credential.Claims.{Libraries}
use rust_agent_harness.Auth.Credential.Record.{
  CredentialRecord, Codec, ReadsBack, deserialize_structural, serialize, apply_refresh,
}
use rust_agent_harness.Auth.Errors.{CredentialUseError}
use rust_agent_harness.Auth.Run.{State, Run, continue, store_read, lock_released, lock_acquired}
use rust_agent_harness.Auth.Flow.{
  Services, Attempt, read_renewable_record, renew_reread, renew_due, with_lock, replace_record,
  release_after,
}

-- A store that keeps what was put into it, and that the other services leave alone.
pub record IsStore {ℓ κ μ} {W : Type ℓ} {T : Type κ} {E : Type μ} (services : Services W T E)
    (view : W → Option Bytes) : Type ℓ where
  pub reads : (w : W) → (services.read w).0 ≡ ok (view w)
  pub after_read : (w : W) → view (services.read w).1 ≡ view w
  pub after_replace :
      (b : Bytes) (w : W)
      → (services.replace b w).0 ≡ ok tt
      → view (services.replace b w).1 ≡ some b
  pub after_acquire_lock : (w : W) → view (services.acquire w).1 ≡ view w
  pub after_release_lock : (w : W) → view (services.release w) ≡ view w

module _ {ℓ} {W : Type ℓ} where
  abbrev OnOk {κ μ} :
      {E : Type κ} {A : Type μ} → (A → State W → Type 0) → Result E A × State W → Type 0
  OnOk Q (ok a, s) = Q a s
  OnOk Q (err e, s) = Unit

  continue-OnOk {κ μ ν} :
      {E : Type κ} {A : Type μ} {B : Type ν} (Q : A → State W → Type 0) (Q' : B → State W → Type 0)
      (outcome : Result E A × State W) (next : A → Run W E B)
      → OnOk Q outcome
      → ((a : A) (s : State W) → Q a s → OnOk Q' (next a s))
      → OnOk Q' (continue outcome next)
  continue-OnOk Q Q' (ok a, s) next first then_ok = then_ok a s first
  continue-OnOk Q Q' (err e, s) next first then_ok = tt

written-ok :
    (codec : Codec) (r : CredentialRecord) (b : Bytes)
    → codec.to_vec r ≡ some b
    → serialize codec r ≡ ok b
unfolding serialize
written-ok codec r b h = rw h refl

module _ {ℓ κ μ} (libs : Libraries) (codec : Codec) {W : Type ℓ} {T : Type κ} {E : Type μ}
    (services : Services W T E) where
  -- The renewal, under the lock, of the record that was read with these bytes.
  abbrev pub renewal : Bytes → CredentialRecord → Run W CredentialUseError Attempt
  renewal b r = with_lock libs codec services (renew_due libs codec services b r)

module _ {ℓ κ μ} (libs : Libraries) (codec : Codec) (reads_back : ReadsBack codec) {W : Type ℓ}
    {T : Type κ} {E : Type μ} (services : Services W T E) (view : W → Option Bytes)
    (store : IsStore services view) where
  -- The store holds these bytes, and they hold this record.
  abbrev Holds : Bytes × CredentialRecord → State W → Type 0
  Holds (b, r) s = (view s.world ≡ some b) × (deserialize_structural libs codec b ≡ ok r)

  abbrev HoldsAttempt : Attempt → State W → Type 0
  HoldsAttempt attempt s = Holds (attempt.attempted_bytes, attempt.credential) s

  read_renewable_record-Holds :
      (s : State W) → OnOk Holds (read_renewable_record libs codec services s)
  unfolding read_renewable_record
  read_renewable_record-Holds s = elim (Option-cases (view s.world)) [
    | inl absent ↦ rw (store.reads s.world, absent) tt
    | inr (b, kept) ↦ elim (Result-cases (deserialize_structural libs codec b)) [
      | inr (e, failed) ↦ rw (store.reads s.world, kept, failed) tt
      | inl (r, read) ↦ rw (store.reads s.world, kept, read) (store.after_read s.world ∙ kept, read)
    ]
  ]

  replace_record-Holds :
      (r : CredentialRecord) (s : State W)
      → IsUsable libs r
      → OnOk Holds (replace_record libs codec services r s)
  unfolding replace_record serialize
  replace_record-Holds r s usable =
      let answer = services.refresh r.refresh_token s.world in
      let clock = services.unix_seconds answer.1 in
      elim (Result-cases answer.0) [
        | inr (e, failed) ↦ rw failed tt
        | inl (response, h) ↦ elim (Result-cases (apply_refresh libs r response clock.0)) [
          | inr (e, failed) ↦ rw (h, failed) tt
          | inl (replacement, applied) ↦ elim (Option-cases (codec.to_vec replacement)) [
            | inl failed ↦ rw (h, applied, failed) tt
            | inr (written, w) ↦ elim (Result-cases (services.replace written clock.1).0) [
              | inr (e, failed) ↦ rw (h, applied, w, failed) tt
              | inl (done, stored) ↦
                  rw (h, applied, w, stored)
                    (
                      store.after_replace written clock.1 stored,
                      apply_refresh-stored libs codec reads_back r response clock.0 replacement
                          written usable applied (written-ok codec replacement written w),
                    )
            ]
          ]
        ]
      ]

  renew_reread-Holds :
      (b : Bytes) (r : CredentialRecord) (reread : Bytes × CredentialRecord) (s : State W)
      → IsUsable libs r
      → Holds reread s
      → OnOk HoldsAttempt (renew_reread libs codec services b r reread s)
  unfolding renew_reread
  renew_reread-Holds b r reread s usable holds = elim (Bool-cases (eq_text reread.0 b)) [
    | inr other ↦ rw other holds
    | inl same ↦ rw same (
        continue-OnOk Holds HoldsAttempt (replace_record libs codec services r s) _
          (replace_record-Holds r s usable) (λ replacement s' done. done))
  ]

  renew_due-Holds :
      (b : Bytes) (r : CredentialRecord) (s : State W)
      → IsUsable libs r
      → OnOk HoldsAttempt (renew_due libs codec services b r s)
  unfolding renew_due
  renew_due-Holds b r s usable =
      continue-OnOk Holds HoldsAttempt (read_renewable_record libs codec services s) _
        (read_renewable_record-Holds s) (λ reread s'. renew_reread-Holds b r reread s' usable)

  -- After a renewal under the lock that succeeds, the store holds its record.
  release-Holds :
      (outcome : Result CredentialUseError Attempt × State W)
      → OnOk HoldsAttempt outcome
      → OnOk HoldsAttempt (release_after libs codec services outcome)
  release-Holds (ok a, s) (kept, read) = (store.after_release_lock s.world ∙ kept, read)
  release-Holds (err e, s) holds = tt

  with_lock-Holds :
      (b : Bytes) (r : CredentialRecord) (s : State W)
      → IsUsable libs r
      → OnOk HoldsAttempt (with_lock libs codec services (renew_due libs codec services b r) s)
  unfolding with_lock
  with_lock-Holds b r s usable = elim (Result-cases (services.acquire s.world).0) [
    | inr (e, failed) ↦ rw failed tt
    | inl (done, acquired) ↦ rw acquired (release-Holds _ (renew_due-Holds b r _ usable))
  ]

  -- A renewal that finds other bytes in the store takes them as they are.
  renew_due-taken :
      (b : Bytes) (r : CredentialRecord) (found : Bytes × CredentialRecord) (s : State W)
      → Holds found s
      → eq_text found.0 b ≡ false
      → renew_due libs codec services b r s ≡ (
        ok (record {
          attempted_bytes = found.0;
          credential = found.1;
          contacted_refresh_endpoint = false;
        }),
        record {
          world = (services.read s.world).1;
          calls = store_read (ok (some found.0)) ∷ s.calls;
        },
      )
  unfolding renew_due renew_reread read_renewable_record
  renew_due-taken b r found s (kept, read) other = rw (store.reads s.world, kept, read, other) refl

  -- One process renews a usable credential under the lock, and the renewal succeeds. Then another
  -- process, which had read other bytes before, gets the lock while the store still holds what
  -- the first process left in it. If the services keep to the laws of a store and records read
  -- back, the second process reads the store once, takes the record of the first, gives the lock
  -- back, and neither contacts the refresh endpoint nor writes the store.
  pub renew_due-shared :
      (b b' : Bytes) (r r' : CredentialRecord) (s first second : State W) (attempt : Attempt)
      → IsUsable libs r
      → renewal libs codec services b r s ≡ (ok attempt, first)
      → view second.world ≡ view first.world
      → (services.acquire second.world).0 ≡ ok tt
      → eq_text attempt.attempted_bytes b' ≡ false
      → ((renewal libs codec services b' r' second).0
          ≡ ok (record {
            attempted_bytes = attempt.attempted_bytes;
            credential = attempt.credential;
            contacted_refresh_endpoint = false;
          }))
        × ((renewal libs codec services b' r' second).1.calls
            ≡ lock_released
              ∷ store_read (ok (some attempt.attempted_bytes))
              ∷ lock_acquired
              ∷ second.calls)
  unfolding with_lock
  renew_due-shared b b' r r' s first second attempt usable renewed same acquired other =
      let holds = subst (OnOk HoldsAttempt) renewed (with_lock-Holds b r s usable) in
      let locked : State W = record {
        world = (services.acquire second.world).1;
        calls = lock_acquired ∷ second.calls;
      } in
      let taken =
        renew_due-taken b' r' (attempt.attempted_bytes, attempt.credential) locked
          (store.after_acquire_lock second.world ∙ same ∙ holds.0, holds.1) other in
      (rw (acquired, taken) refl, rw (acquired, taken) refl)
