-- ===== src/Auth/Flow/Calls.antt =====
-- The calls that the flow of lib.rs makes, against the protocol.
use rust_agent_harness.Prelude.{
  ℕ, ◌≡◌, refl, inl, inr, Bool, none, some, List, Result, ok, err, Result-cases, Option-cases,
  false, Bool-cases,
}
use mathlib.Core.Path.{subst}
use rust_agent_harness.Text.{Bytes, eq_text_iff}
use rust_agent_harness.Auth.Credential.Claims.{Libraries}
use rust_agent_harness.Auth.Credential.Record.{
  CredentialRecord, Codec, deserialize_structural, serialize, apply_refresh,
}
use rust_agent_harness.Auth.Credential.Usable.{
  IsUsable, deserialize_structural-ok, apply_refresh-IsUsable,
}
use rust_agent_harness.Auth.Errors.{CredentialUseError}
use rust_agent_harness.Auth.Run.{Event, store_read, State, Ensures, continue-Ensures}
use rust_agent_harness.Auth.Flow.Protocol.{Protocol, LastIs, AllRefused}
use rust_agent_harness.Auth.Flow.{
  Services, read_renewable_record, Option, true, replace_record, Attempt, renew_reread, renew_due,
  eq_text, replay_record, replay_reread,
}

module _ (libs : Libraries) (codec : Codec) where
  -- Between the calls of the flow: no operation has succeeded yet.
  abbrev pub Stage : Bool → ℕ → ℕ → List Event → Type 0
  Stage held n m calls = Protocol libs codec held n m calls × AllRefused calls

  abbrev pub IsRead : Bytes × CredentialRecord → List Event → Type 0
  IsRead (b, r) calls =
      (codec.from_slice b ≡ some r) × IsUsable libs r × LastIs (store_read (ok (some b))) calls

  abbrev pub ReadDone :
      Bool → ℕ → ℕ → Result CredentialUseError (Bytes × CredentialRecord) → List Event → Type 0
  ReadDone held n m (ok found) calls = Stage held n m calls × IsRead found calls
  ReadDone held n m (err e) calls = Stage held n m calls

  abbrev ReplaceDone :
      ℕ → Result CredentialUseError (Bytes × CredentialRecord) → List Event → Type 0
  ReplaceDone m (ok (b, r)) calls = Stage true 1 m calls × IsUsable libs r
  ReplaceDone m (err e) calls = Stage true 1 m calls

  -- Whether the endpoint was contacted is what the calls say, and if not, the record is the one
  -- in the bytes.
  abbrev pub refreshes_of : Bool → ℕ
  refreshes_of true = 1
  refreshes_of false = 0

  abbrev pub IsFromBytes : Bool → Attempt → Type 0
  IsFromBytes true attempt = Unit
  IsFromBytes false attempt = codec.from_slice attempt.attempted_bytes ≡ some attempt.credential

  abbrev pub AttemptDone : Bool → ℕ → Attempt → List Event → Type 0
  AttemptDone held m attempt calls =
      Stage held (refreshes_of attempt.contacted_refresh_endpoint) m calls
      × IsUsable libs attempt.credential
      × IsFromBytes attempt.contacted_refresh_endpoint attempt

  pub record Stopped (held : Bool) (m : ℕ) (calls : List Event) : Type 0 where
    pub refreshes : ℕ
    pub stage : Stage held refreshes m calls

  abbrev pub RenewDone : Bool → ℕ → Result CredentialUseError Attempt → List Event → Type 0
  RenewDone held m (ok attempt) calls = AttemptDone held m attempt calls
  RenewDone held m (err e) calls = Stopped held m calls

  abbrev pub MaybeUsable : Option CredentialRecord → Type 0
  MaybeUsable none = Unit
  MaybeUsable (some r) = IsUsable libs r

  abbrev pub ReplayDone :
      Bool → ℕ → Result CredentialUseError (Option CredentialRecord) → List Event → Type 0
  ReplayDone held m (ok found) calls = Stopped held m calls × MaybeUsable found
  ReplayDone held m (err e) calls = Stopped held m calls

module _ {ℓ κ μ} (libs : Libraries) (codec : Codec) {W : Type ℓ} {T : Type κ} {E : Type μ}
    (services : Services W T E) where
  pub read_renewable_record-done :
      {held : Bool} {n m : ℕ} (s : State W)
      → Stage libs codec held n m s.calls
      → Ensures (ReadDone libs codec held n m) (read_renewable_record libs codec services s)
  unfolding read_renewable_record
  read_renewable_record-done s (p, all) = elim (Result-cases (services.read s.world).0) [
    | inr (e, failed) ↦ rw failed (Protocol.read (err e) p, all)
    | inl (none, h) ↦ rw h (Protocol.read (ok none) p, all)
    | inl (some b, h) ↦ elim (Result-cases (deserialize_structural libs codec b)) [
      | inr (e, failed) ↦ rw (h, failed) (Protocol.read (ok (some b)) p, all)
      | inl (r, read) ↦
          let (parsed, usable) = deserialize_structural-ok libs codec b r read in
          rw (h, read) ((Protocol.read (ok (some b)) p, all), (parsed, usable, refl))
    ]
  ]

  replace_record-done :
      {m : ℕ} (b : Bytes) (r : CredentialRecord) (s : State W)
      → Stage libs codec true 0 m s.calls
      → IsRead libs codec (b, r) s.calls
      → Ensures (ReplaceDone libs codec m) (replace_record libs codec services r s)
  unfolding replace_record serialize
  replace_record-done b r s (p, all) (parsed, usable, last) =
      let refreshed = Protocol.refresh b r parsed usable.refresh_filled last p in
      let answer = services.refresh r.refresh_token s.world in
      let clock = services.unix_seconds answer.1 in
      elim (Result-cases answer.0) [
        | inr (e, failed) ↦ rw failed (refreshed, all)
        | inl (response, h) ↦ elim (Result-cases (apply_refresh libs r response clock.0)) [
          | inr (e, failed) ↦ rw (h, failed) (refreshed, all)
          | inl (replacement, applied) ↦ elim (Option-cases (codec.to_vec replacement)) [
            | inl failed ↦ rw (h, applied, failed) (refreshed, all)
            | inr (written, w) ↦
                let kept =
                  apply_refresh-IsUsable libs r response clock.0 replacement usable applied in
                let replaced =
                  Protocol.replace r.refresh_token written replacement w kept refl refreshed in
                elim (Result-cases (services.replace written clock.1).0) [
                  | inr (e, failed) ↦ rw (h, applied, w, failed) (replaced, all)
                  | inl (done, stored) ↦ rw (h, applied, w, stored) ((replaced, all), kept)
                ]
          ]
        ]
      ]

  stop :
      {n : ℕ} (m : ℕ) (calls : List Event)
      → Stage libs codec true n m calls
      → Stopped libs codec true m calls
  stop {n = n} m calls stage = record { refreshes = n; stage = stage }

  -- The bytes read are those attempted, so the record read is the one attempted.
  IsRead-same :
      (b : Bytes) (r : CredentialRecord) (reread : Bytes × CredentialRecord) (calls : List Event)
      → codec.from_slice b ≡ some r
      → eq_text reread.0 b ≡ true
      → IsRead libs codec reread calls
      → IsRead libs codec (b, r) calls
  IsRead-same b r (b', r') calls parsed h (reparsed, usable, last) =
      let same = (eq_text_iff b' b).0 h in
      let same_record : r' ≡ r = cc in
      (
        parsed,
        subst (λ x. IsUsable libs x) same_record usable,
        subst (λ x. LastIs (store_read (ok (some x))) calls) same last,
      )

  renew_reread-done :
      {m : ℕ} (b : Bytes) (r : CredentialRecord) (reread : Bytes × CredentialRecord) (s : State W)
      → codec.from_slice b ≡ some r
      → Stage libs codec true 0 m s.calls × IsRead libs codec reread s.calls
      → Ensures (RenewDone libs codec true m) (renew_reread libs codec services b r reread s)
  unfolding renew_reread
  renew_reread-done {m = m} b r reread s parsed (stage, read) =
      elim (Bool-cases (eq_text reread.0 b)) [
        | inr other ↦ rw other (stage, read.1, read.0)
        | inl same ↦ rw same (
            continue-Ensures (ReplaceDone libs codec m) (RenewDone libs codec true m)
              (replace_record libs codec services r s) _
              (replace_record-done b r s stage (IsRead-same b r reread s.calls parsed same read))
              (λ replacement s' done. (done.0, done.1, tt)) (λ e calls. stop m calls))
      ]

  pub renew_due-done :
      {m : ℕ} (b : Bytes) (r : CredentialRecord) (s : State W)
      → Stage libs codec true 0 m s.calls
      → codec.from_slice b ≡ some r
      → Ensures (RenewDone libs codec true m) (renew_due libs codec services b r s)
  unfolding renew_due
  renew_due-done {m = m} b r s stage parsed =
      continue-Ensures (ReadDone libs codec true 0 m) (RenewDone libs codec true m)
        (read_renewable_record libs codec services s) _ (read_renewable_record-done s stage)
        (λ reread s'. renew_reread-done b r reread s' parsed) (λ e calls. stop m calls)

  replay_reread-done :
      {m : ℕ} (attempt : Attempt) (reread : Bytes × CredentialRecord) (s : State W)
      → AttemptDone libs codec true m attempt s.calls
      → IsRead libs codec reread s.calls
      → Ensures (ReplayDone libs codec true m) (replay_reread libs codec services attempt reread s)
  unfolding replay_reread
  replay_reread-done {m = m} attempt reread s (stage, usable, known) read =
      elim (Bool-cases (eq_text reread.0 attempt.attempted_bytes)) [
        | inr other ↦ rw other (stop m s.calls stage, read.1)
        | inl same ↦ elim (Bool-cases attempt.contacted_refresh_endpoint) [
          | inl contacted ↦ rw (same, contacted) (stop m s.calls stage, tt)
          | inr fresh ↦
              rw (same, fresh)
                (continue-Ensures (ReplaceDone libs codec m) (ReplayDone libs codec true m)
                  (replace_record libs codec services attempt.credential s) _
                  (replace_record-done attempt.attempted_bytes attempt.credential s
                    (subst (λ c. Stage libs codec true (refreshes_of libs codec c) m s.calls) fresh
                      stage)
                    (IsRead-same attempt.attempted_bytes attempt.credential reread s.calls
                      (subst (λ c. IsFromBytes libs codec c attempt) fresh known) same read))
                  (λ replacement s' done. (stop m s'.calls done.0, done.1))
                  (λ e calls. stop m calls))
        ]
      ]

  pub replay_record-done :
      {m : ℕ} (attempt : Attempt) (s : State W)
      → AttemptDone libs codec true m attempt s.calls
      → Ensures (ReplayDone libs codec true m) (replay_record libs codec services attempt s)
  unfolding replay_record
  replay_record-done {m = m} attempt s (stage, usable, known) =
      continue-Ensures (ReadDone libs codec true _ m) (ReplayDone libs codec true m)
        (read_renewable_record libs codec services s) _ (read_renewable_record-done s stage)
        (λ reread s' done. replay_reread-done attempt reread s' (done.0, usable, known) done.1)
        (λ e calls. stop m calls)
