-- ===== src/Auth/RefreshLock/Acquire.antt =====
-- How the loop of `acquire`, refresh_lock.rs, ends.
use mathlib.Core.Path.{subst, sym}
use rust_agent_harness.Prelude.{
  ℕ, zero, suc, ◌+◌, ◌*◌, ◌-◌, ◌<◌, ◌≤◌, ◌≡◌, ◌⊎◌, inl, inr, refl, Option, none, some, Result, ok,
  err, arith, Bool-cases, leb, true, false, Result-cases,
}
use rust_agent_harness.Auth.Errors.{LockError, lock_busy, lock_unavailable}
use rust_agent_harness.Auth.RefreshLock.{
  TryLock, locked, would_block, lock_error, poll, wait_timeout, poll_interval, LockProbe, acquire,
  opened,
}

-- The lock is taken at the first turn that finds it free; the wait ends as busy when it was held
-- at every turn until so much time had passed.
module _ (try_lock : ℕ → TryLock) (clock : ℕ → ℕ) (started : ℕ) where
  pub data Polls : ℕ → Result LockError (Unit {0}) → Type 0 where
    free : {turn : ℕ} → try_lock turn ≡ locked → Polls turn (ok tt)
    broken : {turn : ℕ} → try_lock turn ≡ lock_error → Polls turn (err lock_unavailable)
    timed_out :
        {turn : ℕ}
        → try_lock turn ≡ would_block
        → started + wait_timeout ≤ clock turn
        → Polls turn (err lock_busy)
    again :
        {turn : ℕ} {result : Result LockError (Unit {0})}
        → try_lock turn ≡ would_block
        → clock turn < started + wait_timeout
        → Polls (suc turn) result
        → Polls turn result

  abbrev pub PollsFrom : ℕ → Option (Result LockError (Unit {0})) → Type 0
  PollsFrom turn none = ⊥
  PollsFrom turn (some result) = Polls turn result

  TryLock-cases : (t : TryLock) → (t ≡ locked) ⊎ ((t ≡ lock_error) ⊎ (t ≡ would_block))
  TryLock-cases locked = inl refl
  TryLock-cases lock_error = inr (inl refl)
  TryLock-cases would_block = inr (inr refl)

  abbrev run : ℕ → ℕ → Option (Result LockError (Unit {0}))
  run = poll try_lock clock started

  poll-free : (fuel turn : ℕ) → try_lock turn ≡ locked → run (suc fuel) turn ≡ some (ok tt)
  unfolding poll
  poll-free fuel turn h = ground arith

  poll-broken :
      (fuel turn : ℕ)
      → try_lock turn ≡ lock_error
      → run (suc fuel) turn ≡ some (err lock_unavailable)
  unfolding poll
  poll-broken fuel turn h = ground arith

  poll-timed_out :
      (fuel turn : ℕ)
      → try_lock turn ≡ would_block
      → leb wait_timeout (clock turn - started) ≡ true
      → run (suc fuel) turn ≡ some (err lock_busy)
  unfolding poll
  poll-timed_out fuel turn h late = ground arith

  poll-again :
      (fuel turn : ℕ)
      → try_lock turn ≡ would_block
      → leb wait_timeout (clock turn - started) ≡ false
      → run (suc fuel) turn ≡ run fuel (suc turn)
  unfolding poll
  poll-again fuel turn h early = ground arith

  PollsFrom-again :
      (turn : ℕ) (found : Option (Result LockError (Unit {0})))
      → try_lock turn ≡ would_block
      → clock turn < started + wait_timeout
      → PollsFrom (suc turn) found
      → PollsFrom turn found
  PollsFrom-again turn none h early polls = polls
  PollsFrom-again turn (some result) h early polls = again h early polls

  abbrev polls_by :
      (turn : ℕ) {found other : Option (Result LockError (Unit {0}))}
      → found ≡ other
      → PollsFrom turn other
      → PollsFrom turn found
  polls_by turn same polls = subst (PollsFrom turn) (sym same) polls

  poll-step :
      (fuel turn : ℕ)
      → (leb wait_timeout (clock turn - started) ≡ false
          → PollsFrom (suc turn) (run fuel (suc turn)))
      → PollsFrom turn (run (suc fuel) turn)
  poll-step fuel turn later = elim (TryLock-cases (try_lock turn)) [
    | inl h ↦ polls_by turn (poll-free fuel turn h) (free h)
    | inr (inl h) ↦ polls_by turn (poll-broken fuel turn h) (broken h)
    | inr (inr h) ↦ elim (Bool-cases (leb wait_timeout (clock turn - started))) [
      | inl late ↦ polls_by turn (poll-timed_out fuel turn h late) (timed_out h (ground arith))
      | inr early ↦
          polls_by turn (poll-again fuel turn h early)
            (PollsFrom-again turn _ h (ground arith) (later early))
    ]
  ]

  -- A clock that does not go back, and that has moved on by an interval after each sleep.
  module _ (begins : started ≤ clock 0)
      (sleeps : (turn : ℕ) → clock turn + poll_interval ≤ clock (suc turn)) where
    clock-advances : (turn : ℕ) → started + turn * poll_interval ≤ clock turn
    clock-advances zero = omega (arith, begins)
    clock-advances (suc turn) = omega (arith, clock-advances turn, sleeps turn)

    poll-PollsFrom :
        (fuel turn : ℕ)
        → wait_timeout ≤ (turn + fuel) * poll_interval
        → PollsFrom turn (run (suc fuel) turn)
    poll-PollsFrom zero turn enough =
        poll-step zero turn (λ early. absurd (ground (arith, clock-advances turn)))
    poll-PollsFrom (suc fuel) turn enough =
        poll-step (suc fuel) turn (λ early. poll-PollsFrom fuel (suc turn) (omega arith))

-- One turn for each interval of the timeout, and one more.
abbrev pub turns : ℕ
turns = 1301

-- How `acquire` ends: the file could not be opened, or as the loop does.
abbrev pub Ends : LockProbe → Option (Result LockError (Unit {0})) → Type 0
Ends p none = ⊥
Ends p (some result) =
    ((e : LockError) × (opened p ≡ err e) × (result ≡ err e))
    ⊎ ((opened p ≡ ok tt) × Polls p.try_lock p.clock p.started 0 result)

Ends-polled :
    (p : LockProbe) (found : Option (Result LockError (Unit {0})))
    → opened p ≡ ok tt
    → PollsFrom p.try_lock p.clock p.started 0 found
    → Ends p found
Ends-polled p none is_open polls = polls
Ends-polled p (some result) is_open polls = inr (is_open, polls)

acquire-opened :
    (fuel : ℕ) (p : LockProbe)
    → opened p ≡ ok tt
    → acquire fuel p ≡ poll p.try_lock p.clock p.started fuel 0
unfolding acquire
acquire-opened fuel p h = ground arith

acquire-unopened :
    (fuel : ℕ) (p : LockProbe) (e : LockError) → opened p ≡ err e → acquire fuel p ≡ some (err e)
unfolding acquire
acquire-unopened fuel p e h = ground arith

-- When the clock does not run back and moves on by the poll interval with each sleep, 1301 turns
-- are enough for an attempt to acquire the lock. It answers with an error where a directory or the
-- file could not be opened, and else as the turns have it: with the lock at the first turn that
-- finds it free, as busy when it was held until the timeout had passed, and with an error when the
-- lock could not be tried.
pub acquire-Ends :
    (p : LockProbe)
    → p.started ≤ p.clock 0
    → ((turn : ℕ) → p.clock turn + poll_interval ≤ p.clock (suc turn))
    → Ends p (acquire turns p)
acquire-Ends p begins sleeps = elim (Result-cases (opened p)) [
  | inr (e, h) ↦ subst (Ends p) (sym (acquire-unopened turns p e h)) (inl (e, h, refl))
  | inl (done, h) ↦ subst (Ends p) (sym (acquire-opened turns p h)) (
      Ends-polled p _ h
        (poll-PollsFrom p.try_lock p.clock p.started begins sleeps 1300 0 (omega arith)))
]
