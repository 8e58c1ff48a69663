-- ===== src/Session/Inspect/Budget.antt =====
-- What a listing of file.rs reads, and how much of its budget it takes.
use rust_agent_harness.Session.Errors.{ShowError}
use rust_agent_harness.Session.List.Newest.{is_too_large, overruns}
use rust_agent_harness.Session.List.{
  charge, ListReadBudget, FileInspectionError, show_error, inspection_too_large,
}
use rust_agent_harness.Session.Inspect.{
  InspectProbe, inspect_charged, inspect_listed, open_session, Text, ShowResult, invalid_session_id,
  shows,
}
use rust_agent_harness.Session.Inspect.Reads.{open_session-valid, read_and_project-valid, shows-err}
use rust_agent_harness.Prelude.{
  inl, inr, ◌≡◌, refl, ok, err, arith, length, Result, ℕ, List, ◌≢◌, ◌≤◌, take, Result-cases, ◌∷◌,
  ◌+◌, [], word_modulus, ◌<◌, Bool, true, false, ltb, Bool-cases, ap, ◌∙◌, ◌⊎◌,
}
use rust_agent_harness.Session.Format.{Codec}

module _ (c : Codec) where
  charge-valid :
      (b : ListReadBudget) (size : ℕ) → charge b size ≢ err (show_error invalid_session_id)
  unfolding charge
  charge-valid b size h = ground arith

  inspect_charged-valid :
      (p : InspectProbe) (id : Text) (size : ℕ) (b : ListReadBudget)
      → (inspect_charged c p id size b (charge b size)).1 ≢ err (show_error invalid_session_id)
  unfolding inspect_charged
  inspect_charged-valid p id size b = elim (Result-cases (charge b size)) [
    | inr (e, n) ↦ rw n (λ h. charge-valid b size (cc (n, h)))
    | inl (b', n) ↦ rw n (λ h. read_and_project-valid c p id size (shows-err _ h))
  ]

  pub inspect_listed-valid :
      (probe : Text → InspectProbe) (b : ListReadBudget) (id : Text)
      → (inspect_listed c probe b id).1 ≢ err (show_error invalid_session_id)
  unfolding inspect_listed
  inspect_listed-valid probe b id = elim (Result-cases (open_session (probe id))) [
    | inr (e, n) ↦ rw n (λ h. open_session-valid (probe id) (cc (n, h)))
    | inl (size, n) ↦ rw n (inspect_charged-valid (probe id) id size b)
  ]

  abbrev size_or_none : Result ShowError ℕ → ℕ
  size_or_none (ok size) = size
  size_or_none (err e) = 0

  -- The size of a file that passes the checks before the read, with no regard to any budget.
  abbrev pub size_of : InspectProbe → ℕ
  size_of p = size_or_none (open_session p)

  abbrev pub total_size : (Text → InspectProbe) → List Text → ℕ
  total_size probe [] = 0
  total_size probe (id ∷ ids) = size_of (probe id) + total_size probe ids

  -- The bytes of a file that an inspection with this result reads: those up to its size, unless
  -- the inspection was refused for the budget, before the read.
  abbrev pub bytes_of : InspectProbe → Bool → ℕ
  bytes_of p true = 0
  bytes_of p false = length (take (size_of p) p.content)

  -- And those of all the candidates in turn.
  abbrev pub bytes_read : (Text → InspectProbe) → ListReadBudget → List Text → ℕ
  bytes_read probe b [] = 0
  bytes_read probe b (id ∷ ids) =
      bytes_of (probe id) (is_too_large (inspect_listed c probe b id).1)
      + bytes_read probe (inspect_listed c probe b id).0 ids

  abbrev spent : ListReadBudget → ℕ → ListReadBudget
  spent b size = record b { used = b.used + size }

  -- What an inspection does to a budget, by the size of the file.
  abbrev Spends :
      ℕ → ListReadBudget → ListReadBudget × Result FileInspectionError ShowResult → Type 0
  Spends size b (after, result) =
      ((b.limit < b.used + size) × (is_too_large result ≡ true) × (after ≡ b))
      ⊎ ((b.used + size ≤ b.limit) × (is_too_large result ≡ false) × (after ≡ spent b size))

  charge-over :
      (b : ListReadBudget) (size : ℕ)
      → b.limit < b.used + size
      → charge b size ≡ err inspection_too_large
  unfolding charge
  charge-over b size over = ground arith

  charge-fits :
      (b : ListReadBudget) (size : ℕ)
      → b.used + size ≤ b.limit
      → b.limit < word_modulus
      → charge b size ≡ ok (spent b size)
  unfolding charge
  charge-fits b size fits small = ground arith

  is_too_large-shows : (r : Result ShowError ShowResult) → is_too_large (shows r) ≡ false
  is_too_large-shows (ok shown) = refl
  is_too_large-shows (err e) = refl

  charge-Spends :
      (p : InspectProbe) (id : Text) (size : ℕ) (b : ListReadBudget)
      → b.limit < word_modulus
      → Spends size b (inspect_charged c p id size b (charge b size))
  unfolding inspect_charged
  charge-Spends p id size b small = elim (Bool-cases (ltb b.limit (b.used + size))) [
    | inl over ↦ rw (charge-over b size (ground arith)) (inl (ground arith, refl, refl))
    | inr fits ↦
        rw (charge-fits b size (ground arith) small)
          (inr (ground arith, is_too_large-shows _, refl))
  ]

  inspect_listed-Spends :
      (probe : Text → InspectProbe) (id : Text) (b : ListReadBudget)
      → b.used ≤ b.limit
      → b.limit < word_modulus
      → Spends (size_of (probe id)) b (inspect_listed c probe b id)
  unfolding inspect_listed
  inspect_listed-Spends probe id b room small = elim (Result-cases (open_session (probe id))) [
    | inr (e, n) ↦
        rw n (inr (omega arith, refl, ap (λ (used : ℕ). record b { used = used }) (omega arith)))
    | inl (size, n) ↦ rw n (charge-Spends (probe id) id size b small)
  ]

  -- With a limit that is a machine word, a listing overruns its budget exactly when the files of
  -- the candidates have together more bytes than are left of it.
  pub overruns_lem :
      (probe : Text → InspectProbe) (b : ListReadBudget) (ids : List Text)
      → b.used ≤ b.limit
      → b.limit < word_modulus
      → overruns (inspect_listed c probe) b ids ≡ ltb b.limit (b.used + total_size probe ids)
  overruns_lem probe b [] room small = ground arith
  overruns_lem probe b (id ∷ ids) room small = elim (inspect_listed-Spends probe id b room small) [
    | inl (over, large, same) ↦ rw large (ground (arith, over))
    | inr (fits, small_enough, same) ↦
        rw (small_enough, same)
          (overruns_lem probe (spent b (size_of (probe id))) ids fits small
            ∙ ap (ltb b.limit) (omega arith))
  ]
