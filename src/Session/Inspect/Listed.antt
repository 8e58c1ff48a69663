-- ===== src/Session/Inspect/Listed.antt =====
-- What a listing of file.rs shows of one session.
use rust_agent_harness.Prelude.{ℕ, ◌≤◌, ◌≡◌, ok, length, take, Result-cases, inl, inr}
use rust_agent_harness.Text.{Text}
use rust_agent_harness.Session.Format.{Codec, max_session_bytes}
use rust_agent_harness.Session.Projection.{ShowResult, project}
use rust_agent_harness.Session.List.{charge, ListReadBudget}
use rust_agent_harness.Session.Inspect.{InspectProbe, open_session, inspect_charged, inspect_listed}
use rust_agent_harness.Session.Inspect.Reads.{
  IsSafe, IsUnchanged, open_session-IsSafe, open_session-size, read_and_project-ok, shows-ok,
}

module _ (c : Codec) where
  -- Where a session that a listing shows comes from.
  pub record IsListed (p : InspectProbe) (id : Text) (shown : ShowResult) : Type 0 where
    pub safe : IsSafe p
    pub size : ℕ
    pub opened : open_session p ≡ ok size
    pub bounded : size ≤ max_session_bytes
    pub all_read : length (take size p.content) ≡ size
    pub projected : project c (take size p.content) id ≡ ok shown
    pub unchanged : IsUnchanged p size

  charged-IsListed :
      (p : InspectProbe) (id : Text) (size : ℕ) (b : ListReadBudget) (shown : ShowResult)
      → open_session p ≡ ok size
      → (inspect_charged c p id size b (charge b size)).1 ≡ ok shown
      → IsListed p id shown
  unfolding inspect_charged
  charged-IsListed p id size b shown opened h = elim (Result-cases (charge b size)) [
    | inr (e, n) ↦ absurd (cc (rw n at h))
    | inl (b', n) ↦
        let (all_read, projected, unchanged) =
          read_and_project-ok c p id size (shows-ok _ (rw n at h)) in
        record {
          safe = open_session-IsSafe p opened;
          size = size;
          opened = opened;
          bounded = open_session-size p opened;
          all_read = all_read;
          projected = projected;
          unchanged = unchanged;
        }
  ]

  -- When an inspection for a listing succeeds: the path and the handle were one regular file,
  -- private to the user, its shared lock was taken, and its size was within the bound for session
  -- files; exactly so many bytes were read, which are what is shown, and after the read the file
  -- still had that size and was the one at its path.
  pub inspect_listed-IsListed :
      (probe : Text → InspectProbe) (b : ListReadBudget) (id : Text) (shown : ShowResult)
      → (inspect_listed c probe b id).1 ≡ ok shown
      → IsListed (probe id) id shown
  unfolding inspect_listed
  inspect_listed-IsListed probe b id shown h = elim (Result-cases (open_session (probe id))) [
    | inr (e, n) ↦ absurd (cc (rw n at h))
    | inl (size, n) ↦ charged-IsListed (probe id) id size b shown n (rw n at h)
  ]
