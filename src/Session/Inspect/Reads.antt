-- ===== src/Session/Inspect/Reads.antt =====
-- What an inspection of file.rs reads.
use rust_agent_harness.Session.Files.{
  identity_matches, private_file_permissions, validate_private_directory, Metadata, Io,
}
use rust_agent_harness.Prelude.{
  ℕ, ◌+◌, ◌≤◌, ◌≡◌, ◌≢◌, refl, Result, ok, err, arith, length, take, Result-cases, inl, inr,
  >>=-eq-ok, zero, suc, ap, [], ◌∷◌, sym, ◌∙◌, ◌>>=◌, Bool, true, refuse_if, ◌||◌, ◌>>◌, false, ltb,
  none, some, Bool-cases,
}
use rust_agent_harness.Text.{Bytes, Text}
use rust_agent_harness.Session.Format.{Codec, max_session_bytes}
use rust_agent_harness.Session.Projection.{ShowResult, project, valid_id}
use rust_agent_harness.Session.Errors.{ShowError, invalid_session_id, show_store_unavailable}
use rust_agent_harness.Session.List.{show_error}
use rust_agent_harness.Session.Inspect.{
  InspectProbe, open_session, read_shown, read_listed, project_bytes, inspect_shown, shows,
  map_projection_error, io_or, show, Location, lock_taken, show_file, same_size,
}

pub open_session-valid : (p : InspectProbe) → open_session p ≢ err invalid_session_id
unfolding open_session rust_agent_harness.Session.Files.map_open_error
open_session-valid p h = ground arith

read_listed-valid : (p : InspectProbe) (size : ℕ) → read_listed p size ≢ err invalid_session_id
unfolding read_listed
read_listed-valid p size h = ground arith

pub open_session-size :
    (p : InspectProbe) {size : ℕ} → open_session p ≡ ok size → size ≤ max_session_bytes
unfolding open_session
open_session-size p h = ground arith

take_short : (n : ℕ) (b : Bytes) → length (take (suc n) b) ≤ n → take (suc n) b ≡ b
take_short n [] h = refl
take_short zero (x ∷ b) h = absurd (omega (arith, h))
take_short (suc n) (x ∷ b) h = ap (λ t. x ∷ t) (take_short n b (omega (arith, h)))

unless-ok :
    {A : Type 0} (test : Bool) (e : ShowError) {a b : A}
    → (do refuse_if test e; ok a) ≡ ok b
    → (test ≡ false) × (a ≡ b)
unless-ok true e h = absurd (cc h)
unless-ok false e h = (refl, ground arith)

not_exceeded : (bound n : ℕ) (test : Bool) → (ltb bound n || test) ≡ false → n ≤ bound
not_exceeded bound n test h = ground arith

read_shown_part :
    (p : InspectProbe) {bytes : Bytes}
    → read_shown p ≡ ok bytes
    → (take (max_session_bytes + 1) p.content ≡ bytes) × (length bytes ≤ max_session_bytes)
unfolding read_shown
read_shown_part p h =
    let (read, done, later) = >>=-eq-ok (io_or p.read show_store_unavailable) _ h in
    let (kept, same) = unless-ok _ _ later in
    (same, rw (← same) (not_exceeded max_session_bytes _ _ kept))

read_shown-ok : (p : InspectProbe) {bytes : Bytes} → read_shown p ≡ ok bytes → bytes ≡ p.content
read_shown-ok p h =
    let (part, few) = read_shown_part p h in
    sym part ∙ take_short max_session_bytes p.content (rw part few)

pub shows-ok : {A : Type 0} (r : Result ShowError A) {a : A} → shows r ≡ ok a → r ≡ ok a
shows-ok (ok b) h = cc h
shows-ok (err e) h = cc h

pub shows-err :
    {A : Type 0} (r : Result ShowError A) {e : ShowError} → shows r ≡ err (show_error e) → r ≡ err e
shows-err (ok b) h = cc h
shows-err (err e) h = cc h

-- After the read, the file still has the size that was charged, and is the one at its path.
abbrev pub IsUnchanged : InspectProbe → ℕ → Type 0
IsUnchanged p size =
    (same_size p.size_after size ≡ true) × (identity_matches p.handle_after p.path_after ≡ true)

read_listed-ok :
    (p : InspectProbe) (size : ℕ) {bytes : Bytes}
    → read_listed p size ≡ ok bytes
    → (bytes ≡ take size p.content) × (length bytes ≡ size) × IsUnchanged p size
unfolding read_listed
read_listed-ok p size h = ground arith

-- What the reader was sure of before it read.
abbrev pub IsSafe : InspectProbe → Type 0
IsSafe p =
    (identity_matches p.handle p.path ≡ true)
    × (private_file_permissions p.permissions ≡ true)
    × (p.lock ≡ lock_taken)

pub open_session-IsSafe : (p : InspectProbe) {size : ℕ} → open_session p ≡ ok size → IsSafe p
unfolding open_session
open_session-IsSafe p h = ground arith

module _ (c : Codec) where
  project_bytes-valid : (b : Bytes) (id : Text) → project_bytes c b id ≢ err invalid_session_id
  unfolding project_bytes map_projection_error
  project_bytes-valid b id h = ground arith

  project_bytes-ok :
      (b : Bytes) (id : Text) {shown : ShowResult}
      → project_bytes c b id ≡ ok shown
      → project c b id ≡ ok shown
  unfolding project_bytes
  project_bytes-ok b id h = ground arith

  abbrev pub read_and_project : InspectProbe → Text → ℕ → Result ShowError ShowResult
  read_and_project p id size = do bytes ← read_listed p size; project_bytes c bytes id

  pub read_and_project-valid :
      (p : InspectProbe) (id : Text) (size : ℕ)
      → read_and_project p id size ≢ err invalid_session_id
  read_and_project-valid p id size h = elim (Result-cases (read_listed p size)) [
    | inl (bytes, e) ↦ project_bytes-valid bytes id (cc (h, e))
    | inr (e, n) ↦ read_listed-valid p size (cc (h, n))
  ]

  pub read_and_project-ok :
      (p : InspectProbe) (id : Text) (size : ℕ) {shown : ShowResult}
      → read_and_project p id size ≡ ok shown
      → (length (take size p.content) ≡ size)
        × (project c (take size p.content) id ≡ ok shown)
        × IsUnchanged p size
  read_and_project-ok p id size h =
      let (bytes, read, projected) = >>=-eq-ok (read_listed p size) _ h in
      let (same, all_read, unchanged) = read_listed-ok p size read in
      (rw (← same) all_read, rw (← same) (project_bytes-ok bytes id projected), unchanged)

  inspect_shown-ok :
      (p : InspectProbe) (id : Text) (shown : ShowResult)
      → inspect_shown c p id ≡ ok shown
      → IsSafe p × (project c p.content id ≡ ok shown)
  unfolding inspect_shown
  inspect_shown-ok p id shown h =
      let (size, opened, later) = >>=-eq-ok (open_session p) _ h in
      let (bytes, read, projected) = >>=-eq-ok (read_shown p) _ later in
      (
        open_session-IsSafe p opened,
        rw (← read_shown-ok p read) (project_bytes-ok bytes id projected),
      )

  show_file-ok :
      (application_dir sessions_dir : Io Metadata) (p : InspectProbe) (id : Text)
      (shown : ShowResult)
      → show_file c application_dir sessions_dir p id ≡ ok shown
      → inspect_shown c p id ≡ ok shown
  unfolding show_file
  show_file-ok application_dir sessions_dir p id shown h =
      let (t, first, later) = >>=-eq-ok (validate_private_directory application_dir) _ h in
      let (u, second, last) = >>=-eq-ok (validate_private_directory sessions_dir) _ later in last

  -- When `show` shows a session: the identifier is well-formed, the path and the handle were one
  -- regular file, private to the user, its shared lock was taken, and what is shown is the projection
  -- of all the bytes that the file held.
  pub show-ok :
      (location : Location) (p : InspectProbe) (id : Text) (shown : ShowResult)
      → show c location p id ≡ ok shown
      → (valid_id id ≡ true) × IsSafe p × (project c p.content id ≡ ok shown)
  unfolding show
  show-ok none p id shown h = absurd (ground arith)
  show-ok (some (application_dir, sessions_dir)) p id shown h = elim (Bool-cases (valid_id id)) [
    | inr bad ↦ absurd (cc (rw bad at h))
    | inl good ↦
        let (safe, projected) =
          inspect_shown-ok p id shown
            (show_file-ok application_dir sessions_dir p id shown (rw good at h)) in
        (good, safe, projected)
  ]
