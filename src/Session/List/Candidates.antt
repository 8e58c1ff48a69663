-- ===== src/Session/List/Candidates.antt =====
-- Which identifiers `collect_candidate_ids` of file.rs finds.
use rust_agent_harness.Prelude.{
  ℕ, ◌+◌, ◌≤◌, ◌<◌, ◌≡◌, ◌≢◌, ◌∙◌, true, none, some, List, [], ◌∷◌, ◌++◌, ok, arith, length,
  length-append, append-nil, append_assoc, All, >>=-eq-ok, word_modulus,
}
use rust_agent_harness.Prelude.Sorting.{sort, sort-IsSorted, sort-perm, IsSorted}
use mathlib.Core.List.{Perm}
use rust_agent_harness.Text.{Text}
use rust_agent_harness.Text.Order.{text_le, text_le_total, text_le_trans}
use rust_agent_harness.Session.Projection.{valid_id}
use rust_agent_harness.Session.List.{
  ListLimits, DirEntry, canonical_session_id, collect_step, collect_loop, collect_candidate_ids,
}

-- The identifiers that a directory names, in its order.
abbrev pub named_by : DirEntry → List Text
named_by none = []
named_by (some file_name) = elim (canonical_session_id file_name) [ none ↦ [] | some id ↦ id ∷ [] ]

abbrev pub ids_of : List DirEntry → List Text
ids_of [] = []
ids_of (entry ∷ entries) = named_by entry ++ ids_of entries

-- What one entry that is accepted adds.
collect_step-ok :
    (limits : ListLimits) (entry : DirEntry) (n : ℕ) (found : List Text) {m : ℕ}
    {found' : List Text}
    → collect_step limits entry n found ≡ ok (m, found')
    → length found ≤ limits.candidates
    → (m ≡ n + 1)
      × (m ≤ limits.directory_entries)
      × (found' ≡ found ++ named_by entry)
      × (length found' ≤ limits.candidates)
      × (entry ≢ none)
unfolding collect_step
collect_step-ok limits entry n found h room = grind (arith, length-append, append-nil)

abbrev pub IsReadable : DirEntry → Type 0
IsReadable entry = entry ≢ none

-- What a successful run over the entries has found, and the limits that it kept.
abbrev Found : ListLimits → List DirEntry → ℕ → List Text → List Text → Type 0
Found limits entries n found ids =
    (ids ≡ found ++ ids_of entries)
    × (n + length entries ≤ limits.directory_entries)
    × (length ids ≤ limits.candidates)
    × All IsReadable entries

collect_loop-Found :
    (limits : ListLimits) (entries : List DirEntry) (n : ℕ) (found ids : List Text)
    → n ≤ limits.directory_entries
    → length found ≤ limits.candidates
    → collect_loop limits entries n found ≡ ok ids
    → Found limits entries n found ids
unfolding collect_loop
collect_loop-Found limits [] n found ids few room h = ground (arith, append-nil found)
collect_loop-Found limits (entry ∷ entries) n found ids few room h =
    let ((m, found'), stepped, later) =
      >>=-eq-ok (collect_step limits entry n found) (λ p. collect_loop limits entries p.0 p.1) h in
    let one = collect_step-ok limits entry n found stepped room in
    let rest = collect_loop-Found limits entries m found' ids one.1 one.3 later in
    (rest.0 ∙ rw (one.2, append_assoc), omega arith, rest.2, (one.4, rest.3))

collect_step_runs :
    (limits : ListLimits) (entry : DirEntry) (n : ℕ) (found : List Text)
    → IsReadable entry
    → n + 1 ≤ limits.directory_entries
    → length found + length (named_by entry) ≤ limits.candidates
    → limits.directory_entries < word_modulus
    → limits.candidates < word_modulus
    → collect_step limits entry n found ≡ ok (n + 1, found ++ named_by entry)
unfolding collect_step
collect_step_runs limits entry n found readable few room small_entries small_candidates =
    ground (arith, append-nil found)

collect_loop_runs :
    (limits : ListLimits) (entries : List DirEntry) (n : ℕ) (found : List Text)
    → All IsReadable entries
    → n + length entries ≤ limits.directory_entries
    → length found + length (ids_of entries) ≤ limits.candidates
    → limits.directory_entries < word_modulus
    → limits.candidates < word_modulus
    → collect_loop limits entries n found ≡ ok (found ++ ids_of entries)
unfolding collect_loop
collect_loop_runs limits [] n found readable few room s₁ s₂ = rw append-nil
collect_loop_runs limits (entry ∷ entries) n found readable few room s₁ s₂ =
    let counts = length-append (named_by entry) (ids_of entries) in
    rw (collect_step_runs limits entry n found readable.0 (omega arith) (omega arith) s₁ s₂) (
      collect_loop_runs limits entries (n + 1) (found ++ named_by entry) readable.1 (omega arith)
        (omega (arith, length-append found (named_by entry))) s₁ s₂
      ∙ rw append_assoc)

-- Every identifier found is well-formed.
abbrev pub IsValidId : Text → Type 0
IsValidId id = valid_id id ≡ true

module _ (limits : ListLimits) (entries : List DirEntry) where
  -- A successful collection is in order, holds exactly the identifiers that the directory names,
  -- as often, kept both limits, and met no unreadable entry.
  pub collect_candidate_ids-ok :
      (ids : List Text)
      → collect_candidate_ids entries limits ≡ ok ids
      → IsSorted text_le ids
        × Perm ids (ids_of entries)
        × (length entries ≤ limits.directory_entries)
        × (length (ids_of entries) ≤ limits.candidates)
        × All IsReadable entries
  unfolding collect_candidate_ids
  collect_candidate_ids-ok ids h =
      let (found, run, sorted) = >>=-eq-ok (collect_loop limits entries 0 []) _ h in
      let f = collect_loop-Found limits entries 0 [] found (omega arith) (omega arith) run in
      let e : sort text_le found ≡ ids = cc in
      (
        rw (← e) (sort-IsSorted text_le text_le_total text_le_trans found),
        rw (← e, ← f.0) (sort-perm text_le found),
        omega arith,
        rw f.0 at f.2,
        f.3,
      )

  -- The collection succeeds whenever the entries are readable, both limits hold and both fit a
  -- machine word; it then finds what the directory names, in order.
  pub collect_candidate_ids_runs :
      All IsReadable entries
      → length entries ≤ limits.directory_entries
      → length (ids_of entries) ≤ limits.candidates
      → limits.directory_entries < word_modulus
      → limits.candidates < word_modulus
      → collect_candidate_ids entries limits ≡ ok (sort text_le (ids_of entries))
  unfolding collect_candidate_ids
  collect_candidate_ids_runs readable few room s₁ s₂ =
      rw (collect_loop_runs limits entries 0 [] readable (omega arith) (omega arith) s₁ s₂)
