-- ===== src/Sse/Splits/Clock.antt =====
-- A step of the decoder, sse.rs, at two readings of a clock that never comes to the budget.
use rust_agent_harness.Text.Utf8.{from_utf8}
use rust_agent_harness.Prelude.{
  ℕ, ◌+◌, ◌<◌, ◌≡◌, refl, Option, none, some, [], ◌∷◌, Result, ok, err, arith, length, ◌∙◌, ap,
  Result-cases, Option-cases, Bool-cases, inl, inr, is_empty, ◌==◌, Bool, if◌then◌else◌,
  checked_add, sum_exceeds, ltb,
}
use rust_agent_harness.Text.{Bytes, Text, split_once, strip_prefix, eq_text, text, len}
use rust_agent_harness.Json.{Json}
use rust_agent_harness.Sse.State.{Limits, Decoder, DecodeError}
use rust_agent_harness.Sse.Lines.{
  process_byte, process_line, end_event, field_line, push_data, check_budget, line_overflows,
  pop_carriage_return,
}
use rust_agent_harness.Sse.Dispatch.{dispatch}

abbrev pub Step : Type 0
Step = Result DecodeError (Decoder × Option Text)

-- The same decoder at another reading of the clock.
abbrev pub at : ℕ → Decoder → Decoder
at reads d = record d { clock_reads = reads }

-- The same step but for the readings of the clock.
abbrev pub Alike : Step → Step → Type 0
Alike (ok (d, found)) (ok (d', found')) = (d' ≡ at d'.clock_reads d) × (found' ≡ found)
Alike (err e) (err e') = e' ≡ e
Alike _ _ = ⊥

abbrev pub resume : Step → (Decoder → Result DecodeError Text) → Result DecodeError Text
resume (ok (d, none)) rest = rest d
resume (ok (d, some t)) rest = ok t
resume (err e) rest = err e

pub resume-Alike :
    (rest : Decoder → Result DecodeError Text) (p q : Step)
    → ((k : ℕ) (d : Decoder) → rest (at k d) ≡ rest d)
    → Alike p q
    → resume q rest ≡ resume p rest
resume-Alike rest (ok (d, none)) (ok (d', none)) timeless (same, found) =
    ap rest same ∙ timeless d'.clock_reads d
resume-Alike rest (ok (d, some t)) (ok (d', some t')) timeless (same, found) = cc found
resume-Alike rest (ok (d, none)) (ok (d', some t')) timeless (same, found) = absurd (cc found)
resume-Alike rest (ok (d, some t)) (ok (d', none)) timeless (same, found) = absurd (cc found)
resume-Alike rest (ok p) (err e) timeless h = absurd h
resume-Alike rest (err e) (ok q) timeless h = absurd h
resume-Alike rest (err e) (err e') timeless h = ap err h

module _ (j : Json) (limits : Limits) (elapsed : ℕ → ℕ)
    (early : (n : ℕ) → elapsed n < limits.total_budget) where
  pub check_budget-early :
      (d : Decoder) → check_budget j limits elapsed d ≡ ok (at (d.clock_reads + 1) d)
  unfolding check_budget
  check_budget-early d = ground (arith, early d.clock_reads)

  end_event-Alike :
      (k : ℕ) (d : Decoder)
      → Alike (end_event j limits elapsed d) (end_event j limits elapsed (at k d))
  unfolding end_event
  end_event-Alike k d =
      rw (check_budget-early d, check_budget-early (at k d))
        (elim (Bool-cases (is_empty d.event_data)) [
          | inl h ↦ rw h (refl, refl)
          | inr h ↦ elim (Result-cases (dispatch j d.event_data d.state limits.text_bytes)) [
            | inl (r, e) ↦ rw (h, e) (refl, refl)
            | inr (e', e) ↦ rw (h, e) refl
          ]
        ])

  abbrev overfull : Decoder → Text → Bool
  overfull d value =
      sum_exceeds (len d.event_data)
        (len value + length {A = ℕ} (if is_empty d.event_data then [] else b'\n' ∷ []))
        limits.event_bytes

  push_data-Alike :
      (k : ℕ) (d : Decoder) (value : Text)
      → Alike (push_data j limits elapsed d value) (push_data j limits elapsed (at k d) value)
  unfolding push_data
  push_data-Alike k d value = elim (Bool-cases (overfull d value)) [
    | inl h ↦ rw (h, push_data) refl
    | inr h ↦ rw (h, push_data) (refl, refl)
  ]

  field_line-Alike :
      (k : ℕ) (d : Decoder) (line : Text)
      → Alike (field_line j limits elapsed d line) (field_line j limits elapsed (at k d) line)
  unfolding field_line
  field_line-Alike k d line = elim (Option-cases (strip_prefix (b':' ∷ []) line)) [
    | inr (rest, h) ↦ rw (h, field_line) (refl, refl)
    | inl h ↦ elim (Option-cases (split_once b':' line)) [
      | inl e ↦ rw (h, e, field_line) (refl, refl)
      | inr (parts, e) ↦ elim (Bool-cases (eq_text parts.0 (text "data"))) [
        | inl data_field ↦ rw (h, e, data_field, field_line) (push_data-Alike k d _)
        | inr other ↦ rw (h, e, other, field_line) (refl, refl)
      ]
    ]
  ]

  process_line-Alike :
      (k : ℕ) (d : Decoder) (raw : Bytes)
      → Alike (process_line j limits elapsed raw d) (process_line j limits elapsed raw (at k d))
  unfolding process_line
  process_line-Alike k d raw =
      let bytes = pop_carriage_return raw in
      elim (Option-cases (checked_add d.event_bytes (length bytes + 1))) [
        | inl h ↦ rw (h, process_line) refl
        | inr (total, h) ↦ elim (Bool-cases (ltb limits.event_bytes total)) [
          | inl over ↦ rw (h, over, process_line) refl
          | inr fits ↦ elim (Option-cases (from_utf8 bytes)) [
            | inl e ↦ rw (h, fits, e, process_line) refl
            | inr (line, e) ↦ elim (Bool-cases (is_empty line)) [
              | inl blank ↦
                  rw (h, fits, e, blank, process_line)
                    (end_event-Alike k (record d { event_bytes = total }))
              | inr filled ↦
                  rw (h, fits, e, filled, process_line)
                    (field_line-Alike k (record d { event_bytes = total }) line)
            ]
          ]
        ]
      ]

  pub process_byte-Alike :
      (b k : ℕ) (d : Decoder)
      → Alike (process_byte j limits elapsed b d) (process_byte j limits elapsed b (at k d))
  unfolding process_byte
  process_byte-Alike b k d = elim (Bool-cases (b == b'\n')) [
    | inl h ↦ rw (h, process_byte) (process_line-Alike k (record d { pending = [] }) d.pending)
    | inr h ↦ elim (Bool-cases (line_overflows j limits elapsed d)) [
      | inl over ↦ rw (h, over, process_byte) refl
      | inr fits ↦ rw (h, fits, process_byte) (refl, refl)
    ]
  ]
