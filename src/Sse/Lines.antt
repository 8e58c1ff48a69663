-- ===== src/Sse/Lines.antt =====
-- Bytes to lines and lines to events: `process_chunk` and `process_line`.
use rust_agent_harness.Prelude.{
  ℕ, ◌+◌, Bool, true, Option, none, some, [], ◌∷◌, ◌++◌, Result, ok, err, ◌>>=◌, ◌>>◌, ok_or,
  refuse_if, sum_exceeds, checked_add, ltb, leb, ◌==◌, length, is_empty, if◌then◌else◌,
}
use rust_agent_harness.Text.{Bytes, Text, text, eq_text, len, split_once, strip_prefix}
use rust_agent_harness.Text.Utf8.{from_utf8}
use rust_agent_harness.Json.{Json}
use rust_agent_harness.Sse.State.{
  Limits, Decoder, continue, completed, DecodeError, invalid, limit_exceeded, timed_out,
}
use rust_agent_harness.Sse.Dispatch.{dispatch}

-- `if line.last() == Some(&b'\r') { line.pop(); }`
unfoldable pub pop_carriage_return : Bytes → Bytes
pop_carriage_return [] = []
pop_carriage_return (b ∷ []) = if b == b'\r' then [] else b ∷ []
pop_carriage_return (b ∷ c ∷ rest) = b ∷ pop_carriage_return (c ∷ rest)

-- `value.strip_prefix(' ').unwrap_or(value)`
abbrev strip_space : Text → Text
strip_space value = elim (strip_prefix (b' ' ∷ []) value) [ none ↦ value | some rest ↦ rest ]

-- A result ends the loop, as `return` does.
unfoldable pub unless_done :
    Decoder × Option Text
    → (Decoder → Result DecodeError (Decoder × Option Text))
    → Result DecodeError (Decoder × Option Text)
unless_done (d, none) rest = rest d
unless_done (d, some t) rest = ok (d, some t)

-- `elapsed n` is what `started.elapsed()` returns at its n-th call, in milliseconds.
module _ (j : Json) (limits : Limits) (elapsed : ℕ → ℕ) where
  unfoldable pub check_budget : Decoder → Result DecodeError Decoder
  check_budget d =
      if leb limits.total_budget (elapsed d.clock_reads)
      then err timed_out
      else ok (record d { clock_reads = d.clock_reads + 1 })

  -- A blank line ends the event.
  unfoldable pub end_event : Decoder → Result DecodeError (Decoder × Option Text)
  unfolding check_budget
  end_event d = do
    d' ← check_budget d
    if is_empty d'.event_data then ok (record d' { event_data = []; event_bytes = 0 }, none) else do
      (state, outcome) ← dispatch j d'.event_data d'.state limits.text_bytes
      ok (
        record d' { state = state; event_data = []; event_bytes = 0 },
        elim outcome [ continue ↦ none | completed t ↦ some t ],
      )

  -- The value of a `data` field joins the event.
  unfoldable pub push_data : Decoder → Text → Result DecodeError (Decoder × Option Text)
  push_data d value =
      let separator = if is_empty d.event_data then [] else b'\n' ∷ [] in
      if sum_exceeds (len d.event_data) (len value + length separator) limits.event_bytes
      then err limit_exceeded
      else ok (record d { event_data = d.event_data ++ (separator ++ value) }, none)

  unfoldable pub field_line : Decoder → Text → Result DecodeError (Decoder × Option Text)
  unfolding push_data
  field_line d line = elim (strip_prefix (b':' ∷ []) line) [
    | some _ ↦ ok (d, none)
    | none ↦ elim (split_once b':' line) [
      | none ↦ ok (d, none)
      | some (field, value) ↦
          if eq_text field (text "data") then push_data d (strip_space value) else ok (d, none)
    ]
  ]

  unfoldable pub process_line : Bytes → Decoder → Result DecodeError (Decoder × Option Text)
  process_line raw d = do
    let bytes = pop_carriage_return raw
    total ← ok_or (checked_add d.event_bytes (length bytes + 1)) limit_exceeded
    refuse_if (ltb limits.event_bytes total) limit_exceeded
    line ← ok_or (from_utf8 bytes) invalid
    let counted = record d { event_bytes = total }
    if is_empty line then end_event counted else field_line counted line

  -- `event_bytes + pending.len() + 1`, with both additions checked.
  abbrev pub line_overflows : Decoder → Bool
  line_overflows d = elim (checked_add d.event_bytes (length d.pending)) [
    | none ↦ true
    | some sum ↦ sum_exceeds sum 1 limits.event_bytes
  ]

  -- One round of `for byte in chunk`.
  unfoldable pub process_byte : ℕ → Decoder → Result DecodeError (Decoder × Option Text)
  process_byte byte d =
      if byte == b'\n'
      then process_line d.pending (record d { pending = [] })
      else if line_overflows d
      then err limit_exceeded
      else ok (record d { pending = d.pending ++ byte ∷ [] }, none)

  unfoldable pub process_chunk : Bytes → Decoder → Result DecodeError (Decoder × Option Text)
  unfolding unless_done
  process_chunk [] d = ok (d, none)
  process_chunk (byte ∷ bytes) d = do r ← process_byte byte d; unless_done r (process_chunk bytes)
