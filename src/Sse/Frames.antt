-- ===== src/Sse/Frames.antt =====
-- The framing of sse.rs: which bytes make a line, and which lines make an event.
use rust_agent_harness.Sse.Dispatch.{dispatch}
use rust_agent_harness.Prelude.{
  ℕ, ◌+◌, ◌≤◌, ◌≡◌, ◌≢◌, refl, Option, none, some, [], ◌∷◌, ◌++◌, ok, ◌>>=◌, arith, length,
  length-append, append-nil, append_assoc, ◌<◌, word_modulus, ◌∙◌, ap, All-append, bind-ok,
}
use rust_agent_harness.Text.{Bytes, Text, len, text, split_once, strip_prefix, eq_text}
use rust_agent_harness.Text.Utf8.{
  Lacks, IsText, utf8, Lacks-utf8, from_utf8-utf8, length-utf8, IsScalar, from_utf8,
}
use rust_agent_harness.Json.{Json}
use rust_agent_harness.Sse.State.{Limits, Decoder, EventOutcome, completed, continue, TextState}
use rust_agent_harness.Sse.Lines.{
  process_byte, process_line, process_chunk, unless_done, pop_carriage_return, field_line,
  push_data, end_event, check_budget,
}

pop_carriage_return-Lacks : (line : Bytes) → Lacks b'\r' line → pop_carriage_return line ≡ line
unfolding pop_carriage_return
pop_carriage_return-Lacks [] l = refl
pop_carriage_return-Lacks (b ∷ []) l = ground arith
pop_carriage_return-Lacks (b ∷ c ∷ rest) l = ap (◌∷◌ b) (pop_carriage_return-Lacks (c ∷ rest) l.1)

abbrev pub delivered : EventOutcome → Option Text
delivered continue = none
delivered (completed t) = some t

-- Between two events: no line and no event is in progress.
abbrev pub idle : TextState → ℕ → Decoder
idle s reads = record {
  pending = [];
  event_data = [];
  event_bytes = 0;
  state = s;
  clock_reads = reads;
}

module _ (j : Json) (limits : Limits) (elapsed : ℕ → ℕ) where
  process_byte_pending :
      (b : ℕ) (d : Decoder)
      → b ≢ b'\n'
      → d.event_bytes + length d.pending + 1 ≤ limits.event_bytes
      → limits.event_bytes < word_modulus
      → process_byte j limits elapsed b d ≡ ok (record d { pending = d.pending ++ b ∷ [] }, none)
  unfolding process_byte
  process_byte_pending b d ne fits small = ground arith

  -- A line that fits the limit for one event, with what is pending before it, is handed to
  -- `process_line` whole, and the bytes after its newline go on from there.
  pub process_chunk_line :
      (line rest : Bytes) (d : Decoder)
      → Lacks b'\n' line
      → d.event_bytes + length d.pending + length line ≤ limits.event_bytes
      → limits.event_bytes < word_modulus
      → process_chunk j limits elapsed (line ++ b'\n' ∷ rest) d ≡ (
          process_line j limits elapsed (d.pending ++ line) (record d { pending = [] }) >>= λ r.
          unless_done r (process_chunk j limits elapsed rest))
  unfolding process_chunk process_byte unless_done
  process_chunk_line [] rest d l fits small = rw append-nil
  process_chunk_line (b ∷ line) rest d l fits small =
      rw (process_byte_pending b d l.0 (omega arith) small) (
        process_chunk_line line rest (record d { pending = d.pending ++ b ∷ [] }) l.1
          (omega (arith, length-append d.pending (b ∷ []))) small
        ∙ rw append_assoc)

  module _ (x : Text) (s : TextState) (reads : ℕ) (fits : len x + 8 ≤ limits.event_bytes)
      (small : limits.event_bytes < word_modulus) where
    abbrev collected : Decoder
    collected = record (idle s reads) { event_data = x; event_bytes = len x + 7 }

    -- A line `data: x`.
    data_line :
        IsText x
        → Lacks b'\r' x
        → process_line j limits elapsed (utf8 (text "data: " ++ x)) (idle s reads)
          ≡ ok (collected, none)
    unfolding process_line field_line push_data split_once strip_prefix eq_text text len
    data_line t l =
        let whole = text "data: " ++ x in
        let lacks : Lacks b'\r' whole =
          All-append (λ (c : ℕ). c ≢ b'\r') (text "data: ") x (omega arith) l in
        let scalars : IsText whole = All-append IsScalar (text "data: ") x (omega arith) t in
        ground (
          arith,
          pop_carriage_return-Lacks (utf8 whole) (Lacks-utf8 b'\r' whole (omega arith) lacks),
          from_utf8-utf8 whole scalars,
          length-utf8 whole,
        )

    -- The blank line after it.
    blank_line :
        x ≢ []
        → elapsed reads < limits.total_budget
        → process_line j limits elapsed [] collected
          ≡ (dispatch j x s limits.text_bytes >>= λ r. ok (idle r.0 (reads + 1), delivered r.1))
    unfolding process_line end_event pop_carriage_return check_budget from_utf8
    blank_line ne early = ground arith

    data_prefix : Lacks b'\n' x → Lacks b'\n' (utf8 (text "data: " ++ x))
    unfolding text
    data_prefix n =
        Lacks-utf8 b'\n' (text "data: " ++ x) (omega arith)
          (All-append (λ (c : ℕ). c ≢ b'\n') (text "data: ") x (omega arith) n)

    length-data : length (utf8 (text "data: " ++ x)) ≡ len x + 6
    unfolding text len
    length-data = omega (arith, length-utf8 (text "data: " ++ x))

    -- Between two events and within the budget and the limits, the bytes `data: x`, a newline
    -- and a blank line, for a text `x` that is not empty and has no line break, dispatch exactly
    -- `x`. An error or a completed response ends the chunk. Otherwise the decoder is between two
    -- events again and goes on with the bytes that follow.
    pub process_chunk_event :
        (rest : Bytes)
        → x ≢ []
        → IsText x
        → Lacks b'\n' x
        → Lacks b'\r' x
        → elapsed reads < limits.total_budget
        → process_chunk j limits elapsed
            (utf8 (text "data: " ++ x) ++ b'\n' ∷ b'\n' ∷ rest)
            (idle s reads)
          ≡ (dispatch j x s limits.text_bytes >>= λ r.
              unless_done
                (idle r.0 (reads + 1), delivered r.1)
                (process_chunk j limits elapsed rest))
    unfolding process_chunk process_byte unless_done
    process_chunk_event rest ne t n r early =
        process_chunk_line (utf8 (text "data: " ++ x)) (b'\n' ∷ rest) (idle s reads) (data_prefix n)
          (omega (arith, length-data)) small
        ∙ rw (data_line t r, blank_line ne early) (bind-ok (dispatch j x s limits.text_bytes) _ _)
