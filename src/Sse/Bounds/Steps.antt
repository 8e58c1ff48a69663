-- ===== src/Sse/Bounds/Steps.antt =====
-- The decoder's invariant, through the lines, bytes and chunks of sse.rs.
use rust_agent_harness.Prelude.{
  ℕ, ◌+◌, ◌≤◌, ◌≡◌, Option, none, some, [], ◌∷◌, Result, ok, err, ◌>>=◌, arith, length,
  length-append, refl,
}
use rust_agent_harness.Text.{Bytes, Text, len, len-append}
use rust_agent_harness.Json.{Json}
use rust_agent_harness.Sse.State.{Limits, Decoder, DecodeError}
use rust_agent_harness.Sse.Lines.{
  end_event, push_data, field_line, process_line, process_byte, process_chunk, unless_done,
}
use rust_agent_harness.Sse.Bounds.Texts.{TextFits, IsAnswer, dispatch-fits}

-- The event in progress and the line in progress fit the limit for one event, and the texts
-- that events left behind fit the limit for the answer.
pub record IsBounded (limits : Limits) (d : Decoder) : Type 0 where
  pub event_data : len d.event_data ≤ limits.event_bytes
  pub event_bytes : d.event_bytes + length d.pending ≤ limits.event_bytes
  pub state : TextFits limits.text_bytes d.state

-- A step that succeeds keeps the invariant, and what it returns is an answer.
abbrev pub StepFits : Limits → Result DecodeError (Decoder × Option Text) → Type 0
StepFits limits (ok (d, none)) = IsBounded limits d
StepFits limits (ok (d, some t)) = IsBounded limits d × IsAnswer limits.text_bytes t
StepFits limits (err e) = Unit

StepFits-unless_done :
    (limits : Limits) (r : Result DecodeError (Decoder × Option Text))
    (rest : Decoder → Result DecodeError (Decoder × Option Text))
    → StepFits limits r
    → ((d : Decoder) → IsBounded limits d → StepFits limits (rest d))
    → StepFits limits (r >>= λ p. unless_done p rest)
unfolding unless_done
StepFits-unless_done limits (ok (d, none)) rest h k = k d h
StepFits-unless_done limits (ok (d, some t)) rest h k = h
StepFits-unless_done limits (err e) rest h k = tt

module _ (j : Json) (limits : Limits) (elapsed : ℕ → ℕ) where
  end_event-fits :
      (d : Decoder)
      → d.pending ≡ []
      → IsBounded limits d
      → StepFits limits (end_event j limits elapsed d)
  unfolding end_event len
  end_event-fits d e h =
      ground (arith, dispatch-fits j limits.text_bytes d.event_data d.state h.state)

  push_data-fits :
      (d : Decoder) (value : Text)
      → IsBounded limits d
      → StepFits limits (push_data j limits elapsed d value)
  unfolding push_data len
  push_data-fits d value h = grind (arith, len-append)

  field_line-fits :
      (d : Decoder) (line : Text)
      → IsBounded limits d
      → StepFits limits (field_line j limits elapsed d line)
  unfolding field_line
  field_line-fits d line h = grind (arith, push_data-fits)

  process_line-fits :
      (raw : Bytes) (d : Decoder)
      → d.pending ≡ []
      → IsBounded limits d
      → StepFits limits (process_line j limits elapsed raw d)
  unfolding process_line len
  process_line-fits raw d e h = grind (arith, end_event-fits, field_line-fits)

  process_byte-fits :
      (byte : ℕ) (d : Decoder)
      → IsBounded limits d
      → StepFits limits (process_byte j limits elapsed byte d)
  unfolding process_byte
  process_byte-fits byte d h = ground (
    arith,
    process_line-fits d.pending (record d { pending = [] }) refl
        (record {
          event_data = h.event_data;
          event_bytes = omega (arith, h.event_bytes);
          state = h.state;
        }),
    length-append d.pending (byte ∷ []),
  )

  -- From a bounded state, and whatever bytes come, a chunk leaves the decoder bounded, and a
  -- result that it returns is a text that is not empty and within the limit for texts.
  pub process_chunk-StepFits :
      (chunk : Bytes) (d : Decoder)
      → IsBounded limits d
      → StepFits limits (process_chunk j limits elapsed chunk d)
  unfolding process_chunk
  process_chunk-StepFits [] d h = h
  process_chunk-StepFits (byte ∷ bytes) d h =
      StepFits-unless_done limits (process_byte j limits elapsed byte d)
        (process_chunk j limits elapsed bytes) (process_byte-fits byte d h)
        (process_chunk-StepFits bytes)
