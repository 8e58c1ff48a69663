-- ===== src/Sse/Decode.antt =====
-- `decode` as a whole, sse.rs: its fuel and its answers.
use rust_agent_harness.Prelude.{
  ℕ, zero, suc, ◌+◌, ◌≤◌, ◌<◌, Option, none, some, Result, ok, err, arith,
}
use rust_agent_harness.Text.{Bytes, Text, len}
use rust_agent_harness.Json.{Json}
use rust_agent_harness.Sse.State.{Limits, Decoder, DecodeError, start}
use rust_agent_harness.Sse.Loop.{ReadError, conclude, read_step, decode_loop, decode}
use rust_agent_harness.Sse.Bounds.{IsBounded, IsAnswer, process_chunk-StepFits}

module _ (j : Json) (limits : Limits) (elapsed : ℕ → ℕ) (reads : ℕ → Result ReadError Bytes) where
  abbrev RoundFits : ℕ → Result DecodeError ((ℕ × Decoder) × Option Text) → Type 0
  RoundFits before (ok ((total, d), none)) =
      (before < total) × (total ≤ limits.response_bytes) × IsBounded limits d
  RoundFits before (ok ((total, d), some t)) = IsAnswer limits.text_bytes t
  RoundFits before (err e) = Unit

  read_step-fits :
      (n before : ℕ) (d : Decoder)
      → IsBounded limits d
      → RoundFits before (read_step j limits elapsed reads n before d)
  unfolding read_step
  read_step-fits n before d h = grind (arith, process_chunk-StepFits)

  abbrev pub Answers : Option (Result DecodeError Text) → Type 0
  Answers none = ⊥
  Answers (some (ok t)) = IsAnswer limits.text_bytes t
  Answers (some (err e)) = Unit

  conclude-Answers :
      (before : ℕ) (r : Result DecodeError ((ℕ × Decoder) × Option Text))
      (next : ℕ → Decoder → Option (Result DecodeError Text))
      → RoundFits before r
      → ((total : ℕ) (d : Decoder)
          → before < total
          → total ≤ limits.response_bytes
          → IsBounded limits d
          → Answers (next total d))
      → Answers (conclude r next)
  unfolding conclude
  conclude-Answers before (ok ((total, d), none)) next h k = k total d h.0 h.1 h.2
  conclude-Answers before (ok ((total, d), some t)) next h k = h
  conclude-Answers before (err e) next h k = tt

  decode_loop-Answers :
      (fuel n before : ℕ) (d : Decoder)
      → before ≤ limits.response_bytes
      → limits.response_bytes < fuel + before
      → IsBounded limits d
      → Answers (decode_loop j limits elapsed reads fuel n before d)
  unfolding decode_loop
  decode_loop-Answers zero n before d le enough h = absurd (omega arith)
  decode_loop-Answers (suc fuel) n before d le enough h =
      conclude-Answers before (read_step j limits elapsed reads n before d)
        (decode_loop j limits elapsed reads fuel (n + 1)) (read_step-fits n before d h)
        (λ total d' lt le' h'. decode_loop-Answers fuel (n + 1) total d' le' (omega arith) h')

  -- Whatever the reader, the clock and serde_json do, `decode` ends within its fuel, with an
  -- error or with a text that is not empty and at most `text_bytes` bytes long.
  pub decode-Answers : Answers (decode j limits elapsed reads)
  unfolding decode len
  decode-Answers =
      decode_loop-Answers (limits.response_bytes + 1) 0 0 start (omega arith) (omega arith)
        (ground arith)
