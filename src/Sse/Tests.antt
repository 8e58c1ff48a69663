-- ===== src/Sse/Tests.antt =====
-- The decoder at concrete inputs, over a small stand-in for serde_json: an event is `kind|body`.
use rust_agent_harness.Sse.Splits.{taken, decode-taken}
use rust_agent_harness.Sse.Decode.{Answers, decode-Answers}
use rust_agent_harness.Sse.Bounds.{IsBounded, StepFits, process_chunk-StepFits}
use rust_agent_harness.Sse.Frames.{idle, process_chunk_line, process_chunk_event, delivered}
use rust_agent_harness.Prelude.{
  ℕ, ◌≡◌, refl, Option, none, some, [], Result, ok, if◌then◌else◌, suc, zero, ◌∷◌, arith, ◌++◌,
  ◌>>=◌,
}
use rust_agent_harness.Text.{Bytes, Text, text, len, strip_prefix, eq_text, split_once}
use rust_agent_harness.Text.Utf8.{utf8, from_utf8}
use rust_agent_harness.Json.{Json}
use rust_agent_harness.Sse.State.{Limits, start, default_text}
use rust_agent_harness.Sse.Dispatch.{dispatch}
use rust_agent_harness.Sse.Lines.{
  process_chunk, process_byte, process_line, pop_carriage_return, end_event, field_line,
  unless_done,
}
use rust_agent_harness.Sse.Loop.{read_step, ReadError, decode}

pub data Toy : Type 0 where
  leaf : Text → Toy
  event : Text → Text → Toy

unfoldable pub toy_get : Toy → Text → Option Toy
toy_get (leaf t) key = none
toy_get (event kind body) key =
    if eq_text key (text "type") then some (leaf kind) else some (leaf body)

unfoldable pub toy_str : Toy → Option Text
toy_str (leaf t) = some t
toy_str (event kind body) = none

unfoldable pub toy_event : Text → Option Toy
toy_event t = elim (split_once b'|' t) [ none ↦ none | some (kind, body) ↦ some (event kind body) ]

abbrev pub toy : Json
toy = record {
  Value = Toy;
  from_str = toy_event;
  from_slice = toy_event;
  get = toy_get;
  as_str = toy_str;
  as_array = λ v. none;
  as_u64 = λ v. none;
  as_object = λ v. none;
}

abbrev pub small : Limits
small = record { event_bytes = 64; response_bytes = 128; text_bytes = 8; total_budget = 10 }

-- The clock advances by one at each reading.
abbrev pub ticking : ℕ → ℕ
ticking n = n

abbrev pub body : Bytes
body = utf8 (text "data: response.output_text.delta|hi\r\n\ndata: response.completed|\n\n")

abbrev pub once : ℕ → Result ReadError Bytes
once zero = ok body
once (suc n) = ok []

pub decode-once : decode toy small ticking once ≡ some (ok (text "hi"))
unfolding decode read_step process_chunk process_byte process_line pop_carriage_return end_event
    field_line dispatch text eq_text split_once strip_prefix utf8 from_utf8 len toy_get toy_str
    toy_event
decode-once = refl

-- Two reads that split a line, and a clock that stands still.
abbrev first_half : Bytes
first_half = utf8 (text "data: response.output")

abbrev second_half : Bytes
second_half = utf8 (text "_text.delta|hi\n\ndata: response.completed|\n\n")

abbrev split_reads : ℕ → Result ReadError Bytes
split_reads zero = ok first_half
split_reads (suc zero) = ok second_half
split_reads (suc (suc n)) = ok []

abbrev still : ℕ → ℕ
still n = 0

decode-taken_example :
    decode toy small still split_reads
    ≡ some (taken toy small still (first_half ++ (second_half ++ [])) start)
unfolding utf8 text
decode-taken_example =
    decode-taken toy small still (λ n. omega arith) split_reads (first_half ∷ second_half ∷ [])
      (refl, (λ e. cc e), (refl, (λ e. cc e), refl)) (omega arith) (omega arith)

start-IsBounded : IsBounded small start
unfolding len
start-IsBounded = omega arith

process_chunk-StepFits_example : StepFits small (process_chunk toy small ticking body start)
process_chunk-StepFits_example = process_chunk-StepFits toy small ticking body start start-IsBounded

decode-Answers_example : Answers toy small ticking once (decode toy small ticking once)
decode-Answers_example = decode-Answers toy small ticking once

process_chunk_line_example :
    process_chunk toy small ticking (utf8 (text ": hi") ++ b'\n' ∷ body) start ≡ (
      process_line toy small ticking (utf8 (text ": hi")) start >>= λ r.
      unless_done r (process_chunk toy small ticking body))
unfolding utf8 text
process_chunk_line_example =
    process_chunk_line toy small ticking (utf8 (text ": hi")) body start (omega arith) (omega arith)
      (omega arith)

process_chunk_event_example :
    process_chunk toy small ticking
      (utf8 (text "data: " ++ text "error|") ++ b'\n' ∷ b'\n' ∷ body)
      start
    ≡ (dispatch toy (text "error|") default_text 8 >>= λ r.
        unless_done (idle r.0 1, delivered r.1) (process_chunk toy small ticking body))
unfolding text len
process_chunk_event_example =
    process_chunk_event toy small ticking (text "error|") default_text 0 (omega arith) (omega arith)
      body (λ e. cc e) (omega arith) (omega arith) (omega arith) (omega arith)
