-- ===== src/Sse/State.antt =====
-- The limits, the errors and the state of the decoder.
use rust_agent_harness.Prelude.{ℕ, Option, none, [], ◌*◌}
use rust_agent_harness.Text.{Bytes, Text}

pub record Limits : Type 0 where
  pub event_bytes : ℕ
  pub response_bytes : ℕ
  pub text_bytes : ℕ
  -- in milliseconds
  pub total_budget : ℕ

abbrev pub production : Limits
production = record {
  event_bytes = 1024 * 1024;
  response_bytes = 4 * 1024 * 1024;
  text_bytes = 256 * 1024;
  total_budget = 2 * 60 * 1000;
}

pub data DecodeError : Type 0 where
  invalid limit_exceeded timed_out model_failed empty_text : DecodeError

pub record TextState : Type 0 where
  pub deltas : Text
  pub output_item : Option Text
  pub done : Option Text

abbrev pub default_text : TextState
default_text = record { deltas = []; output_item = none; done = none }

pub data EventOutcome : Type 0 where
  continue : EventOutcome
  completed : Text → EventOutcome

-- The variables of `decode` that outlive a chunk, and the number of times that the clock was
-- read. An error ends `decode`, which drops them all.
pub record Decoder : Type 0 where
  pub pending : Bytes
  pub event_data : Text
  pub event_bytes : ℕ
  pub state : TextState
  pub clock_reads : ℕ

abbrev pub start : Decoder
start = record {
  pending = [];
  event_data = [];
  event_bytes = 0;
  state = default_text;
  clock_reads = 0;
}
