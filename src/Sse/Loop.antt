-- ===== src/Sse/Loop.antt =====
-- The read loop: `decode`.
use rust_agent_harness.Prelude.{
  ℕ, ◌+◌, Bool, true, false, ◌||◌, Option, none, some, Result, ok, err, ◌>>=◌, ◌>>◌, ok_or,
  refuse_if, map_err, checked_add, ltb, length, is_empty, zero, suc, if◌then◌else◌,
}
use rust_agent_harness.Text.{Bytes, Text}
use rust_agent_harness.Json.{Json}
use rust_agent_harness.Sse.State.{
  Limits, Decoder, start, DecodeError, invalid, limit_exceeded, timed_out,
}
use rust_agent_harness.Sse.Lines.{check_budget, process_chunk}

-- The kinds of `io::Error` that the code tells apart.
pub data ErrorKind : Type 0 where
  timed_out_kind would_block other_kind : ErrorKind

-- `inner_timeout`: the error wraps a reqwest error that `is_timeout`.
pub record ReadError : Type 0 where
  pub kind : ErrorKind
  pub inner_timeout : Bool

abbrev is_timeout_kind : ErrorKind → Bool
is_timeout_kind timed_out_kind = true
is_timeout_kind would_block = true
is_timeout_kind other_kind = false

unfoldable pub map_read_error : ReadError → DecodeError
map_read_error e = if is_timeout_kind e.kind || e.inner_timeout then timed_out else invalid

-- What a round leads to: an error, the text, or the next round.
unfoldable pub conclude :
    Result DecodeError ((ℕ × Decoder) × Option Text)
    → (ℕ → Decoder → Option (Result DecodeError Text))
    → Option (Result DecodeError Text)
conclude (err e) next = some (err e)
conclude (ok ((total, d), some t)) next = some (ok t)
conclude (ok ((total, d), none)) next = next total d

-- `reads n` is what the n-th call of `reader.read` returns: the bytes read, none at the end.
module _ (j : Json) (limits : Limits) (elapsed : ℕ → ℕ) (reads : ℕ → Result ReadError Bytes) where
  -- One round of the loop.
  unfoldable pub read_step : ℕ → ℕ → Decoder → Result DecodeError ((ℕ × Decoder) × Option Text)
  unfolding map_read_error check_budget
  read_step n response_bytes d = do
    d₁ ← check_budget j limits elapsed d
    chunk ← map_err map_read_error (reads n)
    d₂ ← check_budget j limits elapsed d₁
    refuse_if (is_empty chunk) invalid
    total ← ok_or (checked_add response_bytes (length chunk)) limit_exceeded
    refuse_if (ltb limits.response_bytes total) limit_exceeded
    (d₃, found) ← process_chunk j limits elapsed chunk d₂
    ok ((total, d₃), found)

  -- `none`: the fuel ran out.
  unfoldable pub decode_loop : ℕ → ℕ → ℕ → Decoder → Option (Result DecodeError Text)
  unfolding conclude
  decode_loop zero n response_bytes d = none
  decode_loop (suc fuel) n response_bytes d =
      conclude (read_step n response_bytes d) (decode_loop fuel (n + 1))

  -- Each round reads a byte at least, and no more than the limit may be read.
  unfoldable pub decode : Option (Result DecodeError Text)
  unfolding decode_loop
  decode = decode_loop (limits.response_bytes + 1) 0 0 start
