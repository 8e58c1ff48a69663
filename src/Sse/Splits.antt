-- ===== src/Sse/Splits.antt =====
-- `decode`, sse.rs, against a decoder that takes the whole body byte by byte.
pub mod Clock
use rust_agent_harness.Text.Utf8.{from_utf8}
use rust_agent_harness.Prelude.{
  ℕ, suc, zero, ◌+◌, ◌≤◌, ◌<◌, ◌≡◌, ◌≢◌, refl, Option, none, some, List, [], ◌∷◌, ◌++◌, Result, ok,
  err, ◌>>=◌, arith, length, word_modulus, ◌∙◌, ap, sym, length-append, Result-cases, Option-cases,
  Bool-cases, inl, inr, true, false, is_empty, ◌==◌, Bool, if◌then◌else◌, checked_add, sum_exceeds,
  ltb,
}
use rust_agent_harness.Text.{Bytes, Text, split_once, strip_prefix, eq_text, text, len}
use rust_agent_harness.Json.{Json}
use rust_agent_harness.Sse.State.{Limits, Decoder, DecodeError, invalid, start}
use rust_agent_harness.Sse.Lines.{
  process_byte, process_chunk, process_line, end_event, field_line, push_data, check_budget,
  unless_done, line_overflows, pop_carriage_return,
}
use rust_agent_harness.Sse.Loop.{ReadError, read_step, decode_loop, decode, conclude}
use rust_agent_harness.Sse.Splits.Clock.{
  Step, at, Alike, resume, resume-Alike, check_budget-early, process_byte-Alike,
}
use rust_agent_harness.Sse.Dispatch.{dispatch}

abbrev pub concat : List Bytes → Bytes
concat [] = []
concat (chunk ∷ chunks) = chunk ++ concat chunks

module _ (j : Json) (limits : Limits) (elapsed : ℕ → ℕ) where
  -- A response taken byte by byte: it ends with the first error or the first text, and a body that
  -- ends before is invalid.
  abbrev pub taken : Bytes → Decoder → Result DecodeError Text
  taken [] d = err invalid
  taken (b ∷ bytes) d = resume (process_byte j limits elapsed b d) (taken bytes)

  module _ (early : (n : ℕ) → elapsed n < limits.total_budget) where
    taken-at : (bytes : Bytes) (k : ℕ) (d : Decoder) → taken bytes (at k d) ≡ taken bytes d
    taken-at [] k d = refl
    taken-at (b ∷ bytes) k d =
        resume-Alike (taken bytes) (process_byte j limits elapsed b d) _ (taken-at bytes)
          (process_byte-Alike j limits elapsed early b k d)

    resume_cong :
        (p : Step) (f g : Decoder → Result DecodeError Text)
        → ((d : Decoder) → f d ≡ g d)
        → resume p f ≡ resume p g
    resume_cong (ok (d, none)) f g h = h d
    resume_cong (ok (d, some t)) f g h = refl
    resume_cong (err e) f g h = refl

    -- A chunk, and what follows it.
    resume-unless_done :
        (p : Step) (f : Decoder → Step) (rest : Decoder → Result DecodeError Text)
        → resume (p >>= λ r. unless_done r f) rest ≡ resume p (λ d. resume (f d) rest)
    unfolding unless_done
    resume-unless_done (ok (d, none)) f rest = refl
    resume-unless_done (ok (d, some t)) f rest = refl
    resume-unless_done (err e) f rest = refl

    taken-append :
        (chunk rest : Bytes) (d : Decoder)
        → taken (chunk ++ rest) d ≡ resume (process_chunk j limits elapsed chunk d) (taken rest)
    unfolding process_chunk
    taken-append [] rest d = refl
    taken-append (b ∷ chunk) rest d =
        resume_cong (process_byte j limits elapsed b d) _ _ (taken-append chunk rest)
        ∙ sym (resume-unless_done (process_byte j limits elapsed b d) _ (taken rest))

    abbrev fed : ℕ → Step → Result DecodeError ((ℕ × Decoder) × Option Text)
    fed total p = p >>= λ r. ok ((total, r.0), r.1)

    conclude-fed :
        (total : ℕ) (p : Step) (next : ℕ → Decoder → Option (Result DecodeError Text))
        (rest : Decoder → Result DecodeError Text)
        → ((d : Decoder) → next total d ≡ some (rest d))
        → conclude (fed total p) next ≡ some (resume p rest)
    unfolding conclude
    conclude-fed total (ok (d, none)) next rest h = h d
    conclude-fed total (ok (d, some t)) next rest h = refl
    conclude-fed total (err e) next rest h = refl

    module _ (reads : ℕ → Result ReadError Bytes) where
      -- From this call on, the reads bring these chunks, none of them empty, and then the end.
      abbrev pub Serves : ℕ → List Bytes → Type 0
      Serves n [] = reads n ≡ ok []
      Serves n (chunk ∷ chunks) = (reads n ≡ ok chunk) × (chunk ≢ []) × Serves (n + 1) chunks

      abbrev twice_checked : Decoder → Decoder
      twice_checked d = at (d.clock_reads + 1 + 1) d

      read_step-end :
          (n total : ℕ) (d : Decoder)
          → reads n ≡ ok []
          → read_step j limits elapsed reads n total d ≡ err invalid
      unfolding read_step
      read_step-end n total d h =
          rw
            (
              check_budget-early j limits elapsed early d,
              h,
              check_budget-early j limits elapsed early (at (d.clock_reads + 1) d),
            )
            refl

      read_step-fed :
          (n total : ℕ) (d : Decoder) (chunk : Bytes)
          → reads n ≡ ok chunk
          → chunk ≢ []
          → total + length chunk ≤ limits.response_bytes
          → limits.response_bytes < word_modulus
          → read_step j limits elapsed reads n total d
            ≡ fed (total + length chunk) (process_chunk j limits elapsed chunk (twice_checked d))
      unfolding read_step
      read_step-fed n total d [] h ne fits small = absurd (ne refl)
      read_step-fed n total d (b ∷ chunk) h ne fits small =
          let bytes = length (b ∷ chunk) in
          let counted : checked_add total bytes ≡ some (total + bytes) = ground arith in
          let allowed : ltb limits.response_bytes (total + bytes) ≡ false = ground arith in
          rw
            (
              check_budget-early j limits elapsed early d,
              h,
              check_budget-early j limits elapsed early (at (d.clock_reads + 1) d),
              counted,
              allowed,
            )
            refl

      decode_loop-taken :
          (fuel n total : ℕ) (d : Decoder) (chunks : List Bytes)
          → Serves n chunks
          → total + length (concat chunks) ≤ limits.response_bytes
          → length (concat chunks) < fuel
          → limits.response_bytes < word_modulus
          → decode_loop j limits elapsed reads fuel n total d ≡ some (taken (concat chunks) d)
      unfolding decode_loop
      decode_loop-taken zero n total d chunks served fits enough small = absurd (omega arith)
      decode_loop-taken (suc fuel) n total d [] served fits enough small =
          rw (read_step-end n total d served, conclude) refl
      decode_loop-taken (suc fuel) n total d ([] ∷ chunks) served fits enough small =
          absurd (served.1 refl)
      decode_loop-taken (suc fuel) n total d ((b ∷ bytes) ∷ chunks) (here, ne, later) fits enough
            small =
          let chunk = b ∷ bytes in
          let both = length-append chunk (concat chunks) in
          let total' = total + length chunk in
          let next = decode_loop j limits elapsed reads fuel (n + 1) in
          ap (λ step. conclude step next)
            (read_step-fed n total d chunk here ne (omega (arith, both, fits)) small)
          ∙ conclude-fed total' (process_chunk j limits elapsed chunk (twice_checked d)) next
              (taken (concat chunks))
              (λ d'.
                decode_loop-taken fuel (n + 1) total' d' chunks later (omega (arith, both, fits))
                  (omega (arith, both, enough)) small)
          ∙ ap some (
              sym (taken-append chunk (concat chunks) (twice_checked d))
              ∙ taken-at (chunk ++ concat chunks) _ d)

      -- However the reads split a response into chunks, if the response is within its limit, which
      -- is a machine word, and the clock never comes to the budget: decoding it gives what taking
      -- the whole body byte by byte gives, which ends at the first error or the first text, and
      -- is invalid where the body ends before.
      pub decode-taken :
          (chunks : List Bytes)
          → Serves 0 chunks
          → length (concat chunks) ≤ limits.response_bytes
          → limits.response_bytes < word_modulus
          → decode j limits elapsed reads ≡ some (taken (concat chunks) start)
      unfolding decode
      decode-taken chunks served fits small =
          decode_loop-taken (limits.response_bytes + 1) 0 0 start chunks served
            (omega (arith, fits)) (omega (arith, fits)) small
