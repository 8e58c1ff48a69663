-- ===== src/Session/RoundTrip/Parse.antt =====
-- The lines of format.rs, parsed by `parse_records` of projection.rs.
use rust_agent_harness.Prelude.{
  ◌+◌, ◌≤◌, ◌<◌, ◌≡◌, ◌≢◌, refl, ◌∙◌, ap, not, some, List, [], ◌∷◌, ◌++◌, ok, arith, length,
  length-append, is_empty, append_assoc, Option-cases, inl, inr,
}
use rust_agent_harness.Text.{Bytes}
use rust_agent_harness.Text.Utf8.{Lacks}
use rust_agent_harness.Session.Format.{
  Codec, IsJsonCodec, LogRecord, serialize_line, max_session_bytes, max_record_bytes,
}
use rust_agent_harness.Session.Projection.{push_lines, parse_records}
use rust_agent_harness.Session.Lines.{split_lines-Lacks, split_lines-append, parse_records-append}

-- `body` is the line of `r` without its newline.
pub record IsLine (c : Codec) (r : LogRecord) (body : Bytes) : Type 0 where
  pub reads : c.from_slice body ≡ some r
  pub one_line : Lacks b'\n' body
  pub not_empty : body ≢ []
  pub fits : length body ≤ max_record_bytes

module _ (c : Codec) (laws : IsJsonCodec c) where
  pub serialize_line-IsLine :
      (r : LogRecord) {line : Bytes}
      → serialize_line c r ≡ ok line
      → (body : Bytes) × (line ≡ body ++ b'\n' ∷ []) × IsLine c r body
  unfolding serialize_line
  serialize_line-IsLine r h = elim (Option-cases (c.to_vec r)) [
    | inl e ↦ ground arith
    | inr (body, e) ↦ (
      body,
      ground arith,
      record {
        reads = laws.reads_back r body e;
        one_line = laws.one_line r body e;
        not_empty = laws.not_empty r body e;
        fits = ground arith;
      },
    )
  ]

two_lines :
    (b₁ b₂ fragment : Bytes)
    → (b₁ ++ b'\n' ∷ []) ++ (b₂ ++ b'\n' ∷ []) ++ fragment ≡ (b₁ ++ b'\n' ∷ b₂) ++ b'\n' ∷ fragment
two_lines b₁ b₂ fragment = simp append_assoc

three_lines :
    (b₁ b₂ b₃ fragment : Bytes)
    → (b₁ ++ b'\n' ∷ []) ++ (b₂ ++ b'\n' ∷ []) ++ (b₃ ++ b'\n' ∷ []) ++ fragment
      ≡ (b₁ ++ b'\n' ∷ (b₂ ++ b'\n' ∷ b₃)) ++ b'\n' ∷ fragment
three_lines b₁ b₂ b₃ fragment = simp append_assoc

not_empty-append : (a b : Bytes) → a ≢ [] → a ++ b ≢ []
not_empty-append [] b ne e = ne refl
not_empty-append (x ∷ a) b ne e = cc e

fits-append :
    (whole complete fragment : Bytes)
    → whole ≡ complete ++ b'\n' ∷ fragment
    → length whole ≤ max_session_bytes
    → length complete + 1 + length fragment ≤ max_session_bytes
fits-append whole complete fragment e h =
    omega (arith, ap length e, length-append complete (b'\n' ∷ fragment))

module _ (c : Codec) where
  push_lines-IsLine :
      (r : LogRecord) (body : Bytes) (bodies : List Bytes) (records : List LogRecord)
      → IsLine c r body
      → length records < 3
      → push_lines c (body ∷ bodies) records ≡ push_lines c bodies (records ++ r ∷ [])
  unfolding push_lines
  push_lines-IsLine r body bodies records l room = ground (arith, l.reads)

  -- Two lines and a fragment.
  pub parse_records_two :
      (r₁ r₂ : LogRecord) (b₁ b₂ fragment : Bytes)
      → IsLine c r₁ b₁
      → IsLine c r₂ b₂
      → Lacks b'\n' fragment
      → length ((b₁ ++ b'\n' ∷ []) ++ (b₂ ++ b'\n' ∷ []) ++ fragment) ≤ max_session_bytes
      → parse_records c ((b₁ ++ b'\n' ∷ []) ++ (b₂ ++ b'\n' ∷ []) ++ fragment)
        ≡ ok (r₁ ∷ r₂ ∷ [], not (is_empty fragment))
  unfolding push_lines
  parse_records_two r₁ r₂ b₁ b₂ fragment l₁ l₂ f fits =
      let whole = two_lines b₁ b₂ fragment in
      rw whole (
        parse_records-append c (b₁ ++ b'\n' ∷ b₂) fragment
          (not_empty-append b₁ (b'\n' ∷ b₂) l₁.not_empty) f (fits-append _ _ fragment whole fits)
        ∙ rw (
          split_lines-append b₁ b₂ l₁.one_line,
          split_lines-Lacks b₂ l₂.one_line,
          push_lines-IsLine r₁ b₁ (b₂ ∷ []) [] l₁ (omega arith),
          push_lines-IsLine r₂ b₂ [] (r₁ ∷ []) l₂ (omega arith),
        ))

  -- Three lines and a fragment.
  pub parse_records_three :
      (r₁ r₂ r₃ : LogRecord) (b₁ b₂ b₃ fragment : Bytes)
      → IsLine c r₁ b₁
      → IsLine c r₂ b₂
      → IsLine c r₃ b₃
      → Lacks b'\n' fragment
      → length ((b₁ ++ b'\n' ∷ []) ++ (b₂ ++ b'\n' ∷ []) ++ (b₃ ++ b'\n' ∷ []) ++ fragment)
        ≤ max_session_bytes
      → parse_records c ((b₁ ++ b'\n' ∷ []) ++ (b₂ ++ b'\n' ∷ []) ++ (b₃ ++ b'\n' ∷ []) ++ fragment)
        ≡ ok (r₁ ∷ r₂ ∷ r₃ ∷ [], not (is_empty fragment))
  unfolding push_lines
  parse_records_three r₁ r₂ r₃ b₁ b₂ b₃ fragment l₁ l₂ l₃ f fits =
      let whole = three_lines b₁ b₂ b₃ fragment in
      rw whole (
        parse_records-append c (b₁ ++ b'\n' ∷ (b₂ ++ b'\n' ∷ b₃)) fragment
          (not_empty-append b₁ _ l₁.not_empty) f (fits-append _ _ fragment whole fits)
        ∙ rw (
          split_lines-append b₁ (b₂ ++ b'\n' ∷ b₃) l₁.one_line,
          split_lines-append b₂ b₃ l₂.one_line,
          split_lines-Lacks b₃ l₃.one_line,
          push_lines-IsLine r₁ b₁ (b₂ ∷ b₃ ∷ []) [] l₁ (omega arith),
          push_lines-IsLine r₂ b₂ (b₃ ∷ []) (r₁ ∷ []) l₂ (omega arith),
          push_lines-IsLine r₃ b₃ [] (r₁ ∷ r₂ ∷ []) l₃ (omega arith),
        ))
