-- ===== src/Auth/Callback/Encoded.antt =====
-- Percent-encoding, against the loop of `query_is_well_formed` in callback.rs.
use rust_agent_harness.Prelude.{
  ℕ, ◌+◌, ◌-◌, ◌<◌, ◌≡◌, refl, true, some, [], ◌∷◌, All, arith, ltb, if◌then◌else◌, ap, ◌/◌, ◌%◌,
  All-append,
}
use rust_agent_harness.Text.{Bytes, Text}
use rust_agent_harness.Text.Utf8.{utf8, from_utf8-utf8, IsText, encode_char, IsScalar}
use rust_agent_harness.Auth.Callback.Query.{hex_value, decode_query, query_is_well_formed}

-- The upper-case digits of RFC 3986.
abbrev pub hex_letter : ℕ → ℕ
hex_letter n = if ltb n 10 then b'0' + n else b'A' + (n - 10)

-- Every byte as `%` and two digits.
abbrev pub percent_encode : Bytes → Text
percent_encode [] = []
percent_encode (b ∷ bs) = b'%' ∷ hex_letter (b / 16) ∷ hex_letter (b % 16) ∷ percent_encode bs

hex_value-letter : (n : ℕ) → n < 16 → hex_value (hex_letter n) ≡ some n
unfolding hex_value
hex_value-letter n h = ground arith

decode_query-percent_encode :
    (bs : Bytes) → All (λ b. b < 256) bs → decode_query (percent_encode bs) ≡ some bs
unfolding decode_query
decode_query-percent_encode [] h = refl
decode_query-percent_encode (b ∷ bs) h =
    rw
      (
        hex_value-letter (b / 16) (omega (arith, h.0)),
        hex_value-letter (b % 16) (omega arith),
        decode_query-percent_encode bs h.1,
      )
      (ap (λ n. some (n ∷ bs)) (omega arith))

encode_char-letter : (n : ℕ) → n < 16 → encode_char (hex_letter n) ≡ hex_letter n ∷ []
unfolding encode_char
encode_char-letter n h = ground arith

utf8-percent_encode :
    (bs : Bytes) → All (λ b. b < 256) bs → utf8 (percent_encode bs) ≡ percent_encode bs
unfolding utf8 encode_char
utf8-percent_encode [] h = refl
utf8-percent_encode (b ∷ bs) h = rw (
  encode_char-letter (b / 16) (omega (arith, h.0)),
  encode_char-letter (b % 16) (omega arith),
  utf8-percent_encode bs h.1,
)

encode_char-bytes : (c : ℕ) → IsScalar c → All (λ b. b < 256) (encode_char c)
unfolding encode_char
encode_char-bytes c h = ground arith

utf8-bytes : (t : Text) → IsText t → All (λ b. b < 256) (utf8 t)
unfolding utf8
utf8-bytes [] h = tt
utf8-bytes (c ∷ t) h =
    All-append (λ (b : ℕ). b < 256) (encode_char c) (utf8 t) (encode_char-bytes c h.0)
      (utf8-bytes t h.1)

-- The query that percent-encodes every byte of a text is well formed.
pub query_is_well_formed-encoded :
    (t : Text) → IsText t → query_is_well_formed (percent_encode (utf8 t)) ≡ true
unfolding query_is_well_formed
query_is_well_formed-encoded t h = rw (
  utf8-percent_encode (utf8 t) (utf8-bytes t h),
  decode_query-percent_encode (utf8 t) (utf8-bytes t h),
  from_utf8-utf8 t h,
)
