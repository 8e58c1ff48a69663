-- ===== src/Auth/Callback/Query.antt =====
-- The form of a query, callback.rs: `query_is_well_formed` and `hex_value`.
use rust_agent_harness.Prelude.{
  ℕ, ◌+◌, ◌-◌, ◌*◌, Bool, true, false, ◌&&◌, Option, none, some, [], ◌∷◌, leb, ltb, ◌==◌,
  if◌then◌else◌, is_some, and_then,
}
use rust_agent_harness.Text.{Bytes, Text}
use rust_agent_harness.Text.Utf8.{utf8, from_utf8}

unfoldable pub hex_value : ℕ → Option ℕ
hex_value byte =
    if leb b'0' byte && leb byte b'9'
    then some (byte - b'0')
    else if leb b'a' byte && leb byte b'f'
    then some (byte - b'a' + 10)
    else if leb b'A' byte && leb byte b'F'
    then some (byte - b'A' + 10)
    else none

-- `(high << 4) | low` of two digits.
abbrev pub hex_pair : ℕ → ℕ → Option ℕ
hex_pair first second =
    and_then (hex_value first) (λ high. and_then (hex_value second) (λ low. some (high * 16 + low)))

abbrev onto : Option ℕ → Option Bytes → Option Bytes
onto byte rest = and_then byte (λ b. and_then rest (λ bs. some (b ∷ bs)))

-- The loop of `query_is_well_formed`: what it pushes, or `none` where it returns false.
unfoldable pub decode_query : Bytes → Option Bytes
unfolding hex_value
decode_query [] = some []
decode_query (b ∷ []) = if b == b'%' then none else if ltb b 0x80 then some (b ∷ []) else none
decode_query (b ∷ c ∷ []) = elim (b == b'%') [
  | true ↦ none
  | false ↦ if ltb b 0x80 then onto (some b) (decode_query (c ∷ [])) else none
]
decode_query (b ∷ c ∷ d ∷ rest) = elim (b == b'%') [
  | true ↦ onto (hex_pair c d) (decode_query rest)
  | false ↦ elim (ltb b 0x80) [ true ↦ onto (some b) (decode_query (c ∷ d ∷ rest)) | false ↦ none ]
]

unfoldable pub query_is_well_formed : Text → Bool
unfolding decode_query
query_is_well_formed query = is_some (and_then (decode_query (utf8 query)) from_utf8)
