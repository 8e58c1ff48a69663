-- ===== src/Cli/Render.antt =====
-- Terminal-safe output: `render_model_text`, `should_escape` and `is_bidi_control`.
pub mod Safe
use rust_agent_harness.Prelude.{
  ℕ, zero, suc, ◌+◌, ◌/◌, ◌%◌, Bool, true, false, not, ◌&&◌, ◌||◌, List, [], ◌∷◌, ◌++◌, leb, ltb,
  ◌==◌, if◌then◌else◌, ◌-◌,
}
use rust_agent_harness.Text.{Text, text, is_control}

unfoldable pub is_bidi_control : ℕ → Bool
is_bidi_control c =
    c == 0x61c
    || leb 0x200e c && leb c 0x200f
    || leb 0x202a c && leb c 0x202e
    || leb 0x2066 c && leb c 0x2069

unfoldable pub should_escape : ℕ → Bool
unfolding is_bidi_control is_control
should_escape c = is_control c || is_bidi_control c

abbrev pub hex_char : ℕ → ℕ
hex_char d = if ltb d 10 then b'0' + d else b'a' + d - 10

-- The hexadecimal digits of a number in front of `out`; a character has six at most.
unfoldable pub hex_onto : ℕ → ℕ → Text → Text
hex_onto zero n out = out
hex_onto (suc fuel) n out =
    let digit = hex_char (n % 16) in
    let more = hex_onto fuel (n / 16) (digit ∷ out) in if n / 16 == 0 then digit ∷ out else more

-- `char::escape_unicode`: `\u{` and the hexadecimal digits and `}`.
unfoldable pub escape_unicode : ℕ → Text
escape_unicode c = b'\\' ∷ b'u' ∷ b'{' ∷ hex_onto 6 c (b'}' ∷ [])

abbrev pub is_plain : ℕ → Bool
is_plain c = c == b'\n' || c == b'\t' || leb b' ' c && leb c b'~'

-- The arms of `match character`, but for a carriage return before a line feed.
unfoldable pub render_char : ℕ → Text
unfolding should_escape
render_char c =
    if c == b'\r'
    then b'\n' ∷ []
    else if is_plain c
    then c ∷ []
    else if should_escape c
    then escape_unicode c
    else c ∷ []

-- `while let Some(character) = characters.next()`
unfoldable pub render_chars : Text → Text
unfolding render_char
render_chars [] = []
render_chars (c ∷ []) = render_char c
render_chars (c ∷ d ∷ rest) =
    let joined = b'\n' ∷ render_chars rest in
    let single = render_char c ++ render_chars (d ∷ rest) in
    if c == b'\r' && d == b'\n' then joined else single

abbrev pub ends_with_newline : Text → Bool
ends_with_newline [] = false
ends_with_newline (c ∷ []) = c == b'\n'
ends_with_newline (c ∷ d ∷ rest) = ends_with_newline (d ∷ rest)

abbrev pub close_line : Text → Text
close_line rendered = if ends_with_newline rendered then rendered else rendered ++ b'\n' ∷ []

unfoldable pub render_model_text : Text → Text
unfolding render_chars
render_model_text t = close_line (render_chars t)
