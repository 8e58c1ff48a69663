-- ===== src/Cli/Render/Safe.antt =====
-- The output of `render_model_text`, main.rs, as a terminal sees it.
use rust_agent_harness.Prelude.{
  ℕ, zero, suc, ◌/◌, ◌%◌, ◌≡◌, ◌≢◌, refl, Bool, true, false, not, ◌&&◌, ◌||◌, [], ◌∷◌, ◌++◌, ltb,
  ◌==◌, All, All-append, arith, Bool-cases, inl, inr,
}
use rust_agent_harness.Text.{Text, is_control}
use rust_agent_harness.Cli.Render.{
  should_escape, hex_onto, hex_char, is_plain, is_bidi_control, escape_unicode, render_char,
  render_chars, render_model_text, ends_with_newline, close_line, leb,
}

-- A line feed, a tab, or a character that neither controls a terminal (the category Cc) nor has
-- the property Bidi_Control.
abbrev pub is_safe : ℕ → Bool
is_safe c =
    c == b'\n'
    || c == b'\t'
    || leb 0x20 c
      && (ltb c 0x7f || ltb 0x9f c)
      && not (
          c == 0x61c
          || c == 0x200e
          || c == 0x200f
          || c == 0x202a
          || c == 0x202b
          || c == 0x202c
          || c == 0x202d
          || c == 0x202e
          || c == 0x2066
          || c == 0x2067
          || c == 0x2068
          || c == 0x2069)

abbrev pub IsSafe : ℕ → Type 0
IsSafe c = is_safe c ≡ true

line_feed-IsSafe : IsSafe b'\n'
line_feed-IsSafe = refl

hex_char-IsSafe : (d : ℕ) → ltb d 16 ≡ true → IsSafe (hex_char d)
unfolding should_escape is_control is_bidi_control
hex_char-IsSafe d h = ground arith

digit-IsSafe : (n : ℕ) → IsSafe (hex_char (n % 16))
digit-IsSafe n = hex_char-IsSafe (n % 16) (ground arith)

hex_onto-IsSafe : (fuel n : ℕ) (out : Text) → All IsSafe out → All IsSafe (hex_onto fuel n out)
unfolding hex_onto
hex_onto-IsSafe zero n out h = h
hex_onto-IsSafe (suc fuel) n out h = elim (Bool-cases (n / 16 == 0)) [
  | inl e ↦ rw e (digit-IsSafe n, h)
  | inr e ↦ rw e (hex_onto-IsSafe fuel (n / 16) (hex_char (n % 16) ∷ out) (digit-IsSafe n, h))
]

escape_unicode-IsSafe : (c : ℕ) → All IsSafe (escape_unicode c)
unfolding escape_unicode should_escape is_control is_bidi_control
escape_unicode-IsSafe c = (refl, (refl, (refl, hex_onto-IsSafe 6 c (b'}' ∷ []) (refl, tt))))

plain-IsSafe : (c : ℕ) → is_plain c ≡ true → IsSafe c
unfolding should_escape is_control is_bidi_control
plain-IsSafe c h = ground arith

kept-IsSafe : (c : ℕ) → should_escape c ≡ false → IsSafe c
unfolding should_escape is_control is_bidi_control
kept-IsSafe c h = ground arith

render_char-IsSafe : (c : ℕ) → All IsSafe (render_char c)
unfolding render_char
render_char-IsSafe c = elim (Bool-cases (c == b'\r')) [
  | inl e ↦ rw e (line_feed-IsSafe, tt)
  | inr e ↦ elim (Bool-cases (is_plain c)) [
    | inl p ↦ rw (e, p) (plain-IsSafe c p, tt)
    | inr p ↦ elim (Bool-cases (should_escape c)) [
      | inl q ↦ rw (e, p, q) (escape_unicode-IsSafe c)
      | inr q ↦ rw (e, p, q) (kept-IsSafe c q, tt)
    ]
  ]
]

render_chars-IsSafe : (t : Text) → All IsSafe (render_chars t)
unfolding render_chars
render_chars-IsSafe [] = tt
render_chars-IsSafe (c ∷ []) = render_char-IsSafe c
render_chars-IsSafe (c ∷ d ∷ rest) = elim (Bool-cases (c == b'\r' && d == b'\n')) [
  | inl e ↦ rw e (line_feed-IsSafe, render_chars-IsSafe rest)
  | inr e ↦ rw e (
      All-append IsSafe (render_char c) (render_chars (d ∷ rest)) (render_char-IsSafe c)
        (render_chars-IsSafe (d ∷ rest)))
]

render_char_same : (c : ℕ) → IsSafe c → render_char c ≡ c ∷ []
unfolding render_char should_escape
render_char_same c h = ground arith

safe-ne-return : (c : ℕ) → IsSafe c → c ≢ b'\r'
unfolding should_escape
safe-ne-return c h = ground arith

render_chars_same : (t : Text) → All IsSafe t → render_chars t ≡ t
unfolding render_chars
render_chars_same [] h = refl
render_chars_same (c ∷ []) h = render_char_same c h.0
render_chars_same (c ∷ d ∷ rest) h =
    ground (arith, render_char_same c h.0, safe-ne-return c h.0, render_chars_same (d ∷ rest) h.1)

close_line-IsSafe : (t : Text) → All IsSafe t → All IsSafe (close_line t)
close_line-IsSafe t h = elim (Bool-cases (ends_with_newline t)) [
  | inl e ↦ rw e h
  | inr e ↦ rw e (All-append IsSafe t (b'\n' ∷ []) h (refl, tt))
]

ends_with_newline-append : (t : Text) → ends_with_newline (t ++ b'\n' ∷ []) ≡ true
ends_with_newline-append [] = refl
ends_with_newline-append (c ∷ []) = refl
ends_with_newline-append (c ∷ d ∷ rest) = ends_with_newline-append (d ∷ rest)

-- Whatever the text, every character written is a line feed, a tab, or neither a control nor a
-- bidirectional control.
pub render_model_text-IsSafe : (t : Text) → All IsSafe (render_model_text t)
unfolding render_model_text
render_model_text-IsSafe t = close_line-IsSafe (render_chars t) (render_chars-IsSafe t)

close_line-ends : (t : Text) → ends_with_newline (close_line t) ≡ true
close_line-ends t = elim (Bool-cases (ends_with_newline t)) [
  | inl e ↦ rw e e
  | inr e ↦ rw e (ends_with_newline-append t)
]

-- Whatever the text, what is written ends its last line, and rendering it again changes nothing.
pub render_model_text_stable :
    (t : Text)
    → (ends_with_newline (render_model_text t) ≡ true)
      × (render_model_text (render_model_text t) ≡ render_model_text t)
unfolding render_model_text
render_model_text_stable t =
    let safe = close_line-IsSafe (render_chars t) (render_chars-IsSafe t) in
    (
      close_line-ends (render_chars t),
      rw (render_chars_same (close_line (render_chars t)) safe, close_line-ends (render_chars t)),
    )
