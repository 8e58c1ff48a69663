-- ===== src/Text/Utf8.antt =====
-- UTF-8 as `str::as_bytes` writes it and `str::from_utf8` accepts it.
use rust_agent_harness.Prelude.{
  ℕ, ◌+◌, ◌-◌, ◌*◌, ◌/◌, ◌%◌, ◌<◌, ◌≤◌, ◌≡◌, refl, ◌&&◌, ◌⊎◌, Option, none, some, [], ◌∷◌, ◌++◌,
  arith, ltb, leb, if◌then◌else◌, All, suc, ◌∙◌, ◌==◌, zero, ◌≢◌, List, All-append, length,
  append_assoc, length-append,
}
use rust_agent_harness.Text.Scalars.{Bytes, Text, len, width}

-- A `char`: below 0x110000 and no surrogate.
abbrev pub IsScalar : ℕ → Type 0
IsScalar c = (c < 0xd800) ⊎ ((0xe000 ≤ c) × (c < 0x110000))

abbrev pub IsText : Text → Type 0
IsText = All IsScalar

unfoldable pub encode_char : ℕ → Bytes
encode_char c =
    if ltb c 0x80
    then c ∷ []
    else if ltb c 0x800
    then (0xc0 + c / 64) ∷ (0x80 + c % 64) ∷ []
    else if ltb c 0x10000
    then (0xe0 + c / 4096) ∷ (0x80 + c / 64 % 64) ∷ (0x80 + c % 64) ∷ []
    else (0xf0 + c / 262144) ∷ (0x80 + c / 4096 % 64) ∷ (0x80 + c / 64 % 64) ∷ (0x80 + c % 64) ∷ []

-- `str::as_bytes`
unfoldable pub utf8 : Text → Bytes
unfolding encode_char
utf8 [] = []
utf8 (c ∷ cs) = encode_char c ++ utf8 cs

-- What `str::from_utf8` has read of one character: the continuation bytes still needed, the
-- value so far, and the range of the next byte, which rules out overlong forms, surrogates and
-- values past 0x10ffff.
record Partial : Type 0 where
  needed : ℕ
  value : ℕ
  low : ℕ
  high : ℕ

abbrev ready : Partial
ready = record { needed = 0; value = 0; low = 0x80; high = 0xbf }

abbrev lead : ℕ → ℕ → ℕ → ℕ → Option (Partial × Text)
lead needed value low high =
    some (record { needed = needed; value = value; low = low; high = high }, [])

first_byte : ℕ → Option (Partial × Text)
first_byte a =
    if ltb a 0x80
    then some (ready, a ∷ [])
    else if ltb a 0xc2
    then none
    else if ltb a 0xe0
    then lead 1 (a - 0xc0) 0x80 0xbf
    else if ltb a 0xf0
    then lead 2 (a - 0xe0) (if a == 0xe0 then 0xa0 else 0x80) (if a == 0xed then 0x9f else 0xbf)
    else if ltb a 0xf5
    then lead 3 (a - 0xf0) (if a == 0xf0 then 0x90 else 0x80) (if a == 0xf4 then 0x8f else 0xbf)
    else none

next_byte : ℕ → Partial → ℕ → Option (Partial × Text)
unfolding first_byte
next_byte zero p a = first_byte a
next_byte (suc zero) p a =
    if leb p.low a && leb a p.high then some (ready, (p.value * 64 + (a - 0x80)) ∷ []) else none
next_byte (suc (suc n)) p a =
    if leb p.low a && leb a p.high then lead (suc n) (p.value * 64 + (a - 0x80)) 0x80 0xbf else none

abbrev prepend : Text → Option Text → Option Text
prepend out none = none
prepend out (some t) = some (out ++ t)

scan : Partial → Bytes → Option Text
scan p [] = if p.needed == 0 then some [] else none
scan p (a ∷ rest) = elim (next_byte p.needed p a) [
  | none ↦ none
  | some (q, out) ↦ prepend out (scan q rest)
]

-- `str::from_utf8`
unfoldable pub from_utf8 : Bytes → Option Text
unfolding scan next_byte
from_utf8 = scan ready

scan-encode_char :
    (c : ℕ) (rest : Bytes)
    → IsScalar c
    → scan ready (encode_char c ++ rest) ≡ prepend (c ∷ []) (scan ready rest)
unfolding scan next_byte encode_char
scan-encode_char c rest h = ground arith

-- Every text is read back from its bytes.
pub from_utf8-utf8 : (t : Text) → IsText t → from_utf8 (utf8 t) ≡ some t
unfolding from_utf8 utf8 scan
from_utf8-utf8 [] h = refl
from_utf8-utf8 (c ∷ cs) h = scan-encode_char c (utf8 cs) h.0 ∙ rw (from_utf8-utf8 cs h.1)

abbrev pub Lacks : ℕ → List ℕ → Type 0
Lacks b = All (λ c. c ≢ b)

-- An ASCII byte stands for itself only.
Lacks-encode_char : (b c : ℕ) → b < 0x80 → c ≢ b → Lacks b (encode_char c)
unfolding encode_char
Lacks-encode_char b c h ne = ground arith

pub Lacks-utf8 : (b : ℕ) (t : Text) → b < 0x80 → Lacks b t → Lacks b (utf8 t)
unfolding utf8
Lacks-utf8 b [] h l = tt
Lacks-utf8 b (c ∷ cs) h l =
    All-append (λ (c : ℕ). c ≢ b) (encode_char c) (utf8 cs) (Lacks-encode_char b c h l.0)
      (Lacks-utf8 b cs h l.1)

length-encode_char : (c : ℕ) → length (encode_char c) ≡ width c
unfolding encode_char
length-encode_char c = ground arith

-- `len` counts bytes.
pub length-utf8 : (t : Text) → length (utf8 t) ≡ len t
unfolding utf8 len
length-utf8 [] = refl
length-utf8 (c ∷ cs) =
    omega (arith, length-append (encode_char c) (utf8 cs), length-encode_char c, length-utf8 cs)

pub utf8-append : (a b : Text) → utf8 (a ++ b) ≡ utf8 a ++ utf8 b
unfolding utf8
utf8-append [] b = refl
utf8-append (c ∷ a) b = rw (utf8-append a b, append_assoc)
