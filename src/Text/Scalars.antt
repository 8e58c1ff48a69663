-- ===== src/Text/Scalars.antt =====
-- Texts as scalar values, and the methods of `str` and `char` that the program uses.
use Prim.Native.Nat.{compare, Ordering}
use Prim.Native.Char.{code}
use Prim.Native.String.{String}
use rust_agent_harness.Prelude.{
  ℕ, ◌+◌, ◌≡◌, refl, ◌↔◌, Bool, true, false, ◌&&◌, ◌||◌, Option, none, some, List, [], ◌∷◌, ◌++◌,
  arith, ltb, leb, ◌==◌, if◌then◌else◌,
}

abbrev pub Bytes : Type 0
Bytes = List ℕ

-- Scalar values.
abbrev pub Text : Type 0
Text = List ℕ

-- A literal of the source.
unfoldable pub text : String → Text
text String.[] = []
text (String.◌∷◌ c s) = code c ∷ text s

unfoldable pub eq_text : Text → Text → Bool
eq_text [] [] = true
eq_text (x ∷ xs) (y ∷ ys) = x == y && eq_text xs ys
eq_text _ _ = false

pub eq_text_iff : (a b : Text) → (eq_text a b ≡ true) ↔ (a ≡ b)
unfolding eq_text
eq_text_iff (x ∷ a) (y ∷ b) = ground (arith, eq_text_iff a b)
eq_text_iff _ _ = ground arith

pub eq_text_self : (a : Text) → eq_text a a ≡ true
eq_text_self a = (eq_text_iff a a).1 refl

pub eq_text_sym : (a b : Text) → eq_text a b ≡ eq_text b a
unfolding eq_text
eq_text_sym (x ∷ a) (y ∷ b) = ground (arith, eq_text_sym a b)
eq_text_sym [] [] = refl
eq_text_sym [] (y ∷ b) = refl
eq_text_sym (x ∷ a) [] = refl

-- `char::len_utf8`
abbrev pub width : ℕ → ℕ
width c = if ltb c 0x80 then 1 else if ltb c 0x800 then 2 else if ltb c 0x10000 then 3 else 4

-- `str::len`
unfoldable pub len : Text → ℕ
len [] = 0
len (c ∷ cs) = width c + len cs

pub len-append : (a b : Text) → len (a ++ b) ≡ len a + len b
unfolding len
len-append [] b = omega arith
len-append (c ∷ a) b = omega (arith, len-append a b)

-- `char::is_control`: the general category Cc.
unfoldable pub is_control : ℕ → Bool
is_control c = ltb c 0x20 || leb 0x7f c && ltb c 0xa0

-- `char::is_whitespace`: the property White_Space.
unfoldable pub is_whitespace : ℕ → Bool
is_whitespace c =
    leb 0x09 c && leb c 0x0d
    || c == 0x20
    || c == 0x85
    || c == 0xa0
    || c == 0x1680
    || leb 0x2000 c && leb c 0x200a
    || c == 0x2028
    || c == 0x2029
    || c == 0x202f
    || c == 0x205f
    || c == 0x3000

-- `str::trim_start`
unfoldable pub trim_start : Text → Text
unfolding is_whitespace
trim_start [] = []
trim_start (c ∷ cs) = let rest = trim_start cs in if is_whitespace c then rest else c ∷ cs

-- `str::trim_end`
unfoldable pub trim_end : Text → Text
unfolding is_whitespace
trim_end [] = []
trim_end (c ∷ cs) = elim (trim_end cs) [
  | [] ↦ if is_whitespace c then [] else c ∷ []
  | d ∷ ds ↦ c ∷ d ∷ ds
]

-- `str::trim`
unfoldable pub trim : Text → Text
unfolding trim_start trim_end
trim t = trim_end (trim_start t)

-- `str::split_once` at one character.
unfoldable pub split_once : ℕ → Text → Option (Text × Text)
split_once at [] = none
split_once at (c ∷ cs) =
    if c == at
    then some ([], cs)
    else elim (split_once at cs) [ none ↦ none | some (before, after) ↦ some (c ∷ before, after) ]

abbrev onto_first : ℕ → List Text → List Text
onto_first c [] = []
onto_first c (segment ∷ segments) = (c ∷ segment) ∷ segments

-- `str::split` at one character.
unfoldable pub split : ℕ → Text → List Text
split at [] = [] ∷ []
split at (c ∷ cs) = let rest = split at cs in if c == at then [] ∷ rest else onto_first c rest

-- `str::strip_prefix`
unfoldable pub strip_prefix : Text → Text → Option Text
strip_prefix [] t = some t
strip_prefix (p ∷ ps) [] = none
strip_prefix (p ∷ ps) (c ∷ cs) = if c == p then strip_prefix ps cs else none

-- `str::eq_ignore_ascii_case` against a lower-case literal
unfoldable pub to_ascii_lowercase : ℕ → ℕ
to_ascii_lowercase c = if leb b'A' c && leb c b'Z' then c + 32 else c

-- `str::strip_suffix`
unfoldable pub strip_suffix : Text → Text → Option Text
unfolding eq_text
strip_suffix suffix [] = if eq_text [] suffix then some [] else none
strip_suffix suffix (c ∷ cs) =
    let shorter = strip_suffix suffix cs in
    if eq_text (c ∷ cs) suffix
    then some []
    else elim shorter [ none ↦ none | some t ↦ some (c ∷ t) ]

-- `Ord for str`. The order of the bytes is that of the scalar values.
unfoldable pub compare_text : Text → Text → Ordering
compare_text [] [] = Ordering.eq
compare_text [] (y ∷ ys) = Ordering.lt
compare_text (x ∷ xs) [] = Ordering.gt
compare_text (x ∷ xs) (y ∷ ys) = elim (compare x y) [
  | Ordering.lt ↦ Ordering.lt
  | Ordering.gt ↦ Ordering.gt
  | Ordering.eq ↦ compare_text xs ys
]
