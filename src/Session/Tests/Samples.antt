-- ===== src/Session/Tests/Samples.antt =====
-- A small stand-in for serde_json, which writes four records, each as one letter; and a session
-- of them.
use rust_agent_harness.Session.RoundTrip.{AreIds}
use rust_agent_harness.Session.Crash.{IsSession}
use rust_agent_harness.Session.Files.{Metadata}
use rust_agent_harness.Session.Writer.{SessionWriter}
use rust_agent_harness.Session.Projection.{valid_id, hex_digit}
use rust_agent_harness.Prelude.{
  ℕ, ◌≡◌, refl, ◌≢◌, none, some, [], ◌∷◌, Option, true, false, ok, arith, if◌then◌else◌,
}
use rust_agent_harness.Text.{Bytes, Text, text, eq_text, len, eq_text_iff}
use rust_agent_harness.Text.Utf8.{Lacks, utf8, encode_char}
use rust_agent_harness.Session.Format.{
  LogRecord, Codec, IsJsonCodec, header, user_entry, assistant_entry, failure_entry, empty_response,
  serialize_line,
}
use mathlib.Core.Path.{subst}
use native.Mathlib.Decide.{ℕ_discrete}

unfoldable pub LogRecord-discrete : Discrete LogRecord
LogRecord-discrete = hlevel ℕ_discrete

abbrev pub session_id : Text
session_id = text "0123456789abcdef0123456789abcdef"

abbrev pub user_id : Text
user_id = text "1123456789abcdef0123456789abcdef"

abbrev pub operation_id : Text
operation_id = text "2123456789abcdef0123456789abcdef"

abbrev pub entry_id : Text
entry_id = text "3123456789abcdef0123456789abcdef"

abbrev pub first : LogRecord
first = header session_id 5 none (text "0.1.0")

abbrev pub second : LogRecord
second = user_entry user_id 6 operation_id (text "hi")

abbrev pub answered : LogRecord
answered = assistant_entry entry_id user_id 7 operation_id (text "yes")

abbrev pub gave_up : LogRecord
gave_up = failure_entry entry_id user_id 7 operation_id empty_response

unfoldable pub letter_or : {A : Type 0} → Dec A → ℕ → Option Bytes → Option Bytes
letter_or (yes e) letter rest = some (letter ∷ [])
letter_or (no n) letter rest = rest

unfoldable pub letter_of : LogRecord → Option Bytes
letter_of r = letter_or (LogRecord-discrete r first) b'h' (
    letter_or (LogRecord-discrete r second) b'u' (
      letter_or (LogRecord-discrete r answered) b'a'
        (letter_or (LogRecord-discrete r gave_up) b'f' none)))

unfoldable pub record_of : Bytes → Option LogRecord
unfolding eq_text
record_of b =
    if eq_text b (b'h' ∷ [])
    then some first
    else if eq_text b (b'u' ∷ [])
    then some second
    else if eq_text b (b'a' ∷ [])
    then some answered
    else if eq_text b (b'f' ∷ [])
    then some gave_up
    else none

abbrev pub toy : Codec
toy = record { to_vec = letter_of; from_slice = record_of }

-- What the letters are good for, at one record.
abbrev pub IsLetter : LogRecord → Option Bytes → Type 0
IsLetter r none = Unit
IsLetter r (some b) = (record_of b ≡ some r) × Lacks b'\n' b × (b ≢ [])

letter_or-IsLetter :
    (r s : LogRecord) (d : Dec (r ≡ s)) (letter : ℕ) (rest : Option Bytes)
    → IsLetter s (some (letter ∷ []))
    → IsLetter r rest
    → IsLetter r (letter_or d letter rest)
unfolding letter_or
letter_or-IsLetter r s (yes e) letter rest h k = rw e h
letter_or-IsLetter r s (no n) letter rest h k = k

letter_of-IsLetter : (r : LogRecord) → IsLetter r (letter_of r)
unfolding letter_of record_of eq_text
letter_of-IsLetter r =
    letter_or-IsLetter r first _ b'h' _ (refl, (λ e. omega (arith, e), tt), λ e. cc e)
      (letter_or-IsLetter r second _ b'u' _ (refl, (λ e. omega (arith, e), tt), λ e. cc e)
        (letter_or-IsLetter r answered _ b'a' _ (refl, (λ e. omega (arith, e), tt), λ e. cc e)
          (letter_or-IsLetter r gave_up _ b'f' none (refl, (λ e. omega (arith, e), tt), λ e. cc e)
            tt)))

letter_of-laws : (r : LogRecord) (b : Bytes) → letter_of r ≡ some b → IsLetter r (some b)
letter_of-laws r b h = subst (IsLetter r) h (letter_of-IsLetter r)

pub toy-IsJsonCodec : IsJsonCodec toy
toy-IsJsonCodec = record {
  reads_back = λ r b h. (letter_of-laws r b h).0;
  one_line = λ r b h. (letter_of-laws r b h).1;
  not_empty = λ r b h. (letter_of-laws r b h).2;
}

apart : (a b : Text) → eq_text a b ≡ false → a ≢ b
apart a b h = ground (arith, eq_text_iff a b)

pub ids : AreIds session_id user_id operation_id
unfolding eq_text valid_id hex_digit len utf8 encode_char text
ids = record {
  session = refl;
  user_entry = refl;
  operation = refl;
  session_ne_user = apart session_id user_id refl;
  session_ne_operation = apart session_id operation_id refl;
  user_ne_operation = apart user_id operation_id refl;
}

pub first_written : serialize_line toy first ≡ ok (b'h' ∷ b'\n' ∷ [])
unfolding serialize_line letter_of letter_or LogRecord-discrete header user_entry text ℕ_discrete
first_written = refl

pub second_written : serialize_line toy second ≡ ok (b'u' ∷ b'\n' ∷ [])
unfolding serialize_line letter_of letter_or LogRecord-discrete header user_entry text ℕ_discrete
second_written = refl

abbrev pub writer : SessionWriter
writer = record {
  content = b'h' ∷ b'\n' ∷ b'u' ∷ b'\n' ∷ [];
  session_id = session_id;
  user_entry_id = user_id;
  operation_id = operation_id;
}

pub writer-IsSession : IsSession toy writer (text "hi") 5
writer-IsSession = record {
  user_timestamp = 6;
  working_directory = none;
  harness_version = text "0.1.0";
  header_line = b'h' ∷ b'\n' ∷ [];
  user_line = b'u' ∷ b'\n' ∷ [];
  ids = ids;
  header_written = first_written;
  user_written = second_written;
  content = refl;
  fits = omega arith;
}

abbrev pub regular : Metadata
regular = record {
  is_symlink = false;
  is_file = true;
  is_dir = false;
  len = 4;
  mode = 0o600;
  dev = 1;
  ino = 2;
  nlink = 1;
}

abbrev pub directory : Metadata
directory = record regular { is_file = false; is_dir = true; mode = 0o700 }
