-- ===== src/Session/Sources.antt =====
-- Where identifiers, times and the directory come from, file.rs: `random_id`, `Sources` in
-- production, `SessionLog::start` and the removal of a file whose start failed.
use rust_agent_harness.Prelude.{
  ℕ, ◌+◌, ◌-◌, ◌*◌, ◌/◌, ◌%◌, ◌<◌, ◌≡◌, refl, true, Option, none, some, [], ◌∷◌, Result, ok, err,
  All, all, arith, ltb, length, if◌then◌else◌, min, word_modulus, List,
}
use rust_agent_harness.Text.{Bytes, Text, len, width}
use rust_agent_harness.Text.Utf8.{utf8, encode_char}
use rust_agent_harness.Session.Projection.{valid_id, hex_digit}
use rust_agent_harness.Session.Format.{Codec}
use rust_agent_harness.Session.Files.{Io, Metadata, DirectoryProbe, identity_matches}
use rust_agent_harness.Session.Errors.{CreateError, create_store_unavailable}
use rust_agent_harness.Session.Writer.{Attempt, SessionWriter, next_id, start_file}

-- `HEX[n]`
unfoldable pub hex_letter : ℕ → ℕ
hex_letter n = if ltb n 10 then b'0' + n else b'a' + (n - 10)

unfoldable pub random_id : Bytes → Text
unfolding hex_letter
random_id [] = []
random_id (b ∷ bs) = hex_letter (b / 16) ∷ hex_letter (b % 16) ∷ random_id bs

-- `Sources::now`, from the milliseconds since the epoch or a clock before it.
unfoldable pub now : Option ℕ → ℕ
now none = 0
now (some millis) = min millis (word_modulus - 1)

-- `Sources::working_directory`, from the path, if there is one, and its text, if it is one.
unfoldable pub working_directory : Io (Option Text) → Option Text
working_directory (ok path) = path
working_directory (err e) = none

-- What is at the path after `rollback_created_file`: the file, unless it was still the one
-- created and could be removed.
unfoldable pub rollback_created_file :
    Io Metadata → Io Metadata → Io (Unit {0}) → Option Bytes → Option Bytes
unfolding identity_matches
rollback_created_file handle path remove content =
    if identity_matches handle path then elim remove [ ok _ ↦ none | err _ ↦ content ] else content

-- `SessionLog::start`; `none` where there is no place for sessions.
unfoldable pub start :
    Codec
    → Option (DirectoryProbe × DirectoryProbe)
    → List Attempt
    → Text
    → Result CreateError SessionWriter
unfolding start_file
start codec none attempts prompt = err create_store_unavailable
start codec (some (application_dir, sessions_dir)) attempts prompt =
    start_file codec application_dir sessions_dir attempts prompt

hex_letter-bounds : (n : ℕ) → n < 16 → (hex_digit (hex_letter n) ≡ true) × (hex_letter n < 128)
unfolding hex_letter hex_digit
hex_letter-bounds n h = (ground arith, ground arith)

encode_char-ascii : (c : ℕ) → c < 128 → encode_char c ≡ c ∷ []
unfolding encode_char
encode_char-ascii c h = ground arith

width-ascii : (c : ℕ) → c < 128 → width c ≡ 1
width-ascii c h = ground arith

len-random_id : (bs : Bytes) → All (λ b. b < 256) bs → len (random_id bs) ≡ 2 * length bs
unfolding len random_id
len-random_id [] h = refl
len-random_id (b ∷ bs) h =
    let high = hex_letter-bounds (b / 16) (omega (arith, h.0)) in
    let low = hex_letter-bounds (b % 16) (omega arith) in
    omega (
      arith,
      width-ascii (hex_letter (b / 16)) high.1,
      width-ascii (hex_letter (b % 16)) low.1,
      len-random_id bs h.1,
    )

utf8-random_id : (bs : Bytes) → All (λ b. b < 256) bs → utf8 (random_id bs) ≡ random_id bs
unfolding utf8 random_id
utf8-random_id [] h = refl
utf8-random_id (b ∷ bs) h = rw (
  encode_char-ascii (hex_letter (b / 16)) (hex_letter-bounds (b / 16) (omega (arith, h.0))).1,
  encode_char-ascii (hex_letter (b % 16)) (hex_letter-bounds (b % 16) (omega arith)).1,
  utf8-random_id bs h.1,
)

all-random_id : (bs : Bytes) → All (λ b. b < 256) bs → all hex_digit (random_id bs) ≡ true
unfolding random_id
all-random_id [] h = refl
all-random_id (b ∷ bs) h = rw (
  (hex_letter-bounds (b / 16) (omega (arith, h.0))).0,
  (hex_letter-bounds (b % 16) (omega arith)).0,
  all-random_id bs h.1,
)

-- Every identifier drawn from sixteen random bytes is accepted by `next_id`, so that a start or an
-- append never fails for its identifier.
pub next_id-random_id :
    (bs : Bytes)
    → length bs ≡ 16
    → All (λ b. b < 256) bs
    → next_id (random_id bs) ≡ ok (random_id bs)
unfolding next_id valid_id
next_id-random_id bs sixteen bytes =
    let long : len (random_id bs) ≡ 32 = omega (arith, sixteen, len-random_id bs bytes) in
    rw (utf8-random_id bs bytes, all-random_id bs bytes) (ground arith)
