-- ===== src/Auth/Tests/Samples.antt =====
-- A small stand-in for serde_json and base64, in which every payload holds the same claims and
-- two records are written as one letter each.
use mathlib.Core.Path.{subst, sym}
use rust_agent_harness.Prelude.{ℕ, ◌≡◌, refl, Option, none, some, [], ◌∷◌, true, if◌then◌else◌}
use rust_agent_harness.Text.{Bytes, Text, text, eq_text}
use rust_agent_harness.Auth.Credential.Claims.{pos, Libraries, auth_claim}
use rust_agent_harness.Auth.Credential.Record.{
  CredentialRecord, Codec, ReadsBack, TokenResponse, RefreshResponse,
}
use native.Mathlib.Decide.{ℕ_discrete}

pub data Toy : Type 0 where
  top auth : Toy
  word : Text → Toy
  number : ℕ → Toy

unfoldable pub toy_get : Toy → Text → Option Toy
unfolding eq_text text
toy_get top key =
    if eq_text key auth_claim
    then some auth
    else if eq_text key (text "exp")
    then some (number 5000)
    else if eq_text key (text "email")
    then some (word (text " a@b.c "))
    else none
toy_get auth key =
    if eq_text key (text "chatgpt_account_id")
    then some (word (text "acct"))
    else some (word (text "plus"))
toy_get (word t) key = none
toy_get (number n) key = none

abbrev toy_str : Toy → Option Text
toy_str (word t) = some t
toy_str _ = none

abbrev toy_number : Toy → Option ℕ
toy_number (number n) = some n
toy_number _ = none

abbrev toy_object : Toy → Option Toy
toy_object top = some top
toy_object auth = some auth
toy_object _ = none

abbrev pub libs : Libraries
libs = record {
  json = record {
    Value = Toy;
    from_str = λ t. some top;
    from_slice = λ b. some top;
    get = toy_get;
    as_str = toy_str;
    as_array = λ v. none;
    as_u64 = toy_number;
    as_object = toy_object;
  };
  decode_base64 = λ t. some t;
  is_header_value = λ t. true;
}

abbrev pub token : Text
token = text "h.p.s"

abbrev pub other_token : Text
other_token = text "h.q.s"

abbrev pub response : TokenResponse
response = record {
  access_token = token;
  refresh_token = text "r";
  id_token = token;
  expires_in = some (pos 3600);
}

-- The record that the response becomes at the time 1000, and that record after a refresh.
abbrev pub stored : CredentialRecord
stored = record {
  version = 1;
  access_token = token;
  refresh_token = text "r";
  id_token = token;
  chatgpt_account_id = text "acct";
  access_token_expires_at = some 4600;
  email = some (text "a@b.c");
  plan = some (text "plus");
}

abbrev pub refresh_response : RefreshResponse
refresh_response = record {
  access_token = some other_token;
  refresh_token = none;
  id_token = some other_token;
  expires_in = none;
}

abbrev pub renewed : CredentialRecord
renewed = record {
  version = 1;
  access_token = other_token;
  refresh_token = text "r";
  id_token = other_token;
  chatgpt_account_id = text "acct";
  access_token_expires_at = some 5000;
  email = some (text "a@b.c");
  plan = some (text "plus");
}

unfoldable pub CredentialRecord-discrete : Discrete CredentialRecord
CredentialRecord-discrete = hlevel ℕ_discrete

unfoldable pub letter_or : {A : Type 0} → Dec A → ℕ → Option Bytes → Option Bytes
letter_or (yes e) letter rest = some (letter ∷ [])
letter_or (no n) letter rest = rest

unfoldable pub letter_of : CredentialRecord → Option Bytes
letter_of r =
    letter_or (CredentialRecord-discrete r stored) b's'
      (letter_or (CredentialRecord-discrete r renewed) b'r' none)

unfoldable pub record_of : Bytes → Option CredentialRecord
unfolding eq_text
record_of b =
    if eq_text b (b's' ∷ [])
    then some stored
    else if eq_text b (b'r' ∷ [])
    then some renewed
    else none

abbrev pub codec : Codec
codec = record { to_vec = letter_of; from_slice = record_of }

abbrev IsLetter : CredentialRecord → Option Bytes → Type 0
IsLetter r none = Unit
IsLetter r (some b) = record_of b ≡ some r

letter_or-IsLetter :
    (r s : CredentialRecord) (d : Dec (r ≡ s)) (letter : ℕ) (rest : Option Bytes)
    → IsLetter s (some (letter ∷ []))
    → IsLetter r rest
    → IsLetter r (letter_or d letter rest)
unfolding letter_or
letter_or-IsLetter r s (yes e) letter rest h k =
    subst (λ q. IsLetter q (some (letter ∷ []))) (sym e) h
letter_or-IsLetter r s (no n) letter rest h k = k

letter_of-IsLetter : (r : CredentialRecord) → IsLetter r (letter_of r)
unfolding letter_of record_of
letter_of-IsLetter r =
    letter_or-IsLetter r stored _ b's' _ refl (letter_or-IsLetter r renewed _ b'r' _ refl tt)

pub codec-ReadsBack : ReadsBack codec
codec-ReadsBack r b h = subst (IsLetter r) h (letter_of-IsLetter r)
