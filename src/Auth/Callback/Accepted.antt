-- ===== src/Auth/Callback/Accepted.antt =====
-- What `validate_request` of callback.rs accepts.
use rust_agent_harness.Prelude.{
  ◌≡◌, refl, true, false, Option, none, some, List, [], ◌∷◌, ◌++◌, arith, if◌then◌else◌, sym,
  Bool-cases, ◌⊎◌, inl, append-nil, inr, Option-cases, ◌∙◌, append_assoc, ◌≢◌, ◌≤◌,
}
use mathlib.Core.Path.{subst, ap}
use rust_agent_harness.Text.{Text, strip_prefix, text, eq_text, eq_text_iff}
use rust_agent_harness.Auth.Callback.{
  Found, place, collect, accepted_state, accepted_state_suffix, error_outcome, nothing_found,
  validate_request, request_code, Bytes, code_or_error, found_outcome, is_safe_callback_value,
  Request, utf8, len, split_target, max_request_target_bytes, callback_path, query_is_well_formed,
}

-- All values of one name, in order.
abbrev pub values : Text → List (Text × Text) → List Text
values key [] = []
values key ((name, value) ∷ pairs) =
    if eq_text name key then value ∷ values key pairs else values key pairs

abbrev held : Option Text → List Text
held none = []
held (some value) = value ∷ []

-- What is found of one name: what was found before, and the values of that name.
abbrev HoldsAll : List (Text × Text) → Found → Found → Type 0
HoldsAll pairs before after =
    (held after.state ≡ held before.state ++ values (text "state") pairs)
    × (held after.code ≡ held before.code ++ values (text "code") pairs)
    × (held after.error ≡ held before.error ++ values (text "error") pairs)

-- A name is one key at most.
other_key :
    (name key other : Text)
    → eq_text name key ≡ true
    → eq_text key other ≡ false
    → eq_text name other ≡ false
other_key name key other h differs =
    subst (λ t. eq_text t other ≡ false) (sym ((eq_text_iff name key).0 h)) differs

state_code : eq_text (text "state") (text "code") ≡ false
unfolding eq_text text
state_code = refl

state_error : eq_text (text "state") (text "error") ≡ false
unfolding eq_text text
state_error = refl

code_error : eq_text (text "code") (text "error") ≡ false
unfolding eq_text text
code_error = refl

place-HoldsAll :
    (name value : Text) (before after : Found)
    → place name value before ≡ some after
    → HoldsAll ((name, value) ∷ []) before after
unfolding place
place-HoldsAll name value before after h = ground (
  arith,
  other_key name (text "state") (text "code"),
  other_key name (text "state") (text "error"),
  other_key name (text "code") (text "error"),
  state_code,
  state_error,
  code_error,
)

-- Two steps of the loop, for one name.
held-step :
    (first second third : Option Text) (values' more : List Text)
    → held second ≡ held first ++ values'
    → held third ≡ held second ++ more
    → held third ≡ held first ++ (values' ++ more)
held-step first second third values' more h k =
    k ∙ ap (λ l. l ++ more) h ∙ append_assoc (held first) values' more

values-step :
    (key name value : Text) (pairs : List (Text × Text))
    → values key ((name, value) ∷ []) ++ values key pairs ≡ values key ((name, value) ∷ pairs)
values-step key name value pairs = elim (Bool-cases (eq_text name key)) [
  | inl e ↦ rw e refl
  | inr e ↦ rw e refl
]

collect-HoldsAll :
    (pairs : List (Text × Text)) (before after : Found)
    → collect pairs before ≡ some after
    → HoldsAll pairs before after
unfolding collect
collect-HoldsAll [] before after h = (
  ground (arith, append-nil (held before.state)),
  ground (arith, append-nil (held before.code)),
  ground (arith, append-nil (held before.error)),
)
collect-HoldsAll ((name, value) ∷ pairs) before after h =
    elim (Option-cases (place name value before)) [
      | inl refused ↦ absurd (ground arith)
      | inr (next, placed) ↦
          let (state, code, error) = place-HoldsAll name value before next placed in
          let (states, codes, errors) = collect-HoldsAll pairs next after (ground arith) in
          (
            held-step before.state next.state after.state _ _ state states
                ∙ ap (λ l. held before.state ++ l) (values-step (text "state") name value pairs),
            held-step before.code next.code after.code _ _ code codes
                ∙ ap (λ l. held before.code ++ l) (values-step (text "code") name value pairs),
            held-step before.error next.error after.error _ _ error errors
                ∙ ap (λ l. held before.error ++ l) (values-step (text "error") name value pairs),
          )
    ]

strip_prefix-append :
    (prefix t suffix : Text) → strip_prefix prefix t ≡ some suffix → t ≡ prefix ++ suffix
unfolding strip_prefix
strip_prefix-append [] t suffix h = ground arith
strip_prefix-append (p ∷ prefix) [] suffix h = absurd (ground arith)
strip_prefix-append (p ∷ prefix) (c ∷ t) suffix h =
    ground (arith, strip_prefix-append prefix t suffix)

accepted_state-cases :
    (candidate expected : Text)
    → accepted_state candidate expected ≡ true
    → (candidate ≡ expected) ⊎ (candidate ≡ expected ++ accepted_state_suffix)
unfolding accepted_state
accepted_state-cases candidate expected h = elim (Option-cases (strip_prefix expected candidate)) [
  | inl none' ↦ inl (ground (arith, eq_text_iff candidate expected))
  | inr (suffix, stripped) ↦ ground (
    arith,
    eq_text_iff candidate expected,
    eq_text_iff suffix accepted_state_suffix,
    strip_prefix-append expected candidate suffix,
  )
]

-- What a request has that brings a code.
pub record BringsCode (parse : Bytes → List (Text × Text)) (request : Request) (expected : Text)
    (code : Text) : Type 0 where
  pub gets : request.is_get ≡ true
  pub fits : len request.url ≤ max_request_target_bytes
  pub path : (split_target request.url).0 ≡ callback_path
  pub well_formed : query_is_well_formed (split_target request.url).1 ≡ true
  pub state : Text
  pub one_state : values (text "state") (parse (utf8 (split_target request.url).1)) ≡ state ∷ []
  pub accepted : (state ≡ expected) ⊎ (state ≡ expected ++ accepted_state_suffix)
  pub one_code : values (text "code") (parse (utf8 (split_target request.url).1)) ≡ code ∷ []
  pub no_error : values (text "error") (parse (utf8 (split_target request.url).1)) ≡ []
  pub safe : is_safe_callback_value code ≡ true

error_outcome-no_code : (error code : Text) → error_outcome error ≢ request_code code
unfolding error_outcome
error_outcome-no_code error code h = ground arith

code_or_error-code :
    (found_code error : Option Text) (code : Text)
    → code_or_error found_code error ≡ request_code code
    → (found_code ≡ some code) × (error ≡ none) × (is_safe_callback_value code ≡ true)
unfolding code_or_error error_outcome
code_or_error-code (some c) none code h = ground arith
code_or_error-code none (some error) code h = absurd (ground arith)
code_or_error-code (some c) (some error) code h = absurd (ground arith)
code_or_error-code none none code h = absurd (ground arith)

found_outcome-code :
    (expected : Text) (found : Option Found) (code : Text)
    → found_outcome expected found ≡ request_code code
    → (f : Found) × (state : Text) × (found ≡ some f)
      × (f.state ≡ some state)
      × (accepted_state state expected ≡ true)
      × (code_or_error f.code f.error ≡ request_code code)
unfolding found_outcome
found_outcome-code expected none code h = absurd (ground arith)
found_outcome-code expected (some f) code h = elim (Option-cases f.state) [
  | inl missing ↦ absurd (ground arith)
  | inr (state, e) ↦ (f, state, refl, e, ground arith, ground arith)
]

-- The checks before the query's pairs are read.
validate_request-checks :
    (parse : Bytes → List (Text × Text)) (request : Request) (expected code : Text)
    → validate_request parse request expected ≡ request_code code
    → (request.is_get ≡ true)
      × (len request.url ≤ max_request_target_bytes)
      × ((split_target request.url).0 ≡ callback_path)
      × (query_is_well_formed (split_target request.url).1 ≡ true)
      × (found_outcome expected (collect (parse (utf8 (split_target request.url).1)) nothing_found)
          ≡ request_code code)
unfolding validate_request
validate_request-checks parse request expected code h =
    ground (arith, eq_text_iff (split_target request.url).0 callback_path)

-- A request that brings a code is a GET of the callback path whose target is within the limit and
-- whose query is well formed; its query has one state, which is the expected one, with or without
-- the accepted suffix, one code and no error; and the code is not empty and holds no control
-- character.
pub validate_request-BringsCode :
    (parse : Bytes → List (Text × Text)) (request : Request) (expected code : Text)
    → validate_request parse request expected ≡ request_code code
    → BringsCode parse request expected code
validate_request-BringsCode parse request expected code h =
    let (gets, fits, path, well_formed, outcome) =
      validate_request-checks parse request expected code h in
    let (f, state, found, has_state, accepted, matched) =
      found_outcome-code expected _ code outcome in
    let (has_code, has_no_error, safe) = code_or_error-code f.code f.error code matched in
    let (states, codes, errors) =
      collect-HoldsAll (parse (utf8 (split_target request.url).1)) nothing_found f found in
    record {
      gets = gets;
      fits = fits;
      path = path;
      well_formed = well_formed;
      state = state;
      one_state = sym states ∙ ap held has_state;
      accepted = accepted_state-cases state expected accepted;
      one_code = sym codes ∙ ap held has_code;
      no_error = sym errors ∙ ap held has_no_error;
      safe = safe;
    }
