-- ===== src/Cli/Command/Asks.antt =====
-- Which arguments of the program `parse_command`, main.rs, takes for an ask.
use rust_agent_harness.Prelude.{
  ℕ, Bool, ◌≡◌, true, Option, none, some, List, arith, get_elem?, Option-cases, inl, inr, ◌∷◌, [],
  false, ap, ◌∙◌, if◌then◌else◌, ◌||◌, refl,
}
use rust_agent_harness.Text.{Text, text, eq_text_iff, eq_text}
use rust_agent_harness.Text.Utf8.{utf8, from_utf8, IsText, encode_char, from_utf8-utf8}
use rust_agent_harness.Cli.Command.{
  OsString, Command, ask_open_ai_codex, no_more, ask_prompt, is_arg, parse_session, parse_auth,
  parse_model, parse_ask_prompt, valid_prompt, ask_usage, parse_ask, parse_command, is_help,
  root_help, version, usage_error, root_usage,
}

is_arg-ok :
    (argument : OsString) (literal : Text)
    → is_arg argument literal ≡ true
    → argument ≡ utf8 literal
unfolding is_arg
is_arg-ok argument literal h = (eq_text_iff argument (utf8 literal)).0 h

-- Whether a command asks, and what.
abbrev asked : Command → Option Text
asked (ask_open_ai_codex prompt) = some prompt
asked _ = none

no_more-asked :
    (arguments : List OsString) (n : ℕ) (usage prompt : Text) (otherwise : Command)
    → asked (no_more arguments n usage otherwise) ≡ some prompt
    → (asked otherwise ≡ some prompt) × (get_elem? arguments n ≡ none)
no_more-asked arguments n usage prompt otherwise h = ground arith

parse_session-asked : (arguments : List OsString) → asked (parse_session arguments) ≡ none
unfolding parse_session
parse_session-asked arguments = ground arith

parse_auth-asked : (arguments : List OsString) → asked (parse_auth arguments) ≡ none
unfolding parse_auth
parse_auth-asked arguments = ground arith

parse_model-asked : (arguments : List OsString) → asked (parse_model arguments) ≡ none
unfolding parse_model
parse_model-asked arguments = ground arith

ask_prompt-asked :
    (argument : OsString) (prompt : Text)
    → asked (ask_prompt argument) ≡ some prompt
    → (from_utf8 argument ≡ some prompt) × (valid_prompt prompt ≡ true)
ask_prompt-asked argument prompt h = ground arith

-- The arguments from the third on are one prompt.
abbrev HasPrompt : List OsString → Text → Type 0
HasPrompt arguments prompt =
    (argument : OsString) × (get_elem? arguments 2 ≡ some argument)
    × (get_elem? arguments 3 ≡ none)
    × (from_utf8 argument ≡ some prompt)
    × (valid_prompt prompt ≡ true)

parse_ask_prompt-asked :
    (arguments : List OsString) (prompt : Text)
    → asked (parse_ask_prompt arguments) ≡ some prompt
    → HasPrompt arguments prompt
unfolding parse_ask_prompt
parse_ask_prompt-asked arguments prompt h = elim (Option-cases (get_elem? arguments 2)) [
  | inl n ↦ absurd (ground arith)
  | inr (argument, n) ↦
      let more : (asked (ask_prompt argument) ≡ some prompt) × (get_elem? arguments 3 ≡ none) =
        ground (arith, no_more-asked arguments 3 ask_usage prompt (ask_prompt argument)) in
      let (valid, good) = ask_prompt-asked argument prompt more.0 in
      (argument, n, more.1, valid, good)
]

parse_ask-asked :
    (arguments : List OsString) (prompt : Text)
    → asked (parse_ask arguments) ≡ some prompt
    → (provider : OsString) × (get_elem? arguments 1 ≡ some provider)
      × (is_arg provider (text "openai-codex") ≡ true)
      × (asked (parse_ask_prompt arguments) ≡ some prompt)
unfolding parse_ask
parse_ask-asked arguments prompt h = elim (Option-cases (get_elem? arguments 1)) [
  | inl n ↦ absurd (ground arith)
  | inr (provider, n) ↦
      let rest : (is_arg provider (text "openai-codex") ≡ true)
          × (asked (parse_ask_prompt arguments) ≡ some prompt) =
        ground arith in
      (provider, n, rest.0, rest.1)
]

-- Of the commands that the first argument selects, only one asks.
choice-asked :
    (help version_flag auth ask model session : Bool) (a k m s other : Command) (prompt : Text)
    → asked a ≡ none
    → asked m ≡ none
    → asked s ≡ none
    → asked other ≡ none
    → asked (
        if help
        then root_help
        else if version_flag
        then version
        else if auth
        then a
        else if ask
        then k
        else if model
        then m
        else if session
        then s
        else other)
      ≡ some prompt
    → (ask ≡ true) × (asked k ≡ some prompt)
choice-asked help version_flag auth ask model session a k m s other prompt na nm ns nu h =
    ground arith

parse_command-asked :
    (arguments : List OsString) (prompt : Text)
    → asked (parse_command arguments) ≡ some prompt
    → (first : OsString) × (get_elem? arguments 0 ≡ some first)
      × (is_arg first (text "ask") ≡ true)
      × (asked (parse_ask arguments) ≡ some prompt)
unfolding parse_command
parse_command-asked [] prompt h = absurd (cc h)
parse_command-asked (first ∷ rest) prompt h =
    let arguments = first ∷ rest in
    let chosen : (is_arg first (text "ask") ≡ true) × (asked (parse_ask arguments) ≡ some prompt) =
      choice-asked (is_help first) (is_arg first (text "-V") || is_arg first (text "--version"))
        (is_arg first (text "auth")) (is_arg first (text "ask")) (is_arg first (text "model"))
        (is_arg first (text "session")) (parse_auth arguments) (parse_ask arguments)
        (parse_model arguments) (parse_session arguments) (usage_error first root_usage) prompt
        (parse_auth-asked arguments) (parse_model-asked arguments) (parse_session-asked arguments)
        refl h in
    (first, refl, chosen.0, chosen.1)

three_arguments :
    (arguments : List OsString) {a b d : OsString}
    → get_elem? arguments 0 ≡ some a
    → get_elem? arguments 1 ≡ some b
    → get_elem? arguments 2 ≡ some d
    → get_elem? arguments 3 ≡ none
    → arguments ≡ a ∷ b ∷ d ∷ []
three_arguments [] e₀ e₁ e₂ e₃ = absurd (cc e₀)
three_arguments (x ∷ []) e₀ e₁ e₂ e₃ = absurd (cc e₁)
three_arguments (x ∷ y ∷ []) e₀ e₁ e₂ e₃ = absurd (cc e₂)
three_arguments (x ∷ y ∷ z ∷ []) e₀ e₁ e₂ e₃ = cc (e₀, e₁, e₂)
three_arguments (x ∷ y ∷ z ∷ u ∷ more) e₀ e₁ e₂ e₃ = absurd (cc e₃)

-- The program asks the model only when its arguments are exactly `ask`, `openai-codex` and one
-- argument of valid UTF-8, which is the prompt and is valid.
pub parse_command_asks :
    (arguments : List OsString) (prompt : Text)
    → parse_command arguments ≡ ask_open_ai_codex prompt
    → (argument : OsString) × (arguments
        ≡ utf8 (text "ask") ∷ utf8 (text "openai-codex") ∷ argument ∷ [])
      × (from_utf8 argument ≡ some prompt)
      × (valid_prompt prompt ≡ true)
parse_command_asks arguments prompt h =
    let (first, e₀, is_ask, later) = parse_command-asked arguments prompt (ap asked h) in
    let (provider, e₁, is_codex, last) = parse_ask-asked arguments prompt later in
    let (argument, e₂, e₃, valid, good) = parse_ask_prompt-asked arguments prompt last in
    (
      argument,
      rw (← is_arg-ok first _ is_ask, ← is_arg-ok provider _ is_codex)
          (three_arguments arguments e₀ e₁ e₂ e₃),
      valid,
      good,
    )

parse_command_of_ask :
    (rest : List OsString)
    → parse_command (utf8 (text "ask") ∷ rest) ≡ parse_ask (utf8 (text "ask") ∷ rest)
unfolding parse_command is_help is_arg eq_text utf8 encode_char text
parse_command_of_ask rest = refl

parse_ask_of_codex :
    (first : OsString) (rest : List OsString)
    → parse_ask (first ∷ utf8 (text "openai-codex") ∷ rest)
      ≡ parse_ask_prompt (first ∷ utf8 (text "openai-codex") ∷ rest)
unfolding parse_ask is_help is_arg eq_text utf8 encode_char text
parse_ask_of_codex first rest = refl

-- The program does ask whenever its arguments are `ask`, `openai-codex` and a prompt that is valid
-- text and neither an option for help nor `--`.
pub parse_command_ask :
    (prompt : Text)
    → IsText prompt
    → valid_prompt prompt ≡ true
    → is_help (utf8 prompt) ≡ false
    → is_arg (utf8 prompt) (text "--") ≡ false
    → parse_command (utf8 (text "ask") ∷ utf8 (text "openai-codex") ∷ utf8 prompt ∷ [])
      ≡ ask_open_ai_codex prompt
unfolding parse_ask_prompt
parse_command_ask prompt scalars valid no_help no_dashes =
    parse_command_of_ask (utf8 (text "openai-codex") ∷ utf8 prompt ∷ [])
    ∙ parse_ask_of_codex (utf8 (text "ask")) (utf8 prompt ∷ [])
    ∙ rw (no_help, no_dashes, ask_prompt, from_utf8-utf8 prompt scalars, valid)
