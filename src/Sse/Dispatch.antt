-- ===== src/Sse/Dispatch.antt =====
-- One complete event: `dispatch` and its helpers.
use rust_agent_harness.Prelude.{
  ℕ, Bool, false, not, ◌||◌, Option, none, some, List, [], ◌∷◌, ◌++◌, Result, ok, err, ◌>>=◌, ◌>>◌,
  ok_or, sum_exceeds, ltb, is_empty, if◌then◌else◌,
}
use rust_agent_harness.Text.{Text, text, eq_text, len}
use rust_agent_harness.Json.{Json}
use rust_agent_harness.Sse.State.{
  TextState, EventOutcome, continue, completed, DecodeError, invalid, limit_exceeded, model_failed,
  empty_text,
}

unfoldable pub append_bounded : Text → Text → ℕ → Result DecodeError Text
append_bounded target added maximum_text_bytes =
    if sum_exceeds (len target) (len added) maximum_text_bytes
    then err limit_exceeded
    else ok (target ++ added)

unfoldable pub ensure_text_bound : Text → ℕ → Result DecodeError (Unit {0})
ensure_text_bound t maximum_text_bytes =
    if ltb maximum_text_bytes (len t) then err limit_exceeded else ok tt

abbrev or_else : Option Text → Option Text → Option Text
or_else none other = other
or_else (some t) other = some t

-- The text that `response.completed` returns, in the order of preference of the code.
unfoldable pub final_text : TextState → Result DecodeError Text
final_text s = do
  t ←
      ok_or
        (or_else s.output_item (or_else (if is_empty s.deltas then none else some s.deltas) s.done))
        empty_text
  if is_empty t then err empty_text else ok t

module _ (j : Json) where
  open j use {Value, from_str, get, as_str, as_array}

  abbrev pub str_field : Value → Text → Option Text
  str_field v key = elim (get v key) [ none ↦ none | some field ↦ as_str field ]

  unfoldable pub is_str : Value → Text → Text → Bool
  is_str v key expected = elim (str_field v key) [
    | none ↦ false
    | some found ↦ eq_text found expected
  ]

  abbrev pub output_part : Value → Option Text
  output_part part =
      if is_str part (text "type") (text "output_text") then str_field part (text "text") else none

  -- `for part in content`
  unfoldable pub collect_parts : List Value → Text → ℕ → Result DecodeError Text
  unfolding append_bounded is_str
  collect_parts [] collected maximum = ok collected
  collect_parts (part ∷ parts) collected maximum = elim (output_part part) [
    | none ↦ collect_parts parts collected maximum
    | some added ↦ do
      longer ← append_bounded collected added maximum
      collect_parts parts longer maximum
  ]

  abbrev then_some : Text → Option Text
  then_some t = if is_empty t then none else some t

  abbrev array_field : Value → Text → Option (List Value)
  array_field v key = elim (get v key) [ none ↦ none | some field ↦ as_array field ]

  unfoldable pub assistant_item_text : Value → ℕ → Result DecodeError (Option Text)
  unfolding collect_parts is_str
  assistant_item_text event maximum = do
    item ← ok_or (get event (text "item")) invalid
    if not (is_str item (text "type") (text "message"))
          || not (is_str item (text "role") (text "assistant"))
        then ok none
        else elim (array_field item (text "content")) [
          | none ↦ ok none
          | some content ↦ do collected ← collect_parts content [] maximum; ok (then_some collected)
        ]

  abbrev keep_item : TextState → Option Text → TextState
  keep_item s none = s
  keep_item s (some t) = record s { output_item = some t }

  abbrev Handled : Type 0
  Handled = Result DecodeError (TextState × EventOutcome)

  -- The arms of `match event_type`.
  unfoldable pub on_text_delta : Value → TextState → ℕ → Handled
  on_text_delta event s maximum = do
    delta ← ok_or (str_field event (text "delta")) invalid
    deltas ← append_bounded s.deltas delta maximum
    ok (record s { deltas = deltas }, continue)

  unfoldable pub on_item_done : Value → TextState → ℕ → Handled
  unfolding assistant_item_text
  on_item_done event s maximum = do
    item ← assistant_item_text event maximum
    ok (keep_item s item, continue)

  unfoldable pub on_text_done : Value → TextState → ℕ → Handled
  unfolding ensure_text_bound
  on_text_done event s maximum = do
    t ← ok_or (str_field event (text "text")) invalid
    ensure_text_bound t maximum
    ok (record s { done = some t }, continue)

  unfoldable pub on_completed : TextState → Handled
  unfolding final_text
  on_completed s = do t ← final_text s; ok (s, completed t)

  unfoldable pub handle_event : Text → Value → TextState → ℕ → Handled
  unfolding on_text_delta on_item_done on_text_done on_completed
  handle_event event_type event s maximum =
      if eq_text event_type (text "response.output_text.delta")
      then on_text_delta event s maximum
      else if eq_text event_type (text "response.output_item.done")
      then on_item_done event s maximum
      else if eq_text event_type (text "response.output_text.done")
      then on_text_done event s maximum
      else if eq_text event_type (text "response.completed")
      then on_completed s
      else if eq_text event_type (text "response.failed")
          || eq_text event_type (text "response.incomplete")
          || eq_text event_type (text "error")
      then err model_failed
      else ok (s, continue)

  unfoldable pub dispatch : Text → TextState → ℕ → Result DecodeError (TextState × EventOutcome)
  unfolding handle_event
  dispatch event_data s maximum = do
    event ← ok_or (from_str event_data) invalid
    event_type ← ok_or (str_field event (text "type")) invalid
    handle_event event_type event s maximum
