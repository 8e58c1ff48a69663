-- ===== src/Sse/Bounds/Texts.antt =====
-- The bounds of the texts that `dispatch` of sse.rs collects.
use rust_agent_harness.Prelude.{
  ℕ, ◌≤◌, ◌≢◌, Option, none, some, List, [], ◌∷◌, Result, ok, err, ◌>>=◌, arith, inl, inr,
  Option-cases,
}
use rust_agent_harness.Text.{Text, len, len-append}
use rust_agent_harness.Json.{Json}
use rust_agent_harness.Sse.State.{TextState, EventOutcome, continue, completed, DecodeError}
use rust_agent_harness.Sse.Dispatch.{
  append_bounded, collect_parts, output_part, assistant_item_text, final_text, handle_event,
  on_text_done, on_text_delta, on_item_done, on_completed, ensure_text_bound, dispatch,
}

abbrev pub Fits : ℕ → Option Text → Type 0
Fits limit none = Unit
Fits limit (some t) = len t ≤ limit

pub record TextFits (limit : ℕ) (s : TextState) : Type 0 where
  pub deltas : len s.deltas ≤ limit
  pub output_item : Fits limit s.output_item
  pub done : Fits limit s.done

-- A text that the decoder may return.
abbrev pub IsAnswer : ℕ → Text → Type 0
IsAnswer limit t = (t ≢ []) × (len t ≤ limit)

abbrev pub OutcomeFits : ℕ → EventOutcome → Type 0
OutcomeFits limit continue = Unit
OutcomeFits limit (completed t) = IsAnswer limit t

-- What the fallible steps promise of a result, and nothing of an error.
abbrev pub LenFits : ℕ → Result DecodeError Text → Type 0
LenFits limit (ok t) = len t ≤ limit
LenFits limit (err e) = Unit

abbrev ItemFits : ℕ → Result DecodeError (Option Text) → Type 0
ItemFits limit (ok o) = Fits limit o
ItemFits limit (err e) = Unit

abbrev AnswerFits : ℕ → Result DecodeError Text → Type 0
AnswerFits limit (ok t) = IsAnswer limit t
AnswerFits limit (err e) = Unit

abbrev pub EventFits : ℕ → Result DecodeError (TextState × EventOutcome) → Type 0
EventFits limit (ok (s, o)) = TextFits limit s × OutcomeFits limit o
EventFits limit (err e) = Unit

append_bounded-fits :
    (target added : Text) (limit : ℕ) → LenFits limit (append_bounded target added limit)
unfolding append_bounded
append_bounded-fits target added limit = ground (arith, len-append target added)

final_text-fits : (s : TextState) (limit : ℕ) → TextFits limit s → AnswerFits limit (final_text s)
unfolding final_text
final_text-fits s limit f = ground arith

LenFits-bind :
    (r : Result DecodeError Text) (limit : ℕ) (f : Text → Result DecodeError Text)
    → LenFits limit r
    → ((t : Text) → len t ≤ limit → LenFits limit (f t))
    → LenFits limit (r >>= f)
LenFits-bind (ok t) limit f h k = k t h
LenFits-bind (err e) limit f h k = tt

module _ (j : Json) (limit : ℕ) where
  open j use {Value}

  collect_parts-fits :
      (parts : List Value) (collected : Text)
      → len collected ≤ limit
      → LenFits limit (collect_parts j parts collected limit)
  unfolding collect_parts
  collect_parts-fits [] collected f = f
  collect_parts-fits (part ∷ parts) collected f = elim (Option-cases (output_part j part)) [
    | inl e ↦ rw (e, collect_parts) (collect_parts-fits parts collected f)
    | inr (added, e) ↦
        rw (e, collect_parts)
          (LenFits-bind (append_bounded collected added limit) limit
            (λ longer. collect_parts j parts longer limit)
            (append_bounded-fits collected added limit) (collect_parts-fits parts))
  ]

  assistant_item_text-fits : (event : Value) → ItemFits limit (assistant_item_text j event limit)
  unfolding assistant_item_text len
  assistant_item_text-fits event = grind (arith, collect_parts-fits)

  module _ (event : Value) (s : TextState) (f : TextFits limit s) where
    on_text_delta-fits : EventFits limit (on_text_delta j event s limit)
    unfolding on_text_delta append_bounded
    on_text_delta-fits = grind (arith, len-append)

    on_item_done-fits : EventFits limit (on_item_done j event s limit)
    unfolding on_item_done
    on_item_done-fits = ground (arith, assistant_item_text-fits event)

    on_text_done-fits : EventFits limit (on_text_done j event s limit)
    unfolding on_text_done ensure_text_bound
    on_text_done-fits = ground arith

    on_completed-fits : EventFits limit (on_completed j s)
    unfolding on_completed
    on_completed-fits = ground (arith, final_text-fits s limit f)

    handle_event-fits :
        (event_type : Text) → EventFits limit (handle_event j event_type event s limit)
    unfolding handle_event
    handle_event-fits event_type =
        ground (arith, on_text_delta-fits, on_item_done-fits, on_text_done-fits, on_completed-fits)

  pub dispatch-fits :
      (event_data : Text) (s : TextState)
      → TextFits limit s
      → EventFits limit (dispatch j event_data s limit)
  unfolding dispatch
  dispatch-fits event_data s f = grind (arith, handle_event-fits)
