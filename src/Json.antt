-- ===== src/Json.antt =====
-- serde_json, as the program calls it: `Value` and its accessors are a parameter of the model.
use rust_agent_harness.Prelude.{ℕ, Option, List}
use rust_agent_harness.Text.{Bytes, Text}

pub record Json : Type 1 where
  pub Value : Type 0
  -- `serde_json::from_str::<Value>` and `from_slice::<Value>`
  pub from_str : Text → Option Value
  pub from_slice : Bytes → Option Value
  -- `Value::get` with a key; `none` for a missing key and for what is no object
  pub get : Value → Text → Option Value
  pub as_str : Value → Option Text
  pub as_array : Value → Option (List Value)
  pub as_u64 : Value → Option ℕ
  -- `Value::as_object`, with the object itself as a value
  pub as_object : Value → Option Value
