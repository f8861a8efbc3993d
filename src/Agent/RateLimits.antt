-- ===== src/Agent/RateLimits.antt =====
-- `extract_rate_limits` and `_json_safe` of agent/events.py, and the readers that the orchestrator
-- loads.
use symphony_python.Prelude.{ℕ, zero, suc, Option, none, some, or_else, first_some, if◌then◌else◌}
use symphony_python.Text.{Text}
use symphony_python.Dict.{member}
use symphony_python.Json.{Float, Value, Items, Fields}
use symphony_python.Agent.Payload.{norm, rate_limit_keys, iter_nodes}
use symphony_python.Agent.Usage.{extract_token_totals}
use symphony_python.Orchestrator.Tokens.{PayloadReaders}

abbrev pub max_json_depth : ℕ
max_json_depth = 12

-- `_json_safe`, with the levels that are left; `str(value)` is the argument `render`.
unfoldable mutual
  pub json_safe : (Value → Text) → ℕ → Value → Value
  json_safe render zero v = Value.str (render v)
  json_safe render (suc left) (Value.obj fields) = Value.obj (json_safe_fields render left fields)
  json_safe render (suc left) (Value.arr items) = Value.arr (json_safe_items render left items)
  json_safe render (suc left) Value.null = Value.null
  json_safe render (suc left) (Value.bool b) = Value.bool b
  json_safe render (suc left) (Value.int i) = Value.int i
  json_safe render (suc left) (Value.float x) = Value.float x
  json_safe render (suc left) (Value.str s) = Value.str s

  pub json_safe_fields : (Value → Text) → ℕ → Fields → Fields
  json_safe_fields render left Fields.end = Fields.end
  json_safe_fields render left (Fields.field k v rest) =
      Fields.field k (json_safe render left v) (json_safe_fields render left rest)

  pub json_safe_items : (Value → Text) → ℕ → Items → Items
  json_safe_items render left Items.nil = Items.nil
  json_safe_items render left (Items.cons v rest) =
      Items.cons (json_safe render left v) (json_safe_items render left rest)

-- The safe copy of a mapping that is not empty
abbrev pub safe_mapping : (Value → Text) → Value → Option Fields
safe_mapping render (Value.obj (Fields.field k v rest)) =
    some (json_safe_fields render 11 (Fields.field k v rest))
safe_mapping render _ = none

unfoldable pub rate_limits_in : (Value → Text) → Fields → Option Fields
rate_limits_in render Fields.end = none
rate_limits_in render (Fields.field k v rest) =
    or_else (if member (norm k) rate_limit_keys then safe_mapping render v else none)
      (rate_limits_in render rest)

unfoldable pub extract_rate_limits : (Value → Text) → Fields → Option Fields
extract_rate_limits render payload = first_some (rate_limits_in render) (iter_nodes payload)

-- The two readers that `OrchestratorDeps.load` takes from agent/events.py
abbrev pub payload_readers : (Text → Option Float) → (Value → Text) → PayloadReaders
payload_readers parse_float render = record {
  extract_token_totals = extract_token_totals parse_float;
  extract_rate_limits = extract_rate_limits render;
}
