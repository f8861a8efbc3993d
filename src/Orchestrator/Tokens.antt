-- ===== src/Orchestrator/Tokens.antt =====
-- Agent updates of orchestrator/core.py, and the token arithmetic of agent/events.py.
use symphony_python.Prelude.{
  or_else, ℕ, ◌+◌, ◌-◌, ℤ, pos_part, neg_part, Bool, true, false, Option, none, some, ltb,
  if◌then◌else◌,
}
use symphony_python.Text.{Text, text_eq, truthy, codes}
use symphony_python.Json.{Float, Value, Fields, Items}
use symphony_python.Models.{DateTime, LiveSession, CodexTotals, session_id}

-- `AgentEvent`
pub record AgentEvent : Type 0 where
  pub event : Option Text
  pub timestamp : Option DateTime
  pub codex_app_server_pid : Option Text
  pub payload : Fields

-- The two functions of `OrchestratorDeps` that read a payload
pub record PayloadReaders : Type 0 where
  pub extract_token_totals : Fields → Option (ℕ × ℕ × ℕ)
  pub extract_rate_limits : Fields → Option Fields

-- `payload.get(key)`
unfoldable pub payload_get : Text → Fields → Value
payload_get key Fields.end = Value.null
payload_get key (Fields.field k v rest) = if text_eq k key then v else payload_get key rest

-- Python's truth of a decoded value
unfoldable pub is_true : Value → Bool
is_true Value.null = false
is_true (Value.bool b) = b
is_true (Value.int (ℤ.pos n)) = ltb 0 n
is_true (Value.int (ℤ.negsuc n)) = true
is_true (Value.float (Float.finite m e)) = ltb 0 (pos_part m + neg_part m)
is_true (Value.float x) = true
is_true (Value.str s) = truthy s
is_true (Value.arr Items.nil) = false
is_true (Value.arr (Items.cons x xs)) = true
is_true (Value.obj Fields.end) = false
is_true (Value.obj (Fields.field k v fs)) = true

-- A non-empty string, else nothing
unfoldable pub as_id : Value → Option Text
as_id (Value.str s) = if truthy s then some s else none
as_id _ = none

-- `payload.get(a) or payload.get(b)`
unfoldable pub either_key : Text → Text → Fields → Value
either_key a b payload =
    let v = payload_get a payload in if is_true v then v else payload_get b payload

abbrev join_ids : Option Text → Option Text → Option Text → Option Text
join_ids (some thread_id) (some turn_id) old = some (session_id thread_id turn_id)
join_ids _ _ old = old

-- `_absorb_session_ids`. The ids of a session are never empty strings.
unfoldable pub absorb_session_ids : Fields → LiveSession → LiveSession
absorb_session_ids payload session =
    let thread =
      or_else (as_id (either_key (codes "thread_id") (codes "threadId") payload))
        session.thread_id in
    let turn =
      or_else (as_id (either_key (codes "turn_id") (codes "turnId") payload)) session.turn_id in
    record session {
      thread_id = thread;
      turn_id = turn;
      session_id = join_ids thread turn session.session_id;
    }

-- `token_delta` of agent/events.py: `max(0, total - last)` is subtraction that stops at 0.
unfoldable pub token_delta : LiveSession → ℕ × ℕ × ℕ → ℕ × ℕ × ℕ
token_delta session (input, output, total) = (
  input - session.last_reported_input_tokens,
  output - session.last_reported_output_tokens,
  total - session.last_reported_total_tokens,
)

unfoldable pub credit_session : ℕ × ℕ × ℕ → ℕ × ℕ × ℕ → LiveSession → LiveSession
credit_session (d_in, d_out, d_total) (input, output, total) session = record session {
  codex_input_tokens = session.codex_input_tokens + d_in;
  codex_output_tokens = session.codex_output_tokens + d_out;
  codex_total_tokens = session.codex_total_tokens + d_total;
  last_reported_input_tokens = input;
  last_reported_output_tokens = output;
  last_reported_total_tokens = total;
}

unfoldable pub credit_totals : ℕ × ℕ × ℕ → CodexTotals → CodexTotals
credit_totals (d_in, d_out, d_total) totals = record totals {
  input_tokens = totals.input_tokens + d_in;
  output_tokens = totals.output_tokens + d_out;
  total_tokens = totals.total_tokens + d_total;
}

-- `apply_token_totals` of agent/events.py with an aggregate; `_absorb_token_totals` of the
-- orchestrator is the same arithmetic.
unfoldable pub apply_token_totals :
    ℕ × ℕ × ℕ → LiveSession × CodexTotals → LiveSession × CodexTotals
unfolding token_delta credit_session credit_totals
apply_token_totals totals (session, aggregate) =
    let delta = token_delta session totals in
    (credit_session delta totals session, credit_totals delta aggregate)

unfoldable pub absorb_token_totals :
    Option (ℕ × ℕ × ℕ) → LiveSession × CodexTotals → LiveSession × CodexTotals
absorb_token_totals none p = p
absorb_token_totals (some totals) p = apply_token_totals totals p
