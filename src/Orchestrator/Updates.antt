-- ===== src/Orchestrator/Updates.antt =====
-- `_handle_agent_update` of orchestrator/core.py.
use symphony_python.Prelude.{
  or_else, ℕ, zero, suc, ◌-◌, Option, none, some, List, [], ◌∷◌, ◌++◌, length, if◌then◌else◌,
}
use symphony_python.Text.{Text, truthy, strip, codes}
use symphony_python.Dict.{get, put}
use symphony_python.Json.{Value, Fields}
use symphony_python.Models.{LiveSession, CodexTotals, RecentEvent, RunningEntry}
use symphony_python.Orchestrator.State.{Orchestrator, World}
use symphony_python.Orchestrator.Claims.{with_state}
use symphony_python.Orchestrator.Tokens.{
  AgentEvent, PayloadReaders, payload_get, absorb_session_ids, absorb_token_totals, is_true,
}

abbrev pub recent_event_limit : ℕ
recent_event_limit = 20

abbrev pub drop {ℓ} : {A : Type ℓ} → ℕ → List A → List A
drop zero xs = xs
drop (suc n) [] = []
drop (suc n) (x ∷ xs) = drop n xs

-- `events.append(e)`, and `del events[:-limit]` if they are too many
unfoldable pub append_recent : RecentEvent → List RecentEvent → List RecentEvent
append_recent e events = let all = events ++ e ∷ [] in drop (length all - recent_event_limit) all

abbrev non_empty : Option Text → Option Text
non_empty none = none
non_empty (some s) = if truthy s then some s else none

-- `isinstance(message, str) and message.strip()`
unfoldable pub message_of : Value → Option Text
message_of (Value.str s) = if truthy (strip s) then some s else none
message_of _ = none

-- `if limits:`, an empty map leaves the last good one
unfoldable pub keep_limits : Option Fields → Option Fields → Option Fields
keep_limits (some limits) old = if is_true (Value.obj limits) then some limits else old
keep_limits none old = old

-- The session of an entry after an event, and the aggregate
unfoldable pub update_session :
    PayloadReaders → World → AgentEvent → LiveSession × CodexTotals → LiveSession × CodexTotals
update_session readers w event (session, totals) =
    let stamped = record session {
      last_codex_event = event.event;
      last_codex_timestamp = or_else event.timestamp (some w.now);
      codex_app_server_pid =
          or_else (non_empty event.codex_app_server_pid) session.codex_app_server_pid;
    } in
    let (counted, totals') =
      absorb_token_totals (readers.extract_token_totals event.payload)
        (absorb_session_ids event.payload stamped, totals) in
    (
      record counted {
        last_codex_message =
            or_else (message_of (payload_get (codes "message") event.payload))
              counted.last_codex_message;
      },
      totals',
    )

unfoldable pub update_entry : LiveSession → RunningEntry → RunningEntry
update_entry session entry = record entry {
  session = session;
  recent_events =
      append_recent
        (record { event = session.last_codex_event; timestamp = session.last_codex_timestamp })
        entry.recent_events;
}

-- `_handle_agent_update`
unfoldable pub handle_agent_update :
    PayloadReaders → World → Text → AgentEvent → Orchestrator → Orchestrator
handle_agent_update readers w issue_id event o = elim (get issue_id o.state.running) [
  | none ↦ o
  | some entry ↦
      let (session, totals) =
        update_session readers w event (entry.session, o.state.codex_totals) in
      with_state
        (λ s. record s {
          running = put issue_id (update_entry session entry) s.running;
          codex_totals = totals;
          codex_rate_limits =
              keep_limits (readers.extract_rate_limits event.payload) s.codex_rate_limits;
        })
        o
]
