-- ===== src/Models.antt =====
-- models.py: the shared vocabulary. Instants are microseconds since the epoch; opaque handles of
-- tasks and timers are numbers, equal exactly if Python's `is` holds.
pub mod Key
pub mod Collisions
use symphony_python.Prelude.{
  ℕ, ℤ, Bool, true, false, not, ◌&&◌, ◌||◌, Option, none, some, List, [], ◌∷◌, ◌++◌, map, length,
  keep, if◌then◌else◌,
}
use symphony_python.Text.{Text, text_eq, truthy, strip, lower, codes}
use symphony_python.Dict.{Dict, TextSet, get, has, put, member, values}
use symphony_python.Json.{Value, Fields}

-- `(state or "").strip().lower()`
unfoldable pub normalize_state : Text → Text
normalize_state state = lower (strip state)

unfoldable pub normalize_label : Text → Text
normalize_label label = lower (strip label)

unfoldable pub session_id : Text → Text → Text
session_id thread_id turn_id = thread_id ++ (codes "-" ++ turn_id)

-- A `datetime` with a time zone (read as its UTC instant), or a naive one.
pub data DateTime : Type 0 where
  aware : ℕ → DateTime
  naive : ℕ → DateTime

pub record BlockerRef : Type 0 where
  pub id : Option Text
  pub identifier : Option Text
  pub state : Option Text

-- `priority` is whatever the adapter normalised: nothing, a `bool` or an integer.
pub data Priority : Type 0 where
  absent : Priority
  flag : Bool → Priority
  level : ℤ → Priority

pub record Issue : Type 0 where
  pub id : Text
  pub identifier : Text
  pub title : Text
  pub state : Text
  pub dispatchable : Bool
  pub native_ref : Option Fields
  pub description : Option Text
  pub priority : Priority
  pub branch_name : Option Text
  pub url : Option Text
  pub assignee_id : Option Text
  pub labels : List Text
  pub blocked_by : List BlockerRef
  pub created_at : Option DateTime
  pub updated_at : Option DateTime

-- The four required strings are not blank.
unfoldable pub has_required_fields : Issue → Bool
has_required_fields issue =
    truthy (strip issue.id)
    && truthy (strip issue.identifier)
    && truthy (strip issue.title)
    && truthy (strip issue.state)

-- `Issue.__post_init__`: `none` is the `ValueError`.
unfoldable pub make_issue : Issue → Option Issue
make_issue issue = if has_required_fields issue then some issue else none

unfoldable pub normalized_state : Issue → Text
unfolding normalize_state
normalized_state issue = normalize_state issue.state

-- The loop of `Issue.has_labels` over the configured labels.
unfoldable pub labels_match : List Text → List Text → Bool
labels_match mine [] = true
labels_match mine (raw ∷ required) =
    let want = normalize_label raw in
    if not (truthy want) || not (member want mine) then false else labels_match mine required

unfoldable pub has_labels : Issue → List Text → Bool
unfolding labels_match
has_labels issue required = labels_match issue.labels required

pub data RunPhase : Type 0 where
  preparing_workspace building_prompt launching_agent_process initializing_session : RunPhase
  streaming_turn finishing succeeded failed timed_out stalled : RunPhase
  canceled_by_reconciliation : RunPhase

unfoldable pub is_terminal_phase : RunPhase → Bool
is_terminal_phase RunPhase.succeeded = true
is_terminal_phase RunPhase.failed = true
is_terminal_phase RunPhase.timed_out = true
is_terminal_phase RunPhase.stalled = true
is_terminal_phase RunPhase.canceled_by_reconciliation = true
is_terminal_phase _ = false

unfoldable pub is_success_phase : RunPhase → Bool
is_success_phase RunPhase.succeeded = true
is_success_phase _ = false

pub data ClaimState : Type 0 where
  unclaimed claimed running retry_queued released : ClaimState

pub record LiveSession : Type 0 where
  pub session_id : Option Text
  pub thread_id : Option Text
  pub turn_id : Option Text
  pub codex_app_server_pid : Option Text
  pub last_codex_event : Option Text
  pub last_codex_timestamp : Option DateTime
  pub last_codex_message : Option Text
  pub codex_input_tokens : ℕ
  pub codex_output_tokens : ℕ
  pub codex_total_tokens : ℕ
  pub last_reported_input_tokens : ℕ
  pub last_reported_output_tokens : ℕ
  pub last_reported_total_tokens : ℕ
  pub turn_count : ℕ

-- `LiveSession()`
abbrev pub new_session : LiveSession
new_session = record {
  session_id = none;
  thread_id = none;
  turn_id = none;
  codex_app_server_pid = none;
  last_codex_event = none;
  last_codex_timestamp = none;
  last_codex_message = none;
  codex_input_tokens = 0;
  codex_output_tokens = 0;
  codex_total_tokens = 0;
  last_reported_input_tokens = 0;
  last_reported_output_tokens = 0;
  last_reported_total_tokens = 0;
  turn_count = 0;
}

-- `due_at_ms` and all delays are whole milliseconds.
pub record RetryEntry : Type 0 where
  pub issue_id : Text
  pub identifier : Option Text
  pub attempt : ℕ
  pub due_at_ms : ℕ
  pub timer_handle : Option ℕ
  pub error : Option Text

-- `seconds_running` is kept exactly, in microseconds.
pub record CodexTotals : Type 0 where
  pub input_tokens : ℕ
  pub output_tokens : ℕ
  pub total_tokens : ℕ
  pub seconds_running : ℕ

pub record RecentEvent : Type 0 where
  pub event : Option Text
  pub timestamp : Option DateTime

pub record RunningEntry : Type 0 where
  pub issue : Issue
  pub identifier : Text
  pub started_at : DateTime
  pub worker_handle : ℕ
  pub session : LiveSession
  pub retry_attempt : Option ℕ
  pub workspace_path : Option Text
  pub phase : RunPhase
  pub recent_events : List RecentEvent
  pub last_error : Option Text

pub record OrchestratorState : Type 0 where
  pub poll_interval_ms : ℕ
  pub max_concurrent_agents : ℕ
  pub running : Dict RunningEntry
  pub claimed : TextSet
  pub retry_attempts : Dict RetryEntry
  pub completed : TextSet
  pub codex_totals : CodexTotals
  pub codex_rate_limits : Option Fields

unfoldable pub claim_state : OrchestratorState → Text → ClaimState
claim_state s issue_id =
    if has issue_id s.running
    then ClaimState.running
    else if has issue_id s.retry_attempts
    then ClaimState.retry_queued
    else if member issue_id s.claimed
    then ClaimState.claimed
    else ClaimState.unclaimed

unfoldable pub running_count : OrchestratorState → ℕ
running_count s = length s.running

-- Does a running entry's current snapshot have this normalised state?
abbrev pub in_state : Text → RunningEntry → Bool
in_state want e = text_eq (normalized_state e.issue) want

unfoldable pub running_count_for_state : OrchestratorState → Text → ℕ
running_count_for_state s state =
    length (keep (in_state (normalize_state state)) (values s.running))
