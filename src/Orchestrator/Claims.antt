-- ===== src/Orchestrator/Claims.antt =====
-- Dispatch, termination and the retry entries of orchestrator/core.py.
use symphony_python.Prelude.{ℕ, suc, ◌+◌, ℤ, Bool, Option, none, some, [], if◌then◌else◌}
use symphony_python.Text.{Text, truthy, codes}
use symphony_python.Dict.{get, has, put, remove, add, discard}
use symphony_python.Models.{
  Issue, RunPhase, RunningEntry, RetryEntry, OrchestratorState, new_session,
}
use symphony_python.Config.{get_or}
use symphony_python.Retry.{backoff_delay_ms}
use symphony_python.Orchestrator.State.{
  Orchestrator, World, spawned, worker_cancelled, workspace_cleaned, ended, retry_timer,
  normalize_attempt, next_attempt, emit, add_runtime_seconds, arm_timer, cancel_timer,
}
use symphony_python.Orchestrator.Stop.{pause}

-- The state without the retry entry of an issue
unfoldable pub drop_retry : Text → OrchestratorState → OrchestratorState
drop_retry issue_id s = record s { retry_attempts = remove issue_id s.retry_attempts }

unfoldable pub discard_claim : Text → OrchestratorState → OrchestratorState
discard_claim issue_id s = record s { claimed = discard issue_id s.claimed }

-- The state with a retry entry, which holds the claim
unfoldable pub hold_retry : RetryEntry → OrchestratorState → OrchestratorState
hold_retry entry s = record s {
  retry_attempts = put entry.issue_id entry s.retry_attempts;
  claimed = add entry.issue_id s.claimed;
}

-- The state with a running entry, which holds the claim
unfoldable pub hold_running : Text → RunningEntry → OrchestratorState → OrchestratorState
hold_running issue_id entry s = record s {
  running = put issue_id entry s.running;
  claimed = add issue_id s.claimed;
}

unfoldable pub drop_running : Text → OrchestratorState → OrchestratorState
drop_running issue_id s = record s { running = remove issue_id s.running }

abbrev pub with_state : (OrchestratorState → OrchestratorState) → Orchestrator → Orchestrator
with_state f o = record o { state = f o.state }

abbrev pub timer_of : Option RetryEntry → Option ℕ
timer_of none = none
timer_of (some entry) = entry.timer_handle

-- `_cancel_retry`
unfoldable pub cancel_retry : Text → Orchestrator → Orchestrator
cancel_retry issue_id o =
    cancel_timer (timer_of (get issue_id o.state.retry_attempts))
      (with_state (drop_retry issue_id) o)

-- The part of `schedule_retry` that arms the timer and stores the entry
unfoldable pub queue_retry :
    World → Text → ℕ → Option Text → Option Text → ℕ → Orchestrator → Orchestrator
queue_retry w issue_id attempt identifier error delay_ms o =
    let handle = o.next_handle in
    let o₁ = arm_timer delay_ms (retry_timer issue_id) o in
    with_state
      (hold_retry (record {
        issue_id = issue_id;
        identifier = identifier;
        attempt = attempt;
        due_at_ms = w.monotonic_ms + delay_ms;
        timer_handle = some handle;
        error = error;
      }))
      o₁

-- `schedule_retry`
unfoldable pub schedule_retry :
    World → Text → ℕ → Option Text → Option Text → Option ℕ → Orchestrator → Orchestrator
schedule_retry w issue_id attempt identifier error delay_ms o =
    let o₁ = cancel_retry issue_id o in
    let backoff = backoff_delay_ms (ℤ.pos attempt) (ℤ.pos o₁.config.max_retry_backoff_ms) in
    if o₁.closing
    then with_state (discard_claim issue_id) o₁
    else queue_retry w issue_id attempt identifier error (get_or delay_ms backoff) o₁

-- `_release_claim`
unfoldable pub release_claim : Text → Orchestrator → Orchestrator
release_claim issue_id o = cancel_retry issue_id (with_state (discard_claim issue_id) o)

-- `_cleanup_workspace`: a failure is logged and ignored, and the `await` may see `stop()`.
unfoldable pub cleanup_workspace : World → Text → Orchestrator → Orchestrator
cleanup_workspace w identifier o =
    if truthy identifier
    then pause (w.at_cleanup identifier) (emit (workspace_cleaned identifier) o)
    else o

abbrev pub error_spawn : Text
error_spawn = codes "failed to spawn agent"

abbrev pub new_entry : World → Issue → Option ℕ → ℕ → RunningEntry
new_entry w issue attempt worker = record {
  issue = issue;
  identifier = issue.identifier;
  started_at = w.now;
  worker_handle = worker;
  session = new_session;
  retry_attempt = normalize_attempt attempt;
  workspace_path = none;
  phase = RunPhase.preparing_workspace;
  recent_events = [];
  last_error = none;
}

-- The part of `_dispatch_issue` behind a successful spawn
unfoldable pub start_worker : World → Issue → Option ℕ → Orchestrator → Orchestrator
start_worker w issue attempt o =
    let worker = o.next_handle in
    let o₁ = emit (spawned worker issue attempt) (record o { next_handle = suc o.next_handle }) in
    cancel_retry issue.id (with_state (hold_running issue.id (new_entry w issue attempt worker)) o₁)

-- `_dispatch_issue`
unfoldable pub dispatch_issue : World → Issue → Option ℕ → Orchestrator → Orchestrator
dispatch_issue w issue attempt o =
    if has issue.id o.state.running
    then o
    else if w.spawn_fails issue
    then schedule_retry w issue.id (next_attempt attempt) (some issue.identifier) (some error_spawn)
        none o
    else start_worker w issue attempt o

abbrev end_entry : RunPhase → Text → RunningEntry → RunningEntry
end_entry phase reason entry = record entry { phase = phase; last_error = some reason }

-- `terminate_running_issue` once the entry has been found
unfoldable pub terminate_entry :
    World → Text → Bool → Text → Bool → RunPhase → RunningEntry → Orchestrator → Orchestrator
terminate_entry w issue_id cleanup reason retry phase entry o =
    let o₁ = with_state (λ s. add_runtime_seconds w entry (drop_running issue_id s)) o in
    let o₂ =
      emit (worker_cancelled entry.worker_handle)
        (emit (ended (end_entry phase reason entry)) o₁) in
    let o₃ = if cleanup then cleanup_workspace w entry.identifier o₂ else o₂ in
    if retry
    then schedule_retry w issue_id (next_attempt entry.retry_attempt) (some entry.identifier)
        (some reason) none o₃
    else release_claim issue_id o₃

-- `terminate_running_issue`
unfoldable pub terminate_running_issue :
    World → Text → Bool → Text → Bool → RunPhase → Orchestrator → Orchestrator
terminate_running_issue w issue_id cleanup reason retry phase o =
    elim (get issue_id o.state.running) [
      | none ↦ o
      | some entry ↦ terminate_entry w issue_id cleanup reason retry phase entry o
    ]
