-- ===== src/Orchestrator/Handlers.antt =====
-- The other commands of orchestrator/core.py: worker exits, retry timers, phases and reloads.
use symphony_python.Prelude.{
  ℕ, ◌+◌, Bool, true, false, not, ◌&&◌, ◌||◌, Option, none, some, List, [], ◌∷◌, ◌++◌, leb, ◌==◌,
  if◌then◌else◌,
}
use symphony_python.Text.{Text, text_eq, codes}
use symphony_python.Dict.{get, has, put, add}
use symphony_python.Models.{Issue, RunPhase, RunningEntry, RetryEntry}
use symphony_python.Config.{ServiceConfig, is_active, is_terminal}
use symphony_python.Scheduling.{issue_routable, available_slots, has_state_slot}
use symphony_python.Retry.{continuation_delay_ms}
use symphony_python.Orchestrator.State.{
  Orchestrator, World, notified, ended, next_attempt, emit, add_runtime_seconds, cancel_timer,
}
use symphony_python.Orchestrator.Stop.{pause}
use symphony_python.Orchestrator.Claims.{
  with_state, drop_running, drop_retry, discard_claim, schedule_retry, release_claim,
  cleanup_workspace, dispatch_issue,
}
use symphony_python.Orchestrator.Tick.{arm_tick_timer}

-- How a worker task ends. An exception has its description, and its category if it has one.
pub data TaskEnd : Type 0 where
  cancelled : TaskEnd
  returned : TaskEnd
  raised : Text → Option Text → TaskEnd

pub record WorkerExit : Type 0 where
  pub issue_id : Text
  pub task : ℕ
  pub normal : Bool
  pub reason : Text
  pub phase : RunPhase

-- `_TIMEOUT_CATEGORIES`
unfoldable pub is_timeout_category : Option Text → Bool
is_timeout_category none = false
is_timeout_category (some c) =
    text_eq c (codes "turn_timeout")
    || text_eq c (codes "response_timeout")
    || text_eq c (codes "hook_timeout")

-- `_on_worker_done`: the command that it enqueues
unfoldable pub on_worker_done : Text → ℕ → TaskEnd → WorkerExit
on_worker_done issue_id task cancelled = record {
  issue_id = issue_id;
  task = task;
  normal = false;
  reason = codes "cancelled";
  phase = RunPhase.canceled_by_reconciliation;
}
on_worker_done issue_id task returned = record {
  issue_id = issue_id;
  task = task;
  normal = true;
  reason = codes "normal";
  phase = RunPhase.succeeded;
}
on_worker_done issue_id task (raised description category) = record {
  issue_id = issue_id;
  task = task;
  normal = false;
  reason = description;
  phase = if is_timeout_category category then RunPhase.timed_out else RunPhase.failed;
}

-- `_handle_worker_exit` for the entry that the task belongs to
unfoldable pub finish_worker : World → WorkerExit → RunningEntry → Orchestrator → Orchestrator
finish_worker w c entry o =
    let o₁ = with_state (λ s. add_runtime_seconds w entry (drop_running c.issue_id s)) o in
    if c.normal
    then emit notified (
        schedule_retry w c.issue_id 1 (some entry.identifier) none (some continuation_delay_ms) (
          emit (ended (record entry { phase = c.phase }))
            (with_state (λ s. record s { completed = add c.issue_id s.completed }) o₁)))
    else emit notified (
        schedule_retry w c.issue_id (next_attempt entry.retry_attempt) (some entry.identifier)
          (some (codes "worker exited: " ++ c.reason)) none
          (emit (ended (record entry { phase = c.phase; last_error = some c.reason })) o₁))

-- `_handle_worker_exit`
unfoldable pub handle_worker_exit : World → WorkerExit → Orchestrator → Orchestrator
handle_worker_exit w c o = elim (get c.issue_id o.state.running) [
  | none ↦ o
  | some entry ↦ if entry.worker_handle == c.task then finish_worker w c entry o else o
]

-- `_retry_dispatch_allowed`
unfoldable pub retry_dispatch_allowed : Issue → Orchestrator → Bool
retry_dispatch_allowed issue o =
    if has issue.id o.state.running
    then false
    else if is_terminal o.config issue.state || not (is_active o.config issue.state)
    then false
    else issue_routable issue o.config

-- `_has_slot_for`
unfoldable pub has_slot_for : Issue → Orchestrator → Bool
has_slot_for issue o =
    if leb (available_slots o.state o.config) 0
    then false
    else has_state_slot issue o.state o.config

-- `next((c for c in refreshed if c.id == issue_id), None)`
unfoldable pub find_issue : Text → List Issue → Option Issue
find_issue issue_id [] = none
find_issue issue_id (issue ∷ rest) =
    if text_eq issue.id issue_id then some issue else find_issue issue_id rest

abbrev error_refresh : Text
error_refresh = codes "retry refresh failed"

abbrev error_slots : Text
error_slots = codes "no available orchestrator slots"

-- What a retry does with the issue that the tracker returned
unfoldable pub retry_with : World → Text → RetryEntry → Option Issue → Orchestrator → Orchestrator
retry_with w issue_id entry none o = release_claim issue_id o
retry_with w issue_id entry (some issue) o =
    if is_terminal o.config issue.state
    then release_claim issue_id (cleanup_workspace w issue.identifier o)
    else if not (retry_dispatch_allowed issue o)
    then release_claim issue_id o
    else if not (has_slot_for issue o)
    then schedule_retry w issue_id (entry.attempt + 1) (some issue.identifier) (some error_slots)
        none o
    else dispatch_issue w issue (some entry.attempt) o

unfoldable pub retry_fetched :
    World → Text → RetryEntry → Option (List Issue) → Orchestrator → Orchestrator
retry_fetched w issue_id entry none o =
    schedule_retry w issue_id (entry.attempt + 1) entry.identifier (some error_refresh) none o
retry_fetched w issue_id entry (some refreshed) o =
    retry_with w issue_id entry (find_issue issue_id refreshed) o

-- `_handle_retry_timer` once the entry has been popped
unfoldable pub fire_retry : World → Text → RetryEntry → Orchestrator → Orchestrator
fire_retry w issue_id entry o =
    if o.closing
    then with_state (discard_claim issue_id) o
    else emit notified
        (retry_fetched w issue_id entry (w.fetch_by_ids (issue_id ∷ [])) (pause w.at_fetch o))

-- `_handle_retry_timer`
unfoldable pub handle_retry_timer : World → Text → Orchestrator → Orchestrator
handle_retry_timer w issue_id o = elim (get issue_id o.state.retry_attempts) [
  | none ↦ o
  | some entry ↦
      fire_retry w issue_id entry
        (cancel_timer entry.timer_handle (with_state (drop_retry issue_id) o))
]

abbrev set_error : Option Text → RunningEntry → RunningEntry
set_error none entry = entry
set_error (some error) entry = record entry { last_error = some error }

-- `_handle_phase_update`
unfoldable pub handle_phase_update : Text → RunPhase → Option Text → Orchestrator → Orchestrator
handle_phase_update issue_id phase error o = elim (get issue_id o.state.running) [
  | none ↦ o
  | some entry ↦
      with_state
        (λ s. record s {
          running = put issue_id (set_error error (record entry { phase = phase })) s.running;
        })
        o
]

abbrev pub is_armed : Option ℕ → Bool
is_armed none = false
is_armed (some h) = true

-- The part of `_handle_apply_config` that stores the values
unfoldable pub install : ServiceConfig → Orchestrator → Orchestrator
install cfg o =
    let s = o.state in
    record o {
      config = cfg;
      state = record s {
        poll_interval_ms = cfg.poll_interval_ms;
        max_concurrent_agents = cfg.max_concurrent_agents;
      };
    }

-- `_handle_apply_config`: a pending tick follows the new interval.
unfoldable pub handle_apply_config : ServiceConfig → Orchestrator → Orchestrator
handle_apply_config cfg o =
    let o₁ = install cfg o in
    emit notified (
      if is_armed o₁.tick_handle && not o₁.closing
      then arm_tick_timer o₁.state.poll_interval_ms o₁
      else o₁)

-- `_enqueue_periodic_tick`: the flag says whether a tick is enqueued.
unfoldable pub enqueue_periodic_tick : Orchestrator → Orchestrator × Bool
enqueue_periodic_tick o = (record o { tick_handle = none }, not o.closing)
