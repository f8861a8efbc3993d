-- ===== src/Orchestrator/State.antt =====
-- The state of `Orchestrator` in orchestrator/core.py, and what it is given from outside.
use symphony_python.Prelude.{
  ℕ, suc, ◌+◌, ◌-◌, Bool, Option, none, some, List, [], ◌∷◌, ◌++◌, leb, if◌then◌else◌,
}
use symphony_python.Text.{Text}
use symphony_python.Models.{DateTime, Issue, RunningEntry, OrchestratorState}
use symphony_python.Config.{ServiceConfig, get_or}
use symphony_python.Reconcile.{as_utc}

-- What a timer does when it fires.
pub data TimerPurpose : Type 0 where
  retry_timer : Text → TimerPurpose
  tick_timer : TimerPurpose

-- What the orchestrator does to the world outside of its state, oldest first.
pub data Effect : Type 0 where
  spawned : ℕ → Issue → Option ℕ → Effect
  worker_cancelled : ℕ → Effect
  timer_armed : ℕ → ℕ → TimerPurpose → Effect
  timer_cancelled : ℕ → Effect
  workspace_cleaned : Text → Effect
  ended : RunningEntry → Effect
  notified : Effect

pub record Orchestrator : Type 0 where
  pub config : ServiceConfig
  pub state : OrchestratorState
  pub closing : Bool
  pub tick_handle : Option ℕ
  pub next_handle : ℕ
  pub effects : List Effect

-- At an `await` the mailbox task is suspended. All other code only enqueues commands, except
-- `stop()`, which changes the state before its own first `await`.
pub data Pause : Type 0 where
  quiet stopping : Pause

-- What one command meets outside: the clock, the tracker, the runner, the preflight check, and
-- what happens at each `await`, for a cleanup by the identifier of its issue. A `none` of the
-- tracker is an exception.
pub record World : Type 0 where
  pub now : DateTime
  pub monotonic_ms : ℕ
  pub fetch_by_ids : List Text → Option (List Issue)
  pub fetch_by_states : List Text → Option (List Issue)
  pub spawn_fails : Issue → Bool
  pub validates : ServiceConfig → Bool
  pub at_refresh : Pause
  pub at_cleanup : Text → Pause
  pub at_fetch : Pause

-- `_normalize_attempt`
unfoldable pub normalize_attempt : Option ℕ → Option ℕ
normalize_attempt none = none
normalize_attempt (some value) = if leb 1 value then some value else none

-- `_next_attempt`
unfoldable pub next_attempt : Option ℕ → ℕ
unfolding normalize_attempt
next_attempt attempt = get_or (normalize_attempt attempt) 0 + 1

-- `_elapsed_ms`, in microseconds: never below zero
unfoldable pub elapsed : DateTime → DateTime → ℕ
elapsed now since = as_utc now - as_utc since

unfoldable pub emit : Effect → Orchestrator → Orchestrator
emit e o = record o { effects = o.effects ++ e ∷ [] }

-- `_add_runtime_seconds`
unfoldable pub add_runtime_seconds : World → RunningEntry → OrchestratorState → OrchestratorState
add_runtime_seconds w entry s =
    let totals = s.codex_totals in
    record s {
      codex_totals = record totals {
        seconds_running = totals.seconds_running + elapsed w.now entry.started_at;
      };
    }

-- A handle that no other task or timer has.
unfoldable pub arm_timer : ℕ → TimerPurpose → Orchestrator → Orchestrator
unfolding emit
arm_timer delay_ms purpose o =
    emit (timer_armed o.next_handle delay_ms purpose) (record o { next_handle = suc o.next_handle })

abbrev pub cancel_timer : Option ℕ → Orchestrator → Orchestrator
cancel_timer none o = o
cancel_timer (some h) o = emit (timer_cancelled h) o
