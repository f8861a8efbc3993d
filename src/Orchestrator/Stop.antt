-- ===== src/Orchestrator/Stop.antt =====
-- `stop()` of orchestrator/core.py up to its first `await`.
use symphony_python.Prelude.{true, none, [], ◌∷◌}
use symphony_python.Dict.{Dict}
use symphony_python.Models.{RetryEntry, RunningEntry}
use symphony_python.Orchestrator.State.{
  Orchestrator, Pause, quiet, stopping, worker_cancelled, emit, cancel_timer,
}

unfoldable pub cancel_retry_timers : Dict RetryEntry → Orchestrator → Orchestrator
cancel_retry_timers [] o = o
cancel_retry_timers ((k, entry) ∷ rest) o =
    cancel_retry_timers rest (cancel_timer entry.timer_handle o)

unfoldable pub cancel_workers : Dict RunningEntry → Orchestrator → Orchestrator
cancel_workers [] o = o
cancel_workers ((k, entry) ∷ rest) o =
    cancel_workers rest (emit (worker_cancelled entry.worker_handle) o)

-- `closing` is set, all timers are cancelled and forgotten, and the workers of `running` are
-- cancelled; `running` and `claimed` stay.
unfoldable pub stop_now : Orchestrator → Orchestrator
stop_now o =
    let closed = record o { closing = true } in
    let o₁ = cancel_timer closed.tick_handle closed in
    let o₂ = record o₁ { tick_handle = none } in
    let o₃ = cancel_retry_timers o₂.state.retry_attempts o₂ in
    let s = o₃.state in
    let o₄ = record o₃ { state = record s { retry_attempts = [] } } in
    cancel_workers o₄.state.running o₄

unfoldable pub pause : Pause → Orchestrator → Orchestrator
pause quiet o = o
pause stopping o = stop_now o
