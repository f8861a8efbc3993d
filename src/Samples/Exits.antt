-- ===== src/Samples/Exits.antt =====
-- Tests of worker exits and of the token accounting.
use symphony_python.Prelude.{ℕ, ◌+◌, ◌<◌, ◌≡◌, refl, true, false, none, some, List, [], ◌∷◌, arith}
use symphony_python.Text.{codes, text_eq}
use symphony_python.Dict.{get, put}
use symphony_python.Json.{Fields}
use symphony_python.Models.{RunPhase, CodexTotals, new_session}
use symphony_python.Orchestrator.State.{Orchestrator, emit, normalize_attempt}
use symphony_python.Orchestrator.Claims.{
  start_worker, new_entry, hold_running, cancel_retry, drop_retry, terminate_running_issue,
}
use symphony_python.Orchestrator.Handlers.{WorkerExit, handle_worker_exit}
use symphony_python.Orchestrator.Tokens.{AgentEvent, PayloadReaders}
use symphony_python.Orchestrator.Updates.{handle_agent_update}
use symphony_python.Orchestrator.Loop.{init}
use symphony_python.Orchestrator.Exits.{
  retry_after, handle_worker_exit-retry, handle_worker_exit-start_worker,
  handle_worker_exit-terminate_running_issue,
}
use symphony_python.Orchestrator.Accounting.{
  running_tokens, total_tokens, handle_agent_update-running_tokens,
}
use symphony_python.Orchestrator.Rising.{absorb_all, absorb_all-Rising}
use symphony_python.Samples.Data.{config, world, readers, issue_a}

abbrev started : Orchestrator
started = start_worker world issue_a (some 2) (init config)

abbrev failed_exit : WorkerExit
failed_exit = record {
  issue_id = codes "a";
  task = 0;
  normal = false;
  reason = codes "boom";
  phase = RunPhase.failed;
}

started_open : started.closing ≡ false
unfolding start_worker emit hold_running cancel_retry drop_retry init get
started_open = refl

started_entry : get (codes "a") started.state.running ≡ some (new_entry world issue_a (some 2) 0)
unfolding start_worker emit hold_running cancel_retry drop_retry init get put text_eq
started_entry = refl

-- The third failure in a row
handle_worker_exit-retry_example :
    (get (codes "a") (handle_worker_exit world failed_exit started).state.running ≡ none)
    × (get (codes "a") (handle_worker_exit world failed_exit started).state.retry_attempts
        ≡ some (retry_after world failed_exit (new_entry world issue_a (some 2) 0) started))
handle_worker_exit-retry_example =
    handle_worker_exit-retry world failed_exit (new_entry world issue_a (some 2) 0) started
      started_open started_entry refl

due_third :
    (retry_after world failed_exit (new_entry world issue_a (some 2) 0) started).due_at_ms ≡ 40070
unfolding retry_after start_worker emit hold_running cancel_retry drop_retry init get
    normalize_attempt
due_third = refl

handle_worker_exit-terminate_running_issue_example :
    handle_worker_exit world failed_exit
      (terminate_running_issue world (codes "a") false (codes "gone") true RunPhase.stalled started)
    ≡ terminate_running_issue world (codes "a") false (codes "gone") true RunPhase.stalled started
handle_worker_exit-terminate_running_issue_example =
    handle_worker_exit-terminate_running_issue world world failed_exit false (codes "gone") true
      RunPhase.stalled started

one_task_later : 0 < started.next_handle
unfolding start_worker emit hold_running cancel_retry drop_retry init get
one_task_later = omega arith

handle_worker_exit-start_worker_example :
    handle_worker_exit world failed_exit (start_worker world issue_a none started)
    ≡ start_worker world issue_a none started
handle_worker_exit-start_worker_example =
    handle_worker_exit-start_worker world world failed_exit issue_a none started refl one_task_later

abbrev event : AgentEvent
event = record {
  event = some (codes "notification");
  timestamp = none;
  codex_app_server_pid = none;
  payload = Fields.end;
}

-- Every payload reports the same cumulative counts.
abbrev counting : PayloadReaders
counting = record readers { extract_token_totals = λ p. some (10, 5, 15) }

handle_agent_update-running_tokens_example :
    running_tokens (handle_agent_update counting world (codes "a") event started).state.running
      + total_tokens started.state.codex_totals
    ≡ running_tokens started.state.running
      + total_tokens
          (handle_agent_update counting world (codes "a") event started).state.codex_totals
handle_agent_update-running_tokens_example =
    handle_agent_update-running_tokens counting world (codes "a") event started

abbrev no_tokens : CodexTotals
no_tokens = record { input_tokens = 0; output_tokens = 0; total_tokens = 0; seconds_running = 0 }

abbrev reports : List (ℕ × ℕ × ℕ)
reports = (10, 5, 15) ∷ (10, 5, 15) ∷ (30, 8, 38) ∷ []

absorb_all-Rising_example :
    let (s, t) = absorb_all reports (new_session, no_tokens) in
    (s.codex_input_tokens + 0 ≡ 30)
    × (s.codex_output_tokens + 0 ≡ 8)
    × (s.codex_total_tokens + 0 ≡ 38)
    × (t.input_tokens + 0 ≡ 30)
    × (t.output_tokens + 0 ≡ 8)
    × (t.total_tokens + 0 ≡ 38)
absorb_all-Rising_example = absorb_all-Rising reports new_session no_tokens (
  omega arith,
  omega arith,
  omega arith,
  (omega arith, omega arith, omega arith, (omega arith, omega arith, omega arith, tt)),
)
