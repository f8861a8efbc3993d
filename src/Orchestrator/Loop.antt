-- ===== src/Orchestrator/Loop.antt =====
-- The mailbox loop of orchestrator/core.py: one command after the other.
use symphony_python.Prelude.{Bool, Option, none, some, List, [], ◌∷◌}
use symphony_python.Text.{Text}
use symphony_python.Models.{RunPhase, Issue}
use symphony_python.Config.{ServiceConfig}
use symphony_python.Orchestrator.State.{Orchestrator, World}
use symphony_python.Orchestrator.Stop.{pause}
use symphony_python.Orchestrator.Claims.{cleanup_workspace}
use symphony_python.Orchestrator.Tick.{handle_tick}
use symphony_python.Orchestrator.Handlers.{
  WorkerExit, handle_worker_exit, handle_retry_timer, handle_phase_update, handle_apply_config,
}
use symphony_python.Orchestrator.Tokens.{AgentEvent, PayloadReaders}
use symphony_python.Orchestrator.Updates.{handle_agent_update}

-- The commands of the mailbox. `_Invoke` runs code of the host and has no model; `_Stop` ends the
-- loop and so the list of commands.
pub data Command : Type 0 where
  tick : Bool → Command
  worker_exit : WorkerExit → Command
  retry_fired : Text → Command
  agent_update : Text → AgentEvent → Command
  phase_update : Text → RunPhase → Option Text → Command
  apply_config : ServiceConfig → Command

-- `_handle`
unfoldable pub handle : PayloadReaders → World → Command → Orchestrator → Orchestrator
handle readers w (tick reschedule) o = handle_tick w reschedule o
handle readers w (worker_exit c) o = handle_worker_exit w c o
handle readers w (retry_fired issue_id) o = handle_retry_timer w issue_id o
handle readers w (agent_update issue_id event) o = handle_agent_update readers w issue_id event o
handle readers w (phase_update issue_id phase error) o = handle_phase_update issue_id phase error o
handle readers w (apply_config cfg) o = handle_apply_config cfg o

-- `_mailbox_loop` over the commands that arrive, each with what it meets outside
unfoldable pub mailbox_loop : PayloadReaders → List (World × Command) → Orchestrator → Orchestrator
mailbox_loop readers [] o = o
mailbox_loop readers ((w, c) ∷ rest) o = mailbox_loop readers rest (handle readers w c o)

-- `__init__`
unfoldable pub init : ServiceConfig → Orchestrator
init cfg = record {
  config = cfg;
  state = record {
    poll_interval_ms = cfg.poll_interval_ms;
    max_concurrent_agents = cfg.max_concurrent_agents;
    running = [];
    claimed = [];
    retry_attempts = [];
    completed = [];
    codex_totals = record {
      input_tokens = 0;
      output_tokens = 0;
      total_tokens = 0;
      seconds_running = 0;
    };
    codex_rate_limits = none;
  };
  closing = Bool.false;
  tick_handle = none;
  next_handle = 0;
  effects = [];
}

unfoldable pub cleanup_all : World → List Issue → Orchestrator → Orchestrator
cleanup_all w [] o = o
cleanup_all w (issue ∷ rest) o = cleanup_all w rest (cleanup_workspace w issue.identifier o)

abbrev cleanup_fetched : World → Option (List Issue) → Orchestrator → Orchestrator
cleanup_fetched w none o = o
cleanup_fetched w (some issues) o = cleanup_all w issues o

abbrev cleanup_terminal : World → List Text → Orchestrator → Orchestrator
cleanup_terminal w [] o = o
cleanup_terminal w (t ∷ rest) o =
    cleanup_fetched w (w.fetch_by_states (t ∷ rest)) (pause w.at_fetch o)

-- `_startup_terminal_cleanup`
unfoldable pub startup_terminal_cleanup : World → Orchestrator → Orchestrator
unfolding cleanup_all
startup_terminal_cleanup w o = cleanup_terminal w o.config.terminal_states o
