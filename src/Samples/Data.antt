-- ===== src/Samples/Data.antt =====
-- Test data: two issues, a configuration, and what the commands meet outside.
use symphony_python.Prelude.{ℤ, true, false, none, some, [], ◌∷◌}
use symphony_python.Text.{Text, codes}
use symphony_python.Json.{Fields}
use symphony_python.Models.{Issue, Priority, aware, RetryEntry}
use symphony_python.Config.{ServiceConfig, HookConfig, CodexConfig}
use symphony_python.Orchestrator.State.{World, quiet, stopping}
use symphony_python.Orchestrator.Tokens.{PayloadReaders}

abbrev pub issue_of : Text → Text → Priority → Issue
issue_of id state priority = record {
  id = id;
  identifier = id;
  title = codes "t";
  state = state;
  dispatchable = true;
  native_ref = none;
  description = none;
  priority = priority;
  branch_name = none;
  url = none;
  assignee_id = none;
  labels = [];
  blocked_by = [];
  created_at = some (aware 5);
  updated_at = none;
}

abbrev pub issue_a : Issue
issue_a = issue_of (codes "a") (codes "Todo") (Priority.level (ℤ.pos 2))

abbrev pub issue_b : Issue
issue_b = issue_of (codes "b") (codes " todo") (Priority.level (ℤ.pos 0))

abbrev pub hooks : HookConfig
hooks = record {
  after_create = none;
  before_run = none;
  after_run = none;
  before_remove = none;
  timeout_ms = 60000;
}

abbrev pub codex : CodexConfig
codex = record {
  command = codes "codex app-server";
  approval_policy = codes "never";
  thread_sandbox = codes "danger-full-access";
  turn_sandbox_policy = codes "danger-full-access";
  turn_timeout_ms = ℤ.pos 3600000;
  read_timeout_ms = ℤ.pos 5000;
  stall_timeout_ms = ℤ.pos 300000;
}

abbrev pub config : ServiceConfig
config = record {
  tracker_kind = codes "memory";
  tracker_provider = Fields.end;
  required_labels = [];
  active_states = codes "Todo" ∷ [];
  terminal_states = codes "Done" ∷ [];
  poll_interval_ms = 30000;
  workspace_root = codes "/w";
  hooks = hooks;
  max_concurrent_agents = 2;
  max_turns = 20;
  max_retry_backoff_ms = 300000;
  max_concurrent_agents_by_state = [];
  codex = codex;
  server_port = none;
  ssh_hosts = [];
  max_concurrent_agents_per_host = none;
  agent_kind = codes "codex";
  agent_config = none;
  raw = Fields.end;
}

abbrev pub world : World
world = record {
  now = aware 1000;
  monotonic_ms = 70;
  fetch_by_ids = λ ids. some (issue_a ∷ []);
  fetch_by_states = λ states. some (issue_a ∷ issue_b ∷ []);
  spawn_fails = λ i. false;
  validates = λ c. true;
  at_refresh = quiet;
  at_cleanup = λ identifier. quiet;
  at_fetch = quiet;
}

-- `stop()` runs while a handler waits for the tracker.
abbrev pub stopping_world : World
stopping_world = record world { at_fetch = stopping }

abbrev pub readers : PayloadReaders
readers = record { extract_token_totals = λ p. none; extract_rate_limits = λ p. none }

abbrev pub entry_a : RetryEntry
entry_a = record {
  issue_id = codes "a";
  identifier = none;
  attempt = 1;
  due_at_ms = 0;
  timer_handle = none;
  error = none;
}
