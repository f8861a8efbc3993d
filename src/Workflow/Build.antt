-- ===== src/Workflow/Build.antt =====
-- `build_config` and `validate_dispatch_config` of workflow/config.py, and the fields of
-- `ClaudeConfig.from_mapping` of agent/claude.py that the service reads.
use symphony_python.Prelude.{
  ℕ, suc, ◌*◌, ◌/◌, ◌^◌, ℤ, Bool, false, not, Option, none, some, List, [], ◌∷◌, if◌then◌else◌,
}
use symphony_python.Text.{Text, codes, text_eq, truthy, strip}
use symphony_python.Dict.{member}
use symphony_python.Json.{Float, Value, Fields}
use symphony_python.Config.{HookConfig, CodexConfig, AgentConfig, ServiceConfig, get_or}
use symphony_python.Agent.Usage.{negated}
use symphony_python.Orchestrator.Tokens.{payload_get}
use symphony_python.Workflow.Coerce.{
  Checked, ok, raised, ◌>>=◌, section, fields_or_end, coerce_int, lenient_int, fatal_positive_int,
  string_list, required_labels_of, optional_script, positive_only, by_state_limits, server_port_of,
  passthrough,
}
use symphony_python.Workflow.Expand.{Host, expand_value}

-- The registries of adapters and backends, as they are filled
pub record Registry : Type 0 where
  pub adapter_kinds : List Text
  pub backend_kinds : List Text
  pub default_active_states : Text → List Text
  pub default_terminal_states : Text → List Text
  pub config_key : Text → Text
  pub accepts : Text → Fields → Bool

abbrev pub default_poll_interval_ms : ℕ
default_poll_interval_ms = 30000

abbrev pub default_hook_timeout_ms : ℕ
default_hook_timeout_ms = 60000

abbrev pub default_max_concurrent_agents : ℕ
default_max_concurrent_agents = 10

abbrev pub default_max_turns : ℕ
default_max_turns = 20

abbrev pub default_max_retry_backoff_ms : ℕ
default_max_retry_backoff_ms = 300000

abbrev pub default_turn_timeout_ms : ℕ
default_turn_timeout_ms = 3600000

abbrev pub default_read_timeout_ms : ℕ
default_read_timeout_ms = 5000

abbrev pub default_stall_timeout_ms : ℤ
default_stall_timeout_ms = ℤ.pos 300000

-- `_workspace_root`
abbrev root_of : Host → Text → Value → Checked Text
root_of host base_dir (Value.str s) =
    if truthy (strip s)
    then (expand_value host base_dir (strip s) >>= λ expanded. ok (host.resolve expanded))
    else ok (host.resolve host.default_root)
root_of host base_dir _ = ok (host.resolve host.default_root)

unfoldable pub workspace_root_of : Host → Fields → Text → Checked Text
workspace_root_of host section base_dir = root_of host base_dir (payload_get (codes "root") section)

abbrev or_default : List Text → List Text → List Text
or_default [] default = default
or_default (s ∷ states) default = s ∷ states

-- `codex.command`: an absent one has the default, a blank one stays blank.
abbrev command_of : Value → Text
command_of Value.null = codes "codex app-server"
command_of (Value.str s) = strip s
command_of _ = []

unfoldable pub codex_config_of : Fields → CodexConfig
codex_config_of codex = record {
  command = command_of (payload_get (codes "command") codex);
  approval_policy = passthrough (payload_get (codes "approval_policy") codex) (codes "never");
  thread_sandbox =
      passthrough (payload_get (codes "thread_sandbox") codex) (codes "danger-full-access");
  turn_sandbox_policy =
      passthrough (payload_get (codes "turn_sandbox_policy") codex) (codes "danger-full-access");
  turn_timeout_ms = ℤ.pos (lenient_int codex (codes "turn_timeout_ms") default_turn_timeout_ms 1);
  read_timeout_ms = ℤ.pos (lenient_int codex (codes "read_timeout_ms") default_read_timeout_ms 1);
  stall_timeout_ms =
      get_or (coerce_int (payload_get (codes "stall_timeout_ms") codex)) default_stall_timeout_ms;
}

abbrev pub hooks_with : Fields → ℕ → HookConfig
hooks_with hooks timeout_ms = record {
  after_create = optional_script (payload_get (codes "after_create") hooks);
  before_run = optional_script (payload_get (codes "before_run") hooks);
  after_run = optional_script (payload_get (codes "after_run") hooks);
  before_remove = optional_script (payload_get (codes "before_remove") hooks);
  timeout_ms = timeout_ms;
}

unfoldable pub hook_config_of : Fields → Checked HookConfig
hook_config_of hooks =
    fatal_positive_int hooks (codes "timeout_ms") default_hook_timeout_ms (codes "hooks.timeout_ms")
    >>= λ timeout_ms. ok (hooks_with hooks timeout_ms)

abbrev truncated : ℤ → ℤ → ℤ
truncated (ℤ.pos m) (ℤ.pos e) = ℤ.pos (m * 2 ^ e)
truncated (ℤ.pos m) (ℤ.negsuc e) = ℤ.pos (m / 2 ^ suc e)
truncated (ℤ.negsuc m) (ℤ.pos e) = negated (suc m * 2 ^ e)
truncated (ℤ.negsuc m) (ℤ.negsuc e) = negated (suc m / 2 ^ suc e)

-- `_int` of agent/claude.py: `int` of an infinity or of a NaN raises.
unfoldable pub claude_int : Value → ℤ → Checked ℤ
claude_int (Value.int i) default = ok i
claude_int (Value.float (Float.finite m e)) default = ok (truncated m e)
claude_int (Value.float x) default = raised
claude_int _ default = ok default

-- The fields of `ClaudeConfig.from_mapping` that the service reads, and `max_turns`, which is the
-- only other one whose reading can raise
unfoldable pub claude_config_of : Fields → Checked AgentConfig
claude_config_of block =
    claude_int (payload_get (codes "max_turns") block) (ℤ.pos 0) >>= λ max_turns.
    claude_int (payload_get (codes "turn_timeout_ms") block) (ℤ.pos 3600000) >>= λ turn.
    claude_int (payload_get (codes "read_timeout_ms") block) (ℤ.pos 60000) >>= λ read.
    claude_int (payload_get (codes "stall_timeout_ms") block) (ℤ.pos 300000) >>= λ stall.
    ok (record {
      command = some (passthrough (payload_get (codes "command") block) (codes "claude"));
      turn_timeout_ms = some turn;
      read_timeout_ms = some read;
      stall_timeout_ms = some stall;
    })

abbrev pub of_codex : CodexConfig → AgentConfig
of_codex codex = record {
  command = some codex.command;
  turn_timeout_ms = some codex.turn_timeout_ms;
  read_timeout_ms = some codex.read_timeout_ms;
  stall_timeout_ms = some codex.stall_timeout_ms;
}

-- A plain dict has none of the attributes.
abbrev of_dict : AgentConfig
of_dict = record {
  command = none;
  turn_timeout_ms = none;
  read_timeout_ms = none;
  stall_timeout_ms = none;
}

abbrev some_config : Checked AgentConfig → Checked (Option AgentConfig)
some_config c = c >>= λ config. ok (some config)

-- `_agent_backend_config`
unfoldable pub agent_backend_config :
    Registry → Text → Fields → CodexConfig → Checked (Option AgentConfig)
agent_backend_config registry kind raw codex =
    if text_eq kind (codes "codex")
    then ok (some (of_codex codex))
    else if not (member kind registry.backend_kinds)
    then ok none
    else if text_eq kind (codes "claude")
    then some_config (claude_config_of (fields_or_end (payload_get (registry.config_key kind) raw)))
    else ok (some of_dict)

abbrev kind_of : Value → Text
kind_of (Value.str s) = strip s
kind_of _ = []

module _ (host : Host) (registry : Registry) where
  -- The last step of `build_config`, where the parts that can fail are there
  unfoldable pub assemble : Fields → HookConfig → Text → ℕ → Option AgentConfig → ServiceConfig
  assemble raw hooks root max_turns agent_config =
      let tracker = section raw (codes "tracker") in
      let agent = section raw (codes "agent") in
      let worker = section raw (codes "worker") in
      let kind = kind_of (payload_get (codes "kind") tracker) in
      record {
        tracker_kind = kind;
        tracker_provider = fields_or_end (payload_get (codes "provider") tracker);
        required_labels = required_labels_of (payload_get (codes "required_labels") tracker);
        active_states =
            or_default (string_list (payload_get (codes "active_states") tracker))
              (registry.default_active_states kind);
        terminal_states =
            or_default (string_list (payload_get (codes "terminal_states") tracker))
              (registry.default_terminal_states kind);
        poll_interval_ms =
            lenient_int (section raw (codes "polling")) (codes "interval_ms")
              default_poll_interval_ms 1;
        workspace_root = root;
        hooks = hooks;
        max_concurrent_agents =
            lenient_int agent (codes "max_concurrent_agents") default_max_concurrent_agents 0;
        max_turns = max_turns;
        max_retry_backoff_ms =
            lenient_int agent (codes "max_retry_backoff_ms") default_max_retry_backoff_ms 1;
        max_concurrent_agents_by_state =
            by_state_limits (payload_get (codes "max_concurrent_agents_by_state") agent);
        codex = codex_config_of (section raw (codes "codex"));
        server_port = server_port_of (payload_get (codes "port") (section raw (codes "server")));
        ssh_hosts = string_list (payload_get (codes "ssh_hosts") worker);
        max_concurrent_agents_per_host =
            positive_only
              (coerce_int (payload_get (codes "max_concurrent_agents_per_host") worker));
        agent_kind = passthrough (payload_get (codes "kind") agent) (codes "codex");
        agent_config = agent_config;
        raw = raw;
      }

  -- `build_config`, for a base directory that has been found
  unfoldable pub build_config : Text → Fields → Checked ServiceConfig
  build_config base_dir raw =
      let agent = section raw (codes "agent") in
      hook_config_of (section raw (codes "hooks")) >>= λ hooks.
      workspace_root_of host (section raw (codes "workspace")) base_dir >>= λ root.
      fatal_positive_int agent (codes "max_turns") default_max_turns (codes "agent.max_turns")
      >>= λ max_turns.
          agent_backend_config registry
            (passthrough (payload_get (codes "kind") agent) (codes "codex")) raw
            (codex_config_of (section raw (codes "codex")))
          >>= λ agent_config. ok (assemble raw hooks root max_turns agent_config)

-- The command of a backend that is not Codex
abbrev command_text : Option AgentConfig → Text
command_text none = []
command_text (some agent) = get_or agent.command []

-- `validate_dispatch_config`: true where it does not raise
unfoldable pub validate_dispatch_config : Registry → ServiceConfig → Bool
validate_dispatch_config registry cfg =
    if not (truthy cfg.tracker_kind)
    then false
    else if not (member cfg.tracker_kind registry.adapter_kinds)
    then false
    else if not (member cfg.agent_kind registry.backend_kinds)
    then false
    else if not (
        truthy (
          strip (
            if text_eq cfg.agent_kind (codes "codex")
            then cfg.codex.command
            else command_text cfg.agent_config)))
    then false
    else registry.accepts cfg.tracker_kind cfg.tracker_provider
