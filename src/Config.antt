-- ===== src/Config.antt =====
-- The typed configuration of workflow/config.py that the scheduler reads.
use symphony_python.Prelude.{ℕ, ℤ, Bool, Option, none, some, List, map}
use symphony_python.Text.{Text}
use symphony_python.Dict.{Dict, get, member}
use symphony_python.Json.{Fields}
use symphony_python.Models.{normalize_state}

pub record HookConfig : Type 0 where
  pub after_create : Option Text
  pub before_run : Option Text
  pub after_run : Option Text
  pub before_remove : Option Text
  pub timeout_ms : ℕ

pub record CodexConfig : Type 0 where
  pub command : Text
  pub approval_policy : Text
  pub thread_sandbox : Text
  pub turn_sandbox_policy : Text
  pub turn_timeout_ms : ℤ
  pub read_timeout_ms : ℤ
  pub stall_timeout_ms : ℤ

-- The settings object of the selected backend, as far as the service reads it: an attribute that
-- the backend's own type lacks is `none`.
pub record AgentConfig : Type 0 where
  pub command : Option Text
  pub turn_timeout_ms : Option ℤ
  pub read_timeout_ms : Option ℤ
  pub stall_timeout_ms : Option ℤ

pub record ServiceConfig : Type 0 where
  pub tracker_kind : Text
  pub tracker_provider : Fields
  pub required_labels : List Text
  pub active_states : List Text
  pub terminal_states : List Text
  pub poll_interval_ms : ℕ
  pub workspace_root : Text
  pub hooks : HookConfig
  pub max_concurrent_agents : ℕ
  pub max_turns : ℕ
  pub max_retry_backoff_ms : ℕ
  pub max_concurrent_agents_by_state : Dict ℕ
  pub codex : CodexConfig
  pub server_port : Option ℕ
  pub ssh_hosts : List Text
  pub max_concurrent_agents_per_host : Option ℕ
  pub agent_kind : Text
  pub agent_config : Option AgentConfig
  pub raw : Fields

-- `getattr(cfg, name, default)`, and a `dict.get` with a default
abbrev pub get_or {ℓ} : {A : Type ℓ} → Option A → A → A
get_or none d = d
get_or (some a) d = a

abbrev timeouts_of : Option AgentConfig → CodexConfig → ℤ × ℤ × ℤ
timeouts_of none codex = (codex.turn_timeout_ms, codex.read_timeout_ms, codex.stall_timeout_ms)
timeouts_of (some agent) codex = (
  get_or agent.turn_timeout_ms codex.turn_timeout_ms,
  get_or agent.read_timeout_ms codex.read_timeout_ms,
  get_or agent.stall_timeout_ms codex.stall_timeout_ms,
)

unfoldable pub agent_timeouts : ServiceConfig → ℤ × ℤ × ℤ
agent_timeouts cfg = timeouts_of cfg.agent_config cfg.codex

-- `_folded`
unfoldable pub folded : List Text → List Text
folded values = map normalize_state values

unfoldable pub is_active : ServiceConfig → Text → Bool
is_active cfg state = member (normalize_state state) (folded cfg.active_states)

unfoldable pub is_terminal : ServiceConfig → Text → Bool
is_terminal cfg state = member (normalize_state state) (folded cfg.terminal_states)

unfoldable pub slot_limit_for_state : ServiceConfig → Text → ℕ
slot_limit_for_state cfg state =
    get_or (get (normalize_state state) cfg.max_concurrent_agents_by_state)
      cfg.max_concurrent_agents
