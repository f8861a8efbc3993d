-- ===== src/Workflow/Valid.antt =====
-- What `build_config` of workflow/config.py guarantees of the configuration it returns.
use symphony_python.Prelude.{
  ℕ, ◌<◌, ◌≤◌, ◌≡◌, refl, subst, ℤ, Option, none, some, [], ◌∷◌, inl, inr, All, Bool-cases, ltb→lt,
  ltb-false, arith, ltb,
}
use symphony_python.Text.{Text, codes, truthy, text_eq}
use symphony_python.Dict.{Dict, put}
use symphony_python.Json.{Value, Fields}
use symphony_python.Config.{ServiceConfig, HookConfig, AgentConfig}
use symphony_python.Models.{normalize_state}
use symphony_python.Orchestrator.Tokens.{payload_get}
use symphony_python.Workflow.Coerce.{
  Checked, ok, invalid, raised, ◌>>=◌, section, coerce_int, lenient_int, at_least,
  fatal_positive_int, positive, positive_or, put_limit, positive_only, limits_from, by_state_limits,
  server_port_of, port_of, max_tcp_port,
}
use symphony_python.Workflow.Expand.{Host}
use symphony_python.Workflow.Build.{
  Registry, build_config, assemble, hook_config_of, codex_config_of, default_hook_timeout_ms,
  default_max_turns, hooks_with, workspace_root_of, agent_backend_config,
}

abbrev IsPositive : ℤ → Type 0
IsPositive (ℤ.pos n) = 0 < n
IsPositive (ℤ.negsuc n) = 1 ≤ 0

-- A bound on a value that may be absent
abbrev Where : (ℕ → Type 0) → Option ℕ → Type 0
Where P none = Unit
Where P (some n) = P n

abbrev ArePositive : Dict ℕ → Type 0
ArePositive limits = All (λ entry. 0 < entry.1) limits

-- The ranges that the rest of the service relies on
abbrev pub IsInRange : ServiceConfig → Type 0
IsInRange cfg =
    (0 < cfg.poll_interval_ms)
    × (0 < cfg.hooks.timeout_ms)
    × (0 < cfg.max_turns)
    × (0 < cfg.max_retry_backoff_ms)
    × IsPositive cfg.codex.turn_timeout_ms
    × IsPositive cfg.codex.read_timeout_ms
    × ArePositive cfg.max_concurrent_agents_by_state
    × Where (λ port. port ≤ max_tcp_port) cfg.server_port
    × Where (λ limit. 0 < limit) cfg.max_concurrent_agents_per_host

bind_inv {ℓ κ} :
    {A : Type ℓ} {B : Type κ} {c : Checked A} {f : A → Checked B} {b : B}
    → (c >>= f) ≡ ok b
    → (a : A) × (c ≡ ok a) × (f a ≡ ok b)
bind_inv {c = ok a} h = (a, refl, h)
bind_inv {c = invalid e} h = cc
bind_inv {c = raised} h = cc

ok_injective {ℓ} : {A : Type ℓ} {a b : A} → ok a ≡ ok b → a ≡ b
ok_injective e = cc

at_least-ge :
    (default minimum : ℕ) (o : Option ℤ) → minimum ≤ default → minimum ≤ at_least default minimum o
at_least-ge default minimum none h = h
at_least-ge default minimum (some (ℤ.pos n)) h = ground arith
at_least-ge default minimum (some (ℤ.negsuc n)) h = h

lenient_int-ge :
    (section : Fields) (key : Text) (default minimum : ℕ)
    → minimum ≤ default
    → minimum ≤ lenient_int section key default minimum
unfolding lenient_int
lenient_int-ge section key default minimum h =
    at_least-ge default minimum (coerce_int (payload_get key section)) h

positive_lem : (name : Text) (n : ℕ) (o : Option ℤ) → positive name o ≡ ok n → 0 < n
positive_lem name n none e = ground arith
positive_lem name n (some (ℤ.pos m)) e = ground arith
positive_lem name n (some (ℤ.negsuc m)) e = ground arith

positive_or-positive :
    (name : Text) (default n : ℕ) (v : Value)
    → 0 < default
    → positive_or name default v ≡ ok n
    → 0 < n
positive_or-positive name default n Value.null h e = ground arith
positive_or-positive name default n (Value.bool b) h e =
    positive_lem name n (coerce_int (Value.bool b)) e
positive_or-positive name default n (Value.int i) h e =
    positive_lem name n (coerce_int (Value.int i)) e
positive_or-positive name default n (Value.float x) h e =
    positive_lem name n (coerce_int (Value.float x)) e
positive_or-positive name default n (Value.str s) h e =
    positive_lem name n (coerce_int (Value.str s)) e
positive_or-positive name default n (Value.arr items) h e =
    positive_lem name n (coerce_int (Value.arr items)) e
positive_or-positive name default n (Value.obj fields) h e =
    positive_lem name n (coerce_int (Value.obj fields)) e

put-ArePositive : (k : Text) (n : ℕ) (d : Dict ℕ) → 0 < n → ArePositive d → ArePositive (put k n d)
unfolding put
put-ArePositive k n [] h all = (h, tt)
put-ArePositive k n ((j, m) ∷ d) h (first, rest) = elim (Bool-cases (text_eq j k)) [
  | inl e ↦ rw e (h, rest)
  | inr e ↦ rw e (first, put-ArePositive k n d h rest)
]

positive_only-positive : (o : Option ℤ) → Where (λ n. 0 < n) (positive_only o)
positive_only-positive none = tt
positive_only-positive (some (ℤ.negsuc n)) = tt
positive_only-positive (some (ℤ.pos n)) = elim (Bool-cases (ltb 0 n)) [
  | inl e ↦ rw e (ltb→lt 0 n e)
  | inr e ↦ rw e tt
]

put_limit-ArePositive :
    (k : Text) (o : Option ℕ) (d : Dict ℕ)
    → Where (λ n. 0 < n) o
    → ArePositive d
    → ArePositive (put_limit k o d)
put_limit-ArePositive k none d h all = all
put_limit-ArePositive k (some n) d h all = elim (Bool-cases (truthy k)) [
  | inl e ↦ rw e (put-ArePositive k n d h all)
  | inr e ↦ rw e all
]

limits_from-ArePositive :
    (fields : Fields) (d : Dict ℕ) → ArePositive d → ArePositive (limits_from fields d)
unfolding limits_from
limits_from-ArePositive Fields.end d all = all
limits_from-ArePositive (Fields.field k v rest) d all =
    limits_from-ArePositive rest (put_limit (normalize_state k) (positive_only (coerce_int v)) d) (
      put_limit-ArePositive (normalize_state k) (positive_only (coerce_int v)) d
        (positive_only-positive (coerce_int v)) all)

by_state_limits-ArePositive : (v : Value) → ArePositive (by_state_limits v)
unfolding by_state_limits
by_state_limits-ArePositive (Value.obj fields) = limits_from-ArePositive fields [] tt
by_state_limits-ArePositive Value.null = tt
by_state_limits-ArePositive (Value.bool b) = tt
by_state_limits-ArePositive (Value.int i) = tt
by_state_limits-ArePositive (Value.float x) = tt
by_state_limits-ArePositive (Value.str s) = tt
by_state_limits-ArePositive (Value.arr items) = tt

port_of-le : (o : Option ℤ) → Where (λ port. port ≤ max_tcp_port) (port_of o)
port_of-le none = tt
port_of-le (some (ℤ.negsuc n)) = tt
port_of-le (some (ℤ.pos n)) = elim (Bool-cases (ltb max_tcp_port n)) [
  | inl e ↦ rw e tt
  | inr e ↦ rw e (ltb-false max_tcp_port n e)
]

fatal_positive_int-positive :
    (section : Fields) (key : Text) (default : ℕ) (name : Text) (n : ℕ)
    → 0 < default
    → fatal_positive_int section key default name ≡ ok n
    → 0 < n
unfolding fatal_positive_int
fatal_positive_int-positive section key default name n h e =
    positive_or-positive name default n (payload_get key section) h e

hook_config_of-positive :
    (hooks : Fields) (config : HookConfig)
    → hook_config_of hooks ≡ ok config
    → 0 < config.timeout_ms
unfolding hook_config_of
hook_config_of-positive hooks config h =
    let (n, found, same) = bind_inv {f = λ n. ok (hooks_with hooks n)} h in
    subst (λ c. 0 < c.timeout_ms) (ok_injective same)
      (fatal_positive_int-positive hooks (codes "timeout_ms") default_hook_timeout_ms
        (codes "hooks.timeout_ms") n (omega arith) found)

assemble-IsInRange :
    (host : Host) (registry : Registry) (raw : Fields) (hooks : HookConfig) (root : Text)
    (max_turns : ℕ) (agent_config : Option AgentConfig)
    → 0 < hooks.timeout_ms
    → 0 < max_turns
    → IsInRange (assemble host registry raw hooks root max_turns agent_config)
unfolding assemble codex_config_of server_port_of
assemble-IsInRange host registry raw hooks root max_turns agent_config timeout turns = (
  lenient_int-ge _ _ _ 1 (omega arith),
  timeout,
  turns,
  lenient_int-ge _ _ _ 1 (omega arith),
  lenient_int-ge _ _ _ 1 (omega arith),
  lenient_int-ge _ _ _ 1 (omega arith),
  by_state_limits-ArePositive _,
  port_of-le (coerce_int (payload_get (codes "port") (section raw (codes "server")))),
  positive_only-positive (
      coerce_int
        (payload_get (codes "max_concurrent_agents_per_host") (section raw (codes "worker")))),
)

-- Whatever `build_config` returns is in range.
pub build_config-IsInRange :
    (host : Host) (registry : Registry) (base_dir : Text) (raw : Fields) (cfg : ServiceConfig)
    → build_config host registry base_dir raw ≡ ok cfg
    → IsInRange cfg
unfolding build_config
build_config-IsInRange host registry base_dir raw cfg h =
    let (hooks, hooks_ok, h1) = bind_inv {c = hook_config_of (section raw (codes "hooks"))} h in
    let (root, root_ok, h2) =
      bind_inv {c = workspace_root_of host (section raw (codes "workspace")) base_dir} h1 in
    let (turns, turns_ok, h3) =
      bind_inv
        {c = fatal_positive_int (section raw (codes "agent")) (codes "max_turns") default_max_turns
          (codes "agent.max_turns")}
        h2 in
    let (agent_config, agent_ok, h4) = bind_inv {c = agent_backend_config registry _ raw _} h3 in
    subst IsInRange (ok_injective h4) (
      assemble-IsInRange host registry raw hooks root turns agent_config
        (hook_config_of-positive _ hooks hooks_ok)
        (fatal_positive_int-positive _ _ _ _ turns (omega arith) turns_ok))
