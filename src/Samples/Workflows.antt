-- ===== src/Samples/Workflows.antt =====
-- A workflow file, its configuration, and a value with a variable.
use symphony_python.Prelude.{
  ℕ, ◌≡◌, refl, ℤ, true, false, some, List, [], ◌∷◌, ◌++◌, all, not, ◌==◌, arith,
}
use symphony_python.Text.{Text, codes, text_eq, strip, truthy, drop_while, is_space, rstrip_by}
use symphony_python.Json.{Value, Fields}
use symphony_python.Orchestrator.Tokens.{payload_get}
use symphony_python.Config.{ServiceConfig}
use symphony_python.Workflow.Coerce.{Checked, section, passthrough, fatal_positive_int}
use symphony_python.Workflow.Expand.{Host}
use symphony_python.Workflow.Build.{
  Registry, hooks_with, hook_config_of, workspace_root_of, of_codex, build_config,
  agent_backend_config, codex_config_of, assemble,
}
use symphony_python.Workflow.Valid.{IsInRange, build_config-IsInRange}
use symphony_python.Workflow.Loader.{
  Parsed, Decoded, decoded, yaml_error, is_delimiter, join_lines, parse_workflow_text,
}
use symphony_python.Workflow.Split.{Lacks, to_crlf, document, parse_workflow_text-document}

abbrev polling : Fields
polling =
    Fields.field (codes "polling")
      (Value.obj (Fields.field (codes "interval_ms") (Value.int (ℤ.pos 0)) Fields.end)) Fields.end

-- A parser that knows one document
abbrev safe_load : Text → Decoded
safe_load raw = elim (text_eq raw (codes "p: 0")) [
  | true ↦ decoded (Value.obj polling)
  | false ↦ yaml_error
]

abbrev front : List Text
front = codes "p: 0" ∷ []

abbrev body : Text
body = codes "Fix it." ++ 10 ∷ codes "---"

-- Whether a code point occurs in a concrete text is a test.
lacks : (c : ℕ) (s : Text) → all (λ d. not (d == c)) s ≡ true → Lacks c s
unfolding all
lacks c [] h = tt
lacks c (d ∷ s) h = (ground arith, lacks c s (ground arith))

plain_line : is_delimiter (codes "p: 0") ≡ false
unfolding is_delimiter rstrip_by is_space text_eq
plain_line = refl

front_present : truthy (strip (join_lines front)) ≡ true
unfolding strip rstrip_by is_space join_lines drop_while
front_present = refl

front_loads : safe_load (join_lines front) ≡ decoded (Value.obj polling)
unfolding join_lines text_eq
front_loads = refl

no_feed : all (λ d. not (d == 10)) (codes "p: 0") ≡ true
unfolding all
no_feed = refl

line_returns : all (λ d. not (d == 13)) (codes "p: 0") ≡ true
unfolding all
line_returns = refl

no_return : all (λ d. not (d == 13)) body ≡ true
unfolding all
no_return = refl

parse_workflow_text-document_example :
    (parse_workflow_text safe_load (document front body)
      ≡ Parsed.ok (record { config = polling; prompt_template = strip body }))
    × (parse_workflow_text safe_load (to_crlf (document front body))
        ≡ Parsed.ok (record { config = polling; prompt_template = strip body }))
parse_workflow_text-document_example =
    parse_workflow_text-document safe_load front body polling
      ((lacks 10 (codes "p: 0") no_feed, plain_line), tt) (lacks 13 (codes "p: 0") line_returns, tt)
      (lacks 13 body no_return) front_present front_loads

abbrev host : Host
host = record {
  getenv = λ name. codes "/srv";
  expanduser = λ s. s;
  is_abs = λ s. true;
  join = λ a b. a ++ b;
  resolve = λ s. s;
  default_root = codes "/tmp/symphony_workspaces";
}

abbrev registry : Registry
registry = record {
  adapter_kinds = codes "memory" ∷ [];
  backend_kinds = codes "codex" ∷ codes "claude" ∷ [];
  default_active_states = λ kind. codes "Todo" ∷ [];
  default_terminal_states = λ kind. codes "Done" ∷ [];
  config_key = λ kind. kind;
  accepts = λ kind provider. true;
}

-- The configuration of a workflow that sets a poll interval of zero, which the default replaces
abbrev config : ServiceConfig
config =
    assemble host registry polling (hooks_with Fields.end 60000) (codes "/tmp/symphony_workspaces")
      20 (some (of_codex (codex_config_of Fields.end)))

config_built : build_config host registry (codes "/w") polling ≡ Checked.ok config
unfolding build_config hook_config_of fatal_positive_int workspace_root_of agent_backend_config
    section payload_get text_eq passthrough
config_built = refl

build_config-IsInRange_example : IsInRange config
build_config-IsInRange_example =
    build_config-IsInRange host registry (codes "/w") polling config config_built
