-- ===== src/Samples/Agents.antt =====
-- Agent payloads and approval requests.
use symphony_python.Prelude.{ℕ, ◌≡◌, refl, ℤ, true, false, Option, none, some, [], ◌∷◌, keep}
use symphony_python.Text.{Text, codes, text_eq, lower}
use symphony_python.Dict.{member}
use symphony_python.Json.{Float, Value, Fields}
use symphony_python.Agent.Payload.{norm, delta_usage_keys}
use symphony_python.Agent.Deltas.{ended, same, delta, nested}
use symphony_python.Agent.Usage.{extract_token_totals}
use symphony_python.Agent.Independent.{extract_token_totals-DiffersInDeltas}
use symphony_python.Agent.Approvals.{
  Request, payload, is_approval, as_policy, trusted_auto_approve, deny_all, names_of, keys_of,
  decide_approval,
}
use symphony_python.Agent.Approved.{asks_approvable, decide_approval-shipped}
use symphony_python.Config.{ServiceConfig}
use symphony_python.Agent.Runner.{
  Outcome, Refresh, TurnWorld, AttemptWorld, Effect, AttemptEnd, run_turn, run_turn_loop,
  run_attempt,
}
use symphony_python.Agent.Attempts.{Ends, run_attempt-Ends}
use symphony_python.Samples.Data.{config}

abbrev counts : ℕ → ℕ → Fields
counts input output =
    Fields.field (codes "input_tokens") (Value.int (ℤ.pos input))
      (Fields.field (codes "output_tokens") (Value.int (ℤ.pos output)) Fields.end)

-- The totals of a thread beside the usage of its last turn
abbrev usage : ℕ → Fields
usage last =
    Fields.field (codes "total_token_usage") (Value.obj (counts 120 30))
      (Fields.field (codes "last_token_usage") (Value.obj (counts last 7)) Fields.end)

abbrev wrapped : ℕ → Fields
wrapped last = Fields.field (codes "info") (Value.obj (usage last)) Fields.end

no_float : Text → Option Float
no_float s = none

last_is_delta : member (norm (codes "last_token_usage")) delta_usage_keys ≡ true
unfolding member norm text_eq keep lower
last_is_delta = refl

extract_token_totals-DiffersInDeltas_example :
    extract_token_totals no_float (wrapped 5) ≡ extract_token_totals no_float (wrapped 99)
extract_token_totals-DiffersInDeltas_example =
    extract_token_totals-DiffersInDeltas no_float (wrapped 5) (wrapped 99) (
      nested (codes "info")
        (same (codes "total_token_usage") (Value.obj (counts 120 30)) (
          delta (codes "last_token_usage") (Value.obj (counts 5 7)) (Value.obj (counts 99 7))
            last_is_delta ended))
        ended)

abbrev request : Request
request = payload (
    Fields.field (codes "method") (Value.str (codes "item/commandExecution/requestApproval"))
      Fields.end)

decide_approval-shipped_example :
    (is_approval
        (decide_approval (as_policy deny_all) (some (as_policy trusted_auto_approve)) request)
      ≡ asks_approvable (names_of request) (keys_of request))
    × (is_approval (decide_approval (as_policy deny_all) (some (as_policy deny_all)) request)
        ≡ false)
decide_approval-shipped_example = decide_approval-shipped (as_policy deny_all) request

-- A turn that fails right away
abbrev failing_turn : ServiceConfig → TurnWorld
failing_turn config = record {
  prompt_fails = false;
  turn = Outcome.raises;
  refreshed = Refresh.refused;
  config = config;
}

-- An attempt that gets as far as its first turn, and is cancelled while its session is stopped
abbrev failing_attempt : AttemptWorld
failing_attempt = record {
  workspace = Outcome.passes;
  before_run = Outcome.passes;
  startup = Outcome.passes;
  max_turns = 3;
  turns = λ n. failing_turn config;
  stop = Outcome.cancelled;
  after_run = Outcome.passes;
}

-- The cancellation skips the hook behind the stop.
skipped_hook : run_attempt failing_attempt ≡ (
  Effect.workspace_created
      ∷ Effect.before_run_passed
      ∷ Effect.session_started
      ∷ Effect.turn_run 1
      ∷ Effect.session_stopped
      ∷ [],
  some AttemptEnd.interrupted,
)
unfolding run_attempt run_turn_loop run_turn
skipped_hook = refl

run_attempt-Ends_example : Ends failing_attempt
run_attempt-Ends_example = run_attempt-Ends failing_attempt
