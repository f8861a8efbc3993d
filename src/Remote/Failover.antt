-- ===== src/Remote/Failover.antt =====
-- The failover boundary of ssh/worker.py.
use symphony_python.Prelude.{
  ℕ, max, Bool, true, false, not, Option, none, some, List, [], ◌∷◌, ltb, if◌then◌else◌,
}
use symphony_python.Text.{Text}

pub data FailureStage : Type 0 where
  connect preflight startup agent unknown : FailureStage

pub data FailoverAction : Type 0 where
  retry_other_host new_attempt fail : FailoverAction

-- The classes that `classify_failure` tells apart, in the order of its tests
pub data Failure : Type 0 where
  host_independent host_unreachable preflight_failed agent_error startup_error : Failure
  connection_or_timeout os_error other_error : Failure

-- `classify_failure`
unfoldable pub classify_failure : Failure → FailureStage
classify_failure Failure.host_independent = FailureStage.preflight
classify_failure Failure.host_unreachable = FailureStage.connect
classify_failure Failure.preflight_failed = FailureStage.preflight
classify_failure Failure.agent_error = FailureStage.agent
classify_failure Failure.startup_error = FailureStage.startup
classify_failure Failure.connection_or_timeout = FailureStage.connect
classify_failure Failure.os_error = FailureStage.connect
classify_failure Failure.other_error = FailureStage.unknown

pub data Reason : Type 0 where
  hook_started : Text → Reason
  turn_dispatched : ℕ → Reason
  side_effect : Text → Reason

pub record RunProgress : Type 0 where
  pub side_effects_possible : Bool
  pub side_effect_reason : Option Reason
  pub workspace_prepared : Bool
  pub turns_dispatched : ℕ

abbrev pub started : RunProgress
started = record {
  side_effects_possible = false;
  side_effect_reason = none;
  workspace_prepared = false;
  turns_dispatched = 0;
}

-- `mark_side_effect`
unfoldable pub mark_side_effect : Reason → RunProgress → RunProgress
mark_side_effect reason progress =
    if not progress.side_effects_possible
    then record progress { side_effects_possible = true; side_effect_reason = some reason }
    else progress

-- What a worker reports of its run
pub data Mark : Type 0 where
  workspace_prepared : Mark
  hook_started : Text → Mark
  turn_dispatched : ℕ → Mark
  side_effect : Text → Mark

-- `mark_workspace_prepared`, `mark_hook_started`, `mark_turn_dispatched` and `mark_side_effect`
unfoldable pub mark : RunProgress → Mark → RunProgress
mark progress Mark.workspace_prepared = record progress { workspace_prepared = true }
mark progress (Mark.hook_started name) = mark_side_effect (Reason.hook_started name) progress
mark progress (Mark.turn_dispatched n) =
    mark_side_effect (Reason.turn_dispatched n)
      (record progress { turns_dispatched = max progress.turns_dispatched n })
mark progress (Mark.side_effect reason) = mark_side_effect (Reason.side_effect reason) progress

unfoldable pub is_host_independent : Failure → Bool
is_host_independent Failure.host_independent = true
is_host_independent _ = false

-- `_FAILOVER_ELIGIBLE_STAGES`
unfoldable pub is_eligible : FailureStage → Bool
is_eligible FailureStage.connect = true
is_eligible FailureStage.preflight = true
is_eligible FailureStage.startup = true
is_eligible _ = false

abbrev is_agent : FailureStage → Bool
is_agent FailureStage.agent = true
is_agent _ = false

-- The action of `decide_failover`
unfoldable pub decide_failover : RunProgress → Failure → ℕ → FailoverAction
decide_failover progress failure hosts_remaining =
    if is_host_independent failure
    then FailoverAction.fail
    else if progress.side_effects_possible
    then FailoverAction.new_attempt
    else if is_agent (classify_failure failure)
    then FailoverAction.new_attempt
    else if is_eligible (classify_failure failure)
    then (if ltb 0 hosts_remaining
        then FailoverAction.retry_other_host
        else FailoverAction.new_attempt)
    else FailoverAction.new_attempt

-- `FailoverDecision.may_switch_host`
unfoldable pub may_switch_host : FailoverAction → Bool
may_switch_host FailoverAction.retry_other_host = true
may_switch_host _ = false

-- A run up to a failure
unfoldable pub after_marks : RunProgress → List Mark → RunProgress
after_marks progress [] = progress
after_marks progress (m ∷ marks) = after_marks (mark progress m) marks
