-- ===== src/Reconcile.antt =====
-- orchestrator/reconcile.py: the decisions about running issues. Instants are microseconds, and a
-- stall timeout is in milliseconds, so an elapsed time is compared with 1000 times the timeout.
pub mod Plan
use symphony_python.Prelude.{
  ℕ, suc, ◌+◌, ◌-◌, ◌*◌, ℤ, pos_part, leb_ℤ, Bool, true, false, not, ◌&&◌, ◌||◌, Option, none, some,
  List, [], ◌∷◌, ◌++◌, ltb, leb, if◌then◌else◌,
}
use symphony_python.Text.{Text, codes}
use symphony_python.Dict.{Dict, TextSet, member, add}
use symphony_python.Models.{
  DateTime, aware, naive, Issue, RunPhase, LiveSession, RunningEntry, OrchestratorState,
}
use symphony_python.Config.{ServiceConfig, agent_timeouts, is_active, is_terminal}
use symphony_python.Scheduling.{issue_routable}

abbrev pub reason_terminal : Text
reason_terminal = codes "issue reached a terminal tracker state"

abbrev pub reason_unroutable : Text
reason_unroutable = codes "issue is active but no longer routable"

abbrev pub reason_not_active : Text
reason_not_active = codes "issue state is neither active nor terminal"

abbrev pub reason_missing : Text
reason_missing = codes "issue is no longer visible in the configured tracker scope"

abbrev pub reason_stalled : Text
reason_stalled = codes "no coding-agent activity within the configured stall timeout"

abbrev pub reason_still_active : Text
reason_still_active = codes "issue is still active and routable"

-- `_as_utc`, down to the instant
abbrev pub as_utc : DateTime → ℕ
as_utc (aware t) = t
as_utc (naive t) = t

abbrev pub reference_of : Option DateTime → DateTime → DateTime
reference_of none started_at = started_at
reference_of (some t) started_at = t

-- `elapsed_ms_for_entry`, in microseconds; a reference in the future counts as 0, which no
-- positive timeout tells from the negative number of the source.
unfoldable pub elapsed_for_entry : RunningEntry → DateTime → ℕ
elapsed_for_entry entry now =
    as_utc now - as_utc (reference_of entry.session.last_codex_timestamp entry.started_at)

unfoldable pub next_attempt_for : Option ℕ → ℕ
next_attempt_for none = 1
next_attempt_for (some current) = if leb 1 current then current + 1 else 1

pub record StallDecision : Type 0 where
  pub issue_id : Text
  pub identifier : Text
  pub elapsed : ℕ
  pub attempt : ℕ
  pub reason : Text
  pub phase : RunPhase

-- `int(timeouts[2])`, which is always there
unfoldable pub stall_timeout_for : ServiceConfig → ℤ
stall_timeout_for cfg = (agent_timeouts cfg).2

unfoldable pub stall_decision : Text → RunningEntry → DateTime → StallDecision
stall_decision issue_id entry now = record {
  issue_id = issue_id;
  identifier = entry.identifier;
  elapsed = elapsed_for_entry entry now;
  attempt = next_attempt_for entry.retry_attempt;
  reason = reason_stalled;
  phase = RunPhase.stalled;
}

-- The loop over `running.items()`, for a timeout that is positive
unfoldable pub stalled_entries : Dict RunningEntry → ℕ → DateTime → List StallDecision
unfolding stall_decision
stalled_entries [] timeout now = []
stalled_entries ((issue_id, entry) ∷ rest) timeout now =
    let later = stalled_entries rest timeout now in
    if ltb (timeout * 1000) (elapsed_for_entry entry now)
    then stall_decision issue_id entry now ∷ later
    else later

unfoldable pub plan_stall_terminations : OrchestratorState → ℤ → DateTime → List StallDecision
plan_stall_terminations s stall_timeout_ms now =
    if leb_ℤ stall_timeout_ms (ℤ.pos 0)
    then []
    else stalled_entries s.running (pos_part stall_timeout_ms) now

pub data ReconcileAction : Type 0 where
  update_snapshot terminate_and_clean terminate_no_cleanup : ReconcileAction

pub record ReconcileDecision : Type 0 where
  pub issue_id : Text
  pub action : ReconcileAction
  pub reason : Text
  pub phase : Option RunPhase
  pub issue : Option Issue

unfoldable pub terminates : ReconcileAction → Bool
terminates update_snapshot = false
terminates _ = true

unfoldable pub cleans_workspace : ReconcileAction → Bool
cleans_workspace terminate_and_clean = true
cleans_workspace _ = false

unfoldable pub classify_refreshed_issue : Issue → ServiceConfig → ReconcileDecision
classify_refreshed_issue issue cfg =
    if is_terminal cfg issue.state
    then record {
      issue_id = issue.id;
      action = terminate_and_clean;
      reason = reason_terminal;
      phase = some RunPhase.canceled_by_reconciliation;
      issue = some issue;
    }
    else if is_active cfg issue.state
    then (if issue_routable issue cfg
        then record {
          issue_id = issue.id;
          action = update_snapshot;
          reason = reason_still_active;
          phase = none;
          issue = some issue;
        }
        else record {
          issue_id = issue.id;
          action = terminate_no_cleanup;
          reason = reason_unroutable;
          phase = some RunPhase.canceled_by_reconciliation;
          issue = some issue;
        })
    else record {
      issue_id = issue.id;
      action = terminate_no_cleanup;
      reason = reason_not_active;
      phase = some RunPhase.canceled_by_reconciliation;
      issue = some issue;
    }

-- `list(dict.fromkeys(ids))`: first occurrences, in order
unfoldable pub from_keys : TextSet → List Text → List Text
from_keys seen [] = []
from_keys seen (k ∷ rest) =
    let later = from_keys (add k seen) rest in if member k seen then later else k ∷ later

-- The loop over the refreshed issues: the decisions, and the ids that came back
unfoldable pub plan_refreshed :
    List Text → TextSet → List Issue → ServiceConfig → List ReconcileDecision × TextSet
plan_refreshed known returned [] cfg = ([], returned)
plan_refreshed known returned (issue ∷ rest) cfg =
    let skip = not (member issue.id known) || member issue.id returned in
    let (later, all_returned) =
      plan_refreshed known (if skip then returned else add issue.id returned) rest cfg in
    (if skip then later else classify_refreshed_issue issue cfg ∷ later, all_returned)

unfoldable pub missing_decision : Text → ReconcileDecision
missing_decision issue_id = record {
  issue_id = issue_id;
  action = terminate_no_cleanup;
  reason = reason_missing;
  phase = some RunPhase.canceled_by_reconciliation;
  issue = none;
}

-- The loop over the known ids that did not come back
unfoldable pub plan_missing : TextSet → List Text → List ReconcileDecision
unfolding missing_decision
plan_missing returned [] = []
plan_missing returned (issue_id ∷ rest) =
    let later = plan_missing returned rest in
    if member issue_id returned then later else missing_decision issue_id ∷ later

unfoldable pub plan_reconciliation : List Text → List Issue → ServiceConfig → List ReconcileDecision
plan_reconciliation running_ids refreshed cfg =
    let known = from_keys [] running_ids in
    let (decisions, returned) = plan_refreshed known [] refreshed cfg in
    decisions ++ plan_missing returned known
