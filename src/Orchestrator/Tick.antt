-- ===== src/Orchestrator/Tick.antt =====
-- Reconciliation and the poll-and-dispatch tick of orchestrator/core.py, with the drivers of
-- orchestrator/reconcile.py bound to the orchestrator as `module_reconciler` binds them.
use symphony_python.Prelude.{
  ℕ, Bool, false, not, ◌&&◌, ◌||◌, Option, none, some, List, [], ◌∷◌, leb, if◌then◌else◌,
}
use symphony_python.Text.{Text}
use symphony_python.Dict.{get, has, put, keys, member}
use symphony_python.Models.{Issue, RunPhase, RunningEntry}
use symphony_python.Scheduling.{sort_for_dispatch, should_dispatch, available_slots}
use symphony_python.Reconcile.{
  StallDecision, ReconcileDecision, stall_timeout_for, plan_stall_terminations, plan_reconciliation,
  terminates, cleans_workspace,
}
use symphony_python.Orchestrator.State.{
  Orchestrator, World, notified, tick_timer, emit, arm_timer, cancel_timer,
}
use symphony_python.Orchestrator.Stop.{pause}
use symphony_python.Orchestrator.Claims.{
  with_state, schedule_retry, dispatch_issue, terminate_running_issue,
}

-- What `module_reconciler` passes for the arguments that `reconcile.py` does not name
abbrev default_phase : RunPhase
default_phase = RunPhase.canceled_by_reconciliation

-- The body of the loop of `reconcile_stalled_runs`: the run ends without a retry of its own, and
-- its retry is scheduled after that.
unfoldable pub apply_stall : World → StallDecision → Orchestrator → Orchestrator
apply_stall w d o =
    if has d.issue_id o.state.running
    then schedule_retry w d.issue_id d.attempt (some d.identifier) (some d.reason) none
        (terminate_running_issue w d.issue_id false d.reason false default_phase o)
    else o

unfoldable pub apply_stalls : World → List StallDecision → Orchestrator → Orchestrator
apply_stalls w [] o = o
apply_stalls w (d ∷ rest) o = apply_stalls w rest (apply_stall w d o)

unfoldable pub reconcile_stalled_runs : World → Orchestrator → Orchestrator
reconcile_stalled_runs w o =
    apply_stalls w (plan_stall_terminations o.state (stall_timeout_for o.config) w.now) o

-- `entry.issue = issue`, in place
unfoldable pub refresh_snapshot : Text → Option Issue → RunningEntry → Orchestrator → Orchestrator
refresh_snapshot issue_id none entry o = o
refresh_snapshot issue_id (some issue) entry o =
    with_state (λ s. record s { running = put issue_id (record entry { issue = issue }) s.running })
      o

-- The body of the loop of `reconcile_running_issues`
unfoldable pub apply_decision : World → ReconcileDecision → Orchestrator → Orchestrator
apply_decision w d o = elim (get d.issue_id o.state.running) [
  | none ↦ o
  | some entry ↦
      if not (terminates d.action)
      then refresh_snapshot d.issue_id d.issue entry o
      else terminate_running_issue w d.issue_id (cleans_workspace d.action) d.reason false
          default_phase o
]

unfoldable pub apply_decisions : World → List ReconcileDecision → Orchestrator → Orchestrator
apply_decisions w [] o = o
apply_decisions w (d ∷ rest) o = apply_decisions w rest (apply_decision w d o)

-- What follows the refresh: a failed one changes nothing.
unfoldable pub apply_refresh : World → List Text → Option (List Issue) → Orchestrator → Orchestrator
apply_refresh w running_ids none o = o
apply_refresh w running_ids (some refreshed) o =
    apply_decisions w (plan_reconciliation running_ids refreshed o.config) o

-- Part B: with nothing running there is no request.
unfoldable pub refresh_running : World → List Text → Orchestrator → Orchestrator
refresh_running w [] o = o
refresh_running w (k ∷ rest) o =
    apply_refresh w (k ∷ rest) (w.fetch_by_ids (k ∷ rest)) (pause w.at_refresh o)

-- `reconcile_running_issues`
unfoldable pub reconcile_running_issues : World → Orchestrator → Orchestrator
reconcile_running_issues w o =
    let o₁ = reconcile_stalled_runs w o in refresh_running w (keys o₁.state.running) o₁

-- The loop over the candidates, which are sorted
unfoldable pub dispatch_candidates : World → List Issue → Orchestrator → Orchestrator
dispatch_candidates w [] o = o
dispatch_candidates w (issue ∷ rest) o =
    let skipped = dispatch_candidates w rest o in
    let dispatched = dispatch_candidates w rest (dispatch_issue w issue none o) in
    if leb (available_slots o.state o.config) 0
    then o
    else if has issue.id o.state.running || member issue.id o.state.claimed
    then skipped
    else if should_dispatch issue o.state o.config
    then dispatched
    else skipped

unfoldable pub dispatch_fetched : World → Option (List Issue) → Orchestrator → Orchestrator
dispatch_fetched w none o = o
dispatch_fetched w (some issues) o = dispatch_candidates w (sort_for_dispatch issues) o

-- `_run_tick`
unfoldable pub run_tick : World → Orchestrator → Orchestrator
run_tick w o =
    let o₁ = reconcile_running_issues w o in
    if o₁.closing
    then o₁
    else if not (w.validates o₁.config)
    then o₁
    else dispatch_fetched w (w.fetch_by_states o₁.config.active_states) (pause w.at_fetch o₁)

-- `_arm_tick_timer`
unfoldable pub arm_tick_timer : ℕ → Orchestrator → Orchestrator
arm_tick_timer delay_ms o =
    let o₁ = cancel_timer o.tick_handle o in
    let handle = o₁.next_handle in
    let o₂ = arm_timer delay_ms tick_timer o₁ in record o₂ { tick_handle = some handle }

-- `_handle_tick`
unfoldable pub handle_tick : World → Bool → Orchestrator → Orchestrator
handle_tick w reschedule o =
    let o₁ = emit notified (run_tick w o) in
    if reschedule && not o₁.closing then arm_tick_timer o₁.state.poll_interval_ms o₁ else o₁
