-- ===== src/Orchestrator/Slots.antt =====
-- The global concurrency limit.
use native.Mathlib.Nat.{le_trans}
use symphony_python.Prelude.{
  ℕ, ◌≤◌, ◌<◌, ◌≡◌, inl, inr, Bool, true, false, not, ◌||◌, Option, none, some, List, [], ◌∷◌,
  arith, length, leb, Bool-cases, Option-cases, if◌then◌else◌,
}
use symphony_python.Text.{Text}
use symphony_python.Dict.{get, has, member, length-put_new, length-put_old, length-remove-le}
use symphony_python.Models.{Issue, RunPhase, RunningEntry}
use symphony_python.Scheduling.{should_dispatch, available_slots}
use symphony_python.Reconcile.{StallDecision, ReconcileDecision, terminates}
use symphony_python.Orchestrator.State.{Orchestrator, World, Pause, emit}
use symphony_python.Orchestrator.Stop.{pause}
use symphony_python.Orchestrator.Claims.{
  schedule_retry, release_claim, cleanup_workspace, start_worker, dispatch_issue,
  terminate_running_issue, hold_running,
}
use symphony_python.Orchestrator.Tick.{
  apply_stall, apply_stalls, reconcile_stalled_runs, refresh_snapshot, apply_decision,
  apply_decisions, apply_refresh, refresh_running, reconcile_running_issues, dispatch_candidates,
  dispatch_fetched, run_tick,
}
use symphony_python.Orchestrator.Shape.{
  running-cancel_retry, config-cancel_retry, running-pause, config-pause, running-cleanup_workspace,
  config-cleanup_workspace, schedule_retry_keeps, release_claim_keeps,
  terminate_running_issue_keeps,
}
use symphony_python.Orchestrator.Preserved.{has_of_get}

-- At most `n` issues run, and the configuration allows no more than `n`.
pub record Within (n : ℕ) (o : Orchestrator) : Type 0 where
  pub count : length o.state.running ≤ n
  pub limit : o.config.max_concurrent_agents ≤ n

module _ (n : ℕ) where
  pub if-Within :
      (b : Bool) (x y : Orchestrator) → Within n x → Within n y → Within n (if b then x else y)
  if-Within true x y h k = h
  if-Within false x y h k = k

  pub pause-Within : (p : Pause) (o : Orchestrator) → Within n o → Within n (pause p o)
  pause-Within p o h = record {
    count = rw (running-pause p o) h.count;
    limit = rw (config-pause p o) h.limit;
  }

  module _ (w : World) where
    pub schedule_retry-Within :
        (j : Text) (attempt : ℕ) (identifier error : Option Text) (delay : Option ℕ)
        (o : Orchestrator)
        → Within n o
        → Within n (schedule_retry w j attempt identifier error delay o)
    schedule_retry-Within j attempt identifier error delay o h =
        let k = schedule_retry_keeps w j attempt identifier error delay o in
        record { count = rw (k.0) h.count; limit = rw (k.1) h.limit }

    pub release_claim-Within :
        (j : Text) (o : Orchestrator) → Within n o → Within n (release_claim j o)
    release_claim-Within j o h =
        let k = release_claim_keeps j o in
        record { count = rw (k.0) h.count; limit = rw (k.1) h.limit }

    pub cleanup_workspace-Within :
        (i : Text) (o : Orchestrator) → Within n o → Within n (cleanup_workspace w i o)
    cleanup_workspace-Within i o h = record {
      count = rw (running-cleanup_workspace w i o) h.count;
      limit = rw (config-cleanup_workspace w i o) h.limit;
    }

    terminate_running_issue-Within :
        (j : Text) (cleanup : Bool) (reason : Text) (retry : Bool) (phase : RunPhase)
        (o : Orchestrator)
        → Within n o
        → Within n (terminate_running_issue w j cleanup reason retry phase o)
    terminate_running_issue-Within j cleanup reason retry phase o h =
        let k = terminate_running_issue_keeps w j cleanup reason retry phase o in
        record {
          count = rw (k.0) (le_trans (length-remove-le j o.state.running) h.count);
          limit = rw (k.1) h.limit;
        }

    start_worker-Within :
        (issue : Issue) (attempt : Option ℕ) (o : Orchestrator)
        → has issue.id o.state.running ≡ false
        → length o.state.running < n
        → Within n o
        → Within n (start_worker w issue attempt o)
    unfolding start_worker emit hold_running
    start_worker-Within issue attempt o r l h = record {
      count = rw running-cancel_retry (rw (length-put_new issue.id _ o.state.running r) l);
      limit = rw config-cancel_retry h.limit;
    }

    -- A dispatch takes one slot at most.
    pub dispatch_issue-Within :
        (issue : Issue) (attempt : Option ℕ) (o : Orchestrator)
        → length o.state.running < n
        → Within n o
        → Within n (dispatch_issue w issue attempt o)
    unfolding dispatch_issue
    dispatch_issue-Within issue attempt o l h = elim (Bool-cases (has issue.id o.state.running)) [
      | inl e ↦ rw e h
      | inr e ↦ rw e (
          if-Within (w.spawn_fails issue) _ _ (schedule_retry-Within issue.id _ _ _ _ o h)
            (start_worker-Within issue attempt o e l h))
    ]

    apply_stall-Within :
        (d : StallDecision) (o : Orchestrator) → Within n o → Within n (apply_stall w d o)
    unfolding apply_stall
    apply_stall-Within d o h =
        if-Within (has d.issue_id o.state.running) _ _
          (schedule_retry-Within d.issue_id _ _ _ _ _
            (terminate_running_issue-Within d.issue_id false d.reason false _ o h))
          h

    apply_stalls-Within :
        (ds : List StallDecision) (o : Orchestrator) → Within n o → Within n (apply_stalls w ds o)
    unfolding apply_stalls
    apply_stalls-Within [] o h = h
    apply_stalls-Within (d ∷ ds) o h = apply_stalls-Within ds _ (apply_stall-Within d o h)

    refresh_snapshot-Within :
        (j : Text) (issue : Option Issue) (e : RunningEntry) (o : Orchestrator)
        → has j o.state.running ≡ true
        → Within n o
        → Within n (refresh_snapshot j issue e o)
    unfolding refresh_snapshot
    refresh_snapshot-Within j none e o p h = h
    refresh_snapshot-Within j (some issue) e o p h = record {
      count = rw (length-put_old j _ o.state.running p) h.count;
      limit = h.limit;
    }

    apply_decision-Within :
        (d : ReconcileDecision) (o : Orchestrator) → Within n o → Within n (apply_decision w d o)
    unfolding apply_decision
    apply_decision-Within d o h = elim (Option-cases (get d.issue_id o.state.running)) [
      | inl e ↦ rw (e, apply_decision) h
      | inr (entry, e) ↦
          rw (e, apply_decision)
            (if-Within (not (terminates d.action)) _ _
              (refresh_snapshot-Within d.issue_id d.issue entry o (has_of_get d.issue_id o.state e)
                h)
              (terminate_running_issue-Within d.issue_id _ d.reason false _ o h))
    ]

    apply_decisions-Within :
        (ds : List ReconcileDecision) (o : Orchestrator)
        → Within n o
        → Within n (apply_decisions w ds o)
    unfolding apply_decisions
    apply_decisions-Within [] o h = h
    apply_decisions-Within (d ∷ ds) o h = apply_decisions-Within ds _ (apply_decision-Within d o h)

    apply_refresh-Within :
        (ids : List Text) (r : Option (List Issue)) (o : Orchestrator)
        → Within n o
        → Within n (apply_refresh w ids r o)
    unfolding apply_refresh
    apply_refresh-Within ids none o h = h
    apply_refresh-Within ids (some issues) o h = apply_decisions-Within _ o h

    refresh_running-Within :
        (ids : List Text) (o : Orchestrator) → Within n o → Within n (refresh_running w ids o)
    unfolding refresh_running
    refresh_running-Within [] o h = h
    refresh_running-Within (k ∷ ids) o h =
        apply_refresh-Within (k ∷ ids) _ _ (pause-Within w.at_refresh o h)

    pub free_slot :
        (o : Orchestrator)
        → leb (available_slots o.state o.config) 0 ≡ false
        → Within n o
        → length o.state.running < n
    unfolding available_slots
    free_slot o e h = ground arith

    dispatch_candidates-Within :
        (issues : List Issue) (o : Orchestrator)
        → Within n o
        → Within n (dispatch_candidates w issues o)
    unfolding dispatch_candidates
    dispatch_candidates-Within [] o h = h
    dispatch_candidates-Within (issue ∷ rest) o h =
        elim (Bool-cases (leb (available_slots o.state o.config) 0)) [
          | inl e ↦ rw e h
          | inr e ↦ rw e (
              if-Within (has issue.id o.state.running || member issue.id o.state.claimed) _ _
                (dispatch_candidates-Within rest o h)
                (if-Within (should_dispatch issue o.state o.config) _ _
                  (dispatch_candidates-Within rest _
                    (dispatch_issue-Within issue none o (free_slot o e h) h))
                  (dispatch_candidates-Within rest o h)))
        ]

    dispatch_fetched-Within :
        (r : Option (List Issue)) (o : Orchestrator)
        → Within n o
        → Within n (dispatch_fetched w r o)
    unfolding dispatch_fetched
    dispatch_fetched-Within none o h = h
    dispatch_fetched-Within (some issues) o h = dispatch_candidates-Within _ o h

    reconcile_running_issues-Within :
        (o : Orchestrator) → Within n o → Within n (reconcile_running_issues w o)
    unfolding reconcile_running_issues reconcile_stalled_runs
    reconcile_running_issues-Within o h = refresh_running-Within _ _ (apply_stalls-Within _ o h)

    pub run_tick-Within : (o : Orchestrator) → Within n o → Within n (run_tick w o)
    unfolding run_tick
    run_tick-Within o h =
        let o₁ = reconcile_running_issues w o in
        let h₁ = reconcile_running_issues-Within o h in
        if-Within o₁.closing o₁ _ h₁ (
          if-Within (not (w.validates o₁.config)) o₁ _ h₁
            (dispatch_fetched-Within _ _ (pause-Within w.at_fetch o₁ h₁)))
