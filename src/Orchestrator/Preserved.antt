-- ===== src/Orchestrator/Preserved.antt =====
-- Reconciliation and ticks keep the claim invariant.
use symphony_python.Prelude.{
  ℕ, ◌≡◌, ◌∙◌, inl, inr, Bool, true, false, not, Option, none, some, List, [], ◌∷◌, arith, leb,
  Bool-cases, Option-cases,
}
use symphony_python.Text.{Text, text_eq_refl, text_eq_iff}
use symphony_python.Dict.{get, has, has-get, put, member, has-put, has-remove}
use symphony_python.Models.{Issue, RunningEntry, OrchestratorState}
use symphony_python.Scheduling.{should_dispatch, available_slots}
use symphony_python.Reconcile.{StallDecision, ReconcileDecision, terminates}
use symphony_python.Orchestrator.State.{Orchestrator, World, emit, arm_timer}
use symphony_python.Orchestrator.Tick.{
  apply_stall, apply_stalls, reconcile_stalled_runs, refresh_snapshot, apply_decision,
  apply_decisions, apply_refresh, refresh_running, reconcile_running_issues, dispatch_candidates,
  dispatch_fetched, run_tick, arm_tick_timer, handle_tick,
}
use symphony_python.Orchestrator.Shape.{
  state-cancel_timer, closing-cancel_timer, terminate_running_issue_keeps,
}
use symphony_python.Orchestrator.Invariant.{
  Ok, Inv, if-Inv, pause-Inv, schedule_retry-Inv, dispatch_issue-Inv, terminate_running_issue-Inv,
}

-- Overwriting a running entry moves no issue.
pub Ok-put :
    (j : Text) (e : RunningEntry) (closing : Bool) (s : OrchestratorState)
    → has j s.running ≡ true
    → (k : Text) → Ok closing s k
    → Ok closing (record s { running = put j e s.running }) k
Ok-put j e closing s p k h = simp has-put (ground (arith, text_eq_iff j k))

pub has_of_get :
    {e : RunningEntry} (j : Text) (s : OrchestratorState)
    → get j s.running ≡ some e
    → has j s.running ≡ true
has_of_get j s h = has-get j s.running ∙ rw h

module _ (w : World) where
  apply_stall-Inv : (d : StallDecision) (o : Orchestrator) → Inv o → Inv (apply_stall w d o)
  unfolding apply_stall
  apply_stall-Inv d o h = elim (Bool-cases (has d.issue_id o.state.running)) [
    | inl e ↦ rw e (
        schedule_retry-Inv w d.issue_id _ _ _ _ _
          (λ k _. terminate_running_issue-Inv w d.issue_id false d.reason false _ o h k)
          (rw ((terminate_running_issue_keeps w d.issue_id false d.reason false _ o).0)
            (simp has-remove (ground (arith, text_eq_refl d.issue_id)))))
    | inr e ↦ rw e h
  ]

  apply_stalls-Inv :
      (ds : List StallDecision) (o : Orchestrator) → Inv o → Inv (apply_stalls w ds o)
  unfolding apply_stalls
  apply_stalls-Inv [] o h = h
  apply_stalls-Inv (d ∷ ds) o h = apply_stalls-Inv ds _ (apply_stall-Inv d o h)

  refresh_snapshot-Inv :
      (j : Text) (issue : Option Issue) (e : RunningEntry) (o : Orchestrator)
      → has j o.state.running ≡ true
      → Inv o
      → Inv (refresh_snapshot j issue e o)
  unfolding refresh_snapshot
  refresh_snapshot-Inv j none e o p h k = h k
  refresh_snapshot-Inv j (some issue) e o p h k = Ok-put j _ o.closing o.state p k (h k)

  apply_decision-Inv :
      (d : ReconcileDecision) (o : Orchestrator) → Inv o → Inv (apply_decision w d o)
  unfolding apply_decision
  apply_decision-Inv d o h = elim (Option-cases (get d.issue_id o.state.running)) [
    | inl e ↦ rw (e, apply_decision) h
    | inr (entry, e) ↦
        rw (e, apply_decision)
          (elim (Bool-cases (terminates d.action)) [
            | inl t ↦ rw t (terminate_running_issue-Inv w d.issue_id _ d.reason false _ o h)
            | inr t ↦ rw t (
                refresh_snapshot-Inv d.issue_id d.issue entry o (has_of_get d.issue_id o.state e) h)
          ])
  ]

  apply_decisions-Inv :
      (ds : List ReconcileDecision) (o : Orchestrator) → Inv o → Inv (apply_decisions w ds o)
  unfolding apply_decisions
  apply_decisions-Inv [] o h = h
  apply_decisions-Inv (d ∷ ds) o h = apply_decisions-Inv ds _ (apply_decision-Inv d o h)

  apply_refresh-Inv :
      (ids : List Text) (r : Option (List Issue)) (o : Orchestrator)
      → Inv o
      → Inv (apply_refresh w ids r o)
  unfolding apply_refresh
  apply_refresh-Inv ids none o h = h
  apply_refresh-Inv ids (some issues) o h = apply_decisions-Inv _ o h

  refresh_running-Inv : (ids : List Text) (o : Orchestrator) → Inv o → Inv (refresh_running w ids o)
  unfolding refresh_running
  refresh_running-Inv [] o h = h
  refresh_running-Inv (k ∷ ids) o h = apply_refresh-Inv (k ∷ ids) _ _ (pause-Inv w.at_refresh o h)

  -- Reconciliation, whatever the tracker answers, keeps the invariant.
  pub reconcile_running_issues-Inv : (o : Orchestrator) → Inv o → Inv (reconcile_running_issues w o)
  unfolding reconcile_running_issues reconcile_stalled_runs
  reconcile_running_issues-Inv o h = refresh_running-Inv _ _ (apply_stalls-Inv _ o h)

  dispatch_candidates-Inv :
      (issues : List Issue) (o : Orchestrator) → Inv o → Inv (dispatch_candidates w issues o)
  unfolding dispatch_candidates
  dispatch_candidates-Inv [] o h = h
  dispatch_candidates-Inv (issue ∷ rest) o h =
      elim (Bool-cases (leb (available_slots o.state o.config) 0)) [
        | inl e ↦ rw e h
        | inr e ↦ elim (Bool-cases (has issue.id o.state.running)) [
          | inl r ↦ rw (e, r) (dispatch_candidates-Inv rest o h)
          | inr r ↦ elim (Bool-cases (member issue.id o.state.claimed)) [
            | inl c ↦ rw (e, r, c) (dispatch_candidates-Inv rest o h)
            | inr c ↦ elim (Bool-cases (should_dispatch issue o.state o.config)) [
              | inl d ↦
                  rw (e, r, c, d)
                    (dispatch_candidates-Inv rest _
                      (dispatch_issue-Inv w issue none o (λ k _. h k) r))
              | inr d ↦ rw (e, r, c, d) (dispatch_candidates-Inv rest o h)
            ]
          ]
        ]
      ]

  dispatch_fetched-Inv :
      (r : Option (List Issue)) (o : Orchestrator) → Inv o → Inv (dispatch_fetched w r o)
  unfolding dispatch_fetched
  dispatch_fetched-Inv none o h k = h k
  dispatch_fetched-Inv (some issues) o h k = dispatch_candidates-Inv _ o h k

  run_tick-Inv : (o : Orchestrator) → Inv o → Inv (run_tick w o)
  unfolding run_tick
  run_tick-Inv o h =
      let o₁ = reconcile_running_issues w o in
      let h₁ = reconcile_running_issues-Inv o h in
      if-Inv o₁.closing o₁ _ h₁ (
        if-Inv (not (w.validates o₁.config)) o₁ _ h₁
          (dispatch_fetched-Inv _ _ (pause-Inv w.at_fetch o₁ h₁)))

pub arm_tick_timer-Inv : (delay : ℕ) (o : Orchestrator) → Inv o → Inv (arm_tick_timer delay o)
unfolding arm_tick_timer arm_timer emit
arm_tick_timer-Inv delay o h k = rw (state-cancel_timer, closing-cancel_timer) (h k)

-- A tick keeps the invariant, wherever `stop()` may cut in.
pub handle_tick-Inv :
    (w : World) (reschedule : Bool) (o : Orchestrator) → Inv o → Inv (handle_tick w reschedule o)
unfolding handle_tick emit
handle_tick-Inv w reschedule o h =
    if-Inv _ _ _ (arm_tick_timer-Inv _ _ (run_tick-Inv w o h)) (run_tick-Inv w o h)
