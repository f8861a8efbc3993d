-- ===== src/Orchestrator/Commands.antt =====
-- The commands other than ticks keep the claim invariant.
use symphony_python.Prelude.{
  ◌≡◌, refl, sym, ◌∙◌, subst, inl, inr, false, not, Option, none, some, List, [], ◌∷◌, arith, ◌==◌,
  Option-cases,
}
use symphony_python.Text.{Text, text_eq_iff}
use symphony_python.Dict.{get, has, has-get}
use symphony_python.Models.{Issue, RunPhase, RetryEntry, RunningEntry}
use symphony_python.Config.{ServiceConfig, is_terminal}
use symphony_python.Orchestrator.State.{Orchestrator, World, emit}
use symphony_python.Orchestrator.Claims.{release_claim}
use symphony_python.Orchestrator.Handlers.{
  WorkerExit, finish_worker, handle_worker_exit, retry_dispatch_allowed, has_slot_for, find_issue,
  retry_with, retry_fetched, fire_retry, handle_retry_timer, handle_phase_update,
  handle_apply_config, install,
}
use symphony_python.Orchestrator.Tokens.{AgentEvent, PayloadReaders}
use symphony_python.Orchestrator.Updates.{handle_agent_update}
use symphony_python.Orchestrator.Shape.{state-cancel_timer, closing-cancel_timer}
use symphony_python.Orchestrator.Preserved.{Ok-put, has_of_get, arm_tick_timer-Inv}
use symphony_python.Orchestrator.Invariant.{
  Inv, if-Inv, Freed, schedule_retry-Inv, release_claim-Inv, dispatch_issue-Inv, pause-Freed,
  cleanup_workspace-Freed, freed, freed_running, forgotten, popped,
}

module _ (w : World) where
  finish_worker-Inv :
      (c : WorkerExit) (e : RunningEntry) (o : Orchestrator) → Inv o → Inv (finish_worker w c e o)
  unfolding finish_worker emit
  finish_worker-Inv c e o h =
      if-Inv c.normal _ _
        (schedule_retry-Inv w c.issue_id _ _ _ _ _ (freed w c.issue_id e o.closing o.state h)
          (freed_running w c.issue_id e o.state))
        (schedule_retry-Inv w c.issue_id _ _ _ _ _ (freed w c.issue_id e o.closing o.state h)
          (freed_running w c.issue_id e o.state))

  pub handle_worker_exit-Inv :
      (c : WorkerExit) (o : Orchestrator) → Inv o → Inv (handle_worker_exit w c o)
  unfolding handle_worker_exit
  handle_worker_exit-Inv c o h = elim (Option-cases (get c.issue_id o.state.running)) [
    | inl e ↦ rw (e, handle_worker_exit) h
    | inr (entry, e) ↦
        rw (e, handle_worker_exit)
          (if-Inv (entry.worker_handle == c.task) _ _ (finish_worker-Inv c entry o h) h)
  ]

  -- The issue that a retry is about has been popped: it is neither running nor queued.
  retry_with-Inv :
      (j : Text) (entry : RetryEntry) (r : Option Issue) (o : Orchestrator)
      → Freed j o
      → ((issue : Issue) → r ≡ some issue → issue.id ≡ j)
      → Inv (retry_with w j entry r o)
  unfolding retry_with
  retry_with-Inv j entry none o f same k = release_claim-Inv j o f.0 f.1 k
  retry_with-Inv j entry (some issue) o f same k =
      let released : Inv (release_claim j o) = release_claim-Inv j o f.0 f.1 in
      let f' = subst (λ i. Freed i o) (sym (same issue refl)) f in
      let g = cleanup_workspace-Freed w issue.identifier j o f in
      if-Inv (is_terminal o.config issue.state) _ _ (release_claim-Inv j _ g.0 g.1)
        (if-Inv (not (retry_dispatch_allowed issue o)) _ _ released (
          if-Inv (not (has_slot_for issue o)) _ _ (schedule_retry-Inv w j _ _ _ _ o f.0 f.1)
            (dispatch_issue-Inv w issue _ o f'.0 f'.1)))
        k

  find_issue-id :
      (j : Text) (issues : List Issue) (issue : Issue)
      → find_issue j issues ≡ some issue
      → issue.id ≡ j
  unfolding find_issue
  find_issue-id j [] issue h = cc
  find_issue-id j (i ∷ rest) issue h =
      ground (arith, text_eq_iff i.id j, find_issue-id j rest issue)

  retry_fetched-Inv :
      (j : Text) (entry : RetryEntry) (r : Option (List Issue)) (o : Orchestrator)
      → Freed j o
      → Inv (retry_fetched w j entry r o)
  unfolding retry_fetched
  retry_fetched-Inv j entry none o f k = schedule_retry-Inv w j _ _ _ _ o f.0 f.1 k
  retry_fetched-Inv j entry (some issues) o f k =
      retry_with-Inv j entry _ o f (find_issue-id j issues) k

  fire_retry-Inv :
      (j : Text) (entry : RetryEntry) (o : Orchestrator)
      → Freed j o
      → has j o.state.retry_attempts ≡ false
      → Inv (fire_retry w j entry o)
  unfolding fire_retry emit
  fire_retry-Inv j entry o f q =
      if-Inv o.closing _ _ (forgotten j o.closing o.state f.0 f.1 q)
        (retry_fetched-Inv j entry _ _ (pause-Freed w.at_fetch j o f))

  pub handle_retry_timer-Inv :
      (j : Text) (o : Orchestrator) → Inv o → Inv (handle_retry_timer w j o)
  unfolding handle_retry_timer
  handle_retry_timer-Inv j o h = elim (Option-cases (get j o.state.retry_attempts)) [
    | inl e ↦ rw (e, handle_retry_timer) h
    | inr (entry, e) ↦
        let f = popped j o.closing o.state h (has-get j o.state.retry_attempts ∙ rw e) in
        rw (e, handle_retry_timer)
          (fire_retry-Inv j entry _
            (
              (λ k n. rw (state-cancel_timer, closing-cancel_timer) (f.0 k n)),
              rw state-cancel_timer (f.1),
            )
            (rw state-cancel_timer (f.2)))
  ]

pub handle_phase_update-Inv :
    (j : Text) (phase : RunPhase) (error : Option Text) (o : Orchestrator)
    → Inv o
    → Inv (handle_phase_update j phase error o)
unfolding handle_phase_update
handle_phase_update-Inv j phase error o h = elim (Option-cases (get j o.state.running)) [
  | inl e ↦ rw (e, handle_phase_update) h
  | inr (entry, e) ↦
      rw (e, handle_phase_update)
        (λ k. Ok-put j _ o.closing o.state (has_of_get j o.state e) k (h k))
]

pub handle_agent_update-Inv :
    (readers : PayloadReaders) (w : World) (j : Text) (event : AgentEvent) (o : Orchestrator)
    → Inv o
    → Inv (handle_agent_update readers w j event o)
unfolding handle_agent_update
handle_agent_update-Inv readers w j event o h = elim (Option-cases (get j o.state.running)) [
  | inl e ↦ rw (e, handle_agent_update) h
  | inr (entry, e) ↦
      rw (e, handle_agent_update)
        (λ k. Ok-put j _ o.closing o.state (has_of_get j o.state e) k (h k))
]

pub handle_apply_config-Inv :
    (cfg : ServiceConfig) (o : Orchestrator) → Inv o → Inv (handle_apply_config cfg o)
unfolding handle_apply_config install emit
handle_apply_config-Inv cfg o h = if-Inv _ _ _ (arm_tick_timer-Inv _ _ h) h
