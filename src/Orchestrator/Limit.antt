-- ===== src/Orchestrator/Limit.antt =====
-- The global concurrency limit, command by command.
use native.Mathlib.Nat.{le_trans}
use symphony_python.Prelude.{
  ℕ, ◌≤◌, ◌<◌, ◌≡◌, inl, inr, Bool, true, not, ◌&&◌, Option, none, some, List, [], ◌∷◌, arith,
  length, ◌==◌, Bool-cases, Option-cases,
}
use symphony_python.Text.{Text}
use symphony_python.Dict.{get, length-put_old, length-remove-le}
use symphony_python.Models.{Issue, RunPhase, RetryEntry, RunningEntry, running_count}
use symphony_python.Config.{ServiceConfig, is_terminal}
use symphony_python.Scheduling.{available_slots}
use symphony_python.Orchestrator.State.{
  Orchestrator, World, Effect, notified, emit, arm_timer, add_runtime_seconds,
}
use symphony_python.Orchestrator.Claims.{drop_running, drop_retry, discard_claim}
use symphony_python.Orchestrator.Tick.{run_tick, arm_tick_timer, handle_tick}
use symphony_python.Orchestrator.Handlers.{
  is_armed, install, handle_phase_update, handle_apply_config, WorkerExit, finish_worker,
  handle_worker_exit, retry_dispatch_allowed, has_slot_for, retry_with, retry_fetched, fire_retry,
  handle_retry_timer,
}
use symphony_python.Orchestrator.Shape.{state-cancel_timer, config-cancel_timer}
use symphony_python.Orchestrator.Preserved.{has_of_get}
use symphony_python.Orchestrator.Slots.{
  Within, if-Within, pause-Within, schedule_retry-Within, release_claim-Within,
  cleanup_workspace-Within, dispatch_issue-Within, run_tick-Within,
}
use symphony_python.Orchestrator.Updates.{handle_agent_update}
use symphony_python.Orchestrator.Tokens.{AgentEvent, PayloadReaders}
use symphony_python.Orchestrator.Loop.{
  Command, tick, worker_exit, retry_fired, agent_update, phase_update, apply_config, handle,
  mailbox_loop, init,
}

module _ (n : ℕ) (w : World) where
  emitted : (e : Effect) (o : Orchestrator) → Within n o → Within n (emit e o)
  unfolding emit
  emitted e o h = record { count = h.count; limit = h.limit }

  arm_tick_timer-Within :
      (delay : ℕ) (o : Orchestrator) → Within n o → Within n (arm_tick_timer delay o)
  unfolding arm_tick_timer arm_timer emit
  arm_tick_timer-Within delay o h = record {
    count = rw state-cancel_timer h.count;
    limit = rw config-cancel_timer h.limit;
  }

  pub handle_tick-Within :
      (reschedule : Bool) (o : Orchestrator) → Within n o → Within n (handle_tick w reschedule o)
  unfolding handle_tick emit
  handle_tick-Within reschedule o h =
      let o₁ = emit notified (run_tick w o) in
      let h₁ = run_tick-Within n w o h in
      if-Within n (reschedule && not o₁.closing) _ _
        (arm_tick_timer-Within o₁.state.poll_interval_ms o₁ (emitted notified _ h₁))
        (emitted notified _ h₁)

  finish_worker-Within :
      (c : WorkerExit) (e : RunningEntry) (o : Orchestrator)
      → Within n o
      → Within n (finish_worker w c e o)
  unfolding finish_worker add_runtime_seconds drop_running
  finish_worker-Within c e o h =
      let fewer = le_trans (length-remove-le c.issue_id o.state.running) h.count in
      if-Within n c.normal _ _
        (emitted notified _ (
          schedule_retry-Within n w c.issue_id _ _ _ _ _
            (emitted _ _ (record { count = fewer; limit = h.limit }))))
        (emitted notified _ (
          schedule_retry-Within n w c.issue_id _ _ _ _ _
            (emitted _ _ (record { count = fewer; limit = h.limit }))))

  pub handle_worker_exit-Within :
      (c : WorkerExit) (o : Orchestrator) → Within n o → Within n (handle_worker_exit w c o)
  unfolding handle_worker_exit
  handle_worker_exit-Within c o h = elim (Option-cases (get c.issue_id o.state.running)) [
    | inl e ↦ rw (e, handle_worker_exit) h
    | inr (entry, e) ↦
        rw (e, handle_worker_exit)
          (if-Within n (entry.worker_handle == c.task) _ _ (finish_worker-Within c entry o h) h)
  ]

  slot_free :
      (issue : Issue) (o : Orchestrator)
      → has_slot_for issue o ≡ true
      → Within n o
      → length o.state.running < n
  unfolding has_slot_for available_slots
  slot_free issue o e h = ground arith

  retry_with-Within :
      (j : Text) (entry : RetryEntry) (r : Option Issue) (o : Orchestrator)
      → Within n o
      → Within n (retry_with w j entry r o)
  unfolding retry_with
  retry_with-Within j entry none o h = release_claim-Within n w j o h
  retry_with-Within j entry (some issue) o h =
      if-Within n (is_terminal o.config issue.state) _ _
        (release_claim-Within n w j _ (cleanup_workspace-Within n w issue.identifier o h))
        (if-Within n (not (retry_dispatch_allowed issue o)) _ _ (release_claim-Within n w j o h)
          (elim (Bool-cases (has_slot_for issue o)) [
            | inl e ↦ rw e (dispatch_issue-Within n w issue _ o (slot_free issue o e h) h)
            | inr e ↦ rw e (schedule_retry-Within n w j _ _ _ _ o h)
          ]))

  retry_fetched-Within :
      (j : Text) (entry : RetryEntry) (r : Option (List Issue)) (o : Orchestrator)
      → Within n o
      → Within n (retry_fetched w j entry r o)
  unfolding retry_fetched
  retry_fetched-Within j entry none o h = schedule_retry-Within n w j _ _ _ _ o h
  retry_fetched-Within j entry (some issues) o h = retry_with-Within j entry _ o h

  fire_retry-Within :
      (j : Text) (entry : RetryEntry) (o : Orchestrator)
      → Within n o
      → Within n (fire_retry w j entry o)
  unfolding fire_retry discard_claim
  fire_retry-Within j entry o h =
      if-Within n o.closing _ _ (record { count = h.count; limit = h.limit })
        (emitted notified _ (retry_fetched-Within j entry _ _ (pause-Within n w.at_fetch o h)))

  pub handle_retry_timer-Within :
      (j : Text) (o : Orchestrator) → Within n o → Within n (handle_retry_timer w j o)
  unfolding handle_retry_timer drop_retry
  handle_retry_timer-Within j o h = elim (Option-cases (get j o.state.retry_attempts)) [
    | inl e ↦ rw (e, handle_retry_timer) h
    | inr (entry, e) ↦
        rw (e, handle_retry_timer)
          (fire_retry-Within j entry _ (record {
            count = rw state-cancel_timer h.count;
            limit = rw config-cancel_timer h.limit;
          }))
  ]

  handle_phase_update-Within :
      (j : Text) (phase : RunPhase) (error : Option Text) (o : Orchestrator)
      → Within n o
      → Within n (handle_phase_update j phase error o)
  unfolding handle_phase_update
  handle_phase_update-Within j phase error o h = elim (Option-cases (get j o.state.running)) [
    | inl e ↦ rw (e, handle_phase_update) h
    | inr (entry, e) ↦
        rw (e, handle_phase_update)
          (record {
            count = rw (length-put_old j _ o.state.running (has_of_get j o.state e)) h.count;
            limit = h.limit;
          })
  ]

  handle_agent_update-Within :
      (readers : PayloadReaders) (j : Text) (event : AgentEvent) (o : Orchestrator)
      → Within n o
      → Within n (handle_agent_update readers w j event o)
  unfolding handle_agent_update
  handle_agent_update-Within readers j event o h = elim (Option-cases (get j o.state.running)) [
    | inl e ↦ rw (e, handle_agent_update) h
    | inr (entry, e) ↦
        rw (e, handle_agent_update)
          (record {
            count = rw (length-put_old j _ o.state.running (has_of_get j o.state e)) h.count;
            limit = h.limit;
          })
  ]

  install-Within :
      (cfg : ServiceConfig) (o : Orchestrator)
      → cfg.max_concurrent_agents ≤ n
      → Within n o
      → Within n (install cfg o)
  unfolding install
  install-Within cfg o l h = record { count = h.count; limit = l }

  handle_apply_config-Within :
      (cfg : ServiceConfig) (o : Orchestrator)
      → cfg.max_concurrent_agents ≤ n
      → Within n o
      → Within n (handle_apply_config cfg o)
  unfolding handle_apply_config
  handle_apply_config-Within cfg o l h =
      let o₁ = install cfg o in
      let h₁ = install-Within cfg o l h in
      emitted notified _ (
        if-Within n (is_armed o₁.tick_handle && not o₁.closing) _ o₁
          (arm_tick_timer-Within o₁.state.poll_interval_ms o₁ h₁) h₁)

  -- A reload that the command carries allows no more than `n` agents.
  abbrev pub Allows : Command → Type 0
  Allows (apply_config cfg) = cfg.max_concurrent_agents ≤ n
  Allows _ = Unit

  handle-Within :
      (readers : PayloadReaders) (c : Command) (o : Orchestrator)
      → Allows c
      → Within n o
      → Within n (handle readers w c o)
  unfolding handle
  handle-Within readers (tick reschedule) o a h = handle_tick-Within reschedule o h
  handle-Within readers (worker_exit c) o a h = handle_worker_exit-Within c o h
  handle-Within readers (retry_fired j) o a h = handle_retry_timer-Within j o h
  handle-Within readers (agent_update j event) o a h =
      handle_agent_update-Within readers j event o h
  handle-Within readers (phase_update j phase error) o a h =
      handle_phase_update-Within j phase error o h
  handle-Within readers (apply_config cfg) o a h = handle_apply_config-Within cfg o a h

-- Every reload of the history allows at most `n` agents.
abbrev pub AllAllow : ℕ → List (World × Command) → Type 0
AllAllow n [] = Unit
AllAllow n ((w, c) ∷ cs) = Allows n w c × AllAllow n cs

mailbox_loop-Within :
    (n : ℕ) (readers : PayloadReaders) (cs : List (World × Command)) (o : Orchestrator)
    → AllAllow n cs
    → Within n o
    → Within n (mailbox_loop readers cs o)
unfolding mailbox_loop
mailbox_loop-Within n readers [] o a h = h
mailbox_loop-Within n readers ((w, c) ∷ cs) o a h =
    mailbox_loop-Within n readers cs _ a.1 (handle-Within n w readers c o a.0 h)

-- If neither the configuration at the start nor any reloaded one allows more than `n` agents, then
-- after any history at most `n` issues run.
pub running_count-mailbox_loop :
    (n : ℕ) (readers : PayloadReaders) (cfg : ServiceConfig) (cs : List (World × Command))
    → cfg.max_concurrent_agents ≤ n
    → AllAllow n cs
    → running_count (mailbox_loop readers cs (init cfg)).state ≤ n
unfolding running_count init
running_count-mailbox_loop n readers cfg cs l a =
    (mailbox_loop-Within n readers cs (init cfg) a
      (record { count = omega arith; limit = l })).count
