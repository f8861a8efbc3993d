-- ===== src/Orchestrator/Exits.antt =====
-- Worker exits: what they leave, and that those of former workers change nothing.
use symphony_python.Prelude.{
  ℕ, ◌+◌, ◌*◌, ◌^◌, ◌<◌, min, ℤ, ◌≡◌, refl, ap, ◌∙◌, inl, inr, Bool, false, Option, none, some,
  ◌++◌, arith, ◌==◌, ==_iff, Bool-cases, if_true, if_false, if◌then◌else◌,
}
use symphony_python.Text.{Text, text_eq_refl, codes}
use symphony_python.Dict.{get, remove, get-put, get-remove, dict_laws}
use symphony_python.Models.{Issue, RunPhase, RetryEntry, RunningEntry}
use symphony_python.Config.{ServiceConfig, get_or}
use symphony_python.Retry.{backoff_delay_ms, continuation_delay_ms}
use symphony_python.Retry.Backoff.{backoff_delay_ms_lem}
use symphony_python.Orchestrator.State.{
  Orchestrator, World, emit, normalize_attempt, next_attempt, arm_timer, cancel_timer,
  add_runtime_seconds,
}
use symphony_python.Orchestrator.Claims.{
  schedule_retry, queue_retry, hold_retry, cancel_retry, drop_retry, drop_running, timer_of,
  terminate_running_issue, start_worker, hold_running, new_entry,
}
use symphony_python.Orchestrator.Handlers.{WorkerExit, handle_worker_exit, finish_worker}
use symphony_python.Orchestrator.Shape.{
  state-cancel_retry, closing-cancel_retry, config-cancel_retry, schedule_retry_keeps,
  terminate_running_issue_keeps,
}

next_handle-cancel_timer :
    (h : Option ℕ) (o : Orchestrator) → (cancel_timer h o).next_handle ≡ o.next_handle
unfolding emit
next_handle-cancel_timer none o = refl
next_handle-cancel_timer (some h) o = refl

next_handle-cancel_retry :
    (k : Text) (o : Orchestrator) → (cancel_retry k o).next_handle ≡ o.next_handle
unfolding cancel_retry
next_handle-cancel_retry k o = next_handle-cancel_timer (timer_of (get k o.state.retry_attempts)) _

other_task : (n task : ℕ) → task < n → (n == task) ≡ false
other_task n task l = ground arith

module _ (w : World) where
  -- The retry entry of an issue after `schedule_retry`
  abbrev pub queued_entry : Text → ℕ → Option Text → Option Text → ℕ → ℕ → RetryEntry
  queued_entry k attempt identifier error delay_ms handle = record {
    issue_id = k;
    identifier = identifier;
    attempt = attempt;
    due_at_ms = w.monotonic_ms + delay_ms;
    timer_handle = some handle;
    error = error;
  }

  pub schedule_retry-get :
      (k : Text) (attempt : ℕ) (identifier error : Option Text) (delay : Option ℕ)
      (o : Orchestrator)
      → o.closing ≡ false
      → get k (schedule_retry w k attempt identifier error delay o).state.retry_attempts
        ≡ some (
            queued_entry k attempt identifier error
              (get_or delay
                (backoff_delay_ms (ℤ.pos attempt) (ℤ.pos o.config.max_retry_backoff_ms)))
              o.next_handle)
  unfolding schedule_retry queue_retry hold_retry arm_timer emit
  schedule_retry-get k attempt identifier error delay o c =
      let p = cancel_retry k o in
      let delay_of : ℕ → ℕ = λ cap. get_or delay (backoff_delay_ms (ℤ.pos attempt) (ℤ.pos cap)) in
      ap (λ (q : Orchestrator). get k q.state.retry_attempts)
        (if_false _ _ _ (closing-cancel_retry k o ∙ c))
      ∙ get-put k k
          (queued_entry k attempt identifier error (delay_of p.config.max_retry_backoff_ms)
            p.next_handle)
          p.state.retry_attempts
      ∙ if_true _ _ _ (text_eq_refl k)
      ∙ ap
          (λ (cfg : ServiceConfig). some (
            queued_entry k attempt identifier error (delay_of cfg.max_retry_backoff_ms)
              p.next_handle))
          (config-cancel_retry k o)
      ∙ ap
          (λ h.
            some
              (queued_entry k attempt identifier error (delay_of o.config.max_retry_backoff_ms) h))
          (next_handle-cancel_retry k o)

  pub get-start_worker :
      (issue : Issue) (attempt : Option ℕ) (o : Orchestrator)
      → get issue.id (start_worker w issue attempt o).state.running
        ≡ some (new_entry w issue attempt o.next_handle)
  unfolding start_worker emit hold_running drop_retry
  get-start_worker issue attempt o =
      rw state-cancel_retry (simp dict_laws (ground (arith, text_eq_refl issue.id)))

  -- The exit of a worker whose run was terminated, or had ended before that, changes nothing.
  pub handle_worker_exit-terminate_running_issue :
      (now : World) (c : WorkerExit) (cleanup : Bool) (reason : Text) (retry : Bool)
      (phase : RunPhase) (o : Orchestrator)
      → let o' = terminate_running_issue w c.issue_id cleanup reason retry phase o in
        handle_worker_exit now c o' ≡ o'
  unfolding handle_worker_exit
  handle_worker_exit-terminate_running_issue now c cleanup reason retry phase o =
      let gone : get c.issue_id
            (terminate_running_issue w c.issue_id cleanup reason retry phase o).state.running
          ≡ none =
        ap (get c.issue_id)
          (terminate_running_issue_keeps w c.issue_id cleanup reason retry phase o).0
        ∙ get-remove c.issue_id c.issue_id _
        ∙ if_true _ _ _ (text_eq_refl c.issue_id) in
      rw (gone, handle_worker_exit) refl

  -- After a new worker has started for an issue, the exit of any task older than it changes nothing.
  pub handle_worker_exit-start_worker :
      (now : World) (c : WorkerExit) (issue : Issue) (attempt : Option ℕ) (o : Orchestrator)
      → c.issue_id ≡ issue.id
      → c.task < o.next_handle
      → let o' = start_worker w issue attempt o in handle_worker_exit now c o' ≡ o'
  unfolding handle_worker_exit
  handle_worker_exit-start_worker now c issue attempt o same older =
      let found =
        ap (λ (i : Text). get i (start_worker w issue attempt o).state.running) same
        ∙ get-start_worker issue attempt o in
      rw (found, handle_worker_exit) (if_false _ _ _ (other_task o.next_handle c.task older))

  -- The failures that came before, as an entry counts them
  abbrev failures : RunningEntry → ℕ
  failures entry = get_or (normalize_attempt entry.retry_attempt) 0

  -- The retry that the exit of a worker leaves: a clean one comes again in a second, another one
  -- counts a further failure and waits 10 seconds, doubled for each failure before, up to the cap.
  unfoldable pub retry_after : WorkerExit → RunningEntry → Orchestrator → RetryEntry
  retry_after c entry o =
      if c.normal
      then queued_entry c.issue_id 1 (some entry.identifier) none 1000 o.next_handle
      else queued_entry c.issue_id (failures entry + 1) (some entry.identifier)
          (some (codes "worker exited: " ++ c.reason))
          (min (10000 * 2 ^ failures entry) o.config.max_retry_backoff_ms) o.next_handle

  pub backoff_after :
      (n cap : ℕ) → backoff_delay_ms (ℤ.pos (n + 1)) (ℤ.pos cap) ≡ min (10000 * 2 ^ n) cap
  backoff_after n cap =
      backoff_delay_ms_lem (ℤ.pos (n + 1)) (ℤ.pos cap)
      ∙ ap (λ i. min (10000 * 2 ^ i) cap) (omega arith)

  finish_worker-get :
      (c : WorkerExit) (entry : RunningEntry) (o : Orchestrator)
      → o.closing ≡ false
      → get c.issue_id (finish_worker w c entry o).state.retry_attempts
        ≡ some (retry_after c entry o)
  unfolding finish_worker emit retry_after next_attempt
  finish_worker-get c entry o running_on = elim (Bool-cases c.normal) [
    | inl e ↦ rw e (schedule_retry-get c.issue_id 1 _ _ (some continuation_delay_ms) _ running_on)
    | inr e ↦ rw e (
        schedule_retry-get c.issue_id (failures entry + 1) _ _ none _ running_on
        ∙ ap
            (λ (d : ℕ). some (
              queued_entry c.issue_id (failures entry + 1) (some entry.identifier)
                (some (codes "worker exited: " ++ c.reason)) d o.next_handle))
            (backoff_after (failures entry) o.config.max_retry_backoff_ms))
  ]

  running-finish_worker :
      (c : WorkerExit) (entry : RunningEntry) (o : Orchestrator)
      → (finish_worker w c entry o).state.running ≡ remove c.issue_id o.state.running
  unfolding finish_worker emit drop_running add_runtime_seconds
  running-finish_worker c entry o = elim (Bool-cases c.normal) [
    | inl e ↦ rw e (schedule_retry_keeps w c.issue_id _ _ _ _ _).0
    | inr e ↦ rw e (schedule_retry_keeps w c.issue_id _ _ _ _ _).0
  ]

  -- Unless the service is closing, the exit of the worker that an issue runs with takes the issue
  -- out of the running ones and leaves the retry that `retry_after` describes, in place of any other.
  pub handle_worker_exit-retry :
      (c : WorkerExit) (entry : RunningEntry) (o : Orchestrator)
      → o.closing ≡ false
      → get c.issue_id o.state.running ≡ some entry
      → entry.worker_handle ≡ c.task
      → let o' = handle_worker_exit w c o in
        (get c.issue_id o'.state.running ≡ none)
        × (get c.issue_id o'.state.retry_attempts ≡ some (retry_after c entry o))
  unfolding handle_worker_exit
  handle_worker_exit-retry c entry o running_on found own =
      let here : handle_worker_exit w c o ≡ finish_worker w c entry o =
        rw (found, handle_worker_exit)
          (if_true _ _ _ ((==_iff entry.worker_handle c.task).1 own)) in
      (
        ap (λ (p : Orchestrator). get c.issue_id p.state.running) here
            ∙ ap (get c.issue_id) (running-finish_worker c entry o)
            ∙ get-remove c.issue_id c.issue_id o.state.running
            ∙ if_true _ _ _ (text_eq_refl c.issue_id),
        ap (λ (p : Orchestrator). get c.issue_id p.state.retry_attempts) here
            ∙ finish_worker-get c entry o running_on,
      )
