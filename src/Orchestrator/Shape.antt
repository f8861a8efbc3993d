-- ===== src/Orchestrator/Shape.antt =====
-- What the operations of the orchestrator do to its fields: effects do not touch the state.
use symphony_python.Prelude.{
  ℕ, ◌≡◌, refl, sym, ap, ◌∙◌, inl, inr, Bool-cases, Option-cases, Bool, true, false, Option, none,
  some, [], ◌∷◌, if◌then◌else◌,
}
use symphony_python.Text.{Text, truthy}
use symphony_python.Dict.{Dict, get, remove, remove-absent, has-get}
use symphony_python.Models.{RunPhase, RetryEntry, RunningEntry, OrchestratorState}
use symphony_python.Orchestrator.Stop.{stop_now, pause, cancel_retry_timers, cancel_workers}
use symphony_python.Orchestrator.State.{
  add_runtime_seconds, Pause, quiet, stopping, Orchestrator, World, emit, arm_timer, cancel_timer,
}
use symphony_python.Orchestrator.Claims.{
  cleanup_workspace, terminate_entry, terminate_running_issue, drop_running, hold_retry, drop_retry,
  discard_claim, timer_of, cancel_retry, queue_retry, release_claim, schedule_retry,
}

pub state-cancel_timer : (h : Option ℕ) (o : Orchestrator) → (cancel_timer h o).state ≡ o.state
unfolding emit
state-cancel_timer none o = refl
state-cancel_timer (some h) o = refl

pub closing-cancel_timer :
    (h : Option ℕ) (o : Orchestrator) → (cancel_timer h o).closing ≡ o.closing
unfolding emit
closing-cancel_timer none o = refl
closing-cancel_timer (some h) o = refl

pub config-cancel_timer : (h : Option ℕ) (o : Orchestrator) → (cancel_timer h o).config ≡ o.config
unfolding emit
config-cancel_timer none o = refl
config-cancel_timer (some h) o = refl

pub state-cancel_retry :
    (k : Text) (o : Orchestrator) → (cancel_retry k o).state ≡ drop_retry k o.state
unfolding cancel_retry
state-cancel_retry k o = state-cancel_timer (timer_of (get k o.state.retry_attempts)) _

pub closing-cancel_retry : (k : Text) (o : Orchestrator) → (cancel_retry k o).closing ≡ o.closing
unfolding cancel_retry
closing-cancel_retry k o = closing-cancel_timer (timer_of (get k o.state.retry_attempts)) _

pub running-cancel_retry :
    (k : Text) (o : Orchestrator) → (cancel_retry k o).state.running ≡ o.state.running
unfolding drop_retry
running-cancel_retry k o = ap (λ s. s.running) (state-cancel_retry k o)

pub config-cancel_retry : (k : Text) (o : Orchestrator) → (cancel_retry k o).config ≡ o.config
unfolding cancel_retry
config-cancel_retry k o = config-cancel_timer (timer_of (get k o.state.retry_attempts)) _

state-cancel_retry_timers :
    (d : Dict RetryEntry) (o : Orchestrator) → (cancel_retry_timers d o).state ≡ o.state
unfolding cancel_retry_timers
state-cancel_retry_timers [] o = refl
state-cancel_retry_timers ((k, e) ∷ d) o =
    state-cancel_retry_timers d (cancel_timer e.timer_handle o)
    ∙ state-cancel_timer e.timer_handle o

closing-cancel_retry_timers :
    (d : Dict RetryEntry) (o : Orchestrator) → (cancel_retry_timers d o).closing ≡ o.closing
unfolding cancel_retry_timers
closing-cancel_retry_timers [] o = refl
closing-cancel_retry_timers ((k, e) ∷ d) o =
    closing-cancel_retry_timers d (cancel_timer e.timer_handle o)
    ∙ closing-cancel_timer e.timer_handle o

state-cancel_workers :
    (d : Dict RunningEntry) (o : Orchestrator) → (cancel_workers d o).state ≡ o.state
unfolding cancel_workers emit
state-cancel_workers [] o = refl
state-cancel_workers ((k, e) ∷ d) o = state-cancel_workers d _

closing-cancel_workers :
    (d : Dict RunningEntry) (o : Orchestrator) → (cancel_workers d o).closing ≡ o.closing
unfolding cancel_workers emit
closing-cancel_workers [] o = refl
closing-cancel_workers ((k, e) ∷ d) o = closing-cancel_workers d _

abbrev cleared : OrchestratorState → OrchestratorState
cleared s = record s { retry_attempts = [] }

pub state-stop_now :
    (o : Orchestrator) → (stop_now o).state ≡ record o.state { retry_attempts = [] }
unfolding stop_now
state-stop_now o =
    state-cancel_workers _ _
    ∙ ap cleared (state-cancel_retry_timers _ _ ∙ state-cancel_timer o.tick_handle _)

pub closing-stop_now : (o : Orchestrator) → (stop_now o).closing ≡ true
unfolding stop_now
closing-stop_now o =
    closing-cancel_workers _ _
    ∙ closing-cancel_retry_timers _ _
    ∙ closing-cancel_timer o.tick_handle _

pub running-pause : (p : Pause) (o : Orchestrator) → (pause p o).state.running ≡ o.state.running
unfolding pause
running-pause quiet o = refl
running-pause stopping o = ap (λ s. s.running) (state-stop_now o)

config-cancel_retry_timers :
    (d : Dict RetryEntry) (o : Orchestrator) → (cancel_retry_timers d o).config ≡ o.config
unfolding cancel_retry_timers
config-cancel_retry_timers [] o = refl
config-cancel_retry_timers ((k, e) ∷ d) o =
    config-cancel_retry_timers d (cancel_timer e.timer_handle o)
    ∙ config-cancel_timer e.timer_handle o

config-cancel_workers :
    (d : Dict RunningEntry) (o : Orchestrator) → (cancel_workers d o).config ≡ o.config
unfolding cancel_workers emit
config-cancel_workers [] o = refl
config-cancel_workers ((k, e) ∷ d) o = config-cancel_workers d _

pub config-pause : (p : Pause) (o : Orchestrator) → (pause p o).config ≡ o.config
unfolding pause stop_now
config-pause quiet o = refl
config-pause stopping o =
    config-cancel_workers _ _ ∙ config-cancel_retry_timers _ _ ∙ config-cancel_timer o.tick_handle _

pub release_claim_keeps :
    (j : Text) (o : Orchestrator)
    → ((release_claim j o).state.running ≡ o.state.running)
      × ((release_claim j o).config ≡ o.config)
unfolding release_claim discard_claim
release_claim_keeps j o = (running-cancel_retry j _, config-cancel_retry j _)

module _ (w : World) where
  pub running-cleanup_workspace :
      (i : Text) (o : Orchestrator) → (cleanup_workspace w i o).state.running ≡ o.state.running
  unfolding cleanup_workspace emit
  running-cleanup_workspace i o = elim (Bool-cases (truthy i)) [
    | inl e ↦ rw e (running-pause (w.at_cleanup i) _)
    | inr e ↦ rw e
  ]

  pub config-cleanup_workspace :
      (i : Text) (o : Orchestrator) → (cleanup_workspace w i o).config ≡ o.config
  unfolding cleanup_workspace emit
  config-cleanup_workspace i o = elim (Bool-cases (truthy i)) [
    | inl e ↦ rw e (config-pause (w.at_cleanup i) _)
    | inr e ↦ rw e
  ]

  -- A retry changes neither the running entries nor the configuration.
  pub schedule_retry_keeps :
      (j : Text) (attempt : ℕ) (identifier error : Option Text) (delay : Option ℕ)
      (o : Orchestrator)
      → ((schedule_retry w j attempt identifier error delay o).state.running ≡ o.state.running)
        × ((schedule_retry w j attempt identifier error delay o).config ≡ o.config)
  unfolding schedule_retry queue_retry arm_timer emit hold_retry discard_claim
  schedule_retry_keeps j attempt identifier error delay o =
      elim (Bool-cases (cancel_retry j o).closing) [
        | inl e ↦ rw e (running-cancel_retry j o, config-cancel_retry j o)
        | inr e ↦ rw e (running-cancel_retry j o, config-cancel_retry j o)
      ]

  end_keeps :
      (retry : Bool) (j : Text) (attempt : ℕ) (identifier error : Option Text) (o : Orchestrator)
      → let p =
          if retry then schedule_retry w j attempt identifier error none o else release_claim j o in
        (p.state.running ≡ o.state.running) × (p.config ≡ o.config)
  end_keeps true j attempt identifier error o =
      schedule_retry_keeps j attempt identifier error none o
  end_keeps false j attempt identifier error o = release_claim_keeps j o

  maybe_keeps :
      (cleanup : Bool) (i : Text) (o : Orchestrator)
      → let p = if cleanup then cleanup_workspace w i o else o in
        (p.state.running ≡ o.state.running) × (p.config ≡ o.config)
  maybe_keeps true i o = (running-cleanup_workspace i o, config-cleanup_workspace i o)
  maybe_keeps false i o = (refl, refl)

  terminate_entry_keeps :
      (j : Text) (cleanup : Bool) (reason : Text) (retry : Bool) (phase : RunPhase)
      (entry : RunningEntry) (o : Orchestrator)
      → let p = terminate_entry w j cleanup reason retry phase entry o in
        (p.state.running ≡ remove j o.state.running) × (p.config ≡ o.config)
  unfolding terminate_entry emit add_runtime_seconds drop_running
  terminate_entry_keeps j cleanup reason retry phase entry o =
      let a = end_keeps retry j _ _ _ _ in
      let b = maybe_keeps cleanup entry.identifier _ in (a.0 ∙ b.0, a.1 ∙ b.1)

  -- Terminating an issue removes it from the running entries, and no other.
  pub terminate_running_issue_keeps :
      (j : Text) (cleanup : Bool) (reason : Text) (retry : Bool) (phase : RunPhase)
      (o : Orchestrator)
      → let p = terminate_running_issue w j cleanup reason retry phase o in
        (p.state.running ≡ remove j o.state.running) × (p.config ≡ o.config)
  unfolding terminate_running_issue
  terminate_running_issue_keeps j cleanup reason retry phase o =
      elim (Option-cases (get j o.state.running)) [
        | inl e ↦
            rw (e, terminate_running_issue)
              (sym (remove-absent j o.state.running (has-get j o.state.running ∙ rw e)), refl)
        | inr (entry, e) ↦
            rw (e, terminate_running_issue)
              (terminate_entry_keeps j cleanup reason retry phase entry o)
      ]
