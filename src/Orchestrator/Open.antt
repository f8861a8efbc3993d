-- ===== src/Orchestrator/Open.antt =====
-- The dispatch path never closes the service.
use symphony_python.Prelude.{
  ℕ, ◌≡◌, refl, ◌∙◌, Bool, true, false, not, ◌&&◌, ◌||◌, Option, none, List, [], ◌∷◌, leb,
  if◌then◌else◌,
}
use symphony_python.Text.{Text}
use symphony_python.Dict.{has, member}
use symphony_python.Models.{Issue}
use symphony_python.Scheduling.{available_slots, should_dispatch}
use symphony_python.Orchestrator.State.{Orchestrator, World, emit, arm_timer}
use symphony_python.Orchestrator.Claims.{
  cancel_retry, queue_retry, schedule_retry, start_worker, dispatch_issue,
}
use symphony_python.Orchestrator.Tick.{dispatch_candidates, arm_tick_timer, handle_tick, run_tick}
use symphony_python.Orchestrator.Shape.{closing-cancel_timer, closing-cancel_retry}

closing-if :
    (b : Bool) (x y : Orchestrator) (c : Bool)
    → x.closing ≡ c
    → y.closing ≡ c
    → (if b then x else y).closing ≡ c
closing-if true x y c p q = p
closing-if false x y c p q = q

closing-arm_tick_timer :
    (delay_ms : ℕ) (o : Orchestrator) → (arm_tick_timer delay_ms o).closing ≡ o.closing
unfolding arm_tick_timer arm_timer emit
closing-arm_tick_timer delay_ms o = closing-cancel_timer o.tick_handle o

module _ (w : World) where
  closing-schedule_retry :
      (k : Text) (attempt : ℕ) (identifier error : Option Text) (delay : Option ℕ)
      (o : Orchestrator)
      → (schedule_retry w k attempt identifier error delay o).closing ≡ o.closing
  unfolding schedule_retry queue_retry arm_timer emit
  closing-schedule_retry k attempt identifier error delay o =
      closing-if (cancel_retry k o).closing _ _ o.closing (closing-cancel_retry k o)
        (closing-cancel_retry k o)

  closing-dispatch_issue :
      (issue : Issue) (attempt : Option ℕ) (o : Orchestrator)
      → (dispatch_issue w issue attempt o).closing ≡ o.closing
  unfolding dispatch_issue start_worker emit
  closing-dispatch_issue issue attempt o =
      closing-if (has issue.id o.state.running) _ _ o.closing refl (
        closing-if (w.spawn_fails issue) _ _ o.closing (closing-schedule_retry issue.id _ _ _ _ o)
          (closing-cancel_retry issue.id _))

  pub closing-dispatch_candidates :
      (issues : List Issue) (o : Orchestrator)
      → (dispatch_candidates w issues o).closing ≡ o.closing
  unfolding dispatch_candidates
  closing-dispatch_candidates [] o = refl
  closing-dispatch_candidates (issue ∷ issues) o =
      let skipped = closing-dispatch_candidates issues o in
      closing-if (leb (available_slots o.state o.config) 0) _ _ o.closing refl (
        closing-if (has issue.id o.state.running || member issue.id o.state.claimed) _ _ o.closing
          skipped
          (closing-if (should_dispatch issue o.state o.config) _ _ o.closing
            (closing-dispatch_candidates issues _ ∙ closing-dispatch_issue issue none o) skipped))

  pub closing-handle_tick :
      (reschedule : Bool) (o : Orchestrator)
      → (handle_tick w reschedule o).closing ≡ (run_tick w o).closing
  unfolding handle_tick emit
  closing-handle_tick reschedule o =
      closing-if (reschedule && not (run_tick w o).closing) _ _ _ (closing-arm_tick_timer _ _) refl
