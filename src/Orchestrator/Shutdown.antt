-- ===== src/Orchestrator/Shutdown.antt =====
-- `stop()` while a handler waits for the tracker.
use mathlib.Core.List.{append_assoc}
use symphony_python.Prelude.{
  ℕ, suc, ◌≡◌, refl, ap, ◌∙◌, true, false, Option, none, some, [], ◌∷◌, ◌++◌, not, if_true,
  if_false,
}
use symphony_python.Text.{text_eq_refl}
use symphony_python.Dict.{get, has}
use symphony_python.Models.{Issue, RetryEntry}
use symphony_python.Config.{is_terminal}
use symphony_python.Orchestrator.State.{
  Orchestrator, World, stopping, spawned, notified, emit, cancel_timer,
}
use symphony_python.Orchestrator.Stop.{stop_now, pause}
use symphony_python.Orchestrator.Claims.{
  timer_of, cancel_retry, hold_running, with_state, drop_retry, dispatch_issue, start_worker,
  new_entry,
}
use symphony_python.Orchestrator.Handlers.{
  fire_retry, retry_fetched, retry_with, find_issue, retry_dispatch_allowed, has_slot_for,
}
use symphony_python.Orchestrator.Exits.{get-start_worker}
use symphony_python.Orchestrator.Shape.{state-stop_now, closing-stop_now, closing-cancel_retry}

-- A handler that a retry timer started waits for the tracker, and `stop()` runs in the meantime.
module _ (w : World) (entry : RetryEntry) (issue : Issue) (o : Orchestrator) where
  pause_stopping : pause stopping o ≡ stop_now o
  unfolding pause
  pause_stopping = refl

  effects_started :
      (attempt : Option ℕ) (p : Orchestrator)
      → get issue.id p.state.retry_attempts ≡ none
      → (start_worker w issue attempt p).effects
        ≡ p.effects ++ spawned p.next_handle issue attempt ∷ []
  unfolding start_worker emit hold_running cancel_retry
  effects_started attempt p e =
      ap
        (λ r.
          (cancel_timer (timer_of r) (
            with_state (drop_retry issue.id) (
              with_state (hold_running issue.id (new_entry w issue attempt p.next_handle)) (
                emit (spawned p.next_handle issue attempt)
                  (record p { next_handle = suc p.next_handle }))))).effects)
        e

  no_retry : get issue.id (stop_now o).state.retry_attempts ≡ none
  unfolding get
  no_retry = ap (λ x. get issue.id x.retry_attempts) (state-stop_now o)

  closing_started :
      (attempt : Option ℕ) (p : Orchestrator) → (start_worker w issue attempt p).closing ≡ p.closing
  unfolding start_worker emit
  closing_started attempt p = rw closing-cancel_retry

  -- A retry whose issue may run again comes to a dispatch.
  retry_with-dispatch :
      (p : Orchestrator)
      → is_terminal p.config issue.state ≡ false
      → retry_dispatch_allowed issue p ≡ true
      → has_slot_for issue p ≡ true
      → retry_with w issue.id entry (some issue) p ≡ dispatch_issue w issue (some entry.attempt) p
  unfolding retry_with
  retry_with-dispatch p t r s =
      if_false _ _ _ t ∙ if_false _ _ _ (ap not r) ∙ if_false _ _ _ (ap not s)

  dispatch_issue-start :
      (attempt : Option ℕ) (p : Orchestrator)
      → has issue.id p.state.running ≡ false
      → w.spawn_fails issue ≡ false
      → dispatch_issue w issue attempt p ≡ start_worker w issue attempt p
  unfolding dispatch_issue
  dispatch_issue-start attempt p n g = if_false _ _ _ n ∙ if_false _ _ _ g

  fetched_issue :
      (p : Orchestrator)
      → retry_fetched w issue.id entry (some (issue ∷ [])) p
        ≡ retry_with w issue.id entry (some issue) p
  unfolding retry_fetched find_issue
  fetched_issue p =
      ap (λ r. retry_with w issue.id entry r p) (if_true _ _ _ (text_eq_refl issue.id))

  fire_retry-open :
      o.closing ≡ false
      → fire_retry w issue.id entry o
        ≡ emit notified
            (retry_fetched w issue.id entry (w.fetch_by_ids (issue.id ∷ [])) (pause w.at_fetch o))
  unfolding fire_retry
  fire_retry-open c = if_false _ _ _ c

  late_worker : Orchestrator
  late_worker = start_worker w issue (some entry.attempt) (stop_now o)

  fire_retry-late :
      o.closing ≡ false
      → w.at_fetch ≡ stopping
      → w.fetch_by_ids (issue.id ∷ []) ≡ some (issue ∷ [])
      → is_terminal (stop_now o).config issue.state ≡ false
      → retry_dispatch_allowed issue (stop_now o) ≡ true
      → has_slot_for issue (stop_now o) ≡ true
      → has issue.id o.state.running ≡ false
      → w.spawn_fails issue ≡ false
      → fire_retry w issue.id entry o ≡ emit notified late_worker
  unfolding late_worker
  fire_retry-late c a f t r s n g =
      fire_retry-open c
      ∙ ap (λ q. emit notified (retry_fetched w issue.id entry (w.fetch_by_ids (issue.id ∷ [])) q))
          (ap (λ x. pause x o) a ∙ pause_stopping)
      ∙ ap (λ x. emit notified (retry_fetched w issue.id entry x (stop_now o))) f
      ∙ ap (emit notified) (
          fetched_issue (stop_now o)
          ∙ retry_with-dispatch (stop_now o) t r s
          ∙ dispatch_issue-start (some entry.attempt) (stop_now o)
              (ap (λ x. has issue.id x.running) (state-stop_now o) ∙ n) g)

  -- Where `stop()` runs while the retry of an issue that does not run waits for the tracker, and the
  -- answer is the issue itself, not terminal, dispatchable and with a free slot, and the spawn does
  -- not raise, the handler still starts a worker: the orchestrator is closing, and behind all that
  -- `stop()` did comes the spawn of a task that is recorded as running, and no cancellation.
  pub fire_retry-stopping :
      o.closing ≡ false
      → w.at_fetch ≡ stopping
      → w.fetch_by_ids (issue.id ∷ []) ≡ some (issue ∷ [])
      → is_terminal (stop_now o).config issue.state ≡ false
      → retry_dispatch_allowed issue (stop_now o) ≡ true
      → has_slot_for issue (stop_now o) ≡ true
      → has issue.id o.state.running ≡ false
      → w.spawn_fails issue ≡ false
      → let o' = fire_retry w issue.id entry o in
        (o'.closing ≡ true)
        × (get issue.id o'.state.running
            ≡ some (new_entry w issue (some entry.attempt) (stop_now o).next_handle))
        × (o'.effects
            ≡ (stop_now o).effects
              ++ spawned (stop_now o).next_handle issue (some entry.attempt) ∷ notified ∷ [])
  unfolding emit late_worker
  fire_retry-stopping c a f t r s n g =
      let same = fire_retry-late c a f t r s n g in
      (
        ap (λ p. p.closing) same
            ∙ closing_started (some entry.attempt) (stop_now o)
            ∙ closing-stop_now o,
        ap (λ p. get issue.id p.state.running) same
            ∙ get-start_worker w issue (some entry.attempt) (stop_now o),
        ap (λ p. p.effects) same
            ∙ ap (λ e. e ++ notified ∷ [])
                (effects_started (some entry.attempt) (stop_now o) no_retry)
            ∙ append_assoc (stop_now o).effects _ _,
      )
