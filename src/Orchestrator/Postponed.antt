-- ===== src/Orchestrator/Postponed.antt =====
-- Retries that are put off: the refresh failed, or there is no slot.
use symphony_python.Prelude.{
  ℕ, ◌+◌, ◌*◌, ◌^◌, min, ◌≡◌, ap, ◌∙◌, true, false, not, Option, none, some, List, [], ◌∷◌, if_true,
  if_false,
}
use symphony_python.Text.{Text, codes}
use symphony_python.Dict.{get}
use symphony_python.Models.{Issue, RetryEntry}
use symphony_python.Config.{is_terminal}
use symphony_python.Orchestrator.State.{Orchestrator, World, quiet, emit}
use symphony_python.Orchestrator.Stop.{pause}
use symphony_python.Orchestrator.Claims.{schedule_retry}
use symphony_python.Orchestrator.Handlers.{
  find_issue, retry_dispatch_allowed, has_slot_for, retry_with, retry_fetched, fire_retry,
}
use symphony_python.Orchestrator.Exits.{queued_entry, schedule_retry-get, backoff_after}

module _ (w : World) (k : Text) (entry : RetryEntry) (o : Orchestrator) where
  -- The retry entry with one more attempt, which waits 10 seconds doubled for each attempt before
  abbrev pub put_off : Option Text → Text → RetryEntry
  put_off identifier error =
      queued_entry w k (entry.attempt + 1) identifier (some error)
        (min (10000 * 2 ^ entry.attempt) o.config.max_retry_backoff_ms) o.next_handle

  scheduled_again :
      (identifier : Option Text) (error : Text)
      → o.closing ≡ false
      → get k
          (schedule_retry w k
            (entry.attempt + 1)
            identifier
            (some error)
            none
            o).state.retry_attempts
        ≡ some (put_off identifier error)
  scheduled_again identifier error c =
      schedule_retry-get w k (entry.attempt + 1) identifier (some error) none o c
      ∙ ap
          (λ (d : ℕ).
            some (queued_entry w k (entry.attempt + 1) identifier (some error) d o.next_handle))
          (backoff_after w entry.attempt o.config.max_retry_backoff_ms)

  fire_retry-quiet :
      o.closing ≡ false
      → w.at_fetch ≡ quiet
      → (fire_retry w k entry o).state ≡ (retry_fetched w k entry (w.fetch_by_ids (k ∷ [])) o).state
  unfolding fire_retry emit pause
  fire_retry-quiet c a =
      ap (λ (p : Orchestrator). p.state) (if_false _ _ _ c)
      ∙ ap (λ x. (retry_fetched w k entry (w.fetch_by_ids (k ∷ [])) (pause x o)).state) a

  -- While the service is not closing, a retry whose refresh fails stays queued with one more attempt
  -- and the longer delay.
  pub fire_retry-failed :
      o.closing ≡ false
      → w.at_fetch ≡ quiet
      → w.fetch_by_ids (k ∷ []) ≡ none
      → get k (fire_retry w k entry o).state.retry_attempts
        ≡ some (put_off entry.identifier (codes "retry refresh failed"))
  unfolding retry_fetched
  fire_retry-failed c a f =
      ap (λ s. get k s.retry_attempts) (fire_retry-quiet c a)
      ∙ ap (λ r. get k (retry_fetched w k entry r o).state.retry_attempts) f
      ∙ scheduled_again entry.identifier (codes "retry refresh failed") c

  -- While the service is not closing, a retry of an issue that is not terminal and may be dispatched,
  -- but finds no free slot, stays queued with one more attempt and the longer delay.
  pub fire_retry-no_slot :
      (issues : List Issue) (issue : Issue)
      → o.closing ≡ false
      → w.at_fetch ≡ quiet
      → w.fetch_by_ids (k ∷ []) ≡ some issues
      → find_issue k issues ≡ some issue
      → is_terminal o.config issue.state ≡ false
      → retry_dispatch_allowed issue o ≡ true
      → has_slot_for issue o ≡ false
      → get k (fire_retry w k entry o).state.retry_attempts
        ≡ some (put_off (some issue.identifier) (codes "no available orchestrator slots"))
  unfolding retry_fetched retry_with
  fire_retry-no_slot issues issue c a f found live allowed full =
      ap (λ s. get k s.retry_attempts) (fire_retry-quiet c a)
      ∙ ap (λ r. get k (retry_fetched w k entry r o).state.retry_attempts) f
      ∙ ap (λ r. get k (retry_with w k entry r o).state.retry_attempts) found
      ∙ ap (λ (p : Orchestrator). get k p.state.retry_attempts)
          (if_false _ _ _ live ∙ if_false _ _ _ (ap not allowed) ∙ if_true _ _ _ (ap not full))
      ∙ scheduled_again (some issue.identifier) (codes "no available orchestrator slots") c
