-- ===== src/Samples/Orchestration.antt =====
-- Tests of the orchestrator.
use symphony_python.Prelude.{
  ◌≤◌, ◌*◌, ◌≡◌, refl, ◌∙◌, true, false, none, some, List, [], ◌∷◌, ◌++◌, arith, if◌then◌else◌,
  keep, ℤ,
}
use symphony_python.Text.{codes, text_eq, strip, lower}
use symphony_python.Dict.{get, has, keys, member, put, values}
use symphony_python.Models.{
  ClaimState, claim_state, running_count, running_count_for_state, has_labels, normalize_state,
}
use symphony_python.Config.{is_active, is_terminal, folded, slot_limit_for_state, agent_timeouts}
use symphony_python.Scheduling.{sort_for_dispatch, available_slots, has_state_slot, issue_routable}
use symphony_python.Reconcile.{
  stall_timeout_for, plan_stall_terminations, elapsed_for_entry, stalled_entries,
}
use symphony_python.Orchestrator.State.{Orchestrator, World, spawned, notified, emit}
use symphony_python.Orchestrator.Stop.{stop_now, pause, cancel_workers, cancel_retry_timers}
use symphony_python.Orchestrator.Claims.{
  new_entry, hold_running, drop_retry, cancel_retry, start_worker,
}
use symphony_python.Orchestrator.Tick.{
  run_tick, reconcile_running_issues, reconcile_stalled_runs, apply_stalls, refresh_running,
  dispatch_fetched,
}
use symphony_python.Orchestrator.Handlers.{fire_retry, retry_dispatch_allowed, has_slot_for}
use symphony_python.Orchestrator.Loop.{Command, tick, mailbox_loop, handle, init}
use symphony_python.Orchestrator.Open.{closing-dispatch_candidates, closing-handle_tick}
use symphony_python.Orchestrator.Invariant.{Inv}
use symphony_python.Orchestrator.History.{init-Inv, handle-Inv, claim_state-mailbox_loop}
use symphony_python.Orchestrator.Limit.{running_count-mailbox_loop}
use symphony_python.Orchestrator.Stalls.{reconcile_stalled_runs-get}
use symphony_python.Orchestrator.Shutdown.{fire_retry-stopping}
use symphony_python.Samples.Data.{config, world, stopping_world, readers, issue_a, entry_a}

-- The tracker has one candidate.
abbrev candidate : World
candidate = record world { fetch_by_states = λ states. some (issue_a ∷ []) }

abbrev first_tick : List (World × Command)
first_tick = (candidate, tick true) ∷ []

abbrev idle : Orchestrator
idle = init config

handle-Inv_example : Inv (handle readers world (tick true) idle)
handle-Inv_example = handle-Inv readers world (tick true) idle (init-Inv config)

running_count-mailbox_loop_example : running_count (mailbox_loop readers first_tick idle).state ≤ 2
running_count-mailbox_loop_example =
    running_count-mailbox_loop 2 readers config first_tick (omega arith) (tt, tt)

abbrev one_running : Orchestrator
one_running = start_worker world issue_a none idle

has_started :
    get (codes "a") (reconcile_stalled_runs world one_running).state.running
    ≡ some (new_entry world issue_a none 0)
unfolding init start_worker emit hold_running cancel_retry drop_retry get put text_eq
    reconcile_stalled_runs stall_timeout_for agent_timeouts plan_stall_terminations stalled_entries
    apply_stalls elapsed_for_entry
has_started = refl

has_slot : has_slot_for issue_a (stop_now idle) ≡ true
unfolding init stop_now has_slot_for available_slots has_state_slot cancel_workers
    cancel_retry_timers running_count_for_state slot_limit_for_state normalize_state strip lower get
    keep values
has_slot = refl

open_state : is_terminal (stop_now idle).config issue_a.state ≡ false
unfolding init stop_now is_terminal cancel_workers cancel_retry_timers folded normalize_state strip
    lower member text_eq
open_state = refl

may_dispatch : retry_dispatch_allowed issue_a (stop_now idle) ≡ true
unfolding init stop_now retry_dispatch_allowed issue_routable has is_terminal is_active
    cancel_workers cancel_retry_timers folded normalize_state strip lower member text_eq has_labels
may_dispatch = refl

not_running : has issue_a.id idle.state.running ≡ false
unfolding init has
not_running = refl

idle_open : idle.closing ≡ false
unfolding init
idle_open = refl

fire_retry-stopping_example :
    let o' = fire_retry stopping_world issue_a.id entry_a idle in
    (o'.closing ≡ true)
    × (get issue_a.id o'.state.running
        ≡ some
            (new_entry stopping_world issue_a (some entry_a.attempt) (stop_now idle).next_handle))
    × (o'.effects
        ≡ (stop_now idle).effects
          ++ spawned (stop_now idle).next_handle issue_a (some entry_a.attempt) ∷ notified ∷ [])
fire_retry-stopping_example =
    fire_retry-stopping stopping_world entry_a issue_a idle idle_open refl refl open_state
      may_dispatch has_slot not_running refl

stall_limit : stall_timeout_for one_running.config ≡ ℤ.pos 300000
unfolding init start_worker emit cancel_retry stall_timeout_for agent_timeouts get hold_running
stall_limit = refl

reconcile_stalled_runs-get_example :
    (get (codes "a") one_running.state.running ≡ some (new_entry world issue_a none 0))
    × (elapsed_for_entry (new_entry world issue_a none 0) world.now ≤ 300000 * 1000)
reconcile_stalled_runs-get_example =
    reconcile_stalled_runs-get world one_running (codes "a") (new_entry world issue_a none 0) 300000
      stall_limit (omega arith) has_started

still_open : (mailbox_loop readers first_tick idle).closing ≡ false
unfolding mailbox_loop handle run_tick reconcile_running_issues reconcile_stalled_runs
    stall_timeout_for agent_timeouts plan_stall_terminations stalled_entries apply_stalls init keys
    refresh_running emit pause dispatch_fetched
still_open =
    closing-handle_tick candidate true idle
    ∙ closing-dispatch_candidates candidate (sort_for_dispatch (issue_a ∷ [])) idle

claim_state-mailbox_loop_example :
    claim_state (mailbox_loop readers first_tick idle).state (codes "a") ≡ (
      if member (codes "a") (mailbox_loop readers first_tick idle).state.claimed
      then if has (codes "a") (mailbox_loop readers first_tick idle).state.running
        then ClaimState.running
        else ClaimState.retry_queued
      else ClaimState.unclaimed)
claim_state-mailbox_loop_example =
    claim_state-mailbox_loop readers config first_tick (codes "a") still_open
