-- ===== src/Samples/Postponed.antt =====
-- Tests of retries that are put off.
use symphony_python.Prelude.{◌≡◌, refl, true, false, none, some, [], ◌∷◌}
use symphony_python.Text.{codes, text_eq, strip, lower}
use symphony_python.Dict.{get, has, put, member}
use symphony_python.Models.{normalize_state, has_labels, running_count}
use symphony_python.Config.{is_active, is_terminal, folded}
use symphony_python.Scheduling.{issue_routable, available_slots}
use symphony_python.Orchestrator.State.{Orchestrator, World, emit}
use symphony_python.Orchestrator.Claims.{start_worker, hold_running, cancel_retry, drop_retry}
use symphony_python.Orchestrator.Handlers.{
  find_issue, retry_dispatch_allowed, has_slot_for, fire_retry,
}
use symphony_python.Orchestrator.Loop.{init}
use symphony_python.Orchestrator.Postponed.{put_off, fire_retry-failed, fire_retry-no_slot}
use symphony_python.Samples.Data.{config, world, issue_a, issue_b, entry_a}

abbrev broken : World
broken = record world { fetch_by_ids = λ ids. none }

abbrev idle : Orchestrator
idle = init config

idle_live : idle.closing ≡ false
unfolding init
idle_live = refl

fire_retry-failed_example :
    get (codes "a") (fire_retry broken (codes "a") entry_a idle).state.retry_attempts
    ≡ some (put_off broken (codes "a") entry_a idle none (codes "retry refresh failed"))
fire_retry-failed_example = fire_retry-failed broken (codes "a") entry_a idle idle_live refl refl

-- One agent is allowed, and one runs.
abbrev full : Orchestrator
full = start_worker world issue_b none (init (record config { max_concurrent_agents = 1 }))

full_live : full.closing ≡ false
unfolding init start_worker emit hold_running cancel_retry drop_retry get
full_live = refl

found_a : find_issue (codes "a") (issue_a ∷ []) ≡ some issue_a
unfolding find_issue text_eq
found_a = refl

not_terminal : is_terminal full.config issue_a.state ≡ false
unfolding init start_worker emit hold_running cancel_retry drop_retry get is_terminal folded
    normalize_state strip lower member text_eq
not_terminal = refl

allowed_a : retry_dispatch_allowed issue_a full ≡ true
unfolding init start_worker emit hold_running cancel_retry drop_retry get put has
    retry_dispatch_allowed issue_routable has_labels is_active is_terminal folded normalize_state
    strip lower member text_eq
allowed_a = refl

no_slot : has_slot_for issue_a full ≡ false
unfolding init start_worker emit hold_running cancel_retry drop_retry get put has_slot_for
    available_slots running_count
no_slot = refl

fire_retry-no_slot_example :
    get (codes "a") (fire_retry world (codes "a") entry_a full).state.retry_attempts
    ≡ some (
        put_off world
          (codes "a")
          entry_a
          full
          (some (codes "a"))
          (codes "no available orchestrator slots"))
fire_retry-no_slot_example =
    fire_retry-no_slot world (codes "a") entry_a full (issue_a ∷ []) issue_a full_live refl refl
      found_a not_terminal allowed_a no_slot
