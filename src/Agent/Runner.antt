-- ===== src/Agent/Runner.antt =====
-- `AgentRunner` of agent/runner.py: one attempt, with what it meets outside as a world and what it
-- does outside as a log of effects. Logging and the prompts' texts are left out.
use symphony_python.Prelude.{
  ℕ, zero, suc, Bool, not, ◌||◌, Option, none, some, List, [], ◌∷◌, ◌++◌, leb, if◌then◌else◌,
}
use symphony_python.Models.{Issue}
use symphony_python.Config.{ServiceConfig, is_active, is_terminal}
use symphony_python.Scheduling.{issue_routable}

-- `FAIL_REASONS` and `BREAK_REASONS`
pub data FailReason : Type 0 where
  workspace before_run session_startup prompt turn issue_refresh : FailReason

pub data BreakReason : Type 0 where
  issue_missing state_inactive not_routable max_turns : BreakReason

-- What an awaited call comes to. A cancellation is no `Exception`: only `except BaseException`
-- catches it.
pub data Outcome : Type 0 where
  passes raises cancelled : Outcome

-- What the refresh of the issue comes to
pub data Refresh : Type 0 where
  answered : List Issue → Refresh
  refused interrupted : Refresh

-- What one turn meets. The prompt is built without an await. The configuration is the one that the
-- runner has when the turn ends, since a reload can replace it while the turn runs.
pub record TurnWorld : Type 0 where
  pub prompt_fails : Bool
  pub turn : Outcome
  pub refreshed : Refresh
  pub config : ServiceConfig

-- What an attempt meets, with the cleanup calls `session.stop()` and the `after_run` hook
pub record AttemptWorld : Type 0 where
  pub workspace : Outcome
  pub before_run : Outcome
  pub startup : Outcome
  pub max_turns : ℕ
  pub turns : ℕ → TurnWorld
  pub stop : Outcome
  pub after_run : Outcome

-- The calls that an attempt makes; `session_stopped` and `after_run_hook` stand for the calls of
-- the cleanup, whatever they come to.
pub data Effect : Type 0 where
  workspace_created before_run_passed session_started session_stopped after_run_hook : Effect
  turn_run : ℕ → Effect
  issue_refreshed : ℕ → Effect

-- How the turn loop ends: a reason to break, an exception, a cancellation, or no fuel
pub data LoopEnd : Type 0 where
  broke : BreakReason → LoopEnd
  raised : FailReason → LoopEnd
  interrupted no_fuel : LoopEnd

-- The checks behind a refresh that returned an issue: a reason to break, if there is one
unfoldable pub break_reason : ServiceConfig → ℕ → ℕ → Issue → Option BreakReason
break_reason config most n issue =
    if not (is_active config issue.state) || is_terminal config issue.state
    then some BreakReason.state_inactive
    else if not (issue_routable issue config)
    then some BreakReason.not_routable
    else if leb most n
    then some BreakReason.max_turns
    else none

abbrev behind : List Effect → List Effect × LoopEnd → List Effect × LoopEnd
behind effects (later, result) = (effects ++ later, result)

abbrev pub continued : ℕ → Option BreakReason → List Effect × LoopEnd → List Effect × LoopEnd
continued n (some reason) later =
    (Effect.turn_run n ∷ Effect.issue_refreshed n ∷ [], LoopEnd.broke reason)
continued n none later = behind (Effect.turn_run n ∷ Effect.issue_refreshed n ∷ []) later

abbrev pub refreshed_turn :
    ServiceConfig → ℕ → ℕ → Refresh → List Effect × LoopEnd → List Effect × LoopEnd
refreshed_turn config most n Refresh.refused later =
    (Effect.turn_run n ∷ Effect.issue_refreshed n ∷ [], LoopEnd.raised FailReason.issue_refresh)
refreshed_turn config most n Refresh.interrupted later =
    (Effect.turn_run n ∷ Effect.issue_refreshed n ∷ [], LoopEnd.interrupted)
refreshed_turn config most n (Refresh.answered []) later =
    (Effect.turn_run n ∷ Effect.issue_refreshed n ∷ [], LoopEnd.broke BreakReason.issue_missing)
refreshed_turn config most n (Refresh.answered (issue ∷ issues)) later =
    continued n (break_reason config most n issue) later

-- The turn itself, and what follows it
abbrev pub ran_turn : Outcome → ℕ → List Effect × LoopEnd → List Effect × LoopEnd
ran_turn Outcome.passes n refreshed = refreshed
ran_turn Outcome.raises n refreshed = (Effect.turn_run n ∷ [], LoopEnd.raised FailReason.turn)
ran_turn Outcome.cancelled n refreshed = (Effect.turn_run n ∷ [], LoopEnd.interrupted)

-- One round of the turn loop
unfoldable pub run_turn : TurnWorld → ℕ → ℕ → List Effect × LoopEnd → List Effect × LoopEnd
run_turn world most n later =
    if world.prompt_fails
    then ([], LoopEnd.raised FailReason.prompt)
    else ran_turn world.turn n (refreshed_turn world.config most n world.refreshed later)

-- `_run_turn_loop`, from turn `n` on
unfoldable pub run_turn_loop : (ℕ → TurnWorld) → ℕ → ℕ → ℕ → List Effect × LoopEnd
run_turn_loop worlds most zero n = ([], LoopEnd.no_fuel)
run_turn_loop worlds most (suc fuel) n =
    run_turn (worlds n) most n (run_turn_loop worlds most fuel (suc n))

-- How an attempt ends: it raises, returns or is cancelled. `none` stands for a loop that has run
-- out of fuel.
pub data AttemptEnd : Type 0 where
  failed : FailReason → AttemptEnd
  completed : BreakReason → AttemptEnd
  interrupted : AttemptEnd

abbrev pub end_of : LoopEnd → Option AttemptEnd
end_of (LoopEnd.broke reason) = some (AttemptEnd.completed reason)
end_of (LoopEnd.raised reason) = some (AttemptEnd.failed reason)
end_of LoopEnd.interrupted = some AttemptEnd.interrupted
end_of LoopEnd.no_fuel = none

-- `_run_after_run`, and the end that it leaves: it swallows an exception, but no cancellation.
abbrev pub run_after_run : Outcome → Option AttemptEnd → List Effect × Option AttemptEnd
run_after_run Outcome.passes end = (Effect.after_run_hook ∷ [], end)
run_after_run Outcome.raises end = (Effect.after_run_hook ∷ [], end)
run_after_run Outcome.cancelled end = (Effect.after_run_hook ∷ [], some AttemptEnd.interrupted)

-- `_stop_session` with what follows it, which a cancellation skips
abbrev pub stop_session :
    Outcome → List Effect × Option AttemptEnd → List Effect × Option AttemptEnd
stop_session Outcome.passes (effects, end) = (Effect.session_stopped ∷ effects, end)
stop_session Outcome.raises (effects, end) = (Effect.session_stopped ∷ effects, end)
stop_session Outcome.cancelled (effects, end) =
    (Effect.session_stopped ∷ [], some AttemptEnd.interrupted)

abbrev pub after : List Effect → List Effect × Option AttemptEnd → List Effect × Option AttemptEnd
after before (effects, end) = (before ++ effects, end)

-- The cleanup behind the loop, whichever way it ends
abbrev pub closed : Outcome → Outcome → List Effect × LoopEnd → List Effect × Option AttemptEnd
closed stop after_run (effects, result) =
    after (Effect.workspace_created ∷ Effect.before_run_passed ∷ Effect.session_started ∷ effects)
      (stop_session stop (run_after_run after_run (end_of result)))

-- `client.start_session()`, where a cancellation is caught as well
abbrev pub started :
    Outcome → Outcome → List Effect × Option AttemptEnd → List Effect × Option AttemptEnd
started Outcome.passes after_run session = session
started Outcome.raises after_run session =
    after (Effect.workspace_created ∷ Effect.before_run_passed ∷ [])
      (run_after_run after_run (some (AttemptEnd.failed FailReason.session_startup)))
started Outcome.cancelled after_run session =
    after (Effect.workspace_created ∷ Effect.before_run_passed ∷ [])
      (run_after_run after_run (some AttemptEnd.interrupted))

-- The `before_run` hook, and what follows it
abbrev pub prepared : Outcome → List Effect × Option AttemptEnd → List Effect × Option AttemptEnd
prepared Outcome.passes later = later
prepared Outcome.raises later =
    (Effect.workspace_created ∷ [], some (AttemptEnd.failed FailReason.before_run))
prepared Outcome.cancelled later = (Effect.workspace_created ∷ [], some AttemptEnd.interrupted)

-- `create_for_issue`, and what follows it
abbrev pub with_workspace :
    Outcome → List Effect × Option AttemptEnd → List Effect × Option AttemptEnd
with_workspace Outcome.passes later = later
with_workspace Outcome.raises later = ([], some (AttemptEnd.failed FailReason.workspace))
with_workspace Outcome.cancelled later = ([], some AttemptEnd.interrupted)

-- `run_attempt`, with a unit of fuel for each turn
unfoldable pub run_attempt : AttemptWorld → List Effect × Option AttemptEnd
run_attempt world = with_workspace world.workspace (
    prepared world.before_run (
      started world.startup world.after_run (
        closed world.stop world.after_run
          (run_turn_loop world.turns world.max_turns (suc world.max_turns) 1))))
