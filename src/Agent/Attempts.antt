-- ===== src/Agent/Attempts.antt =====
-- What an attempt of agent/runner.py does, and that it ends.
use symphony_python.Prelude.{
  ℕ, suc, ◌≤◌, ◌-◌, ◌≡◌, refl, ap, ◌∙◌, Bool, true, false, Option, some, List, [], ◌∷◌, ◌++◌, All,
  arith, if◌then◌else◌,
}
use symphony_python.Agent.Runner.{
  FailReason, Outcome, TurnWorld, AttemptWorld, Effect, LoopEnd, AttemptEnd, run_turn_loop,
  run_after_run, stop_session, after, closed, started, prepared, with_workspace, end_of,
  run_attempt,
}
use symphony_python.Agent.Turns.{
  turns, IsRunning, IsInterrupted, HasEnded, IsTurn, IsFine, run_turn_loop-IsFine,
}

-- The cleanup that `EXIT_PATHS` lists for a reason, in its order
unfoldable pub exit_path : FailReason → List Effect
exit_path FailReason.workspace = []
exit_path FailReason.before_run = []
exit_path FailReason.session_startup = Effect.after_run_hook ∷ []
exit_path _ = Effect.session_stopped ∷ Effect.after_run_hook ∷ []

-- What the work of an attempt has got to
unfoldable pub has_session : List Effect → Bool
has_session [] = false
has_session (Effect.session_started ∷ effects) = true
has_session (e ∷ effects) = has_session effects

unfoldable pub has_prepared : List Effect → Bool
has_prepared [] = false
has_prepared (Effect.before_run_passed ∷ effects) = true
has_prepared (e ∷ effects) = has_prepared effects

abbrev unless_cancelled : Outcome → List Effect → List Effect
unless_cancelled Outcome.cancelled effects = []
unless_cancelled _ effects = effects

-- The cleanup behind some work, where the stop of the session comes to `stop`
unfoldable pub cleanup_of : Outcome → List Effect → List Effect
cleanup_of stop before =
    if has_session before
    then Effect.session_stopped ∷ unless_cancelled stop (Effect.after_run_hook ∷ [])
    else if has_prepared before
    then Effect.after_run_hook ∷ []
    else []

-- A call for which the world has a cancellation
pub data Cancels (world : AttemptWorld) : Type 0 where
  in_workspace : world.workspace ≡ Outcome.cancelled → Cancels world
  in_before_run : world.before_run ≡ Outcome.cancelled → Cancels world
  in_startup : world.startup ≡ Outcome.cancelled → Cancels world
  in_turn : (n : ℕ) → IsInterrupted (world.turns n) → Cancels world
  in_stop : world.stop ≡ Outcome.cancelled → Cancels world
  in_after_run : world.after_run ≡ Outcome.cancelled → Cancels world

-- An end and the cleanup that goes with it; `C` is what a cancelled attempt has met.
abbrev pub Matches : Type 0 → AttemptEnd → List Effect → Type 0
Matches C (AttemptEnd.failed reason) cleanup = cleanup ≡ exit_path reason
Matches C (AttemptEnd.completed reason) cleanup =
    cleanup ≡ Effect.session_stopped ∷ Effect.after_run_hook ∷ []
Matches C AttemptEnd.interrupted cleanup = C

-- An attempt that has ended: what it did before its cleanup, with at most `m` turns
abbrev pub EndsBy : Type 0 → Outcome → ℕ → List Effect × Option AttemptEnd → Type 0
EndsBy C stop m (effects, result) =
    (end : AttemptEnd) × (before : List Effect) × (result ≡ some end)
    × (effects ≡ before ++ cleanup_of stop before)
    × All IsRunning before
    × (turns before ≤ m)
    × Matches C end (cleanup_of stop before)

abbrev pub Ends : AttemptWorld → Type 0
Ends world = EndsBy (Cancels world) world.stop (suc (world.max_turns - 1)) (run_attempt world)

IsTurn-IsRunning : (effects : List Effect) → All IsTurn effects → All IsRunning effects
IsTurn-IsRunning [] h = tt
IsTurn-IsRunning (Effect.turn_run n ∷ effects) (h, hs) = (tt, IsTurn-IsRunning effects hs)
IsTurn-IsRunning (Effect.issue_refreshed n ∷ effects) (h, hs) = (tt, IsTurn-IsRunning effects hs)
IsTurn-IsRunning (Effect.workspace_created ∷ effects) (h, hs) = elim h [ ]
IsTurn-IsRunning (Effect.before_run_passed ∷ effects) (h, hs) = elim h [ ]
IsTurn-IsRunning (Effect.session_started ∷ effects) (h, hs) = elim h [ ]
IsTurn-IsRunning (Effect.session_stopped ∷ effects) (h, hs) = elim h [ ]
IsTurn-IsRunning (Effect.after_run_hook ∷ effects) (h, hs) = elim h [ ]

end_of-Matches :
    (C : Type 0) (worlds : ℕ → TurnWorld) (result : LoopEnd)
    → ((n : ℕ) → IsInterrupted (worlds n) → C)
    → HasEnded worlds result
    → (end : AttemptEnd) × (end_of result ≡ some end)
      × Matches C end (Effect.session_stopped ∷ Effect.after_run_hook ∷ [])
unfolding exit_path
end_of-Matches C worlds (LoopEnd.broke reason) met h = (AttemptEnd.completed reason, refl, refl)
end_of-Matches C worlds (LoopEnd.raised FailReason.prompt) met h =
    (AttemptEnd.failed FailReason.prompt, refl, refl)
end_of-Matches C worlds (LoopEnd.raised FailReason.turn) met h =
    (AttemptEnd.failed FailReason.turn, refl, refl)
end_of-Matches C worlds (LoopEnd.raised FailReason.issue_refresh) met h =
    (AttemptEnd.failed FailReason.issue_refresh, refl, refl)
end_of-Matches C worlds (LoopEnd.raised FailReason.workspace) met h = elim h [ ]
end_of-Matches C worlds (LoopEnd.raised FailReason.before_run) met h = elim h [ ]
end_of-Matches C worlds (LoopEnd.raised FailReason.session_startup) met h = elim h [ ]
end_of-Matches C worlds LoopEnd.interrupted met (n, h) = (AttemptEnd.interrupted, refl, met n h)
end_of-Matches C worlds LoopEnd.no_fuel met h = elim h [ ]

-- The cleanup of a session, and the end that it leaves
stop_session-Matches :
    (C : Type 0) (stop after_run : Outcome) (end : AttemptEnd)
    → (stop ≡ Outcome.cancelled → C)
    → (after_run ≡ Outcome.cancelled → C)
    → Matches C end (Effect.session_stopped ∷ Effect.after_run_hook ∷ [])
    → let cleanup = Effect.session_stopped ∷ unless_cancelled stop (Effect.after_run_hook ∷ []) in
      (last : AttemptEnd) × (stop_session stop (run_after_run after_run (some end))
        ≡ (cleanup, some last))
      × Matches C last cleanup
stop_session-Matches C Outcome.passes Outcome.passes end s a h = (end, refl, h)
stop_session-Matches C Outcome.passes Outcome.raises end s a h = (end, refl, h)
stop_session-Matches C Outcome.passes Outcome.cancelled end s a h =
    (AttemptEnd.interrupted, refl, a refl)
stop_session-Matches C Outcome.raises Outcome.passes end s a h = (end, refl, h)
stop_session-Matches C Outcome.raises Outcome.raises end s a h = (end, refl, h)
stop_session-Matches C Outcome.raises Outcome.cancelled end s a h =
    (AttemptEnd.interrupted, refl, a refl)
stop_session-Matches C Outcome.cancelled Outcome.passes end s a h =
    (AttemptEnd.interrupted, refl, s refl)
stop_session-Matches C Outcome.cancelled Outcome.raises end s a h =
    (AttemptEnd.interrupted, refl, s refl)
stop_session-Matches C Outcome.cancelled Outcome.cancelled end s a h =
    (AttemptEnd.interrupted, refl, s refl)

-- What follows the start of a session
module _ (C : Type 0) (stop after_run : Outcome) where
  closed-EndsBy :
      (worlds : ℕ → TurnWorld) (m : ℕ) (run : List Effect × LoopEnd)
      → (stop ≡ Outcome.cancelled → C)
      → (after_run ≡ Outcome.cancelled → C)
      → ((n : ℕ) → IsInterrupted (worlds n) → C)
      → IsFine worlds m run
      → EndsBy C stop m (closed stop after_run run)
  unfolding cleanup_of has_session turns
  closed-EndsBy worlds m (effects, result) s a met (ended, few, running) =
      let (end, at_end, h) = end_of-Matches C worlds result met ended in
      let (last, cleaned, matches) = stop_session-Matches C stop after_run end s a h in
      let work =
        Effect.workspace_created ∷ Effect.before_run_passed ∷ Effect.session_started ∷ effects in
      let same = ap (λ e. stop_session stop (run_after_run after_run e)) at_end ∙ cleaned in
      (
        last,
        work,
        ap (λ r. r.1) same,
        ap (λ r. work ++ r.0) same,
        (tt, (tt, (tt, IsTurn-IsRunning effects running))),
        few,
        matches,
      )

  run_after_run-EndsBy :
      (m : ℕ) (end : AttemptEnd) (o : Outcome)
      → (o ≡ Outcome.cancelled → C)
      → Matches C end (Effect.after_run_hook ∷ [])
      → EndsBy C stop m (
          after
            (Effect.workspace_created ∷ Effect.before_run_passed ∷ [])
            (run_after_run o (some end)))
  unfolding cleanup_of has_session has_prepared turns
  run_after_run-EndsBy m end Outcome.passes a h = (
    end,
    Effect.workspace_created ∷ Effect.before_run_passed ∷ [],
    refl,
    refl,
    (tt, (tt, tt)),
    omega arith,
    h,
  )
  run_after_run-EndsBy m end Outcome.raises a h = (
    end,
    Effect.workspace_created ∷ Effect.before_run_passed ∷ [],
    refl,
    refl,
    (tt, (tt, tt)),
    omega arith,
    h,
  )
  run_after_run-EndsBy m end Outcome.cancelled a h = (
    AttemptEnd.interrupted,
    Effect.workspace_created ∷ Effect.before_run_passed ∷ [],
    refl,
    refl,
    (tt, (tt, tt)),
    omega arith,
    a refl,
  )

  started-EndsBy :
      (m : ℕ) (startup : Outcome) (session : List Effect × Option AttemptEnd)
      → (startup ≡ Outcome.cancelled → C)
      → (after_run ≡ Outcome.cancelled → C)
      → EndsBy C stop m session
      → EndsBy C stop m (started startup after_run session)
  started-EndsBy m Outcome.passes session c a h = h
  started-EndsBy m Outcome.raises session c a h =
      run_after_run-EndsBy m (AttemptEnd.failed FailReason.session_startup) after_run a
        (unfold exit_path in refl)
  started-EndsBy m Outcome.cancelled session c a h =
      run_after_run-EndsBy m AttemptEnd.interrupted after_run a (c refl)

  prepared-EndsBy :
      (m : ℕ) (before_run : Outcome) (later : List Effect × Option AttemptEnd)
      → (before_run ≡ Outcome.cancelled → C)
      → EndsBy C stop m later
      → EndsBy C stop m (prepared before_run later)
  unfolding cleanup_of has_session has_prepared turns exit_path
  prepared-EndsBy m Outcome.passes later c h = h
  prepared-EndsBy m Outcome.raises later c h = (
    AttemptEnd.failed FailReason.before_run,
    Effect.workspace_created ∷ [],
    refl,
    refl,
    (tt, tt),
    omega arith,
    refl,
  )
  prepared-EndsBy m Outcome.cancelled later c h = (
    AttemptEnd.interrupted,
    Effect.workspace_created ∷ [],
    refl,
    refl,
    (tt, tt),
    omega arith,
    c refl,
  )

  with_workspace-EndsBy :
      (m : ℕ) (workspace : Outcome) (later : List Effect × Option AttemptEnd)
      → (workspace ≡ Outcome.cancelled → C)
      → EndsBy C stop m later
      → EndsBy C stop m (with_workspace workspace later)
  unfolding cleanup_of has_session has_prepared turns exit_path
  with_workspace-EndsBy m Outcome.passes later c h = h
  with_workspace-EndsBy m Outcome.raises later c h =
      (AttemptEnd.failed FailReason.workspace, [], refl, refl, tt, omega arith, refl)
  with_workspace-EndsBy m Outcome.cancelled later c h =
      (AttemptEnd.interrupted, [], refl, refl, tt, omega arith, c refl)

-- Whatever exceptions and cancellations an attempt meets, it ends: with at most `max_turns` turns,
-- or with one where that is zero. Behind its work, in which nothing is cleaned up, comes exactly
-- this cleanup: where a session was started, the session is stopped and, unless that call is
-- cancelled, `after_run` is run; where only `before_run` had passed, `after_run` is run; else there
-- is none. An attempt that fails or completes has the cleanup that `EXIT_PATHS` lists for its
-- reason, and one ends as cancelled only in a world that has a cancellation for one of its calls.
pub run_attempt-Ends : (world : AttemptWorld) → Ends world
unfolding run_attempt
run_attempt-Ends world =
    let C = Cancels world in
    let most = world.max_turns in
    let m = suc (most - 1) in
    let session =
      closed-EndsBy C world.stop world.after_run world.turns m
        (run_turn_loop world.turns most (suc most) 1) Cancels.in_stop Cancels.in_after_run
        Cancels.in_turn
        (run_turn_loop-IsFine world.turns most (suc most) 1 (most - 1) (omega arith) (omega arith)
          (omega arith)) in
    with_workspace-EndsBy C world.stop world.after_run m world.workspace _ Cancels.in_workspace (
      prepared-EndsBy C world.stop world.after_run m world.before_run _ Cancels.in_before_run (
        started-EndsBy C world.stop world.after_run m world.startup _ Cancels.in_startup
          Cancels.in_after_run session))
