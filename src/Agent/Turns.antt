-- ===== src/Agent/Turns.antt =====
-- The turn loop of agent/runner.py ends within its limit of turns.
use symphony_python.Prelude.{
  ℕ, zero, suc, ◌+◌, ◌≤◌, ◌<◌, ◌≡◌, ◌⊎◌, refl, Option, none, some, List, [], ◌∷◌, All, inl, inr,
  Bool-cases, arith,
}
use symphony_python.Models.{Issue}
use symphony_python.Config.{ServiceConfig}
use symphony_python.Agent.Runner.{
  FailReason, BreakReason, Outcome, Refresh, TurnWorld, Effect, LoopEnd, break_reason, continued,
  refreshed_turn, ran_turn, run_turn, run_turn_loop,
}

-- The number of turns that a log of effects holds
unfoldable pub turns : List Effect → ℕ
turns [] = 0
turns (Effect.turn_run n ∷ effects) = suc (turns effects)
turns (e ∷ effects) = turns effects

-- No cleanup is among the effects.
abbrev pub IsRunning : Effect → Type 0
IsRunning Effect.session_stopped = ⊥
IsRunning Effect.after_run_hook = ⊥
IsRunning _ = Unit

-- An exception that the loop lets through
abbrev pub IsOfLoop : FailReason → Type 0
IsOfLoop FailReason.prompt = Unit
IsOfLoop FailReason.turn = Unit
IsOfLoop FailReason.issue_refresh = Unit
IsOfLoop _ = ⊥

-- A turn that is cancelled: in the turn itself, or in the refresh
abbrev pub IsInterrupted : TurnWorld → Type 0
IsInterrupted world = (world.turn ≡ Outcome.cancelled) ⊎ (world.refreshed ≡ Refresh.interrupted)

-- An end that the loop comes to, with a cancellation only where one of its turns meets one
abbrev pub HasEnded : (ℕ → TurnWorld) → LoopEnd → Type 0
HasEnded worlds (LoopEnd.broke reason) = Unit
HasEnded worlds (LoopEnd.raised reason) = IsOfLoop reason
HasEnded worlds LoopEnd.interrupted = (n : ℕ) × IsInterrupted (worlds n)
HasEnded worlds LoopEnd.no_fuel = ⊥

-- Neither the start of a session nor a hook is among the effects.
abbrev pub IsTurn : Effect → Type 0
IsTurn (Effect.turn_run n) = Unit
IsTurn (Effect.issue_refreshed n) = Unit
IsTurn _ = ⊥

-- What holds of a loop with at most `m` turns
abbrev pub IsFine : (ℕ → TurnWorld) → ℕ → List Effect × LoopEnd → Type 0
IsFine worlds m (effects, result) =
    HasEnded worlds result × (turns effects ≤ m) × All IsTurn effects

break_reason-max :
    (config : ServiceConfig) (most n : ℕ) (issue : Issue)
    → break_reason config most n issue ≡ none
    → n < most
unfolding break_reason
break_reason-max config most n issue h = ground arith

module _ (worlds : ℕ → TurnWorld) where
  continued-IsFine :
      (n m : ℕ) (reason : Option BreakReason) (later : List Effect × LoopEnd)
      → (reason ≡ none → IsFine worlds m later)
      → IsFine worlds (suc m) (continued n reason later)
  unfolding turns
  continued-IsFine n m (some reason) later h = (tt, omega arith, (tt, (tt, tt)))
  continued-IsFine n m none later h =
      let (ended, few, running) = h refl in (ended, omega (arith, few), (tt, (tt, running)))

  refreshed_turn-IsFine :
      (config : ServiceConfig) (most n m : ℕ) (refreshed : Refresh) (later : List Effect × LoopEnd)
      → (refreshed ≡ Refresh.interrupted → IsInterrupted (worlds n))
      → (n < most → IsFine worlds m later)
      → IsFine worlds (suc m) (refreshed_turn config most n refreshed later)
  unfolding turns
  refreshed_turn-IsFine config most n m Refresh.refused later met h =
      (tt, omega arith, (tt, (tt, tt)))
  refreshed_turn-IsFine config most n m Refresh.interrupted later met h =
      ((n, met refl), omega arith, (tt, (tt, tt)))
  refreshed_turn-IsFine config most n m (Refresh.answered []) later met h =
      (tt, omega arith, (tt, (tt, tt)))
  refreshed_turn-IsFine config most n m (Refresh.answered (issue ∷ issues)) later met h =
      continued-IsFine n m (break_reason config most n issue) later
        (λ e. h (break_reason-max config most n issue e))

  ran_turn-IsFine :
      (n m : ℕ) (turn : Outcome) (refreshed : List Effect × LoopEnd)
      → (turn ≡ Outcome.cancelled → IsInterrupted (worlds n))
      → IsFine worlds (suc m) refreshed
      → IsFine worlds (suc m) (ran_turn turn n refreshed)
  unfolding turns
  ran_turn-IsFine n m Outcome.passes refreshed met fine = fine
  ran_turn-IsFine n m Outcome.raises refreshed met fine = (tt, omega arith, (tt, tt))
  ran_turn-IsFine n m Outcome.cancelled refreshed met fine = ((n, met refl), omega arith, (tt, tt))

  run_turn-IsFine :
      (most n m : ℕ) (later : List Effect × LoopEnd)
      → (n < most → IsFine worlds m later)
      → IsFine worlds (suc m) (run_turn (worlds n) most n later)
  unfolding run_turn
  run_turn-IsFine most n m later h = elim (Bool-cases (worlds n).prompt_fails) [
    | inl e ↦ rw e (tt, unfold turns in omega arith, tt)
    | inr e ↦ rw e (
        ran_turn-IsFine n m (worlds n).turn _ (λ met. inl met)
          (refreshed_turn-IsFine (worlds n).config most n m (worlds n).refreshed later
            (λ met. inr met) h))
  ]

  -- From turn `n` on, a loop with fuel for the turns that are left ends within them.
  pub run_turn_loop-IsFine :
      (most fuel n m : ℕ)
      → most < fuel + n
      → most ≤ m + n
      → 0 < fuel
      → IsFine worlds (suc m) (run_turn_loop worlds most fuel n)
  unfolding run_turn_loop
  run_turn_loop-IsFine most zero n m enough few some_fuel = ground arith
  run_turn_loop-IsFine most (suc fuel) n zero enough few some_fuel =
      run_turn-IsFine most n 0 (run_turn_loop worlds most fuel (suc n)) (λ below. ground arith)
  run_turn_loop-IsFine most (suc fuel) n (suc m) enough few some_fuel =
      run_turn-IsFine most n (suc m) (run_turn_loop worlds most fuel (suc n)) (λ below.
        run_turn_loop-IsFine most fuel (suc n) m (omega (arith, enough, below)) (omega (arith, few))
          (omega (arith, enough, below)))
