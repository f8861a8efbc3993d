-- ===== src/Orchestrator/History.antt =====
-- The claim invariant after any history of commands.
use symphony_python.Prelude.{◌≡◌, Bool, false, List, [], ◌∷◌, arith, if◌then◌else◌}
use symphony_python.Text.{Text}
use symphony_python.Dict.{has, member}
use symphony_python.Models.{ClaimState, OrchestratorState, claim_state}
use symphony_python.Config.{ServiceConfig}
use symphony_python.Orchestrator.State.{Orchestrator, World}
use symphony_python.Orchestrator.Tokens.{PayloadReaders}
use symphony_python.Orchestrator.Loop.{
  Command, tick, worker_exit, retry_fired, agent_update, phase_update, apply_config, handle,
  mailbox_loop, init,
}
use symphony_python.Orchestrator.Invariant.{Inv, Ok}
use symphony_python.Orchestrator.Preserved.{handle_tick-Inv}
use symphony_python.Orchestrator.Commands.{
  handle_worker_exit-Inv, handle_retry_timer-Inv, handle_phase_update-Inv, handle_agent_update-Inv,
  handle_apply_config-Inv,
}

pub init-Inv : (cfg : ServiceConfig) → Inv (init cfg)
unfolding init has member
init-Inv cfg k = ground arith

-- Every command of the mailbox, whatever it meets outside and wherever `stop()` cuts in, keeps the
-- invariant: no issue both runs and waits for a retry, an issue that does either is claimed, and,
-- unless the service is closing, a claimed issue does either.
pub handle-Inv :
    (readers : PayloadReaders) (w : World) (c : Command) (o : Orchestrator)
    → Inv o
    → Inv (handle readers w c o)
unfolding handle
handle-Inv readers w (tick reschedule) o h k = handle_tick-Inv w reschedule o h k
handle-Inv readers w (worker_exit c) o h k = handle_worker_exit-Inv w c o h k
handle-Inv readers w (retry_fired j) o h k = handle_retry_timer-Inv w j o h k
handle-Inv readers w (agent_update j event) o h k = handle_agent_update-Inv readers w j event o h k
handle-Inv readers w (phase_update j phase error) o h k =
    handle_phase_update-Inv j phase error o h k
handle-Inv readers w (apply_config cfg) o h k = handle_apply_config-Inv cfg o h k

mailbox_loop-Inv :
    (readers : PayloadReaders) (cs : List (World × Command)) (o : Orchestrator)
    → Inv o
    → Inv (mailbox_loop readers cs o)
unfolding mailbox_loop
mailbox_loop-Inv readers [] o h k = h k
mailbox_loop-Inv readers ((w, c) ∷ cs) o h k =
    mailbox_loop-Inv readers cs _ (handle-Inv readers w c o h) k

state_of_claim :
    (closing : Bool) (s : OrchestratorState) (k : Text)
    → Ok closing s k
    → closing ≡ false
    → claim_state s k ≡ (
        if member k s.claimed
        then if has k s.running then ClaimState.running else ClaimState.retry_queued
        else ClaimState.unclaimed)
unfolding claim_state
state_of_claim closing s k h c = ground arith

-- After any history from the start, as long as the service is not closing, an issue is Unclaimed
-- exactly if it holds no claim, and otherwise Running or RetryQueued: never Claimed alone.
pub claim_state-mailbox_loop :
    (readers : PayloadReaders) (cfg : ServiceConfig) (cs : List (World × Command)) (k : Text)
    → let o = mailbox_loop readers cs (init cfg) in
      o.closing ≡ false
      → claim_state o.state k ≡ (
          if member k o.state.claimed
          then if has k o.state.running then ClaimState.running else ClaimState.retry_queued
          else ClaimState.unclaimed)
claim_state-mailbox_loop readers cfg cs k =
    state_of_claim _ _ k (mailbox_loop-Inv readers cs (init cfg) (init-Inv cfg) k)
