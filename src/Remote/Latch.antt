-- ===== src/Remote/Latch.antt =====
-- When a failed run may move to another host in ssh/worker.py.
use symphony_python.Prelude.{
  ℕ, ◌≡◌, refl, Bool, true, false, not, ◌&&◌, ◌||◌, List, [], ◌∷◌, any, arith, ltb,
}
use symphony_python.Remote.Failover.{
  Failure, Mark, RunProgress, started, mark_side_effect, mark, after_marks, classify_failure,
  is_eligible, is_host_independent, decide_failover, may_switch_host,
}

-- A mark that tells of a possible side effect
unfoldable pub is_effect : Mark → Bool
is_effect Mark.workspace_prepared = false
is_effect (Mark.hook_started name) = true
is_effect (Mark.turn_dispatched n) = true
is_effect (Mark.side_effect reason) = true

mark-latch :
    (progress : RunProgress) (m : Mark)
    → (mark progress m).side_effects_possible ≡ (progress.side_effects_possible || is_effect m)
unfolding mark mark_side_effect is_effect
mark-latch progress Mark.workspace_prepared = ground arith
mark-latch progress (Mark.hook_started name) = ground arith
mark-latch progress (Mark.turn_dispatched n) = ground arith
mark-latch progress (Mark.side_effect reason) = ground arith

after_marks-latch :
    (progress : RunProgress) (marks : List Mark)
    → (after_marks progress marks).side_effects_possible
      ≡ (progress.side_effects_possible || any is_effect marks)
unfolding after_marks any
after_marks-latch progress [] = ground arith
after_marks-latch progress (m ∷ marks) =
    ground (arith, mark-latch progress m, after_marks-latch (mark progress m) marks)

-- A failure of a host or of a start
unfoldable pub is_before_work : Failure → Bool
is_before_work Failure.host_unreachable = true
is_before_work Failure.preflight_failed = true
is_before_work Failure.startup_error = true
is_before_work Failure.connection_or_timeout = true
is_before_work Failure.os_error = true
is_before_work _ = false

switch-failure :
    (progress : RunProgress) (failure : Failure) (hosts_remaining : ℕ)
    → may_switch_host (decide_failover progress failure hosts_remaining)
      ≡ (not progress.side_effects_possible && is_before_work failure && ltb 0 hosts_remaining)
unfolding decide_failover may_switch_host is_before_work classify_failure is_eligible
    is_host_independent
switch-failure progress Failure.host_independent hosts_remaining = ground arith
switch-failure progress Failure.host_unreachable hosts_remaining = ground arith
switch-failure progress Failure.preflight_failed hosts_remaining = ground arith
switch-failure progress Failure.agent_error hosts_remaining = ground arith
switch-failure progress Failure.startup_error hosts_remaining = ground arith
switch-failure progress Failure.connection_or_timeout hosts_remaining = ground arith
switch-failure progress Failure.os_error hosts_remaining = ground arith
switch-failure progress Failure.other_error hosts_remaining = ground arith

-- A run that fails may move to another host exactly if it has reported neither a hook nor a turn
-- nor another side effect, whatever it has reported in which order, its failure is one of the host,
-- of the connection or of the start, and there is another host.
pub decide_failover-after_marks :
    (marks : List Mark) (failure : Failure) (hosts_remaining : ℕ)
    → may_switch_host (decide_failover (after_marks started marks) failure hosts_remaining)
      ≡ (not (any is_effect marks) && is_before_work failure && ltb 0 hosts_remaining)
decide_failover-after_marks marks failure hosts_remaining =
    rw
      (
        switch-failure (after_marks started marks) failure hosts_remaining,
        after_marks-latch started marks,
      )
      refl
