-- ===== src/Orchestrator/Invariant.antt =====
-- The claim invariant, and the operations of `Claims` on it.
use symphony_python.Prelude.{
  ℕ, ◌≡◌, subst, ◌∙◌, inl, inr, Bool, true, false, ◌&&◌, ◌||◌, Option, none, [], arith, Bool-cases,
  Option-cases, if◌then◌else◌,
}
use symphony_python.Text.{Text, text_eq, text_eq_refl, text_eq_iff, truthy}
use symphony_python.Dict.{get, has, member, dict_laws}
use symphony_python.Models.{Issue, RunPhase, RetryEntry, RunningEntry, OrchestratorState}
use symphony_python.Orchestrator.State.{
  Orchestrator, World, Pause, quiet, stopping, emit, arm_timer, add_runtime_seconds,
}
use symphony_python.Orchestrator.Stop.{pause}
use symphony_python.Orchestrator.Claims.{
  drop_retry, discard_claim, hold_retry, hold_running, drop_running, queue_retry, schedule_retry,
  release_claim, cleanup_workspace, start_worker, dispatch_issue, terminate_entry,
  terminate_running_issue,
}
use symphony_python.Orchestrator.Shape.{
  state-cancel_retry, closing-cancel_retry, state-stop_now, closing-stop_now,
}

-- For one issue: it is not both running and queued, it is claimed if it is either, and, unless the
-- service is closing, it is claimed only if it is either.
abbrev pub KeyOk : Bool → Bool → Bool → Bool → Type 0
KeyOk closing runs queued claimed =
    (runs && queued ≡ false)
    × (runs || queued ≡ true → claimed ≡ true)
    × (closing ≡ false → claimed ≡ true → runs || queued ≡ true)

abbrev pub Ok : Bool → OrchestratorState → Text → Type 0
Ok closing s k = KeyOk closing (has k s.running) (has k s.retry_attempts) (member k s.claimed)

-- Every issue is in order.
abbrev pub Inv : Orchestrator → Type 0
Inv o = (k : Text) → Ok o.closing o.state k

pub if-Inv : (b : Bool) (x y : Orchestrator) → Inv x → Inv y → Inv (if b then x else y)
if-Inv true x y h k j = h j
if-Inv false x y h k j = k j

-- Every other issue is in order.
abbrev pub Others : Text → Orchestrator → Type 0
Others j o = (k : Text) → text_eq j k ≡ false → Ok o.closing o.state k

abbrev pub OthersAt : Text → Bool → OrchestratorState → Type 0
OthersAt j closing s = (k : Text) → text_eq j k ≡ false → Ok closing s k

released :
    (j : Text) (closing : Bool) (s : OrchestratorState)
    → OthersAt j closing s
    → has j s.running ≡ false
    → (k : Text) → Ok closing (drop_retry j (discard_claim j s)) k
unfolding drop_retry discard_claim
released j closing s h n k = simp dict_laws (ground (arith, h k, text_eq_iff j k))

discarded :
    (j : Text) (closing : Bool) (s : OrchestratorState)
    → OthersAt j closing s
    → has j s.running ≡ false
    → (k : Text) → Ok closing (discard_claim j (drop_retry j s)) k
unfolding drop_retry discard_claim
discarded j closing s h n k = simp dict_laws (ground (arith, h k, text_eq_iff j k))

queued :
    (e : RetryEntry) (closing c : Bool) (s : OrchestratorState)
    → closing ≡ c
    → OthersAt e.issue_id closing s
    → has e.issue_id s.running ≡ false
    → (k : Text) → Ok c (hold_retry e (drop_retry e.issue_id s)) k
unfolding drop_retry hold_retry
queued e closing c s p h n k = simp dict_laws (ground (arith, h k, text_eq_iff e.issue_id k))

started :
    (j : Text) (e : RunningEntry) (closing : Bool) (s : OrchestratorState)
    → OthersAt j closing s
    → (k : Text) → Ok closing (drop_retry j (hold_running j e s)) k
unfolding drop_retry hold_running
started j e closing s h k = simp dict_laws (ground (arith, h k, text_eq_iff j k))

-- A claim may go with an issue that is neither running nor queued.
pub forgotten :
    (j : Text) (closing : Bool) (s : OrchestratorState)
    → OthersAt j closing s
    → has j s.running ≡ false
    → has j s.retry_attempts ≡ false
    → (k : Text) → Ok closing (discard_claim j s) k
unfolding discard_claim
forgotten j closing s h n q k = simp dict_laws (ground (arith, h k, text_eq_iff j k))

-- The retry entry of an issue goes; what is left of the issue is not running.
pub popped :
    (j : Text) (closing : Bool) (s : OrchestratorState)
    → ((k : Text) → Ok closing s k)
    → has j s.retry_attempts ≡ true
    → OthersAt j closing (drop_retry j s)
      × (has j (drop_retry j s).running ≡ false)
      × (has j (drop_retry j s).retry_attempts ≡ false)
unfolding drop_retry
popped j closing s h q = (
  (λ k n. simp dict_laws (ground (arith, h k))),
  ground (arith, h j),
  simp dict_laws (ground (arith, text_eq_refl j)),
)

pub release_claim-Inv :
    (j : Text) (o : Orchestrator)
    → Others j o
    → has j o.state.running ≡ false
    → Inv (release_claim j o)
unfolding release_claim
release_claim-Inv j o h n k =
    rw (state-cancel_retry, closing-cancel_retry) (released j o.closing o.state h n k)

module _ (w : World) where
  pub schedule_retry-Inv :
      (j : Text) (attempt : ℕ) (identifier error : Option Text) (delay : Option ℕ)
      (o : Orchestrator)
      → Others j o
      → has j o.state.running ≡ false
      → Inv (schedule_retry w j attempt identifier error delay o)
  unfolding schedule_retry queue_retry arm_timer emit
  schedule_retry-Inv j attempt identifier error delay o h n k = elim (Bool-cases o.closing) [
    | inl e ↦ rw (closing-cancel_retry j o ∙ e) (
        rw (state-cancel_retry j o) (
          subst (λ c. Ok c (discard_claim j (drop_retry j o.state)) k) e
            (discarded j o.closing o.state h n k)))
    | inr e ↦
        rw (closing-cancel_retry j o ∙ e)
          (rw (state-cancel_retry j o) (queued _ o.closing false o.state e h n k))
  ]

  start_worker-Inv :
      (issue : Issue) (attempt : Option ℕ) (o : Orchestrator)
      → Others issue.id o
      → Inv (start_worker w issue attempt o)
  unfolding start_worker emit
  start_worker-Inv issue attempt o h k =
      rw (state-cancel_retry, closing-cancel_retry) (started issue.id _ o.closing o.state h k)

  pub dispatch_issue-Inv :
      (issue : Issue) (attempt : Option ℕ) (o : Orchestrator)
      → Others issue.id o
      → has issue.id o.state.running ≡ false
      → Inv (dispatch_issue w issue attempt o)
  unfolding dispatch_issue
  dispatch_issue-Inv issue attempt o h n = elim (Bool-cases (w.spawn_fails issue)) [
    | inl e ↦ rw (n, e) (schedule_retry-Inv issue.id _ _ _ _ o h n)
    | inr e ↦ rw (n, e) (start_worker-Inv issue attempt o h)
  ]

-- `stop()` forgets the retries and closes, and leaves the running entries and claims.
Ok-stopped :
    (closing : Bool) (s : OrchestratorState) (k : Text)
    → Ok closing s k
    → Ok true (record s { retry_attempts = [] }) k
unfolding has
Ok-stopped closing s k h = ground arith

pub pause-Inv : (p : Pause) (o : Orchestrator) → Inv o → Inv (pause p o)
unfolding pause
pause-Inv quiet o h k = h k
pause-Inv stopping o h k =
    rw (state-stop_now, closing-stop_now) (Ok-stopped o.closing o.state k (h k))

-- The issue does not run, and every other issue is in order.
abbrev pub Freed : Text → Orchestrator → Type 0
Freed j o = Others j o × (has j o.state.running ≡ false)

pub pause-Freed : (p : Pause) (j : Text) (o : Orchestrator) → Freed j o → Freed j (pause p o)
unfolding pause
pause-Freed quiet j o h = h
pause-Freed stopping j o h = (
  (λ k n. rw (state-stop_now, closing-stop_now) (Ok-stopped o.closing o.state k (h.0 k n))),
  rw state-stop_now (h.1),
)

module _ (w : World) where
  pub cleanup_workspace-Inv : (i : Text) (o : Orchestrator) → Inv o → Inv (cleanup_workspace w i o)
  unfolding cleanup_workspace emit
  cleanup_workspace-Inv i o h = elim (Bool-cases (truthy i)) [
    | inl e ↦ rw e (pause-Inv (w.at_cleanup i) _ h)
    | inr e ↦ rw e h
  ]

  pub cleanup_workspace-Freed :
      (i j : Text) (o : Orchestrator) → Freed j o → Freed j (cleanup_workspace w i o)
  unfolding cleanup_workspace emit
  cleanup_workspace-Freed i j o h = elim (Bool-cases (truthy i)) [
    | inl e ↦ rw e (pause-Freed (w.at_cleanup i) j _ h)
    | inr e ↦ rw e h
  ]

  pub freed :
      (j : Text) (entry : RunningEntry) (closing : Bool) (s : OrchestratorState)
      → ((k : Text) → Ok closing s k)
      → (k : Text) → text_eq j k ≡ false
      → Ok closing (add_runtime_seconds w entry (drop_running j s)) k
  unfolding add_runtime_seconds drop_running
  freed j entry closing s h k n = simp dict_laws (ground (arith, h k))

  pub freed_running :
      (j : Text) (entry : RunningEntry) (s : OrchestratorState)
      → has j (add_runtime_seconds w entry (drop_running j s)).running ≡ false
  unfolding add_runtime_seconds drop_running
  freed_running j entry s = simp dict_laws (ground (arith, text_eq_refl j))

  Freed-Inv :
      (retry : Bool) (j : Text) (attempt : ℕ) (identifier error : Option Text) (o : Orchestrator)
      → Freed j o
      → Inv
          (if retry then schedule_retry w j attempt identifier error none o else release_claim j o)
  Freed-Inv true j attempt identifier error o f =
      schedule_retry-Inv w j attempt identifier error none o f.0 f.1
  Freed-Inv false j attempt identifier error o f = release_claim-Inv j o f.0 f.1

  maybe_cleanup :
      (cleanup : Bool) (i j : Text) (o : Orchestrator)
      → Freed j o
      → Freed j (if cleanup then cleanup_workspace w i o else o)
  maybe_cleanup true i j o f = cleanup_workspace-Freed i j o f
  maybe_cleanup false i j o f = f

  terminate_entry-Inv :
      (j : Text) (cleanup : Bool) (reason : Text) (retry : Bool) (phase : RunPhase)
      (entry : RunningEntry) (o : Orchestrator)
      → Inv o
      → Inv (terminate_entry w j cleanup reason retry phase entry o)
  unfolding terminate_entry emit
  terminate_entry-Inv j cleanup reason retry phase entry o h = Freed-Inv retry j _ _ _ _ (
      maybe_cleanup cleanup entry.identifier j _
        (freed j entry o.closing o.state h, freed_running j entry o.state))

  pub terminate_running_issue-Inv :
      (j : Text) (cleanup : Bool) (reason : Text) (retry : Bool) (phase : RunPhase)
      (o : Orchestrator)
      → Inv o
      → Inv (terminate_running_issue w j cleanup reason retry phase o)
  unfolding terminate_running_issue
  terminate_running_issue-Inv j cleanup reason retry phase o h =
      elim (Option-cases (get j o.state.running)) [
        | inl e ↦ rw (e, terminate_running_issue) h
        | inr (entry, e) ↦
            rw (e, terminate_running_issue)
              (terminate_entry-Inv j cleanup reason retry phase entry o h)
      ]
