-- ===== src/Orchestrator/Stalls.antt =====
-- What `reconcile_stalled_runs` leaves running.
use symphony_python.Prelude.{
  ℕ, ◌*◌, ◌≤◌, ◌<◌, ℤ, ◌≡◌, refl, sym, ap, ◌∙◌, inl, inr, true, false, none, some, List, [], ◌∷◌,
  arith, Bool-cases, if◌then◌else◌,
}
use symphony_python.Text.{Text, text_eq_refl, text_eq_iff}
use symphony_python.Dict.{Dict, get, has, remove, member, get-remove, remove-absent}
use symphony_python.Models.{DateTime, RunningEntry, OrchestratorState}
use symphony_python.Reconcile.{
  StallDecision, elapsed_for_entry, stall_timeout_for, stalled_entries, plan_stall_terminations,
}
use symphony_python.Orchestrator.State.{Orchestrator, World}
use symphony_python.Orchestrator.Tick.{apply_stall, apply_stalls, reconcile_stalled_runs}
use symphony_python.Orchestrator.Shape.{schedule_retry_keeps, terminate_running_issue_keeps}

planned : List StallDecision → List Text
planned [] = []
planned (d ∷ ds) = d.issue_id ∷ planned ds

-- A silent entry is planned.
planned-stalled_entries :
    (d : Dict RunningEntry) (timeout : ℕ) (now : DateTime) (k : Text) (e : RunningEntry)
    → get k d ≡ some e
    → timeout * 1000 < elapsed_for_entry e now
    → member k (planned (stalled_entries d timeout now)) ≡ true
unfolding get stalled_entries planned member
planned-stalled_entries [] timeout now k e g h = cc
planned-stalled_entries ((j, f) ∷ d) timeout now k e g h =
    ground (arith, planned-stalled_entries d timeout now k e, text_eq_iff j k, text_eq_refl k)

plan_positive :
    (s : OrchestratorState) (timeout : ℕ) (now : DateTime)
    → 0 < timeout
    → plan_stall_terminations s (ℤ.pos timeout) now ≡ stalled_entries s.running timeout now
unfolding plan_stall_terminations
plan_positive s timeout now p = ground arith

module _ (w : World) where
  running-apply_stall :
      (d : StallDecision) (o : Orchestrator)
      → (apply_stall w d o).state.running ≡ remove d.issue_id o.state.running
  unfolding apply_stall
  running-apply_stall d o = elim (Bool-cases (has d.issue_id o.state.running)) [
    | inl e ↦ rw e (
        (schedule_retry_keeps w d.issue_id _ _ _ _ _).0
        ∙ (terminate_running_issue_keeps w d.issue_id _ _ _ _ o).0)
    | inr e ↦ rw e (sym (remove-absent d.issue_id o.state.running e))
  ]

  running-apply_stalls :
      (ds : List StallDecision) (o : Orchestrator) (k : Text)
      → get k (apply_stalls w ds o).state.running
        ≡ (if member k (planned ds) then none else get k o.state.running)
  unfolding apply_stalls planned member
  running-apply_stalls [] o k = refl
  running-apply_stalls (d ∷ ds) o k =
      running-apply_stalls ds (apply_stall w d o) k
      ∙ rw running-apply_stall (rw get-remove (ground (arith, text_eq_iff d.issue_id k)))

  kept :
      (ds : List StallDecision) (o : Orchestrator) (k : Text) (e : RunningEntry)
      → get k (apply_stalls w ds o).state.running ≡ some e
      → (get k o.state.running ≡ some e) × (member k (planned ds) ≡ false)
  kept ds o k e h = ground (arith, running-apply_stalls ds o k)

  -- With a positive stall timeout, a run that is still there after stall detection was there before
  -- with the same entry, and has been silent for no longer than the timeout.
  pub reconcile_stalled_runs-get :
      (o : Orchestrator) (k : Text) (e : RunningEntry) (timeout : ℕ)
      → stall_timeout_for o.config ≡ ℤ.pos timeout
      → 0 < timeout
      → get k (reconcile_stalled_runs w o).state.running ≡ some e
      → (get k o.state.running ≡ some e) × (elapsed_for_entry e w.now ≤ timeout * 1000)
  unfolding reconcile_stalled_runs
  reconcile_stalled_runs-get o k e timeout t p h =
      let ds = stalled_entries o.state.running timeout w.now in
      let plan = plan_positive o.state timeout w.now p in
      let same = ap (λ i. plan_stall_terminations o.state i w.now) t ∙ plan in
      let f = kept ds o k e (ap (λ x. get k (apply_stalls w x o).state.running) (sym same) ∙ h) in
      (f.0, ground (arith, f.1, planned-stalled_entries o.state.running timeout w.now k e f.0))
