-- ===== src/Samples/Scheduling.antt =====
-- Tests of scheduling and reconciliation decisions.
use mathlib.Core.List.{Perm}
use symphony_python.Prelude.{◌≡◌, refl, ◌↔◌, true, some, [], ◌∷◌, keep}
use symphony_python.Text.{codes, text_eq}
use symphony_python.Dict.{member}
use symphony_python.Sorting.{same, sorted, insert}
use symphony_python.Models.{Issue}
use symphony_python.Scheduling.{
  issue_lt, sort_for_dispatch, should_dispatch, dispatch_sort_key, key_lt, text_lt,
}
use symphony_python.Scheduling.Precedence.{Precedes}
use symphony_python.Scheduling.Order.{IsOrdered, sort_for_dispatch-IsOrdered}
use symphony_python.Scheduling.Eligible.{IsEligible, should_dispatch_iff}
use symphony_python.Reconcile.{plan_reconciliation, missing_decision}
use symphony_python.Reconcile.Plan.{decision_for, decisions_for, plan_reconciliation-decisions}
use symphony_python.Orchestrator.Loop.{init}
use symphony_python.Samples.Data.{issue_a, issue_b, config}

-- Priority 0 ranks behind 2.
sorted_pair : sort_for_dispatch (issue_b ∷ issue_a ∷ []) ≡ issue_a ∷ issue_b ∷ []
unfolding sort_for_dispatch sorted insert key_lt dispatch_sort_key text_lt
sorted_pair = refl

sort_for_dispatch-IsOrdered_example :
    IsOrdered (sort_for_dispatch (issue_b ∷ issue_a ∷ []))
    × Perm (sort_for_dispatch (issue_b ∷ issue_a ∷ [])) (issue_b ∷ issue_a ∷ [])
    × ((k : Issue)
        → keep (same issue_lt k) (sort_for_dispatch (issue_b ∷ issue_a ∷ []))
          ≡ keep (same issue_lt k) (issue_b ∷ issue_a ∷ []))
    × ((a b : Issue) → (issue_lt a b ≡ true) ↔ Precedes a b)
sort_for_dispatch-IsOrdered_example = sort_for_dispatch-IsOrdered (issue_b ∷ issue_a ∷ [])

should_dispatch_iff_example :
    (should_dispatch issue_a (init config).state config ≡ true)
    ↔ IsEligible issue_a (init config).state config
should_dispatch_iff_example = should_dispatch_iff issue_a (init config).state config

-- The issue came back active, and the other id did not come back.
plan_reconciliation-decisions_example :
    (decision_for
        (codes "b")
        (plan_reconciliation (codes "a" ∷ codes "b" ∷ []) (issue_a ∷ []) config)
      ≡ some (missing_decision (codes "b")))
    × (decisions_for
          (codes "b")
          (plan_reconciliation (codes "a" ∷ codes "b" ∷ []) (issue_a ∷ []) config)
        ≡ 1)
unfolding member text_eq
plan_reconciliation-decisions_example =
    plan_reconciliation-decisions (codes "a" ∷ codes "b" ∷ []) (issue_a ∷ []) config (codes "b")
