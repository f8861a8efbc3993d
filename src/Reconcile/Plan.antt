-- ===== src/Reconcile/Plan.antt =====
-- The decision list of `plan_reconciliation` in orchestrator/reconcile.py, id by id.
use symphony_python.Prelude.{
  or_else, ℕ, suc, ◌+◌, ◌≡◌, refl, Bool, true, false, not, ◌&&◌, ◌||◌, Option, none, some, List, [],
  ◌∷◌, ◌++◌, arith, inl, inr, ◌==◌, Bool-cases, if◌then◌else◌,
}
use symphony_python.Text.{Text, text_eq, text_eq_iff}
use symphony_python.Dict.{TextSet, member, add, member-add}
use symphony_python.Models.{Issue}
use symphony_python.Config.{ServiceConfig}
use symphony_python.Reconcile.{
  ReconcileDecision, classify_refreshed_issue, from_keys, plan_refreshed, missing_decision,
  plan_missing, plan_reconciliation,
}

-- The first decision about an id, and the number of decisions about it
abbrev pub decision_for : Text → List ReconcileDecision → Option ReconcileDecision
decision_for k [] = none
decision_for k (d ∷ ds) = if text_eq d.issue_id k then some d else decision_for k ds

abbrev pub decisions_for : Text → List ReconcileDecision → ℕ
decisions_for k [] = 0
decisions_for k (d ∷ ds) =
    if text_eq d.issue_id k then suc (decisions_for k ds) else decisions_for k ds

-- The first refreshed issue with an id
abbrev pub refreshed_as : Text → List Issue → Option Issue
refreshed_as k [] = none
refreshed_as k (issue ∷ rest) = if text_eq issue.id k then some issue else refreshed_as k rest

abbrev pub classified : ServiceConfig → Option Issue → Option ReconcileDecision
classified cfg none = none
classified cfg (some issue) = some (classify_refreshed_issue issue cfg)

-- What the specification asks for one running id
abbrev pub expected : ServiceConfig → Text → Option Issue → ReconcileDecision
expected cfg k none = missing_decision k
expected cfg k (some issue) = classify_refreshed_issue issue cfg

abbrev is_found : Option Issue → Bool
is_found none = false
is_found (some issue) = true

occurrences : Text → List Text → ℕ
occurrences k [] = 0
occurrences k (j ∷ js) = if text_eq j k then suc (occurrences k js) else occurrences k js

from_keys-occurrences :
    (k : Text) (seen : TextSet) (ids : List Text)
    → occurrences k (from_keys seen ids) ≡ (if member k ids && not (member k seen) then 1 else 0)
unfolding occurrences from_keys member
from_keys-occurrences k seen [] = refl
from_keys-occurrences k seen (j ∷ js) =
    ground (arith, from_keys-occurrences k (add j seen) js, member-add j k seen, text_eq_iff j k)

member-occurrences :
    (k : Text) (ids : List Text) → member k ids ≡ (if occurrences k ids == 0 then false else true)
unfolding occurrences member
member-occurrences k [] = refl
member-occurrences k (j ∷ js) = ground (arith, member-occurrences k js)

classify-id :
    (issue : Issue) (cfg : ServiceConfig) → (classify_refreshed_issue issue cfg).issue_id ≡ issue.id
unfolding classify_refreshed_issue
classify-id issue cfg = ground arith

module _ (k : Text) (known : List Text) (cfg : ServiceConfig) where
  -- The refreshed part of the plan, for ids not yet returned
  plan_refreshed-decisions :
      (returned : TextSet) (issues : List Issue)
      → let p = plan_refreshed known returned issues cfg in
        let fresh = member k known && not (member k returned) in
        (decision_for k p.0 ≡ (if fresh then classified cfg (refreshed_as k issues) else none))
        × (decisions_for k p.0 ≡ (if fresh && is_found (refreshed_as k issues) then 1 else 0))
        × (member k p.1
            ≡ (member k returned || (member k known && is_found (refreshed_as k issues))))
  unfolding plan_refreshed
  plan_refreshed-decisions returned [] = ground arith
  plan_refreshed-decisions returned (issue ∷ rest) =
      elim (Bool-cases (not (member issue.id known) || member issue.id returned)) [
        | inl e ↦
            rw e (ground (arith, plan_refreshed-decisions returned rest, text_eq_iff issue.id k))
        | inr e ↦ rw e (
            ground (
              arith,
              plan_refreshed-decisions (add issue.id returned) rest,
              classify-id issue cfg,
              member-add issue.id k returned,
              text_eq_iff issue.id k,
            ))
      ]

  missing-id : (j : Text) → (missing_decision j).issue_id ≡ j
  unfolding missing_decision
  missing-id j = refl

  -- The missing part of the plan
  plan_missing-decisions :
      (returned : TextSet) (ids : List Text)
      → (decision_for k (plan_missing returned ids)
          ≡ (if member k ids && not (member k returned) then some (missing_decision k) else none))
        × (decisions_for k (plan_missing returned ids)
            ≡ (if member k returned then 0 else occurrences k ids))
  unfolding plan_missing member occurrences
  plan_missing-decisions returned [] = ground arith
  plan_missing-decisions returned (j ∷ js) =
      ground (arith, plan_missing-decisions returned js, text_eq_iff j k)

decisions-append :
    (k : Text) (a b : List ReconcileDecision)
    → (decision_for k (a ++ b) ≡ or_else (decision_for k a) (decision_for k b))
      × (decisions_for k (a ++ b) ≡ decisions_for k a + decisions_for k b)
decisions-append k [] b = ground arith
decisions-append k (d ∷ a) b = ground (arith, decisions-append k a b)

member-nil : (k : Text) → member k [] ≡ false
unfolding member
member-nil k = refl

known-member : (k : Text) (ids : List Text) → member k (from_keys [] ids) ≡ member k ids
unfolding member
known-member k ids =
    ground (arith, member-occurrences k (from_keys [] ids), from_keys-occurrences k [] ids)

-- A successful refresh yields exactly one decision for each running id: what the branch table says
-- of the first refreshed issue with that id, or, if there is none, a termination without cleanup;
-- and it yields no decision about any other id.
pub plan_reconciliation-decisions :
    (ids : List Text) (refreshed : List Issue) (cfg : ServiceConfig) (k : Text)
    → let plan = plan_reconciliation ids refreshed cfg in
      (decision_for k plan
        ≡ (if member k ids then some (expected cfg k (refreshed_as k refreshed)) else none))
      × (decisions_for k plan ≡ (if member k ids then 1 else 0))
unfolding plan_reconciliation
plan_reconciliation-decisions ids refreshed cfg k =
    let known = from_keys [] ids in
    let returned = (plan_refreshed known [] refreshed cfg).1 in
    ground (
      arith,
      known-member k ids,
      plan_refreshed-decisions k known cfg [] refreshed,
      plan_missing-decisions k known cfg returned known,
      decisions-append k (plan_refreshed known [] refreshed cfg).0 (plan_missing returned known),
      from_keys-occurrences k [] ids,
      member-nil k,
    )
