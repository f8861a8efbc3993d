-- ===== src/Scheduling/Eligible.antt =====
-- `should_dispatch` of scheduling.py against the bullets of its specification.
use symphony_python.Prelude.{
  ◌<◌, ◌≡◌, refl, ◌↔◌, ◌⊎◌, inl, inr, Bool, true, false, List, [], ◌∷◌, arith, All, Bool-cases,
}
use symphony_python.Text.{Text, text_eq, text_eq_iff, truthy}
use symphony_python.Dict.{has, member}
use symphony_python.Models.{
  Issue, OrchestratorState, normalize_state, normalize_label, labels_match, has_labels,
  has_required_fields, running_count, running_count_for_state,
}
use symphony_python.Config.{ServiceConfig, folded, is_active, is_terminal, slot_limit_for_state}
use symphony_python.Scheduling.{
  issue_well_formed, issue_routable, available_slots, has_state_slot, should_dispatch,
}

-- The state is one of the configured ones, up to case and surrounding space.
abbrev pub Listed : Text → List Text → Type 0
Listed state [] = ⊥
Listed state (s ∷ rest) = (normalize_state s ≡ normalize_state state) ⊎ Listed state rest

-- The label is not blank, and the issue carries it.
abbrev pub Carries : List Text → Text → Type 0
Carries mine raw =
    (truthy (normalize_label raw) ≡ true) × (member (normalize_label raw) mine ≡ true)

-- The eight conditions for a dispatch.
pub record IsEligible (issue : Issue) (s : OrchestratorState) (cfg : ServiceConfig) : Type 0 where
  pub required : has_required_fields issue ≡ true
  pub active : Listed issue.state cfg.active_states
  pub not_terminal : ¬ Listed issue.state cfg.terminal_states
  pub dispatchable : issue.dispatchable ≡ true
  pub labelled : All (Carries issue.labels) cfg.required_labels
  pub not_running : has issue.id s.running ≡ false
  pub not_claimed : member issue.id s.claimed ≡ false
  pub global_slot : running_count s < cfg.max_concurrent_agents
  pub state_slot : running_count_for_state s issue.state < slot_limit_for_state cfg issue.state

Listed-member :
    (state : Text) (states : List Text)
    → member (normalize_state state) (folded states) ≡ true
    → Listed state states
unfolding member folded
Listed-member state [] h = cc
Listed-member state (s ∷ rest) h =
    elim (Bool-cases (text_eq (normalize_state s) (normalize_state state))) [
      | inl e ↦ inl ((text_eq_iff _ _).0 e)
      | inr e ↦ inr (Listed-member state rest (ground arith))
    ]

member-Listed :
    (state : Text) (states : List Text)
    → Listed state states
    → member (normalize_state state) (folded states) ≡ true
unfolding member folded
member-Listed state [] h = elim h [ ]
member-Listed state (s ∷ rest) (inl e) =
    ground (arith, (text_eq_iff (normalize_state s) (normalize_state state)).1 e)
member-Listed state (s ∷ rest) (inr h) = ground (arith, member-Listed state rest h)

-- `is_active` and `is_terminal` ask whether the state is listed.
pub is_active_iff :
    (cfg : ServiceConfig) (state : Text)
    → (is_active cfg state ≡ true) ↔ Listed state cfg.active_states
unfolding is_active
is_active_iff cfg state =
    (Listed-member state cfg.active_states, member-Listed state cfg.active_states)

pub is_terminal_iff :
    (cfg : ServiceConfig) (state : Text)
    → (is_terminal cfg state ≡ true) ↔ Listed state cfg.terminal_states
unfolding is_terminal
is_terminal_iff cfg state =
    (Listed-member state cfg.terminal_states, member-Listed state cfg.terminal_states)

labels_match-Carries :
    (mine required : List Text) → labels_match mine required ≡ true → All (Carries mine) required
unfolding labels_match
labels_match-Carries mine [] h = tt
labels_match-Carries mine (raw ∷ rest) h = ground (arith, labels_match-Carries mine rest)

Carries-labels_match :
    (mine required : List Text) → All (Carries mine) required → labels_match mine required ≡ true
unfolding labels_match
Carries-labels_match mine [] h = refl
Carries-labels_match mine (raw ∷ rest) h = ground (arith, Carries-labels_match mine rest h.1)

-- What the ladder of tests in `should_dispatch` comes to, test by test.
should_dispatch-tests :
    (issue : Issue) (s : OrchestratorState) (cfg : ServiceConfig)
    → should_dispatch issue s cfg ≡ true
    → (has_required_fields issue ≡ true)
      × (is_active cfg issue.state ≡ true)
      × (is_terminal cfg issue.state ≡ false)
      × (issue.dispatchable ≡ true)
      × (labels_match issue.labels cfg.required_labels ≡ true)
      × (has issue.id s.running ≡ false)
      × (member issue.id s.claimed ≡ false)
      × (running_count s < cfg.max_concurrent_agents)
      × (running_count_for_state s issue.state < slot_limit_for_state cfg issue.state)
unfolding should_dispatch issue_well_formed issue_routable has_labels available_slots has_state_slot
should_dispatch-tests issue s cfg h = ground arith

tests-should_dispatch :
    (issue : Issue) (s : OrchestratorState) (cfg : ServiceConfig)
    → has_required_fields issue ≡ true
    → is_active cfg issue.state ≡ true
    → is_terminal cfg issue.state ≡ false
    → issue.dispatchable ≡ true
    → labels_match issue.labels cfg.required_labels ≡ true
    → has issue.id s.running ≡ false
    → member issue.id s.claimed ≡ false
    → running_count s < cfg.max_concurrent_agents
    → running_count_for_state s issue.state < slot_limit_for_state cfg issue.state
    → should_dispatch issue s cfg ≡ true
unfolding should_dispatch issue_well_formed issue_routable has_labels available_slots has_state_slot
tests-should_dispatch issue s cfg a b c d e f g h i = ground arith

false_of_not : (b : Bool) → ¬ (b ≡ true) → b ≡ false
false_of_not true h = absurd (h refl)
false_of_not false h = refl

-- An issue is dispatched exactly when all the conditions of `IsEligible` hold.
pub should_dispatch_iff :
    (issue : Issue) (s : OrchestratorState) (cfg : ServiceConfig)
    → (should_dispatch issue s cfg ≡ true) ↔ IsEligible issue s cfg
should_dispatch_iff issue s cfg = (forward, backward)
  where
    forward : should_dispatch issue s cfg ≡ true → IsEligible issue s cfg
    forward h =
        let t = should_dispatch-tests issue s cfg h in
        record {
          required = t.0;
          active = (is_active_iff cfg issue.state).0 t.1;
          not_terminal = λ l. cc ((is_terminal_iff cfg issue.state).1 l, t.2);
          dispatchable = t.3;
          labelled = labels_match-Carries _ _ t.4;
          not_running = t.5;
          not_claimed = t.6;
          global_slot = t.7;
          state_slot = t.8;
        }

    backward : IsEligible issue s cfg → should_dispatch issue s cfg ≡ true
    backward e =
        tests-should_dispatch issue s cfg e.required ((is_active_iff cfg issue.state).1 e.active)
          (false_of_not _ (λ t. e.not_terminal ((is_terminal_iff cfg issue.state).0 t)))
          e.dispatchable (Carries-labels_match _ _ e.labelled) e.not_running e.not_claimed
          e.global_slot e.state_slot
