-- ===== src/Scheduling.antt =====
-- orchestrator/scheduling.py: sort order, dispatch eligibility and concurrency accounting.
pub mod Precedence
pub mod Order
pub mod Eligible
use symphony_python.Prelude.{
  ℕ, zero, ◌-◌, ℤ, pos_part, leb_ℤ, Bool, true, false, not, ◌&&◌, ◌||◌, Option, none, some, List,
  [], ◌∷◌, ltb, leb, ◌==◌, if◌then◌else◌,
}
use symphony_python.Text.{Text, truthy, strip}
use symphony_python.Dict.{has, member}
use symphony_python.Sorting.{sorted}
use symphony_python.Models.{
  DateTime, Priority, Issue, OrchestratorState, aware, naive, has_labels, has_required_fields,
  running_count, running_count_for_state,
}
use symphony_python.Config.{ServiceConfig, is_active, is_terminal, slot_limit_for_state}

abbrev pub priority_bucket_min : ℤ
priority_bucket_min = ℤ.pos 1

abbrev pub priority_bucket_max : ℤ
priority_bucket_max = ℤ.pos 4

abbrev pub ranked : ℕ
ranked = 0

abbrev pub unranked : ℕ
unranked = 1

unfoldable pub priority_rank : Priority → ℕ × ℕ
priority_rank Priority.absent = (unranked, 0)
priority_rank (Priority.flag b) = (unranked, 0)
priority_rank (Priority.level p) =
    if leb_ℤ priority_bucket_min p && leb_ℤ p priority_bucket_max
    then (ranked, pos_part p)
    else (unranked, 0)

unfoldable pub created_rank : Option DateTime → ℕ × ℕ
created_rank none = (unranked, 0)
created_rank (some (aware t)) = (ranked, t)
created_rank (some (naive t)) = (ranked, t)

pub record SortKey : Type 0 where
  pub priority_bucket : ℕ
  pub priority_value : ℕ
  pub created_bucket : ℕ
  pub created_epoch : ℕ
  pub identifier : Text

unfoldable pub dispatch_sort_key : Issue → SortKey
unfolding priority_rank created_rank
dispatch_sort_key issue =
    let (priority_bucket, priority_value) = priority_rank issue.priority in
    let (created_bucket, created_value) = created_rank issue.created_at in
    record {
      priority_bucket = priority_bucket;
      priority_value = priority_value;
      created_bucket = created_bucket;
      created_epoch = created_value;
      identifier = issue.identifier;
    }

-- `<` on strings, by code points
unfoldable pub text_lt : Text → Text → Bool
text_lt [] [] = false
text_lt [] (y ∷ ys) = true
text_lt (x ∷ xs) [] = false
text_lt (x ∷ xs) (y ∷ ys) = ltb x y || ((x == y) && text_lt xs ys)

-- `<` on the key tuples
unfoldable pub key_lt : SortKey → SortKey → Bool
key_lt a b =
    ltb a.priority_bucket b.priority_bucket
    || ((a.priority_bucket == b.priority_bucket)
        && (ltb a.priority_value b.priority_value
            || ((a.priority_value == b.priority_value)
                && (ltb a.created_bucket b.created_bucket
                    || ((a.created_bucket == b.created_bucket)
                        && (ltb a.created_epoch b.created_epoch
                            || ((a.created_epoch == b.created_epoch)
                                && text_lt a.identifier b.identifier)))))))

abbrev pub issue_lt : Issue → Issue → Bool
issue_lt a b = key_lt (dispatch_sort_key a) (dispatch_sort_key b)

unfoldable pub sort_for_dispatch : List Issue → List Issue
sort_for_dispatch issues = sorted issue_lt issues

-- `issue_well_formed`: the same test as at construction
unfoldable pub issue_well_formed : Issue → Bool
unfolding has_required_fields
issue_well_formed issue = has_required_fields issue

unfoldable pub issue_routable : Issue → ServiceConfig → Bool
issue_routable issue cfg = issue.dispatchable && has_labels issue cfg.required_labels

unfoldable pub available_slots : OrchestratorState → ServiceConfig → ℕ
unfolding running_count
available_slots s cfg = cfg.max_concurrent_agents - running_count s

unfoldable pub has_state_slot : Issue → OrchestratorState → ServiceConfig → Bool
has_state_slot issue s cfg =
    ltb (running_count_for_state s issue.state) (slot_limit_for_state cfg issue.state)

unfoldable pub should_dispatch : Issue → OrchestratorState → ServiceConfig → Bool
should_dispatch issue s cfg =
    if not (issue_well_formed issue)
    then false
    else if not (is_active cfg issue.state) || is_terminal cfg issue.state
    then false
    else if not (issue_routable issue cfg)
    then false
    else if has issue.id s.running || member issue.id s.claimed
    then false
    else if leb (available_slots s cfg) 0
    then false
    else has_state_slot issue s cfg
