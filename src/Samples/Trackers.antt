-- ===== src/Samples/Trackers.antt =====
-- A tracker of three records, two in the scope of the adapter.
use symphony_python.Prelude.{
  ◌≡◌, refl, true, false, Option, none, some, List, [], ◌∷◌, ◌++◌, map, keep, any, arith,
}
use symphony_python.Text.{Text, codes, text_eq, strip, is_space, rstrip_by, drop_while}
use symphony_python.Dict.{member, get, has, put}
use symphony_python.Json.{Value, Fields}
use symphony_python.Models.{Issue, Priority, DateTime}
use symphony_python.Orchestrator.Tokens.{payload_get, is_true}
use symphony_python.Trackers.Faults.{TrackerError, no_faults, check, fault_of}
use symphony_python.Trackers.Memory.{
  is_target, provider_call, dispatchable_of, has_field, native_ref_of, got, Operation, Memory,
  text_at, dispatch_id, in_scope, normalize, clashes, add_record,
}
use symphony_python.Trackers.Normalize.{
  opt_str, require_str, coerce_blockers, coerce_priority, normalize_labels, parse_rfc3339,
}
use symphony_python.Trackers.Reads.{
  serve_batches, slices, wanted_from, served_batch, list_batch, take, drop, index_from,
  wanted_states, select_by_state, paginate, wanted_ids, fetch_issues_by_states, fetch_issues_by_ids,
}
use symphony_python.Trackers.Listing.{page_calls}
use symphony_python.Trackers.Listed.{Lists, fetch_issues_by_states-Lists}
use symphony_python.Trackers.Visible.{visible_issues, fetch_issues_by_ids-visible_issues}
use symphony_python.Trackers.Distinct.{IsDistinct, is_visible, fetch_issues_by_ids-visible_ids}
use symphony_python.Trackers.Exhausted.{copies, provider_calls, provider_calls-times}
use symphony_python.Trackers.Unique.{AreUnique, add_record-AreUnique}
use symphony_python.Trackers.Tools.{execute_agent_tool}
use symphony_python.Trackers.Boundary.{outside, execute_agent_tool-outside}

abbrev issue_record : Text → Text → Fields
issue_record scope id = Fields.field (codes "scope") (Value.str scope) (
    Fields.field (codes "id") (Value.str id) (
      Fields.field (codes "identifier") (Value.str (codes "E-" ++ id)) (
        Fields.field (codes "title") (Value.str (codes "T"))
          (Fields.field (codes "state") (Value.str (codes "Todo")) Fields.end))))

abbrev one : Fields
one = issue_record (codes "a") (codes "1")

abbrev two : Fields
two = issue_record (codes "a") (codes "2")

abbrev foreign : Fields
foreign = issue_record (codes "b") (codes "1")

abbrev memory : Memory
memory = record {
  scope = some (codes "a");
  page_size = 1;
  max_ids_per_request = 1;
  require_assignee = false;
  terminal_set = codes "done" ∷ [];
  records = one ∷ foreign ∷ [];
  faults = no_faults;
  calls = [];
  omitted = [];
  closed = false;
}

no_date : Text → Option DateTime
no_date s = none

quiet : fault_of memory.faults ≡ none
unfolding fault_of
quiet = refl

fetch_issues_by_states-Lists_example :
    let selected =
      select_by_state memory.scope (wanted_states (codes "todo" ∷ [])) memory.records in
    (issues : List Issue) × (omitted : List Text) × Lists no_date memory
      (codes "todo" ∷ [])
      memory.records
      issues
      omitted
    × (fetch_issues_by_states no_date (codes "todo" ∷ []) memory ≡ (
      record memory {
        calls = memory.calls ++ page_calls (paginate memory.page_size selected);
        omitted = omitted;
      },
      got issues,
    ))
fetch_issues_by_states-Lists_example =
    fetch_issues_by_states-Lists no_date memory (codes "todo") [] (refl, quiet, refl)

fetch_issues_by_ids-visible_issues_example :
    (fetch_issues_by_ids no_date (codes "1" ∷ codes "9" ∷ []) memory).1
    ≡ visible_issues
        (normalize no_date memory)
        memory.scope
        memory.records
        (wanted_ids (codes "1" ∷ codes "9" ∷ []))
fetch_issues_by_ids-visible_issues_example =
    fetch_issues_by_ids-visible_issues no_date (codes "1") (codes "9" ∷ []) memory
      (refl, quiet, refl)

execute_agent_tool-outside_example :
    outside memory.scope
      (execute_agent_tool no_date
        (codes "now")
        (codes "memory_set_state")
        (Value.obj (Fields.field (codes "state") (Value.str (codes "Done")) Fields.end))
        (some (codes "1"))
        memory).0.records
    ≡ outside memory.scope memory.records
execute_agent_tool-outside_example =
    execute_agent_tool-outside no_date (codes "now") (codes "memory_set_state")
      (Value.obj (Fields.field (codes "state") (Value.str (codes "Done")) Fields.end))
      (some (codes "1")) memory

-- A status that two calls meet
abbrev failing : Memory
failing = record memory { faults = record no_faults { status_code = some 503; remaining = some 2 } }

failing_armed : fault_of failing.faults ≡ some (TrackerError.status_error 503)
unfolding fault_of
failing_armed = refl

provider_calls-times_example : provider_calls Operation.states_page 2 failing ≡ (
  record failing { calls = failing.calls ++ copies 2 Operation.states_page; faults = no_faults },
  copies 2 (some (TrackerError.status_error 503)),
)
provider_calls-times_example =
    provider_calls-times Operation.states_page 1 failing (TrackerError.status_error 503) refl
      failing_armed refl

abbrev found_issues : List Issue
found_issues =
    record {
      id = codes "1";
      identifier = codes "E-1";
      title = codes "T";
      state = codes "Todo";
      dispatchable = true;
      native_ref = none;
      description = none;
      priority = Priority.absent;
      branch_name = none;
      url = none;
      assignee_id = none;
      labels = [];
      blocked_by = [];
      created_at = none;
      updated_at = none;
    }
    ∷ []

found : (fetch_issues_by_ids no_date (codes "1" ∷ codes "9" ∷ []) memory).1 ≡ got found_issues
unfolding fetch_issues_by_ids wanted_ids normalize is_target text_at dispatch_id opt_str payload_get
    text_eq strip rstrip_by drop_while is_space in_scope serve_batches paginate slices wanted_from
    member served_batch provider_call check fault_of list_batch take drop get has put index_from
    require_str dispatchable_of is_true any has_field native_ref_of coerce_blockers coerce_priority
    normalize_labels parse_rfc3339
found = refl

fetch_issues_by_ids-visible_ids_example :
    (map (λ i. i.id) found_issues
      ≡ keep (is_visible no_date memory) (wanted_ids (codes "1" ∷ codes "9" ∷ [])))
    × IsDistinct (map (λ i. i.id) found_issues)
fetch_issues_by_ids-visible_ids_example =
    fetch_issues_by_ids-visible_ids no_date memory (codes "1") (codes "9" ∷ []) found_issues
      (refl, quiet, refl) found

-- The scopes of the two records differ.
scopes_apart : text_at (codes "scope") foreign ≡ text_at (codes "scope") one → ⊥
unfolding text_at opt_str payload_get text_eq strip rstrip_by drop_while is_space
scopes_apart h = ground arith

memory-AreUnique : AreUnique memory.records
memory-AreUnique = (((λ h. elim (scopes_apart h) [ ]), tt), (tt, tt))

two_added : add_record two memory ≡ some (record memory { records = one ∷ foreign ∷ two ∷ [] })
unfolding add_record any clashes text_at dispatch_id opt_str payload_get text_eq strip rstrip_by
    drop_while is_space
two_added = refl

add_record-AreUnique_example : AreUnique (one ∷ foreign ∷ two ∷ [])
add_record-AreUnique_example =
    add_record-AreUnique two memory (record memory { records = one ∷ foreign ∷ two ∷ [] })
      memory-AreUnique two_added
