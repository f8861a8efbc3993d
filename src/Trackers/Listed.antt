-- ===== src/Trackers/Listed.antt =====
-- What `fetch_issues_by_states` of trackers/memory.py lists, whatever the page size.
use symphony_python.Prelude.{
  ◌≡◌, ◌⊎◌, ◌↔◌, refl, sym, subst, Bool, true, ◌&&◌, Option, none, some, List, [], ◌∷◌, ◌++◌, inl,
  inr, Bool-cases, arith,
}
use symphony_python.Text.{Text, codes, truthy, strip, text_eq, text_eq_iff, text_eq_refl}
use symphony_python.Dict.{member}
use symphony_python.Json.{Fields}
use symphony_python.Models.{Issue, DateTime, normalize_state}
use symphony_python.Trackers.Faults.{TrackerError}
use symphony_python.Trackers.Memory.{
  got, failed, Memory, text_at, in_scope, normalize, issue_from, dispatch_id, dispatchable_of,
}
use symphony_python.Trackers.Normalize.{require_str}
use symphony_python.Trackers.Reads.{
  Listing, wanted_states, state_wanted, select_by_state, paginate, list_page, with_record,
  fetch_issues_by_states,
}
use symphony_python.Trackers.Idle.{IsIdle}
use symphony_python.Trackers.Paging.{joined-paginate}
use symphony_python.Trackers.Listing.{page_calls, serve_pages-idle}
use symphony_python.Trackers.Distinct.{opt_eq-eq}

-- A record of the scope that the adapter is configured with, if it is
abbrev pub IsInScope : Option Text → Fields → Type 0
IsInScope none r = Unit
IsInScope (some scope) r = text_at (codes "scope") r ≡ some scope

-- One of the names is not blank, and is the state up to blanks and case.
abbrev pub IsAsked : List Text → Text → Type 0
IsAsked [] state = ⊥
IsAsked (name ∷ names) state =
    ((truthy (strip name) ≡ true) × (normalize_state name ≡ normalize_state state))
    ⊎ IsAsked names state

-- The record has no state, or one that is asked for.
abbrev pub IsWanted : List Text → Fields → Type 0
IsWanted names r = (state : Text) → text_at (codes "state") r ≡ some state → IsAsked names state

module _ (from_iso_format : Text → Option DateTime) (memory : Memory) (names : List Text) where
  abbrev pub IsSelected : Fields → Type 0
  IsSelected r = IsInScope memory.scope r × IsWanted names r

  -- The issues that some records are listed as, and the fields that the malformed ones lack
  pub data Lists : List Fields → List Issue → List Text → Type 0 where
    lists_none : Lists [] [] []
    skips :
        {r : Fields} {records : List Fields} {issues : List Issue} {omitted : List Text}
        → ¬ IsSelected r
        → Lists records issues omitted
        → Lists (r ∷ records) issues omitted
    lists :
        {r : Fields} {records : List Fields} {issues : List Issue} {omitted : List Text}
        {issue : Issue}
        → IsSelected r
        → normalize from_iso_format memory r ≡ got issue
        → Lists records issues omitted
        → Lists (r ∷ records) (issue ∷ issues) omitted
    omits :
        {r : Fields} {records : List Fields} {issues : List Issue} {omitted : List Text}
        {name : Text}
        → IsSelected r
        → normalize from_iso_format memory r ≡ failed (TrackerError.response_error name)
        → Lists records issues omitted
        → Lists (r ∷ records) issues (name ∷ omitted)

in_scope-IsInScope :
    (scope : Option Text) (r : Fields) → (in_scope scope r ≡ true) ↔ IsInScope scope r
unfolding in_scope
in_scope-IsInScope none r = (λ h. tt, λ h. refl)
in_scope-IsInScope (some scope) r =
    (λ h. opt_eq-eq (text_at (codes "scope") r) scope h, λ h. rw (h, text_eq_refl scope) refl)

wanted_states-IsAsked :
    (names : List Text) (state : Text)
    → (member (normalize_state state) (wanted_states names) ≡ true) ↔ IsAsked names state
unfolding wanted_states member
wanted_states-IsAsked [] state = (λ h. ground arith, λ h. elim h [ ])
wanted_states-IsAsked (name ∷ names) state =
    let (to, from) = wanted_states-IsAsked names state in
    elim (Bool-cases (truthy (strip name))) [
      | inr e ↦ rw e (
        λ h. inr (to h),
        λ h. elim h [ inl (shown, same) ↦ ground arith | inr later ↦ from later ],
      )
      | inl e ↦ rw e (
        λ h. elim (Bool-cases (text_eq (normalize_state name) (normalize_state state))) [
          | inl d ↦ inl (refl, (text_eq_iff (normalize_state name) (normalize_state state)).0 d)
          | inr d ↦ inr (to (ground arith))
        ],
        λ h. elim h [
          | inl (shown, same) ↦
              let d = (text_eq_iff (normalize_state name) (normalize_state state)).1 same in
              ground arith
          | inr later ↦ let d = from later in ground arith
        ],
      )
    ]

state_wanted-IsWanted :
    (names : List Text) (o : Option Text)
    → (state_wanted (wanted_states names) o ≡ true)
      ↔ ((state : Text) → o ≡ some state → IsAsked names state)
state_wanted-IsWanted names none = (λ h state e. ground arith, λ h. refl)
state_wanted-IsWanted names (some t) = (
  λ h state e.
      let same : t ≡ state = cc in subst (IsAsked names) same ((wanted_states-IsAsked names t).0 h),
  λ h. (wanted_states-IsAsked names t).1 (h t refl),
)

and_iff : (a b : Bool) → ((a && b) ≡ true) ↔ ((a ≡ true) × (b ≡ true))
and_iff a b = (λ h. ground arith, λ h. let (h1, h2) = h in ground arith)

selected_iff :
    (scope : Option Text) (names : List Text) (r : Fields)
    → ((in_scope scope r && state_wanted (wanted_states names) (text_at (codes "state") r)) ≡ true)
      ↔ (IsInScope scope r × IsWanted names r)
selected_iff scope names r =
    let wanted = state_wanted (wanted_states names) (text_at (codes "state") r) in
    let both = and_iff (in_scope scope r) wanted in
    let scoped = in_scope-IsInScope scope r in
    let asked = state_wanted-IsWanted names (text_at (codes "state") r) in
    (λ h. let (a, b) = both.0 h in (scoped.0 a, asked.0 b), λ h. both.1 (scoped.1 h.0, asked.1 h.1))

-- A record that does not normalise lacks a field.
issue_from-cases :
    (iso : Text → Option DateTime) (r : Fields) (id identifier title state : Option Text)
    (dispatchable : Option Bool)
    → ((issue : Issue) × (issue_from iso r id identifier title state dispatchable ≡ got issue))
      ⊎ ((name : Text) × (issue_from iso r id identifier title state dispatchable
            ≡ failed (TrackerError.response_error name)))
issue_from-cases iso r none identifier title state dispatchable = inr (codes "id", refl)
issue_from-cases iso r (some id) none title state dispatchable = inr (codes "identifier", refl)
issue_from-cases iso r (some id) (some identifier) none state dispatchable =
    inr (codes "title", refl)
issue_from-cases iso r (some id) (some identifier) (some title) none dispatchable =
    inr (codes "state", refl)
issue_from-cases iso r (some id) (some identifier) (some title) (some state) none =
    inr (codes "dispatchable", refl)
issue_from-cases iso r (some id) (some identifier) (some title) (some state) (some dispatchable) =
    inl (_, refl)

module _ (from_iso_format : Text → Option DateTime) (memory : Memory) where
  normalize-cases :
      (r : Fields)
      → ((issue : Issue) × (normalize from_iso_format memory r ≡ got issue))
        ⊎ ((name : Text) × (normalize from_iso_format memory r
              ≡ failed (TrackerError.response_error name)))
  unfolding normalize
  normalize-cases r =
      issue_from-cases from_iso_format r (dispatch_id r) (require_str r (codes "identifier"))
        (require_str r (codes "title")) (require_str r (codes "state"))
        (dispatchable_of memory.require_assignee memory.terminal_set r)

  abbrev IsListing : List Text → List Fields → Listing → Type 0
  IsListing names records (issues, omitted) =
      Lists from_iso_format memory names records issues omitted

  with_record-IsListing :
      (names : List Text) (r : Fields) (records : List Fields) (listing : Listing)
      → IsInScope memory.scope r × IsWanted names r
      → IsListing names records listing
      → IsListing names (r ∷ records) (with_record (normalize from_iso_format memory r) listing)
  with_record-IsListing names r records (issues, omitted) selected later =
      elim (normalize-cases r) [
        | inl (issue, e) ↦
            subst (λ a. IsListing names (r ∷ records) (with_record a (issues, omitted))) (sym e)
              (Lists.lists selected e later)
        | inr (name, e) ↦
            subst (λ a. IsListing names (r ∷ records) (with_record a (issues, omitted))) (sym e)
              (Lists.omits selected e later)
      ]

  list_page-IsListing :
      (names : List Text) (records : List Fields)
      → IsListing names records (
          list_page from_iso_format memory
            (select_by_state memory.scope (wanted_states names) records)
            ([], []))
  unfolding select_by_state list_page
  list_page-IsListing names [] = Lists.lists_none
  list_page-IsListing names (r ∷ records) =
      let chosen =
        in_scope memory.scope r && state_wanted (wanted_states names) (text_at (codes "state") r) in
      let ih = list_page-IsListing names records in
      elim (Bool-cases chosen) [
        | inl e ↦
            rw e
              (with_record-IsListing names r records _ ((selected_iff memory.scope names r).0 e) ih)
        | inr e ↦
            rw e (Lists.skips (λ h. let yes = (selected_iff memory.scope names r).1 h in cc) ih)
      ]

  -- While the adapter is open and no fault is armed, a request for at least one state answers with
  -- the issues that `Lists` relates to the stored records, and reports the omissions: a record
  -- counts if it is in scope and has a state that is asked for, or none; it is listed as the issue
  -- that it normalises to, in store order, or left out and reported if it is malformed. There is
  -- one provider call for each page of the selection, and the page size has no influence on the
  -- issues.
  pub fetch_issues_by_states-Lists :
      (s : Text) (names : List Text)
      → IsIdle memory
      → let selected = select_by_state memory.scope (wanted_states (s ∷ names)) memory.records in
        (issues : List Issue) × (omitted : List Text) × Lists from_iso_format memory
          (s ∷ names)
          memory.records
          issues
          omitted
        × (fetch_issues_by_states from_iso_format (s ∷ names) memory ≡ (
          record memory {
            calls = memory.calls ++ page_calls (paginate memory.page_size selected);
            omitted = omitted;
          },
          got issues,
        ))
  unfolding fetch_issues_by_states
  fetch_issues_by_states-Lists s names idle =
      let selected = select_by_state memory.scope (wanted_states (s ∷ names)) memory.records in
      let listing = list_page from_iso_format memory selected ([], []) in
      (
        listing.0,
        listing.1,
        list_page-IsListing (s ∷ names) memory.records,
        rw
            (
              serve_pages-idle from_iso_format 0 (paginate memory.page_size selected) memory idle,
              joined-paginate memory.page_size selected,
            )
            refl,
      )
