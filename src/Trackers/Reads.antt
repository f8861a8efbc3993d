-- ===== src/Trackers/Reads.antt =====
-- `fetch_issues_by_states` and `fetch_issues_by_ids` of trackers/memory.py.
use symphony_python.Prelude.{
  ℕ, zero, suc, Bool, true, false, ◌&&◌, Option, none, some, List, [], ◌∷◌, ◌++◌, length, leb,
  if◌then◌else◌,
}
use symphony_python.Text.{Text, codes, truthy, strip}
use symphony_python.Dict.{Dict, TextSet, member, get, has, put}
use symphony_python.Json.{Fields}
use symphony_python.Models.{Issue, DateTime, normalize_state}
use symphony_python.Trackers.Normalize.{with_new}
use symphony_python.Trackers.Faults.{TrackerError, consume}
use symphony_python.Trackers.Memory.{
  Answer, got, failed, Operation, Memory, text_at, dispatch_id, in_scope, normalize, provider_call,
}

module _ {ℓ} {A : Type ℓ} where
  unfoldable pub take : ℕ → List A → List A
  take zero xs = []
  take (suc n) [] = []
  take (suc n) (x ∷ xs) = x ∷ take n xs

  unfoldable pub drop : ℕ → List A → List A
  drop zero xs = xs
  drop (suc n) [] = []
  drop (suc n) (x ∷ xs) = drop n xs

  -- `[xs[i : i + size] for i in range(0, len(xs), size)]`, with a unit of fuel for each element
  unfoldable pub slices : ℕ → ℕ → List A → List (List A)
  slices zero size xs = []
  slices (suc fuel) size [] = []
  slices (suc fuel) size (x ∷ xs) = take size (x ∷ xs) ∷ slices fuel size (drop size (x ∷ xs))

  -- `size or len(xs) or 1`
  abbrev pub slice_size : ℕ → List A → ℕ
  slice_size (suc n) xs = suc n
  slice_size zero [] = 1
  slice_size zero (x ∷ xs) = suc (length xs)

  abbrev pub at_least_one : List (List A) → List (List A)
  at_least_one [] = [] ∷ []
  at_least_one (p ∷ ps) = p ∷ ps

  -- `_paginate` and `_batches`
  unfoldable pub paginate : ℕ → List A → List (List A)
  paginate size xs = at_least_one (slices (length xs) (slice_size size xs) xs)

-- The set of states that `fetch_issues_by_states` asks for
unfoldable pub wanted_states : List Text → TextSet
wanted_states [] = []
wanted_states (s ∷ names) =
    let more = wanted_states names in if truthy (strip s) then normalize_state s ∷ more else more

abbrev pub state_wanted : TextSet → Option Text → Bool
state_wanted wanted none = true
state_wanted wanted (some state) = member (normalize_state state) wanted

-- `_select_by_state`
unfoldable pub select_by_state : Option Text → TextSet → List Fields → List Fields
select_by_state scope wanted [] = []
select_by_state scope wanted (r ∷ records) =
    let more = select_by_state scope wanted records in
    if in_scope scope r && state_wanted wanted (text_at (codes "state") r) then r ∷ more else more

-- The issues that a listing returns, and the fields that its malformed records lack
abbrev pub Listing : Type 0
Listing = List Issue × List Text

abbrev pub with_record : Answer Issue → Listing → Listing
with_record (got issue) (issues, omitted) = (issue ∷ issues, omitted)
with_record (failed (TrackerError.response_error name)) (issues, omitted) = (issues, name ∷ omitted)
with_record (failed e) listing = listing

abbrev page_fault : ℕ → Option ℕ → Bool
page_fault served none = false
page_fault served (some after_pages) = leb after_pages served

abbrev pub map_answer {ℓ κ} :
    {A : Type ℓ} {B : Type κ} → (A → B) → Memory × Answer A → Memory × Answer B
map_answer f (memory, got a) = (memory, got (f a))
map_answer f (memory, failed e) = (memory, failed e)

-- A page behind its provider call, with what its records add and the later pages
unfoldable pub served_page :
    ℕ
    → (Listing → Listing)
    → Memory × Option TrackerError
    → (Memory → Memory × Answer Listing)
    → Memory × Answer Listing
served_page served add (called, some e) later = (called, failed e)
served_page served add (called, none) later =
    if page_fault served called.faults.pagination_after_pages
    then (
      record called { faults = consume called.faults },
      failed (TrackerError.pagination_error served),
    )
    else map_answer add (later called)

abbrev pub reported : Memory × Answer Listing → Memory × Answer (List Issue)
reported (memory, got (issues, omitted)) = (record memory { omitted = omitted }, got issues)
reported (memory, failed e) = (memory, failed e)

abbrev trimmed : Text → Option Text
trimmed s = if truthy (strip s) then some (strip s) else none

unfoldable pub wanted_from : List Text → List Text → List Text
wanted_from [] wanted = wanted
wanted_from (s ∷ ids) wanted = wanted_from ids (with_new (trimmed s) wanted)

-- The distinct ids that are asked for, trimmed, in the order of their first mention
unfoldable pub wanted_ids : List Text → List Text
wanted_ids ids = wanted_from ids []

abbrev pub set_default : Option Text → Fields → Dict Fields → Dict Fields
set_default none r by_id = by_id
set_default (some id) r by_id = if has id by_id then by_id else put id r by_id

-- The loop that fills `by_id`
unfoldable pub index_from : Option Text → List Fields → Dict Fields → Dict Fields
index_from scope [] by_id = by_id
index_from scope (r ∷ records) by_id =
    index_from scope records
      (if in_scope scope r then set_default (dispatch_id r) r by_id else by_id)

abbrev pub with_issue : Answer Issue → Answer (List Issue) → Answer (List Issue)
with_issue (failed e) rest = failed e
with_issue (got issue) (got issues) = got (issue ∷ issues)
with_issue (got issue) (failed e) = failed e

abbrev pub found_issue :
    (Fields → Answer Issue) → Option Fields → Answer (List Issue) → Answer (List Issue)
found_issue read none rest = rest
found_issue read (some r) rest = with_issue (read r) rest

abbrev pub join_answers : List Issue → Answer (List Issue) → Answer (List Issue)
join_answers xs (got ys) = got (xs ++ ys)
join_answers xs (failed e) = failed e

abbrev pub after_batch :
    Memory → Answer (List Issue) → Memory × Answer (List Issue) → Memory × Answer (List Issue)
after_batch called (failed e) later = (called, failed e)
after_batch called (got xs) (memory, answer) = (memory, join_answers xs answer)

-- A batch behind its provider call, and the later ones
unfoldable pub served_batch :
    Answer (List Issue)
    → Memory × Option TrackerError
    → (Memory → Memory × Answer (List Issue))
    → Memory × Answer (List Issue)
served_batch answer (called, some e) later = (called, failed e)
served_batch answer (called, none) later = after_batch called answer (later called)

module _ (from_iso_format : Text → Option DateTime) where
  -- The loop over the records of a page, before what later pages add
  unfoldable pub list_page : Memory → List Fields → Listing → Listing
  list_page memory [] later = later
  list_page memory (r ∷ page) later =
      with_record (normalize from_iso_format memory r) (list_page memory page later)

  -- The loop over the pages
  unfoldable pub serve_pages : ℕ → List (List Fields) → Memory → Memory × Answer Listing
  serve_pages served [] memory = (memory, got ([], []))
  serve_pages served (page ∷ pages) memory =
      served_page served (list_page memory page) (provider_call Operation.states_page memory)
        (serve_pages (suc served) pages)

  -- `fetch_issues_by_states`
  unfoldable pub fetch_issues_by_states : List Text → Memory → Memory × Answer (List Issue)
  fetch_issues_by_states [] memory = (memory, got [])
  fetch_issues_by_states (s ∷ names) memory =
      let selected = select_by_state memory.scope (wanted_states (s ∷ names)) memory.records in
      reported (serve_pages 0 (paginate memory.page_size selected) memory)

  -- The loop over the ids of a batch
  unfoldable pub list_batch : Memory → Dict Fields → List Text → Answer (List Issue)
  list_batch memory by_id [] = got []
  list_batch memory by_id (id ∷ batch) =
      found_issue (normalize from_iso_format memory) (get id by_id) (list_batch memory by_id batch)

  -- The loop over the batches
  unfoldable pub serve_batches :
      Dict Fields → List (List Text) → Memory → Memory × Answer (List Issue)
  serve_batches by_id [] memory = (memory, got [])
  serve_batches by_id (batch ∷ batches) memory =
      served_batch (list_batch memory by_id batch) (provider_call Operation.ids_batch memory)
        (serve_batches by_id batches)

  -- `fetch_issues_by_ids`
  unfoldable pub fetch_issues_by_ids : List Text → Memory → Memory × Answer (List Issue)
  fetch_issues_by_ids [] memory = (memory, got [])
  fetch_issues_by_ids (id ∷ ids) memory =
      serve_batches (index_from memory.scope memory.records [])
        (paginate memory.max_ids_per_request (wanted_ids (id ∷ ids))) memory
