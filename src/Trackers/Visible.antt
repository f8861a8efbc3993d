-- ===== src/Trackers/Visible.antt =====
-- `fetch_issues_by_ids` of trackers/memory.py reads the visible records, whatever the batch size.
use symphony_python.Prelude.{
  ◌≡◌, refl, sym, ap, ◌∙◌, Bool, true, false, Option, none, some, List, [], ◌∷◌, ◌++◌, or_else, inl,
  inr, Bool-cases, arith, if◌then◌else◌,
}
use symphony_python.Text.{Text, text_eq_iff}
use symphony_python.Dict.{Dict, get, has-get, get-put}
use symphony_python.Json.{Fields}
use symphony_python.Models.{Issue, DateTime}
use symphony_python.Trackers.Memory.{
  Answer, got, failed, Operation, Memory, dispatch_id, in_scope, opt_eq, normalize, find_in,
  is_target,
}
use symphony_python.Trackers.Reads.{
  paginate, wanted_ids, set_default, index_from, with_issue, found_issue, join_answers,
  served_batch, list_batch, serve_batches, fetch_issues_by_ids,
}
use symphony_python.Trackers.Idle.{IsIdle, with_calls, provider_call_idle}
use symphony_python.Trackers.Paging.{joined, joined-paginate}

or_else-none {ℓ} : {A : Type ℓ} (o : Option A) → or_else o none ≡ o
or_else-none none = refl
or_else-none (some a) = refl

or_else_if {ℓ} :
    {A : Type ℓ} (o : Option A) (b : Bool) (a : A) (later : Option A)
    → or_else (or_else o (if b then some a else none)) later
      ≡ or_else o (if b then some a else later)
or_else_if none true a later = refl
or_else_if none false a later = refl
or_else_if (some x) b a later = refl

-- What the index has for an id is what it had, or else `r` where `r` is visible under that id.
get-set_default :
    (id : Text) (found : Option Text) (r : Fields) (d : Dict Fields)
    → get id (set_default found r d)
      ≡ or_else (get id d) (if opt_eq found (some id) then some r else none)
get-set_default id none r d = sym (or_else-none (get id d))
get-set_default id (some j) r d = ground (arith, text_eq_iff j id, has-get j d, get-put j id r d)

get-index_from :
    (scope : Option Text) (id : Text) (records : List Fields) (d : Dict Fields)
    → get id (index_from scope records d) ≡ or_else (get id d) (find_in scope id records)
unfolding index_from find_in is_target
get-index_from scope id [] d = sym (or_else-none (get id d))
get-index_from scope id (r ∷ records) d = elim (Bool-cases (in_scope scope r)) [
  | inr e ↦ rw e (get-index_from scope id records d)
  | inl e ↦
      rw
        (
          e,
          get-index_from scope id records (set_default (dispatch_id r) r d),
          get-set_default id (dispatch_id r) r d,
        )
        (or_else_if (get id d) (opt_eq (dispatch_id r) (some id)) r (find_in scope id records))
]

-- The issues of the visible records with these ids; the first malformed record is the result.
unfoldable pub visible_issues :
    (Fields → Answer Issue) → Option Text → List Fields → List Text → Answer (List Issue)
visible_issues read scope records [] = got []
visible_issues read scope records (id ∷ ids) =
    found_issue read (find_in scope id records) (visible_issues read scope records ids)

-- The answers to two batches, put together
abbrev both : Answer (List Issue) → Answer (List Issue) → Answer (List Issue)
both (got xs) rest = join_answers xs rest
both (failed e) rest = failed e

got_nil : (a : Answer (List Issue)) → a ≡ both (got []) a
got_nil (got xs) = refl
got_nil (failed e) = refl

both_assoc :
    (x : Answer Issue) (a b : Answer (List Issue))
    → with_issue x (both a b) ≡ both (with_issue x a) b
both_assoc (failed e) a b = refl
both_assoc (got x) (got xs) (got ys) = refl
both_assoc (got x) (got xs) (failed e) = refl
both_assoc (got x) (failed e) b = refl

module _ (read : Fields → Answer Issue) where
  found_issue-both :
      (o : Option Fields) (a b : Answer (List Issue))
      → found_issue read o (both a b) ≡ both (found_issue read o a) b
  found_issue-both none a b = refl
  found_issue-both (some r) a b = both_assoc (read r) a b

  visible_issues-append :
      (scope : Option Text) (records : List Fields) (ids rest : List Text)
      → visible_issues read scope records (ids ++ rest)
        ≡ both (visible_issues read scope records ids) (visible_issues read scope records rest)
  unfolding visible_issues
  visible_issues-append scope records [] rest = got_nil (visible_issues read scope records rest)
  visible_issues-append scope records (id ∷ ids) rest =
      ap (found_issue read (find_in scope id records))
        (visible_issues-append scope records ids rest)
      ∙ found_issue-both (find_in scope id records) (visible_issues read scope records ids)
          (visible_issues read scope records rest)

module _ (from_iso_format : Text → Option DateTime) where
  -- A batch is answered from the visible records.
  list_batch-visible :
      (memory : Memory) (batch : List Text)
      → list_batch from_iso_format memory (index_from memory.scope memory.records []) batch
        ≡ visible_issues (normalize from_iso_format memory) memory.scope memory.records batch
  unfolding list_batch visible_issues get
  list_batch-visible memory [] = refl
  list_batch-visible memory (id ∷ batch) =
      rw (get-index_from memory.scope id memory.records [], list_batch-visible memory batch) refl

  served_batch_idle :
      (answer : Answer (List Issue)) (called : Memory)
      (later : Memory → Memory × Answer (List Issue))
      → (served_batch answer (called, none) later).1 ≡ both answer (later called).1
  unfolding served_batch
  served_batch_idle (got xs) called later = refl
  served_batch_idle (failed e) called later = refl

  serve_batches-idle :
      (batches : List (List Text)) (memory : Memory)
      → IsIdle memory
      → (serve_batches from_iso_format (index_from memory.scope memory.records []) batches memory).1
        ≡ visible_issues
            (normalize from_iso_format memory)
            memory.scope
            memory.records
            (joined batches)
  unfolding serve_batches normalize visible_issues
  serve_batches-idle [] memory idle = refl
  serve_batches-idle (batch ∷ batches) memory idle =
      let by_id = index_from memory.scope memory.records [] in
      let called = with_calls (Operation.ids_batch ∷ []) memory in
      let answer = list_batch from_iso_format memory by_id batch in
      let later = serve_batches from_iso_format by_id batches in
      ap (λ call. (served_batch answer call later).1)
        (provider_call_idle Operation.ids_batch memory idle)
      ∙ served_batch_idle answer called later
      ∙ ap (both answer) (serve_batches-idle batches called idle)
      ∙ ap
          (λ a. both a (
            visible_issues (normalize from_iso_format memory) memory.scope memory.records
              (joined batches)))
          (list_batch-visible memory batch)
      ∙ sym (
          visible_issues-append (normalize from_iso_format memory) memory.scope memory.records batch
            (joined batches))

  -- While the adapter is open and no fault is armed, a request for at least one id is answered from
  -- the records that `_find_record` finds for the distinct ids, in the order of their first
  -- mention: an id without a visible record is left out, and a malformed visible record is the
  -- error. The batch size has no influence on the answer.
  pub fetch_issues_by_ids-visible_issues :
      (id : Text) (ids : List Text) (memory : Memory)
      → IsIdle memory
      → (fetch_issues_by_ids from_iso_format (id ∷ ids) memory).1
        ≡ visible_issues
            (normalize from_iso_format memory)
            memory.scope
            memory.records
            (wanted_ids (id ∷ ids))
  unfolding fetch_issues_by_ids
  fetch_issues_by_ids-visible_issues id ids memory idle =
      serve_batches-idle (paginate memory.max_ids_per_request (wanted_ids (id ∷ ids))) memory idle
      ∙ ap (visible_issues (normalize from_iso_format memory) memory.scope memory.records)
          (joined-paginate memory.max_ids_per_request (wanted_ids (id ∷ ids)))
