-- ===== src/Trackers/Distinct.antt =====
-- The ids of the issues that `fetch_issues_by_ids` of trackers/memory.py returns.
use symphony_python.Prelude.{
  ◌≡◌, refl, sym, subst, ap, ◌∙◌, Bool, true, false, ◌||◌, Option, none, some, List, [], ◌∷◌, ◌++◌,
  map, keep, inl, inr, Bool-cases, Option-cases, arith, if◌then◌else◌,
}
use symphony_python.Text.{Text, codes, truthy, strip, text_eq_iff}
use symphony_python.Dict.{member}
use symphony_python.Json.{Fields}
use symphony_python.Models.{Issue, DateTime}
use symphony_python.Trackers.Normalize.{with_new, require_str}
use symphony_python.Trackers.Memory.{
  Answer, got, failed, Memory, dispatch_id, opt_eq, normalize, issue_from, dispatchable_of, find_in,
  is_target, is_found,
}
use symphony_python.Trackers.Reads.{wanted_from, wanted_ids, with_issue, fetch_issues_by_ids}
use symphony_python.Trackers.Idle.{IsIdle}
use symphony_python.Trackers.Visible.{visible_issues, fetch_issues_by_ids-visible_issues}

-- No text occurs twice.
abbrev pub IsDistinct : List Text → Type 0
IsDistinct [] = Unit
IsDistinct (s ∷ rest) = (member s rest ≡ false) × IsDistinct rest

member-append : (k : Text) (xs ys : List Text) → member k (xs ++ ys) ≡ (member k xs || member k ys)
unfolding member
member-append k [] ys = refl
member-append k (x ∷ xs) ys = ground (arith, member-append k xs ys)

fresh_head :
    (s x : Text) (xs : List Text)
    → member x xs ≡ false
    → member s (x ∷ xs) ≡ false
    → member x (xs ++ s ∷ []) ≡ false
unfolding member
fresh_head s x xs h fresh =
    ground (arith, member-append x xs (s ∷ []), text_eq_iff x s, text_eq_iff s x)

fresh_tail : (s x : Text) (xs : List Text) → member s (x ∷ xs) ≡ false → member s xs ≡ false
unfolding member
fresh_tail s x xs fresh = ground arith

IsDistinct-append :
    (s : Text) (xs : List Text) → IsDistinct xs → member s xs ≡ false → IsDistinct (xs ++ s ∷ [])
IsDistinct-append s [] h fresh = (unfold member in refl, tt)
IsDistinct-append s (x ∷ xs) (h, hs) fresh =
    (fresh_head s x xs h fresh, IsDistinct-append s xs hs (fresh_tail s x xs fresh))

with_new-IsDistinct :
    (o : Option Text) (seen : List Text) → IsDistinct seen → IsDistinct (with_new o seen)
with_new-IsDistinct none seen h = h
with_new-IsDistinct (some s) seen h = elim (Bool-cases (member s seen)) [
  | inl e ↦ rw e h
  | inr e ↦ rw e (IsDistinct-append s seen h e)
]

wanted_from-IsDistinct :
    (ids wanted : List Text) → IsDistinct wanted → IsDistinct (wanted_from ids wanted)
unfolding wanted_from
wanted_from-IsDistinct [] wanted h = h
wanted_from-IsDistinct (s ∷ ids) wanted h =
    wanted_from-IsDistinct ids _
      (with_new-IsDistinct (if truthy (strip s) then some (strip s) else none) wanted h)

member-keep :
    (p : Text → Bool) (k : Text) (xs : List Text)
    → member k xs ≡ false
    → member k (keep p xs) ≡ false
unfolding member keep
member-keep p k [] h = refl
member-keep p k (x ∷ xs) h = ground (arith, member-keep p k xs)

keep-IsDistinct : (p : Text → Bool) (xs : List Text) → IsDistinct xs → IsDistinct (keep p xs)
unfolding keep
keep-IsDistinct p [] h = tt
keep-IsDistinct p (x ∷ xs) (h, hs) = elim (Bool-cases (p x)) [
  | inl e ↦ rw e (member-keep p x xs h, keep-IsDistinct p xs hs)
  | inr e ↦ rw e (keep-IsDistinct p xs hs)
]

pub opt_eq-eq : (o : Option Text) (id : Text) → opt_eq o (some id) ≡ true → o ≡ some id
opt_eq-eq none id h = ground arith
opt_eq-eq (some s) id h = ap some ((text_eq_iff s id).0 h)

find_in-dispatch_id :
    (scope : Option Text) (id : Text) (records : List Fields) (r : Fields)
    → find_in scope id records ≡ some r
    → dispatch_id r ≡ some id
unfolding find_in is_target
find_in-dispatch_id scope id [] r h = ground arith
find_in-dispatch_id scope id (x ∷ records) r h =
    ground (arith, opt_eq-eq (dispatch_id x) id, find_in-dispatch_id scope id records r)

-- An issue that is there has this id.
abbrev IsAbout : Text → Answer Issue → Type 0
IsAbout id (got issue) = issue.id ≡ id
IsAbout id (failed e) = Unit

issue_from-IsAbout :
    (iso : Text → Option DateTime) (fields : Fields) (id : Text)
    (identifier title state : Option Text) (dispatchable : Option Bool)
    → IsAbout id (issue_from iso fields (some id) identifier title state dispatchable)
issue_from-IsAbout iso fields id none title state dispatchable = tt
issue_from-IsAbout iso fields id (some _) none state dispatchable = tt
issue_from-IsAbout iso fields id (some _) (some _) none dispatchable = tt
issue_from-IsAbout iso fields id (some _) (some _) (some _) none = tt
issue_from-IsAbout iso fields id (some _) (some _) (some _) (some _) = refl

module _ (from_iso_format : Text → Option DateTime) (memory : Memory) where
  normalize-IsAbout :
      (r : Fields) (id : Text)
      → dispatch_id r ≡ some id
      → IsAbout id (normalize from_iso_format memory r)
  unfolding normalize
  normalize-IsAbout r id h = rw h (
      issue_from-IsAbout from_iso_format r id (require_str r (codes "identifier"))
        (require_str r (codes "title")) (require_str r (codes "state"))
        (dispatchable_of memory.require_assignee memory.terminal_set r))

  abbrev pub is_visible : Text → Bool
  is_visible id = is_found (find_in memory.scope id memory.records)

  -- What `visible_issues` returns for these ids has the visible ones.
  abbrev HasIds : List Text → Answer (List Issue) → Type 0
  HasIds ids (got issues) = map (λ i. i.id) issues ≡ ids
  HasIds ids (failed e) = Unit

  with_issue-HasIds :
      (id : Text) (ids : List Text) (a : Answer Issue) (rest : Answer (List Issue))
      → IsAbout id a
      → HasIds ids rest
      → HasIds (id ∷ ids) (with_issue a rest)
  with_issue-HasIds id ids (failed e) rest h hs = tt
  with_issue-HasIds id ids (got i) (failed e) h hs = tt
  with_issue-HasIds id ids (got i) (got issues) h hs = rw (h, hs) refl

  visible_issues-HasIds :
      (ids : List Text)
      → HasIds
          (keep is_visible ids)
          (visible_issues (normalize from_iso_format memory) memory.scope memory.records ids)
  unfolding visible_issues keep
  visible_issues-HasIds [] = refl
  visible_issues-HasIds (id ∷ ids) = elim (Option-cases (find_in memory.scope id memory.records)) [
    | inl e ↦ rw e (visible_issues-HasIds ids)
    | inr (r, e) ↦ rw e (
        with_issue-HasIds id (keep is_visible ids) (normalize from_iso_format memory r)
          (visible_issues (normalize from_iso_format memory) memory.scope memory.records ids)
          (normalize-IsAbout r id (find_in-dispatch_id memory.scope id memory.records r e))
          (visible_issues-HasIds ids))
  ]

  -- The issues that a request returns, where nothing fails, have exactly the distinct requested ids
  -- that are visible, each once, in the order of their first mention. The adapter is open and no
  -- fault is armed.
  pub fetch_issues_by_ids-visible_ids :
      (id : Text) (ids : List Text) (issues : List Issue)
      → IsIdle memory
      → (fetch_issues_by_ids from_iso_format (id ∷ ids) memory).1 ≡ got issues
      → (map (λ i. i.id) issues ≡ keep is_visible (wanted_ids (id ∷ ids)))
        × IsDistinct (map (λ i. i.id) issues)
  unfolding wanted_ids
  fetch_issues_by_ids-visible_ids id ids issues idle h =
      let same : map (λ i. i.id) issues ≡ keep is_visible (wanted_ids (id ∷ ids)) =
        subst (HasIds (keep is_visible (wanted_ids (id ∷ ids))))
          (sym (fetch_issues_by_ids-visible_issues from_iso_format id ids memory idle) ∙ h)
          (visible_issues-HasIds (wanted_ids (id ∷ ids))) in
      (
        same,
        subst IsDistinct (sym same) (
            keep-IsDistinct is_visible (wanted_ids (id ∷ ids))
              (wanted_from-IsDistinct (id ∷ ids) [] tt)),
      )
