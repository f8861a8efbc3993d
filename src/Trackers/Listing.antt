-- ===== src/Trackers/Listing.antt =====
-- `fetch_issues_by_states` of trackers/memory.py reads the selection page by page.
use symphony_python.Prelude.{
  ℕ, suc, ◌≡◌, refl, ap, ◌∙◌, Option, none, List, [], ◌∷◌, ◌++◌, append_assoc, append-nil, map,
}
use symphony_python.Text.{Text}
use symphony_python.Json.{Fields}
use symphony_python.Models.{DateTime}
use symphony_python.Trackers.Memory.{Answer, got, Operation, Memory, normalize}
use symphony_python.Trackers.Reads.{
  Listing, list_page, served_page, map_answer, serve_pages, with_record,
}
use symphony_python.Trackers.Idle.{IsIdle, with_calls, provider_call_idle}
use symphony_python.Trackers.Paging.{joined}

served_page_idle :
    (served : ℕ) (add : Listing → Listing) (called : Memory)
    (later : Memory → Memory × Answer Listing)
    → called.faults.pagination_after_pages ≡ none
    → served_page served add (called, none) later ≡ map_answer add (later called)
unfolding served_page
served_page_idle served add called later paging = rw paging refl

-- One call for each page
abbrev pub page_calls : List (List Fields) → List Operation
page_calls pages = map (λ page. Operation.states_page) pages

module _ (from_iso_format : Text → Option DateTime) where
  normalize-with_calls :
      (ops : List Operation) (memory : Memory) (r : Fields)
      → normalize from_iso_format (with_calls ops memory) r ≡ normalize from_iso_format memory r
  unfolding normalize
  normalize-with_calls ops memory r = refl

  list_page-with_calls :
      (ops : List Operation) (memory : Memory) (page : List Fields) (later : Listing)
      → list_page from_iso_format (with_calls ops memory) page later
        ≡ list_page from_iso_format memory page later
  unfolding list_page
  list_page-with_calls ops memory [] later = refl
  list_page-with_calls ops memory (r ∷ page) later =
      rw (normalize-with_calls ops memory r, list_page-with_calls ops memory page later) refl

  list_page-append :
      (memory : Memory) (page rest : List Fields) (later : Listing)
      → list_page from_iso_format memory (page ++ rest) later
        ≡ list_page from_iso_format memory page (list_page from_iso_format memory rest later)
  unfolding list_page
  list_page-append memory [] rest later = refl
  list_page-append memory (r ∷ page) rest later =
      ap (with_record (normalize from_iso_format memory r))
        (list_page-append memory page rest later)

  pub serve_pages-idle :
      (served : ℕ) (pages : List (List Fields)) (memory : Memory)
      → IsIdle memory
      → serve_pages from_iso_format served pages memory ≡ (
        with_calls (page_calls pages) memory,
        got (list_page from_iso_format memory (joined pages) ([], [])),
      )
  unfolding serve_pages
  serve_pages-idle served [] memory idle = rw (append-nil memory.calls) (unfold list_page in refl)
  serve_pages-idle served (page ∷ pages) memory idle =
      let called = with_calls (Operation.states_page ∷ []) memory in
      let add = list_page from_iso_format memory page in
      let later = serve_pages from_iso_format (suc served) pages in
      ap (λ call. served_page served add call later)
        (provider_call_idle Operation.states_page memory idle)
      ∙ served_page_idle served add called later idle.2
      ∙ ap (map_answer add) (serve_pages-idle (suc served) pages called idle)
      ∙ rw
          (
            list_page-with_calls (Operation.states_page ∷ []) memory (joined pages) ([], []),
            list_page-append memory page (joined pages) ([], []),
            append_assoc memory.calls (Operation.states_page ∷ []) (page_calls pages),
          )
          refl
