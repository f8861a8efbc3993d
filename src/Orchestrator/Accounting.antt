-- ===== src/Orchestrator/Accounting.antt =====
-- What agent updates do to the token counts and to the recent events of an entry.
use mathlib.Core.List.{append_assoc, append-nil}
use symphony_python.Prelude.{
  ℕ, zero, suc, ◌+◌, ◌-◌, ◌≤◌, ◌≡◌, refl, sym, ap, ◌∙◌, inl, inr, Option, none, some, List, [], ◌∷◌,
  ◌++◌, arith, length, length-append, Option-cases,
}
use symphony_python.Text.{Text}
use symphony_python.Dict.{Dict, get, put}
use symphony_python.Models.{LiveSession, CodexTotals, RecentEvent, RunningEntry}
use symphony_python.Orchestrator.State.{Orchestrator, World}
use symphony_python.Orchestrator.Tokens.{
  AgentEvent, PayloadReaders, absorb_session_ids, credit_session, credit_totals, apply_token_totals,
  absorb_token_totals,
}
use symphony_python.Orchestrator.Updates.{
  recent_event_limit, drop, append_recent, update_session, update_entry, handle_agent_update,
}

module _ {ℓ} {A : Type ℓ} where
  length-drop : (n : ℕ) (xs : List A) → length (drop n xs) ≡ length xs - n
  length-drop zero xs = omega arith
  length-drop (suc n) [] = omega arith
  length-drop (suc n) (x ∷ xs) = omega (arith, length-drop n xs)

  drop-append : (n : ℕ) (xs ys : List A) → n ≤ length xs → drop n xs ++ ys ≡ drop n (xs ++ ys)
  drop-append zero xs ys l = refl
  drop-append (suc n) [] ys l = absurd (omega arith)
  drop-append (suc n) (x ∷ xs) ys l = drop-append n xs ys (omega arith)

  drop_all : (n : ℕ) → drop {A = A} n [] ≡ []
  drop_all zero = refl
  drop_all (suc n) = refl

  drop-drop : (m n : ℕ) (xs : List A) → drop m (drop n xs) ≡ drop (n + m) xs
  drop-drop m zero xs = ap (λ i. drop i xs) (omega arith)
  drop-drop m (suc n) [] = drop_all m ∙ sym (drop_all (suc n + m))
  drop-drop m (suc n) (x ∷ xs) =
      drop-drop m n xs ∙ ap (λ i. drop {A = A} i (x ∷ xs)) {x = suc (n + m)} (omega arith)

abbrev last_events : List RecentEvent → List RecentEvent
last_events es = drop (length es - recent_event_limit) es

append_recent-last_events :
    (e : RecentEvent) (es : List RecentEvent)
    → append_recent e (last_events es) ≡ last_events (es ++ e ∷ [])
unfolding append_recent
append_recent-last_events e es =
    let n = length es - recent_event_limit in
    let longer = es ++ e ∷ [] in
    ap (λ a. drop (length a - recent_event_limit) a) (drop-append n es (e ∷ []) (omega arith))
    ∙ ap (λ l. drop (l - recent_event_limit) (drop n longer)) (length-drop n longer)
    ∙ drop-drop (length longer - n - recent_event_limit) n longer
    ∙ ap (λ i. drop i longer) (omega (arith, length-append es (e ∷ [])))

-- The log of an entry after some events
abbrev pub recorded : List RecentEvent → List RecentEvent → List RecentEvent
recorded [] log = log
recorded (e ∷ es) log = recorded es (append_recent e log)

recorded_from :
    (es past : List RecentEvent) → recorded es (last_events past) ≡ last_events (past ++ es)
recorded_from [] past = ap last_events (sym (append-nil past))
recorded_from (e ∷ es) past =
    ap (recorded es) (append_recent-last_events e past)
    ∙ recorded_from es (past ++ e ∷ [])
    ∙ ap last_events (append_assoc past (e ∷ []) es)

-- A log that starts empty holds the last 20 events, or all of them if they are fewer, oldest first.
pub append_recent-recorded :
    (es : List RecentEvent) → recorded es [] ≡ drop (length es - recent_event_limit) es
append_recent-recorded es = recorded_from es []

-- The tokens that the sessions of the running entries are credited with
abbrev pub session_tokens : RunningEntry → ℕ
session_tokens entry =
    entry.session.codex_input_tokens + entry.session.codex_output_tokens
    + entry.session.codex_total_tokens

abbrev pub running_tokens : Dict RunningEntry → ℕ
running_tokens [] = 0
running_tokens ((k, entry) ∷ rest) = session_tokens entry + running_tokens rest

abbrev pub total_tokens : CodexTotals → ℕ
total_tokens totals = totals.input_tokens + totals.output_tokens + totals.total_tokens

running_tokens-put :
    (k : Text) (e e' : RunningEntry) (d : Dict RunningEntry)
    → get k d ≡ some e
    → running_tokens (put k e' d) + session_tokens e ≡ running_tokens d + session_tokens e'
unfolding get put
running_tokens-put k e e' [] g = cc
running_tokens-put k e e' ((j, f) ∷ d) g = ground (arith, running_tokens-put k e e' d)

-- What an agent update is credited with in the session is credited in the aggregate.
Credits : LiveSession → CodexTotals → LiveSession × CodexTotals → Type 0
Credits session totals (session', totals') =
    (session'.codex_input_tokens + totals.input_tokens
      ≡ session.codex_input_tokens + totals'.input_tokens)
    × (session'.codex_output_tokens + totals.output_tokens
        ≡ session.codex_output_tokens + totals'.output_tokens)
    × (session'.codex_total_tokens + totals.total_tokens
        ≡ session.codex_total_tokens + totals'.total_tokens)

absorb-Credits :
    (r : Option (ℕ × ℕ × ℕ)) (s : LiveSession) (t : CodexTotals)
    → Credits s t (absorb_token_totals r (s, t))
unfolding absorb_token_totals apply_token_totals credit_session credit_totals Credits
absorb-Credits none s t = (refl, refl, refl)
absorb-Credits (some (i, o, x)) s t = (omega arith, omega arith, omega arith)

update_session-Credits :
    (readers : PayloadReaders) (w : World) (event : AgentEvent) (s : LiveSession) (t : CodexTotals)
    → Credits s t (update_session readers w event (s, t))
unfolding Credits update_session absorb_session_ids
update_session-Credits readers w event s t =
    absorb-Credits (readers.extract_token_totals event.payload) _ t

-- By an agent update the tokens of all running sessions, input, output and total counts taken
-- together, grow by as much as those of the aggregate.
pub handle_agent_update-running_tokens :
    (readers : PayloadReaders) (w : World) (k : Text) (event : AgentEvent) (o : Orchestrator)
    → let o' = handle_agent_update readers w k event o in
      running_tokens o'.state.running + total_tokens o.state.codex_totals
      ≡ running_tokens o.state.running + total_tokens o'.state.codex_totals
unfolding handle_agent_update update_entry Credits
handle_agent_update-running_tokens readers w k event o =
    elim (Option-cases (get k o.state.running)) [
      | inl e ↦ rw (e, handle_agent_update) refl
      | inr (entry, e) ↦
          rw (e, handle_agent_update)
            (let after = update_session readers w event (entry.session, o.state.codex_totals) in
              let put_lem =
                running_tokens-put k entry (update_entry after.0 entry) o.state.running e in
              let (c_in, c_out, c_total) =
                update_session-Credits readers w event entry.session o.state.codex_totals in
              omega (arith, put_lem, c_in, c_out, c_total))
    ]
