-- ===== src/Orchestrator/Rising.antt =====
-- Cumulative token reports, of which each token counts once.
use symphony_python.Prelude.{ℕ, ◌+◌, ◌≤◌, ◌≡◌, refl, List, [], ◌∷◌, arith}
use symphony_python.Models.{LiveSession, CodexTotals}
use symphony_python.Orchestrator.Tokens.{
  token_delta, credit_session, credit_totals, apply_token_totals,
}

abbrev Totals : Type 0
Totals = ℕ × ℕ × ℕ

-- What a session reported last
abbrev pub reported : LiveSession → Totals
reported s =
    (s.last_reported_input_tokens, s.last_reported_output_tokens, s.last_reported_total_tokens)

-- The reports that arrive one after the other
abbrev pub absorb_all : List Totals → LiveSession × CodexTotals → LiveSession × CodexTotals
absorb_all [] p = p
absorb_all (r ∷ rs) p = absorb_all rs (apply_token_totals r p)

-- No count falls below the one before it.
abbrev pub Rising : Totals → List Totals → Type 0
Rising r [] = Unit
Rising (a, b, c) ((i, o, x) ∷ rs) = (a ≤ i) × (b ≤ o) × (c ≤ x) × Rising (i, o, x) rs

abbrev pub final : Totals → List Totals → Totals
final r [] = r
final r (q ∷ qs) = final q qs

-- Where no count falls, the reports of a session credit it and the aggregate with the difference
-- of the last report and the one before the first.
pub absorb_all-Rising :
    (rs : List Totals) (s : LiveSession) (t : CodexTotals)
    → Rising (reported s) rs
    → let (s', t') = absorb_all rs (s, t) in
      let (i, o, x) = final (reported s) rs in
      (s'.codex_input_tokens + s.last_reported_input_tokens ≡ s.codex_input_tokens + i)
      × (s'.codex_output_tokens + s.last_reported_output_tokens ≡ s.codex_output_tokens + o)
      × (s'.codex_total_tokens + s.last_reported_total_tokens ≡ s.codex_total_tokens + x)
      × (t'.input_tokens + s.last_reported_input_tokens ≡ t.input_tokens + i)
      × (t'.output_tokens + s.last_reported_output_tokens ≡ t.output_tokens + o)
      × (t'.total_tokens + s.last_reported_total_tokens ≡ t.total_tokens + x)
unfolding apply_token_totals credit_session credit_totals token_delta
absorb_all-Rising [] s t h = (refl, refl, refl, refl, refl, refl)
absorb_all-Rising ((i, o, x) ∷ rs) s t (a, b, c, h) =
    let after = apply_token_totals (i, o, x) (s, t) in
    let (p, q, r, u, v, w) = absorb_all-Rising rs after.0 after.1 h in
    (
      omega (arith, a, p),
      omega (arith, b, q),
      omega (arith, c, r),
      omega (arith, a, u),
      omega (arith, b, v),
      omega (arith, c, w),
    )
