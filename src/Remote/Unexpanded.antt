-- ===== src/Remote/Unexpanded.antt =====
-- A POSIX shell expands nothing in a command that ssh/worker.py quotes.
use symphony_python.Prelude.{
  ℕ, ◌≡◌, refl, sym, ap, ◌∙◌, Bool, true, false, not, ◌&&◌, Option, none, some, List, [], ◌∷◌, ◌++◌,
  append_assoc, append-nil, map, all, inl, inr, Bool-cases, arith, ◌==◌, ==_iff,
}
use symphony_python.Text.{Text}
use symphony_python.Remote.Quote.{
  is_safe, escape_quotes, quote, quote_remote, Token, render_token, render, joined_by, with_token,
}
use symphony_python.Remote.Shell.{Shell, is_special, is_space, shell_step, shell_words, ended_word}

-- A character that the shell adds to a word
unfoldable is_plain : ℕ → Bool
is_plain c = not (is_space c) && not (c == 39) && not (c == 34) && not (is_special c)

safe-plain : (c : ℕ) → is_safe c ≡ true → is_plain c ≡ true
unfolding is_safe is_plain is_space is_special
safe-plain c h = ground arith

word_step :
    (word : Text) (c : ℕ)
    → is_plain c ≡ true
    → shell_step (Shell.in_word word) c ≡ some (Shell.in_word (word ++ c ∷ []))
unfolding shell_step is_plain
word_step word c h = ground arith

between_step :
    (c : ℕ) → is_plain c ≡ true → shell_step Shell.between c ≡ some (Shell.in_word (c ∷ []))
unfolding shell_step is_plain
between_step c h = ground arith

single_step :
    (word : Text) (c : ℕ)
    → (c == 39) ≡ false
    → shell_step (Shell.in_single word) c ≡ some (Shell.in_single (word ++ c ∷ []))
unfolding shell_step
single_step word c h = ground arith

both_true : (a b : Bool) → (a && b) ≡ true → (a ≡ true) × (b ≡ true)
both_true a b h = ground arith

word-plain :
    (word s rest : Text)
    → all is_plain s ≡ true
    → shell_words (Shell.in_word word) (s ++ rest) ≡ shell_words (Shell.in_word (word ++ s)) rest
unfolding shell_words all ended_word
word-plain word [] rest h = rw (append-nil word) refl
word-plain word (c ∷ s) rest h =
    let (one, more) = both_true (is_plain c) (all is_plain s) h in
    rw (word_step word c one)
      (word-plain (word ++ c ∷ []) s rest more ∙ rw (append_assoc word (c ∷ []) s) refl)

single-close :
    (word rest : Text)
    → shell_words (Shell.in_single word) (39 ∷ rest) ≡ shell_words (Shell.in_word word) rest
unfolding shell_words shell_step ended_word
single-close word rest = refl

-- The four characters that stand for a quote between two single-quoted parts
single-escaped :
    (word rest : Text)
    → shell_words (Shell.in_single word) (39 ∷ 34 ∷ 39 ∷ 34 ∷ 39 ∷ rest)
      ≡ shell_words (Shell.in_single (word ++ 39 ∷ [])) rest
unfolding shell_words shell_step ended_word is_space
single-escaped word rest = refl

single-one :
    (word rest : Text) (c : ℕ)
    → (c == 39) ≡ false
    → shell_words (Shell.in_single word) (c ∷ rest)
      ≡ shell_words (Shell.in_single (word ++ c ∷ [])) rest
unfolding shell_words ended_word
single-one word rest c h = rw (single_step word c h) refl

single-quoted :
    (word s rest : Text)
    → shell_words (Shell.in_single word) (escape_quotes s ++ 39 ∷ rest)
      ≡ shell_words (Shell.in_word (word ++ s)) rest
unfolding escape_quotes
single-quoted word [] rest = rw (append-nil word) (single-close word rest)
single-quoted word (c ∷ s) rest = elim (Bool-cases (c == 39)) [
  | inr e ↦ rw e (
      single-one word (escape_quotes s ++ 39 ∷ rest) c e
      ∙ single-quoted (word ++ c ∷ []) s rest
      ∙ rw (append_assoc word (c ∷ []) s) refl)
  | inl e ↦
      rw (e, (==_iff c 39).0 e)
        (single-escaped word (escape_quotes s ++ 39 ∷ rest)
          ∙ single-quoted (word ++ 39 ∷ []) s rest
          ∙ rw (append_assoc word (39 ∷ []) s) refl)
]

between-open :
    (rest : Text) → shell_words Shell.between (39 ∷ rest) ≡ shell_words (Shell.in_single []) rest
unfolding shell_words shell_step ended_word is_space
between-open rest = refl

between-plain :
    (c : ℕ) (s rest : Text)
    → all is_plain (c ∷ s) ≡ true
    → shell_words Shell.between (c ∷ s ++ rest) ≡ shell_words (Shell.in_word (c ∷ s)) rest
unfolding shell_words all ended_word
between-plain c s rest h =
    let (one, more) = both_true (is_plain c) (all is_plain s) h in
    rw (between_step c one) (word-plain (c ∷ []) s rest more)

all-plain : (s : Text) → all is_safe s ≡ true → all is_plain s ≡ true
unfolding all
all-plain [] h = refl
all-plain (c ∷ s) h = ground (arith, safe-plain c, all-plain s)

-- From between two words, the shell reads a quoted text as one whole word.
shell_words-quote :
    (s rest : Text)
    → shell_words Shell.between (quote s ++ rest) ≡ shell_words (Shell.in_word s) rest
unfolding quote
shell_words-quote [] rest = between-open (39 ∷ rest) ∙ single-close [] rest
shell_words-quote (c ∷ s) rest = elim (Bool-cases (all is_safe (c ∷ s))) [
  | inl e ↦ rw e (between-plain c s rest (all-plain (c ∷ s) e))
  | inr e ↦ rw e (
      between-open ((escape_quotes (c ∷ s) ++ 39 ∷ []) ++ rest)
      ∙ ap (shell_words (Shell.in_single [])) (append_assoc (escape_quotes (c ∷ s)) (39 ∷ []) rest)
      ∙ single-quoted [] (c ∷ s) rest)
]

render_token-word :
    (s rendered : Text) → render_token (Token.word s) ≡ some rendered → quote s ≡ rendered
unfolding render_token quote_remote
render_token-word s rendered h = ground arith

word-space :
    (word rest : Text)
    → shell_words (Shell.in_word word) (32 ∷ rest)
      ≡ with_token (some word) (shell_words Shell.between rest)
unfolding shell_words shell_step ended_word is_space
word-space word rest = refl

word-end : (word : Text) → shell_words (Shell.in_word word) [] ≡ some (word ∷ [])
unfolding shell_words
word-end word = refl

joined_by-inv :
    (a b : Option Text) (line : Text)
    → joined_by a b ≡ some line
    → (first : Text) × (later : Text) × (a ≡ some first)
      × (b ≡ some later)
      × (first ++ 32 ∷ later ≡ line)
joined_by-inv none none line h = ground arith
joined_by-inv none (some b) line h = ground arith
joined_by-inv (some a) none line h = ground arith
joined_by-inv (some a) (some b) line h = (a, b, refl, refl, cc)

render-inv :
    (t next : Token) (tokens : List Token) (line : Text)
    → render t (next ∷ tokens) ≡ some line
    → (first : Text) × (later : Text) × (render_token t ≡ some first)
      × (render next tokens ≡ some later)
      × (first ++ 32 ∷ later ≡ line)
unfolding render
render-inv t next tokens line h = joined_by-inv (render_token t) (render next tokens) line h

-- A command of words that is rendered is read by a shell as exactly these words.
pub shell_words-render :
    (s : Text) (words : List Text) (line : Text)
    → render (Token.word s) (map Token.word words) ≡ some line
    → shell_words Shell.between line ≡ some (s ∷ words)
shell_words-render s [] line h =
    let same = render_token-word s line (unfold render in h) in
    ap (shell_words Shell.between) (sym (append-nil (quote s) ∙ same))
    ∙ shell_words-quote s []
    ∙ word-end s
shell_words-render s (next ∷ words) line h =
    let (first, later, at_first, at_later, same) =
      render-inv (Token.word s) (Token.word next) (map Token.word words) line h in
    ap (shell_words Shell.between)
      (sym same ∙ ap (λ f. f ++ 32 ∷ later) (sym (render_token-word s first at_first)))
    ∙ shell_words-quote s (32 ∷ later)
    ∙ word-space s later
    ∙ ap (with_token (some s)) (shell_words-render next words later at_later)
